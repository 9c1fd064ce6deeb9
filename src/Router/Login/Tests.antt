-- ===== src/Router/Login/Tests.antt =====
-- Sign-ins at concrete inputs.
use picasu.Prelude.{◌+◌, ◌*◌, ◌≤◌, ◌≡◌, refl, true, false, none, some, List, [], ◌∷◌, arith}
use picasu.Model.Text.{Text, text_eq, starts_with}
use picasu.Model.Text.Table.{find}
use picasu.Model.Text.Trim.{trim, trim_start, trim_end, len}
use picasu.Assoc.{get, put, update, remove}
use picasu.Auth.RateLimit
use picasu.Auth.RateLimit.{Bucket}
use picasu.Auth.Users.{ok, UserRecord, Users, validate_user_id}
use picasu.Auth.UserStore.{set_password}
use picasu.Auth.Revocations.{is_revoked, session_key}
use picasu.Auth.LoginThrottle.State.{BucketCfg, LoginThrottle, new, created, build, validate}
use picasu.Auth.LoginThrottle.Slots.{ip_entry, user_entry, reserve, decide_slot, seen_ip, seen_user}
use picasu.Auth.LoginThrottle.Outcome.{record_success, clear_ip}
use picasu.Auth.LoginThrottle.Release.{ip_flight, user_flight}
use picasu.Router.Sessions.{
  user, session, ClaimsSession, new_user, accepted, read, try_jwt_cookie_user,
}
use picasu.Router.Sessions.Ends.{serve}
use picasu.Router.Login.{
  LoginRequest, UserSummary, Desk, reap, admit, settle, signed_in, verify, login_sync, upgrade,
  authenticate,
}
use picasu.Router.Login.Floor.{Attempt, here, next, enter, by_ip, by_user}
use picasu.Router.Login.Balance.{slots_accounted}
use picasu.Router.Login.Session.{signed_in_opens}
use picasu.Router.Login.Rehash.{rehash_reverts}

abbrev cfg : BucketCfg
cfg = record { window_secs = 10; max_failures = 2; base_ban_secs = 5; max_ban_secs = 20 }

abbrev fresh : LoginThrottle
fresh = record {
  ip = [];
  user = [];
  ip_short = cfg;
  ip_long = cfg;
  user_long = cfg;
  longest_window = 10;
}

starts : new cfg cfg cfg ≡ created fresh
unfolding new validate RateLimit.new
starts = refl

abbrev bucket : Bucket
bucket = record {
  window_secs = 10;
  max_failures = 2;
  base_ban_secs = 5;
  max_ban_secs = 20;
  failures = [];
  ban_until = 0;
}

-- The tracker with the slot of one attempt.
abbrev busy : LoginThrottle
busy = record fresh {
  ip =
      (
        "1.1.1.1",
        record { short = bucket; long = bucket; in_flight = 1; last_seen = 30; banned_until = 0 },
      )
      ∷ [];
  user = ("ann", record { long = bucket; in_flight = 1; last_seen = 30; banned_until = 0 }) ∷ [];
}

abbrev desk : Desk
desk = record { tracker = fresh; last_sweep = 0 }

abbrev taken : Desk
taken = record { tracker = busy; last_sweep = 0 }

admits : admit "1.1.1.1" "ann" 30 desk ≡ some (taken, 0)
unfolding admit reserve ip_entry get reap build RateLimit.new user_entry decide_slot
    RateLimit.ban_remaining seen_ip seen_user put
admits = refl

abbrev one : List Attempt
one = ("1.1.1.1", "ann") ∷ []

slots_accounted_example :
    (ip_flight busy "1.1.1.1" ≤ by_ip "1.1.1.1" one + by_ip "1.1.1.1" [])
    × (user_flight busy "ann" ≤ by_user "ann" one + by_user "ann" [])
slots_accounted_example =
    slots_accounted 20 cfg cfg cfg fresh 0 (record { desk = taken; verifying = one; lost = [] })
      (omega arith) (omega arith) (omega arith) (omega arith) starts
      (next here (
        enter (record { desk = desk; verifying = []; lost = [] }) "1.1.1.1" "ann" 30 taken
          (omega arith) admits))
      "1.1.1.1" "ann"

abbrev ann : Text
ann = 97 ∷ 110 ∷ 110 ∷ []

abbrev secret : Text
secret = 120 ∷ 121 ∷ []

abbrev other : Text
other = 122 ∷ []

-- A hash is the password itself.
abbrev row : UserRecord
row = record {
  hash = some secret;
  admin = true;
  home = none;
  ver = 3;
  disabled = false;
  shares_enabled = true;
}

abbrev store : Users
store = (ann, row) ∷ []

same_hash : Text → Text
same_hash t = t

abbrev claims : ClaimsSession
claims = record {
  role = user ann true;
  exp = 30 + 14 * 86400;
  typ = session;
  jti = 7 ∷ [];
  ver = 3;
}

abbrev profile : UserSummary
profile = record { user_id = ann; admin = true; disabled = false; shares_enabled = true }

abbrev login : LoginRequest
login = record { user_id = ann; password = secret }

valid : validate_user_id ann ≡ ok ann
unfolding validate_user_id trim trim_start trim_end len
valid = refl

-- The slot is given back, and the user's entry is gone.
abbrev settled : Desk
settled = record {
  tracker = record fresh {
    ip =
        (
          "1.1.1.1",
          record {
            short = bucket;
            long = bucket;
            in_flight = 0;
            last_seen = 30;
            banned_until = 30;
          },
        )
        ∷ [];
  };
  last_sweep = 0;
}

signs_in :
    authenticate text_eq (λ id. "ann") "1.1.1.1" (some 30) 30 (7 ∷ []) login store desk
    ≡ some (settled, signed_in claims profile)
unfolding authenticate validate_user_id trim trim_start trim_end len login_sync read find verify
    new_user admit reserve ip_entry get reap build RateLimit.new user_entry decide_slot
    RateLimit.ban_remaining seen_ip seen_user put settle record_success clear_ip update remove
    RateLimit.record_success
signs_in = refl

unrevoked : is_revoked 40 (session_key (7 ∷ [])) [] ≡ false
unfolding is_revoked find
unrevoked = refl

signed_in_opens_example :
    (verify text_eq store ann (trim secret) ≡ true)
    × (try_jwt_cookie_user
          (λ token. some claims)
          (serve (upgrade text_eq same_hash store ann (trim secret) store) [] 40)
          (some [])
        ≡ accepted claims)
    × (claims.role ≡ user ann true)
signed_in_opens_example =
    signed_in_opens text_eq same_hash (λ id. "ann") "1.1.1.1" (some 30) 30 (7 ∷ []) login store desk
      settled ann claims profile (λ token. some claims) [] [] 40 valid signs_in refl unrevoked

stored_row : find (trim ann) store ≡ some row
unfolding find trim trim_start trim_end
stored_row = refl

canonical : trim secret ≡ secret
unfolding trim trim_start trim_end
canonical = refl

rehash_reverts_example :
    (verify text_eq
        (upgrade text_eq same_hash store ann secret (set_password same_hash ann other store).0)
        ann
        secret
      ≡ true)
    × (verify text_eq
          (upgrade text_eq same_hash store ann secret (set_password same_hash ann other store).0)
          ann
          other
        ≡ false)
unfolding starts_with same_hash
rehash_reverts_example =
    rehash_reverts text_eq same_hash ann store row stored_row secret secret other refl refl refl
      canonical refl refl
