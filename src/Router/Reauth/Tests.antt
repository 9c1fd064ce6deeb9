-- ===== src/Router/Reauth/Tests.antt =====
-- A session that has used up its attempts.
use picasu.Prelude.{◌≡◌, ◌≢◌, refl, true, false, Option, none, some, [], ◌∷◌, arith}
use picasu.Model.Text.{Text, text_eq}
use picasu.Model.Text.Table.{find}
use picasu.Model.Text.Trim.{trim, trim_start, trim_end}
use picasu.Auth.Users.{Users}
use picasu.Auth.Revocations.{revoke, is_revoked, session_key}
use picasu.Auth.Revocations.Expiry.{revoke_each}
use picasu.Auth.LoginThrottle.State.{BucketCfg, build, LoginThrottle}
use picasu.Auth.LoginThrottle.Outcome.{sweep}
use picasu.Auth.RateLimit
use picasu.Auth.RateLimit.{Bucket}
use picasu.Assoc.{get, put}
use picasu.Auth.LoginThrottle.Slots.{reserve, ip_entry, user_entry, decide_slot, seen_ip, seen_user}
use picasu.Router.Sessions.{
  user, session, ClaimsSession, accepted, try_jwt_cookie_user, is_empty, decode_typed, check_user,
  read,
}
use picasu.Router.Sessions.Ends.{serve}
use picasu.Router.Reauth.{
  Guarded, session_ended, PasswordThrottleCtx, guard_reauth, revoke_attempt_session,
  check_presented,
}
use picasu.Router.Reauth.Answers.{reauth_ends_session}

abbrev ann : Text
ann = 97 ∷ 110 ∷ 110 ∷ []

abbrev store : Users
store =
    (
      ann,
      record {
        hash = some (120 ∷ []);
        admin = true;
        home = none;
        ver = 3;
        disabled = false;
        shares_enabled = true;
      },
    )
    ∷ []

abbrev claims : ClaimsSession
claims = record { role = user ann true; exp = 500; typ = session; jti = 7 ∷ []; ver = 3 }

-- The schedules of the source.
abbrev short : BucketCfg
short = record { window_secs = 600; max_failures = 100; base_ban_secs = 10; max_ban_secs = 60 }

abbrev long : BucketCfg
long = record { window_secs = 86_400; max_failures = 3; base_ban_secs = 60; max_ban_secs = 3600 }

-- The session's bucket is banned until 90.
abbrev spent : LoginThrottle
spent = record {
  ip = [];
  user =
      (
        "7",
        record {
          long = record {
            window_secs = 86_400;
            max_failures = 3;
            base_ban_secs = 60;
            max_ban_secs = 3600;
            failures = 1 ∷ 2 ∷ 3 ∷ 30 ∷ [];
            ban_until = 90;
          };
          in_flight = 0;
          last_seen = 30;
          banned_until = 90;
        },
      )
      ∷ [];
  ip_short = short;
  ip_long = long;
  user_long = long;
  longest_window = 86_400;
}

abbrev guarded : Guarded
guarded = record { throttle = spent; revocations = []; users = store }

abbrev decode : Text → Option ClaimsSession
decode token = some claims

abbrev context : ClaimsSession → Option PasswordThrottleCtx
context c = some (record { ip = "1.1.1.1"; key = "7"; now = 40 })

signed_in : try_jwt_cookie_user decode (serve store [] 40) (some []) ≡ accepted claims
unfolding try_jwt_cookie_user is_empty decode_typed check_user read find trim trim_start trim_end
    is_revoked
signed_in = refl

-- The tracker that the refused attempt leaves.
abbrev bucket : BucketCfg → Bucket
bucket c = record {
  window_secs = c.window_secs;
  max_failures = c.max_failures;
  base_ban_secs = c.base_ban_secs;
  max_ban_secs = c.max_ban_secs;
  failures = [];
  ban_until = 0;
}

abbrev seen : LoginThrottle
seen = record spent {
  ip =
      (
        "1.1.1.1",
        record {
          short = bucket short;
          long = bucket long;
          in_flight = 0;
          last_seen = 40;
          banned_until = 0;
        },
      )
      ∷ [];
  user =
      (
        "7",
        record {
          long = record (bucket long) { failures = 1 ∷ 2 ∷ 3 ∷ 30 ∷ []; ban_until = 90 };
          in_flight = 0;
          last_seen = 40;
          banned_until = 90;
        },
      )
      ∷ [];
}

abbrev after : Guarded
after = record {
  throttle = sweep seen 40;
  revocations = revoke 40 (session_key (7 ∷ [])) 500 [];
  users = store;
}

ends :
    guard_reauth text_eq (λ t. t) decode 40 (some []) (some (1 ∷ [])) context guarded
    ≡ some (after, session_ended)
unfolding guard_reauth try_jwt_cookie_user is_empty decode_typed check_user read find trim
    trim_start trim_end is_revoked check_presented reserve ip_entry get build RateLimit.new
    user_entry decide_slot RateLimit.ban_remaining seen_ip seen_user put revoke_attempt_session
ends = refl

reauth_ends_session_example :
    try_jwt_cookie_user decode
      (serve store (revoke_each [] (revoke 40 (session_key (7 ∷ [])) 500 [])) 41)
      (some [])
    ≢ accepted claims
reauth_ends_session_example =
    reauth_ends_session text_eq (λ t. t) decode 40 (some []) (some (1 ∷ [])) context guarded after
      claims claims [] store 41 ends signed_in tt tt (omega arith)
