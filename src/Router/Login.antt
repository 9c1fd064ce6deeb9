-- ===== src/Router/Login.antt =====
-- backend/src/router/post/users_authenticate.rs: the sign-in, with its two visits to the login tracker
-- and the password check between them. `verify_password` and `hash_password` are those of
-- backend/src/auth/password.rs.
mod Slots
mod Floor
mod Visits
mod Balance
mod Session
mod Rehash
mod Tests
use picasu.Prelude.{
  ℕ, Bool, true, false, not, ◌&&◌, Option, none, some, ltb, leb, if◌then◌else◌, map_or, String,
  saturating_sub,
}
use picasu.Model.Text.{Text, starts_with}
use picasu.Model.Text.Table.{find}
use picasu.Model.Text.Trim.{trim}
use picasu.Auth.Users.{
  ErrorKind, database, io, auth, Result, ok, err, UserRecord, Users, validate_user_id,
}
use picasu.Auth.UserStore.{upgrade_password_hash}
use picasu.Auth.LoginThrottle.State.{LoginThrottle}
use picasu.Auth.LoginThrottle.Slots.{reserve, release}
use picasu.Auth.LoginThrottle.Outcome.{record_failure, record_success, sweep}
use picasu.Router.Sessions.{ClaimsSession, new_user, read}
use picasu.Router.Shares.{argon_prefix}

-- The body of the request.
pub record LoginRequest : Type 0 where
  pub user_id : Text
  pub password : Text

pub record UserSummary : Type 0 where
  pub user_id : Text
  pub admin : Bool
  pub disabled : Bool
  pub shares_enabled : Bool

abbrev pub sweep_interval_secs : ℕ
sweep_interval_secs = 60

-- The tracker, and `LAST_SWEEP`.
pub record Desk : Type 0 where
  pub tracker : LoginThrottle
  pub last_sweep : ℕ

-- The opportunistic sweep.
unfoldable pub reap : ℕ → Desk → Desk
reap now d =
    if leb sweep_interval_secs (saturating_sub now d.last_sweep)
    then record { tracker = sweep d.tracker now; last_sweep = now }
    else d

abbrev pub on_desk : Desk → Option (LoginThrottle × ℕ) → Option (Desk × ℕ)
on_desk d none = none
on_desk d (some (t, ban)) = some (record d { tracker = t }, ban)

-- The first visit: the ban that it answers is 0 if a slot is held.
unfoldable pub admit : String → String → ℕ → Desk → Option (Desk × ℕ)
admit ip user now d = let swept = reap now d in on_desk swept (reserve swept.tracker ip user now)

-- What the handler answers.
pub data Answer : Type 0 where
  signed_in : ClaimsSession → UserSummary → Answer
  throttled : ℕ → Answer
  failed : ErrorKind → Answer

-- The error of `login_sync`, or the ban that the failure has opened.
abbrev pub after_failure : Option (LoginThrottle × ℕ) → Option (LoginThrottle × Answer)
after_failure none = none
after_failure (some (t, ban)) = some (t, if ltb 0 ban then throttled ban else failed auth)

-- The second visit, with the answer of `login_sync`.
unfoldable pub settle :
    String
    → String
    → ℕ
    → LoginThrottle
    → Result (ClaimsSession × UserSummary)
    → Option (LoginThrottle × Answer)
settle ip user now t (ok (claims, profile)) =
    some (record_success t ip user now, signed_in claims profile)
settle ip user now t (err auth) = after_failure (record_failure (release t ip user) ip user now)
settle ip user now t (err e) = some (release t ip user, failed e)

module _ (verify_password : Text → Text → Bool) where
  abbrev pub matches : Text → Option Text → Bool
  matches password none = false
  matches password (some hash) = verify_password password hash

  -- `UserStore::verify`, its answer
  unfoldable pub verify : Users → Text → Text → Bool
  verify users id password =
      map_or false (λ (r : UserRecord). matches password r.hash) (find (trim id) users)

  abbrev check_password :
      ClaimsSession
      → UserSummary
      → Text
      → Text
      → Result Users
      → Result (ClaimsSession × UserSummary)
  check_password claims profile id password (err e) = err io
  check_password claims profile id password (ok loaded) =
      if verify loaded id (trim password) then ok (claims, profile) else err auth

  -- `seen` and `loaded` are the user store as the two reads of it find it.
  unfoldable pub login_sync :
      ℕ → Text → Text → Text → Result Users → Result Users → Result (ClaimsSession × UserSummary)
  login_sync now jti id password (err e) loaded = err database
  login_sync now jti id password (ok seen) loaded = elim (read id seen) [
    | none ↦ err auth
    | some r ↦
        if r.disabled
        then err auth
        else check_password (new_user now jti id r.admin r.ver)
            (record {
              user_id = id;
              admin = r.admin;
              disabled = r.disabled;
              shares_enabled = r.shares_enabled;
            })
            id password loaded
  ]

  module _ (hash_password : Text → Text) where
    abbrev is_legacy : Text → Option Text → Bool
    is_legacy password none = false
    is_legacy password (some hash) =
        verify_password password hash && not (starts_with hash argon_prefix)

    -- `UserStore::verify`, what it writes: `loaded` is the store that it has read, `users` the store at
    -- the time of the write.
    unfoldable pub upgrade : Users → Text → Text → Users → Users
    upgrade loaded id password users =
        if map_or false (λ (r : UserRecord). is_legacy password r.hash) (find (trim id) loaded)
        then (upgrade_password_hash hash_password (trim id) (trim password) users).0
        else users

  -- An attempt that nobody interrupts. `name` is the user id as the tracker's key, and `clock` the
  -- time if the throttle is in use.
  abbrev decide :
      String
      → String
      → ℕ
      → Result (ClaimsSession × UserSummary)
      → Option (Desk × ℕ)
      → Option (Desk × Answer)
  decide ip user now outcome none = none
  decide ip user now outcome (some (d, ban)) =
      if ltb 0 ban then some (d, throttled ban) else elim (settle ip user now d.tracker outcome) [
        | none ↦ none
        | some (t, answer) ↦ some (record d { tracker = t }, answer)
      ]

  abbrev unthrottled : Result (ClaimsSession × UserSummary) → Answer
  unthrottled (ok (claims, profile)) = signed_in claims profile
  unthrottled (err e) = failed e

  unfoldable pub authenticate :
      (Text → String)
      → String
      → Option ℕ
      → ℕ
      → Text
      → LoginRequest
      → Users
      → Desk
      → Option (Desk × Answer)
  authenticate name ip clock now jti login users d = elim (validate_user_id login.user_id) [
    | err e ↦ some (d, failed e)
    | ok id ↦
        let outcome = login_sync now jti id login.password (ok users) (ok users) in
        elim clock [
          | none ↦ some (d, unthrottled outcome)
          | some instant ↦ decide ip (name id) instant outcome (admit ip (name id) instant d)
        ]
  ]
