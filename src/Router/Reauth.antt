-- ===== src/Router/Reauth.antt =====
-- backend/src/router/auth.rs, `GuardReauth`: the password once more, with the tracker and the revocation
-- of backend/src/router/put/users_password.rs.
pub mod Answers
mod Tests
use picasu.Prelude.{ℕ, Bool, true, false, not, Option, none, some, ltb, if◌then◌else◌, String}
use picasu.Model.Text.{Text}
use picasu.Auth.Users.{Users}
use picasu.Auth.Revocations.{Revocations, revoke, session_key}
use picasu.Auth.LoginThrottle.State.{LoginThrottle}
use picasu.Auth.LoginThrottle.Slots.{reserve, release, remaining}
use picasu.Auth.LoginThrottle.Outcome.{record_failure, record_success, sweep}
use picasu.Router.Sessions.{
  Role, user, guest, ClaimsSession, SessionError, Checked, accepted, refused, Backend,
  try_jwt_cookie_user,
}
use picasu.Router.Login.{verify, upgrade}

-- What the guard writes: `PASSWORD_THROTTLE`, the revocation list and the user store.
pub record Guarded : Type 0 where
  pub throttle : LoginThrottle
  pub revocations : Revocations
  pub users : Users

-- `not_signed_in` and `session_ended` are 401, `password_required` and `incorrect` are 403. `incorrect`
-- has the attempts that remain, if they are counted.
pub data ReauthAnswer : Type 0 where
  confirmed : ClaimsSession → ReauthAnswer
  not_signed_in password_required session_ended : ReauthAnswer
  incorrect : Option ℕ → ReauthAnswer

-- `PasswordThrottleCtx`, without the session's id and end, which are those of its claims. `key` is the
-- session's id as the tracker's key.
pub record PasswordThrottleCtx : Type 0 where
  pub ip : String
  pub key : String
  pub now : ℕ

-- `now` is the clock of the revocation list.
unfoldable pub revoke_attempt_session : ℕ → ClaimsSession → Guarded → Guarded
revoke_attempt_session now claims g = record g {
  revocations = revoke now (session_key claims.jti) claims.exp g.revocations;
}

-- The answer to a wrong password, with the ban that it has opened.
unfoldable pub judge_failure :
    ℕ
    → ClaimsSession
    → PasswordThrottleCtx
    → Guarded
    → Option (LoginThrottle × ℕ)
    → Option (Guarded × ReauthAnswer)
judge_failure now claims ctx g none = none
judge_failure now claims ctx g (some (t, ban)) =
    if ltb 0 ban
    then some (revoke_attempt_session now claims (record g { throttle = t }), session_ended)
    else some (record g { throttle = t }, incorrect (some (remaining t ctx.ip ctx.key ctx.now)))

module _ (verify_password : Text → Text → Bool) (hash_password : Text → Text) where
  abbrev upgraded : Text → Text → Guarded → Guarded
  upgraded id presented g = record g {
    users = upgrade verify_password hash_password g.users id presented g.users;
  }

  -- With the slot held.
  unfoldable pub evaluate :
      ℕ
      → ClaimsSession
      → Text
      → Text
      → PasswordThrottleCtx
      → Guarded
      → Option (Guarded × ReauthAnswer)
  evaluate now claims id presented ctx g =
      if verify verify_password g.users id presented
      then some (
        record (upgraded id presented g) {
          throttle = record_success g.throttle ctx.ip ctx.key ctx.now;
        },
        confirmed claims,
      )
      else judge_failure now claims ctx g
          (record_failure (release g.throttle ctx.ip ctx.key) ctx.ip ctx.key ctx.now)

  unfoldable pub check_presented :
      ℕ
      → ClaimsSession
      → Text
      → Text
      → Option PasswordThrottleCtx
      → Guarded
      → Option (Guarded × ReauthAnswer)
  check_presented now claims id presented none g = some (
      if verify verify_password g.users id presented
      then (upgraded id presented g, confirmed claims)
      else (g, incorrect none))
  check_presented now claims id presented (some ctx) g =
      elim (reserve g.throttle ctx.ip ctx.key ctx.now) [
        | none ↦ none
        | some (t, ban) ↦
            if ltb 0 ban
            then some (
              revoke_attempt_session now claims (record g { throttle = sweep t ctx.now }),
              session_ended,
            )
            else evaluate now claims id presented ctx (record g { throttle = t })
      ]

  abbrev by_header :
      ℕ
      → ClaimsSession
      → Role
      → Option Text
      → Option PasswordThrottleCtx
      → Guarded
      → Option (Guarded × ReauthAnswer)
  by_header now claims (guest share) header ctx g = some (g, not_signed_in)
  by_header now claims (user id admin) none ctx g = some (g, password_required)
  by_header now claims (user id admin) (some presented) ctx g =
      check_presented now claims id presented ctx g

  -- `ctx` makes the context of the claims, if the throttle is in use, and `header` is the password.
  unfoldable pub guard_reauth :
      (Text → Option ClaimsSession)
      → ℕ
      → Option Text
      → Option Text
      → (ClaimsSession → Option PasswordThrottleCtx)
      → Guarded
      → Option (Guarded × ReauthAnswer)
  guard_reauth decode now jwt header ctx g =
      elim (try_jwt_cookie_user decode
        (record { users = g.users; revocations = g.revocations; now = now }) jwt) [
          | refused e ↦ some (g, not_signed_in)
          | accepted claims ↦ by_header now claims claims.role header (ctx claims) g
        ]
