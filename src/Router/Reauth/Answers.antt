-- ===== src/Router/Reauth/Answers.antt =====
-- backend/src/router/auth.rs, `GuardReauth`: what its answers mean.
use mathlib.Core.Path.{subst}
use picasu.Prelude.{
  ℕ, List, inl, inr, ◌<◌, ◌≤◌, ◌≡◌, ◌≢◌, refl, ap, ◌∙◌, Bool, true, false, Option, none, some,
  arith, All, Option-cases, Bool-cases, ltb,
}
use picasu.Model.Text.{Text, text_eq}
use picasu.Model.Text.Table.{HasKeys}
use picasu.Auth.Users.{Users}
use picasu.Auth.Revocations.{Revocations, revoke, is_revoked, session_key}
use picasu.Auth.Revocations.Expiry.{Call, revoke_each, revoked_until}
use picasu.Auth.LoginThrottle.State.{LoginThrottle}
use picasu.Auth.LoginThrottle.Slots.{reserve, release}
use picasu.Auth.LoginThrottle.Outcome.{record_failure}
use picasu.Router.Sessions.{Role, user, guest, ClaimsSession, accepted, try_jwt_cookie_user}
use picasu.Router.Sessions.Guards.{user-checked, check_user-accepted, checked-cases}
use picasu.Router.Sessions.Ends.{serve}
use picasu.Router.Login.{verify}
use picasu.Router.Reauth.{
  Guarded, ReauthAnswer, confirmed, session_ended, not_signed_in, password_required,
  PasswordThrottleCtx, revoke_attempt_session, judge_failure, evaluate, check_presented, by_header,
  guard_reauth,
}

module _ (now : ℕ) (claims : ClaimsSession) where
  -- The session is on the revocation list.
  abbrev Ended : Guarded → Guarded → Type 0
  Ended g g' = g'.revocations ≡ revoke now (session_key claims.jti) claims.exp g.revocations

  judge_failure-Ended :
      (ctx : PasswordThrottleCtx) (g g' : Guarded) (o : Option (LoginThrottle × ℕ))
      (answer : ReauthAnswer)
      → judge_failure now claims ctx g o ≡ some (g', answer)
      → ((c : ClaimsSession) → answer ≢ confirmed c) × (answer ≡ session_ended → Ended g g')
  unfolding judge_failure revoke_attempt_session
  judge_failure-Ended ctx g g' none answer h = absurd (ground arith)
  judge_failure-Ended ctx g g' (some (t, ban)) answer h = elim (Bool-cases (ltb 0 ban)) [
    | inl banned ↦ (λ c e. ground arith, λ e. ground arith)
    | inr free ↦ (λ c e. ground arith, λ e. absurd (ground arith))
  ]

module _ (verify_password : Text → Text → Bool) (hash_password : Text → Text) (now : ℕ)
    (claims : ClaimsSession) where
  -- What an answer tells of the password and the writes.
  abbrev Tells : Text → Text → Guarded → Guarded → ReauthAnswer → Type 0
  Tells id presented g g' answer =
      ((c : ClaimsSession)
        → answer ≡ confirmed c
        → (c ≡ claims) × (verify verify_password g.users id presented ≡ true))
      × (answer ≡ session_ended → Ended now claims g g')

  evaluate-Tells :
      (id presented : Text) (ctx : PasswordThrottleCtx) (g g' : Guarded) (answer : ReauthAnswer)
      → evaluate verify_password hash_password now claims id presented ctx g ≡ some (g', answer)
      → Tells id presented g g' answer
  unfolding evaluate
  evaluate-Tells id presented ctx g g' answer h =
      elim (Bool-cases (verify verify_password g.users id presented)) [
        | inl good ↦ (λ c e. (ground arith, good), λ e. absurd (ground arith))
        | inr bad ↦
            let told =
              judge_failure-Ended now claims ctx g g'
                (record_failure (release g.throttle ctx.ip ctx.key) ctx.ip ctx.key ctx.now) answer
                (ground arith) in
            (λ c e. absurd (told.0 c e), told.1)
      ]

  check_presented-Tells :
      (id presented : Text) (ctx : Option PasswordThrottleCtx) (g g' : Guarded)
      (answer : ReauthAnswer)
      → check_presented verify_password hash_password now claims id presented ctx g
        ≡ some (g', answer)
      → Tells id presented g g' answer
  unfolding check_presented revoke_attempt_session
  check_presented-Tells id presented none g g' answer h =
      elim (Bool-cases (verify verify_password g.users id presented)) [
        | inl good ↦ (λ c e. (ground arith, good), λ e. absurd (ground arith))
        | inr bad ↦ (λ c e. absurd (ground arith), λ e. absurd (ground arith))
      ]
  check_presented-Tells id presented (some ctx) g g' answer h =
      elim (Option-cases (reserve g.throttle ctx.ip ctx.key ctx.now)) [
        | inl e ↦ absurd (ground arith)
        | inr ((t, ban), e) ↦ elim (Bool-cases (ltb 0 ban)) [
          | inl banned ↦ (λ c e'. absurd (ground arith), λ e'. ground arith)
          | inr free ↦
              evaluate-Tells id presented ctx (record g { throttle = t }) g' answer (ground arith)
        ]
      ]

module _ (verify_password : Text → Text → Bool) (hash_password : Text → Text)
    (decode : Text → Option ClaimsSession) (now : ℕ) (jwt header : Option Text)
    (ctx : ClaimsSession → Option PasswordThrottleCtx) (g g' : Guarded) where
  -- The request's session, and the check of its header.
  abbrev Seen : ReauthAnswer → ClaimsSession → Type 0
  Seen answer claims =
      (try_jwt_cookie_user decode (serve g.users g.revocations now) jwt ≡ accepted claims)
      × (by_header verify_password hash_password now claims claims.role header (ctx claims) g
          ≡ some (g', answer))

  guard-Seen :
      (answer : ReauthAnswer)
      → guard_reauth verify_password hash_password decode now jwt header ctx g ≡ some (g', answer)
      → answer ≢ not_signed_in
      → (claims : ClaimsSession) × Seen answer claims
  unfolding guard_reauth
  guard-Seen answer h inside =
      elim (checked-cases (try_jwt_cookie_user decode (serve g.users g.revocations now) jwt)) [
        | inr (e, out) ↦ absurd (inside (ground arith))
        | inl (claims, seen) ↦ (claims, (seen, ground arith))
      ]

  header-Tells :
      (claims : ClaimsSession) (role : Role) (answer : ReauthAnswer)
      → by_header verify_password hash_password now claims role header (ctx claims) g
        ≡ some (g', answer)
      → answer ≢ not_signed_in
      → answer ≢ password_required
      → (id : Text) × (was : Bool) × (presented : Text) × (role ≡ user id was)
        × (header ≡ some presented)
        × Tells verify_password hash_password now claims id presented g g' answer
  header-Tells claims (guest share) answer h inside given = absurd (inside (ground arith))
  header-Tells claims (user id was) answer h inside given = elim (Option-cases header) [
    | inl missing ↦ absurd (given (ground arith))
    | inr (presented, there) ↦ (
      id,
      was,
      presented,
      refl,
      there,
      check_presented-Tells verify_password hash_password now claims id presented (ctx claims) g g'
          answer (ground arith),
    )
  ]

  told :
      (claims : ClaimsSession) (answer : ReauthAnswer)
      → Seen answer claims
      → answer ≢ not_signed_in
      → answer ≢ password_required
      → (id : Text) × (was : Bool) × (presented : Text) × (claims.role ≡ user id was)
        × (header ≡ some presented)
        × Tells verify_password hash_password now claims id presented g g' answer
  told claims answer s inside given = header-Tells claims claims.role answer s.1 inside given

  -- The guard confirms a session only if the cookie's session is live and the header has the password of
  -- its user.
  pub reauth_confirmed :
      (c : ClaimsSession)
      → guard_reauth verify_password hash_password decode now jwt header ctx g
        ≡ some (g', confirmed c)
      → (try_jwt_cookie_user decode (serve g.users g.revocations now) jwt ≡ accepted c)
        × ((id : Text) × (was : Bool) × (presented : Text) × (c.role ≡ user id was)
            × (header ≡ some presented)
            × (verify verify_password g.users id presented ≡ true))
  reauth_confirmed c h =
      let (claims, s) = guard-Seen (confirmed c) h (λ e. ground arith) in
      let (id, was, presented, own, there, tells) =
        told claims (confirmed c) s (λ e. ground arith) (λ e. ground arith) in
      let (same, good) = tells.0 c refl in
      (rw same s.0, (id, was, presented, rw same own, there, good))

  -- When too many wrong passwords have ended the session, no request with its cookie is accepted until
  -- the token expires, whatever the user store is then and whatever other keys are revoked in between at
  -- clocks that are not past the request's.
  pub reauth_ends_session :
      (claims c : ClaimsSession) (others : List Call) (users : Users) (later : ℕ)
      → guard_reauth verify_password hash_password decode now jwt header ctx g
        ≡ some (g', session_ended)
      → try_jwt_cookie_user decode (serve g.users g.revocations now) jwt ≡ accepted claims
      → HasKeys g.revocations
      → All (λ o. (o.0 ≤ later) × (text_eq o.1 (session_key claims.jti) ≡ false)) others
      → later < claims.exp
      → try_jwt_cookie_user decode (serve users (revoke_each others g'.revocations) later) jwt
        ≢ accepted c
  reauth_ends_session claims c others users later h live keys differ soon h' =
      let (claims', s) = guard-Seen session_ended h (λ e. ground arith) in
      let same : claims' ≡ claims = ground arith in
      let (id, was, presented, own, there, tells) =
        told claims' session_ended s (λ e. ground arith) (λ e. ground arith) in
      let ended : Ended now claims g g' = subst (λ d. Ended now d g g') same (tells.1 refl) in
      let held =
        revoked_until now later (session_key claims.jti) claims.exp others g.revocations keys
          differ in
      let (t, p, l) = user-checked decode (serve g.users g.revocations now) jwt claims live in
      let (t', p', l') =
        user-checked decode (serve users (revoke_each others g'.revocations) later) jwt c h' in
      let token : t' ≡ t = ground arith in
      let alive =
        check_user-accepted (serve users (revoke_each others g'.revocations) later) t' t'.role c
          l' in
      let from = check_user-accepted (serve g.users g.revocations now) t t.role claims l in
      let named : t'.jti ≡ claims.jti = ap (λ (x : ClaimsSession). x.jti) token ∙ ground arith in
      let free : is_revoked later (session_key claims.jti) (revoke_each others g'.revocations)
          ≡ false =
        subst (λ j. is_revoked later (session_key j) (revoke_each others g'.revocations) ≡ false)
          named alive.7 in
      let freed : is_revoked later (session_key claims.jti)
            (revoke_each others (revoke now (session_key claims.jti) claims.exp g.revocations))
          ≡ false =
        subst
          (λ (rows : Revocations).
            is_revoked later (session_key claims.jti) (revoke_each others rows) ≡ false)
          ended free in
      ground (arith, held, freed)
