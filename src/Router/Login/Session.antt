-- ===== src/Router/Login/Session.antt =====
-- backend/src/router/post/users_authenticate.rs and backend/src/router/auth.rs: a session that the
-- sign-in has issued, as the guards see it.
use picasu.Prelude.{
  ℕ, ◌≡◌, refl, sym, ap, ◌∙◌, String, Bool, true, false, Option, none, some, arith, inl, inr, ltb,
  Option-cases, Bool-cases, if◌then◌else◌, map_or,
}
use picasu.Model.Text.{Text}
use picasu.Model.Text.Table.{find, find-insert, text_eq_refl}
use picasu.Model.Text.Trim.{trim}
use picasu.Model.Text.TrimLaws.{trim-twice}
use picasu.Auth.Users.{Result, ok, err, UserRecord, Users, validate_user_id, Result-cases}
use picasu.Auth.UserStore.{upgrade_password_hash}
use picasu.Auth.Revocations.{Revocations, is_revoked, session_key}
use picasu.Router.Sessions.{user, ClaimsSession, new_user, accepted, read, try_jwt_cookie_user}
use picasu.Router.Sessions.Guards.{Lives, checked-user, accepted-check_user}
use picasu.Router.Sessions.Ends.{serve}
use mathlib.Core.Path.{subst}
use picasu.Auth.Users.{auth}
use picasu.Auth.LoginThrottle.State.{LoginThrottle}
use picasu.Auth.LoginThrottle.Slots.{release}
use picasu.Auth.LoginThrottle.Outcome.{record_failure}
use picasu.Router.Login.Slots.{settle_other}
use picasu.Router.Login.{
  LoginRequest, UserSummary, Desk, signed_in, settle, admit, decide, verify, login_sync, upgrade,
  authenticate, is_legacy,
}

-- The row of a user after a sign-in differs in its hash at most.
abbrev SameUser : UserRecord → UserRecord → Type 0
SameUser a b = (b.admin ≡ a.admin) × (b.ver ≡ a.ver) × (b.disabled ≡ a.disabled)

module _ (verify_password : Text → Text → Bool) where
  -- What `login_sync` has found when it answers a session.
  abbrev Found : ℕ → Text → Text → Text → Users → ClaimsSession → UserSummary → Type 0
  Found now jti id password users claims profile =
      (r : UserRecord) × (read id users ≡ some r)
      × (r.disabled ≡ false)
      × (verify verify_password users id (trim password) ≡ true)
      × (claims ≡ new_user now jti id r.admin r.ver)
      × (profile.user_id ≡ id)
      × (profile.admin ≡ r.admin)

  login_sync-Found :
      (now : ℕ) (jti id password : Text) (users : Users) (claims : ClaimsSession)
      (profile : UserSummary)
      → login_sync verify_password now jti id password (ok users) (ok users) ≡ ok (claims, profile)
      → Found now jti id password users claims profile
  unfolding login_sync
  login_sync-Found now jti id password users claims profile h =
      elim (Option-cases (read id users)) [
        | inl e ↦ absurd (ground arith)
        | inr (r, e) ↦ (r, e, ground arith, ground arith, ground arith, ground arith, ground arith)
      ]

  -- Only the answer of `login_sync` makes a session.
  settle-signed_in :
      (ip key : String) (now : ℕ) (t t' : LoginThrottle)
      (outcome : Result (ClaimsSession × UserSummary)) (claims : ClaimsSession)
      (profile : UserSummary)
      → settle ip key now t outcome ≡ some (t', signed_in claims profile)
      → outcome ≡ ok (claims, profile)
  unfolding settle
  settle-signed_in ip key now t t' (ok (c, p)) claims profile h = ground arith
  settle-signed_in ip key now t t' (err e) claims profile h = elim (settle_other ip key now t e) [
    | inr other ↦ absurd (ground arith)
    | inl credential ↦
        let g : settle ip key now t (err auth) ≡ some (t', signed_in claims profile) =
          subst (λ x. settle ip key now t (err x) ≡ some (t', signed_in claims profile)) credential
            h in
        elim (Option-cases (record_failure (release t ip key) ip key now)) [
          | inl e ↦ absurd (ground arith)
          | inr ((t'', ban), e) ↦ absurd (ground arith)
        ]
  ]

  decide-signed_in :
      (ip key : String) (now : ℕ) (o : Option (Desk × ℕ)) (d' : Desk)
      (outcome : Result (ClaimsSession × UserSummary)) (claims : ClaimsSession)
      (profile : UserSummary)
      → decide verify_password ip key now outcome o ≡ some (d', signed_in claims profile)
      → outcome ≡ ok (claims, profile)
  decide-signed_in ip key now none d' outcome claims profile h = absurd (ground arith)
  decide-signed_in ip key now (some (d, ban)) d' outcome claims profile h =
      elim (Bool-cases (ltb 0 ban)) [
        | inl banned ↦ absurd (ground arith)
        | inr free ↦ elim (Option-cases (settle ip key now d.tracker outcome)) [
          | inl e ↦ absurd (ground arith)
          | inr ((t, answer), e) ↦
              settle-signed_in ip key now d.tracker t outcome claims profile (e ∙ ground arith)
        ]
      ]

  authenticate-signed_in :
      (name : Text → String) (ip : String) (clock : Option ℕ) (now : ℕ) (jti : Text)
      (login : LoginRequest) (users : Users) (d d' : Desk) (id : Text) (claims : ClaimsSession)
      (profile : UserSummary)
      → validate_user_id login.user_id ≡ ok id
      → authenticate verify_password name ip clock now jti login users d
        ≡ some (d', signed_in claims profile)
      → Found now jti id login.password users claims profile
  unfolding authenticate
  authenticate-signed_in name ip none now jti login users d d' id claims profile valid h =
      elim (Result-cases
        (login_sync verify_password now jti id login.password (ok users) (ok users))) [
          | inr (e, bad) ↦ absurd (ground arith)
          | inl ((c, p), good) ↦
              login_sync-Found now jti id login.password users claims profile (good ∙ ground arith)
        ]
  authenticate-signed_in name ip (some instant) now jti login users d d' id claims profile valid h =
      login_sync-Found now jti id login.password users claims profile (
        decide-signed_in ip (name id) instant (admit ip (name id) instant d) d' _ claims profile
          (ground arith))

  module _ (hash_password : Text → Text) where
    upgraded :
        (loaded : Users) (id password : Text) (users : Users) (r : UserRecord)
        → find (trim id) users ≡ some r
        → (r' : UserRecord) × (find
              (trim id)
              (upgrade verify_password hash_password loaded id password users)
            ≡ some r')
          × SameUser r r'
    unfolding upgrade upgrade_password_hash
    upgraded loaded id password users r found =
        let row = record r { hash = some (hash_password (trim (trim password))) } in
        let there : find (trim (trim id)) users ≡ some r = rw (trim-twice id) found in
        let written : find (trim id)
              (upgrade_password_hash hash_password (trim id) (trim password) users).0
            ≡ some row =
          rw (there, upgrade_password_hash)
            (find-insert (trim (trim id)) (trim id) row users
              ∙ rw (trim-twice id) (
                  ap (λ b. if b then some row else find (trim id) users)
                    (text_eq_refl (trim id)))) in
        elim (Bool-cases (
          map_or false (λ (s : UserRecord). is_legacy verify_password hash_password password s.hash)
            (find (trim id) loaded))) [
              | inl legacy ↦ (row, rw (legacy, upgrade) written, (refl, refl, refl))
              | inr modern ↦ (r, rw (modern, upgrade) found, (refl, refl, refl))
            ]

    -- When a sign-in answers a session, its password is the user's, and the cookie opens that session at
    -- once: the guards accept it from the store that the sign-in leaves, which may hold a new hash, with
    -- the claims unchanged. (The cookie's token decodes to the claims, and the session's id is not one
    -- that was revoked.)
    pub signed_in_opens :
        (name : Text → String) (ip : String) (clock : Option ℕ) (now : ℕ) (jti : Text)
        (login : LoginRequest) (users : Users) (d d' : Desk) (id : Text) (claims : ClaimsSession)
        (profile : UserSummary) (decode : Text → Option ClaimsSession) (token : Text)
        (rows : Revocations) (later : ℕ)
        → validate_user_id login.user_id ≡ ok id
        → authenticate verify_password name ip clock now jti login users d
          ≡ some (d', signed_in claims profile)
        → decode token ≡ some claims
        → is_revoked later (session_key jti) rows ≡ false
        → (verify verify_password users id (trim login.password) ≡ true)
          × (try_jwt_cookie_user decode
                (serve
                  (upgrade verify_password hash_password users id (trim login.password) users)
                  rows
                  later)
                (some token)
              ≡ accepted claims)
          × (claims.role ≡ user id profile.admin)
    unfolding new_user read
    signed_in_opens name ip clock now jti login users d d' id claims profile decode token rows later
          valid h decoded fresh =
        let (r, found, enabled, good, minted, own, role) =
          authenticate-signed_in name ip clock now jti login users d d' id claims profile valid h in
        let (r', there, same) = upgraded users id (trim login.password) users r found in
        let b =
          serve (upgrade verify_password hash_password users id (trim login.password) users) rows
            later in
        let claimed : claims.role ≡ user id r.admin = ap (λ (c : ClaimsSession). c.role) minted in
        let version : r'.ver ≡ claims.ver =
          same.1 ∙ sym (ap (λ (c : ClaimsSession). c.ver) minted) in
        let live : Lives b claims claims.role claims = (
          id,
          r.admin,
          r',
          claimed,
          there,
          version,
          same.2 ∙ enabled,
          ground arith,
          ap (λ x. record claims { role = x }) (claimed ∙ ap (user id) (sym same.0)),
        ) in
        (
          good,
          checked-user decode b (some token) claims claims
              (token, refl, decoded, ap (λ (c : ClaimsSession). c.typ) minted)
              (accepted-check_user b claims claims.role claims live),
          ground arith,
        )
