-- ===== src/Router/Sessions/Ends.antt =====
-- What ends a session: the writes of backend/src/auth/user_store.rs and the logout of
-- backend/src/router/post/users_authenticate.rs, as the guards of backend/src/router/auth.rs see them.
use picasu.Prelude.{
  ℕ, List, inl, inr, ◌^◌, ◌<◌, ◌≤◌, ◌≡◌, ◌≢◌, refl, sym, ap, ◌∙◌, Bool, true, false, Option, none,
  some, arith, All, Option-cases, if◌then◌else◌,
}
use mathlib.Core.Path.{subst}
use picasu.Model.Text.{Text, text_eq}
use picasu.Model.Text.Table.{find, find-insert, find-delete, text_eq_refl, HasKeys}
use picasu.Model.Text.Trim.{trim}
use picasu.Auth.Users.{ok, Users, UserRecord, validate_user_id}
use picasu.Auth.UserStore.{
  next_ver, set_admin, set_disabled, set_password, bump_ver, delete_user, provision,
}
use picasu.Auth.UserStore.Tokens.{version, token_versions}
use picasu.Auth.Revocations.{Revocations, revoke, is_revoked, session_key}
use picasu.Auth.Revocations.Expiry.{Call, revoke_each, revoked_until}
use picasu.Router.Sessions.{
  user, session, ClaimsSession, accepted, Backend, read, revoked, decode_typed, try_jwt_cookie_user,
  logout,
}
use picasu.Router.Sessions.Guards.{
  user-checked, checked-user, check_user-accepted, accepted-check_user, Lives,
}

-- The server with this user store and revocation list at a time.
abbrev pub serve : Users → Revocations → ℕ → Backend
serve users rows now = record { users = users; revocations = rows; now = now }

delete_user-gone :
    (id : Text) (force : Bool) (users : Users)
    → (delete_user id force users).1 ≡ ok true
    → find (trim id) (delete_user id force users).0 ≡ none
unfolding delete_user
delete_user-gone id force users h = elim (Option-cases (find (trim id) users)) [
  | inl missing ↦ absurd (ground arith)
  | inr (current, found) ↦
      ground (arith, find-delete (trim id) (trim id) users, text_eq_refl (trim id))
]

-- The row of a new user.
abbrev new_row : Text → Bool → Option Text → UserRecord
new_row hash admin home = record {
  hash = some hash;
  admin = admin;
  home = home;
  ver = 0;
  disabled = false;
  shares_enabled = true;
}

provision-found :
    (hash_password : Text → Text) (id password : Text) (admin : Bool) (home : Option Text)
    (users : Users)
    → validate_user_id id ≡ ok (trim id)
    → find (trim id) users ≡ none
    → find (trim id) (provision hash_password id (ok password) admin home users).0
      ≡ some (new_row (hash_password password) admin home)
unfolding provision
provision-found hash_password id password admin home users valid free =
    let row = new_row (hash_password password) admin home in
    rw (valid, free, provision)
      (find-insert (trim id) (trim id) row users
        ∙ ap (λ b. if b then some row else find (trim id) users) (text_eq_refl (trim id)))

module _ (decode : Text → Option ClaimsSession) (token : Text) (claims : ClaimsSession) (id : Text)
    (was : Bool) (decoded : decode token ≡ some claims) (own : claims.role ≡ user id was) where
  pub live-version :
      (b : Backend) (c : ClaimsSession)
      → try_jwt_cookie_user decode b (some token) ≡ accepted c
      → (version (trim id) b.users ≡ some claims.ver) × (revoked b claims ≡ false)
  unfolding read
  live-version b c h =
      let (claims', p, l) = user-checked decode b (some token) c h in
      let same : claims' ≡ claims = ground arith in
      let here =
        subst (λ (d : ClaimsSession). Lives b d d.role c) same
          (check_user-accepted b claims' claims'.role c l) in
      let mine : here.0 ≡ id = ground arith in
      let found : find (trim id) b.users ≡ some here.2 =
        subst (λ (i : Text). find (trim i) b.users ≡ some here.2) mine here.4 in
      (rw found (ap some here.5), here.7)

  dead-version :
      (b : Backend) (c : ClaimsSession) (ver : ℕ)
      → version (trim id) b.users ≡ some ver
      → ver ≢ claims.ver
      → try_jwt_cookie_user decode b (some token) ≢ accepted c
  dead-version b c ver e differs h =
      let live = (live-version b c h).0 in let kept : ver ≡ claims.ver = cc in differs kept

  -- A password change, a role change, a lock, an explicit invalidation and a removal of the user each end
  -- the session: no request with its cookie is accepted from the store that they leave, whatever the
  -- revocation list and the clock are. (The user's version is the token's, below 2^64.)
  pub writes_end_session :
      (hash_password : Text → Text) (password : Text) (flag force : Bool) (users : Users)
      (current : UserRecord) (rows : Revocations) (now : ℕ) (c : ClaimsSession)
      → find (trim id) users ≡ some current
      → current.ver ≡ claims.ver
      → claims.ver < 2 ^ 64
      → (try_jwt_cookie_user decode
            (serve (set_password hash_password id password users).0 rows now)
            (some token)
          ≢ accepted c)
        × ((set_admin id flag users).1 ≡ ok true
            → try_jwt_cookie_user decode (serve (set_admin id flag users).0 rows now) (some token)
              ≢ accepted c)
        × ((set_disabled id true users).1 ≡ ok true
            → try_jwt_cookie_user decode
                (serve (set_disabled id true users).0 rows now)
                (some token)
              ≢ accepted c)
        × (try_jwt_cookie_user decode (serve (bump_ver id users).0 rows now) (some token)
            ≢ accepted c)
        × ((delete_user id force users).1 ≡ ok true
            → try_jwt_cookie_user decode
                (serve (delete_user id force users).0 rows now)
                (some token)
              ≢ accepted c)
  writes_end_session hash_password password flag force users current rows now c found same word =
      let v =
        token_versions hash_password id password flag none users current found
          (omega (arith, same)) in
      let dead = λ (users' : Users) (e : version (trim id) users' ≡ some (next_ver current.ver)).
        dead-version (serve users' rows now) c (next_ver current.ver) e
          (λ e'. v.0 (e' ∙ sym same)) in
      (
        dead _ v.3,
        λ h. dead _ (v.1 h),
        λ h. dead _ (v.2 h),
        dead _ v.4,
        λ h h'.
            let gone = delete_user-gone id force users h in
            let live = (live-version _ c h').0 in ground arith,
      )

  logout-revokes :
      (before : ℕ) (rows : Revocations)
      → claims.typ ≡ session
      → logout decode before (some token) rows
        ≡ revoke before (session_key claims.jti) claims.exp rows
  unfolding logout decode_typed
  logout-revokes before rows typ = ground arith

  -- A logout ends the session until the token expires, whatever other keys are revoked in between at
  -- clocks that are not past the request's.
  pub logout_ends_session :
      (before now : ℕ) (others : List Call) (rows : Revocations) (users : Users) (c : ClaimsSession)
      → claims.typ ≡ session
      → HasKeys rows
      → All (λ o. (o.0 ≤ now) × (text_eq o.1 (session_key claims.jti) ≡ false)) others
      → now < claims.exp
      → try_jwt_cookie_user decode
          (serve users (revoke_each others (logout decode before (some token) rows)) now)
          (some token)
        ≢ accepted c
  logout_ends_session before now others rows users c typ keys differ soon h =
      let left : logout decode before (some token) rows
          ≡ revoke before (session_key claims.jti) claims.exp rows =
        logout-revokes before rows typ in
      let held =
        revoked_until before now (session_key claims.jti) claims.exp others rows keys differ in
      let live = (live-version _ c h).1 in
      let free : is_revoked now (session_key claims.jti)
            (revoke_each others (revoke before (session_key claims.jti) claims.exp rows))
          ≡ false =
        subst
          (λ (l : Revocations).
            is_revoked now (session_key claims.jti) (revoke_each others l) ≡ false)
          left live in
      ground (arith, held, free)

  -- A removed user's sessions come back to life when the id is registered again: if the token was minted
  -- at version 0, the guard accepts it after the removal and the new registration, with the new user's
  -- role, unless it was revoked by a logout.
  pub session_revives :
      (hash_password : Text → Text) (password : Text) (admin force : Bool) (home : Option Text)
      (users : Users) (rows : Revocations) (now : ℕ)
      → claims.typ ≡ session
      → claims.ver ≡ 0
      → validate_user_id id ≡ ok (trim id)
      → (delete_user id force users).1 ≡ ok true
      → is_revoked now (session_key claims.jti) rows ≡ false
      → try_jwt_cookie_user decode
          (serve
            (provision hash_password id (ok password) admin home (delete_user id force users).0).0
            rows
            now)
          (some token)
        ≡ accepted (record claims { role = user id admin })
  unfolding read
  session_revives hash_password password admin force home users rows now typ ver valid gone free =
      let found =
        provision-found hash_password id password admin home _ valid
          (delete_user-gone id force users gone) in
      checked-user decode _ (some token) _ claims (token, refl, decoded, typ)
        (accepted-check_user _ claims claims.role _
          (id, was, _, own, found, sym ver, refl, free, refl))
