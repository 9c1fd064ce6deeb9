-- ===== src/Router/Sessions/Guards.antt =====
-- backend/src/router/auth.rs: which sessions the guards accept.
use picasu.Prelude.{
  ◌≡◌, ◌≢◌, ◌↔◌, ◌⊎◌, inl, inr, refl, sym, Bool, true, false, Option, some, [], ◌∷◌, arith,
  Option-cases, Bool-cases,
}
use mathlib.Core.Path.{subst}
use picasu.Model.Text.{Text}
use picasu.Model.Text.Table.{find}
use picasu.Auth.Users.{UserRecord, Users}
use picasu.Router.Sessions.{
  Role, user, guest, TokenType, session, snapshot, asset, ClaimsSession, admin_role, is_admin,
  SessionError, Checked, accepted, refused, Backend, read, is_empty, is_session, revoked,
  check_admin, check_user, success, forbidden, check_guard_user, decode_typed, try_jwt_cookie_auth,
  try_jwt_cookie_user, guard_user,
}

is_session_eq : (t : TokenType) → is_session t ≡ true → t ≡ session
is_session_eq session h = refl
is_session_eq snapshot h = absurd (ground arith)
is_session_eq asset h = absurd (ground arith)

pub checked-cases :
    (o : Checked ClaimsSession)
    → ((c : ClaimsSession) × (o ≡ accepted c)) ⊎ ((e : SessionError) × (o ≡ refused e))
checked-cases (accepted c) = inl (c, refl)
checked-cases (refused e) = inr (e, refl)

read-populated :
    (id : Text) (users : Users) {r : UserRecord} → read id users ≡ some r → is_empty users ≡ false
unfolding read find is_empty
read-populated id [] h = absurd (ground arith)
read-populated id (row ∷ users) h = refl

module _ (b : Backend) (claims : ClaimsSession) where
  -- The claims of a user's live session, with the role that the user has now.
  abbrev pub Lives : Role → ClaimsSession → Type 0
  Lives role c =
      (id : Text) × (was : Bool) × (r : UserRecord) × (role ≡ user id was)
      × (read id b.users ≡ some r)
      × (r.ver ≡ claims.ver)
      × (r.disabled ≡ false)
      × (revoked b claims ≡ false)
      × (c ≡ record claims { role = user id r.admin })

  pub check_user-accepted :
      (role : Role) (c : ClaimsSession) → check_user b claims role ≡ accepted c → Lives role c
  unfolding check_user
  check_user-accepted (guest share) c h = absurd (ground arith)
  check_user-accepted (user id was) c h = elim (Option-cases (read id b.users)) [
    | inl e ↦ absurd (ground arith)
    | inr (r, e) ↦ (id, was, r, refl, e, ground arith, ground arith, ground arith, ground arith)
  ]

  pub accepted-check_user :
      (role : Role) (c : ClaimsSession) → Lives role c → check_user b claims role ≡ accepted c
  unfolding check_user
  accepted-check_user (guest share) c l = absurd (ground arith)
  accepted-check_user (user id was) c l = ground arith

  -- The other two identity checks are the first one.
  check_guard_user_iff :
      (role : Role) (c : ClaimsSession)
      → (check_guard_user b claims role ≡ success c) ↔ (check_user b claims role ≡ accepted c)
  unfolding check_guard_user check_user
  check_guard_user_iff (guest share) c = (λ h. absurd (ground arith), λ h. absurd (ground arith))
  check_guard_user_iff (user id was) c = elim (Option-cases (read id b.users)) [
    | inl e ↦ (λ h. absurd (ground arith), λ h. absurd (ground arith))
    | inr (r, e) ↦ (λ h. ground arith, λ h. ground arith)
  ]

  check_guard_user-allowed : (role : Role) → check_guard_user b claims role ≢ forbidden
  unfolding check_guard_user
  check_guard_user-allowed (guest share) h = ground arith
  check_guard_user-allowed (user id was) h = elim (Option-cases (read id b.users)) [
    | inl e ↦ ground arith
    | inr (r, e) ↦ ground arith
  ]

  check_admin-accepted :
      (role : Role) (c : ClaimsSession)
      → claims.role ≡ role
      → check_admin b claims role ≡ accepted c
      → (check_user b claims role ≡ accepted c) × (is_admin c ≡ true) × (c ≡ claims)
  unfolding check_admin check_user admin_role
  check_admin-accepted (guest share) c own h = absurd (ground arith)
  check_admin-accepted (user id was) c own h = elim (Option-cases (read id b.users)) [
    | inl e ↦ absurd (ground arith)
    | inr (r, e) ↦ (ground arith, ground arith, ground arith)
  ]

  accepted-check_admin :
      (role : Role)
      → claims.role ≡ role
      → check_user b claims role ≡ accepted claims
      → is_admin claims ≡ true
      → check_admin b claims role ≡ accepted claims
  unfolding check_admin check_user admin_role
  accepted-check_admin (guest share) own h a = absurd (ground arith)
  accepted-check_admin (user id was) own h a = elim (Option-cases (read id b.users)) [
    | inl e ↦ absurd (ground arith)
    | inr (r, e) ↦ ground arith
  ]

module _ (decode : Text → Option ClaimsSession) (b : Backend) (jwt : Option Text) where
  -- The request's cookie holds a session token with these claims.
  abbrev pub Presents : ClaimsSession → Type 0
  Presents claims =
      (token : Text) × (jwt ≡ some token) × (decode token ≡ some claims) × (claims.typ ≡ session)

  user-populated :
      (claims : ClaimsSession) (role : Role) (c : ClaimsSession)
      → check_user b claims role ≡ accepted c
      → is_empty b.users ≡ false
  user-populated claims role c h =
      let l = check_user-accepted b claims role c h in read-populated l.0 b.users l.4

  pub user-checked :
      (c : ClaimsSession)
      → try_jwt_cookie_user decode b jwt ≡ accepted c
      → (claims : ClaimsSession) × Presents claims × (check_user b claims claims.role ≡ accepted c)
  unfolding try_jwt_cookie_user decode_typed
  user-checked c h = elim (Bool-cases (is_empty b.users)) [
    | inl e ↦ absurd (ground arith)
    | inr e ↦ elim (Option-cases jwt) [
      | inl none_there ↦ absurd (ground arith)
      | inr (token, there) ↦ elim (Option-cases (decode token)) [
        | inl bad ↦ absurd (ground arith)
        | inr (claims, good) ↦
            (claims, (token, there, good, ground (arith, is_session_eq claims.typ)), ground arith)
      ]
    ]
  ]

  admin-checked :
      (c : ClaimsSession)
      → try_jwt_cookie_auth decode b jwt ≡ accepted c
      → (claims : ClaimsSession) × Presents claims × (check_admin b claims claims.role ≡ accepted c)
  unfolding try_jwt_cookie_auth decode_typed
  admin-checked c h = elim (Bool-cases (is_empty b.users)) [
    | inl e ↦ absurd (ground arith)
    | inr e ↦ elim (Option-cases jwt) [
      | inl none_there ↦ absurd (ground arith)
      | inr (token, there) ↦ elim (Option-cases (decode token)) [
        | inl bad ↦ absurd (ground arith)
        | inr (claims, good) ↦
            (claims, (token, there, good, ground (arith, is_session_eq claims.typ)), ground arith)
      ]
    ]
  ]

  checked-admin :
      (c claims : ClaimsSession)
      → Presents claims
      → is_empty b.users ≡ false
      → check_admin b claims claims.role ≡ accepted c
      → try_jwt_cookie_auth decode b jwt ≡ accepted c
  unfolding try_jwt_cookie_auth decode_typed
  checked-admin c claims p there h = ground arith

  pub checked-user :
      (c claims : ClaimsSession)
      → Presents claims
      → check_user b claims claims.role ≡ accepted c
      → try_jwt_cookie_user decode b jwt ≡ accepted c
  unfolding try_jwt_cookie_user decode_typed
  checked-user c claims p h = ground (arith, user-populated claims claims.role c h)

  -- The user guard accepts exactly the cookies that hold a session token of a user who is in the store,
  -- is not locked, has the token's version and did not log out. The role it answers is the store's, not
  -- the token's.
  pub session_iff :
      (c : ClaimsSession)
      → (try_jwt_cookie_user decode b jwt ≡ accepted c)
        ↔ ((claims : ClaimsSession) × Presents claims × Lives b claims claims.role c)
  session_iff c = (
    λ h.
        let (claims, p, l) = user-checked c h in
        (claims, p, check_user-accepted b claims claims.role c l),
    λ w. checked-user c w.0 w.1 (accepted-check_user b w.0 w.0.role c w.2),
  )

  -- The request guard `GuardUser` lets the same sessions in as `try_jwt_cookie_user`, with the same
  -- claims, and answers 403 only if nobody is enrolled.
  pub guard_user_iff :
      (c : ClaimsSession)
      → ((guard_user decode b jwt ≡ success c) ↔ (try_jwt_cookie_user decode b jwt ≡ accepted c))
        × ((guard_user decode b jwt ≡ forbidden) ↔ (is_empty b.users ≡ true))
  unfolding guard_user try_jwt_cookie_user
  guard_user_iff c = elim (Bool-cases (is_empty b.users)) [
    | inl e ↦
        ((λ h. absurd (ground arith), λ h. absurd (ground arith)), (λ h. e, λ h. ground arith))
    | inr e ↦ elim (Option-cases jwt) [
      | inl missing ↦ (
        (λ h. absurd (ground arith), λ h. absurd (ground arith)),
        (λ h. absurd (ground arith), λ h. absurd (ground arith)),
      )
      | inr (token, there) ↦ elim (checked-cases (decode_typed decode token)) [
        | inl (claims, good) ↦
            let same = check_guard_user_iff b claims claims.role c in
            (
              (λ h. ground (arith, same.0), λ h. ground (arith, same.1)),
              (
                λ h. ground (arith, check_guard_user-allowed b claims claims.role),
                λ h. absurd (ground arith),
              ),
            )
        | inr (why, bad) ↦ (
          (λ h. absurd (ground arith), λ h. absurd (ground arith)),
          (λ h. absurd (ground arith), λ h. absurd (ground arith)),
        )
      ]
    ]
  ]

  -- The admin guard accepts exactly the sessions that the user guard accepts with the role of an
  -- administrator and whose token says so too.
  pub admin_session_iff :
      (c : ClaimsSession)
      → (try_jwt_cookie_auth decode b jwt ≡ accepted c)
        ↔ ((try_jwt_cookie_user decode b jwt ≡ accepted c) × (is_admin c ≡ true) × Presents c)
  admin_session_iff c = (
    λ h.
        let (claims, p, l) = admin-checked c h in
        let (live, admin, own) = check_admin-accepted b claims claims.role c refl l in
        (checked-user c claims p live, admin, subst Presents (sym own) p),
    λ w.
        let (claims, p, l) = user-checked c w.0 in
        let own : claims ≡ c = ground arith in
        let live : check_user b c c.role ≡ accepted c =
          subst (λ (d : ClaimsSession). check_user b d d.role ≡ accepted c) own l in
        checked-admin c c w.2 (user-populated c c.role c live)
          (accepted-check_admin b c c.role refl live w.1),
  )
