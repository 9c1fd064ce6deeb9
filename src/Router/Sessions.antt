-- ===== src/Router/Sessions.antt =====
-- backend/src/router/auth.rs and backend/src/router/post/users_authenticate.rs: session tokens, the
-- guards that accept them, and the logout. `decode` is the decoder of jsonwebtoken with the server's
-- key at the time of the request.
pub mod Guards
pub mod Ends
mod Tests
use picasu.Prelude.{
  ℕ, ◌+◌, ◌*◌, Bool, true, false, not, ◌&&◌, Option, none, some, [], ◌∷◌, ◌==◌, map_or,
  if◌then◌else◌,
}
use picasu.Model.Text.{Text}
use picasu.Model.Text.Table.{find}
use picasu.Model.Text.Trim.{trim}
use picasu.Model.Records.{Share}
use picasu.Auth.Users.{UserRecord, Users}
use picasu.Auth.Revocations.{Revocations, session_key, revoke, is_revoked}

pub record ResolvedShare : Type 0 where
  pub share : Share
  pub album_id : Text
  pub album_title : Option Text

pub data Role : Type 0 where
  user : Text → Bool → Role
  guest : ResolvedShare → Role

pub data TokenType : Type 0 where
  session snapshot asset : TokenType

pub record ClaimsSession : Type 0 where
  pub role : Role
  pub exp : ℕ
  pub typ : TokenType
  pub jti : Text
  pub ver : ℕ

-- `now` is the clock in seconds, and `jti` the fresh UUID.
unfoldable pub new_user : ℕ → Text → Text → Bool → ℕ → ClaimsSession
new_user now jti id admin ver = record {
  role = user id admin;
  exp = now + 14 * 86400;
  typ = session;
  jti = jti;
  ver = ver;
}

unfoldable pub new_share : ℕ → Text → ResolvedShare → ClaimsSession
new_share now jti resolved_share = record {
  role = guest resolved_share;
  exp = now + 14 * 86400;
  typ = session;
  jti = jti;
  ver = 0;
}

unfoldable pub admin_role : Role → Bool
admin_role (user id admin) = admin
admin_role (guest share) = false

-- `ClaimsSession::is_admin`
abbrev pub is_admin : ClaimsSession → Bool
is_admin claims = admin_role claims.role

-- Why a session is refused; each is a message of the source.
pub data SessionError : Type 0 where
  not_enrolled jwt_not_found undecodable type_mismatch : SessionError
  not_an_admin share_not_accepted session_revoked missing_or_stale : SessionError

pub data Checked (A : Type 0) : Type 0 where
  accepted : A → Checked A
  refused : SessionError → Checked A

-- What the guards read: the user store, the revocation list and the clock.
pub record Backend : Type 0 where
  pub users : Users
  pub revocations : Revocations
  pub now : ℕ

-- `user_store::read`, and `users::user_record`
unfoldable pub read : Text → Users → Option UserRecord
read id users = find (trim id) users

-- `users::get_admin(id).ok().flatten().unwrap_or(false)`
abbrev pub get_admin : Text → Users → Bool
get_admin id users = map_or false (λ r. r.admin) (read id users)

unfoldable pub is_empty : Users → Bool
is_empty [] = true
is_empty (row ∷ users) = false

abbrev pub is_session : TokenType → Bool
is_session session = true
is_session _ = false

abbrev pub revoked : Backend → ClaimsSession → Bool
revoked b claims = is_revoked b.now (session_key claims.jti) b.revocations

-- The identity check of `try_jwt_cookie_auth`.
unfoldable pub check_admin : Backend → ClaimsSession → Role → Checked ClaimsSession
check_admin b claims (guest share) = refused not_an_admin
check_admin b claims (user id admin) =
    if not admin then refused not_an_admin else elim (read id b.users) [
      | none ↦ refused not_an_admin
      | some r ↦
          if get_admin id b.users && not r.disabled
          then (if not (r.ver == claims.ver)
              then refused not_an_admin
              else if r.disabled
              then refused not_an_admin
              else if revoked b claims
              then refused not_an_admin
              else accepted claims)
          else refused not_an_admin
    ]

-- The identity check of `try_jwt_cookie_user`.
unfoldable pub check_user : Backend → ClaimsSession → Role → Checked ClaimsSession
check_user b claims (guest share) = refused share_not_accepted
check_user b claims (user id admin) = elim (read id b.users) [
  | none ↦ refused missing_or_stale
  | some r ↦
      if r.ver == claims.ver && not r.disabled
      then (if revoked b claims
          then refused session_revoked
          else accepted (record claims { role = user id r.admin }))
      else refused missing_or_stale
]

-- The answers of `GuardUser`: a session, 401 or 403.
pub data Outcome : Type 0 where
  success : ClaimsSession → Outcome
  unauthorized forbidden : Outcome

-- The identity check of `GuardUser::from_request`.
unfoldable pub check_guard_user : Backend → ClaimsSession → Role → Outcome
check_guard_user b claims (guest share) = unauthorized
check_guard_user b claims (user id admin) = elim (read id b.users) [
  | none ↦ unauthorized
  | some r ↦
      if not (r.ver == claims.ver)
      then unauthorized
      else if r.disabled
      then unauthorized
      else if revoked b claims
      then unauthorized
      else success (record claims { role = user id r.admin })
]

module _ (decode : Text → Option ClaimsSession) where
  -- `decode_typed`
  unfoldable pub decode_typed : Text → Checked ClaimsSession
  decode_typed token = elim (decode token) [
    | none ↦ refused undecodable
    | some claims ↦ if is_session claims.typ then accepted claims else refused type_mismatch
  ]

  -- `jwt` is the session cookie.
  unfoldable pub try_jwt_cookie_auth : Backend → Option Text → Checked ClaimsSession
  try_jwt_cookie_auth b jwt = if is_empty b.users then refused not_enrolled else elim jwt [
    | none ↦ refused jwt_not_found
    | some token ↦ elim (decode_typed token) [
      | refused e ↦ refused e
      | accepted claims ↦ check_admin b claims claims.role
    ]
  ]

  unfoldable pub try_jwt_cookie_user : Backend → Option Text → Checked ClaimsSession
  try_jwt_cookie_user b jwt = if is_empty b.users then refused not_enrolled else elim jwt [
    | none ↦ refused jwt_not_found
    | some token ↦ elim (decode_typed token) [
      | refused e ↦ refused e
      | accepted claims ↦ check_user b claims claims.role
    ]
  ]

  -- `GuardUser::from_request`
  unfoldable pub guard_user : Backend → Option Text → Outcome
  guard_user b jwt = if is_empty b.users then forbidden else elim jwt [
    | none ↦ unauthorized
    | some token ↦ elim (decode_typed token) [
      | refused e ↦ unauthorized
      | accepted claims ↦ check_guard_user b claims claims.role
    ]
  ]

  abbrev revoke_session : ℕ → ClaimsSession → Role → Revocations → Revocations
  revoke_session now claims (user id admin) rows =
      revoke now (session_key claims.jti) claims.exp rows
  revoke_session now claims (guest share) rows = rows

  -- `logout`: the revocation list afterwards.
  unfoldable pub logout : ℕ → Option Text → Revocations → Revocations
  logout now jwt rows = elim jwt [
    | none ↦ rows
    | some token ↦ elim (decode_typed token) [
      | refused e ↦ rows
      | accepted claims ↦ revoke_session now claims claims.role rows
    ]
  ]
