-- ===== src/Auth/Invites.antt =====
-- backend/src/auth/invites.rs: single-use invitations. Reads and writes of the database succeed in the
-- model, and every row decodes.
pub mod Claim
pub mod Redeem
pub mod Spent
pub mod History
pub mod Race
pub mod Lifecycle
mod Tests
use picasu.Prelude.{
  ℕ, zero, suc, ◌+◌, ◌*◌, ◌^◌, Bool, true, false, not, ◌&&◌, Option, none, some, List, [], ◌∷◌, ltb,
  leb, ◌==◌, if◌then◌else◌, u64_max, map_or,
}
use picasu.Model.Text.{Text, text_eq}
use picasu.Model.Text.Table.{Table, find, insert, delete}
use picasu.Model.Text.Trim.{trim}
use picasu.Auth.Users.{
  ErrorKind, not_found, permission_denied, invalid_input, conflict, io, Result, ok, err, UserRecord,
  Users, validate_user_id, is_blank,
}

abbrev pub default_expiry_hours : ℕ
default_expiry_hours = 7 * 24

abbrev pub max_expiry_hours : ℕ
max_expiry_hours = 365 * 24

abbrev pub prefix_len : ℕ
prefix_len = 8

pub record InviteRecord : Type 0 where
  pub prefix : Text
  pub created_by : Text
  pub expires_at : Option ℕ
  pub used_by : Option Text
  pub username : Option Text

pub record InviteView : Type 0 where
  pub id : Text
  pub prefix : Text
  pub created_by : Text
  pub expires_at : Option ℕ
  pub used_by : Option Text
  pub username : Option Text

unfoldable pub into_view : InviteRecord → Text → InviteView
into_view r id = record {
  id = id;
  prefix = r.prefix;
  created_by = r.created_by;
  expires_at = r.expires_at;
  used_by = r.used_by;
  username = r.username;
}

abbrev pub Invites : Type 0
Invites = Table InviteRecord

-- `checked_mul` and `checked_add`
abbrev checked : ℕ → Option ℕ
checked n = if leb n u64_max then some n else none

abbrev checked_deadline : ℕ → Option ℕ → Option ℕ
checked_deadline now none = none
checked_deadline now (some s) = checked (now + s)

abbrev deadline_or_invalid : Option ℕ → Result (Option ℕ)
deadline_or_invalid none = err invalid_input
deadline_or_invalid (some seconds) = ok (some seconds)

-- The hours are an `i64` in two's complement; `now` is the clock.
unfoldable pub resolve_expiry : ℕ → ℕ → Result (Option ℕ)
resolve_expiry now expires_in_hours =
    if expires_in_hours == 0
    then ok none
    else if ltb expires_in_hours (2 ^ 63)
    then (if ltb max_expiry_hours expires_in_hours
        then err invalid_input
        else deadline_or_invalid (checked_deadline now (checked (expires_in_hours * 3600))))
    else err invalid_input

abbrev pub take : ℕ → List ℕ → List ℕ
take zero xs = []
take (suc n) [] = []
take (suc n) (x ∷ xs) = x ∷ take n xs

-- The binding that a creation request asks for.
unfoldable pub bound_user : Option Text → Result (Option Text)
bound_user none = ok none
bound_user (some u) =
    let trimmed = trim u in
    if is_blank trimmed
    then ok none
    else elim (validate_user_id trimmed) [ ok id ↦ ok (some id) | err e ↦ err e ]

-- The scan of all rows: the record of the last one whose key is the candidate's.
unfoldable pub scan : Text → Invites → Option InviteRecord → Option InviteRecord
scan candidate [] found = found
scan candidate ((key, r) ∷ rows) found =
    scan candidate rows (if text_eq candidate key then some r else found)

abbrev pub bound_to_other : Text → Option Text → Bool
bound_to_other id none = false
bound_to_other id (some expected) = not (text_eq id expected)

abbrev pub is_set : {A : Type 0} → Option A → Bool
is_set none = false
is_set (some x) = true

-- The transaction on the table of invites: verify the candidate, and mark its row used.
unfoldable pub claim : ℕ → Text → Text → Users → Invites → Result Invites
claim now id candidate users invites = elim (scan candidate invites none) [
  | none ↦ err not_found
  | some r ↦
      if bound_to_other id r.username
      then err permission_denied
      else if is_set r.used_by
      then err conflict
      else if map_or false (λ deadline. leb deadline now) r.expires_at
      then err permission_denied
      else if is_set (find id users)
      then err conflict
      else ok (insert candidate (record r { used_by = some id }) invites)
]

unfoldable pub get_invite : Text → Invites → Option InviteRecord
get_invite invite_id invites = find invite_id invites

unfoldable pub revoke_invite : Text → Invites → Invites × Bool
revoke_invite invite_id invites = (delete invite_id invites, is_set (find invite_id invites))

-- `hash_token` is blake3 of the token in hex, `hash_password` the password's argon2id string.
module _ (hash_token hash_password : Text → Text) where
  -- `token` is the fresh random one.
  unfoldable pub create_invite_with_expiry :
      Text → Text → Option ℕ → Option Text → Invites → Invites × Result (Text × InviteRecord)
  create_invite_with_expiry token created_by expires_at username invites =
      let creator = trim created_by in
      if is_blank creator then (invites, err invalid_input) else elim (bound_user username) [
        | err e ↦ (invites, err e)
        | ok user ↦
            let r : InviteRecord = record {
              prefix = take prefix_len token;
              created_by = creator;
              expires_at = expires_at;
              used_by = none;
              username = user;
            } in
            (insert (hash_token token) r invites, ok (token, r))
      ]

  -- `create_invite`
  unfoldable pub create_invite : ℕ → Text → Text → Invites → Invites × Result (Text × InviteRecord)
  create_invite now token created_by invites = elim (resolve_expiry now default_expiry_hours) [
    | err e ↦ (invites, err e)
    | ok expires_at ↦ create_invite_with_expiry token created_by expires_at none invites
  ]

  abbrev pub new_user : Text → UserRecord
  new_user canonical = record {
    hash = some (hash_password canonical);
    admin = false;
    home = none;
    ver = 0;
    disabled = false;
    shares_enabled = true;
  }

  -- The read-modify-write of the user store, with the error kind that its caller maps all errors to.
  unfoldable pub enter : Text → Text → Users → Users × Result Unit
  enter id canonical users =
      if is_set (find id users)
      then (users, err io)
      else (insert id (new_user canonical) users, ok tt)

  -- The user store is another file, which others may write between the steps: `before` at the first
  -- look, `inside` in the transaction, `after` at the last write.
  unfoldable pub redeem_invite :
      ℕ → Text → Text → Text → Users → Users → Users → Invites → Invites × Users × Result Unit
  redeem_invite now user_id token canonical before inside after invites =
      elim (validate_user_id user_id) [
        | err e ↦ (invites, after, err e)
        | ok id ↦
            if is_set (find id before)
            then (invites, after, err conflict)
            else elim (claim now id (hash_token token) inside invites) [
              | err e ↦ (invites, after, err e)
              | ok invites' ↦
                  let (users, result) = enter id canonical after in (invites', users, result)
            ]
      ]
