-- ===== src/Auth/Revocations.antt =====
-- backend/src/auth/revocations.rs: the capabilities that must not work any more. Reads and writes of
-- the database succeed in the model, and every row decodes.
pub mod Expiry
use picasu.Prelude.{ℕ, Bool, true, false, List, [], ◌∷◌, ◌++◌, ltb, leb, map_or, if◌then◌else◌}
use picasu.Model.Text.{Text}
use picasu.Model.Text.Table.{Table, find, insert, delete}

pub record Revocation : Type 0 where
  pub expires_at : ℕ

abbrev pub Revocations : Type 0
Revocations = Table Revocation

abbrev session_prefix : Text
session_prefix = 115 ∷ 101 ∷ 115 ∷ 115 ∷ 105 ∷ 111 ∷ 110 ∷ 58 ∷ []

abbrev invite_prefix : Text
invite_prefix = 105 ∷ 110 ∷ 118 ∷ 105 ∷ 116 ∷ 101 ∷ 58 ∷ []

abbrev share_prefix : Text
share_prefix = 115 ∷ 104 ∷ 97 ∷ 114 ∷ 101 ∷ 58 ∷ []

unfoldable pub session_key : Text → Text
session_key jti = session_prefix ++ jti

unfoldable pub invite_key : Text → Text
invite_key invite_id = invite_prefix ++ invite_id

unfoldable pub share_key : Text → Text
share_key share_id = share_prefix ++ share_id

-- The ids that the first loop collects.
unfoldable pub expired : ℕ → Revocations → List Text
expired now [] = []
expired now ((id, r) ∷ rows) =
    let rest = expired now rows in if leb r.expires_at now then id ∷ rest else rest

unfoldable pub remove_all : List Text → Revocations → Revocations
remove_all [] rows = rows
remove_all (id ∷ ids) rows = remove_all ids (delete id rows)

-- `now` is the clock.
unfoldable pub revoke : ℕ → Text → ℕ → Revocations → Revocations
revoke now key expires_at rows =
    insert key (record { expires_at = expires_at }) (remove_all (expired now rows) rows)

unfoldable pub is_revoked : ℕ → Text → Revocations → Bool
is_revoked now key rows = map_or false (λ r. ltb now r.expires_at) (find key rows)

unfoldable pub clear : Revocations → Revocations
clear rows = []
