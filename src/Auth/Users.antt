-- ===== src/Auth/Users.antt =====
-- backend/src/error.rs, and what registration uses of backend/src/auth/users.rs and user_store.rs.
pub mod Ids
use picasu.Prelude.{
  ◌≡◌, refl, ◌⊎◌, inl, inr, ℕ, Bool, true, false, Option, [], ◌∷◌, ltb, if◌then◌else◌,
}
use picasu.Model.Text.{Text}
use picasu.Model.Text.Table.{Table}
use picasu.Model.Text.Trim.{trim, len}

pub data ErrorKind : Type 0 where
  not_found permission_denied invalid_input internal conflict : ErrorKind
  database io serialization auth read_only_mode rate_limited : ErrorKind

pub data Result (A : Type 0) : Type 0 where
  ok : A → Result A
  err : ErrorKind → Result A

pub Result-cases :
    {A : Type 0} (o : Result A) → ((a : A) × (o ≡ ok a)) ⊎ ((e : ErrorKind) × (o ≡ err e))
Result-cases (ok a) = inl (a, refl)
Result-cases (err e) = inr (e, refl)

pub record UserRecord : Type 0 where
  pub hash : Option Text
  pub admin : Bool
  pub home : Option Text
  pub ver : ℕ
  pub disabled : Bool
  pub shares_enabled : Bool

-- The rows of the user store.
abbrev pub Users : Type 0
Users = Table UserRecord

abbrev pub is_blank : Text → Bool
is_blank [] = true
is_blank (c ∷ cs) = false

unfoldable pub validate_user_id : Text → Result Text
validate_user_id id =
    let trimmed = trim id in
    if is_blank trimmed
    then err invalid_input
    else if ltb 64 (len trimmed)
    then err invalid_input
    else ok trimmed
