-- ===== src/Auth/Users/Ids.antt =====
-- Which user ids are valid.
use picasu.Prelude.{◌≤◌, ◌≡◌, sym, ap, ◌∙◌, ◌↔◌, ◌⊎◌, true, false, arith}
use picasu.Model.Text.{Text}
use picasu.Model.Text.Trim.{trim, len}
use picasu.Model.Text.TrimLaws.{trim-twice}
use picasu.Auth.Users.{ok, err, invalid_input, validate_user_id, is_blank}

-- A user id is accepted exactly if something is left when it is trimmed, of at most 64 bytes, and what
-- is left is the answer. Every other one is refused as invalid input.
pub validate_user_id_iff :
    (id trimmed : Text)
    → ((validate_user_id id ≡ ok trimmed)
        ↔ ((trimmed ≡ trim id) × (is_blank trimmed ≡ false) × (len trimmed ≤ 64)))
      × ((validate_user_id id ≡ err invalid_input)
          ↔ ((is_blank (trim id) ≡ true) ⊎ (65 ≤ len (trim id))))
unfolding validate_user_id
validate_user_id_iff id trimmed =
    ((λ h. ground arith, λ h. ground arith), (λ h. ground arith, λ h. ground arith))

-- An accepted user id is accepted unchanged when it is validated again.
pub validate_user_id-twice :
    (id trimmed : Text) → validate_user_id id ≡ ok trimmed → validate_user_id trimmed ≡ ok trimmed
validate_user_id-twice id trimmed h =
    let (e, named, short) = (validate_user_id_iff id trimmed).0.0 h in
    (validate_user_id_iff trimmed trimmed).0.1
      (e ∙ sym (trim-twice id) ∙ ap trim (sym e), named, short)
