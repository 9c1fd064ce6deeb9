-- ===== src/Storage/Files/Tests.antt =====
-- A server with the users' root at /u.
use picasu.Prelude.{◌≡◌, ◌↔◌, refl, Bool, true, Option, none, some, [], ◌∷◌, ◌++◌, arith}
use picasu.Model.Text.{Text, starts_with}
use picasu.Model.Text.Trim.{trim, trim_start, trim_end, len}
use picasu.Auth.Users.{ok, validate_user_id}
use picasu.Process.DirAlbum.{
  root_dir, normal, PathBuf, components, segments, is_absolute, body, join,
}
use picasu.Storage.Files.{
  dir, Roots, is_safe_segment, users_dir_for, canonicalize_if_exists, write_gate, visible_to,
}
use picasu.Storage.Files.Ownership.{Sees, write_gate_iff}
use picasu.Storage.Files.Homes.{home_private}

abbrev ann : Text
ann = 97 ∷ 110 ∷ 110 ∷ []

abbrev users_home : PathBuf
users_home = root_dir ∷ normal (117 ∷ []) ∷ []

abbrev ann_home : PathBuf
ann_home = root_dir ∷ normal (117 ∷ []) ∷ normal ann ∷ []

abbrev roots : Roots
roots = record { image_home = none; users_home = some users_home }

-- No link and no denormalized text.
abbrev realpath : PathBuf → Option PathBuf
realpath path = some path

exists : PathBuf → Bool
exists path = true

abbrev nfkc : Text → Text
nfkc t = t

write_gate_iff_example :
    (write_gate realpath exists roots ann (some ann_home) none ≡ none)
    ↔ (Sees realpath exists ann roots (some ann_home) × Sees realpath exists ann roots none)
write_gate_iff_example = write_gate_iff realpath exists ann roots (some ann_home) none

ann-valid : validate_user_id ann ≡ ok ann
unfolding validate_user_id trim trim_start trim_end len
ann-valid = refl

ann-home : users_dir_for nfkc (some users_home) ann ≡ dir ann_home
unfolding users_dir_for is_safe_segment components segments is_absolute body starts_with join
    validate_user_id trim trim_start trim_end len
ann-home = refl

no_link :
    canonicalize_if_exists realpath exists ann_home
    ≡ canonicalize_if_exists realpath exists users_home ++ normal ann ∷ []
unfolding canonicalize_if_exists
no_link = refl

home_private_example :
    (ann_home ≡ users_home ++ normal ann ∷ [])
    × ((visible_to realpath exists
            (record { image_home = none; users_home = some users_home })
            ann
            ann_home
          ≡ true)
        ↔ (ann ≡ ann))
home_private_example =
    home_private nfkc realpath exists none users_home ann_home ann ann ann (λ e. ground (arith, e))
      ann-valid ann-home no_link
