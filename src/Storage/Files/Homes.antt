-- ===== src/Storage/Files/Homes.antt =====
-- backend/src/storage/files.rs: the home directories of users.
use picasu.Prelude.{
  ◌≡◌, ◌≢◌, ◌↔◌, refl, sym, ap, ◌∙◌, Bool, true, false, Option, some, [], ◌∷◌, ◌++◌, arith, any,
  ◌==◌,
}
use picasu.Model.Text.{Text, text_eq, starts_with}
use picasu.Model.Text.Table.{text_eq_iff, text_eq_refl}
use picasu.Auth.Users.{ok, validate_user_id}
use picasu.Process.DirAlbum.{
  Component, root_dir, cur_dir, parent_dir, normal, PathBuf, path_eq, component_eq, components,
  join, segments, is_absolute, body,
}
use picasu.Process.DirAlbum.Cache.{strip_prefix}
use picasu.Storage.Files.{
  dir, is_safe_segment, users_dir_for, is_separator, is_blank, dot, dot_dot, canonicalize_if_exists,
  classify_path, visible_to,
}

component_eq_refl : (c : Component) → component_eq c c ≡ true
unfolding component_eq
component_eq_refl root_dir = refl
component_eq_refl cur_dir = refl
component_eq_refl parent_dir = refl
component_eq_refl (normal x) = text_eq_refl x

strip-append : (root rel : PathBuf) → strip_prefix (root ++ rel) root ≡ some rel
unfolding strip_prefix
strip-append [] rel = refl
strip-append (c ∷ root) rel = rw (component_eq_refl c) (strip-append root rel)

longer-neq : (root : PathBuf) (c : Component) → path_eq (root ++ c ∷ []) root ≡ false
unfolding path_eq
longer-neq [] c = refl
longer-neq (d ∷ root) c = ground (arith, component_eq_refl d, longer-neq root c)

segments-plain : (s : Text) → any is_separator s ≡ false → segments s ≡ s ∷ []
unfolding segments
segments-plain [] h = refl
segments-plain (c ∷ s) h =
    let rest = segments-plain s (ground arith) in
    let slashless : (c == 47) ≡ false = ground arith in rw (slashless, rest) refl

safe_parts :
    (nfkc : Text → Text) (s : Text)
    → is_safe_segment nfkc s ≡ true
    → (is_blank s ≡ false)
      × (text_eq s dot ≡ false)
      × (text_eq s dot_dot ≡ false)
      × (any is_separator s ≡ false)
unfolding is_safe_segment
safe_parts nfkc s h = ground arith

-- A safe segment is one normal component.
components-safe :
    (nfkc : Text → Text) (s : Text) → is_safe_segment nfkc s ≡ true → components s ≡ normal s ∷ []
unfolding components is_absolute body starts_with
components-safe nfkc [] h = absurd (ground (arith, safe_parts nfkc [] h))
components-safe nfkc (c ∷ s) h =
    let (filled, undotted, undoubled, whole) = safe_parts nfkc (c ∷ s) h in
    let relative : (c == 47) ≡ false = ground arith in
    rw (relative, segments-plain (c ∷ s) whole, undotted, undoubled) refl

join-name :
    (root : PathBuf) (name : Text)
    → root ≢ []
    → join root (normal name ∷ []) ≡ root ++ normal name ∷ []
unfolding join
join-name [] name h = absurd (h refl)
join-name (c ∷ root) name h = refl

made_parts :
    (nfkc : Text → Text) (root home : PathBuf) (id name : Text)
    → validate_user_id id ≡ ok name
    → users_dir_for nfkc (some root) id ≡ dir home
    → (is_safe_segment nfkc name ≡ true) × (join root (components name) ≡ home)
unfolding users_dir_for
made_parts nfkc root home id name valid made = ground arith

-- A user's home directory is the directory of the validated id directly under the users' root, and the
-- user is the only one who sees it. (No link stands there.)
pub home_private :
    (nfkc : Text → Text) (realpath : PathBuf → Option PathBuf) (exists : PathBuf → Bool)
    (image_home : Option PathBuf) (root home : PathBuf) (id name caller : Text)
    → root ≢ []
    → validate_user_id id ≡ ok name
    → users_dir_for nfkc (some root) id ≡ dir home
    → canonicalize_if_exists realpath exists home
      ≡ canonicalize_if_exists realpath exists root ++ normal name ∷ []
    → (home ≡ root ++ normal name ∷ [])
      × ((visible_to realpath exists
              (record { image_home = image_home; users_home = some root })
              caller
              home
            ≡ true)
          ↔ (name ≡ caller))
unfolding users_dir_for visible_to classify_path
home_private nfkc realpath exists image_home root home id name caller there valid made plain =
    let top = canonicalize_if_exists realpath exists root in
    let made' : (is_safe_segment nfkc name ≡ true) × (join root (components name) ≡ home) =
      made_parts nfkc root home id name valid made in
    let placed : home ≡ root ++ normal name ∷ [] =
      sym made'.1
      ∙ ap (join root) (components-safe nfkc name made'.0)
      ∙ join-name root name there in
    (
      placed,
      rw (plain, longer-neq top (normal name), strip-append top (normal name ∷ []))
          (text_eq_iff name caller),
    )
