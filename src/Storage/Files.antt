-- ===== src/Storage/Files.antt =====
-- backend/src/storage/files.rs: who may see and write which paths. `realpath` is the file system's
-- canonicalization, `exists` its question whether a path is there, and `nfkc` the normalization of
-- unicode_normalization.
pub mod Ownership
pub mod Homes
mod Tests
use mathlib.Core.List.{reverse}
use picasu.Prelude.{
  ℕ, Bool, true, false, not, ◌&&◌, ◌||◌, Option, none, some, List, [], ◌∷◌, ◌++◌, map, leb, ◌==◌,
  any, if◌then◌else◌,
}
use picasu.Model.Text.{Text, text_eq}
use picasu.Auth.Users.{Result, ok, err, validate_user_id}
use picasu.Process.DirAlbum.{
  Component, root_dir, cur_dir, parent_dir, normal, PathBuf, path_eq, components, join,
}
use picasu.Process.DirAlbum.Cache.{strip_prefix}

pub data PathClassification : Type 0 where
  public users_root outside : PathClassification
  personal : Text → PathClassification

-- `PathBuf::pop`
abbrev pop : PathBuf → PathBuf
pop [] = []
pop (root_dir ∷ []) = root_dir ∷ []
pop (c ∷ []) = []
pop (c ∷ d ∷ path) = c ∷ pop (d ∷ path)

-- The loop of `clean_path`, with what it has so far.
unfoldable pub clean : PathBuf → PathBuf → PathBuf
clean out [] = out
clean out (cur_dir ∷ path) = clean out path
clean out (parent_dir ∷ path) = clean (pop out) path
clean out (root_dir ∷ path) = clean (root_dir ∷ []) path
clean out (normal name ∷ path) = clean (out ++ normal name ∷ []) path

unfoldable pub clean_path : PathBuf → PathBuf
clean_path path = clean [] path

abbrev is_control : ℕ → Bool
is_control c = leb c 31 || (leb 127 c && leb c 159)

abbrev pub is_blank : Text → Bool
is_blank [] = true
is_blank (c ∷ cs) = false

-- '/', '\', U+FF0F, U+FF3C, U+2215, U+2044 and U+FE68
abbrev pub is_separator : ℕ → Bool
is_separator c =
    c == 47 || c == 92 || c == 65295 || c == 65340 || c == 8725 || c == 8260 || c == 65128

-- Whether the text is one normal component.
abbrev is_one_normal : PathBuf → Bool
is_one_normal (normal name ∷ []) = true
is_one_normal _ = false

abbrev pub dot : Text
dot = 46 ∷ []

abbrev pub dot_dot : Text
dot_dot = 46 ∷ 46 ∷ []

pub data UsersDir : Type 0 where
  disabled invalid_user : UsersDir
  dir : PathBuf → UsersDir

module _ (nfkc : Text → Text) where
  unfoldable pub is_safe_segment : Text → Bool
  is_safe_segment s =
      if is_blank s || text_eq s dot || text_eq s dot_dot
      then false
      else if any (λ c. c == 47) (nfkc s) || any (λ c. c == 92) (nfkc s)
      then false
      else if text_eq (nfkc s) dot || text_eq (nfkc s) dot_dot
      then false
      else if not (is_one_normal (components s))
      then false
      else if any is_control s
      then false
      else not (any is_separator s)

  unfoldable pub users_dir_for : Option PathBuf → Text → UsersDir
  users_dir_for users_home id = elim users_home [
    | none ↦ disabled
    | some root ↦ elim (validate_user_id id) [
      | err e ↦ invalid_user
      | ok name ↦
          if not (is_safe_segment name) then invalid_user else dir (join root (components name))
    ]
  ]

pub data WriteDenial : Type 0 where
  into_users_root not_owner cross_owner : WriteDenial

-- The answer of the gate; `none` is `Ok(())`.
abbrev pub Verdict : Type 0
Verdict = Option WriteDenial

-- The configured roots.
pub record Roots : Type 0 where
  pub image_home : Option PathBuf
  pub users_home : Option PathBuf

module _ (realpath : PathBuf → Option PathBuf) (exists : PathBuf → Bool) where
  -- The loop of `canonicalize_if_exists`, on the reversed path: the longest prefix that is there, and the
  -- names behind it.
  unfoldable pub climb : PathBuf → List Text → PathBuf × List Text
  climb [] tail = ([], tail)
  climb (normal name ∷ up) tail =
      let higher = climb up (name ∷ tail) in
      if exists (reverse (normal name ∷ up)) then (reverse (normal name ∷ up), tail) else higher
  climb (c ∷ up) tail = (reverse (c ∷ up), tail)

  abbrev resolved : PathBuf → PathBuf
  resolved prefix = elim (realpath prefix) [ none ↦ clean_path prefix | some path ↦ path ]

  abbrev or_clean : PathBuf → PathBuf → PathBuf
  or_clean path [] = clean_path path
  or_clean path (c ∷ out) = c ∷ out

  unfoldable pub canonicalize_if_exists : PathBuf → PathBuf
  canonicalize_if_exists path = elim (realpath path) [
    | some there ↦ there
    | none ↦
        let (prefix, tail) = climb (reverse path) [] in
        or_clean path (resolved prefix ++ map normal tail)
  ]

  abbrev owner_of : PathBuf → PathClassification
  owner_of (normal name ∷ path) = personal name
  owner_of _ = users_root

  abbrev in_image_home : PathBuf → Option PathBuf → PathClassification
  in_image_home path none = outside
  in_image_home path (some image_home) =
      let root = canonicalize_if_exists image_home in
      elim (strip_prefix path root) [
        | none ↦ if path_eq path root then public else outside
        | some rel ↦ public
      ]

  abbrev in_roots : Roots → PathBuf → Option PathBuf → PathClassification
  in_roots roots path none = in_image_home path roots.image_home
  in_roots roots path (some users_home) =
      let root = canonicalize_if_exists users_home in
      if path_eq path root then users_root else elim (strip_prefix path root) [
        | some rel ↦ owner_of rel
        | none ↦ in_image_home path roots.image_home
      ]

  unfoldable pub classify_path : Roots → PathBuf → PathClassification
  classify_path roots path = in_roots roots (canonicalize_if_exists path) roots.users_home

  abbrev pub seen_by : Text → PathClassification → Bool
  seen_by caller public = true
  seen_by caller outside = true
  seen_by caller (personal owner) = text_eq owner caller
  seen_by caller users_root = false

  unfoldable pub visible_to : Roots → Text → PathBuf → Bool
  visible_to roots caller path = seen_by caller (classify_path roots path)

  -- Whether the gate's first check refuses the pair.
  abbrev pub crosses : PathClassification → PathClassification → Bool
  crosses (personal so) (personal owner) = not (text_eq so owner)
  crosses _ _ = false

  abbrev pub denies : Text → PathClassification → Verdict
  denies caller users_root = some into_users_root
  denies caller (personal owner) = if not (text_eq owner caller) then some not_owner else none
  denies caller _ = none

  abbrev denies_path : Roots → Text → Option PathBuf → Verdict
  denies_path roots caller none = none
  denies_path roots caller (some path) = denies caller (classify_path roots path)

  abbrev pub first_of : Verdict → Verdict → Verdict
  first_of none v = v
  first_of (some why) v = some why

  abbrev pair_crosses : Roots → Option PathBuf → Option PathBuf → Bool
  pair_crosses roots (some s) (some d) = crosses (classify_path roots s) (classify_path roots d)
  pair_crosses roots (some s) none = false
  pair_crosses roots none d = false

  unfoldable pub write_gate : Roots → Text → Option PathBuf → Option PathBuf → Verdict
  write_gate roots caller source dest =
      if pair_crosses roots source dest
      then some cross_owner
      else first_of (denies_path roots caller source) (denies_path roots caller dest)

  abbrev nested : PathBuf → PathBuf → Bool
  nested path root = elim (strip_prefix path root) [ none ↦ false | some rel ↦ true ]

  abbrev apart : Option PathBuf → Option PathBuf → Bool
  apart (some image_home) (some users_home) =
      let img = canonicalize_if_exists image_home in
      let usr = canonicalize_if_exists users_home in
      not (path_eq img usr || nested img usr || nested usr img)
  apart none u = true
  apart (some i) none = true

  -- `validate_path_roots(…).is_ok()`
  unfoldable pub validate_path_roots : Option PathBuf → Option PathBuf → Bool
  validate_path_roots image_home users_home = apart image_home users_home
