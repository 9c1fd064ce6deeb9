-- ===== src/Tasks/AlbumIndex/Roots.antt =====
-- backend/src/tasks/actor/album_index.rs: the directories that an index job scans. `is_dir` is the
-- question to the file system.
use picasu.Prelude.{
  ◌≡◌, inl, inr, refl, sym, ap, Bool, true, false, not, ◌||◌, Option, none, some, List, [], ◌∷◌,
  ◌++◌, ◌∙◌, ◌==◌, any, all, if◌then◌else◌, arith, Bool-cases, Option-cases,
}
use picasu.Model.Text.{Text, text_eq}
use picasu.Model.Text.Trim.{trim}
use picasu.Auth.Users.{invalid_input, Result, ok, err, Result-cases, is_blank}
use picasu.Process.DirAlbum.{PathBuf, path_eq, components, join}
use picasu.Process.DirAlbum.Cache.{lies_under}

abbrev slash : Text
slash = 47 ∷ []

abbrev global_text : Text
global_text = 103 ∷ 108 ∷ 111 ∷ 98 ∷ 97 ∷ 108 ∷ []

abbrev personal_text : Text
personal_text = 112 ∷ 101 ∷ 114 ∷ 115 ∷ 111 ∷ 110 ∷ 97 ∷ 108 ∷ []

abbrev auto_text : Text
auto_text = 97 ∷ 117 ∷ 116 ∷ 111 ∷ []

unfoldable pub trim_start_slash : Text → Text
trim_start_slash [] = []
trim_start_slash (c ∷ cs) = let rest = trim_start_slash cs in if c == 47 then rest else c ∷ cs

abbrev pub is_global : Option Text → Bool
is_global none = false
is_global (some mode) = text_eq mode global_text

abbrev pub is_personal : Option Text → Bool
is_personal none = false
is_personal (some mode) = text_eq mode personal_text

-- The check of the selector.
unfoldable pub is_selector : Option Text → Bool
is_selector none = true
is_selector (some mode) =
    text_eq mode global_text || text_eq mode personal_text || text_eq mode auto_text

abbrev to_list : Option PathBuf → List PathBuf
to_list none = []
to_list (some path) = path ∷ []

abbrev is_nil : List PathBuf → Bool
is_nil [] = true
is_nil (r ∷ rs) = false

unfoldable pub is_inside_internal_subtree : PathBuf → List PathBuf → Bool
is_inside_internal_subtree path internal_roots =
    any (λ internal. path_eq path internal || lies_under path internal) internal_roots

module _ (is_dir : PathBuf → Bool) (image_root : PathBuf) (users_root : Option PathBuf) where
  -- The roots of a scan of everything.
  abbrev whole : Option Text → List PathBuf
  whole mode =
      (if is_personal mode then [] else image_root ∷ [])
      ++ (if is_global mode then [] else to_list users_root)

  unfoldable pub whole_roots : Option Text → Result (List PathBuf)
  whole_roots mode =
      if is_nil (whole mode)
      then err invalid_input
      else if all is_dir (whole mode)
      then ok (whole mode)
      else err invalid_input

  abbrev one_dir : PathBuf → Result (List PathBuf) → Result (List PathBuf)
  one_dir path other = if is_dir path then ok (path ∷ []) else other

  abbrev in_users : PathBuf → Result (List PathBuf)
  in_users rel = elim users_root [
    | none ↦ err invalid_input
    | some u ↦ one_dir (join u rel) (err invalid_input)
  ]

  unfoldable pub relative_roots : Option Text → PathBuf → Result (List PathBuf)
  relative_roots mode rel =
      if is_personal mode
      then in_users rel
      else if is_global mode
      then one_dir (join image_root rel) (err invalid_input)
      else one_dir (join image_root rel) (in_users rel)

  unfoldable pub resolve_scan_roots : Text → Option Text → Result (List PathBuf)
  resolve_scan_roots src mode =
      let trimmed = trim src in
      if text_eq trimmed slash || is_blank trimmed
      then whole_roots mode
      else relative_roots mode (components (trim_start_slash trimmed))

  -- What `index_album_with_root` checks before it takes the status slot: the roots that it scans.
  unfoldable pub checked_roots : Text → Option Text → List PathBuf → Result (List PathBuf)
  checked_roots src mode internal_roots =
      if not (is_selector mode) then err invalid_input else elim (resolve_scan_roots src mode) [
        | err e ↦ err e
        | ok roots ↦
            if any (λ root. is_inside_internal_subtree root internal_roots) roots
            then err invalid_input
            else ok roots
      ]

module _ (is_dir : PathBuf → Bool) (image_root : PathBuf) (users_root : Option PathBuf) where
  -- Some directories, all of which are there.
  abbrev AreDirs : List PathBuf → Type 0
  AreDirs roots = (is_nil roots ≡ false) × (all is_dir roots ≡ true)

  one_dir-AreDirs :
      (path : PathBuf) (other : Result (List PathBuf)) (roots : List PathBuf)
      → (other ≡ ok roots → AreDirs roots)
      → one_dir is_dir image_root users_root path other ≡ ok roots
      → AreDirs roots
  one_dir-AreDirs path other roots rest h = elim (Bool-cases (is_dir path)) [
    | inl there ↦ let e : path ∷ [] ≡ roots = ground arith in rw (sym e) (refl, ground arith)
    | inr missing ↦ rest (ground arith)
  ]

  in_users-AreDirs :
      (rel : PathBuf) (roots : List PathBuf)
      → in_users is_dir image_root users_root rel ≡ ok roots
      → AreDirs roots
  in_users-AreDirs rel roots h = elim (Option-cases users_root) [
    | inl none_set ↦ absurd (ground arith)
    | inr (u, e) ↦
        one_dir-AreDirs (join u rel) (err invalid_input) roots (λ h'. absurd (ground arith))
          (ground arith)
  ]

  relative-AreDirs :
      (mode : Option Text) (rel : PathBuf) (roots : List PathBuf)
      → relative_roots is_dir image_root users_root mode rel ≡ ok roots
      → AreDirs roots
  unfolding relative_roots
  relative-AreDirs mode rel roots h = elim (Bool-cases (is_personal mode)) [
    | inl personal ↦ in_users-AreDirs rel roots (ground arith)
    | inr shared ↦ elim (Bool-cases (is_global mode)) [
      | inl global ↦
          one_dir-AreDirs (join image_root rel) (err invalid_input) roots
            (λ h'. absurd (ground arith)) (ground arith)
      | inr auto ↦
          one_dir-AreDirs (join image_root rel) (in_users is_dir image_root users_root rel) roots
            (in_users-AreDirs rel roots) (ground arith)
    ]
  ]

  whole-AreDirs :
      (mode : Option Text) (roots : List PathBuf)
      → whole_roots is_dir image_root users_root mode ≡ ok roots
      → AreDirs roots
  unfolding whole_roots
  whole-AreDirs mode roots h =
      let found = whole is_dir image_root users_root mode in
      elim (Bool-cases (is_nil found)) [
        | inl empty ↦ absurd (ground arith)
        | inr filled ↦ elim (Bool-cases (all is_dir found)) [
          | inr missing ↦ absurd (ground arith)
          | inl there ↦
              let e : found ≡ roots = ground arith in
              (ap is_nil (sym e) ∙ filled, ap (all is_dir) (sym e) ∙ there)
        ]
      ]

  resolve-AreDirs :
      (src : Text) (mode : Option Text) (roots : List PathBuf)
      → resolve_scan_roots is_dir image_root users_root src mode ≡ ok roots
      → AreDirs roots
  unfolding resolve_scan_roots
  resolve-AreDirs src mode roots h =
      elim (Bool-cases (text_eq (trim src) slash || is_blank (trim src))) [
        | inl all_of_it ↦ whole-AreDirs mode roots (ground arith)
        | inr part ↦
            relative-AreDirs mode (components (trim_start_slash (trim src))) roots (ground arith)
      ]

  -- A job that starts scans at least one directory, each of its roots is a directory that is there, and
  -- none lies in the server's own data.
  pub checked_roots_safe :
      (src : Text) (mode : Option Text) (internal_roots roots : List PathBuf)
      → checked_roots is_dir image_root users_root src mode internal_roots ≡ ok roots
      → (is_nil roots ≡ false)
        × (all is_dir roots ≡ true)
        × (any (λ root. is_inside_internal_subtree root internal_roots) roots ≡ false)
  unfolding checked_roots
  checked_roots_safe src mode internal_roots roots h = elim (Bool-cases (is_selector mode)) [
    | inr unknown ↦ absurd (ground arith)
    | inl known ↦ elim (Result-cases (resolve_scan_roots is_dir image_root users_root src mode)) [
      | inr (why, refused) ↦ absurd (ground arith)
      | inl (found, resolved) ↦
          let (filled, there) = resolve-AreDirs src mode found resolved in
          elim (Bool-cases (any (λ root. is_inside_internal_subtree root internal_roots) found)) [
            | inl inside ↦ absurd (ground arith)
            | inr apart ↦ let e : found ≡ roots = ground arith in rw (sym e) (filled, there, apart)
          ]
    ]
  ]
