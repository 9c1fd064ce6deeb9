-- ===== src/Model/Statistics/Own.antt =====
-- backend/src/model/album.rs: the files that an album counts as its own.
use picasu.Prelude.{
  ℕ, ◌≡◌, ◌⊎◌, ◌↔◌, ◌∙◌, sym, ap, refl, true, false, Option, none, some, List, [], ◌∷◌, arith,
  Bool-cases, Option-cases, inl, inr,
}
use picasu.Model.Text.{Text, text_eq}
use picasu.Model.Text.Table.{text_eq_iff, text_eq_refl}
use picasu.Model.Records.{FileEntry, AbstractData, image, video, album}
use picasu.Model.Assets.{entry}
use picasu.Process.DirAlbum.{
  PathBuf, Component, root_dir, cur_dir, parent_dir, normal, component_eq, path_eq, components,
  parent,
}
use picasu.Process.DirAlbum.Cache.{lies_under, strip_prefix}
use picasu.Model.Statistics.{
  MediaItemInfo, DatabaseTimestamp, placeholder, file_name, path_is_in_album_or_descendant,
  is_direct, file_info, media_infos,
}

component_eq_refl : (c : Component) → component_eq c c ≡ true
unfolding component_eq
component_eq_refl root_dir = refl
component_eq_refl cur_dir = refl
component_eq_refl parent_dir = refl
component_eq_refl (normal x) = text_eq_refl x

component_eq_sound : (c d : Component) → component_eq c d ≡ true → c ≡ d
unfolding component_eq
component_eq_sound root_dir root_dir h = refl
component_eq_sound root_dir cur_dir h = absurd (ground arith)
component_eq_sound root_dir parent_dir h = absurd (ground arith)
component_eq_sound root_dir (normal y) h = absurd (ground arith)
component_eq_sound cur_dir root_dir h = absurd (ground arith)
component_eq_sound cur_dir cur_dir h = refl
component_eq_sound cur_dir parent_dir h = absurd (ground arith)
component_eq_sound cur_dir (normal y) h = absurd (ground arith)
component_eq_sound parent_dir root_dir h = absurd (ground arith)
component_eq_sound parent_dir cur_dir h = absurd (ground arith)
component_eq_sound parent_dir parent_dir h = refl
component_eq_sound parent_dir (normal y) h = absurd (ground arith)
component_eq_sound (normal x) root_dir h = absurd (ground arith)
component_eq_sound (normal x) cur_dir h = absurd (ground arith)
component_eq_sound (normal x) parent_dir h = absurd (ground arith)
component_eq_sound (normal x) (normal y) h = ap normal ((text_eq_iff x y).0 h)

path_eq_refl : (p : PathBuf) → path_eq p p ≡ true
unfolding path_eq
path_eq_refl [] = refl
path_eq_refl (c ∷ p) = ground (arith, component_eq_refl c, path_eq_refl p)

path_eq_sound : (p q : PathBuf) → path_eq p q ≡ true → p ≡ q
unfolding path_eq
path_eq_sound [] [] h = refl
path_eq_sound [] (d ∷ q) h = absurd (ground arith)
path_eq_sound (c ∷ p) [] h = absurd (ground arith)
path_eq_sound (c ∷ p) (d ∷ q) h =
    let e : c ≡ d = component_eq_sound c d (ground arith) in
    let r : p ≡ q = path_eq_sound p q (ground arith) in ap (λ x. x ∷ p) e ∙ ap (λ x. d ∷ x) r

-- A path lies under its parent.
lies_under-parent : (p d : PathBuf) → parent p ≡ some d → lies_under p d ≡ true
unfolding parent lies_under strip_prefix
lies_under-parent [] d h = absurd (ground arith)
lies_under-parent (root_dir ∷ []) d h = absurd (ground arith)
lies_under-parent (cur_dir ∷ []) d h = let e : [] ≡ d = ground arith in rw (sym e) refl
lies_under-parent (parent_dir ∷ []) d h = let e : [] ≡ d = ground arith in rw (sym e) refl
lies_under-parent (normal x ∷ []) d h = let e : [] ≡ d = ground arith in rw (sym e) refl
lies_under-parent (c ∷ x ∷ p) d h = elim (Option-cases (parent (x ∷ p))) [
  | inl missing ↦ absurd (ground arith)
  | inr (up, e) ↦
      let split : c ∷ up ≡ d = ground arith in
      rw (sym split) (ground (arith, component_eq_refl c, lies_under-parent (x ∷ p) up e))
]

-- The file lies directly in the directory, is not trashed and is no placeholder.
abbrev pub IsOwn : PathBuf → FileEntry → Type 0
IsOwn dir e =
    (e.is_trashed ≡ false)
    × (parent (components e.file) ≡ some dir)
    × ((name : Text) × (file_name (components e.file) ≡ some name)
        × (text_eq name placeholder ≡ false))

is_direct_iff : (dir : PathBuf) (e : FileEntry) → (is_direct dir e ≡ true) ↔ IsOwn dir e
unfolding path_is_in_album_or_descendant
is_direct_iff dir e = elim (Option-cases (parent (components e.file))) [
  | inl orphan ↦ (λ h. absurd (ground arith), λ w. absurd (ground arith))
  | inr (up, above) ↦ elim (Option-cases (file_name (components e.file))) [
    | inl unnamed ↦ (λ h. absurd (ground arith), λ w. let named = w.2.1 in absurd (ground arith))
    | inr (name, named) ↦ (
      λ h.
          let same : up ≡ dir = path_eq_sound up dir (ground arith) in
          (ground arith, above ∙ ap some same, (name, named, ground arith)),
      λ (kept, child, (name', named', real)).
          let same : up ≡ dir = ground arith in
          let below = lies_under-parent (components e.file) dir child in
          let equal : path_eq up dir ≡ true = rw same (path_eq_refl dir) in
          let same_name : name ≡ name' = ground arith in
          let real' : text_eq name placeholder ≡ false = rw same_name real in ground arith,
    )
  ]
]

abbrev bytes : AbstractData → ℕ
bytes (image img) = img.metadata.size
bytes (video vid) = vid.metadata.size
bytes (album alb) = 0

abbrev thumbhash_of : AbstractData → Option (List ℕ)
thumbhash_of (image img) = img.object.thumbhash
thumbhash_of (video vid) = vid.object.thumbhash
thumbhash_of (album alb) = alb.object.thumbhash

abbrev Counts : PathBuf → AbstractData → Type 0
Counts dir item = (e : FileEntry) × (entry item ≡ some e) × IsOwn dir e

abbrev info_of : DatabaseTimestamp → AbstractData → MediaItemInfo
info_of row item = record {
  asset_id = row.asset_id;
  size = bytes item;
  thumbhash = thumbhash_of item;
  timestamp = row.timestamp;
}

-- These are the rows' files that the directory counts as its own, in the order of the rows.
abbrev pub OwnFiles : PathBuf → List DatabaseTimestamp → List MediaItemInfo → Type 0
OwnFiles dir [] infos = infos ≡ []
OwnFiles dir (row ∷ rows) infos =
    ((rest : List MediaItemInfo) × Counts dir row.abstract_data
      × (infos ≡ info_of row row.abstract_data ∷ rest)
      × OwnFiles dir rows rest)
    ⊎ ((Counts dir row.abstract_data → ⊥) × OwnFiles dir rows infos)

file_info-Counts :
    (dir : PathBuf) (row : DatabaseTimestamp) (item : AbstractData)
    → Counts dir item
    → file_info (is_direct dir) row item ≡ some (info_of row item)
unfolding entry
file_info-Counts dir row (image img) (e, there, own) =
    let counted = (is_direct_iff dir e).1 own in rw (there, counted) refl
file_info-Counts dir row (video vid) (e, there, own) =
    let counted = (is_direct_iff dir e).1 own in rw (there, counted) refl
file_info-Counts dir row (album alb) (e, there, own) = absurd (ground arith)

file_info-none :
    (dir : PathBuf) (row : DatabaseTimestamp) (item : AbstractData)
    → (Counts dir item → ⊥)
    → file_info (is_direct dir) row item ≡ none
unfolding entry
file_info-none dir row (image img) uncounted = elim (Option-cases img.metadata.path) [
  | inl missing ↦ rw missing refl
  | inr (e, there) ↦ elim (Bool-cases (is_direct dir e)) [
    | inl counted ↦ absurd (uncounted (e, there, (is_direct_iff dir e).0 counted))
    | inr other ↦ rw (there, other) refl
  ]
]
file_info-none dir row (video vid) uncounted = elim (Option-cases vid.metadata.path) [
  | inl missing ↦ rw missing refl
  | inr (e, there) ↦ elim (Bool-cases (is_direct dir e)) [
    | inl counted ↦ absurd (uncounted (e, there, (is_direct_iff dir e).0 counted))
    | inr other ↦ rw (there, other) refl
  ]
]
file_info-none dir row (album alb) uncounted = refl

pub media_infos-OwnFiles :
    (dir : PathBuf) (rows : List DatabaseTimestamp) (infos : List MediaItemInfo)
    → OwnFiles dir rows infos
    → media_infos (is_direct dir) rows ≡ infos
unfolding media_infos
media_infos-OwnFiles dir [] infos own = sym own
media_infos-OwnFiles dir (row ∷ rows) infos (inl (rest, counts, e, own)) =
    let here = file_info-Counts dir row row.abstract_data counts in
    let later = media_infos-OwnFiles dir rows rest own in rw (here, later) (sym e)
media_infos-OwnFiles dir (row ∷ rows) infos (inr (uncounted, own)) =
    let skipped = file_info-none dir row row.abstract_data uncounted in
    rw skipped (media_infos-OwnFiles dir rows infos own)
