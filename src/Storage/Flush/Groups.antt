-- ===== src/Storage/Flush/Groups.antt =====
-- backend/src/storage/asset_store.rs: the groups of assets with the same content hash.
use picasu.Prelude.{
  ◌≡◌, Bool, not, ◌&&◌, ◌||◌, List, [], ◌∷◌, ◌++◌, arith, filter, if◌then◌else◌, inl, inr,
  Bool-cases,
}
use picasu.Model.Text.{Text, text_eq, has_text}
use picasu.Model.Text.Table.{
  Table, insert, delete, find-insert, find-delete, text_eq_iff, text_eq_eq,
}
use picasu.Storage.AssetStore.{group, push_member, drop_member, store_group}

has_text-append :
    (i id : Text) (ids : List Text) → has_text i (ids ++ id ∷ []) ≡ (has_text i ids || text_eq i id)
unfolding has_text
has_text-append i id [] = ground arith
has_text-append i id (x ∷ ids) = ground (arith, has_text-append i id ids)

has_text-filter :
    (i id : Text) (ids : List Text)
    → has_text i (filter (λ x. not (text_eq x id)) ids) ≡ (has_text i ids && not (text_eq i id))
unfolding has_text
has_text-filter i id [] = ground arith
has_text-filter i id (x ∷ ids) =
    ground (arith, text_eq_iff i x, text_eq_iff x id, text_eq_iff i id, has_text-filter i id ids)

group-insert :
    (h h' : Text) (ids : List Text) (dupes : Table (List Text))
    → group h' (insert h ids dupes) ≡ (if text_eq h h' then ids else group h' dupes)
unfolding group
group-insert h h' ids dupes = ground (arith, find-insert h h' ids dupes)

group-delete :
    (h h' : Text) (dupes : Table (List Text))
    → group h' (delete h dupes) ≡ (if text_eq h h' then [] else group h' dupes)
unfolding group
group-delete h h' dupes = ground (arith, find-delete h h' dupes)

group-store :
    (h h' : Text) (ids : List Text) (dupes : Table (List Text))
    → group h' (store_group h ids dupes) ≡ (if text_eq h h' then ids else group h' dupes)
group-store h h' [] dupes = group-delete h h' dupes
group-store h h' (id ∷ ids) dupes = group-insert h h' (id ∷ ids) dupes

-- Whether an asset is in the group of a hash.
abbrev pub member : Text → Text → Table (List Text) → Bool
member h i dupes = has_text i (group h dupes)

pub member-push :
    (h h' id i : Text) (dupes : Table (List Text))
    → member h' i (push_member h id dupes) ≡ ((text_eq h h' && text_eq i id) || member h' i dupes)
unfolding push_member
member-push h h' id i dupes = elim (Bool-cases (text_eq h h')) [
  | inl same ↦ elim (Bool-cases (has_text id (group h dupes))) [
    | inl old ↦ ground (arith, text_eq_eq h h' same, text_eq_iff i id)
    | inr new ↦
        rw (new, group-insert h h' (group h dupes ++ id ∷ []) dupes, same)
          (ground (arith, has_text-append i id (group h dupes), text_eq_eq h h' same))
  ]
  | inr other ↦ ground (arith, group-insert h h' (group h dupes ++ id ∷ []) dupes)
]

pub member-drop :
    (h h' id i : Text) (dupes : Table (List Text))
    → member h' i (drop_member h id dupes)
      ≡ (member h' i dupes && not (text_eq h h' && text_eq i id))
unfolding drop_member
member-drop h h' id i dupes =
    let left = filter (λ x. not (text_eq x id)) (group h dupes) in
    rw (group-store h h' left dupes) (elim (Bool-cases (text_eq h h')) [
      | inl same ↦
          rw same (ground (arith, has_text-filter i id (group h dupes), text_eq_eq h h' same))
      | inr other ↦ ground arith
    ])
