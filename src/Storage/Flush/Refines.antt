-- ===== src/Storage/Flush/Refines.antt =====
-- backend/src/tasks/batcher/flush_tree.rs: the tables implement a map from paths to records.
use mathlib.Core.Path.{fun_ext}
use picasu.Prelude.{
  ℕ, ◌≡◌, refl, sym, ap, ◌∙◌, inl, inr, Bool, false, Option, none, some, List, [], ◌∷◌, arith,
  map_or, if◌then◌else◌, Option-cases, Bool-cases,
}
use picasu.Model.Text.{Text, text_eq}
use picasu.Model.Text.Table.{find, text_eq_iff, text_eq_refl, text_eq_eq}
use picasu.Model.Records.{AbstractData}
use picasu.Model.Assets.{AssetRecord, hash}
use picasu.Storage.AssetStore.{Tables, get_asset_id_by_path}
use picasu.Storage.Flush.{
  Stores, path_of, flush_record, old_hash, write_asset, insert_tables, remove_asset_from_tables,
  remove_tables, mark, flush_insert, flush_remove, flush_inserts, flush_removes, flush_tables,
  is_empty,
}
use picasu.Storage.Flush.Index.{
  IsIndexed, hash_of, write-by_id, write-by_path, insert_tables-IsIndexed, others_path,
}
use picasu.Storage.Flush.Removal.{remove-by_id, remove-by_path, remove-IsIndexed}

-- What the tables promise: a map from paths to records.
abbrev pub Catalog : Type 0
Catalog = Text → Option AssetRecord

abbrev record_of : Tables → Option Text → Option AssetRecord
record_of t none = none
record_of t (some id) = find id t.by_id

abbrev pub catalog : Tables → Catalog
catalog t path = record_of t (find path t.by_path)

-- An insert writes the record of its path, with the id that the path has.
abbrev pub catalog_insert : ℕ → Text → AbstractData → Catalog → Catalog
catalog_insert now fresh item c path =
    if text_eq (path_of item) path
    then some
        (flush_record now (map_or fresh (λ (r : AssetRecord). r.asset_id) (c (path_of item))) item)
    else c path

abbrev pub catalog_remove : AbstractData → Catalog → Catalog
catalog_remove item c path = if text_eq (path_of item) path then none else c path

abbrev pub catalog_inserts : ℕ → List (Text × AbstractData) → Catalog → Catalog
catalog_inserts now [] c = c
catalog_inserts now ((fresh, item) ∷ inserts) c =
    catalog_inserts now inserts (catalog_insert now fresh item c)

abbrev pub catalog_removes : List AbstractData → Catalog → Catalog
catalog_removes [] c = c
catalog_removes (item ∷ removes) c = catalog_removes removes (catalog_remove item c)

catalog-write :
    (now : ℕ) (id : Text) (item : AbstractData) (old : Option Text) (t : Tables) (path : Text)
    → (text_eq (path_of item) path ≡ false
        → (j : Text) → find path t.by_path ≡ some j
        → text_eq id j ≡ false)
    → catalog (write_asset now id item old t) path
      ≡ (if text_eq (path_of item) path then some (flush_record now id item) else catalog t path)
catalog-write now id item old t path apart = elim (Bool-cases (text_eq (path_of item) path)) [
  | inl same ↦
      rw (write-by_path now id item old t path, same, write-by_id now id item old t id)
        (ground (arith, text_eq_refl id))
  | inr other ↦ elim (Option-cases (find path t.by_path)) [
    | inl missing ↦ ground (arith, write-by_path now id item old t path)
    | inr (j, there) ↦ ground (
      arith,
      write-by_path now id item old t path,
      write-by_id now id item old t j,
      apart other j there,
    )
  ]
]

pub catalog-insert_tables :
    (now : ℕ) (fresh : Text) (item : AbstractData) (t : Tables)
    → IsIndexed t
    → find fresh t.by_id ≡ none
    → catalog (insert_tables now fresh item t) ≡ catalog_insert now fresh item (catalog t)
unfolding insert_tables get_asset_id_by_path old_hash
catalog-insert_tables now fresh item t v new = fun_ext λ path.
    elim (Option-cases (find (path_of item) t.by_path)) [
      | inl missing ↦ rw missing (
          catalog-write now fresh item none t path (λ other j there.
            others_path now fresh item none t v (rw new refl) (inr (missing, new)) path j there
              other))
      | inr (id, at) ↦
          let (r, e, ep) = v.path_known (path_of item) id at in
          let (own, listed) = v.id_known id r e in
          rw (at, e, own)
            (catalog-write now id item (old_hash (some id) t) t path (λ other j there.
              others_path now id item (hash_of (find id t.by_id)) t v refl (inl at) path j there
                other))
    ]

-- The removed record is the one that its path has, by its content hash, and has a path.
abbrev pub IsCurrent : AbstractData → Tables → Type 0
IsCurrent item t =
    (is_empty (path_of item) ≡ false)
    × ((r : AssetRecord) → catalog t (path_of item) ≡ some r → r.content_hash ≡ some (hash item))

catalog-removal :
    (id path content_hash : Text) (t : Tables) (q : Text)
    → IsIndexed t
    → find path t.by_path ≡ some id
    → catalog (remove_asset_from_tables id path content_hash t) q
      ≡ (if text_eq path q then none else catalog t q)
catalog-removal id path content_hash t q v at = elim (Bool-cases (text_eq path q)) [
  | inl same ↦ rw (remove-by_path id path content_hash t q, same) refl
  | inr other ↦ elim (Option-cases (find q t.by_path)) [
    | inl missing ↦ ground (arith, remove-by_path id path content_hash t q)
    | inr (j, there) ↦
        let (r, e, ep) = v.path_known path id at in
        let (s, e', es) = v.path_known q j there in
        ground (
          arith,
          remove-by_path id path content_hash t q,
          remove-by_id id path content_hash t j,
          text_eq_iff id j,
          text_eq_iff path q,
        )
  ]
]

module _ (on_disk : Text → Bool) where
  pub catalog-remove_tables :
      (item : AbstractData) (t : Tables)
      → IsIndexed t
      → is_empty (path_of item) ≡ false
      → catalog (remove_tables on_disk item t) ≡ catalog_remove item (catalog t)
  unfolding remove_tables get_asset_id_by_path
  catalog-remove_tables item t v named = elim (Option-cases (find (path_of item) t.by_path)) [
    | inl missing ↦
        rw (named, missing)
          (fun_ext λ q. elim (Bool-cases (text_eq (path_of item) q)) [
            | inl same ↦ rw (same, sym (text_eq_eq (path_of item) q same), missing) refl
            | inr other ↦ rw other refl
          ])
    | inr (id, at) ↦
        rw (named, at) (fun_ext λ q. catalog-removal id (path_of item) (hash item) t q v at)
  ]

  pub remove_tables-IsIndexed :
      (item : AbstractData) (t : Tables)
      → IsIndexed t
      → IsCurrent item t
      → IsIndexed (remove_tables on_disk item t)
  unfolding remove_tables get_asset_id_by_path
  remove_tables-IsIndexed item t v current = elim (Option-cases (find (path_of item) t.by_path)) [
    | inl missing ↦ rw (current.0, missing) v
    | inr (id, at) ↦
        let (r, e, ep) = v.path_known (path_of item) id at in
        let found : catalog t (path_of item) ≡ some r = rw at e in
        rw (current.0, at)
          (remove-IsIndexed id (path_of item) (hash item) t v r e ep (current.1 r found))
  ]

  -- The drawn ids are new when they are drawn.
  abbrev pub DrawsNew : ℕ → List (Text × AbstractData) → Stores → Type 0
  DrawsNew now [] s = Unit
  DrawsNew now ((fresh, item) ∷ inserts) s =
      (find fresh s.tables.by_id ≡ none) × DrawsNew now inserts (flush_insert now fresh item s)

  -- Each removed record is current when it is removed.
  abbrev pub AreCurrent : List AbstractData → Stores → Type 0
  AreCurrent [] s = Unit
  AreCurrent (item ∷ removes) s =
      IsCurrent item s.tables × AreCurrent removes (flush_remove on_disk item s)

  inserts-refine :
      (now : ℕ) (inserts : List (Text × AbstractData)) (s : Stores)
      → IsIndexed s.tables
      → DrawsNew now inserts s
      → IsIndexed (flush_inserts on_disk now inserts s).tables
        × (catalog (flush_inserts on_disk now inserts s).tables
            ≡ catalog_inserts now inserts (catalog s.tables))
  unfolding flush_inserts flush_insert mark
  inserts-refine now [] s v new = (v, refl)
  inserts-refine now ((fresh, item) ∷ inserts) s v new =
      let (v', e) =
        inserts-refine now inserts (flush_insert now fresh item s)
          (insert_tables-IsIndexed now fresh item s.tables v new.0) new.1 in
      (
        v',
        e
            ∙ ap (catalog_inserts now inserts)
                (catalog-insert_tables now fresh item s.tables v new.0),
      )

  removes-refine :
      (removes : List AbstractData) (s : Stores)
      → IsIndexed s.tables
      → AreCurrent removes s
      → IsIndexed (flush_removes on_disk removes s).tables
        × (catalog (flush_removes on_disk removes s).tables
            ≡ catalog_removes removes (catalog s.tables))
  unfolding flush_removes flush_remove mark
  removes-refine [] s v current = (v, refl)
  removes-refine (item ∷ removes) s v current =
      let kept = remove_tables-IsIndexed item s.tables v current.0 in
      let (v', e) = removes-refine removes (flush_remove on_disk item s) kept current.1 in
      (v', e ∙ ap (catalog_removes removes) (catalog-remove_tables item s.tables v current.0.0))

  -- A flush is an update of a map from paths to records: the inserts one by one, then the removals. It
  -- keeps the tables consistent: the paths are those of the records, and a hash group has exactly the
  -- records with that hash. (The drawn ids are new, and each removed record has a path and the content
  -- hash that is stored for it.)
  pub flush_tables-refines :
      (now : ℕ) (inserts : List (Text × AbstractData)) (removes : List AbstractData) (s : Stores)
      → IsIndexed s.tables
      → DrawsNew now inserts s
      → AreCurrent removes (flush_inserts on_disk now inserts s)
      → IsIndexed (flush_tables on_disk now inserts removes s).tables
        × (catalog (flush_tables on_disk now inserts removes s).tables
            ≡ catalog_removes removes (catalog_inserts now inserts (catalog s.tables)))
  unfolding flush_tables
  flush_tables-refines now inserts removes s v new current =
      let (v', e) = inserts-refine now inserts s v new in
      let (v'', e') = removes-refine removes (flush_inserts on_disk now inserts s) v' current in
      (v'', e' ∙ ap (catalog_removes removes) e)
