-- ===== src/Storage/Flush/Index.antt =====
-- backend/src/tasks/batcher/flush_tree.rs: an insert keeps the tables of assets consistent.
use picasu.Prelude.{
  ℕ, ◌≡◌, ◌⊎◌, inl, inr, refl, sym, ap, ◌∙◌, Bool, false, not, ◌&&◌, ◌||◌, Option, none, some,
  arith, if◌then◌else◌, Option-cases, Bool-cases,
}
use picasu.Model.Text.{Text, text_eq, option_eq}
use picasu.Model.Text.Table.{find, find-insert, text_eq_iff, text_eq_refl, text_eq_eq}
use picasu.Model.Records.{AbstractData}
use picasu.Model.Assets.{AssetRecord, hash}
use picasu.Storage.AssetStore.{Tables, get_asset_id_by_path, get_asset_by_id}
use picasu.Storage.Flush.{
  path_of, flush_record, old_hash, leave_old_group, write_asset, insert_tables,
}
use picasu.Storage.Flush.Groups.{member, member-push, member-drop}

abbrev pub hash_of : Option AssetRecord → Option Text
hash_of none = none
hash_of (some r) = r.content_hash

-- Whether the record has the content hash.
abbrev pub has_hash : Text → Option AssetRecord → Bool
has_hash h o = option_eq (hash_of o) (some h)

-- The path table has exactly the paths of the records, and each hash group exactly the records with
-- that hash.
pub record IsIndexed (t : Tables) : Type 0 where
  pub path_known :
      (path id : Text)
      → find path t.by_path ≡ some id
      → (r : AssetRecord) × (find id t.by_id ≡ some r) × (r.path ≡ path)
  pub id_known :
      (id : Text) (r : AssetRecord)
      → find id t.by_id ≡ some r
      → (r.asset_id ≡ id) × (find r.path t.by_path ≡ some id)
  pub grouped : (h id : Text) → member h id t.dupes ≡ has_hash h (find id t.by_id)

-- Whether an asset leaves the group of `h`.
abbrev leaves : Option Text → Text → Text → Bool
leaves none content_hash h = false
leaves (some o) content_hash h = if text_eq o content_hash then false else text_eq o h

member-leave :
    (old : Option Text) (content_hash h id i : Text) (t : Tables)
    → member h i (leave_old_group old content_hash id t).dupes
      ≡ (member h i t.dupes && not (leaves old content_hash h && text_eq i id))
unfolding leave_old_group
member-leave none content_hash h id i t = ground arith
member-leave (some o) content_hash h id i t = elim (Bool-cases (text_eq o content_hash)) [
  | inl same ↦ rw same (ground arith)
  | inr other ↦ rw other (member-drop o h id i t.dupes)
]

pub leave-by_id :
    (old : Option Text) (content_hash id : Text) (t : Tables)
    → ((leave_old_group old content_hash id t).by_id ≡ t.by_id)
      × ((leave_old_group old content_hash id t).by_path ≡ t.by_path)
      × ((leave_old_group old content_hash id t).metadata ≡ t.metadata)
unfolding leave_old_group
leave-by_id none content_hash id t = (refl, refl, refl)
leave-by_id (some o) content_hash id t = elim (Bool-cases (text_eq o content_hash)) [
  | inl same ↦ rw same (refl, refl, refl)
  | inr other ↦ rw other (refl, refl, refl)
]

pub text_eq_sym : (a b : Text) → text_eq a b ≡ text_eq b a
text_eq_sym a b = ground (arith, text_eq_iff a b, text_eq_iff b a)

-- The writer's own asset ends in the group of its new hash alone.
own_group :
    (old : Option Text) (content_hash h : Text)
    → (text_eq content_hash h || (option_eq old (some h) && not (leaves old content_hash h)))
      ≡ text_eq content_hash h
own_group none content_hash h = ground arith
own_group (some o) content_hash h =
    ground (arith, text_eq_iff o content_hash, text_eq_iff o h, text_eq_iff content_hash h)

-- What an insert leaves in the tables.
module _ (now : ℕ) (id : Text) (item : AbstractData) (old : Option Text) (t : Tables) where
  pub write-by_id :
      (j : Text)
      → find j (write_asset now id item old t).by_id
        ≡ (if text_eq id j then some (flush_record now id item) else find j t.by_id)
  unfolding write_asset
  write-by_id j = rw ((leave-by_id old (hash item) id _).0) (find-insert id j _ t.by_id)

  pub write-by_path :
      (path : Text)
      → find path (write_asset now id item old t).by_path
        ≡ (if text_eq (path_of item) path then some id else find path t.by_path)
  unfolding write_asset
  write-by_path path =
      rw ((leave-by_id old (hash item) id _).1) (find-insert (path_of item) path id t.by_path)

  write-member :
      (h i : Text)
      → member h i (write_asset now id item old t).dupes ≡ (
          (text_eq (hash item) h && text_eq i id)
          || (member h i t.dupes && not (leaves old (hash item) h && text_eq i id)))
  unfolding write_asset
  write-member h i =
      member-push (hash item) h id i _
      ∙ ap (λ b. (text_eq (hash item) h && text_eq i id) || b)
          (member-leave old (hash item) h id i _)

module _ (now : ℕ) (id : Text) (item : AbstractData) (old : Option Text) (t : Tables)
    (v : IsIndexed t) (known : old ≡ hash_of (find id t.by_id)) where
  -- The id is the path's, or both are new.
  abbrev pub Owns : Type 0
  Owns =
      (find (path_of item) t.by_path ≡ some id)
      ⊎ ((find (path_of item) t.by_path ≡ none) × (find id t.by_id ≡ none))

  write-grouped :
      (h i : Text)
      → member h i (write_asset now id item old t).dupes
        ≡ has_hash h (find i (write_asset now id item old t).by_id)
  unfolding flush_record
  write-grouped h i =
      rw (write-member now id item old t h i, write-by_id now id item old t i, text_eq_sym i id)
        (elim (Bool-cases (text_eq id i)) [
          | inl same ↦
              let mine : option_eq old (some h) ≡ member h i t.dupes =
                rw (known, text_eq_eq id i same) (sym (v.grouped h i)) in
              rw (same, sym mine) (ground (arith, own_group old (hash item) h))
          | inr other ↦ rw other (ground (arith, v.grouped h i))
        ])

  module _ (own : Owns) where
    -- No other path has the id, and no other id has the path.
    pub others_path :
        (path j : Text)
        → find path t.by_path ≡ some j
        → text_eq (path_of item) path ≡ false
        → text_eq id j ≡ false
    others_path path j there other = elim (Bool-cases (text_eq id j)) [
      | inr differs ↦ differs
      | inl same ↦
          let (r, e, ep) = v.path_known path j there in
          let mine : find id t.by_id ≡ some r = rw (text_eq_eq id j same) e in
          elim own [
            | inl at ↦
                let (r', e', ep') = v.path_known (path_of item) id at in
                ground (arith, text_eq_iff (path_of item) path)
            | inr new ↦ ground arith
          ]
    ]

    others_id :
        (path j : Text)
        → find path t.by_path ≡ some j
        → text_eq id j ≡ false
        → text_eq (path_of item) path ≡ false
    others_id path j at differs = elim (Bool-cases (text_eq (path_of item) path)) [
      | inr other ↦ other
      | inl same ↦
          let mine : find (path_of item) t.by_path ≡ some j =
            rw (text_eq_eq (path_of item) path same) at in
          elim own [ inl known_at ↦ ground (arith, text_eq_iff id j) | inr new ↦ ground arith ]
    ]

    write-path_known :
        (path j : Text)
        → find path (write_asset now id item old t).by_path ≡ some j
        → (r : AssetRecord) × (find j (write_asset now id item old t).by_id ≡ some r)
          × (r.path ≡ path)
    unfolding flush_record
    write-path_known path j h = elim (Bool-cases (text_eq (path_of item) path)) [
      | inl same ↦ (
        flush_record now id item,
        ground (
          arith,
          write-by_path now id item old t path,
          write-by_id now id item old t j,
          text_eq_iff id j,
        ),
        text_eq_eq (path_of item) path same,
      )
      | inr other ↦
          let there : find path t.by_path ≡ some j =
            ground (arith, write-by_path now id item old t path) in
          let (r, e, ep) = v.path_known path j there in
          (r, ground (arith, write-by_id now id item old t j, others_path path j there other), ep)
    ]

    write-id_known :
        (j : Text) (r : AssetRecord)
        → find j (write_asset now id item old t).by_id ≡ some r
        → (r.asset_id ≡ j) × (find r.path (write_asset now id item old t).by_path ≡ some j)
    unfolding flush_record
    write-id_known j r h = elim (Bool-cases (text_eq id j)) [
      | inl same ↦
          let mine : r ≡ flush_record now id item =
            ground (arith, write-by_id now id item old t j) in
          let here = write-by_path now id item old t (path_of item) in
          let e = text_eq_eq id j same in
          rw mine (e, ground (arith, here, text_eq_refl (path_of item)))
      | inr other ↦
          let there : find j t.by_id ≡ some r = ground (arith, write-by_id now id item old t j) in
          let (e, at) = v.id_known j r there in
          (e, ground (arith, write-by_path now id item old t r.path, others_id r.path j at other))
    ]

    pub write-IsIndexed : IsIndexed (write_asset now id item old t)
    write-IsIndexed = record {
      path_known = write-path_known;
      id_known = write-id_known;
      grouped = write-grouped;
    }

pub insert_tables-IsIndexed :
    (now : ℕ) (fresh : Text) (item : AbstractData) (t : Tables)
    → IsIndexed t
    → find fresh t.by_id ≡ none
    → IsIndexed (insert_tables now fresh item t)
unfolding insert_tables get_asset_id_by_path old_hash get_asset_by_id
insert_tables-IsIndexed now fresh item t v new =
    elim (Option-cases (find (path_of item) t.by_path)) [
      | inl none_there ↦
          rw none_there
            (write-IsIndexed now fresh item none t v (rw new refl) (inr (none_there, new)))
      | inr (id, there) ↦
          rw there (write-IsIndexed now id item (hash_of (find id t.by_id)) t v refl (inl there))
    ]
