-- ===== src/Storage/Flush/Removal.antt =====
-- backend/src/tasks/batcher/flush_tree.rs: a removal keeps the tables of assets consistent.
use picasu.Prelude.{
  ◌≡◌, refl, sym, ◌∙◌, inl, inr, not, ◌&&◌, none, some, arith, if◌then◌else◌, Bool-cases,
}
use picasu.Model.Text.{Text, text_eq}
use picasu.Model.Text.Table.{find, find-delete, text_eq_iff, text_eq_eq}
use picasu.Model.Assets.{AssetRecord}
use picasu.Storage.AssetStore.{
  Tables, remove_asset_by_id, remove_asset_by_path, remove_from_dupe_group,
}
use picasu.Storage.Flush.{remove_asset_from_tables}
use picasu.Storage.Flush.Groups.{member, member-drop}
use picasu.Storage.Flush.Index.{IsIndexed, has_hash, text_eq_sym}

-- What a removal leaves in the tables.
module _ (id path content_hash : Text) (t : Tables) where
  pub remove-by_id :
      (j : Text)
      → find j (remove_asset_from_tables id path content_hash t).by_id
        ≡ (if text_eq id j then none else find j t.by_id)
  unfolding remove_asset_from_tables remove_from_dupe_group remove_asset_by_path remove_asset_by_id
  remove-by_id j = find-delete id j t.by_id

  pub remove-by_path :
      (q : Text)
      → find q (remove_asset_from_tables id path content_hash t).by_path
        ≡ (if text_eq path q then none else find q t.by_path)
  unfolding remove_asset_from_tables remove_from_dupe_group remove_asset_by_path remove_asset_by_id
  remove-by_path q = find-delete path q t.by_path

  pub remove-member :
      (h i : Text)
      → member h i (remove_asset_from_tables id path content_hash t).dupes
        ≡ (member h i t.dupes && not (text_eq content_hash h && text_eq i id))
  unfolding remove_asset_from_tables remove_from_dupe_group remove_asset_by_path remove_asset_by_id
  remove-member h i = member-drop content_hash h id i t.dupes

  module _ (v : IsIndexed t) (r : AssetRecord) (there : find id t.by_id ≡ some r)
      (own : r.path ≡ path) (current : r.content_hash ≡ some content_hash) where
    remove-path_known :
        (q j : Text)
        → find q (remove_asset_from_tables id path content_hash t).by_path ≡ some j
        → (s : AssetRecord) × (find j (remove_asset_from_tables id path content_hash t).by_id
            ≡ some s)
          × (s.path ≡ q)
    remove-path_known q j h =
        let at : find q t.by_path ≡ some j = ground (arith, remove-by_path q) in
        let (s, e, es) = v.path_known q j at in
        (
          s,
          ground (arith, remove-by_id j, remove-by_path q, text_eq_iff id j, text_eq_iff path q),
          es,
        )

    remove-id_known :
        (j : Text) (s : AssetRecord)
        → find j (remove_asset_from_tables id path content_hash t).by_id ≡ some s
        → (s.asset_id ≡ j)
          × (find s.path (remove_asset_from_tables id path content_hash t).by_path ≡ some j)
    remove-id_known j s h =
        let at : find j t.by_id ≡ some s = ground (arith, remove-by_id j) in
        let (e, found) = v.id_known j s at in
        let (mine, listed) = v.id_known id r there in
        (
          e,
          ground (
            arith,
            remove-by_path s.path,
            remove-by_id j,
            text_eq_iff path s.path,
            text_eq_iff id j,
          ),
        )

    remove-grouped :
        (h i : Text)
        → member h i (remove_asset_from_tables id path content_hash t).dupes
          ≡ has_hash h (find i (remove_asset_from_tables id path content_hash t).by_id)
    remove-grouped h i =
        rw (remove-member h i, remove-by_id i, text_eq_sym i id)
          (elim (Bool-cases (text_eq id i)) [
            | inl same ↦
                let mine : member h i t.dupes ≡ text_eq content_hash h =
                  v.grouped h i ∙ rw (sym (text_eq_eq id i same), there, current) refl in
                rw (same, mine) (ground arith)
            | inr other ↦ rw other (ground (arith, v.grouped h i))
          ])

    pub remove-IsIndexed : IsIndexed (remove_asset_from_tables id path content_hash t)
    remove-IsIndexed = record {
      path_known = remove-path_known;
      id_known = remove-id_known;
      grouped = remove-grouped;
    }
