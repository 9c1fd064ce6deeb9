-- ===== src/Storage/AssetStore.antt =====
-- backend/src/storage/asset_store.rs: the tables of assets. Reads and writes of the database succeed in
-- the model, and every row decodes.
use picasu.Prelude.{
  ℕ, Bool, false, not, Option, none, some, List, [], ◌∷◌, ◌++◌, map_or, if◌then◌else◌, filter,
}
use picasu.Model.Text.{Text, text_eq, has_text, starts_with}
use picasu.Model.Text.Table.{Table, find, insert, delete}
use picasu.Model.Records.{AbstractData}
use picasu.Model.Assets.{AssetRecord, MetadataRecord}
use picasu.Model.Assets.Compose.{compose_abstract_data}

-- `ASSET_BY_PATH`, `ASSET_BY_ID`, `DUPE_INDEX` and `METADATA_TABLE`
pub record Tables : Type 0 where
  pub by_path : Table Text
  pub by_id : Table AssetRecord
  pub dupes : Table (List Text)
  pub metadata : Table MetadataRecord

unfoldable pub get_asset_id_by_path : Text → Tables → Option Text
get_asset_id_by_path path t = find path t.by_path

unfoldable pub put_asset_by_path : Text → Text → Tables → Tables
put_asset_by_path path asset_id t = record t { by_path = insert path asset_id t.by_path }

unfoldable pub remove_asset_by_path : Text → Tables → Tables
remove_asset_by_path path t = record t { by_path = delete path t.by_path }

unfoldable pub get_asset_by_id : Text → Tables → Option AssetRecord
get_asset_by_id asset_id t = find asset_id t.by_id

unfoldable pub put_asset_by_id : AssetRecord → Tables → Tables
put_asset_by_id r t = record t { by_id = insert r.asset_id r t.by_id }

unfoldable pub remove_asset_by_id : Text → Tables → Tables
remove_asset_by_id asset_id t = record t { by_id = delete asset_id t.by_id }

unfoldable pub rows : Table AssetRecord → List AssetRecord
rows [] = []
rows ((id, r) ∷ table) = r ∷ rows table

unfoldable pub get_all_assets : Tables → List AssetRecord
get_all_assets t = rows t.by_id

-- `ends_with('/')`
unfoldable pub ends_with_slash : Text → Bool
ends_with_slash [] = false
ends_with_slash (c ∷ []) = text_eq (c ∷ []) (47 ∷ [])
ends_with_slash (c ∷ d ∷ cs) = ends_with_slash (d ∷ cs)

unfoldable pub get_assets_under_path : Text → Tables → List AssetRecord
get_assets_under_path dir_path t =
    let prefix = if ends_with_slash dir_path then dir_path else dir_path ++ 47 ∷ [] in
    filter (λ r. starts_with r.path prefix) (get_all_assets t)

-- `now` is the clock.
unfoldable pub lookup_abstract_data_by_asset_id : ℕ → Text → Tables → Option AbstractData
lookup_abstract_data_by_asset_id now asset_id t = elim (get_asset_by_id asset_id t) [
  | none ↦ none
  | some r ↦ some (compose_abstract_data now r (find asset_id t.metadata))
]

-- The group of a content hash, in the table.
unfoldable pub group : Text → Table (List Text) → List Text
group content_hash dupes = map_or [] (λ ids. ids) (find content_hash dupes)

unfoldable pub get_dupe_ids : Text → Tables → List Text
get_dupe_ids content_hash t = group content_hash t.dupes

unfoldable pub push_member : Text → Text → Table (List Text) → Table (List Text)
push_member content_hash asset_id dupes =
    let ids = group content_hash dupes in
    if has_text asset_id ids then dupes else insert content_hash (ids ++ asset_id ∷ []) dupes

abbrev pub store_group : Text → List Text → Table (List Text) → Table (List Text)
store_group content_hash [] dupes = delete content_hash dupes
store_group content_hash (id ∷ ids) dupes = insert content_hash (id ∷ ids) dupes

unfoldable pub drop_member : Text → Text → Table (List Text) → Table (List Text)
drop_member content_hash asset_id dupes =
    store_group content_hash (filter (λ id. not (text_eq id asset_id)) (group content_hash dupes))
      dupes

unfoldable pub add_to_dupe_group : Text → Text → Tables → Tables
add_to_dupe_group content_hash asset_id t = record t {
  dupes = push_member content_hash asset_id t.dupes;
}

unfoldable pub remove_from_dupe_group : Text → Text → Tables → Tables
remove_from_dupe_group content_hash asset_id t = record t {
  dupes = drop_member content_hash asset_id t.dupes;
}

abbrev with_hash : (Text → Tables → Tables) → Option Text → Tables → Tables
with_hash f none t = t
with_hash f (some h) t = f h t

unfoldable pub insert_asset : AssetRecord → Tables → Tables
insert_asset r t =
    with_hash (λ h. add_to_dupe_group h r.asset_id) r.content_hash
      (put_asset_by_path r.path r.asset_id (put_asset_by_id r t))

unfoldable pub remove_asset : AssetRecord → Tables → Tables
remove_asset r t =
    with_hash (λ h. remove_from_dupe_group h r.asset_id) r.content_hash
      (remove_asset_by_path r.path (remove_asset_by_id r.asset_id t))
