-- ===== src/Storage/Flush/Tests.antt =====
-- A store with one scanned file, a second file that comes and the first that goes and comes again.
use picasu.Prelude.{◌≡◌, refl, Bool, true, false, none, some, List, [], ◌∷◌, arith, map_or}
use picasu.Model.Text.{Text, has_text}
use picasu.Model.Text.Table.{find, insert}
use picasu.Model.Records.{image_type, AbstractData, image}
use picasu.Model.Assets.{hash, entry}
use picasu.Storage.AssetStore.{
  Tables, group, get_asset_id_by_path, lookup_abstract_data_by_asset_id,
}
use picasu.Storage.Flush.{
  Stores, path_of, flush_record, old_hash, leave_old_group, write_asset, insert_tables, mark,
  flush_insert, flush_inserts, flush_tables,
}
use picasu.Storage.Flush.Index.{IsIndexed, insert_tables-IsIndexed}
use picasu.Storage.Flush.Refines.{
  catalog, catalog_inserts, catalog_removes, IsCurrent, flush_tables-refines,
}
use picasu.Storage.Flush.Reads.{lookup-insert_tables}
use picasu.Storage.Flush.Merge.{execute, merge_loses_insert}
use picasu.Tasks.Writer.Plan.{flush, Message, Task, plan}

-- An image with this content hash at this path.
abbrev scan : Text → Text → AbstractData
scan content_hash file = image (record {
  object = record {
    id = content_hash;
    obj_type = image_type;
    pending = false;
    thumbhash = none;
    description = none;
    tags = [];
    rating = none;
    update_at = 3;
  };
  metadata = record {
    size = 10;
    width = 4;
    height = 5;
    ext = 106 ∷ [];
    phash = none;
    album = none;
    exif_vec = [];
    path = some (record { file = file; modified = 1; scan_time = 2; is_trashed = false });
  };
})

abbrev first : AbstractData
first = scan (9 ∷ []) (97 ∷ [])

abbrev second : AbstractData
second = scan (9 ∷ []) (98 ∷ [])

abbrev empty_tables : Tables
empty_tables = record { by_path = []; by_id = []; dupes = []; metadata = [] }

empty_tables-IsIndexed : IsIndexed empty_tables
unfolding find group has_text
empty_tables-IsIndexed = record {
  path_known = λ path id h. absurd (ground arith);
  id_known = λ id r h. absurd (ground arith);
  grouped = λ h id. refl;
}

abbrev start : Stores
start = record {
  tables = insert_tables 0 (5 ∷ []) first empty_tables;
  dir_albums = [];
  pending = [];
}

none_yet : find (5 ∷ []) empty_tables.by_id ≡ none
unfolding find
none_yet = refl

start-IsIndexed : IsIndexed start.tables
start-IsIndexed =
    insert_tables-IsIndexed 0 (5 ∷ []) first empty_tables empty_tables-IsIndexed none_yet

unused : find (6 ∷ []) start.tables.by_id ≡ none
unfolding find insert insert_tables get_asset_id_by_path write_asset old_hash leave_old_group
    path_of entry
unused = refl

on_disk : Text → Bool
on_disk path = true

first-IsCurrent : IsCurrent first start.tables
unfolding find insert insert_tables get_asset_id_by_path write_asset old_hash leave_old_group
    path_of entry flush_record hash
first-IsCurrent = (refl, λ r h. ground arith)

then-IsCurrent : IsCurrent first (flush_inserts on_disk 0 ((6 ∷ [], second) ∷ []) start).tables
unfolding find insert insert_tables get_asset_id_by_path write_asset old_hash leave_old_group
    path_of entry flush_record hash flush_inserts flush_insert mark
then-IsCurrent = (refl, λ r h. ground arith)

flush_tables-refines_example :
    IsIndexed (flush_tables on_disk 0 ((6 ∷ [], second) ∷ []) (first ∷ []) start).tables
    × (catalog (flush_tables on_disk 0 ((6 ∷ [], second) ∷ []) (first ∷ []) start).tables
        ≡ catalog_removes
            (first ∷ [])
            (catalog_inserts 0 ((6 ∷ [], second) ∷ []) (catalog start.tables)))
flush_tables-refines_example =
    flush_tables-refines on_disk 0 ((6 ∷ [], second) ∷ []) (first ∷ []) start start-IsIndexed
      (unused, tt) (then-IsCurrent, tt)

lookup-insert_tables_example :
    lookup_abstract_data_by_asset_id 8
      (map_or (6 ∷ []) (λ id. id) (get_asset_id_by_path (path_of second) start.tables))
      (insert_tables 7 (6 ∷ []) second start.tables)
    ≡ some second
lookup-insert_tables_example =
    lookup-insert_tables 7 8 (6 ∷ []) second start.tables (refl, (_, refl))

-- The removal, and the insert that draws the id 6.
abbrev removal : Message (Text × AbstractData) Unit Unit
removal = (1, flush [] ((7 ∷ [], first) ∷ []))

abbrev insertion : Message (Text × AbstractData) Unit Unit
insertion = (2, flush ((6 ∷ [], first) ∷ []) [])

merge_loses_insert_example :
    let run : List (Task (Text × AbstractData) Unit Unit) → Stores → Stores =
      execute on_disk 0 (λ entries s. s) (λ users_root s. s) in
    ((catalog
          (run (plan (insertion ∷ [])).0 (run (plan (removal ∷ [])).0 start)).tables
          (path_of first)
        ≡ some (flush_record 0 (6 ∷ []) first))
      × (catalog (run (plan (removal ∷ insertion ∷ [])).0 start).tables (path_of first) ≡ none)
      × ((plan (removal ∷ insertion ∷ [])).1 ≡ []))
merge_loses_insert_example =
    merge_loses_insert on_disk 0 (λ entries s. s) (λ users_root s. s) 1 2 (6 ∷ []) (7 ∷ []) first
      first start refl start-IsIndexed first-IsCurrent unused
