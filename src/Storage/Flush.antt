-- ===== src/Storage/Flush.antt =====
-- backend/src/tasks/batcher/flush_tree.rs: the flush of scanned and removed records into the tables.
-- The random id that an insert may draw comes with it; `now` is the clock in milliseconds, and `on_disk`
-- the question whether a file exists.
pub mod Groups
pub mod Index
pub mod Removal
pub mod Refines
pub mod Reads
pub mod Merge
mod Tests
use picasu.Prelude.{
  ℕ, Bool, true, false, not, Option, none, some, List, [], ◌∷◌, map_or, if◌then◌else◌,
}
use picasu.Model.Text.{Text, text_eq}
use picasu.Model.Text.Table.{find, insert, delete}
use picasu.Model.Records.{FileEntry, AbstractData, image, video, album}
use picasu.Model.Assets.{
  AssetKind, image_kind, video_kind, album_kind, AssetRecord, to_metadata_record, hash, entry,
  album_of,
}
use picasu.Process.DirAlbum.{DirAlbums, components}
use picasu.Process.DirAlbum.Cache.{Pending, mark_album_for_update, mark_dir_albums_for_path}
use picasu.Storage.AssetStore.{
  Tables, get_asset_id_by_path, get_asset_by_id, get_dupe_ids, push_member, drop_member,
  remove_asset_by_id, remove_asset_by_path, remove_from_dupe_group,
}

-- The tables, the cache of directory albums and the albums that wait for an update.
pub record Stores : Type 0 where
  pub tables : Tables
  pub dir_albums : DirAlbums
  pub pending : Pending

-- `abstract_data.path().map(|a| a.file.clone()).unwrap_or_default()`
unfoldable pub path_of : AbstractData → Text
path_of item = map_or [] (λ (e : FileEntry). e.file) (entry item)

unfoldable pub kind_of : AbstractData → AssetKind
kind_of (image img) = image_kind
kind_of (video vid) = video_kind
kind_of (album alb) = album_kind

unfoldable pub trashed : AbstractData → Bool
trashed (album alb) = alb.metadata.is_trashed
trashed (image img) = map_or false (λ (e : FileEntry). e.is_trashed) img.metadata.path
trashed (video vid) = map_or false (λ (e : FileEntry). e.is_trashed) vid.metadata.path

unfoldable pub ext_of : AbstractData → Text
ext_of (image img) = img.metadata.ext
ext_of (video vid) = vid.metadata.ext
ext_of (album alb) = []

unfoldable pub size_of : AbstractData → ℕ
size_of (image img) = img.metadata.size
size_of (video vid) = vid.metadata.size
size_of (album alb) = 0

-- The record that an insert writes.
unfoldable pub flush_record : ℕ → Text → AbstractData → AssetRecord
flush_record now asset_id item = record {
  asset_id = asset_id;
  kind = kind_of item;
  path = path_of item;
  content_hash = some (hash item);
  file_size = size_of item;
  ext = ext_of item;
  modified = map_or 0 (λ (e : FileEntry). e.modified) (entry item);
  scan_time = map_or now (λ (e : FileEntry). e.scan_time) (entry item);
  is_trashed = trashed item;
  album_id = album_of item;
}

-- The content hash of the record that the path has so far.
unfoldable pub old_hash : Option Text → Tables → Option Text
old_hash none t = none
old_hash (some id) t = map_or none (λ (r : AssetRecord). r.content_hash) (get_asset_by_id id t)

-- `remove_from_old_group`, if the file's bytes changed
unfoldable pub leave_old_group : Option Text → Text → Text → Tables → Tables
leave_old_group none content_hash asset_id t = t
leave_old_group (some old) content_hash asset_id t =
    if text_eq old content_hash then t else record t { dupes = drop_member old asset_id t.dupes }

-- The transaction of an insert.
unfoldable pub write_asset : ℕ → Text → AbstractData → Option Text → Tables → Tables
write_asset now asset_id item old t =
    let content_hash = hash item in
    let written = leave_old_group old content_hash asset_id (record t {
      by_id = insert asset_id (flush_record now asset_id item) t.by_id;
      by_path = insert (path_of item) asset_id t.by_path;
      metadata = insert asset_id (to_metadata_record item) t.metadata;
    }) in
    record written { dupes = push_member content_hash asset_id written.dupes }

unfoldable pub insert_tables : ℕ → Text → AbstractData → Tables → Tables
insert_tables now fresh item t =
    let existing = get_asset_id_by_path (path_of item) t in
    write_asset now (map_or fresh (λ id. id) existing) item (old_hash existing t) t

abbrev mark_album : Option Text → Pending → Pending
mark_album none pending = pending
mark_album (some id) pending = mark_album_for_update id pending

abbrev mark_dirs : Option FileEntry → DirAlbums → Pending → Pending
mark_dirs none albums pending = pending
mark_dirs (some e) albums pending = mark_dir_albums_for_path (components e.file) albums pending

unfoldable pub mark : AbstractData → Stores → Stores
mark item s = record s {
  pending = mark_dirs (entry item) s.dir_albums (mark_album (album_of item) s.pending);
}

unfoldable pub flush_insert : ℕ → Text → AbstractData → Stores → Stores
flush_insert now fresh item s =
    mark item (record s { tables = insert_tables now fresh item s.tables })

unfoldable pub remove_asset_from_tables : Text → Text → Text → Tables → Tables
remove_asset_from_tables asset_id path content_hash t =
    let left =
      remove_from_dupe_group content_hash asset_id
        (remove_asset_by_path path (remove_asset_by_id asset_id t)) in
    record left { metadata = delete asset_id left.metadata }

abbrev pub is_empty : Text → Bool
is_empty [] = true
is_empty (c ∷ cs) = false

module _ (on_disk : Text → Bool) where
  abbrev prune_record : Text → Text → Option AssetRecord → Tables → Tables
  prune_record id content_hash none t = t
  prune_record id content_hash (some r) t =
      if not (on_disk r.path) then remove_asset_from_tables id r.path content_hash t else t

  -- The loop over a group whose files may be gone.
  unfoldable pub prune_group : Text → List Text → Tables → Tables
  prune_group content_hash [] t = t
  prune_group content_hash (id ∷ ids) t =
      prune_group content_hash ids (prune_record id content_hash (get_asset_by_id id t) t)

  unfoldable pub remove_tables : AbstractData → Tables → Tables
  remove_tables item t =
      let path = path_of item in
      if is_empty path
      then prune_group (hash item) (get_dupe_ids (hash item) t) t
      else elim (get_asset_id_by_path path t) [
        | none ↦ t
        | some id ↦ remove_asset_from_tables id path (hash item) t
      ]

  unfoldable pub flush_remove : AbstractData → Stores → Stores
  flush_remove item s = mark item (record s { tables = remove_tables item s.tables })

  unfoldable pub flush_inserts : ℕ → List (Text × AbstractData) → Stores → Stores
  flush_inserts now [] s = s
  flush_inserts now ((fresh, item) ∷ inserts) s =
      flush_inserts now inserts (flush_insert now fresh item s)

  unfoldable pub flush_removes : List AbstractData → Stores → Stores
  flush_removes [] s = s
  flush_removes (item ∷ removes) s = flush_removes removes (flush_remove item s)

  unfoldable pub flush_tables : ℕ → List (Text × AbstractData) → List AbstractData → Stores → Stores
  flush_tables now inserts removes s = flush_removes removes (flush_inserts now inserts s)
