-- ===== src/Storage/Flush/Reads.antt =====
-- backend/src/model/metadata_record.rs and backend/src/tasks/batcher/flush_tree.rs: the view that is
-- composed after a flush.
use picasu.Prelude.{ℕ, ◌≡◌, ◌∙◌, Option, some, arith, map_or}
use picasu.Model.Text.{Text}
use picasu.Model.Text.Table.{find, find-insert, text_eq_refl}
use picasu.Model.Records.{
  image_type, video_type, FileEntry, AbstractData, image, video, album, ImageCombined,
  VideoCombined,
}
use picasu.Model.Assets.{to_metadata_record, hash, entry, album_of}
use picasu.Model.Assets.Compose.{
  new_object, new_image, new_video, file_entry, compose_image, compose_video, compose_abstract_data,
}
use picasu.Storage.AssetStore.{
  Tables, get_asset_id_by_path, get_asset_by_id, lookup_abstract_data_by_asset_id,
}
use picasu.Storage.Flush.{
  path_of, kind_of, trashed, ext_of, size_of, flush_record, write_asset, insert_tables,
}
use picasu.Storage.Flush.Index.{write-by_id, leave-by_id}

-- A record of a file that is on disk, whose object has the type of its kind.
abbrev pub IsScanned : AbstractData → Type 0
IsScanned (image img) =
    (img.object.obj_type ≡ image_type) × ((e : FileEntry) × (img.metadata.path ≡ some e))
IsScanned (video vid) =
    (vid.object.obj_type ≡ video_type) × ((e : FileEntry) × (vid.metadata.path ≡ some e))
IsScanned (album alb) = ⊥

write-metadata :
    (now : ℕ) (id : Text) (item : AbstractData) (old : Option Text) (t : Tables)
    → find id (write_asset now id item old t).metadata ≡ some (to_metadata_record item)
unfolding write_asset
write-metadata now id item old t =
    rw (leave-by_id old (hash item) id _).2
      (find-insert id id (to_metadata_record item) t.metadata ∙ ground (arith, text_eq_refl id))

compose-image :
    (now later : ℕ) (id : Text) (img : ImageCombined)
    → IsScanned (image img)
    → compose_abstract_data later
        (flush_record now id (image img))
        (some (to_metadata_record (image img)))
      ≡ image img
unfolding compose_abstract_data flush_record to_metadata_record compose_image kind_of path_of
    trashed ext_of size_of hash entry album_of new_object new_image file_entry
compose-image now later id img scanned = ground arith

compose-video :
    (now later : ℕ) (id : Text) (vid : VideoCombined)
    → IsScanned (video vid)
    → compose_abstract_data later
        (flush_record now id (video vid))
        (some (to_metadata_record (video vid)))
      ≡ video vid
unfolding compose_abstract_data flush_record to_metadata_record compose_video kind_of path_of
    trashed ext_of size_of hash entry album_of new_object new_video file_entry
compose-video now later id vid scanned = ground arith

compose-flush :
    (now later : ℕ) (id : Text) (item : AbstractData)
    → IsScanned item
    → compose_abstract_data later (flush_record now id item) (some (to_metadata_record item)) ≡ item
compose-flush now later id (image img) scanned = compose-image now later id img scanned
compose-flush now later id (video vid) scanned = compose-video now later id vid scanned
compose-flush now later id (album alb) scanned = absurd scanned

lookup-write_asset :
    (now later : ℕ) (id : Text) (item : AbstractData) (old : Option Text) (t : Tables)
    → IsScanned item
    → lookup_abstract_data_by_asset_id later id (write_asset now id item old t) ≡ some item
unfolding lookup_abstract_data_by_asset_id get_asset_by_id
lookup-write_asset now later id item old t scanned =
    let stored : find id (write_asset now id item old t).metadata ≡ some (to_metadata_record item) =
      write-metadata now id item old t in
    ground (
      arith,
      write-by_id now id item old t id,
      text_eq_refl id,
      stored,
      compose-flush now later id item scanned,
    )

-- What was flushed is read back: the two halves that an insert stores, the identity and the metadata,
-- compose to the very record of the scanned file, under the id that its path has or that was drawn.
pub lookup-insert_tables :
    (now later : ℕ) (fresh : Text) (item : AbstractData) (t : Tables)
    → IsScanned item
    → lookup_abstract_data_by_asset_id later
        (map_or fresh (λ id. id) (get_asset_id_by_path (path_of item) t))
        (insert_tables now fresh item t)
      ≡ some item
unfolding insert_tables
lookup-insert_tables now later fresh item t scanned =
    lookup-write_asset now later _ item _ t scanned
