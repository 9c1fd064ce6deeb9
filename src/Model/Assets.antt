-- ===== src/Model/Assets.antt =====
-- backend/src/model/asset.rs and metadata_record.rs: the two stored halves of an asset, its identity and
-- its metadata, with the readers of abstract_data.rs that the tables use.
pub mod Compose
use picasu.Prelude.{ℕ, Bool, false, Option, none, some, List, [], map_or}
use picasu.Model.Text.{Text}
use picasu.Model.Records.{
  ObjectType, image_type, video_type, album_type, ObjectSchema, FileEntry, ImageMetadata,
  VideoMetadata, Share, AlbumMetadata, AbstractData, image, video, album,
}

pub data AssetKind : Type 0 where
  image_kind video_kind album_kind : AssetKind

pub record AssetRecord : Type 0 where
  pub asset_id : Text
  pub kind : AssetKind
  pub path : Text
  pub content_hash : Option Text
  pub file_size : ℕ
  pub ext : Text
  pub modified : ℕ
  pub scan_time : ℕ
  pub is_trashed : Bool
  pub album_id : Option Text

pub record ImagePayload : Type 0 where
  pub tags : List Text
  pub description : Option Text
  pub rating : Option ℕ
  pub update_at : ℕ
  pub pending : Bool
  pub thumbhash : Option (List ℕ)
  pub width : ℕ
  pub height : ℕ
  pub phash : Option (List ℕ)
  pub exif_vec : List (Text × Text)

pub record VideoPayload : Type 0 where
  pub tags : List Text
  pub description : Option Text
  pub rating : Option ℕ
  pub update_at : ℕ
  pub pending : Bool
  pub thumbhash : Option (List ℕ)
  pub width : ℕ
  pub height : ℕ
  pub duration : ℕ
  pub exif_vec : List (Text × Text)

pub record AlbumPayload : Type 0 where
  pub tags : List Text
  pub description : Option Text
  pub rating : Option ℕ
  pub update_at : ℕ
  pub pending : Bool
  pub thumbhash : Option (List ℕ)
  pub title : Option Text
  pub created_time : ℕ
  pub start_time : Option ℕ
  pub end_time : Option ℕ
  pub last_modified_time : ℕ
  pub cover : Option Text
  pub item_count : ℕ
  pub item_size : ℕ
  pub share_list : List (Text × Share)
  pub custom_title : Option Text

pub data MetadataRecord : Type 0 where
  image_payload : ImagePayload → MetadataRecord
  video_payload : VideoPayload → MetadataRecord
  album_payload : AlbumPayload → MetadataRecord

unfoldable pub to_metadata_record : AbstractData → MetadataRecord
to_metadata_record (image img) = image_payload (record {
  tags = img.object.tags;
  description = img.object.description;
  rating = img.object.rating;
  update_at = img.object.update_at;
  pending = img.object.pending;
  thumbhash = img.object.thumbhash;
  width = img.metadata.width;
  height = img.metadata.height;
  phash = img.metadata.phash;
  exif_vec = img.metadata.exif_vec;
})
to_metadata_record (video vid) = video_payload (record {
  tags = vid.object.tags;
  description = vid.object.description;
  rating = vid.object.rating;
  update_at = vid.object.update_at;
  pending = vid.object.pending;
  thumbhash = vid.object.thumbhash;
  width = vid.metadata.width;
  height = vid.metadata.height;
  duration = vid.metadata.duration;
  exif_vec = vid.metadata.exif_vec;
})
to_metadata_record (album alb) = album_payload (record {
  tags = alb.object.tags;
  description = alb.object.description;
  rating = alb.object.rating;
  update_at = alb.object.update_at;
  pending = alb.object.pending;
  thumbhash = alb.object.thumbhash;
  title = alb.metadata.title;
  created_time = alb.metadata.created_time;
  start_time = alb.metadata.start_time;
  end_time = alb.metadata.end_time;
  last_modified_time = alb.metadata.last_modified_time;
  cover = alb.metadata.cover;
  item_count = alb.metadata.item_count;
  item_size = alb.metadata.item_size;
  share_list = alb.metadata.share_list;
  custom_title = alb.metadata.custom_title;
})

-- Of `AbstractData`: `hash`, `path`, `album` and `visibility_path`.
unfoldable pub hash : AbstractData → Text
hash (image img) = img.object.id
hash (video vid) = vid.object.id
hash (album alb) = alb.object.id

unfoldable pub entry : AbstractData → Option FileEntry
entry (image img) = img.metadata.path
entry (video vid) = vid.metadata.path
entry (album alb) = none

unfoldable pub album_of : AbstractData → Option Text
album_of (image img) = img.metadata.album
album_of (video vid) = vid.metadata.album
album_of (album alb) = none

abbrev file_of : Option FileEntry → Option Text
file_of none = none
file_of (some e) = some e.file

unfoldable pub visibility_path : AbstractData → Option Text
visibility_path (image img) = file_of img.metadata.path
visibility_path (video vid) = file_of vid.metadata.path
visibility_path (album alb) = some alb.metadata.dir_path
