-- ===== src/Model/Assets/Compose.antt =====
-- backend/src/model/metadata_record.rs, `compose_abstract_data`, with the constructors of object.rs,
-- image.rs and video.rs. `now` is the clock, which only a view without stored metadata shows.
use picasu.Prelude.{ℕ, Bool, false, Option, none, some, [], map_or}
use picasu.Model.Text.{Text}
use picasu.Model.Records.{
  ObjectType, image_type, video_type, album_type, ObjectSchema, FileEntry, ImageMetadata,
  VideoMetadata, AlbumMetadata, AbstractData, image, video, album,
}
use picasu.Model.Assets.{
  AssetKind, image_kind, video_kind, album_kind, AssetRecord, MetadataRecord, image_payload,
  video_payload, album_payload,
}

-- `ObjectSchema::new`
unfoldable pub new_object : ℕ → Text → ObjectType → ObjectSchema
new_object now id obj_type = record {
  id = id;
  obj_type = obj_type;
  pending = false;
  thumbhash = none;
  description = none;
  tags = [];
  rating = none;
  update_at = now;
}

-- `ImageMetadata::new`
unfoldable pub new_image : ℕ → ℕ → ℕ → Text → ImageMetadata
new_image size width height ext = record {
  size = size;
  width = width;
  height = height;
  ext = ext;
  phash = none;
  album = none;
  exif_vec = [];
  path = none;
}

-- `VideoMetadata::new`, where the word 0 is the duration 0.0.
unfoldable pub new_video : ℕ → ℕ → ℕ → Text → VideoMetadata
new_video size width height ext = record {
  size = size;
  width = width;
  height = height;
  ext = ext;
  duration = 0;
  album = none;
  exif_vec = [];
  path = none;
}

-- The record with the defaults that `compose_abstract_data` takes for an album.
unfoldable pub default_album : Text → Text → Bool → AlbumMetadata
default_album id dir_path is_trashed = record {
  id = id;
  title = none;
  created_time = 0;
  start_time = none;
  end_time = none;
  last_modified_time = 0;
  cover = none;
  item_count = 0;
  item_size = 0;
  share_list = [];
  dir_path = dir_path;
  custom_title = none;
  is_trashed = is_trashed;
}

unfoldable pub file_entry : AssetRecord → FileEntry
file_entry r = record {
  file = r.path;
  modified = r.modified;
  scan_time = r.scan_time;
  is_trashed = r.is_trashed;
}

-- `record.content_hash.unwrap_or(record.asset_id)`
abbrev media_id : AssetRecord → Text
media_id r = map_or r.asset_id (λ h. h) r.content_hash

-- A payload of another kind counts as missing.
unfoldable pub compose_image : ℕ → AssetRecord → Option MetadataRecord → AbstractData
compose_image now r (some (image_payload p)) = image (record {
  object = record (new_object now (media_id r) image_type) {
    tags = p.tags;
    description = p.description;
    rating = p.rating;
    update_at = p.update_at;
    pending = p.pending;
    thumbhash = p.thumbhash;
  };
  metadata = record (new_image r.file_size 0 0 r.ext) {
    width = p.width;
    height = p.height;
    phash = p.phash;
    exif_vec = p.exif_vec;
    album = r.album_id;
    path = some (file_entry r);
  };
})
compose_image now r _ = image (record {
  object = new_object now (media_id r) image_type;
  metadata = record (new_image r.file_size 0 0 r.ext) {
    album = r.album_id;
    path = some (file_entry r);
  };
})

unfoldable pub compose_video : ℕ → AssetRecord → Option MetadataRecord → AbstractData
compose_video now r (some (video_payload p)) = video (record {
  object = record (new_object now (media_id r) video_type) {
    tags = p.tags;
    description = p.description;
    rating = p.rating;
    update_at = p.update_at;
    pending = p.pending;
    thumbhash = p.thumbhash;
  };
  metadata = record (new_video r.file_size 0 0 r.ext) {
    width = p.width;
    height = p.height;
    duration = p.duration;
    exif_vec = p.exif_vec;
    album = r.album_id;
    path = some (file_entry r);
  };
})
compose_video now r _ = video (record {
  object = new_object now (media_id r) video_type;
  metadata = record (new_video r.file_size 0 0 r.ext) {
    album = r.album_id;
    path = some (file_entry r);
  };
})

unfoldable pub compose_album : ℕ → AssetRecord → Option MetadataRecord → AbstractData
compose_album now r (some (album_payload p)) = album (record {
  object = record (new_object now r.asset_id album_type) {
    tags = p.tags;
    description = p.description;
    rating = p.rating;
    update_at = p.update_at;
    pending = p.pending;
    thumbhash = p.thumbhash;
  };
  metadata = record (default_album r.asset_id r.path r.is_trashed) {
    title = p.title;
    created_time = p.created_time;
    start_time = p.start_time;
    end_time = p.end_time;
    last_modified_time = p.last_modified_time;
    cover = p.cover;
    item_count = p.item_count;
    item_size = p.item_size;
    share_list = p.share_list;
    custom_title = p.custom_title;
  };
})
compose_album now r _ = album (record {
  object = new_object now r.asset_id album_type;
  metadata = default_album r.asset_id r.path r.is_trashed;
})

abbrev compose_kind : AssetKind → ℕ → AssetRecord → Option MetadataRecord → AbstractData
compose_kind image_kind = compose_image
compose_kind video_kind = compose_video
compose_kind album_kind = compose_album

unfoldable pub compose_abstract_data : ℕ → AssetRecord → Option MetadataRecord → AbstractData
compose_abstract_data now r meta = compose_kind r.kind now r meta
