-- ===== src/Model/Records.antt =====
-- backend/src/model/object.rs, image.rs, video.rs, album.rs, response.rs and abstract_data.rs: the
-- records. A signed or floating-point number is its word.
use picasu.Prelude.{ℕ, Bool, Option, List}
use picasu.Model.Text.{Text}

pub data ObjectType : Type 0 where
  image_type video_type album_type : ObjectType

pub record ObjectSchema : Type 0 where
  pub id : Text
  pub obj_type : ObjectType
  pub pending : Bool
  pub thumbhash : Option (List ℕ)
  pub description : Option Text
  pub tags : List Text
  pub rating : Option ℕ
  pub update_at : ℕ

pub record FileEntry : Type 0 where
  pub file : Text
  pub modified : ℕ
  pub scan_time : ℕ
  pub is_trashed : Bool

pub record ImageMetadata : Type 0 where
  pub size : ℕ
  pub width : ℕ
  pub height : ℕ
  pub ext : Text
  pub phash : Option (List ℕ)
  pub album : Option Text
  pub exif_vec : List (Text × Text)
  pub path : Option FileEntry

pub record VideoMetadata : Type 0 where
  pub size : ℕ
  pub width : ℕ
  pub height : ℕ
  pub ext : Text
  pub duration : ℕ
  pub album : Option Text
  pub exif_vec : List (Text × Text)
  pub path : Option FileEntry

pub record Share : Type 0 where
  pub url : Text
  pub description : Text
  pub password : Option Text
  pub show_metadata : Bool
  pub show_download : Bool
  pub show_upload : Bool
  pub exp : ℕ
  pub created_by : Text

pub record AlbumMetadata : Type 0 where
  pub id : Text
  pub title : Option Text
  pub created_time : ℕ
  pub start_time : Option ℕ
  pub end_time : Option ℕ
  pub last_modified_time : ℕ
  pub cover : Option Text
  pub item_count : ℕ
  pub item_size : ℕ
  pub share_list : List (Text × Share)
  pub dir_path : Text
  pub custom_title : Option Text
  pub is_trashed : Bool

pub record ImageCombined : Type 0 where
  pub object : ObjectSchema
  pub metadata : ImageMetadata

pub record VideoCombined : Type 0 where
  pub object : ObjectSchema
  pub metadata : VideoMetadata

pub record AlbumCombined : Type 0 where
  pub object : ObjectSchema
  pub metadata : AlbumMetadata

pub data AbstractData : Type 0 where
  image : ImageCombined → AbstractData
  video : VideoCombined → AbstractData
  album : AlbumCombined → AbstractData
