-- ===== src/Model/Expression/Tests.antt =====
-- The filters on an image of a directory album.
use picasu.Prelude.{◌≡◌, refl, true, false, none, some, List, [], ◌∷◌}
use picasu.Model.Text.{Text, contains, starts_with}
use picasu.Model.Records.{ObjectSchema, AlbumCombined, AbstractData, image, album, image_type}
use picasu.Model.Expression.{value, album_value, not_of, tag_of, any_of, parent_album_of}
use picasu.Model.Expression.Filter.{
  Files, generate_filter, album_filter, normalize_parent, parent_album_filter,
}
use picasu.Model.Expression.HideMetadata.{generate_filter_hide_metadata, hidden_any_filter}
use picasu.Model.Expression.Privacy.{hide_metadata_private}
use picasu.Process.DirAlbum.{
  root_dir, normal, components, segments, body, is_absolute, join, parent, path_eq, component_eq,
  get_album_id_for_dir, get_parent_album_id, get_dir_path_for_album,
}

-- "/a/b"
abbrev b_text : Text
b_text = 47 ∷ 97 ∷ 47 ∷ 98 ∷ []

abbrev one : Text
one = 49 ∷ []

abbrev two : Text
two = 50 ∷ []

-- The albums of "/a" and "/a/b".
abbrev files : Files
files = record {
  image_home = some (root_dir ∷ normal (97 ∷ []) ∷ []);
  dir_albums =
      (root_dir ∷ normal (97 ∷ []) ∷ [], one)
      ∷ (root_dir ∷ normal (97 ∷ []) ∷ normal (98 ∷ []) ∷ [], two)
      ∷ [];
}

abbrev object_of : Text → List Text → ObjectSchema
object_of id tags = record {
  id = id;
  obj_type = image_type;
  pending = false;
  thumbhash = none;
  description = none;
  tags = tags;
  rating = none;
  update_at = 0;
}

-- The file "b//./c", by a path that is relative to "/a", with the given tags.
abbrev photo : List Text → AbstractData
photo tags = image (record {
  object = object_of (51 ∷ []) tags;
  metadata = record {
    size = 10;
    width = 4;
    height = 3;
    ext = 106 ∷ 112 ∷ 103 ∷ [];
    phash = none;
    album = some two;
    exif_vec = [];
    path = some (record {
      file = 98 ∷ 47 ∷ 47 ∷ 46 ∷ 47 ∷ 99 ∷ [];
      modified = 0;
      scan_time = 0;
      is_trashed = false;
    });
  };
})

abbrev b_album : AlbumCombined
b_album = record {
  object = object_of two [];
  metadata = record {
    id = two;
    title = none;
    created_time = 0;
    start_time = none;
    end_time = none;
    last_modified_time = 0;
    cover = none;
    item_count = 1;
    item_size = 10;
    share_list = [];
    dir_path = b_text;
    custom_title = none;
    is_trashed = false;
  };
}

-- The file is in the album of its own directory, and not in that above.
photo_album :
    (album_filter files (album_value two) files (photo []) ≡ true)
    × (album_filter files (album_value one) files (photo []) ≡ false)
unfolding album_filter normalize_parent starts_with components segments body is_absolute join parent
    path_eq component_eq get_dir_path_for_album
photo_album = (refl, refl)

b_parent : generate_filter files (parent_album_of one) files (album b_album) ≡ true
unfolding generate_filter parent_album_filter get_parent_album_id get_album_id_for_dir starts_with
    components segments body is_absolute parent path_eq component_eq
b_parent = refl

-- A visitor cannot tell whether a photo has a tag.
hide_metadata_private_example :
    generate_filter_hide_metadata (not_of (tag_of (value one))) two (photo (one ∷ []))
    ≡ generate_filter_hide_metadata (not_of (tag_of (value one))) two (photo [])
hide_metadata_private_example =
    hide_metadata_private (not_of (tag_of (value one))) two (photo (one ∷ [])) (photo []) refl

-- "mag", which is a part of "image"
abbrev mag : Text
mag = 109 ∷ 97 ∷ 103 ∷ []

hidden_mag : generate_filter_hide_metadata (any_of mag) two (photo []) ≡ true
unfolding generate_filter_hide_metadata hidden_any_filter contains starts_with
hidden_mag = refl
