-- ===== src/Model/Statistics/Tests.antt =====
-- An album with one photo of its own.
use picasu.Prelude.{refl, inl, false, none, some, List, [], ◌∷◌}
use picasu.Model.Text.{Text, starts_with}
use picasu.Model.Assets.{entry}
use picasu.Model.Records.{image_type, ObjectSchema, AbstractData, image, AlbumCombined}
use picasu.Process.DirAlbum.{components, is_absolute, body, segments, parent}
use picasu.Model.Statistics.{MediaItemInfo, DatabaseTimestamp, file_name, self_update}
use picasu.Model.Statistics.Own.{OwnFiles}
use picasu.Model.Statistics.Update.{Summarizes, self_update_lem}

-- "/a" and "/a/b"
abbrev dir : Text
dir = 47 ∷ 97 ∷ []

abbrev file : Text
file = 47 ∷ 97 ∷ 47 ∷ 98 ∷ []

abbrev object : Text → ObjectSchema
object id = record {
  id = id;
  obj_type = image_type;
  pending = false;
  thumbhash = some (5 ∷ []);
  description = none;
  tags = [];
  rating = none;
  update_at = 0;
}

abbrev photo : AbstractData
photo = image (record {
  object = object (1 ∷ []);
  metadata = record {
    size = 70;
    width = 4;
    height = 3;
    ext = [];
    phash = none;
    album = none;
    exif_vec = [];
    path = some (record { file = file; modified = 8; scan_time = 9; is_trashed = false });
  };
})

abbrev rows : List DatabaseTimestamp
rows = record { abstract_data = photo; asset_id = 2 ∷ []; timestamp = 8 } ∷ []

abbrev folder : AlbumCombined
folder = record {
  object = object (3 ∷ []);
  metadata = record {
    id = 3 ∷ [];
    title = none;
    created_time = 0;
    start_time = none;
    end_time = none;
    last_modified_time = 0;
    cover = none;
    item_count = 0;
    item_size = 0;
    share_list = [];
    dir_path = dir;
    custom_title = none;
    is_trashed = false;
  };
}

abbrev info : MediaItemInfo
info = record { asset_id = 2 ∷ []; size = 70; thumbhash = some (5 ∷ []); timestamp = 8 }

own_files : OwnFiles (components dir) rows (info ∷ [])
unfolding file_name components is_absolute starts_with body segments parent entry
own_files = inl ([], (_, refl, (refl, refl, (98 ∷ [], refl, refl))), refl, refl)

self_update_lem_example : Summarizes (self_update 100 rows folder).metadata (info ∷ [])
self_update_lem_example = self_update_lem 100 rows folder info [] own_files
