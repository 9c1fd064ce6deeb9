-- ===== src/Model/Statistics.antt =====
-- backend/src/model/album.rs: the statistics of a directory album, from the rows of the in-memory tree. A
-- timestamp is the word of an `i64`, and `sort_by_key` is stable.
mod Trash
pub mod Own
mod Sorted
pub mod Update
mod Tests
use picasu.Prelude.{
  ℕ, ◌+◌, ◌%◌, ◌^◌, Bool, true, false, not, ◌&&◌, Option, none, some, List, [], ◌∷◌, leb, ltb, any,
  filter, length, if◌then◌else◌, map_or,
}
use picasu.Model.Text.{Text, text_eq}
use picasu.Model.Records.{FileEntry, AbstractData, image, video, album, AlbumCombined}
use picasu.Process.DirAlbum.{PathBuf, Component, normal, components, path_eq, parent}
use picasu.Process.DirAlbum.Cache.{lies_under}

pub record MediaItemInfo : Type 0 where
  pub asset_id : Text
  pub size : ℕ
  pub thumbhash : Option (List ℕ)
  pub timestamp : ℕ

-- A row of the tree (`DatabaseTimestamp`)
pub record DatabaseTimestamp : Type 0 where
  pub abstract_data : AbstractData
  pub asset_id : Text
  pub timestamp : ℕ

-- ".__picasu_ph__.jpg"
abbrev placeholder : Text
placeholder =
    46 ∷ 95 ∷ 95 ∷ 112 ∷ 105 ∷ 99 ∷ 97 ∷ 115 ∷ 117 ∷ 95 ∷ 112 ∷ 104 ∷ 95 ∷ 95 ∷ 46 ∷ 106 ∷ 112 ∷ 103
    ∷ []

-- `Path::file_name`: the last component, if it is a name.
unfoldable pub file_name : PathBuf → Option Text
file_name [] = none
file_name (normal name ∷ []) = some name
file_name (_ ∷ []) = none
file_name (_ ∷ d ∷ path) = file_name (d ∷ path)

unfoldable pub path_is_in_album_or_descendant : PathBuf → PathBuf → Bool
path_is_in_album_or_descendant path dir_path =
    lies_under path dir_path
    && map_or false (λ name. not (text_eq name placeholder)) (file_name path)

-- `parent() == Some(dir)`
abbrev is_child : PathBuf → PathBuf → Bool
is_child path dir_path = map_or false (λ up. path_eq up dir_path) (parent path)

abbrev pub is_direct : PathBuf → FileEntry → Bool
is_direct dir_path e =
    not e.is_trashed
    && path_is_in_album_or_descendant (components e.file) dir_path
    && is_child (components e.file) dir_path

abbrev pub is_below : PathBuf → FileEntry → Bool
is_below dir_path e =
    not e.is_trashed && path_is_in_album_or_descendant (components e.file) dir_path

abbrev file_info : (FileEntry → Bool) → DatabaseTimestamp → AbstractData → Option MediaItemInfo
file_info counts row (image img) =
    if map_or false counts img.metadata.path
    then some (record {
      asset_id = row.asset_id;
      size = img.metadata.size;
      thumbhash = img.object.thumbhash;
      timestamp = row.timestamp;
    })
    else none
file_info counts row (video vid) =
    if map_or false counts vid.metadata.path
    then some (record {
      asset_id = row.asset_id;
      size = vid.metadata.size;
      thumbhash = vid.object.thumbhash;
      timestamp = row.timestamp;
    })
    else none
file_info counts row (album alb) = none

abbrev add_info : Option MediaItemInfo → List MediaItemInfo → List MediaItemInfo
add_info none infos = infos
add_info (some info) infos = info ∷ infos

-- The `filter_map` over the rows.
unfoldable pub media_infos : (FileEntry → Bool) → List DatabaseTimestamp → List MediaItemInfo
media_infos counts [] = []
media_infos counts (row ∷ rows) =
    add_info (file_info counts row row.abstract_data) (media_infos counts rows)

-- The value of a word as an `i64`, plus 2^63.
abbrev pub signed : ℕ → ℕ
signed x = (x + 2 ^ 63) % 2 ^ 64

-- `sort_by_key` with the reversed timestamp
unfoldable pub place : MediaItemInfo → List MediaItemInfo → List MediaItemInfo
place info [] = info ∷ []
place info (x ∷ xs) =
    let rest = place info xs in
    if leb (signed x.timestamp) (signed info.timestamp) then info ∷ x ∷ xs else x ∷ rest

unfoldable pub newest_first : List MediaItemInfo → List MediaItemInfo
newest_first [] = []
newest_first (info ∷ infos) = place info (newest_first infos)

unfoldable pub first : List MediaItemInfo → Option MediaItemInfo
first [] = none
first (info ∷ infos) = some info

unfoldable pub last : List MediaItemInfo → Option MediaItemInfo
last [] = none
last (info ∷ []) = some info
last (info ∷ x ∷ xs) = last (x ∷ xs)

-- `sum` of `u64`, in the release build
unfoldable pub total_size : List MediaItemInfo → ℕ
total_size [] = 0
total_size (info ∷ infos) = (info.size + total_size infos) % 2 ^ 64

abbrev pub time_of : Option MediaItemInfo → Option ℕ
time_of none = none
time_of (some info) = some info.timestamp

abbrev id_of : Option MediaItemInfo → Option Text
id_of none = none
id_of (some info) = some info.asset_id

abbrev hash_of : Option MediaItemInfo → Option (List ℕ)
hash_of none = none
hash_of (some info) = info.thumbhash

unfoldable pub set_cover_from_info : MediaItemInfo → AlbumCombined → AlbumCombined
set_cover_from_info info alb = record alb {
  metadata = record alb.metadata { cover = some info.asset_id };
  object = record alb.object { thumbhash = info.thumbhash };
}

abbrev take_cover : Option MediaItemInfo → AlbumCombined → AlbumCombined
take_cover none alb = alb
take_cover (some info) alb = set_cover_from_info info alb

abbrev pub in_infos : Text → List MediaItemInfo → Bool
in_infos id infos = any (λ (info : MediaItemInfo). text_eq info.asset_id id) infos

unfoldable pub keep_cover : Option Text → List MediaItemInfo → AlbumCombined → AlbumCombined
keep_cover none infos alb = take_cover (first infos) alb
keep_cover (some current) infos alb =
    if in_infos current infos then alb else take_cover (first infos) alb

-- An album without files of its own: the cover is the newest file below it.
unfoldable pub update_empty : List MediaItemInfo → AlbumCombined → AlbumCombined
update_empty infos alb = record alb {
  metadata = record alb.metadata {
    start_time = none;
    end_time = none;
    cover = id_of (first infos);
    item_count = 0;
    item_size = 0;
  };
  object = record alb.object { thumbhash = hash_of (first infos) };
}

unfoldable pub update_filled : ℕ → List MediaItemInfo → AlbumCombined → AlbumCombined
update_filled now infos alb = keep_cover alb.metadata.cover infos (record alb {
  metadata = record alb.metadata {
    start_time = time_of (last infos);
    end_time = time_of (first infos);
    item_count = length infos;
    item_size = total_size infos;
    last_modified_time = now;
  };
})

abbrev self_update_by :
    ℕ → List DatabaseTimestamp → PathBuf → List MediaItemInfo → AlbumCombined → AlbumCombined
self_update_by now rows dir_path [] alb =
    update_empty (newest_first (media_infos (is_below dir_path) rows)) alb
self_update_by now rows dir_path (info ∷ infos) alb =
    update_filled now (newest_first (info ∷ infos)) alb

-- `rows` is the snapshot of the tree, and `now` the clock.
unfoldable pub self_update : ℕ → List DatabaseTimestamp → AlbumCombined → AlbumCombined
self_update now rows alb =
    let dir_path = components alb.metadata.dir_path in
    self_update_by now rows dir_path (media_infos (is_direct dir_path) rows) alb
