-- ===== src/Model/Expression/Filter.antt =====
-- backend/src/model/expression.rs: `generate_filter`, the filter of a caller who sees everything.
use picasu.Prelude.{
  Bool, true, false, not, ◌&&◌, ◌||◌, Option, none, some, List, [], ◌∷◌, map_or, if◌then◌else◌,
}
use picasu.Model.Text.{
  Text, contains, to_ascii_lowercase, option_eq, bool_eq, has_text, get_text, image_text,
  video_text, album_text, make_text, model_text,
}
use picasu.Model.Records.{FileEntry, AbstractData, image, video, album}
use picasu.Model.Expression.{
  FilterValue, value, exists, AlbumFilterValue, album_value, album_exists, Expression, Expressions,
  or_of, and_of, not_of, tag_of, ext_type_of, ext_of, model_of, make_of, path_of, album_of,
  root_album_of, any_of, parent_album_of, trashed_of, nil, cons,
}
use picasu.Process.DirAlbum.{
  PathBuf, path_eq, is_absolute, components, join, parent, DirAlbums, get_parent_album_id,
  get_dir_path_for_album,
}

-- The state that the filters read: `get_resolved_image_home`, and the cache of directory albums.
pub record Files : Type 0 where
  pub image_home : Option PathBuf
  pub dir_albums : DirAlbums

abbrev pub is_none {ℓ} : {A : Type ℓ} → Option A → Bool
is_none none = true
is_none (some x) = false

abbrev pub is_some {ℓ} : {A : Type ℓ} → Option A → Bool
is_some none = false
is_some (some x) = true

abbrev pub is_empty {ℓ} : {A : Type ℓ} → List A → Bool
is_empty [] = true
is_empty (x ∷ xs) = false

unfoldable pub normalize_parent : Files → Text → Option PathBuf
normalize_parent files file_path =
    if is_absolute file_path then parent (components file_path) else elim files.image_home [
      | some image_home ↦ parent (join image_home (components file_path))
      | none ↦ parent (components file_path)
    ]

-- `text.to_ascii_lowercase().contains(&lower)`, where `lower` was made once from the condition.
abbrev pub matches_lower : Text → Text → Bool
matches_lower text lower = contains (to_ascii_lowercase text) lower

-- `exif_vec.get(key).is_some_and(..)`
abbrev pub exif_matches : Text → Text → List (Text × Text) → Bool
exif_matches key lower exif_vec = map_or false (λ v. matches_lower v lower) (get_text key exif_vec)

-- `exif_vec.contains_key(key) == exists`
abbrev pub exif_exists : Text → Bool → List (Text × Text) → Bool
exif_exists key v exif_vec = bool_eq (is_some (get_text key exif_vec)) v

unfoldable pub tag_filter : FilterValue → AbstractData → Bool
tag_filter (value tag) (image img) = has_text tag img.object.tags
tag_filter (value tag) (video vid) = has_text tag vid.object.tags
tag_filter (value tag) (album alb) = has_text tag alb.object.tags
tag_filter (exists v) (image img) = not (bool_eq (is_empty img.object.tags) v)
tag_filter (exists v) (video vid) = not (bool_eq (is_empty vid.object.tags) v)
tag_filter (exists v) (album alb) = not (bool_eq (is_empty alb.object.tags) v)

unfoldable pub trashed_filter : Bool → AbstractData → Bool
trashed_filter v (image img) = map_or false (λ f. bool_eq f.is_trashed v) img.metadata.path
trashed_filter v (video vid) = map_or false (λ f. bool_eq f.is_trashed v) vid.metadata.path
trashed_filter v (album alb) = bool_eq alb.metadata.is_trashed v

unfoldable pub ext_type_filter : Text → AbstractData → Bool
ext_type_filter ext_type (image img) = contains ext_type image_text
ext_type_filter ext_type (video vid) = contains ext_type video_text
ext_type_filter ext_type (album alb) = contains ext_type album_text

unfoldable pub ext_filter : Text → AbstractData → Bool
ext_filter ext (image img) = matches_lower img.metadata.ext (to_ascii_lowercase ext)
ext_filter ext (video vid) = matches_lower vid.metadata.ext (to_ascii_lowercase ext)
ext_filter ext (album alb) = false

unfoldable pub model_filter : FilterValue → AbstractData → Bool
model_filter (value model) (image img) =
    exif_matches model_text (to_ascii_lowercase model) img.metadata.exif_vec
model_filter (value model) (video vid) =
    exif_matches model_text (to_ascii_lowercase model) vid.metadata.exif_vec
model_filter (value model) (album alb) = false
model_filter (exists v) (image img) = exif_exists model_text v img.metadata.exif_vec
model_filter (exists v) (video vid) = exif_exists model_text v vid.metadata.exif_vec
model_filter (exists v) (album alb) = false

unfoldable pub make_filter : FilterValue → AbstractData → Bool
make_filter (value make) (image img) =
    exif_matches make_text (to_ascii_lowercase make) img.metadata.exif_vec
make_filter (value make) (video vid) =
    exif_matches make_text (to_ascii_lowercase make) vid.metadata.exif_vec
make_filter (value make) (album alb) = false
make_filter (exists v) (image img) = exif_exists make_text v img.metadata.exif_vec
make_filter (exists v) (video vid) = exif_exists make_text v vid.metadata.exif_vec
make_filter (exists v) (album alb) = false

unfoldable pub path_filter : Text → AbstractData → Bool
path_filter path (image img) =
    map_or false (λ f. matches_lower f.file (to_ascii_lowercase path)) img.metadata.path
path_filter path (video vid) =
    map_or false (λ f. matches_lower f.file (to_ascii_lowercase path)) vid.metadata.path
path_filter path (album alb) = false

-- `normalize_parent(&a.file) == Some(dir.clone())`
abbrev pub lies_in : Files → PathBuf → FileEntry → Bool
lies_in now dir f = map_or false (λ up. path_eq up dir) (normalize_parent now f.file)

-- The directory was looked up when the filter was made, in `built`; the rest is read in `now`.
unfoldable pub album_filter : Files → AlbumFilterValue → Files → AbstractData → Bool
album_filter built (album_value album_id) now (image img) =
    map_or false (λ dir. map_or false (lies_in now dir) img.metadata.path)
      (get_dir_path_for_album built.dir_albums album_id)
album_filter built (album_value album_id) now (video vid) =
    map_or false (λ dir. map_or false (lies_in now dir) vid.metadata.path)
      (get_dir_path_for_album built.dir_albums album_id)
album_filter built (album_value album_id) now (album alb) = false
album_filter built (album_exists v) now (image img) = bool_eq (is_some img.metadata.album) v
album_filter built (album_exists v) now (video vid) = bool_eq (is_some vid.metadata.album) v
album_filter built (album_exists v) now (album alb) = false

unfoldable pub root_album_filter : Bool → Files → AbstractData → Bool
root_album_filter v now (album alb) =
    bool_eq (is_none (get_parent_album_id now.dir_albums (components alb.metadata.dir_path))) v
root_album_filter v now (image img) = false
root_album_filter v now (video vid) = false

unfoldable pub parent_album_filter : Text → Files → AbstractData → Bool
parent_album_filter parent_id now (album alb) =
    option_eq (get_parent_album_id now.dir_albums (components alb.metadata.dir_path))
      (some parent_id)
parent_album_filter parent_id now (image img) = false
parent_album_filter parent_id now (video vid) = false

unfoldable pub any_filter : Text → AbstractData → Bool
any_filter identifier (image img) =
    let lower = to_ascii_lowercase identifier in
    has_text identifier img.object.tags
    || contains image_text identifier
    || matches_lower img.object.id lower
    || matches_lower img.metadata.ext lower
    || exif_matches make_text lower img.metadata.exif_vec
    || exif_matches model_text lower img.metadata.exif_vec
    || map_or false (λ f. matches_lower f.file lower) img.metadata.path
any_filter identifier (video vid) =
    let lower = to_ascii_lowercase identifier in
    has_text identifier vid.object.tags
    || contains video_text identifier
    || matches_lower vid.object.id lower
    || matches_lower vid.metadata.ext lower
    || exif_matches make_text lower vid.metadata.exif_vec
    || exif_matches model_text lower vid.metadata.exif_vec
    || map_or false (λ f. matches_lower f.file lower) vid.metadata.path
any_filter identifier (album alb) =
    let lower = to_ascii_lowercase identifier in
    has_text identifier alb.object.tags
    || contains (to_ascii_lowercase album_text) lower
    || matches_lower alb.object.id lower

unfoldable mutual
  pub generate_filter : Files → Expression → Files → AbstractData → Bool
  generate_filter built (or_of expressions) now item = any_matches built expressions now item
  generate_filter built (and_of expressions) now item = all_match built expressions now item
  generate_filter built (not_of expression) now item =
      not (generate_filter built expression now item)
  generate_filter built (tag_of tag) now item = tag_filter tag item
  generate_filter built (ext_type_of ext_type) now item = ext_type_filter ext_type item
  generate_filter built (ext_of ext) now item = ext_filter ext item
  generate_filter built (model_of model) now item = model_filter model item
  generate_filter built (make_of make) now item = make_filter make item
  generate_filter built (path_of path) now item = path_filter path item
  generate_filter built (album_of album_id) now item = album_filter built album_id now item
  generate_filter built (root_album_of v) now item = root_album_filter v now item
  generate_filter built (any_of identifier) now item = any_filter identifier item
  generate_filter built (parent_album_of parent_id) now item =
      parent_album_filter parent_id now item
  generate_filter built (trashed_of v) now item = trashed_filter v item

  pub any_matches : Files → Expressions → Files → AbstractData → Bool
  any_matches built nil now item = false
  any_matches built (cons expr exprs) now item =
      generate_filter built expr now item || any_matches built exprs now item

  pub all_match : Files → Expressions → Files → AbstractData → Bool
  all_match built nil now item = true
  all_match built (cons expr exprs) now item =
      generate_filter built expr now item && all_match built exprs now item
