-- ===== src/Model/Expression/HideMetadata.antt =====
-- backend/src/model/expression.rs: `generate_filter_hide_metadata`, the filter of a visitor of a share
-- that hides metadata.
use picasu.Prelude.{Bool, true, false, not, ◌&&◌, ◌||◌, some}
use picasu.Model.Text.{
  Text, contains, to_ascii_lowercase, text_eq, option_eq, image_text, video_text, make_text,
  model_text,
}
use picasu.Model.Records.{AbstractData, image, video, album}
use picasu.Model.Expression.{
  AlbumFilterValue, album_value, album_exists, Expression, Expressions, or_of, and_of, not_of,
  tag_of, ext_type_of, ext_of, model_of, make_of, path_of, album_of, root_album_of, any_of,
  parent_album_of, trashed_of, nil, cons,
}
use picasu.Model.Expression.Filter.{
  matches_lower, exif_matches, ext_filter, model_filter, make_filter, trashed_filter,
}

unfoldable pub hidden_album_filter : AlbumFilterValue → Text → AbstractData → Bool
hidden_album_filter (album_value album_id) shared_album_id (image img) =
    text_eq album_id shared_album_id && option_eq img.metadata.album (some album_id)
hidden_album_filter (album_value album_id) shared_album_id (video vid) =
    text_eq album_id shared_album_id && option_eq vid.metadata.album (some album_id)
hidden_album_filter (album_value album_id) shared_album_id (album alb) = false
hidden_album_filter (album_exists v) shared_album_id (image img) = v
hidden_album_filter (album_exists v) shared_album_id (video vid) = v
hidden_album_filter (album_exists v) shared_album_id (album alb) = false

unfoldable pub hidden_ext_type_filter : Text → AbstractData → Bool
hidden_ext_type_filter ext_type (image img) = contains ext_type image_text
hidden_ext_type_filter ext_type (video vid) = contains ext_type video_text
hidden_ext_type_filter ext_type (album alb) = false

unfoldable pub hidden_any_filter : Text → AbstractData → Bool
hidden_any_filter identifier (image img) =
    let lower = to_ascii_lowercase identifier in
    contains image_text identifier
    || matches_lower img.metadata.ext lower
    || exif_matches make_text lower img.metadata.exif_vec
    || exif_matches model_text lower img.metadata.exif_vec
hidden_any_filter identifier (video vid) =
    let lower = to_ascii_lowercase identifier in
    contains video_text identifier
    || matches_lower vid.metadata.ext lower
    || exif_matches make_text lower vid.metadata.exif_vec
    || exif_matches model_text lower vid.metadata.exif_vec
hidden_any_filter identifier (album alb) = false

-- The branches for `Trashed`, `Ext`, `Model` and `Make` are those of `generate_filter`, word for word.
unfoldable mutual
  pub generate_filter_hide_metadata : Expression → Text → AbstractData → Bool
  generate_filter_hide_metadata (or_of exprs) id item = any_matches_hidden exprs id item
  generate_filter_hide_metadata (and_of exprs) id item = all_match_hidden exprs id item
  generate_filter_hide_metadata (not_of expr) id item =
      not (generate_filter_hide_metadata expr id item)
  generate_filter_hide_metadata (album_of val) id item = hidden_album_filter val id item
  generate_filter_hide_metadata (tag_of tag) id item = false
  generate_filter_hide_metadata (path_of path) id item = false
  generate_filter_hide_metadata (root_album_of v) id item = false
  generate_filter_hide_metadata (parent_album_of parent_id) id item = false
  generate_filter_hide_metadata (trashed_of v) id item = trashed_filter v item
  generate_filter_hide_metadata (ext_type_of ext_type) id item =
      hidden_ext_type_filter ext_type item
  generate_filter_hide_metadata (ext_of ext) id item = ext_filter ext item
  generate_filter_hide_metadata (model_of model) id item = model_filter model item
  generate_filter_hide_metadata (make_of make) id item = make_filter make item
  generate_filter_hide_metadata (any_of identifier) id item = hidden_any_filter identifier item

  pub any_matches_hidden : Expressions → Text → AbstractData → Bool
  any_matches_hidden nil id item = false
  any_matches_hidden (cons expr exprs) id item =
      generate_filter_hide_metadata expr id item || any_matches_hidden exprs id item

  pub all_match_hidden : Expressions → Text → AbstractData → Bool
  all_match_hidden nil id item = true
  all_match_hidden (cons expr exprs) id item =
      generate_filter_hide_metadata expr id item && all_match_hidden exprs id item
