-- ===== src/Model/Expression/Privacy.antt =====
-- What the filter of a visitor of a share can tell about a record.
use picasu.Prelude.{
  ◌≡◌, refl, sym, ap, ap₂, ◌∙◌, Bool, false, not, ◌&&◌, ◌||◌, Option, none, some, [], map_or,
}
use picasu.Model.Text.{Text}
use picasu.Model.Records.{ObjectSchema, FileEntry, AbstractData, image, video, album, album_type}
use picasu.Model.Expression.{
  value, exists, album_value, album_exists, Expression, Expressions, or_of, and_of, not_of, tag_of,
  ext_type_of, ext_of, model_of, make_of, path_of, album_of, root_album_of, any_of, parent_album_of,
  trashed_of, nil, cons,
}
use picasu.Model.Expression.Filter.{ext_filter, model_filter, make_filter, trashed_filter}
use picasu.Model.Expression.HideMetadata.{
  hidden_album_filter, hidden_ext_type_filter, hidden_any_filter, generate_filter_hide_metadata,
  any_matches_hidden, all_match_hidden,
}

abbrev blank_object : ObjectSchema
blank_object = record {
  id = [];
  obj_type = album_type;
  pending = false;
  thumbhash = none;
  description = none;
  tags = [];
  rating = none;
  update_at = 0;
}

abbrev redact_file : Option FileEntry → Option FileEntry
redact_file none = none
redact_file (some f) = some (record f { file = []; modified = 0; scan_time = 0 })

-- The record without all that a share hides: the identity, the tags, the rating, the description, the
-- thumbnail, the times and the path of the file, and everything of an album but the trash flag.
abbrev pub redact : AbstractData → AbstractData
redact (image img) = image (record {
  object = blank_object;
  metadata = record img.metadata {
    size = 0;
    width = 0;
    height = 0;
    phash = none;
    path = redact_file img.metadata.path;
  };
})
redact (video vid) = video (record {
  object = blank_object;
  metadata = record vid.metadata {
    size = 0;
    width = 0;
    height = 0;
    duration = 0;
    path = redact_file vid.metadata.path;
  };
})
redact (album alb) = album (record {
  object = blank_object;
  metadata = record {
    id = [];
    title = none;
    created_time = 0;
    start_time = none;
    end_time = none;
    last_modified_time = 0;
    cover = none;
    item_count = 0;
    item_size = 0;
    share_list = [];
    dir_path = [];
    custom_title = none;
    is_trashed = alb.metadata.is_trashed;
  };
})

trashed-redact_file :
    (p : Option FileEntry) (test : Bool → Bool)
    → map_or false (λ f. test f.is_trashed) (redact_file p)
      ≡ map_or false (λ f. test f.is_trashed) p
trashed-redact_file none test = refl
trashed-redact_file (some f) test = refl

mutual
  unfolding generate_filter_hide_metadata hidden_album_filter hidden_ext_type_filter
      hidden_any_filter ext_filter model_filter make_filter trashed_filter

  filter-redact :
      (e : Expression) (id : Text) (a : AbstractData)
      → generate_filter_hide_metadata e id (redact a) ≡ generate_filter_hide_metadata e id a
  filter-redact (or_of es) id a = any-redact es id a
  filter-redact (and_of es) id a = all-redact es id a
  filter-redact (not_of e) id a = ap not (filter-redact e id a)
  filter-redact (album_of (album_value x)) id (image img) = refl
  filter-redact (album_of (album_value x)) id (video vid) = refl
  filter-redact (album_of (album_value x)) id (album alb) = refl
  filter-redact (album_of (album_exists x)) id (image img) = refl
  filter-redact (album_of (album_exists x)) id (video vid) = refl
  filter-redact (album_of (album_exists x)) id (album alb) = refl
  filter-redact (tag_of t) id a = refl
  filter-redact (path_of p) id a = refl
  filter-redact (root_album_of v) id a = refl
  filter-redact (parent_album_of p) id a = refl
  filter-redact (trashed_of v) id (image img) = trashed-redact_file img.metadata.path _
  filter-redact (trashed_of v) id (video vid) = trashed-redact_file vid.metadata.path _
  filter-redact (trashed_of v) id (album alb) = refl
  filter-redact (ext_type_of t) id (image img) = refl
  filter-redact (ext_type_of t) id (video vid) = refl
  filter-redact (ext_type_of t) id (album alb) = refl
  filter-redact (ext_of t) id (image img) = refl
  filter-redact (ext_of t) id (video vid) = refl
  filter-redact (ext_of t) id (album alb) = refl
  filter-redact (model_of (value m)) id (image img) = refl
  filter-redact (model_of (value m)) id (video vid) = refl
  filter-redact (model_of (value m)) id (album alb) = refl
  filter-redact (model_of (exists m)) id (image img) = refl
  filter-redact (model_of (exists m)) id (video vid) = refl
  filter-redact (model_of (exists m)) id (album alb) = refl
  filter-redact (make_of (value m)) id (image img) = refl
  filter-redact (make_of (value m)) id (video vid) = refl
  filter-redact (make_of (value m)) id (album alb) = refl
  filter-redact (make_of (exists m)) id (image img) = refl
  filter-redact (make_of (exists m)) id (video vid) = refl
  filter-redact (make_of (exists m)) id (album alb) = refl
  filter-redact (any_of t) id (image img) = refl
  filter-redact (any_of t) id (video vid) = refl
  filter-redact (any_of t) id (album alb) = refl

  any-redact :
      (es : Expressions) (id : Text) (a : AbstractData)
      → any_matches_hidden es id (redact a) ≡ any_matches_hidden es id a
  any-redact nil id a = refl
  any-redact (cons e es) id a = ap₂ ◌||◌ (filter-redact e id a) (any-redact es id a)

  all-redact :
      (es : Expressions) (id : Text) (a : AbstractData)
      → all_match_hidden es id (redact a) ≡ all_match_hidden es id a
  all-redact nil id a = refl
  all-redact (cons e es) id a = ap₂ ◌&&◌ (filter-redact e id a) (all-redact es id a)

-- Whatever expression a visitor sends, it tells two records apart only by what a share shows: the kind
-- of a record, the extension, the embedded data, the album and the trash flag of an image or a video,
-- and the trash flag of an album. No tag, path, identity, rating or description can be probed.
pub hide_metadata_private :
    (e : Expression) (shared_album_id : Text) (a b : AbstractData)
    → redact a ≡ redact b
    → generate_filter_hide_metadata e shared_album_id a
      ≡ generate_filter_hide_metadata e shared_album_id b
hide_metadata_private e id a b h =
    sym (filter-redact e id a)
    ∙ ap (λ r. generate_filter_hide_metadata e id r) h
    ∙ filter-redact e id b
