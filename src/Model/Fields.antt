-- ===== src/Model/Fields.antt =====
-- backend/src/model/abstract_data.rs: the readers and setters of an item's fields, and the timestamp by
-- which items are sorted. A setter answers the changed item.
use picasu.Prelude.{ℕ, Bool, Option, none, some, List, []}
use picasu.Model.Text.{Text}
use picasu.Model.Records.{FileEntry, AbstractData, image, video, album}

unfoldable pub width : AbstractData → ℕ
width (image img) = img.metadata.width
width (video vid) = vid.metadata.width
width (album alb) = 300

unfoldable pub height : AbstractData → ℕ
height (image img) = img.metadata.height
height (video vid) = vid.metadata.height
height (album alb) = 300

unfoldable pub description : AbstractData → Option Text
description (image img) = img.object.description
description (video vid) = vid.object.description
description (album alb) = alb.object.description

unfoldable pub rating : AbstractData → Option ℕ
rating (image img) = img.object.rating
rating (video vid) = vid.object.rating
rating (album alb) = alb.object.rating

unfoldable pub tag : AbstractData → List Text
tag (image img) = img.object.tags
tag (video vid) = vid.object.tags
tag (album alb) = alb.object.tags

unfoldable pub update_at : AbstractData → ℕ
update_at (image img) = img.object.update_at
update_at (video vid) = vid.object.update_at
update_at (album alb) = alb.object.update_at

unfoldable pub pending : AbstractData → Bool
pending (image img) = img.object.pending
pending (video vid) = vid.object.pending
pending (album alb) = alb.object.pending

unfoldable pub thumbhash : AbstractData → Option (List ℕ)
thumbhash (image img) = img.object.thumbhash
thumbhash (video vid) = vid.object.thumbhash
thumbhash (album alb) = alb.object.thumbhash

unfoldable pub exif_vec : AbstractData → Option (List (Text × Text))
exif_vec (image img) = some img.metadata.exif_vec
exif_vec (video vid) = some vid.metadata.exif_vec
exif_vec (album alb) = none

abbrev file_of : Option FileEntry → Text
file_of none = []
file_of (some e) = e.file

unfoldable pub source_path_string : AbstractData → Text
source_path_string (image img) = file_of img.metadata.path
source_path_string (video vid) = file_of vid.metadata.path
source_path_string (album alb) = []

unfoldable pub set_description : Option Text → AbstractData → AbstractData
set_description text (image img) =
    image (record img { object = record img.object { description = text } })
set_description text (video vid) =
    video (record vid { object = record vid.object { description = text } })
set_description text (album alb) =
    album (record alb { object = record alb.object { description = text } })

unfoldable pub set_rating : Option ℕ → AbstractData → AbstractData
set_rating stars (image img) = image (record img { object = record img.object { rating = stars } })
set_rating stars (video vid) = video (record vid { object = record vid.object { rating = stars } })
set_rating stars (album alb) = album (record alb { object = record alb.object { rating = stars } })

-- `now` is the clock.
unfoldable pub update_update_at : ℕ → AbstractData → AbstractData
update_update_at now (image img) =
    image (record img { object = record img.object { update_at = now } })
update_update_at now (video vid) =
    video (record vid { object = record vid.object { update_at = now } })
update_update_at now (album alb) =
    album (record alb { object = record alb.object { update_at = now } })

unfoldable pub set_pending : Bool → AbstractData → AbstractData
set_pending flag (image img) = image (record img { object = record img.object { pending = flag } })
set_pending flag (video vid) = video (record vid { object = record vid.object { pending = flag } })
set_pending flag (album alb) = album (record alb { object = record alb.object { pending = flag } })

unfoldable pub set_thumbhash : List ℕ → AbstractData → AbstractData
set_thumbhash bytes (image img) =
    image (record img { object = record img.object { thumbhash = some bytes } })
set_thumbhash bytes (video vid) =
    video (record vid { object = record vid.object { thumbhash = some bytes } })
set_thumbhash bytes (album alb) =
    album (record alb { object = record alb.object { thumbhash = some bytes } })

unfoldable pub set_album : Option Text → AbstractData → AbstractData
set_album id (image img) = image (record img { metadata = record img.metadata { album = id } })
set_album id (video vid) = video (record vid { metadata = record vid.metadata { album = id } })
set_album id (album alb) = album alb

unfoldable pub set_width : ℕ → AbstractData → AbstractData
set_width w (image img) = image (record img { metadata = record img.metadata { width = w } })
set_width w (video vid) = video (record vid { metadata = record vid.metadata { width = w } })
set_width w (album alb) = album alb

unfoldable pub set_height : ℕ → AbstractData → AbstractData
set_height h (image img) = image (record img { metadata = record img.metadata { height = h } })
set_height h (video vid) = video (record vid { metadata = record vid.metadata { height = h } })
set_height h (album alb) = album alb

unfoldable pub swap_width_height : AbstractData → AbstractData
swap_width_height (image img) = image (record img {
  metadata = record img.metadata { width = img.metadata.height; height = img.metadata.width };
})
swap_width_height (video vid) = video (record vid {
  metadata = record vid.metadata { width = vid.metadata.height; height = vid.metadata.width };
})
swap_width_height (album alb) = album alb

unfoldable pub set_phash : List ℕ → AbstractData → AbstractData
set_phash bytes (image img) =
    image (record img { metadata = record img.metadata { phash = some bytes } })
set_phash bytes (video vid) = video vid
set_phash bytes (album alb) = album alb

abbrev mark_trashed : Bool → Option FileEntry → Option FileEntry
mark_trashed flag none = none
mark_trashed flag (some e) = some (record e { is_trashed = flag })

unfoldable pub set_trashed : Bool → AbstractData → AbstractData
set_trashed flag (image img) =
    image
      (record img { metadata = record img.metadata { path = mark_trashed flag img.metadata.path } })
set_trashed flag (video vid) =
    video
      (record vid { metadata = record vid.metadata { path = mark_trashed flag vid.metadata.path } })
set_trashed flag (album alb) =
    album (record alb { metadata = record alb.metadata { is_trashed = flag } })
