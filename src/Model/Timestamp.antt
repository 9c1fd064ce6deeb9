-- ===== src/Model/Timestamp.antt =====
-- backend/src/model/abstract_data.rs, `compute_timestamp`: the timestamp by which an item is sorted. The
-- parsing of dates, the local time zone and the clock are parameters.
use picasu.Prelude.{
  ℕ, ◌≡◌, ◌≢◌, refl, Option, none, some, List, [], ◌∷◌, inl, inr, Option-cases, All,
}
use picasu.Model.Text.{Text, get_text}
use picasu.Model.Records.{FileEntry, AbstractData, image, video, album}
use picasu.Model.Assets.{entry}
use picasu.Model.Fields.{exif_vec}
use picasu.Process.DirAlbum.{components}
use picasu.Model.Statistics.{file_name}

-- The entries of the priority list.
pub data TimeField : Type 0 where
  date_time_original filename scan_time modified random unknown : TimeField

-- "DateTimeOriginal"
abbrev exif_key : Text
exif_key =
    68 ∷ 97 ∷ 116 ∷ 101 ∷ 84 ∷ 105 ∷ 109 ∷ 101 ∷ 79 ∷ 114 ∷ 105 ∷ 103 ∷ 105 ∷ 110 ∷ 97 ∷ 108 ∷ []

-- `exif_time` is the time that an EXIF value stands for, if it parses, is one local time and is not past
-- the clock. `name_time` is the time in a file's name, if it has one that is not past the clock, as a local
-- time: `some none` if the zone has no or two such times.
module _ (exif_time : Text → Option ℕ) (name_time : Text → Option (Option ℕ)) where
  abbrev by_exif : Option (List (Text × Text)) → Option ℕ
  by_exif none = none
  by_exif (some exif) = elim (get_text exif_key exif) [ none ↦ none | some value ↦ exif_time value ]

  abbrev in_name : Option FileEntry → Option (Option ℕ)
  in_name none = none
  in_name (some e) = elim (file_name (components e.file)) [
    | none ↦ none
    | some name ↦ name_time name
  ]

  -- `expect` on the local time: `none` is the panic.
  abbrev expect_single : Option (Option ℕ) → Option (Option ℕ)
  expect_single none = some none
  expect_single (some none) = none
  expect_single (some (some t)) = some (some t)

  abbrev scanned : Option FileEntry → Option ℕ
  scanned none = none
  scanned (some e) = some e.scan_time

  abbrev changed : Option FileEntry → Option ℕ
  changed none = none
  changed (some e) = some e.modified

  -- One round of the loop: `none` is a panic, and `some none` goes on. `drawn` is the random number.
  unfoldable pub field_time : ℕ → AbstractData → TimeField → Option (Option ℕ)
  field_time drawn item date_time_original = some (by_exif (exif_vec item))
  field_time drawn item filename = expect_single (in_name (entry item))
  field_time drawn item scan_time = some (scanned (entry item))
  field_time drawn item modified = some (changed (entry item))
  field_time drawn item random = some (some drawn)
  field_time drawn item unknown = none

  unfoldable pub first_time : ℕ → AbstractData → List TimeField → Option ℕ
  first_time drawn item [] = some 0
  first_time drawn item (field ∷ fields) =
      let rest = first_time drawn item fields in
      elim (field_time drawn item field) [ none ↦ none | some none ↦ rest | some (some t) ↦ some t ]

  unfoldable pub compute_timestamp : ℕ → List TimeField → AbstractData → Option ℕ
  compute_timestamp drawn priority_list (album alb) = some alb.metadata.created_time
  compute_timestamp drawn priority_list (image img) = first_time drawn (image img) priority_list
  compute_timestamp drawn priority_list (video vid) = first_time drawn (video vid) priority_list

  first_time-returns :
      (drawn : ℕ) (item : AbstractData) (fields : List TimeField)
      → All (λ f. field_time drawn item f ≢ none) fields
      → (t : ℕ) × (first_time drawn item fields ≡ some t)
  unfolding first_time
  first_time-returns drawn item [] h = (0, refl)
  first_time-returns drawn item (field ∷ fields) h =
      elim (Option-cases (field_time drawn item field)) [
        | inl e ↦ absurd (h.0 e)
        | inr (none, e) ↦
            let (t, r) = first_time-returns drawn item fields h.1 in (t, rw (e, first_time) r)
        | inr (some t, e) ↦ (t, rw (e, first_time) refl)
      ]

  -- The timestamp of an item is computed without a panic if no entry of the list panics for it: an entry
  -- does only if it is unknown, or if it is the file's name and that has a time that its zone does not have
  -- once.
  compute_timestamp-returns :
      (drawn : ℕ) (fields : List TimeField) (item : AbstractData)
      → All (λ f. field_time drawn item f ≢ none) fields
      → (t : ℕ) × (compute_timestamp drawn fields item ≡ some t)
  unfolding compute_timestamp
  compute_timestamp-returns drawn fields (album alb) h = (alb.metadata.created_time, refl)
  compute_timestamp-returns drawn fields (image img) h =
      first_time-returns drawn (image img) fields h
  compute_timestamp-returns drawn fields (video vid) h =
      first_time-returns drawn (video vid) fields h
