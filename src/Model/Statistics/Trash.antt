-- ===== src/Model/Statistics/Trash.antt =====
-- backend/src/model/abstract_data.rs and album.rs: a trashed file and the statistics of its album.
use picasu.Prelude.{◌≡◌, refl, true, List, ◌∷◌, arith, Option-cases, inl, inr}
use picasu.Model.Records.{AbstractData, image, video, album}
use picasu.Model.Fields.{set_trashed}
use picasu.Process.DirAlbum.{PathBuf}
use picasu.Model.Statistics.{DatabaseTimestamp, is_direct, is_below, media_infos}

-- A row whose item is set trashed counts for no album, neither for its own nor for one above.
trashed_uncounted :
    (dir_path : PathBuf) (row : DatabaseTimestamp) (rows : List DatabaseTimestamp)
    (item : AbstractData)
    → (media_infos
          (is_direct dir_path)
          (record row { abstract_data = set_trashed true item } ∷ rows)
        ≡ media_infos (is_direct dir_path) rows)
      × (media_infos
            (is_below dir_path)
            (record row { abstract_data = set_trashed true item } ∷ rows)
          ≡ media_infos (is_below dir_path) rows)
unfolding media_infos set_trashed
trashed_uncounted dir_path row rows (image img) = elim (Option-cases img.metadata.path) [
  | inl e ↦ (ground (arith, e), ground (arith, e))
  | inr (f, e) ↦ (ground (arith, e), ground (arith, e))
]
trashed_uncounted dir_path row rows (video vid) = elim (Option-cases vid.metadata.path) [
  | inl e ↦ (ground (arith, e), ground (arith, e))
  | inr (f, e) ↦ (ground (arith, e), ground (arith, e))
]
trashed_uncounted dir_path row rows (album alb) = (refl, refl)
