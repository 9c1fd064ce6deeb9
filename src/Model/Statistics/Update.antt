-- ===== src/Model/Statistics/Update.antt =====
-- backend/src/model/album.rs, `self_update`: what the statistics of an album say.
use picasu.Prelude.{
  ℕ, ◌%◌, ◌^◌, ◌≡◌, refl, sym, ap, ◌∙◌, true, Option, none, some, List, [], ◌∷◌, arith, All, length,
  leb, Bool-cases, inl, inr,
}
use mathlib.Core.Path.{subst}
use picasu.Model.Text.{Text, text_eq}
use picasu.Model.Text.Table.{text_eq_refl, text_eq_iff}
use picasu.Model.Records.{AlbumMetadata, AlbumCombined}
use picasu.Process.DirAlbum.{components}
use picasu.Model.Statistics.{
  MediaItemInfo, DatabaseTimestamp, time_of, signed, place, newest_first, first, last, total_size,
  in_infos, set_cover_from_info, keep_cover, update_filled, self_update,
}
use picasu.Model.Statistics.Own.{OwnFiles, media_infos-OwnFiles}
use picasu.Model.Statistics.Sorted.{
  Before, Descending, All-both, sorted-All, sorted-Has, length-newest_first,
  total_size-newest_first, in_infos-newest_first, newest_first-Descending, last-oldest, last-Has,
  Has, At, Between, sizes,
}

-- What the code writes, in its own words.
abbrev Written : AlbumMetadata → List MediaItemInfo → Type 0
Written m infos =
    (m.item_count ≡ length infos)
    × (m.item_size ≡ total_size infos)
    × ((lo : ℕ) × (hi : ℕ) × (m.start_time ≡ some lo)
        × (m.end_time ≡ some hi)
        × All (Between lo hi) infos
        × Has (At lo) infos
        × Has (At hi) infos)
    × ((c : Text) × (m.cover ≡ some c) × (in_infos c infos ≡ true))

-- What the metadata say of the album's own files: their number, the sum of their sizes as a word, the
-- oldest and the newest of their timestamps, and one of them.
abbrev pub Summarizes : AlbumMetadata → List MediaItemInfo → Type 0
Summarizes m infos =
    (m.item_count ≡ length infos)
    × (m.item_size ≡ sizes infos % 2 ^ 64)
    × ((lo : ℕ) × (hi : ℕ) × (m.start_time ≡ some lo)
        × (m.end_time ≡ some hi)
        × All (Between lo hi) infos
        × Has (At lo) infos
        × Has (At hi) infos)
    × ((c : Text) × (m.cover ≡ some c) × Has (λ (i : MediaItemInfo). i.asset_id ≡ c) infos)

total_size-sizes : (xs : List MediaItemInfo) → total_size xs ≡ sizes xs % 2 ^ 64
unfolding total_size
total_size-sizes [] = refl
total_size-sizes (x ∷ xs) = omega (arith, total_size-sizes xs)

in_infos-Has :
    (id : Text) (xs : List MediaItemInfo)
    → in_infos id xs ≡ true
    → Has (λ (i : MediaItemInfo). i.asset_id ≡ id) xs
in_infos-Has id [] h = absurd (ground arith)
in_infos-Has id (x ∷ xs) h = elim (Bool-cases (text_eq x.asset_id id)) [
  | inl e ↦ inl ((text_eq_iff x.asset_id id).0 e)
  | inr e ↦ inr (in_infos-Has id xs (ground arith))
]

Written-Summarizes : (m : AlbumMetadata) (xs : List MediaItemInfo) → Written m xs → Summarizes m xs
Written-Summarizes m xs (count, size, span, (c, cover, there)) =
    (count, size ∙ total_size-sizes xs, span, (c, cover, in_infos-Has c xs there))

-- The choice of the cover, from a list that is not empty.
keep_cover-first :
    (x : MediaItemInfo) (xs : List MediaItemInfo) (cover : Option Text) (alb : AlbumCombined)
    → alb.metadata.cover ≡ cover
    → ((c : Text) × ((keep_cover cover (x ∷ xs) alb).metadata.cover ≡ some c)
        × (in_infos c (x ∷ xs) ≡ true))
      × ((keep_cover cover (x ∷ xs) alb).metadata.item_count ≡ alb.metadata.item_count)
      × ((keep_cover cover (x ∷ xs) alb).metadata.item_size ≡ alb.metadata.item_size)
      × ((keep_cover cover (x ∷ xs) alb).metadata.start_time ≡ alb.metadata.start_time)
      × ((keep_cover cover (x ∷ xs) alb).metadata.end_time ≡ alb.metadata.end_time)
unfolding keep_cover first set_cover_from_info
keep_cover-first x xs none alb h =
    ((x.asset_id, refl, ground (arith, text_eq_refl x.asset_id)), refl, refl, refl, refl)
keep_cover-first x xs (some current) alb h = elim (Bool-cases (in_infos current (x ∷ xs))) [
  | inl there ↦ rw (there, keep_cover) ((current, h, there), refl, refl, refl, refl)
  | inr gone ↦
      rw (gone, keep_cover)
        ((x.asset_id, refl, ground (arith, text_eq_refl x.asset_id)), refl, refl, refl, refl)
]

update_filled-Written :
    (now : ℕ) (x : MediaItemInfo) (xs : List MediaItemInfo) (alb : AlbumCombined)
    → Descending (x ∷ xs)
    → Written (update_filled now (x ∷ xs) alb).metadata (x ∷ xs)
unfolding update_filled first
update_filled-Written now x xs alb d =
    let (l, e, least) = last-oldest x xs d in
    let kept =
      keep_cover-first x xs alb.metadata.cover
        (record alb {
          metadata = record alb.metadata {
            start_time = time_of (last (x ∷ xs));
            end_time = some x.timestamp;
            item_count = length (x ∷ xs);
            item_size = total_size (x ∷ xs);
            last_modified_time = now;
          };
        })
        refl in
    let newest : All (λ y. Before y x) (x ∷ xs) = (omega arith, d.0) in
    (
      kept.1,
      kept.2,
      (
        l.timestamp,
        x.timestamp,
        kept.3 ∙ ap time_of e,
        kept.4,
        All-both (λ y. Before l y) (λ y. Before y x) (x ∷ xs) least newest,
        last-Has x xs l e,
        inl refl,
      ),
      kept.0,
    )

-- The same of a list and of the list sorted.
sorted-Written :
    (m : AlbumMetadata) (xs : List MediaItemInfo) → Written m (newest_first xs) → Written m xs
sorted-Written m xs (count, size, (lo, hi, start, end, all, oldest, newest), (c, cover, there)) = (
  count ∙ length-newest_first xs,
  size ∙ total_size-newest_first xs,
  (lo, hi, start, end, sorted-All _ xs all, sorted-Has _ xs oldest, sorted-Has _ xs newest),
  (c, cover, sym (in_infos-newest_first c xs) ∙ there),
)

place-filled :
    (i : MediaItemInfo) (xs : List MediaItemInfo)
    → (y : MediaItemInfo) × (ys : List MediaItemInfo) × (place i xs ≡ y ∷ ys)
unfolding place
place-filled i [] = (i, [], refl)
place-filled i (x ∷ xs) = elim (Bool-cases (leb (signed x.timestamp) (signed i.timestamp))) [
  | inl e ↦ (i, x ∷ xs, rw (e, place) refl)
  | inr e ↦ (x, place i xs, rw (e, place) refl)
]

-- An album with files of its own counts them, adds up their sizes in a 64-bit word, spans the time from the
-- oldest of their timestamps to the newest, and has one of them for its cover. (The files of its own are
-- those of the rows that lie directly in its directory, are not trashed and are no placeholder.)
pub self_update_lem :
    (now : ℕ) (rows : List DatabaseTimestamp) (alb : AlbumCombined) (info : MediaItemInfo)
    (infos : List MediaItemInfo)
    → OwnFiles (components alb.metadata.dir_path) rows (info ∷ infos)
    → Summarizes (self_update now rows alb).metadata (info ∷ infos)
unfolding self_update newest_first
self_update_lem now rows alb info infos own =
    let filled = media_infos-OwnFiles (components alb.metadata.dir_path) rows (info ∷ infos) own in
    let (y, ys, e) = place-filled info (newest_first infos) in
    let d : Descending (y ∷ ys) = subst Descending e (newest_first-Descending (info ∷ infos)) in
    let done : Written (update_filled now (place info (newest_first infos)) alb).metadata
        (place info (newest_first infos)) =
      subst (λ s. Written (update_filled now s alb).metadata s) (sym e)
        (update_filled-Written now y ys alb d) in
    rw (filled, self_update)
      (Written-Summarizes (update_filled now (place info (newest_first infos)) alb).metadata
        (info ∷ infos)
        (sorted-Written (update_filled now (place info (newest_first infos)) alb).metadata
          (info ∷ infos) done))
