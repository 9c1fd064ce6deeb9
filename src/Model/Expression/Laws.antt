-- ===== src/Model/Expression/Laws.antt =====
-- What the filters mean: the laws of their connectives, and how the two filters relate.
use picasu.Prelude.{
  ◌≡◌, refl, ap, ◌∙◌, ◌↔◌, Bool, true, false, not, ◌&&◌, ◌||◌, Option, none, some, [], map_or, ◌∷◌,
  arith,
}
use picasu.Model.Text.{Text, bool_eq, option_eq, text_eq}
use picasu.Model.Records.{FileEntry, AlbumCombined, AbstractData, image, video, album}
use picasu.Model.Expression.{
  Expression, Expressions, or_of, and_of, not_of, tag_of, ext_type_of, ext_of, model_of, make_of,
  path_of, album_of, root_album_of, any_of, parent_album_of, trashed_of, nil, cons,
  contains_root_album_true,
}
use picasu.Model.Expression.Filter.{
  Files, trashed_filter, ext_type_filter, any_filter, root_album_filter, parent_album_filter,
  generate_filter, any_matches, all_match, is_none,
}
use picasu.Model.Expression.HideMetadata.{
  hidden_ext_type_filter, hidden_any_filter, generate_filter_hide_metadata, any_matches_hidden,
  all_match_hidden,
}
use picasu.Process.DirAlbum.{components, get_parent_album_id}

-- An expression with no negation and no album condition.
unfoldable mutual
  pub IsPositive : Expression → Type 0
  IsPositive (or_of es) = ArePositive es
  IsPositive (and_of es) = ArePositive es
  IsPositive (not_of e) = ⊥
  IsPositive (album_of a) = ⊥
  IsPositive _ = Unit

  pub ArePositive : Expressions → Type 0
  ArePositive nil = Unit
  ArePositive (cons e es) = IsPositive e × ArePositive es

or-left :
    (a b c d : Bool) → (a ≡ true → c ≡ true) → (b ≡ true → d ≡ true) → a || b ≡ true → c || d ≡ true
or-left a b c d f g h = ground arith

and-both :
    (a b c d : Bool) → (a ≡ true → c ≡ true) → (b ≡ true → d ≡ true) → a && b ≡ true → c && d ≡ true
and-both a b c d f g h = ground arith

hidden_any-any :
    (t : Text) (a : AbstractData) → hidden_any_filter t a ≡ true → any_filter t a ≡ true
unfolding hidden_any_filter any_filter
hidden_any-any t (image img) h = ground arith
hidden_any-any t (video vid) h = ground arith
hidden_any-any t (album alb) h = absurd (ground arith)

hidden_ext_type-ext_type :
    (t : Text) (a : AbstractData) → hidden_ext_type_filter t a ≡ true → ext_type_filter t a ≡ true
unfolding hidden_ext_type_filter ext_type_filter
hidden_ext_type-ext_type t (image img) h = h
hidden_ext_type-ext_type t (video vid) h = h
hidden_ext_type-ext_type t (album alb) h = absurd (ground arith)

mutual
  unfolding generate_filter generate_filter_hide_metadata IsPositive

  filter_narrows :
      (e : Expression) (id : Text) (built now : Files) (a : AbstractData)
      → IsPositive e
      → generate_filter_hide_metadata e id a ≡ true
      → generate_filter built e now a ≡ true
  filter_narrows (or_of es) id built now a p h = any_narrows es id built now a p h
  filter_narrows (and_of es) id built now a p h = all_narrow es id built now a p h
  filter_narrows (not_of e) id built now a p h = absurd p
  filter_narrows (album_of v) id built now a p h = absurd p
  filter_narrows (tag_of t) id built now a p h = absurd (ground arith)
  filter_narrows (path_of t) id built now a p h = absurd (ground arith)
  filter_narrows (root_album_of v) id built now a p h = absurd (ground arith)
  filter_narrows (parent_album_of t) id built now a p h = absurd (ground arith)
  filter_narrows (trashed_of v) id built now a p h = h
  filter_narrows (ext_type_of t) id built now a p h = hidden_ext_type-ext_type t a h
  filter_narrows (ext_of t) id built now a p h = h
  filter_narrows (model_of m) id built now a p h = h
  filter_narrows (make_of m) id built now a p h = h
  filter_narrows (any_of t) id built now a p h = hidden_any-any t a h

  any_narrows :
      (es : Expressions) (id : Text) (built now : Files) (a : AbstractData)
      → ArePositive es
      → any_matches_hidden es id a ≡ true
      → any_matches built es now a ≡ true
  any_narrows nil id built now a p h = h
  any_narrows (cons e es) id built now a p h =
      or-left (generate_filter_hide_metadata e id a) (any_matches_hidden es id a)
        (generate_filter built e now a) (any_matches built es now a)
        (filter_narrows e id built now a p.0) (any_narrows es id built now a p.1) h

  all_narrow :
      (es : Expressions) (id : Text) (built now : Files) (a : AbstractData)
      → ArePositive es
      → all_match_hidden es id a ≡ true
      → all_match built es now a ≡ true
  all_narrow nil id built now a p h = h
  all_narrow (cons e es) id built now a p h =
      and-both (generate_filter_hide_metadata e id a) (all_match_hidden es id a)
        (generate_filter built e now a) (all_match built es now a)
        (filter_narrows e id built now a p.0) (all_narrow es id built now a p.1) h

-- On an expression with no negation and no album condition, whatever a visitor's filter lets through is
-- let through by the owner's: hiding metadata only narrows the view.
pub hidden_narrows :
    (e : Expression) (shared_album_id : Text) (built now : Files) (a : AbstractData)
    → IsPositive e
    → generate_filter_hide_metadata e shared_album_id a ≡ true
    → generate_filter built e now a ≡ true
hidden_narrows e id built now a p h = filter_narrows e id built now a p h

abbrev pub negated : Expressions → Expressions
negated nil = nil
negated (cons e es) = cons (not_of e) (negated es)

not-and : (a b : Bool) → not (a && b) ≡ not a || not b
not-and a b = ground arith

not-or : (a b : Bool) → not (a || b) ≡ not a && not b
not-or a b = ground arith

all-negated :
    (es : Expressions) (built now : Files) (a : AbstractData)
    → not (all_match built es now a) ≡ any_matches built (negated es) now a
unfolding generate_filter
all-negated nil built now a = refl
all-negated (cons e es) built now a =
    not-and _ _ ∙ ap (λ r. not (generate_filter built e now a) || r) (all-negated es built now a)

any-negated :
    (es : Expressions) (built now : Files) (a : AbstractData)
    → not (any_matches built es now a) ≡ all_match built (negated es) now a
unfolding generate_filter
any-negated nil built now a = refl
any-negated (cons e es) built now a =
    not-or _ _ ∙ ap (λ r. not (generate_filter built e now a) && r) (any-negated es built now a)

-- De Morgan's laws hold of the filters: a negated `And` selects what the `Or` of the negated parts
-- selects, and a negated `Or` what the `And` of them does.
pub generate_filter-de_morgan :
    (es : Expressions) (built now : Files) (a : AbstractData)
    → (generate_filter built (not_of (and_of es)) now a
        ≡ generate_filter built (or_of (negated es)) now a)
      × (generate_filter built (not_of (or_of es)) now a
          ≡ generate_filter built (and_of (negated es)) now a)
unfolding generate_filter
generate_filter-de_morgan es built now a = (all-negated es built now a, any-negated es built now a)

-- An album, or an image or a video whose path is known.
abbrev pub has_view : AbstractData → Bool
has_view (image img) = map_or false (λ f. true) img.metadata.path
has_view (video vid) = map_or false (λ f. true) vid.metadata.path
has_view (album alb) = true

trashed_entry :
    (p : Option FileEntry)
    → (map_or false (λ f. bool_eq f.is_trashed false) p
        ≡ map_or false (λ f. true) p && not (map_or false (λ f. bool_eq f.is_trashed true) p))
trashed_entry none = refl
trashed_entry (some f) = ground arith

-- The gallery, `Trashed(false)`, and the trash, `Trashed(true)`, share no record, and a record is in
-- one of them unless it is an image or a video whose path was pruned.
pub trashed_views :
    (built now : Files) (a : AbstractData)
    → generate_filter built (trashed_of false) now a
      ≡ has_view a && not (generate_filter built (trashed_of true) now a)
unfolding generate_filter trashed_filter
trashed_views built now (image img) = trashed_entry img.metadata.path
trashed_views built now (video vid) = trashed_entry vid.metadata.path
trashed_views built now (album alb) = ground arith

text_eq_refl : (t : Text) → text_eq t t ≡ true
text_eq_refl [] = refl
text_eq_refl (c ∷ t) = ground (arith, text_eq_refl t)

-- An album is a root album exactly if it is a child of no album: `RootAlbum(true)` selects it if and
-- only if `ParentAlbum(id)` selects it for no `id`.
pub root_or_child :
    (built now : Files) (alb : AlbumCombined)
    → (generate_filter built (root_album_of true) now (album alb) ≡ true)
      ↔ ((id : Text) → generate_filter built (parent_album_of id) now (album alb) ≡ false)
unfolding generate_filter root_album_filter parent_album_filter
root_or_child built now alb =
    child (get_parent_album_id now.dir_albums (components alb.metadata.dir_path))
  where
    child :
        (o : Option Text)
        → (bool_eq (is_none o) true ≡ true) ↔ ((id : Text) → option_eq o (some id) ≡ false)
    child none = (λ h id. refl, λ h. refl)
    child (some id) = (
      λ h. absurd (ground arith),
      λ h. let e = h id in let r = text_eq_refl id in absurd (ground arith),
    )

-- A condition negated twice selects the same records, but `contains_root_album_true` does not see it.
pub twice_negated :
    (e : Expression) (built now : Files) (a : AbstractData)
    → (generate_filter built (not_of (not_of e)) now a ≡ generate_filter built e now a)
      × (contains_root_album_true (not_of (not_of e)) ≡ false)
unfolding generate_filter contains_root_album_true
twice_negated e built now a = (ground arith, refl)
