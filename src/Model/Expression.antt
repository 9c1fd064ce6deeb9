-- ===== src/Model/Expression.antt =====
-- backend/src/model/expression.rs: the filter language.
pub mod Filter
pub mod HideMetadata
pub mod Privacy
pub mod Laws
mod Tests
use picasu.Prelude.{Bool, true, false, ◌||◌}
use picasu.Model.Text.{Text}

pub data FilterValue : Type 0 where
  value : Text → FilterValue
  exists : Bool → FilterValue

pub data AlbumFilterValue : Type 0 where
  album_value : Text → AlbumFilterValue
  album_exists : Bool → AlbumFilterValue

mutual
  pub data Expression : Type 0 where
    or_of and_of : Expressions → Expression
    not_of : Expression → Expression
    tag_of : FilterValue → Expression
    ext_type_of ext_of : Text → Expression
    model_of make_of : FilterValue → Expression
    path_of : Text → Expression
    album_of : AlbumFilterValue → Expression
    root_album_of : Bool → Expression
    any_of parent_album_of : Text → Expression
    trashed_of : Bool → Expression

  pub data Expressions : Type 0 where
    nil : Expressions
    cons : Expression → Expressions → Expressions

unfoldable mutual
  pub contains_root_album_true : Expression → Bool
  contains_root_album_true (root_album_of v) = v
  contains_root_album_true (and_of exprs) = any_contains exprs
  contains_root_album_true (or_of exprs) = any_contains exprs
  contains_root_album_true _ = false

  pub any_contains : Expressions → Bool
  any_contains nil = false
  any_contains (cons expr exprs) = contains_root_album_true expr || any_contains exprs
