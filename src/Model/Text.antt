-- ===== src/Model/Text.antt =====
-- Rust's strings as the lists of their code points, with the methods that the code calls.
pub mod Table
pub mod Trim
pub mod TrimLaws
use picasu.Prelude.{
  ℕ, ◌+◌, Bool, true, false, ◌&&◌, ◌||◌, Option, none, some, List, [], ◌∷◌, leb, ◌==◌,
  if◌then◌else◌,
}

abbrev pub Text : Type 0
Text = List ℕ

abbrev pub text_eq : Text → Text → Bool
text_eq [] [] = true
text_eq [] (y ∷ ys) = false
text_eq (x ∷ xs) [] = false
text_eq (x ∷ xs) (y ∷ ys) = x == y && text_eq xs ys

-- `starts_with`, with the pattern second.
unfoldable pub starts_with : Text → Text → Bool
starts_with xs [] = true
starts_with [] (y ∷ ys) = false
starts_with (x ∷ xs) (y ∷ ys) = x == y && starts_with xs ys

-- `contains`, with the pattern second.
unfoldable pub contains : Text → Text → Bool
contains [] pattern = starts_with [] pattern
contains (x ∷ xs) pattern = starts_with (x ∷ xs) pattern || contains xs pattern

abbrev lowercase : ℕ → ℕ
lowercase c = if leb 65 c && leb c 90 then c + 32 else c

unfoldable pub to_ascii_lowercase : Text → Text
to_ascii_lowercase [] = []
to_ascii_lowercase (c ∷ cs) = lowercase c ∷ to_ascii_lowercase cs

-- `==` on `Option`
abbrev pub option_eq : Option Text → Option Text → Bool
option_eq none none = true
option_eq none (some y) = false
option_eq (some x) none = false
option_eq (some x) (some y) = text_eq x y

abbrev pub bool_eq : Bool → Bool → Bool
bool_eq true b = b
bool_eq false true = false
bool_eq false false = true

-- `contains` of a `HashSet` of strings
unfoldable pub has_text : Text → List Text → Bool
has_text x [] = false
has_text x (y ∷ ys) = text_eq x y || has_text x ys

-- `get` of a `BTreeMap` of strings
unfoldable pub get_text : Text → List (Text × Text) → Option Text
get_text k [] = none
get_text k ((j, v) ∷ m) = if text_eq k j then some v else get_text k m

-- The literals of the filters.
abbrev pub image_text : Text
image_text = 105 ∷ 109 ∷ 97 ∷ 103 ∷ 101 ∷ []

abbrev pub video_text : Text
video_text = 118 ∷ 105 ∷ 100 ∷ 101 ∷ 111 ∷ []

abbrev pub album_text : Text
album_text = 97 ∷ 108 ∷ 98 ∷ 117 ∷ 109 ∷ []

abbrev pub make_text : Text
make_text = 77 ∷ 97 ∷ 107 ∷ 101 ∷ []

abbrev pub model_text : Text
model_text = 77 ∷ 111 ∷ 100 ∷ 101 ∷ 108 ∷ []
