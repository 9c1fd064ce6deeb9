-- ===== src/Process/DirAlbum.antt =====
-- backend/src/process/dir_album.rs: look-ups in the cache of directory albums. A path is the list of
-- its components, by which Rust compares paths; the rules are those of `std::path` on Unix.
pub mod Cache
use picasu.Prelude.{
  ℕ, Bool, true, false, ◌&&◌, Option, none, some, List, [], ◌∷◌, ◌++◌, ◌==◌, if◌then◌else◌,
}
use picasu.Model.Text.{Text, text_eq, starts_with}

pub data Component : Type 0 where
  root_dir cur_dir parent_dir : Component
  normal : Text → Component

abbrev pub PathBuf : Type 0
PathBuf = List Component

unfoldable pub component_eq : Component → Component → Bool
component_eq root_dir root_dir = true
component_eq cur_dir cur_dir = true
component_eq parent_dir parent_dir = true
component_eq (normal x) (normal y) = text_eq x y
component_eq _ _ = false

unfoldable pub path_eq : PathBuf → PathBuf → Bool
path_eq [] [] = true
path_eq [] (d ∷ q) = false
path_eq (c ∷ p) [] = false
path_eq (c ∷ p) (d ∷ q) = component_eq c d && path_eq p q

abbrev slash : Text
slash = 47 ∷ []

abbrev dot : Text
dot = 46 ∷ []

abbrev dot_dot : Text
dot_dot = 46 ∷ 46 ∷ []

abbrev put_first : ℕ → List Text → List Text
put_first c [] = (c ∷ []) ∷ []
put_first c (s ∷ ss) = (c ∷ s) ∷ ss

-- The text between the slashes.
unfoldable pub segments : Text → List Text
segments [] = [] ∷ []
segments (c ∷ cs) = let rest = segments cs in if c == 47 then [] ∷ rest else put_first c rest

-- An empty segment is no component, and a dot is one only where a relative path begins.
abbrev component_of : Bool → Text → PathBuf
component_of first segment =
    if text_eq segment []
    then []
    else if text_eq segment dot
    then (if first then cur_dir ∷ [] else [])
    else if text_eq segment dot_dot
    then parent_dir ∷ []
    else normal segment ∷ []

unfoldable pub body : Bool → List Text → PathBuf
body first [] = []
body first (segment ∷ rest) = component_of first segment ++ body false rest

unfoldable pub is_absolute : Text → Bool
is_absolute text = starts_with text slash

-- `Path::components`
unfoldable pub components : Text → PathBuf
components text =
    if is_absolute text then root_dir ∷ body false (segments text) else body true (segments text)

-- `Path::join` with a relative path
unfoldable pub join : PathBuf → PathBuf → PathBuf
join [] path = path
join (c ∷ base) (cur_dir ∷ path) = (c ∷ base) ++ path
join (c ∷ base) path = (c ∷ base) ++ path

abbrev under : Component → Option PathBuf → Option PathBuf
under c none = none
under c (some up) = some (c ∷ up)

-- `Path::parent`
unfoldable pub parent : PathBuf → Option PathBuf
parent [] = none
parent (root_dir ∷ []) = none
parent (c ∷ []) = some []
parent (c ∷ d ∷ path) = under c (parent (d ∷ path))

-- The cache, in the order in which its map iterates.
abbrev pub DirAlbums : Type 0
DirAlbums = List (PathBuf × Text)

unfoldable pub get_album_id_for_dir : DirAlbums → PathBuf → Option Text
get_album_id_for_dir [] dir_path = none
get_album_id_for_dir ((path, id) ∷ albums) dir_path =
    let rest = get_album_id_for_dir albums dir_path in
    if path_eq path dir_path then some id else rest

abbrev lookup_in : DirAlbums → Option PathBuf → Option Text
lookup_in albums none = none
lookup_in albums (some up) = get_album_id_for_dir albums up

unfoldable pub get_parent_album_id : DirAlbums → PathBuf → Option Text
get_parent_album_id albums dir_path = lookup_in albums (parent dir_path)

unfoldable pub get_dir_path_for_album : DirAlbums → Text → Option PathBuf
get_dir_path_for_album [] album_id = none
get_dir_path_for_album ((path, id) ∷ albums) album_id =
    let rest = get_dir_path_for_album albums album_id in
    if text_eq id album_id then some path else rest
