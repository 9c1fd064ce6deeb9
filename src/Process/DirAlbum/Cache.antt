-- ===== src/Process/DirAlbum/Cache.antt =====
-- backend/src/process/dir_album.rs: the writes to the cache of directory albums and to the set of
-- albums that wait for an update.
use picasu.Prelude.{Bool, true, false, Option, none, some, List, [], ◌∷◌, if◌then◌else◌, map_or}
use picasu.Model.Text.{Text, has_text}
use picasu.Model.Assets.{AssetRecord, MetadataRecord, album_payload}
use picasu.Process.DirAlbum.{
  PathBuf, component_eq, path_eq, components, join, DirAlbums, get_album_id_for_dir,
}

-- `Path::strip_prefix`
unfoldable pub strip_prefix : PathBuf → PathBuf → Option PathBuf
strip_prefix path [] = some path
strip_prefix [] (d ∷ prefix) = none
strip_prefix (c ∷ path) (d ∷ prefix) =
    let rest = strip_prefix path prefix in if component_eq c d then rest else none

-- `Path::starts_with`
unfoldable pub lies_under : PathBuf → PathBuf → Bool
lies_under path prefix = map_or false (λ rel. true) (strip_prefix path prefix)

-- `insert` and `remove` of the map
unfoldable pub cache_insert : PathBuf → Text → DirAlbums → DirAlbums
cache_insert dir id [] = (dir, id) ∷ []
cache_insert dir id ((path, old) ∷ cache) =
    let rest = cache_insert dir id cache in
    if path_eq path dir then (path, id) ∷ cache else (path, old) ∷ rest

unfoldable pub cache_remove : PathBuf → DirAlbums → DirAlbums
cache_remove dir [] = []
cache_remove dir ((path, id) ∷ cache) =
    let rest = cache_remove dir cache in if path_eq path dir then rest else (path, id) ∷ rest

unfoldable pub evict_dir_album : PathBuf → DirAlbums → DirAlbums
evict_dir_album dir cache = cache_remove dir cache

-- The entries that `rewrite_dir_album_cache_prefix` collects.
unfoldable pub matching : PathBuf → DirAlbums → DirAlbums
matching old_prefix [] = []
matching old_prefix ((path, id) ∷ cache) =
    let rest = matching old_prefix cache in
    if lies_under path old_prefix then (path, id) ∷ rest else rest

-- The body of its loop.
unfoldable pub rekey : PathBuf → PathBuf → PathBuf → Text → DirAlbums → DirAlbums
rekey old_prefix new_prefix old_path id cache = elim (strip_prefix old_path old_prefix) [
  | none ↦ cache_remove old_path cache
  | some rel ↦ cache_insert (join new_prefix rel) id (cache_remove old_path cache)
]

unfoldable pub rekey_all : PathBuf → PathBuf → DirAlbums → DirAlbums → DirAlbums
rekey_all old_prefix new_prefix [] cache = cache
rekey_all old_prefix new_prefix ((old_path, id) ∷ ms) cache =
    rekey_all old_prefix new_prefix ms (rekey old_prefix new_prefix old_path id cache)

unfoldable pub rewrite_dir_album_cache_prefix : PathBuf → PathBuf → DirAlbums → DirAlbums
rewrite_dir_album_cache_prefix old_prefix new_prefix cache =
    rekey_all old_prefix new_prefix (matching old_prefix cache) cache

-- `PENDING_ALBUM_UPDATES`
abbrev pub Pending : Type 0
Pending = List Text

unfoldable pub mark_album_for_update : Text → Pending → Pending
mark_album_for_update id pending = if has_text id pending then pending else id ∷ pending

-- What is drained, and the set that is left.
unfoldable pub drain_pending_album_updates : Pending → List Text × Pending
drain_pending_album_updates pending = (pending, [])

unfoldable pub mark_dir_albums_for_path : PathBuf → DirAlbums → Pending → Pending
mark_dir_albums_for_path file [] pending = pending
mark_dir_albums_for_path file ((dir, id) ∷ cache) pending =
    mark_dir_albums_for_path file cache
      (if lies_under file dir then mark_album_for_update id pending else pending)

unfoldable pub reset_dir_album_cache : DirAlbums → Pending → DirAlbums × Pending
reset_dir_album_cache cache pending = ([], [])

-- `created` is the answer of `write_album_to_db`, which is called only for a directory without an album.
unfoldable pub get_or_create_dir_album : PathBuf → Option Text → DirAlbums → DirAlbums × Option Text
get_or_create_dir_album dir created cache = elim (get_album_id_for_dir cache dir) [
  | some id ↦ (cache, some id)
  | none ↦ elim created [ none ↦ (cache, none) | some id ↦ (cache_insert dir id cache, some id) ]
]

-- One row of `METADATA_TABLE` with the asset record that its key has, if it decodes.
abbrev pub Row : Type 0
Row = MetadataRecord × Option AssetRecord

abbrev load_album : (Text → Bool) → Option AssetRecord → DirAlbums → DirAlbums
load_album is_dir none cache = cache
load_album is_dir (some r) cache =
    if is_dir r.path then cache_insert (components r.path) r.asset_id cache else cache

unfoldable pub load_row : (Text → Bool) → Row → DirAlbums → DirAlbums
load_row is_dir (album_payload p, r) cache = load_album is_dir r cache
load_row is_dir (_, r) cache = cache

unfoldable pub load_rows : (Text → Bool) → List Row → DirAlbums → DirAlbums
load_rows is_dir [] cache = cache
load_rows is_dir (row ∷ rows) cache = load_rows is_dir rows (load_row is_dir row cache)

unfoldable pub mark_all : DirAlbums → Pending → Pending
mark_all [] pending = pending
mark_all ((path, id) ∷ cache) pending = mark_all cache (mark_album_for_update id pending)

-- `is_dir` is the question to the file system.
unfoldable pub init_dir_album_cache :
    (Text → Bool) → List Row → DirAlbums → Pending → DirAlbums × Pending
init_dir_album_cache is_dir rows cache pending =
    let loaded = load_rows is_dir rows cache in (loaded, mark_all loaded pending)
