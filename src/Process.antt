-- ===== src/Process.antt =====
-- backend/src/process: the directory albums.
pub mod DirAlbum
