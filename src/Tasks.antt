-- ===== src/Tasks.antt =====
-- backend/src/tasks: the background tasks.
pub mod Intake
pub mod Priority
pub mod Writer
pub mod AlbumIndex
