-- ===== src/Tasks/Writer.antt =====
-- backend/src/tasks/queue/writer.rs: the serial database writer and its cascade stage.
pub mod Plan
pub mod System
mod Line
mod Programs
mod Watermark
mod Generations
pub mod Barrier
pub mod Overtaking
mod Tests
