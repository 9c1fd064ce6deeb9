-- ===== src/Model.antt =====
-- backend/src/model: the records, and the filters on them.
pub mod Text
pub mod Records
pub mod Fields
pub mod Statistics
pub mod Timestamp
pub mod Assets
pub mod Expression
