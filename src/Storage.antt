-- ===== src/Storage.antt =====
-- backend/src/storage and the flush into it: the tables of assets.
pub mod AssetStore
pub mod Files
pub mod Flush
