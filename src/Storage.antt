-- ===== src/Storage.antt =====
-- The entity storage of packages/core/src/storage.
pub mod Entity
pub mod Keys
mod Examples
