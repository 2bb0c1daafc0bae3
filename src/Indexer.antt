-- ===== src/Indexer.antt =====
-- The indexer service of packages/framework/src/services/indexer/src.
pub mod Requests
pub mod Account
mod Examples
