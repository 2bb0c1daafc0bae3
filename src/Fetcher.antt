-- ===== src/Fetcher.antt =====
-- The fetcher service of packages/framework/src/services/fetcher/src.
pub mod History
pub mod Entities
mod Examples
