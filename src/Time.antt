-- ===== src/Time.antt =====
-- Date ranges: packages/framework/src/utils/time.ts.
pub mod Range
pub mod Decimal
pub mod Merge
pub mod Clip
mod Examples
