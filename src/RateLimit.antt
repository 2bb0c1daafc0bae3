-- ===== src/RateLimit.antt =====
-- Rate limits: packages/core/src/utils/ratelimit.
pub mod Accurate
pub mod Sparse
pub mod Limiter
mod Examples
