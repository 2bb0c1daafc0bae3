-- ===== src/Jobs.antt =====
-- The job runner, the helpers for concurrence and the pool of pending work of
-- packages/core/src/utils/concurrence.
pub mod Runner
pub mod Debounced
pub mod Mutex
pub mod Pool
mod Examples
mod Tests
