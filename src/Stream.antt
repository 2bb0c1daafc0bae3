-- ===== src/Stream.antt =====
-- Streams: packages/core/src/utils/stream.ts and the buffers of packages/core/src.
pub mod Buffer
pub mod Merge
pub mod Shuffle
mod Examples
