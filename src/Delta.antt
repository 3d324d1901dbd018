-- ===== src/Delta.antt =====
-- The Git delta format, src/delta.
pub mod Size
pub mod Copy
pub mod Decode
pub mod Diff
pub mod Rabin
pub mod Samples
pub mod Tests
