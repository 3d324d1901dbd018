-- ===== src/Index.antt =====
-- The working tree index, src/internal/index.rs.
pub mod Flags
pub mod Entry
pub mod Map
pub mod File
pub mod Tests
