-- ===== src/Object.antt =====
-- The objects of a repository: src/internal/object.
pub mod Types
pub mod Names
pub mod Tree
