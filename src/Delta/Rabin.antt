-- ===== src/Delta/Rabin.antt =====
-- The Rabin fingerprint encoder, src/delta/encode/rabin.
pub mod Match
pub mod Tables
pub mod Hash
pub mod Index
pub mod Create
pub mod Encode
