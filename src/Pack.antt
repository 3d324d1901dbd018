-- ===== src/Pack.antt =====
-- The pack format's codecs: src/internal/pack/utils.rs, src/internal/pack/encode/header.rs and the
-- header check of src/internal/pack/decode.rs.
pub mod Varint
pub mod Header
pub mod Entry
pub mod Waitlist
pub mod Resolve
pub mod Idx
pub mod Object
pub mod Encode
pub mod Decode
