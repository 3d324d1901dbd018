-- ===== src/Protocol.antt =====
-- The smart protocol: src/protocol.
pub mod PktLine
