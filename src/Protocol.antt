-- ===== src/Protocol.antt =====
-- protocol/: what travels between two nodes.
pub mod Tunnel
pub mod Messages
