-- ===== src/Service.antt =====
-- service/: what a node does with its peers.
pub mod AuthStatus
pub mod Tunnel
pub mod VpnGateway
pub mod Socks5
