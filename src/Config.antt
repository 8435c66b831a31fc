-- ===== src/Config.antt =====
-- config/: the persistent configuration, its peers, invites and addresses.
pub mod Types
pub mod Ipv4
pub mod Address
pub mod Peers
pub mod Invites
