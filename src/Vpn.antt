-- ===== src/Vpn.antt =====
-- vpn/: the packet format of the tunnel.
pub mod Bytes
pub mod Packet
pub mod Checksum
pub mod UpperLayer
pub mod Recalculate
pub mod Netstate
pub mod SwappableTun
