-- ===== src/Tests.antt =====
-- Runs of the model on concrete packets, configurations and requests.
pub mod Packets
pub mod Peers
pub mod Nodes
pub mod Hosts
pub mod Firewalls
pub mod Gateways
pub mod Devices
pub mod Names
pub mod Proxies
