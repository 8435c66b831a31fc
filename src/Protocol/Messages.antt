-- ===== src/Protocol/Messages.antt =====
-- protocol/protocol.go: what two peers send each other outside of the tunnel.
use awl.Base.{Bool, Text}

pub record AuthPeer : Type 0 where
  pub name : Text
  pub token : Text

pub record AuthPeerResponse : Type 0 where
  pub confirmed : Bool
  pub declined : Bool

pub record PeerStatusInfo : Type 0 where
  pub name : Text
  pub declined : Bool
  pub allow_using_as_exit_node : Bool
  pub vpn_gateway_server_enabled : Bool
  pub ipv6_addr : Text
