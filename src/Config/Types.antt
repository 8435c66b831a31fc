-- ===== src/Config/Types.antt =====
-- config/config.go: the configuration, as far as peers, invites and the gateway use it. A time is
-- a number of nanoseconds with 0 for the zero Time; a peer ID is kept in its text form.
use awl.Base.{ℕ, ◌+◌, Bool, true, List, Option, Text, Map, if◌then◌else◌, ◌&&◌, is_empty}

pub record KnownPeer : Type 0 where
  pub peer_id : Text
  pub name : Text
  pub alias : Text
  pub ip_addr : Text
  pub ip_addr_v6 : Text
  pub domain_name : Text
  pub created_at : ℕ
  pub last_seen : ℕ
  pub confirmed : Bool
  pub declined : Bool
  pub we_allow_using_as_exit_node : Bool
  pub allowed_using_as_exit_node : Bool
  pub remote_vpn_gateway_server_enabled : Bool
  pub invite_id : Text
  pub pending_invite_token : Text

pub record BlockedPeer : Type 0 where
  pub peer_id : Text
  pub display_name : Text
  pub created_at : ℕ

pub record Invite : Type 0 where
  pub id : Text
  pub token : Text
  pub label : Text
  pub alias : Text
  pub we_allow_using_as_exit_node : Bool
  pub max_uses : ℕ
  pub used_count : ℕ
  pub expires_at : ℕ
  pub created_at : ℕ
  pub revoked : Bool

pub record VpnGatewayConfig : Type 0 where
  pub client_enabled : Bool
  pub gateway_peer_id : Text
  pub client_bypass_cidrs : List Text
  pub server_enabled : Bool

-- saveTrigger: nil, or a channel of capacity one that is empty or full.
pub data SaveTrigger : Type 0 where
  read_only : SaveTrigger
  channel : Bool → SaveTrigger

pub record Config : Type 0 where
  pub known_peers : Map KnownPeer
  pub blocked_peers : Map BlockedPeer
  pub invites : Map Invite
  pub node_name : Text
  pub auto_accept_auth_requests : Bool
  pub socks5_using_peer_id : Text
  pub vpn_gateway : VpnGatewayConfig
  -- VPNConfig.IPNet as net.ParseCIDR reads it: the local address and the prefix length
  pub ip_net : Option (ℕ × ℕ)
  pub local_ip_v6 : Option Text
  pub netstack_dns_ip : Option ℕ
  pub save_trigger : SaveTrigger
  -- whether there is an emitter, and how many KnownPeerChanged events it has had
  pub has_emitter : Bool
  pub known_peer_changes : ℕ

-- a send that does not block
abbrev pub requested : SaveTrigger → SaveTrigger
requested read_only = read_only
requested (channel full) = channel true

unfoldable pub save : Config → Config
save c = record c { save_trigger = requested c.save_trigger }

unfoldable pub emit_known_peer_changed : Config → Config
emit_known_peer_changed c = record c {
  known_peer_changes = if c.has_emitter then c.known_peer_changes + 1 else c.known_peer_changes;
}

-- KnownPeer.DisplayName
unfoldable pub display_name : KnownPeer → Text
display_name kp = if is_empty kp.alias then kp.name else kp.alias

unfoldable pub can_use_as_vpn_gateway : KnownPeer → Bool
can_use_as_vpn_gateway kp = kp.allowed_using_as_exit_node && kp.remote_vpn_gateway_server_enabled
