-- ===== src/Service/Socks5.antt =====
-- service/socks5.go: who may use the node as an exit, and which peer its own connections use. What is
-- done with a stream or a connection is the result; the relays and the metrics are left out.
pub mod Gates
use awl.Base.{
  ℕ, Bool, true, false, not, ◌&&◌, ◌||◌, List, [], ◌∷◌, Option, none, some, Text, Map, lookup,
  values, is_empty, ltb, eqb, if◌then◌else◌,
}
use awl.Config.Types.{Config, KnownPeer, display_name, can_use_as_vpn_gateway}
use awl.Config.Peers.{get_peer}

-- the protocols of a stream: with the handshake of SOCKS5, and without it
pub data Protocol : Type 0 where
  packet_method no_auth_method : Protocol

-- what becomes of a peer's stream before it is reset
pub data Served : Type 0 where
  denied proxying_disabled server_failure_reply serve_no_auth serve : Served

abbrev pub served_by : Protocol → Served
served_by packet_method = serve
served_by no_auth_method = serve_no_auth

abbrev pub disabled_by : Protocol → Served
disabled_by packet_method = server_failure_reply
disabled_by no_auth_method = proxying_disabled

abbrev pub known_handler : Bool → Protocol → KnownPeer → Served
known_handler enabled protocol kp =
    if not kp.we_allow_using_as_exit_node
    then denied
    else if not enabled
    then disabled_by protocol
    else served_by protocol

abbrev pub peer_handler : Bool → Protocol → Option KnownPeer → Served
peer_handler enabled protocol none = denied
peer_handler enabled protocol (some kp) = known_handler enabled protocol kp

unfoldable pub proxy_stream_handler : Config → Bool → Protocol → Text → Served
proxy_stream_handler c enabled protocol peer_id = peer_handler enabled protocol (get_peer c peer_id)

pub data ProxyError : Type 0 where
  no_proxy_peer peer_not_allowed peer_connect_failed peer_stream_failed local_auth_failed :
      ProxyError

-- the relay through a peer, or the error that is answered with a failure
pub data Proxied : Type 0 where
  relayed : Text → Protocol → Proxied
  refused : ProxyError → Proxied

-- libp2p, by peer ID: ConnectPeer works, and the protocol of NewStreamMulti or none on an error;
-- HandleLocalAuth of the connection works
pub record Peers : Type 0 where
  pub connects : Text → Bool
  pub new_stream : Text → Option Protocol
  pub local_auth : Bool

abbrev pub over_stream : Peers → Text → Option Protocol → Proxied
over_stream p id none = refused peer_stream_failed
over_stream p id (some packet_method) = relayed id packet_method
over_stream p id (some no_auth_method) =
    if p.local_auth then relayed id no_auth_method else refused local_auth_failed

abbrev pub through : Peers → KnownPeer → Proxied
through p kp =
    if p.connects kp.peer_id
    then over_stream p kp.peer_id (p.new_stream kp.peer_id)
    else refused peer_connect_failed

abbrev pub allowed_through : Peers → Option KnownPeer → Proxied
allowed_through p none = refused peer_not_allowed
allowed_through p (some kp) =
    if not kp.allowed_using_as_exit_node then refused peer_not_allowed else through p kp

unfoldable pub proxy_conn : Config → Peers → Proxied
proxy_conn c p =
    if is_empty c.socks5_using_peer_id
    then refused no_proxy_peer
    else allowed_through p (get_peer c c.socks5_using_peer_id)
