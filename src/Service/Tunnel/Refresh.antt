-- ===== src/Service/Tunnel/Refresh.antt =====
-- service/tunnel.go: RefreshPeersList and Close. `parse_ip` is net.ParseIP.
pub mod Permissions
pub mod After
use awl.Base.{
  ℕ, Bool, true, false, not, ◌&&◌, List, [], ◌∷◌, Option, none, some, Text, Map, lookup, insert,
  remove, values, ◌==◌, length, eqb, if◌then◌else◌,
}
use awl.Config.Types.{Config, KnownPeer}
use awl.Config.Peers.{get_peer}
use awl.Service.Tunnel.{VpnPeer, Tunnel, to4, ip_equal}

abbrev pub IpParser : Type 0
IpParser = Text → Option (List ℕ)

-- net.IP.To4: nil for an IP that is no IPv4 address
abbrev pub as_ipv4 : Option (List ℕ) → Option (List ℕ)
as_ipv4 none = none
as_ipv4 (some ip) = if eqb (length (to4 ip)) 4 then some (to4 ip) else none

-- Equal of two IPs that may be nil
abbrev pub same_ip : Option (List ℕ) → Option (List ℕ) → Bool
same_ip none none = true
same_ip none (some b) = false
same_ip (some a) none = false
same_ip (some a) (some b) = ip_equal a b

abbrev pub map_ip : Option (List ℕ) → Text → Map Text → Map Text
map_ip none id m = m
map_ip (some ip) id m = insert (to4 ip) id m

abbrev pub unmap_ip : Option (List ℕ) → Map Text → Map Text
unmap_ip none m = m
unmap_ip (some ip) m = remove (to4 ip) m

abbrev pub new_vpn_peer : Text → List ℕ → Option (List ℕ) → VpnPeer
new_vpn_peer id ip ip_v6 = record {
  peer_id = id;
  local_ip = ip;
  local_ip_v6 = ip_v6;
  we_allow_using_as_exit_node = false;
  inbound_ch = [];
  outbound_ch = [];
}

abbrev move_ip : VpnPeer → List ℕ → Map Text → Map Text
move_ip prev ip m =
    if not (ip_equal prev.local_ip ip)
    then insert (to4 ip) prev.peer_id (remove (to4 prev.local_ip) m)
    else m

abbrev move_ip_v6 : VpnPeer → Option (List ℕ) → Map Text → Map Text
move_ip_v6 prev ip_v6 m =
    if not (same_ip prev.local_ip_v6 ip_v6)
    then map_ip ip_v6 prev.peer_id (unmap_ip prev.local_ip_v6 m)
    else m

-- one known peer with a valid IP, by the VpnPeer that it has
abbrev pub refreshed : Tunnel → Text → List ℕ → Option (List ℕ) → Option VpnPeer → Tunnel
refreshed t id ip ip_v6 none = record t {
  peer_id_to_peer = insert id (new_vpn_peer id ip ip_v6) t.peer_id_to_peer;
  net_ip_to_peer = map_ip ip_v6 id (insert (to4 ip) id t.net_ip_to_peer);
}
refreshed t id ip ip_v6 (some prev) = record t {
  peer_id_to_peer =
      insert id
        (record prev {
          local_ip = if not (ip_equal prev.local_ip ip) then ip else prev.local_ip;
          local_ip_v6 = if not (same_ip prev.local_ip_v6 ip_v6) then ip_v6 else prev.local_ip_v6;
        })
        t.peer_id_to_peer;
  net_ip_to_peer = move_ip_v6 prev ip_v6 (move_ip prev ip t.net_ip_to_peer);
}

abbrev pub refresh_peer : Tunnel → KnownPeer → Option (List ℕ) → Option (List ℕ) → Tunnel
refresh_peer t kp none ip_v6 = t
refresh_peer t kp (some ip) ip_v6 =
    refreshed t kp.peer_id ip ip_v6 (lookup kp.peer_id t.peer_id_to_peer)

unfoldable pub refresh_known : IpParser → Tunnel → List KnownPeer → Tunnel
unfolding to4 ip_equal
refresh_known parse_ip t [] = t
refresh_known parse_ip t (kp ∷ kps) =
    refresh_known parse_ip
      (refresh_peer t kp (as_ipv4 (parse_ip kp.ip_addr)) (parse_ip kp.ip_addr_v6)) kps

-- what becomes of a VpnPeer that is closed: it is forgotten, with its IPs
abbrev pub forget : Tunnel → Text → VpnPeer → Tunnel
forget t id vp = record t {
  peer_id_to_peer = remove id t.peer_id_to_peer;
  net_ip_to_peer = unmap_ip vp.local_ip_v6 (remove (to4 vp.local_ip) t.net_ip_to_peer);
}

abbrev pub forget_unless : Tunnel → Text → VpnPeer → Option KnownPeer → Tunnel
forget_unless t id vp (some kp) = t
forget_unless t id vp none = forget t id vp

-- the loop over peerIDToPeer that deletes the unknown peers
unfoldable pub forget_unknown : Tunnel → List VpnPeer → Tunnel
forget_unknown t [] = t
forget_unknown t (vp ∷ vps) =
    forget_unknown (forget_unless t vp.peer_id vp (get_peer t.conf vp.peer_id)) vps

abbrev pub rebound : Tunnel → Option VpnPeer → Tunnel
rebound t none = record t {
  vpn_gateway_client_enabled = false;
  vpn_gateway_peer_id = [];
  vpn_gateway_peer = none;
  vpn_gateway_connected = false;
}
rebound t (some vp) = record t { vpn_gateway_peer = some t.vpn_gateway_peer_id }

unfoldable pub rebind_gateway : Tunnel → Tunnel
rebind_gateway t =
    if t.vpn_gateway_client_enabled
    then rebound t (lookup t.vpn_gateway_peer_id t.peer_id_to_peer)
    else t

abbrev pub with_permission : Bool → VpnPeer → VpnPeer
with_permission allow vp = record vp { we_allow_using_as_exit_node = allow }

abbrev pub permit : Text → Bool → Map VpnPeer → Option VpnPeer → Map VpnPeer
permit id allow m none = m
permit id allow m (some vp) = insert id (with_permission allow vp) m

-- the loop that stores the permissions
unfoldable pub store_permissions : Map VpnPeer → List KnownPeer → Map VpnPeer
store_permissions m [] = m
store_permissions m (kp ∷ kps) =
    store_permissions (permit kp.peer_id kp.we_allow_using_as_exit_node m (lookup kp.peer_id m)) kps

-- RefreshPeersList after the first loop
abbrev pub settle : Tunnel → Tunnel
settle t =
    let t' = rebind_gateway (forget_unknown t (values t.peer_id_to_peer)) in
    record t' {
      peer_id_to_peer = store_permissions t'.peer_id_to_peer (values t'.conf.known_peers);
    }

unfoldable pub refresh_peers_list : IpParser → Tunnel → Tunnel
unfolding refresh_known forget_unknown rebind_gateway store_permissions
refresh_peers_list parse_ip t =
    if t.is_closed then t else settle (refresh_known parse_ip t (values t.conf.known_peers))

unfoldable pub forget_all : Tunnel → List VpnPeer → Tunnel
unfolding to4
forget_all t [] = t
forget_all t (vp ∷ vps) = forget_all (forget t vp.peer_id vp) vps

unfoldable pub close : Tunnel → Tunnel
unfolding forget_all
close t = forget_all (record t { is_closed = true }) (values t.peer_id_to_peer)
