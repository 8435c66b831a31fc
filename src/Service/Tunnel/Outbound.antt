-- ===== src/Service/Tunnel/Outbound.antt =====
-- service/tunnel.go: HandleReadPackets.
use awl.Base.{
  ℕ, Bool, false, not, ◌&&◌, ◌||◌, List, [], ◌∷◌, ◌++◌, Option, none, some, Text, Map, lookup,
  insert, if◌then◌else◌,
}
use awl.Vpn.Packet.{Packet, GatewayDir, forward, return, src_bytes, dst_bytes}
use awl.Service.Tunnel.{
  VpnPeer, Tunnel, to4, ip_equal, is_awl_subnet, is_non_routable_ip, offer_packet,
}

-- where a packet that was read from the device goes
pub data Route : Type 0 where
  to_dns to_broadcast unrouted refused_by_gateway : Route
  to_peer : VpnPeer → GatewayDir → Route
  to_gateway : Text → Route

abbrev pub is_dns : Option (List ℕ) → List ℕ → Bool
is_dns none dst = false
is_dns (some ip) dst = ip_equal dst ip

-- t.netIPToPeer[dst.String()]
abbrev pub peer_of : Tunnel → Option Text → Option VpnPeer
peer_of t none = none
peer_of t (some id) = lookup id t.peer_id_to_peer

-- the tag of a packet to a peer
unfoldable pub dir_to_peer : Tunnel → VpnPeer → Packet → GatewayDir
dir_to_peer t vp p =
    if vp.we_allow_using_as_exit_node
      && t.vpn_gateway_server_enabled
      && not (is_awl_subnet t (src_bytes p) p.is_ipv6)
    then return
    else p.gateway_dir

abbrev ipv4_bcast : List ℕ
ipv4_bcast = 255 ∷ 255 ∷ 255 ∷ 255 ∷ []

abbrev pub is_broadcast : Tunnel → Packet → Bool
is_broadcast t p =
    not p.is_ipv6
    && (ip_equal (dst_bytes p) t.udp_broadcast_addr || ip_equal (dst_bytes p) ipv4_bcast)

abbrev pub gateway_route : Tunnel → Packet → Option Text → Route
gateway_route t p none = unrouted
gateway_route t p (some gw) =
    if is_non_routable_ip (dst_bytes p) || is_awl_subnet t (dst_bytes p) p.is_ipv6
    then refused_by_gateway
    else to_gateway gw

abbrev pub not_p2p : Tunnel → Packet → Route
not_p2p t p =
    if is_broadcast t p
    then to_broadcast
    else if t.vpn_gateway_client_enabled
    then gateway_route t p t.vpn_gateway_peer
    else unrouted

abbrev pub p2p_route : Tunnel → Packet → Option VpnPeer → Route
p2p_route t p none = not_p2p t p
p2p_route t p (some vp) = to_peer vp (dir_to_peer t vp p)

-- the branch that HandleReadPackets takes
unfoldable pub route : Tunnel → Packet → Route
unfolding ip_equal is_awl_subnet is_non_routable_ip dir_to_peer
route t p =
    if is_dns t.dns_ip (dst_bytes p)
    then to_dns
    else p2p_route t p (peer_of t (lookup (to4 (dst_bytes p)) t.net_ip_to_peer))

-- A full channel leaves the packet with the caller.
abbrev pub sent : Tunnel → Text → VpnPeer → Packet → Option (List Packet) → Tunnel × Option Packet
sent t id vp p none = (t, some p)
sent t id vp p (some ch) = (
  record t { peer_id_to_peer = insert id (record vp { outbound_ch = ch }) t.peer_id_to_peer },
  none,
)

unfoldable pub send_to : Tunnel → Text → VpnPeer → Packet → Tunnel × Option Packet
unfolding offer_packet
send_to t id vp p = sent t id vp p (offer_packet vp.outbound_ch p)

abbrev pub send_to_gateway : Tunnel → Text → Option VpnPeer → Packet → Tunnel × Option Packet
send_to_gateway t id none p = (t, some p)
send_to_gateway t id (some vp) p = send_to t id vp p

abbrev pub offered_copy : VpnPeer → Packet → Option (List Packet) → VpnPeer
offered_copy vp p none = vp
offered_copy vp p (some ch) = record vp { outbound_ch = ch }

-- a copy of the packet to each connected peer; `connected` is p2p.IsConnected
unfoldable pub broadcast_to : (Text → Bool) → Packet → Map VpnPeer → Map VpnPeer
broadcast_to connected p [] = []
broadcast_to connected p ((id, vp) ∷ m) =
    (id, if connected vp.peer_id then offered_copy vp p (offer_packet vp.outbound_ch p) else vp)
    ∷ broadcast_to connected p m

abbrev pub by_route : (Text → Bool) → Tunnel → Packet → Route → Tunnel × Option Packet
by_route connected t p to_dns = (record t { dns_packets = t.dns_packets ++ (p.body ∷ []) }, some p)
by_route connected t p (to_peer vp dir) = send_to t vp.peer_id vp (record p { gateway_dir = dir })
by_route connected t p to_broadcast =
    (record t { peer_id_to_peer = broadcast_to connected p t.peer_id_to_peer }, some p)
by_route connected t p (to_gateway id) =
    send_to_gateway t id (lookup id t.peer_id_to_peer) (record p { gateway_dir = forward })
by_route connected t p refused_by_gateway = (t, some p)
by_route connected t p unrouted = (t, some p)

-- one packet: the tunnel, and the slot of the packet afterwards
unfoldable pub handle_packet : (Text → Bool) → Tunnel → Option Packet → Tunnel × Option Packet
unfolding route send_to broadcast_to
handle_packet connected t none = (t, none)
handle_packet connected t (some p) = by_route connected t p (route t p)

unfoldable pub handle_packets :
    (Text → Bool) → Tunnel → List (Option Packet) → Tunnel × List (Option Packet)
unfolding handle_packet
handle_packets connected t [] = (t, [])
handle_packets connected t (slot ∷ slots) =
    let (t', slot') = handle_packet connected t slot in
    let (t'', slots') = handle_packets connected t' slots in (t'', slot' ∷ slots')

unfoldable pub handle_read_packets :
    (Text → Bool) → Tunnel → List (Option Packet) → Tunnel × List (Option Packet)
unfolding handle_packets
handle_read_packets connected t slots =
    if t.is_closed then (t, slots) else handle_packets connected t slots
