-- ===== src/Service/Tunnel.antt =====
-- service/tunnel.go: the tunnel's state. A *VpnPeer is its peer ID, under which peer_id_to_peer has
-- it; an IP is its bytes, and net.IP.String, Equal and Contains read it by `to4`.
pub mod Inbound
pub mod Outbound
pub mod Gateway
pub mod Refresh
pub mod Rules
pub mod Routes
use awl.Base.{
  ℕ, zero, suc, ◌+◌, ◌-◌, ◌*◌, ◌/◌, ◌%◌, ◌^◌, Bool, true, false, not, ◌&&◌, ◌||◌, List, [], ◌∷◌,
  ◌++◌, Option, none, some, Text, Map, lookup, insert, remove, ◌==◌, length, take, drop, get_or,
  ltb, leb, eqb, if◌then◌else◌,
}
use awl.Config.Types.{Config}
use awl.Vpn.Packet.{Packet}

abbrev pub packet_handlers_chan_cap : ℕ
packet_handlers_chan_cap = 2000

pub record VpnPeer : Type 0 where
  pub peer_id : Text
  pub local_ip : List ℕ
  pub local_ip_v6 : Option (List ℕ)
  pub we_allow_using_as_exit_node : Bool
  pub inbound_ch : List Packet
  pub outbound_ch : List Packet

-- net.IPNet: the address and the length of the mask
pub record IpNet : Type 0 where
  pub ip : List ℕ
  pub prefix_len : ℕ

pub record Tunnel : Type 0 where
  pub conf : Config
  pub is_closed : Bool
  pub peer_id_to_peer : Map VpnPeer
  -- from an IP to a peer ID
  pub net_ip_to_peer : Map Text
  pub udp_broadcast_addr : List ℕ
  pub vpn_gateway_client_enabled : Bool
  pub vpn_gateway_peer_id : Text
  pub vpn_gateway_peer : Option Text
  pub vpn_gateway_server_enabled : Bool
  pub awl_subnet : IpNet
  pub awl_subnet6 : Option IpNet
  pub vpn_gateway_connected : Bool
  -- the VPNGatewayConnectivityChanged events
  pub connectivity_events : List (Bool × Text)
  -- the DNS handler's IP, and what it was handed
  pub dns_ip : Option (List ℕ)
  pub dns_packets : List (List ℕ)

abbrev mapped_prefix : List ℕ
mapped_prefix = 0 ∷ 0 ∷ 0 ∷ 0 ∷ 0 ∷ 0 ∷ 0 ∷ 0 ∷ 0 ∷ 0 ∷ 255 ∷ 255 ∷ []

-- an IP that maps an IPv4 address is that address
unfoldable pub to4 : List ℕ → List ℕ
to4 ip = if eqb (length ip) 16 && take 12 ip == mapped_prefix then drop 12 ip else ip

-- net.IP.Equal; a nil IP equals only a nil one
unfoldable pub ip_equal : List ℕ → List ℕ → Bool
unfolding to4
ip_equal a b = to4 a == to4 b

abbrev pub number : ℕ → List ℕ → ℕ
number acc [] = acc
number acc (b ∷ bs) = number (acc * 256 + b) bs

-- net.IPNet.Contains: the same length, and the same first bits
unfoldable pub net_contains : IpNet → List ℕ → Bool
unfolding to4
net_contains n ip =
    let host = 2 ^ (8 * length (to4 n.ip) - n.prefix_len) in
    eqb (length (to4 ip)) (length (to4 n.ip))
    && eqb (number 0 (to4 ip) / host) (number 0 (to4 n.ip) / host)

unfoldable pub is_awl_subnet : Tunnel → List ℕ → Bool → Bool
is_awl_subnet t ip is_ipv6 =
    if is_ipv6
    then elim t.awl_subnet6 [ none ↦ false | some n ↦ net_contains n ip ]
    else net_contains t.awl_subnet ip

-- IsMulticast, which covers the link-local multicast addresses
abbrev is_multicast : List ℕ → Bool
is_multicast ip =
    if eqb (length ip) 4
    then eqb (get_or ip 0 0 / 16) 14
    else eqb (length ip) 16 && eqb (get_or ip 0 0) 255

abbrev is_link_local : List ℕ → Bool
is_link_local ip =
    if eqb (length ip) 4
    then eqb (get_or ip 0 0) 169 && eqb (get_or ip 1 0) 254
    else eqb (length ip) 16 && eqb (get_or ip 0 0) 254 && eqb (get_or ip 1 0 / 64) 2

abbrev is_loopback : List ℕ → Bool
is_loopback ip =
    if eqb (length ip) 4 then eqb (get_or ip 0 0) 127 else eqb (length ip) 16 && eqb (number 0 ip) 1

unfoldable pub is_non_routable_ip : List ℕ → Bool
unfolding to4
is_non_routable_ip ip = is_loopback (to4 ip) || is_link_local (to4 ip) || is_multicast (to4 ip)

-- a send that does not block: the channel, or none if it is full
unfoldable pub offer_packet : List Packet → Packet → Option (List Packet)
offer_packet ch p = if ltb (length ch) packet_handlers_chan_cap then some (ch ++ (p ∷ [])) else none
