-- ===== src/Service/Tunnel/Routes.antt =====
-- Which packets of the device go to whom, and with which tag.
use awl.Base.{
  ◌≤◌, ◌≡◌, refl, sym, Bool, true, false, not, ◌&&◌, ◌||◌, Option, none, some, arith, Text, lookup,
  Bool-cases, ◌⊎◌, inl, inr, length, subst,
}
use awl.Vpn.Packet.{Packet, GatewayDir, return, src_bytes, dst_bytes}
use awl.Service.Tunnel.{VpnPeer, Tunnel, to4, is_awl_subnet, is_non_routable_ip}
use awl.Service.Tunnel.Outbound.{
  Route, to_dns, to_broadcast, unrouted, refused_by_gateway, to_peer, to_gateway, is_dns, peer_of,
  dir_to_peer, is_broadcast, gateway_route, not_p2p, p2p_route, route,
}

abbrev destination : Tunnel → Packet → Option VpnPeer
destination t p = peer_of t (lookup (to4 (dst_bytes p)) t.net_ip_to_peer)

-- the tag that a packet to a peer leaves with
abbrev TagOf : Tunnel → VpnPeer → Packet → GatewayDir → Type 0
TagOf t vp p d =
    (d ≡ p.gateway_dir)
    ⊎ ((d ≡ return)
        × (vp.we_allow_using_as_exit_node ≡ true)
        × (t.vpn_gateway_server_enabled ≡ true)
        × (is_awl_subnet t (src_bytes p) p.is_ipv6 ≡ false))

-- What each route says of the packet.
abbrev pub Routed : Tunnel → Packet → Route → Type 0
Routed t p to_dns = is_dns t.dns_ip (dst_bytes p) ≡ true
Routed t p (to_peer vp d) =
    (is_dns t.dns_ip (dst_bytes p) ≡ false) × (destination t p ≡ some vp) × TagOf t vp p d
Routed t p to_broadcast = (p.is_ipv6 ≡ false) × (is_broadcast t p ≡ true) × (destination t p ≡ none)
Routed t p (to_gateway id) =
    (t.vpn_gateway_client_enabled ≡ true)
    × (t.vpn_gateway_peer ≡ some id)
    × (destination t p ≡ none)
    × (is_broadcast t p ≡ false)
    × (is_non_routable_ip (dst_bytes p) ≡ false)
    × (is_awl_subnet t (dst_bytes p) p.is_ipv6 ≡ false)
Routed t p refused_by_gateway =
    (is_non_routable_ip (dst_bytes p) || is_awl_subnet t (dst_bytes p) p.is_ipv6) ≡ true
Routed t p unrouted =
    (destination t p ≡ none)
    × (is_broadcast t p ≡ false)
    × ((t.vpn_gateway_client_enabled ≡ false) ⊎ (t.vpn_gateway_peer ≡ none))

and3 : (a b c : Bool) → (a && b && c) ≡ true → (a ≡ true) × (b ≡ true) × (c ≡ true)
and3 a b c h = (ground (arith, h), ground (arith, h), ground (arith, h))

tag_lem : (t : Tunnel) (vp : VpnPeer) (p : Packet) → TagOf t vp p (dir_to_peer t vp p)
unfolding dir_to_peer
tag_lem t vp p =
    let inside = is_awl_subnet t (src_bytes p) p.is_ipv6 in
    let test = vp.we_allow_using_as_exit_node && t.vpn_gateway_server_enabled && not inside in
    elim (Bool-cases test) [
      | inl e ↦
          let (a, b, c) =
            and3 vp.we_allow_using_as_exit_node t.vpn_gateway_server_enabled (not inside) e in
          inr (ground (arith, e), a, b, ground (arith, c))
      | inr e ↦ inl (ground (arith, e))
    ]

gateway_route_lem :
    (t : Tunnel) (p : Packet) (o : Option Text)
    → t.vpn_gateway_client_enabled ≡ true
    → t.vpn_gateway_peer ≡ o
    → destination t p ≡ none
    → is_broadcast t p ≡ false
    → Routed t p (gateway_route t p o)
gateway_route_lem t p none c e d b = (d, b, inr e)
gateway_route_lem t p (some gw) c e d b =
    let refused = is_non_routable_ip (dst_bytes p) || is_awl_subnet t (dst_bytes p) p.is_ipv6 in
    elim (Bool-cases refused) [
      | inl r ↦
          subst (Routed t p)
            (sym (let q : gateway_route t p (some gw) ≡ refused_by_gateway = rw r refl in q)) r
      | inr r ↦
          subst (Routed t p)
            (sym (let q : gateway_route t p (some gw) ≡ to_gateway gw = rw r refl in q))
            (c, e, d, b, ground (arith, r), ground (arith, r))
    ]

not_p2p_lem : (t : Tunnel) (p : Packet) → destination t p ≡ none → Routed t p (not_p2p t p)
not_p2p_lem t p d = elim (Bool-cases (is_broadcast t p)) [
  | inl b ↦
      let q : not_p2p t p ≡ to_broadcast = rw b refl in
      subst (Routed t p) (sym q) (ground (arith, b), b, d)
  | inr b ↦ elim (Bool-cases t.vpn_gateway_client_enabled) [
    | inl c ↦
        let q : not_p2p t p ≡ gateway_route t p t.vpn_gateway_peer = simp (b, c) refl in
        subst (Routed t p) (sym q) (gateway_route_lem t p t.vpn_gateway_peer c refl d b)
    | inr c ↦
        let q : not_p2p t p ≡ unrouted = simp (b, c) refl in
        subst (Routed t p) (sym q) (d, b, inl c)
  ]
]

p2p_route_lem :
    (t : Tunnel) (p : Packet) (o : Option VpnPeer)
    → is_dns t.dns_ip (dst_bytes p) ≡ false
    → destination t p ≡ o
    → Routed t p (p2p_route t p o)
p2p_route_lem t p (some vp) n e = (n, e, tag_lem t vp p)
p2p_route_lem t p none n e = not_p2p_lem t p e

-- The route of a packet from the device. To a peer goes only what is addressed to that peer, and it
-- is tagged as returned, unless it was already, only for a peer that may use us as exit node, by an enabled
-- gateway server, with a source outside the subnet. To the gateway goes only, with client mode
-- enabled, what no peer has the IP of, is no broadcast, and is neither non-routable nor inside
-- the subnet.
pub route_lem : (t : Tunnel) (p : Packet) → Routed t p (route t p)
unfolding route
route_lem t p = elim (Bool-cases (is_dns t.dns_ip (dst_bytes p))) [
  | inl e ↦ let q : route t p ≡ to_dns = rw e refl in subst (Routed t p) (sym q) e
  | inr e ↦
      let q : route t p ≡ p2p_route t p (destination t p) = rw e refl in
      subst (Routed t p) (sym q) (p2p_route_lem t p (destination t p) e refl)
]

-- No channel holds more packets than its capacity.
abbrev pub Bounded : VpnPeer → Type 0
Bounded vp = length vp.outbound_ch ≤ 2000
