-- ===== src/Vpn/UpperLayer.antt =====
-- vpn/packet.go, ipv6UpperLayer: the walk over the extension headers of an IPv6 packet.
use awl.Base.{
  ℕ, zero, suc, ◌+◌, ◌*◌, ◌/◌, ◌≤◌, Bool, true, false, ◌||◌, List, arith, length, get_or, ltb, eqb,
  if◌then◌else◌,
}
use awl.Base.Go.{Go, ok, at, ◌>>=◌, Returns, at-get_or}
use awl.Vpn.Packet.{ipv6_header_len}

abbrev pub tcp : ℕ
tcp = 6

abbrev pub udp : ℕ
udp = 17

abbrev pub icmpv6 : ℕ
icmpv6 = 58

-- the cases of the switch on the next header
pub data Kind : Type 0 where
  transport options fragment unsupported other : Kind

unfoldable pub kind : ℕ → Kind
kind next =
    if eqb next tcp || eqb next udp || eqb next icmpv6
    then Kind.transport
    else if eqb next 0 || eqb next 60
    then Kind.options
    else if eqb next 44
    then Kind.fragment
    else if eqb next 43 || eqb next 50 || eqb next 51 || eqb next 59
    then Kind.unsupported
    else Kind.other

-- The five results. `found` is the last one, `ok`.
pub record Upper : Type 0 where
  pub protocol : ℕ
  pub offset : ℕ
  pub fragmented : Bool
  pub first_fragment : Bool
  pub found : Bool

abbrev pub refused : Upper
refused = record {
  protocol = 0;
  offset = 0;
  fragmented = false;
  first_fragment = false;
  found = false;
}

abbrev pub found_at : ℕ → ℕ → Bool → Bool → Bool → Upper
found_at next offset fragmented first found = record {
  protocol = next;
  offset = offset;
  fragmented = fragmented;
  first_fragment = first;
  found = found;
}

-- The loop, with the rounds that are left.
unfoldable pub walk : ℕ → List ℕ → ℕ → ℕ → Bool → Bool → Go Upper
walk zero packet next offset fragmented first = ok refused
walk (suc n) packet next offset fragmented first = elim (kind next) [
  | Kind.transport ↦ ok (found_at next offset fragmented first true)
  | Kind.options ↦ if ltb (length packet) (offset + 2) then ok refused else do
    units ← at packet (offset + 1)
    let header_len = (units + 1) * 8
    if ltb header_len 8 || ltb (length packet) (offset + header_len)
        then ok refused
        else do next' ← at packet offset; walk n packet next' (offset + header_len) fragmented first
  | Kind.fragment ↦ if ltb (length packet) (offset + 8) then ok refused else do
    hi ← at packet (offset + 2)
    lo ← at packet (offset + 3)
    next' ← at packet offset
    let first' = eqb ((hi * 256 + lo) / 8) 0
    if first'
        then walk n packet next' (offset + 8) true true
        else ok (found_at next' (offset + 8) true false true)
  | Kind.unsupported ↦ ok (found_at next offset fragmented first false)
  | Kind.other ↦ ok (found_at next offset fragmented first true)
]

unfoldable pub ipv6_upper_layer : List ℕ → Go Upper
ipv6_upper_layer packet =
    if ltb (length packet) ipv6_header_len
    then ok refused
    else do next ← at packet 6; walk 16 packet next ipv6_header_len false true

-- The offset that is found lies inside the packet, or at its end.
abbrev pub Within : List ℕ → Upper → Type 0
Within packet u = u.offset ≤ length packet

walk_total :
    (n : ℕ) (packet : List ℕ) (next offset : ℕ) (fragmented first : Bool)
    → offset ≤ length packet
    → Returns (Within packet) (walk n packet next offset fragmented first)
unfolding walk
walk_total zero packet next offset fragmented first h = omega arith
walk_total (suc n) packet next offset fragmented first h =
    let units : ℕ = get_or packet (offset + 1) 0 in
    let next' : ℕ = get_or packet offset 0 in
    ground (
      arith,
      at-get_or packet offset,
      at-get_or packet (offset + 1),
      at-get_or packet (offset + 2),
      at-get_or packet (offset + 3),
      walk_total n packet next' (offset + (units + 1) * 8) fragmented first,
      walk_total n packet next' (offset + 8) true true,
    )

-- For every packet the walk returns without a panic, at an offset inside the packet.
pub upper_layer_total : (packet : List ℕ) → Returns (Within packet) (ipv6_upper_layer packet)
unfolding ipv6_upper_layer
upper_layer_total packet =
    let next : ℕ = get_or packet 6 0 in
    ground (arith, at-get_or packet 6, walk_total 16 packet next 40 false true)
