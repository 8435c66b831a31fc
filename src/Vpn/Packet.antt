-- ===== src/Vpn/Packet.antt =====
-- vpn/packet.go: the packet and its directions. `data.Buffer` is not kept apart: `body` is
-- data.Packet, the bytes of the buffer behind the TUN header, and Src and Dst are windows into it.
pub mod Parse
use awl.Base.{
  ℕ, ◌-◌, ◌+◌, ◌*◌, ◌/◌, ◌%◌, Bool, true, false, not, ◌||◌, List, [], ◌∷◌, Option, none, some,
  length, take, drop, copy_at, ltb, eqb, if◌then◌else◌,
}
use awl.Base.Go.{Go, ok, panic, at, slice, ◌>>=◌}

abbrev pub interface_mtu : ℕ
interface_mtu = 3500

abbrev pub max_content_size : ℕ
max_content_size = interface_mtu + 100

abbrev pub tun_packet_offset : ℕ
tun_packet_offset = 14

abbrev pub max_packet_body_size : ℕ
max_packet_body_size = max_content_size - tun_packet_offset

pub data GatewayDir : Type 0 where
  none_dir forward return : GatewayDir

-- A slice header that aliases `body`: body[off : off+len].
pub record Window : Type 0 where
  pub off : ℕ
  pub len : ℕ

pub record Packet : Type 0 where
  pub body : List ℕ
  pub src : Option Window
  pub dst : Option Window
  pub is_ipv6 : Bool
  pub gateway_dir : GatewayDir
  pub ip_protocol : ℕ
  pub original_src : List ℕ
  pub original_dst : List ℕ
  pub original_valid : Bool

abbrev pub ipv4_len : ℕ
ipv4_len = 4

abbrev pub ipv6_len : ℕ
ipv6_len = 16

abbrev pub ipv4_header_len : ℕ
ipv4_header_len = 20

abbrev pub ipv6_header_len : ℕ
ipv6_header_len = 40

-- The bytes that a window shows; none for a nil slice.
abbrev pub window_bytes : List ℕ → Option Window → List ℕ
window_bytes body none = []
window_bytes body (some w) = take w.len (drop w.off body)

abbrev pub src_bytes : Packet → List ℕ
src_bytes p = window_bytes p.body p.src

abbrev pub dst_bytes : Packet → List ℕ
dst_bytes p = window_bytes p.body p.dst

-- `copy(window, bytes)`: writes through the window into the body.
abbrev pub copy_into : List ℕ → Option Window → List ℕ → List ℕ
copy_into body none bytes = body
copy_into body (some w) bytes = copy_at w.off body (take w.len bytes)

unfoldable pub clear : Packet → Packet
clear p = record p {
  body = [];
  src = none;
  dst = none;
  is_ipv6 = false;
  ip_protocol = 0;
  gateway_dir = none_dir;
  original_valid = false;
}

-- the window, if data.Packet[off : off+len] does not panic
abbrev window_at : List ℕ → ℕ → ℕ → Go (Option Window)
window_at body off len = do
  bytes ← slice body off (off + len)
  ok (some (record { off = off; len = len }))

unfoldable pub set_addrs : Packet → Go Packet
set_addrs p =
    if p.is_ipv6
    then (do
      s ← window_at p.body 8 ipv6_len
      d ← window_at p.body 24 ipv6_len
      ok (record p { src = s; dst = d }))
    else do
      s ← window_at p.body 12 ipv4_len
      d ← window_at p.body 16 ipv4_len
      ok (record p { src = s; dst = d })

-- The copy has a buffer of its own, and its windows are derived anew.
unfoldable pub copy_to : Packet → Go Packet
unfolding set_addrs
copy_to p = elim p.src [ none ↦ ok p | some w ↦ set_addrs p ]

unfoldable pub remember_ipv6_addrs : Packet → Packet
remember_ipv6_addrs p =
    if not p.is_ipv6
      || not (eqb (length (src_bytes p)) ipv6_len)
      || not (eqb (length (dst_bytes p)) ipv6_len)
    then record p { original_valid = false }
    else record p { original_src = src_bytes p; original_dst = dst_bytes p; original_valid = true }

abbrev parse_ipv4 : Packet → ℕ → Go (Packet × Bool)
parse_ipv4 p first =
    let len = length p.body in
    let header_len = first % 16 * 4 in
    if ltb len ipv4_header_len
    then ok (p, false)
    else if ltb header_len ipv4_header_len || ltb len header_len
    then ok (p, false)
    else do
      protocol ← at p.body 9
      q ← set_addrs (record p { ip_protocol = protocol; is_ipv6 = false })
      ok (q, true)

abbrev parse_ipv6 : Packet → Go (Packet × Bool)
parse_ipv6 p = if ltb (length p.body) ipv6_header_len then ok (p, false) else do
  q ← set_addrs (record p { is_ipv6 = true })
  let r = remember_ipv6_addrs q
  protocol ← at r.body 6
  ok (record r { ip_protocol = protocol }, true)

-- Parse, with the packet that it leaves behind.
unfoldable pub parse : Packet → Go (Packet × Bool)
parse p0 =
    let p = record p0 { original_valid = false } in
    if eqb (length p.body) 0 then ok (p, false) else do
      first ← at p.body 0
      if eqb (first / 16) 4
          then parse_ipv4 p first
          else if eqb (first / 16) 6
          then parse_ipv6 p
          else ok (p, false)
