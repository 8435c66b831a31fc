-- ===== src/Vpn/Recalculate.antt =====
-- vpn/packet.go, RecalculateChecksum: the checksums after src or dst has been rewritten.
pub mod Fields
pub mod Ipv4
use awl.Base.{
  ℕ, suc, ◌+◌, ◌*◌, ◌/◌, ◌%◌, Bool, true, false, not, ◌&&◌, ◌||◌, List, [], ◌∷◌, Option, none, some,
  length, drop, copy_at, ltb, eqb, if◌then◌else◌,
}
use awl.Base.Go.{Go, ok, panic, at, slice, ◌>>=◌}
use awl.Vpn.Bytes.{put_uint16}
use awl.Vpn.Packet.{
  Packet, src_bytes, dst_bytes, ipv4_header_len, ipv6_header_len, ipv6_len, remember_ipv6_addrs,
}
use awl.Vpn.Checksum.{
  checksum_ipv4_header, checksum_ipv4_tcpudp, checksum_ipv6_tcpudp,
  adjust_ipv6_pseudo_header_checksum,
}
use awl.Vpn.UpperLayer.{tcp, udp, icmpv6, Upper, ipv6_upper_layer}

abbrev pub zero_word : List ℕ
zero_word = 0 ∷ 0 ∷ []

-- One transport segment of an IPv4 packet: clear the field, compute, write.
unfoldable pub fill_ipv4 : Packet → ℕ → ℕ → ℕ → Go Packet
fill_ipv4 p header_len protocol field = do
  let blank = copy_at (header_len + field) p.body zero_word
  let q = record p { body = blank }
  segment ← slice blank header_len (length blank)
  checksum ← checksum_ipv4_tcpudp segment protocol (src_bytes q) (dst_bytes q)
  ok (record p { body = copy_at (header_len + field) blank (put_uint16 checksum) })

-- the switch on data.Packet[9]
unfoldable pub transport_ipv4 : Packet → ℕ → Go Packet
transport_ipv4 p header_len = do
  protocol ← at p.body 9
  if eqb protocol tcp
      then (if ltb (length p.body) (header_len + 18)
          then ok p
          else fill_ipv4 p header_len protocol 16)
      else if eqb protocol udp
      then (if ltb (length p.body) (header_len + 8)
          then ok p
          else fill_ipv4 p header_len protocol 6)
      else ok p

-- the IPv4 header checksum, at offset 10
unfoldable pub header_ipv4 : Packet → ℕ → Go Packet
header_ipv4 p header_len = do
  let blank = copy_at 10 p.body zero_word
  header ← slice blank 0 header_len
  ok (record p { body = copy_at 10 blank (put_uint16 (checksum_ipv4_header header)) })

unfoldable pub recalculate_ipv4 : Packet → Go Packet
recalculate_ipv4 p = do
  first ← at p.body 0
  let header_len = first % 16 * 4
  if ltb header_len ipv4_header_len || ltb (length p.body) header_len
      then ok p
      else do q ← header_ipv4 p header_len; transport_ipv4 q header_len

abbrev pub checksum_offset : ℕ → Option ℕ
checksum_offset protocol =
    if eqb protocol tcp
    then some 16
    else if eqb protocol udp
    then some 6
    else if eqb protocol icmpv6
    then some 2
    else none

-- A zero UDP checksum is sent as 0xffff over IPv6.
abbrev pub nonzero_udp : ℕ → ℕ → ℕ
nonzero_udp protocol checksum = if eqb protocol udp && eqb checksum 0 then 65535 else checksum

-- the first fragment: the checksum is adjusted for the change of addresses
unfoldable pub adjust_fragment : Packet → ℕ → ℕ → ℕ → Go Packet
adjust_fragment p protocol offset field = do
  transport ← slice p.body offset (length p.body)
  if ltb (length transport) (field + 2) then ok (remember_ipv6_addrs p) else do
    hi ← at transport field
    lo ← at transport (field + 1)
    checksum ←
        adjust_ipv6_pseudo_header_checksum (hi * 256 + lo) p.original_src p.original_dst
          (src_bytes p) (dst_bytes p)
    let bytes = put_uint16 (nonzero_udp protocol checksum)
    ok (remember_ipv6_addrs (record p { body = copy_at (offset + field) p.body bytes }))

unfoldable pub recalculate_fragment : Packet → Upper → Go Packet
recalculate_fragment p u =
    if not u.first_fragment || not p.original_valid
    then ok (remember_ipv6_addrs p)
    else elim (checksum_offset u.protocol) [
      | none ↦ ok (remember_ipv6_addrs p)
      | some field ↦ adjust_fragment p u.protocol u.offset field
    ]

-- a whole segment, whose header is at least `needed` bytes long
unfoldable pub fill_ipv6 : Packet → ℕ → ℕ → ℕ → ℕ → Go Packet
fill_ipv6 p protocol offset field needed = do
  payload ← slice p.body offset (length p.body)
  if ltb (length payload) needed then ok p else do
    let blank = copy_at (offset + field) p.body zero_word
    let q = record p { body = blank }
    segment ← slice blank offset (length blank)
    checksum ← checksum_ipv6_tcpudp segment protocol (src_bytes q) (dst_bytes q)
    let bytes = put_uint16 (nonzero_udp protocol checksum)
    ok (remember_ipv6_addrs (record p { body = copy_at (offset + field) blank bytes }))

unfoldable pub recalculate_whole : Packet → Upper → Go Packet
recalculate_whole p u =
    if eqb u.protocol tcp
    then fill_ipv6 p tcp u.offset 16 18
    else if eqb u.protocol udp
    then fill_ipv6 p udp u.offset 6 8
    else if eqb u.protocol icmpv6
    then fill_ipv6 p icmpv6 u.offset 2 4
    else do payload ← slice p.body u.offset (length p.body); ok (remember_ipv6_addrs p)

unfoldable pub recalculate_ipv6 : Packet → Go Packet
recalculate_ipv6 p =
    if ltb (length p.body) ipv6_header_len
      || not (eqb (length (src_bytes p)) ipv6_len)
      || not (eqb (length (dst_bytes p)) ipv6_len)
    then ok p
    else do
      u ← ipv6_upper_layer p.body
      let q = record p { ip_protocol = u.protocol }
      if not u.found
          then ok p
          else if u.fragmented
          then recalculate_fragment q u
          else recalculate_whole q u

unfoldable pub recalculate_checksum : Packet → Go Packet
unfolding recalculate_ipv6 recalculate_ipv4
recalculate_checksum p = if p.is_ipv6 then recalculate_ipv6 p else recalculate_ipv4 p
