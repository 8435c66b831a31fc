-- ===== src/Vpn/Recalculate/Ipv4.antt =====
-- RecalculateChecksum on IPv4 packets.
use awl.Base.{ℕ, ◌+◌, ◌≤◌, ◌≡◌, false, length, get_or, take, drop, copy_at, eqb, Bool, ◌||◌, ◌&&◌}
use awl.Base.Go.{ok}
use awl.Vpn.Bytes.{put_uint16}
use awl.Vpn.Packet.{Packet, src_bytes, dst_bytes}
use awl.Vpn.Checksum.{checksum_ipv4_header, checksum_ipv4_tcpudp}
use awl.Vpn.UpperLayer.{tcp, udp}
use awl.Vpn.Recalculate.{zero_word}
use awl.Vpn.Recalculate.Fields.{IsIpv4, IsSameBut}

-- What the segment writer leaves behind.
record IsFilled (p : Packet) (header_len protocol field : ℕ) (q : Packet) : Type 0 where
  same : IsSameBut (header_len + field) p q
  header_kept : take header_len q.body ≡ take header_len p.body
  checks : checksum_ipv4_tcpudp (drop header_len q.body) protocol (src_bytes q) (dst_bytes q) ≡ ok 0

-- The byte is of the field of a checksum: at 10 in the header, at 16 in a TCP segment, at 6 in a UDP
-- datagram.
abbrev pub is_field : ℕ → ℕ → ℕ → Bool
is_field header_len protocol j =
    eqb j 10
    || eqb j (10 + 1)
    || eqb protocol tcp && (eqb j (header_len + 16) || eqb j (header_len + 16 + 1))
    || eqb protocol udp && (eqb j (header_len + 6) || eqb j (header_len + 6 + 1))

-- Afterwards the header passes the check of RFC 1071, and so does a TCP segment or a UDP datagram
-- whose header is complete, over the pseudo-header of the packet's addresses. Outside of the
-- fields of these checksums nothing has changed.
pub record HasChecksums (p : Packet) (header_len : ℕ) (q : Packet) : Type 0 where
  pub rest : q ≡ record p { body = q.body }
  pub len : length q.body ≡ length p.body
  pub others :
      (j : ℕ)
      → is_field header_len (get_or p.body 9 0) j ≡ false
      → get_or q.body j 0 ≡ get_or p.body j 0
  pub header : checksum_ipv4_header (take header_len q.body) ≡ 0
  pub tcp_segment :
      get_or p.body 9 0 ≡ tcp
      → header_len + 18 ≤ length p.body
      → checksum_ipv4_tcpudp (drop header_len q.body) tcp (src_bytes q) (dst_bytes q) ≡ ok 0
  pub udp_segment :
      get_or p.body 9 0 ≡ udp
      → header_len + 8 ≤ length p.body
      → checksum_ipv4_tcpudp (drop header_len q.body) udp (src_bytes q) (dst_bytes q) ≡ ok 0

-- the packet between the two writers
module _ (p : Packet) (header_len : ℕ) (v : IsIpv4 p header_len) where
  abbrev with_header : Packet
  with_header =
      let blank = copy_at 10 p.body zero_word in
      record p {
        body = copy_at 10 blank (put_uint16 (checksum_ipv4_header (take header_len blank)));
      }
