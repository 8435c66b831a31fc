-- ===== src/Protocol/Tunnel.antt =====
-- protocol/tunnel.go: the length prefix of a tunnelled packet. A stream is the list of the bytes
-- that are still to come.
pub mod RoundTrip
use awl.Base.{
  ℕ, ◌+◌, ◌*◌, ◌/◌, ◌%◌, ◌^◌, Bool, true, false, ◌&&◌, List, [], ◌∷◌, ◌++◌, length, take, drop, ltb,
  eqb, if◌then◌else◌,
}
use awl.Vpn.Bytes.{put_uint64, uint64}
use awl.Vpn.Packet.{GatewayDir, none_dir, forward, return, max_packet_body_size}

pub data HeaderError : Type 0 where
  eof unexpected_eof both_flags : HeaderError
  oversized : ℕ → HeaderError

-- The size, the direction and the rest of the stream; or an error.
pub data Header : Type 0 where
  header : ℕ → GatewayDir → List ℕ → Header
  failed : HeaderError → Header

-- v & (1 << k) != 0
abbrev pub has_bit : ℕ → ℕ → Bool
has_bit v k = eqb (v / 2 ^ k % 2) 1

-- v | (1 << k)
abbrev pub set_bit : ℕ → ℕ → ℕ
set_bit v k = if has_bit v k then v else v + 2 ^ k

-- what follows `io.ReadFull`, with `v` the eight bytes read
unfoldable pub decode_header : ℕ → List ℕ → Header
decode_header v rest =
    let fwd = has_bit v 63 in
    let ret = has_bit v 62 in
    let dir = if fwd then forward else if ret then return else none_dir in
    let size = v % 2 ^ 62 in
    if fwd && ret
    then failed both_flags
    else if ltb max_packet_body_size size
    then failed (oversized size)
    else header size dir rest

unfoldable pub read_packet_header : List ℕ → Header
read_packet_header [] = failed eof
read_packet_header (b ∷ bs) =
    if ltb (length (b ∷ bs)) 8
    then failed unexpected_eof
    else decode_header (uint64 (take 8 (b ∷ bs))) (drop 8 (b ∷ bs))

abbrev pub tag : ℕ → GatewayDir → ℕ
tag v none_dir = v
tag v forward = set_bit v 63
tag v return = set_bit v 62

unfoldable pub append_packet_to_buf : List ℕ → List ℕ → GatewayDir → List ℕ
append_packet_to_buf buf packet dir = (buf ++ put_uint64 (tag (length packet) dir)) ++ packet
