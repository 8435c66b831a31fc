-- ===== src/Protocol/Tunnel/RoundTrip.antt =====
-- The length prefix as it is sent and as it is read.
use mathlib.Core.List.{append_assoc}
use awl.Base.{ℕ, ◌≤◌, ◌<◌, ◌^◌, ◌≡◌, ap, ◌∙◌, ltb-false, List, [], ◌++◌, arith, length}
use awl.Vpn.Bytes.{put_uint64, uint64-put_uint64}
use awl.Vpn.Packet.{GatewayDir, none_dir, forward, return, max_packet_body_size}
use awl.Protocol.Tunnel.{header, tag, decode_header, read_packet_header, append_packet_to_buf}

tag-lt : (n : ℕ) (dir : GatewayDir) → n < 2 ^ 62 → tag n dir < 2 ^ 64
tag-lt n none_dir h = omega arith
tag-lt n forward h = ground arith
tag-lt n return h = ground arith

decode_header-tag :
    (n : ℕ) (dir : GatewayDir) (rest : List ℕ)
    → n ≤ max_packet_body_size
    → decode_header (tag n dir) rest ≡ header n dir rest
unfolding decode_header
decode_header-tag n none_dir rest h = ground arith
decode_header-tag n forward rest h = ground arith
decode_header-tag n return rest h = ground arith

-- a stream that begins with the eight bytes of a number
read-put_uint64 :
    (v : ℕ) (rest : List ℕ)
    → v < 2 ^ 64
    → read_packet_header (put_uint64 v ++ rest) ≡ decode_header v rest
unfolding read_packet_header put_uint64
read-put_uint64 v rest h =
    rw (ltb-false (length (put_uint64 v ++ rest)) 8 (omega arith))
      (ap (λ n. decode_header n rest) (uint64-put_uint64 v h))

-- For every body of at most `max_packet_body_size` bytes and every direction, reading the header
-- of the appended frame yields the body's length and that direction, and leaves exactly the body
-- and what follows it in the stream.
pub read-append :
    (packet rest : List ℕ) (dir : GatewayDir)
    → length packet ≤ max_packet_body_size
    → read_packet_header (append_packet_to_buf [] packet dir ++ rest)
      ≡ header (length packet) dir (packet ++ rest)
unfolding append_packet_to_buf
read-append packet rest dir h = rw append_assoc (
    read-put_uint64 (tag (length packet) dir) (packet ++ rest)
      (tag-lt (length packet) dir (omega arith))
    ∙ decode_header-tag (length packet) dir (packet ++ rest) h)
