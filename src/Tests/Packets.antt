-- ===== src/Tests/Packets.antt =====
-- Packets, checksums, frames and the ring buffer, on concrete bytes.
use awl.Base.{ℕ, ◌+◌, ◌≡◌, refl, false, List, [], ◌∷◌, ◌++◌, arith, replicate}
use awl.Base.Go.{ok, Returns}
use awl.Vpn.Packet.{Packet, none_dir, forward, parse}
use awl.Vpn.Packet.Parse.{parse_total, window, Parsed}
use awl.Vpn.Checksum.{fold, fold_carries, adjust_ipv6_pseudo_header_checksum}
use awl.Vpn.Checksum.Words.{word_sum}
use awl.Vpn.Checksum.Adjust.{adjust_keeps_valid}
use awl.Vpn.UpperLayer.{ipv6_upper_layer, upper_layer_total, Within}
use awl.Protocol.Tunnel.{read_packet_header, append_packet_to_buf, header}
use awl.Protocol.Tunnel.RoundTrip.{read-append}
use awl.RingBuffer.{RingBuffer, new, write}
use awl.RingBuffer.History.{IsValid, IsWritten, write-IsWritten}

-- a UDP datagram of nine bytes, from 10.66.0.2 to 10.66.0.1, with the checksums still unset
abbrev datagram : List ℕ
datagram =
    69 ∷ 0 ∷ 0 ∷ 29 ∷ 0 ∷ 0 ∷ 0 ∷ 0 ∷ 64 ∷ 17 ∷ 0 ∷ 0 ∷ 10 ∷ 66 ∷ 0 ∷ 2 ∷ 10 ∷ 66 ∷ 0 ∷ 1 ∷ 4 ∷ 210
    ∷ 0 ∷ 53 ∷ 0 ∷ 9 ∷ 0 ∷ 0 ∷ 97 ∷ []

abbrev pub udp_packet : Packet
udp_packet = record {
  body = datagram;
  src = window 12 4;
  dst = window 16 4;
  is_ipv6 = false;
  gateway_dir = none_dir;
  ip_protocol = 17;
  original_src = [];
  original_dst = [];
  original_valid = false;
}

parse_total_example : Returns (Parsed datagram) (parse udp_packet)
parse_total_example = parse_total udp_packet

-- an IPv6 header whose next header is the hop-by-hop options, and those options before UDP
abbrev with_options : List ℕ
with_options =
    96 ∷ 0 ∷ 0 ∷ 0 ∷ 0 ∷ 16 ∷ 0 ∷ 64 ∷ replicate 32 1
    ++ (17 ∷ 0 ∷ 0 ∷ 0 ∷ 0 ∷ 0 ∷ 0 ∷ 0 ∷ replicate 8 0)

upper_layer_total_example : Returns (Within with_options) (ipv6_upper_layer with_options)
upper_layer_total_example = upper_layer_total with_options

abbrev old_ip : List ℕ
old_ip = 253 ∷ 0 ∷ 0 ∷ 0 ∷ 0 ∷ 0 ∷ 0 ∷ 0 ∷ 0 ∷ 0 ∷ 0 ∷ 0 ∷ 0 ∷ 0 ∷ 0 ∷ 2 ∷ []

abbrev new_ip : List ℕ
new_ip = 253 ∷ 17 ∷ 0 ∷ 0 ∷ 0 ∷ 0 ∷ 0 ∷ 0 ∷ 0 ∷ 0 ∷ 0 ∷ 0 ∷ 0 ∷ 0 ∷ 0 ∷ 9 ∷ []

old_checksum : fold (100 + word_sum old_ip + word_sum old_ip + 1430) ≡ 65535
unfolding word_sum fold_carries
old_checksum = refl

adjust_keeps_valid_example :
    (c' : ℕ) × (adjust_ipv6_pseudo_header_checksum 1430 old_ip old_ip new_ip old_ip ≡ ok c')
    × (fold (100 + word_sum new_ip + word_sum old_ip + c') ≡ 65535)
adjust_keeps_valid_example =
    adjust_keeps_valid 100 1430 old_ip old_ip new_ip old_ip (ground arith) (ground arith)
      (ground arith) (refl, ground arith) (refl, ground arith) (refl, ground arith)
      (refl, ground arith) old_checksum

read-append_example :
    read_packet_header (append_packet_to_buf [] datagram forward ++ (1 ∷ 2 ∷ []))
    ≡ header 29 forward (datagram ++ (1 ∷ 2 ∷ []))
read-append_example = read-append datagram (1 ∷ 2 ∷ []) forward (ground arith)

abbrev small_buffer : RingBuffer
small_buffer = new 10

small_buffer-IsValid : IsValid small_buffer
unfolding new
small_buffer-IsValid = record { room = refl; inside = ground arith }

write-IsWritten_example :
    IsWritten small_buffer (7 ∷ 8 ∷ 9 ∷ []) (write small_buffer (7 ∷ 8 ∷ 9 ∷ []))
write-IsWritten_example = write-IsWritten small_buffer (7 ∷ 8 ∷ 9 ∷ []) small_buffer-IsValid
