-- ===== src/Vpn/Checksum.antt =====
-- vpn/packet.go: the Internet checksums. Bytes are numbers below 256, a uint32 keeps its
-- wrap-around, and `^uint16(v)` is `complement16 v`.
pub mod Fold
pub mod Words
pub mod Verify
pub mod Adjust
use awl.Base.{ℕ, zero, suc, ◌-◌, ◌+◌, ◌*◌, ◌/◌, ◌%◌, ◌^◌, List, [], ◌∷◌, length, ltb, if◌then◌else◌}
use awl.Base.Go.{Go, ok, panic, at, ◌>>=◌}

abbrev pub add32 : ℕ → ℕ → ℕ
add32 a b = (a + b) % 2 ^ 32

abbrev pub complement16 : ℕ → ℕ
complement16 v = 65535 - v % 65536

-- `for csum > 0xffff { csum = (csum >> 16) + (csum & 0xffff) }`
unfoldable pub fold_carries : ℕ → ℕ → ℕ
fold_carries zero c = c
fold_carries (suc fuel) c =
    let rest = fold_carries fuel (c / 65536 + c % 65536) in if ltb 65535 c then rest else c

-- A uint32 needs at most three rounds: `fold_carries-le` of Fold.
abbrev pub fold_fuel : ℕ
fold_fuel = 3

abbrev pub fold : ℕ → ℕ
fold c = fold_carries fold_fuel c

-- the loop of tcpipChecksum, with the odd last byte
unfoldable pub sum_bytes : List ℕ → ℕ → ℕ
sum_bytes [] c = c
sum_bytes (x ∷ []) c = add32 c (x * 256)
sum_bytes (x ∷ y ∷ r) c = sum_bytes r (add32 (add32 c (x * 256)) y)

unfoldable pub tcpip_checksum : List ℕ → ℕ → ℕ
tcpip_checksum body c = complement16 (fold (sum_bytes body c))

-- the loop of checksumIPv4Header, which reads whole words
unfoldable pub sum_header : List ℕ → ℕ → ℕ
sum_header [] v = v
sum_header (x ∷ []) v = add32 v (x * 256)
sum_header (x ∷ y ∷ r) v = sum_header r (add32 v (x * 256 + y))

unfoldable pub checksum_ipv4_header : List ℕ → ℕ
checksum_ipv4_header buf = complement16 (fold (sum_header buf 0))

-- the two statements that add an IPv4 address to the pseudo-header
unfoldable pub add_ipv4 : List ℕ → ℕ → Go ℕ
add_ipv4 ip c = do
  b0 ← at ip 0
  b2 ← at ip 2
  b1 ← at ip 1
  b3 ← at ip 3
  ok (add32 (add32 c ((b0 + b2) * 256)) (b1 + b3))

-- totalLen is a uint32
abbrev pub add_length_ipv4 : ℕ → ℕ → ℕ → ℕ
add_length_ipv4 len protocol c =
    add32 (add32 (add32 c protocol) (len % 2 ^ 32 % 65536)) (len % 2 ^ 32 / 65536)

unfoldable pub checksum_ipv4_tcpudp : List ℕ → ℕ → List ℕ → List ℕ → Go ℕ
unfolding add_ipv4
checksum_ipv4_tcpudp segment protocol src dst = do
  s ← add_ipv4 src 0
  d ← add_ipv4 dst s
  ok (tcpip_checksum segment (add_length_ipv4 (length segment) protocol d))

-- the loop over the words of an IPv6 address, with the number of words that are left
unfoldable pub add_ipv6 : ℕ → List ℕ → ℕ → Go ℕ
add_ipv6 zero ip c = ok c
add_ipv6 (suc n) (x ∷ y ∷ r) c = add_ipv6 n r (add32 c (x * 256 + y))
add_ipv6 (suc n) _ c = panic

abbrev pub add_length_ipv6 : ℕ → ℕ → ℕ → ℕ
add_length_ipv6 len protocol c =
    add32 (add32 (add32 c (len % 2 ^ 32 / 65536)) (len % 2 ^ 32 % 65536)) protocol

unfoldable pub checksum_ipv6_tcpudp : List ℕ → ℕ → List ℕ → List ℕ → Go ℕ
checksum_ipv6_tcpudp segment protocol src dst = do
  s ← add_ipv6 8 src 0
  d ← add_ipv6 8 dst s
  ok (tcpip_checksum segment (add_length_ipv6 (length segment) protocol d))

-- the loop of the closure `adjust`, which folds after each word
unfoldable pub adjust_words : ℕ → List ℕ → List ℕ → ℕ → Go ℕ
adjust_words zero old new sum = ok sum
adjust_words (suc n) (a ∷ b ∷ old) (c ∷ d ∷ new) sum =
    adjust_words n old new (fold (add32 (add32 sum (65535 - (a * 256 + b))) (c * 256 + d)))
adjust_words (suc n) _ _ sum = panic

unfoldable pub adjust_ipv6_pseudo_header_checksum : ℕ → List ℕ → List ℕ → List ℕ → List ℕ → Go ℕ
adjust_ipv6_pseudo_header_checksum checksum old_src old_dst new_src new_dst = do
  s ← adjust_words 8 old_src new_src (complement16 checksum)
  d ← adjust_words 8 old_dst new_dst s
  ok (complement16 (fold d))
