-- ===== src/Vpn/Checksum/Verify.antt =====
-- The check of RFC 1071 over a segment whose checksum was filled in.
use native.Mathlib.Nat.{add_assoc}
use awl.Base.{ℕ, ◌+◌, ◌*◌, ◌/◌, ◌%◌, ◌^◌, ◌≤◌, ◌<◌, ◌≡◌, List, arith, length, copy_at}
use awl.Vpn.Bytes.{put_uint16}
use awl.Vpn.Checksum.{complement16, fold, tcpip_checksum, checksum_ipv4_header}
use awl.Vpn.Checksum.Fold.{fold-checksum}
use awl.Vpn.Checksum.Words.{
  IsBytes, word_sum, word_at, word_sum-le, sum_bytes-word_sum, sum_header-word_sum,
  word_sum-copy_at,
}

-- The bytes of a 16-bit number stand for it.
put_uint16_value : (c : ℕ) → c ≤ 65535 → c / 256 % 256 * 256 + c % 256 ≡ c
put_uint16_value c h = omega arith

-- A segment as it is checksummed: bytes, no longer than an IP packet, with a zero field.
pub record IsBlank (i : ℕ) (bs : List ℕ) : Type 0 where
  pub bytes : IsBytes bs
  pub short : length bs ≤ 65535
  pub even : i % 2 ≡ 0
  pub inside : i + 2 ≤ length bs
  pub zero_field : word_at i bs ≡ 0

module _ (i : ℕ) (bs : List ℕ) (blank : IsBlank i bs) where
  small : 2 * word_sum bs ≤ 65535 * 65536
  small = omega (arith, word_sum-le bs blank.bytes, blank.short)

  filled_sum : (c : ℕ) → c ≤ 65535 → word_sum (copy_at i bs (put_uint16 c)) ≡ word_sum bs + c
  filled_sum c h = omega (
    arith,
    word_sum-copy_at i bs (c / 256 % 256) (c % 256) blank.even blank.inside,
    blank.zero_field,
  )

  pub tcpip_checksum-filled :
      (base : ℕ)
      → base < 2 ^ 24
      → tcpip_checksum (copy_at i bs (put_uint16 (tcpip_checksum bs base))) base ≡ 0
  unfolding tcpip_checksum
  tcpip_checksum-filled base h =
      let c = complement16 (fold (base + word_sum bs)) in
      rw (sum_bytes-word_sum bs base (omega (arith, small))) (
        rw
          (sum_bytes-word_sum (copy_at i bs (put_uint16 c)) base
            (omega (arith, small, filled_sum c (omega arith))))
          (rw (filled_sum c (omega arith)) (
            rw (← add_assoc base (word_sum bs) c)
              (omega (arith, fold-checksum (base + word_sum bs) (omega (arith, small)))))))

  pub checksum_ipv4_header-filled :
      checksum_ipv4_header (copy_at i bs (put_uint16 (checksum_ipv4_header bs))) ≡ 0
  unfolding checksum_ipv4_header
  checksum_ipv4_header-filled =
      let c = complement16 (fold (0 + word_sum bs)) in
      rw (sum_header-word_sum bs 0 (omega (arith, small))) (
        rw
          (sum_header-word_sum (copy_at i bs (put_uint16 c)) 0
            (omega (arith, small, filled_sum c (omega arith))))
          (rw (filled_sum c (omega arith)) (
            rw (← add_assoc 0 (word_sum bs) c)
              (omega (arith, fold-checksum (0 + word_sum bs) (omega (arith, small)))))))
