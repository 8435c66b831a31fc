-- ===== src/Vpn/Checksum/Adjust.antt =====
-- The incremental update of RFC 1624 against the check of RFC 1071.
use awl.Base.{
  ℕ, zero, suc, ◌-◌, ◌+◌, ◌*◌, ◌%◌, ◌^◌, ◌≤◌, ◌<◌, ◌≡◌, refl, ap, ◌∙◌, List, [], ◌∷◌, arith, length,
}
use awl.Base.Go.{ok}
use awl.Vpn.Checksum.{
  add32, complement16, fold, add_ipv6, adjust_words, adjust_ipv6_pseudo_header_checksum,
}
use awl.Vpn.Checksum.Fold.{fold-le, fold_carries-mod, fold-all_ones}
use awl.Vpn.Checksum.Words.{IsBytes, word_sum, word_sum-le}

-- An address is added to a sum as its words are.
pub add_ipv6-word_sum :
    (n : ℕ) (ip : List ℕ) (c : ℕ)
    → length ip ≡ n + n
    → c + word_sum ip < 2 ^ 32
    → add_ipv6 n ip c ≡ ok (c + word_sum ip)
unfolding add_ipv6 word_sum
add_ipv6-word_sum zero [] c h l = ap ok (omega arith)
add_ipv6-word_sum zero (x ∷ ip) c h l = absurd (omega arith)
add_ipv6-word_sum (suc n) [] c h l = absurd (omega arith)
add_ipv6-word_sum (suc n) (x ∷ []) c h l = absurd (omega arith)
add_ipv6-word_sum (suc n) (x ∷ y ∷ r) c h l =
    add_ipv6-word_sum n r (add32 c (x * 256 + y)) (omega arith) (omega arith) ∙ ap ok (omega arith)

-- After the loop over `n` words the sum has lost the old words and gained the new ones, modulo
-- 65535, and is a positive sum of at most 16 bits if it had an old word below 65535 to begin with.
pub adjust_words-mod :
    (n : ℕ) (old new : List ℕ) (s : ℕ)
    → length old ≡ n + n
    → length new ≡ n + n
    → IsBytes old
    → IsBytes new
    → s ≤ 65535
    → (r : ℕ) × (adjust_words n old new s ≡ ok r)
      × (r ≤ 65535)
      × ((r + word_sum old) % 65535 ≡ (s + word_sum new) % 65535)
unfolding adjust_words word_sum
adjust_words-mod zero [] [] s ho hn bo bn h = (s, refl, h, refl)
adjust_words-mod zero (x ∷ old) new s ho hn bo bn h = absurd (omega arith)
adjust_words-mod zero [] (x ∷ new) s ho hn bo bn h = absurd (omega arith)
adjust_words-mod (suc n) [] new s ho hn bo bn h = absurd (omega arith)
adjust_words-mod (suc n) (a ∷ []) new s ho hn bo bn h = absurd (omega arith)
adjust_words-mod (suc n) (a ∷ b ∷ old) [] s ho hn bo bn h = absurd (omega arith)
adjust_words-mod (suc n) (a ∷ b ∷ old) (c ∷ []) s ho hn bo bn h = absurd (omega arith)
adjust_words-mod (suc n) (a ∷ b ∷ old) (c ∷ d ∷ new) s ho hn bo bn h =
    let t : ℕ = add32 (add32 s (65535 - (a * 256 + b))) (c * 256 + d) in
    let (r, e, le, m) =
      adjust_words-mod n old new (fold t) (omega arith) (omega arith) bo.1.1 bn.1.1
        (fold-le t (omega arith)) in
    (r, e, le, omega (arith, m, fold_carries-mod 3 t))

abbrev pub IsIpv6 : List ℕ → Type 0
IsIpv6 ip = (length ip ≡ 16) × IsBytes ip

address_sum-le : (ip : List ℕ) → IsIpv6 ip → word_sum ip ≤ 65535 * 17
address_sum-le ip h = omega (arith, word_sum-le ip h.1)

-- If a checksum `c` is right for the old addresses, with `rest` the sum of the other words
-- (ports, payload, length and protocol), then the adjusted checksum is right for the new ones.
-- The segment itself is not looked at.
pub adjust_keeps_valid :
    (rest c : ℕ) (old_src old_dst new_src new_dst : List ℕ)
    → 0 < rest
    → rest < 2 ^ 31
    → c ≤ 65535
    → IsIpv6 old_src
    → IsIpv6 old_dst
    → IsIpv6 new_src
    → IsIpv6 new_dst
    → fold (rest + word_sum old_src + word_sum old_dst + c) ≡ 65535
    → (c' : ℕ) × (adjust_ipv6_pseudo_header_checksum c old_src old_dst new_src new_dst ≡ ok c')
      × (fold (rest + word_sum new_src + word_sum new_dst + c') ≡ 65535)
unfolding adjust_ipv6_pseudo_header_checksum
adjust_keeps_valid rest c os od ns nd pos small hc hos hod hns hnd valid =
    let (s, es, ls, ms) =
      adjust_words-mod 8 os ns (complement16 c) (omega arith) (omega arith) hos.1 hns.1
        (omega arith) in
    let (d, ed, ld, md) = adjust_words-mod 8 od nd s (omega arith) (omega arith) hod.1 hnd.1 ls in
    (
      complement16 (fold d),
      rw (es, ed),
      fold-all_ones (rest + word_sum ns + word_sum nd + complement16 (fold d)) (omega arith)
          (omega (arith, address_sum-le ns hns, address_sum-le nd hnd))
          (omega (
            arith,
            ms,
            md,
            valid,
            fold_carries-mod 3 d,
            fold-le d (omega arith),
            fold_carries-mod 3 (rest + word_sum os + word_sum od + c),
          )),
    )
