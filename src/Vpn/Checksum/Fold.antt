-- ===== src/Vpn/Checksum/Fold.antt =====
-- The folding of the carries of a sum.
use awl.Base.{ℕ, zero, suc, ◌+◌, ◌/◌, ◌%◌, ◌^◌, ◌≤◌, ◌<◌, ◌≡◌, refl, arith}
use awl.Vpn.Checksum.{fold_carries, fold, complement16}

-- The fuel is enough: the loop ends below 65536 for every uint32.
pub fold-le : (c : ℕ) → c < 2 ^ 32 → fold c ≤ 65535
unfolding fold_carries
fold-le c h = ground arith

pub fold_carries-mod : (n c : ℕ) → fold_carries n c % 65535 ≡ c % 65535
unfolding fold_carries
fold_carries-mod zero c = refl
fold_carries-mod (suc n) c = ground (arith, fold_carries-mod n (c / 65536 + c % 65536))

pub fold_carries-pos : (n c : ℕ) → 0 < c → 0 < fold_carries n c
unfolding fold_carries
fold_carries-pos zero c h = h
fold_carries-pos (suc n) c h = ground (arith, fold_carries-pos n (c / 65536 + c % 65536))

fold_carries-zero : (n : ℕ) → fold_carries n 0 ≡ 0
unfolding fold_carries
fold_carries-zero zero = refl
fold_carries-zero (suc n) = refl

-- the checksum of nothing is not zero, so the sum that a receiver folds is positive
sum_pos : (s : ℕ) → 0 < s + complement16 (fold s)
sum_pos zero = omega (arith, fold_carries-zero 3)
sum_pos (suc s) = omega arith

pub fold_unique :
    (c d : ℕ) → 0 < c → 0 < d → c < 2 ^ 32 → d < 2 ^ 32 → c % 65535 ≡ d % 65535 → fold c ≡ fold d
fold_unique c d hc hd lc ld e = omega (
  arith,
  fold-le c lc,
  fold-le d ld,
  fold_carries-mod 3 c,
  fold_carries-mod 3 d,
  fold_carries-pos 3 c hc,
  fold_carries-pos 3 d hd,
)

pub fold-all_ones : (c : ℕ) → 0 < c → c < 2 ^ 32 → c % 65535 ≡ 0 → fold c ≡ 65535
fold-all_ones c h l e = omega (arith, fold-le c l, fold_carries-mod 3 c, fold_carries-pos 3 c h)

-- A receiver adds the checksum to the sum that it was made from, and finds all ones.
pub fold-checksum : (s : ℕ) → s + 65535 < 2 ^ 32 → fold (s + complement16 (fold s)) ≡ 65535
fold-checksum s h =
    fold-all_ones (s + complement16 (fold s)) (sum_pos s) (omega arith)
      (omega (arith, fold-le s (omega arith), fold_carries-mod 3 s))
