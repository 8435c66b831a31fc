-- ===== src/Vpn/Checksum/Words.antt =====
-- The sums of 16-bit words, without the wrap-around of uint32, and where they agree with the code.
use awl.Base.{
  ℕ, zero, suc, ◌+◌, ◌*◌, ◌%◌, ◌^◌, ◌≤◌, ◌<◌, ◌≡◌, refl, ap, List, [], ◌∷◌, arith, length, All,
  copy_at, overlay-nil,
}
use awl.Vpn.Checksum.{add32, sum_bytes, sum_header}

abbrev pub IsBytes : List ℕ → Type 0
IsBytes = All (λ b. b < 256)

-- The words of RFC 1071, the odd last byte padded by a zero.
unfoldable pub word_sum : List ℕ → ℕ
word_sum [] = 0
word_sum (x ∷ []) = x * 256
word_sum (x ∷ y ∷ r) = x * 256 + y + word_sum r

pub word_sum-le : (bs : List ℕ) → IsBytes bs → 2 * word_sum bs ≤ 65535 * (length bs + 1)
unfolding word_sum
word_sum-le [] h = omega arith
word_sum-le (x ∷ []) h = omega arith
word_sum-le (x ∷ y ∷ r) h = omega (arith, word_sum-le r h.1.1)

pub sum_bytes-word_sum :
    (bs : List ℕ) (c : ℕ) → c + word_sum bs < 2 ^ 32 → sum_bytes bs c ≡ c + word_sum bs
unfolding sum_bytes word_sum
sum_bytes-word_sum [] c h = omega arith
sum_bytes-word_sum (x ∷ []) c h = omega arith
sum_bytes-word_sum (x ∷ y ∷ r) c h =
    omega (arith, sum_bytes-word_sum r (add32 (add32 c (x * 256)) y) (omega arith))

pub sum_header-word_sum :
    (bs : List ℕ) (c : ℕ) → c + word_sum bs < 2 ^ 32 → sum_header bs c ≡ c + word_sum bs
unfolding sum_header word_sum
sum_header-word_sum [] c h = omega arith
sum_header-word_sum (x ∷ []) c h = omega arith
sum_header-word_sum (x ∷ y ∷ r) c h =
    omega (arith, sum_header-word_sum r (add32 c (x * 256 + y)) (omega arith))

-- The word at an even byte offset.
abbrev pub word_at : ℕ → List ℕ → ℕ
word_at zero (x ∷ y ∷ r) = x * 256 + y
word_at (suc (suc i)) (x ∷ y ∷ r) = word_at i r
word_at _ _ = 0

-- Writing two bytes at an even offset replaces that word in the sum.
pub word_sum-copy_at :
    (i : ℕ) (bs : List ℕ) (a b : ℕ)
    → i % 2 ≡ 0
    → i + 2 ≤ length bs
    → word_sum (copy_at i bs (a ∷ b ∷ [])) + word_at i bs ≡ word_sum bs + (a * 256 + b)
unfolding word_sum
word_sum-copy_at zero [] a b e h = absurd (omega arith)
word_sum-copy_at zero (x ∷ []) a b e h = absurd (omega arith)
word_sum-copy_at zero (x ∷ y ∷ r) a b e h = omega (arith, ap word_sum (overlay-nil r))
word_sum-copy_at (suc zero) bs a b e h = absurd (omega arith)
word_sum-copy_at (suc (suc i)) [] a b e h = absurd (omega arith)
word_sum-copy_at (suc (suc i)) (x ∷ []) a b e h = absurd (omega arith)
word_sum-copy_at (suc (suc i)) (x ∷ y ∷ r) a b e h =
    omega (arith, word_sum-copy_at i r a b (omega arith) (omega arith))

pub word_at-copy_at :
    (i : ℕ) (bs : List ℕ) (a b : ℕ)
    → i % 2 ≡ 0
    → i + 2 ≤ length bs
    → word_at i (copy_at i bs (a ∷ b ∷ [])) ≡ a * 256 + b
word_at-copy_at zero [] a b e h = absurd (omega arith)
word_at-copy_at zero (x ∷ []) a b e h = absurd (omega arith)
word_at-copy_at zero (x ∷ y ∷ r) a b e h = refl
word_at-copy_at (suc zero) bs a b e h = absurd (omega arith)
word_at-copy_at (suc (suc i)) [] a b e h = absurd (omega arith)
word_at-copy_at (suc (suc i)) (x ∷ []) a b e h = absurd (omega arith)
word_at-copy_at (suc (suc i)) (x ∷ y ∷ r) a b e h =
    word_at-copy_at i r a b (omega arith) (omega arith)
