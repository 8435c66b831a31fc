-- ===== src/Base/Lists.antt =====
-- Go slices as lists with native indices. An access out of range is written out by its users.
use Prim.Native.Nat.{ℕ, zero, suc, ◌+◌, ◌-◌, ◌≤◌, ◌<◌, min}
use mathlib.Core.Path.{◌≡◌, refl, ap}
use mathlib.Core.List.{List, [], ◌∷◌, ◌++◌}
use native.Mathlib.Omega.{arith}

module _ {ℓ} {A : Type ℓ} where
  abbrev pub length : List A → ℕ
  length [] = 0
  length (x ∷ xs) = suc (length xs)

  abbrev pub get_or : List A → ℕ → A → A
  get_or [] i d = d
  get_or (x ∷ xs) zero d = x
  get_or (x ∷ xs) (suc i) d = get_or xs i d

  abbrev pub take : ℕ → List A → List A
  take zero xs = []
  take (suc n) [] = []
  take (suc n) (x ∷ xs) = x ∷ take n xs

  abbrev pub drop : ℕ → List A → List A
  drop zero xs = xs
  drop (suc n) [] = []
  drop (suc n) (x ∷ xs) = drop n xs

  abbrev pub replicate : ℕ → A → List A
  replicate zero a = []
  replicate (suc n) a = a ∷ replicate n a

  -- `copy(dst, src)`: the shorter of the two lengths is copied.
  abbrev pub overlay : List A → List A → List A
  overlay [] ss = []
  overlay (d ∷ ds) [] = d ∷ ds
  overlay (d ∷ ds) (s ∷ ss) = s ∷ overlay ds ss

  -- `copy(dst[i:], src)`
  abbrev pub copy_at : ℕ → List A → List A → List A
  copy_at zero ds ss = overlay ds ss
  copy_at (suc i) [] ss = []
  copy_at (suc i) (d ∷ ds) ss = d ∷ copy_at i ds ss

module _ {ℓ} {A : Type ℓ} where
  pub length-append : (xs ys : List A) → length (xs ++ ys) ≡ length xs + length ys
  length-append [] ys = omega arith
  length-append (x ∷ xs) ys = omega (arith, length-append xs ys)

  pub length-take : (n : ℕ) (xs : List A) → length (take n xs) ≡ min n (length xs)
  length-take zero xs = omega arith
  length-take (suc n) [] = omega arith
  length-take (suc n) (x ∷ xs) = omega (arith, length-take n xs)

  pub length-drop : (n : ℕ) (xs : List A) → length (drop n xs) ≡ length xs - n
  length-drop zero xs = omega arith
  length-drop (suc n) [] = omega arith
  length-drop (suc n) (x ∷ xs) = omega (arith, length-drop n xs)

  pub length-replicate : (n : ℕ) (a : A) → length (replicate n a) ≡ n
  length-replicate zero a = refl
  length-replicate (suc n) a = ap suc (length-replicate n a)

  pub length-overlay : (ds ss : List A) → length (overlay ds ss) ≡ length ds
  length-overlay [] ss = refl
  length-overlay (d ∷ ds) [] = refl
  length-overlay (d ∷ ds) (s ∷ ss) = ap suc (length-overlay ds ss)

  pub overlay-nil : (ds : List A) → overlay ds [] ≡ ds
  overlay-nil [] = refl
  overlay-nil (d ∷ ds) = refl

  pub length-copy_at : (i : ℕ) (ds ss : List A) → length (copy_at i ds ss) ≡ length ds
  length-copy_at zero ds ss = length-overlay ds ss
  length-copy_at (suc i) [] ss = refl
  length-copy_at (suc i) (d ∷ ds) ss = ap suc (length-copy_at i ds ss)

  pub take_all : (n : ℕ) (xs : List A) → length xs ≤ n → take n xs ≡ xs
  take_all zero [] h = refl
  take_all zero (x ∷ xs) h = absurd (omega arith)
  take_all (suc n) [] h = refl
  take_all (suc n) (x ∷ xs) h = ap (λ l. x ∷ l) (take_all n xs (omega arith))

  pub take-append-drop : (n : ℕ) (xs : List A) → take n xs ++ drop n xs ≡ xs
  take-append-drop zero xs = refl
  take-append-drop (suc n) [] = refl
  take-append-drop (suc n) (x ∷ xs) = rw (take-append-drop n xs)

  pub take-append : (xs ys : List A) → take (length xs) (xs ++ ys) ≡ xs
  take-append [] ys = refl
  take-append (x ∷ xs) ys = ap (λ l. x ∷ l) (take-append xs ys)

  pub drop-append : (xs ys : List A) → drop (length xs) (xs ++ ys) ≡ ys
  drop-append [] ys = refl
  drop-append (x ∷ xs) ys = drop-append xs ys

  pub drop-nil : (n : ℕ) → drop {A = A} n [] ≡ []
  drop-nil zero = refl
  drop-nil (suc n) = refl

-- A copy against the parts of its target.
module _ {ℓ} {A : Type ℓ} where
  pub take-overlay :
      (n : ℕ) (ds ss : List A) → length ss ≤ n → take n (overlay ds ss) ≡ overlay (take n ds) ss
  take-overlay zero ds [] h = refl
  take-overlay zero ds (s ∷ ss) h = absurd (omega arith)
  take-overlay (suc n) [] ss h = refl
  take-overlay (suc n) (d ∷ ds) [] h = refl
  take-overlay (suc n) (d ∷ ds) (s ∷ ss) h = ap (λ l. s ∷ l) (take-overlay n ds ss (omega arith))

  pub take-copy_at_inside :
      (n i : ℕ) (ds ss : List A)
      → i + length ss ≤ n
      → take n (copy_at i ds ss) ≡ copy_at i (take n ds) ss
  take-copy_at_inside n zero ds ss h = take-overlay n ds ss (omega arith)
  take-copy_at_inside zero (suc i) ds ss h = absurd (omega arith)
  take-copy_at_inside (suc n) (suc i) [] ss h = refl
  take-copy_at_inside (suc n) (suc i) (d ∷ ds) ss h =
      ap (λ l. d ∷ l) (take-copy_at_inside n i ds ss (omega arith))

  pub take-copy_at_before :
      (n i : ℕ) (ds ss : List A) → n ≤ i → take n (copy_at i ds ss) ≡ take n ds
  take-copy_at_before zero i ds ss h = refl
  take-copy_at_before (suc n) zero ds ss h = elim h [ ]
  take-copy_at_before (suc n) (suc i) [] ss h = refl
  take-copy_at_before (suc n) (suc i) (d ∷ ds) ss h =
      ap (λ l. d ∷ l) (take-copy_at_before n i ds ss (omega arith))

  pub drop-overlay : (n : ℕ) (ds ss : List A) → length ss ≤ n → drop n (overlay ds ss) ≡ drop n ds
  drop-overlay zero [] [] h = refl
  drop-overlay zero (d ∷ ds) [] h = refl
  drop-overlay zero ds (s ∷ ss) h = absurd (omega arith)
  drop-overlay (suc n) [] ss h = refl
  drop-overlay (suc n) (d ∷ ds) [] h = refl
  drop-overlay (suc n) (d ∷ ds) (s ∷ ss) h = drop-overlay n ds ss (omega arith)

  pub drop-copy_at_after :
      (n i : ℕ) (ds ss : List A) → i + length ss ≤ n → drop n (copy_at i ds ss) ≡ drop n ds
  drop-copy_at_after n zero ds ss h = drop-overlay n ds ss (omega arith)
  drop-copy_at_after zero (suc i) ds ss h = absurd (omega arith)
  drop-copy_at_after (suc n) (suc i) [] ss h = refl
  drop-copy_at_after (suc n) (suc i) (d ∷ ds) ss h = drop-copy_at_after n i ds ss (omega arith)

  pub drop-copy_at_inside :
      (n i k : ℕ) (ds ss : List A) → k ≡ n + i → drop n (copy_at k ds ss) ≡ copy_at i (drop n ds) ss
  drop-copy_at_inside zero i k ds ss h = rw h (ap (λ j. copy_at j ds ss) (omega arith))
  drop-copy_at_inside (suc n) i zero ds ss h = absurd (omega arith)
  drop-copy_at_inside (suc n) zero (suc k) [] ss h = refl
  drop-copy_at_inside (suc n) (suc i) (suc k) [] ss h = refl
  drop-copy_at_inside (suc n) i (suc k) (d ∷ ds) ss h =
      drop-copy_at_inside n i k ds ss (omega arith)

  pub get_or-copy_at_before :
      (j i : ℕ) (ds ss : List A) (d : A) → j < i → get_or (copy_at i ds ss) j d ≡ get_or ds j d
  get_or-copy_at_before j zero ds ss d h = elim h [ ]
  get_or-copy_at_before j (suc i) [] ss d h = refl
  get_or-copy_at_before zero (suc i) (x ∷ ds) ss d h = refl
  get_or-copy_at_before (suc j) (suc i) (x ∷ ds) ss d h =
      get_or-copy_at_before j i ds ss d (omega arith)

  get_or-overlay :
      (j : ℕ) (ds ss : List A) (d : A) → length ss ≤ j → get_or (overlay ds ss) j d ≡ get_or ds j d
  get_or-overlay j [] ss d h = refl
  get_or-overlay j (x ∷ ds) [] d h = refl
  get_or-overlay zero (x ∷ ds) (s ∷ ss) d h = absurd (omega (arith, h))
  get_or-overlay (suc j) (x ∷ ds) (s ∷ ss) d h = get_or-overlay j ds ss d (omega (arith, h))

  pub get_or-copy_at_after :
      (j i : ℕ) (ds ss : List A) (d : A)
      → i + length ss ≤ j
      → get_or (copy_at i ds ss) j d ≡ get_or ds j d
  get_or-copy_at_after j zero ds ss d h = get_or-overlay j ds ss d (omega (arith, h))
  get_or-copy_at_after j (suc i) [] ss d h = refl
  get_or-copy_at_after zero (suc i) (x ∷ ds) ss d h = absurd (omega (arith, h))
  get_or-copy_at_after (suc j) (suc i) (x ∷ ds) ss d h =
      get_or-copy_at_after j i ds ss d (omega (arith, h))

-- Every element satisfies `P`.
abbrev pub All {ℓ κ} : {A : Type ℓ} → (A → Type κ) → List A → Type κ
All P [] = Unit
All P (x ∷ xs) = P x × All P xs

module _ {ℓ κ} {A : Type ℓ} (P : A → Type κ) where
  pub All-take : (n : ℕ) (xs : List A) → All P xs → All P (take n xs)
  All-take zero xs h = tt
  All-take (suc n) [] h = tt
  All-take (suc n) (x ∷ xs) h = (h.0, All-take n xs h.1)

  pub All-drop : (n : ℕ) (xs : List A) → All P xs → All P (drop n xs)
  All-drop zero xs h = h
  All-drop (suc n) [] h = tt
  All-drop (suc n) (x ∷ xs) h = All-drop n xs h.1

  pub All-overlay : (ds ss : List A) → All P ds → All P ss → All P (overlay ds ss)
  All-overlay [] ss h k = tt
  All-overlay (d ∷ ds) [] h k = h
  All-overlay (d ∷ ds) (s ∷ ss) h k = (k.0, All-overlay ds ss h.1 k.1)

  pub All-copy_at : (i : ℕ) (ds ss : List A) → All P ds → All P ss → All P (copy_at i ds ss)
  All-copy_at zero ds ss h k = All-overlay ds ss h k
  All-copy_at (suc i) [] ss h k = tt
  All-copy_at (suc i) (d ∷ ds) ss h k = (h.0, All-copy_at i ds ss h.1 k)
