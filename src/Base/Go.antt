-- ===== src/Base/Go.antt =====
-- Go expressions that may panic: an index or a slice out of range.
use Prim.Native.Nat.{ℕ, zero, suc, ◌-◌, ◌≤◌, ◌<◌}
use mathlib.Core.Path.{◌≡◌, refl}
use mathlib.Core.Bool.{◌&&◌}
use mathlib.Core.List.{List, [], ◌∷◌}
use native.Mathlib.Omega.{arith}
use awl.Base.Tests.{leb, if◌then◌else◌}
use awl.Base.Lists.{length, get_or, take, drop}

pub data Go {ℓ} (A : Type ℓ) : Type ℓ where
  ok : A → Go A
  panic : Go A

infixl 5 ◌>>=◌
abbrev pub ◌>>=◌ {ℓ κ} : {A : Type ℓ} {B : Type κ} → Go A → (A → Go B) → Go B
ok a >>= f = f a
panic >>= f = panic

-- xs[i], over bytes
unfoldable pub at : List ℕ → ℕ → Go ℕ
at [] i = panic
at (x ∷ xs) zero = ok x
at (x ∷ xs) (suc i) = at xs i

-- xs[lo:hi], up to the length
unfoldable pub slice : List ℕ → ℕ → ℕ → Go (List ℕ)
slice xs lo hi = if leb lo hi && leb hi (length xs) then ok (take (hi - lo) (drop lo xs)) else panic

pub at-get_or : (xs : List ℕ) (i : ℕ) → i < length xs → at xs i ≡ ok (get_or xs i 0)
unfolding at
at-get_or [] i h = elim h [ ]
at-get_or (x ∷ xs) zero h = refl
at-get_or (x ∷ xs) (suc i) h = at-get_or xs i (omega arith)

pub slice_in_range :
    (xs : List ℕ) (lo hi : ℕ)
    → lo ≤ hi
    → hi ≤ length xs
    → slice xs lo hi ≡ ok (take (hi - lo) (drop lo xs))
unfolding slice
slice_in_range xs lo hi h k = ground arith

-- The call does not panic, and its result satisfies `P`.
abbrev pub Returns : {A : Type 0} → (A → Type 0) → Go A → Type 0
Returns P (ok a) = P a
Returns P panic = ⊥

pub Returns-result :
    {A : Type 0} (P : A → Type 0) (r : Go A) → Returns P r → (a : A) × (r ≡ ok a) × P a
Returns-result P (ok a) h = (a, refl, h)
Returns-result P panic h = absurd h

pub Returns-bind :
    {A B : Type 0} (P : A → Type 0) (Q : B → Type 0) (r : Go A) (f : A → Go B)
    → Returns P r
    → ((a : A) → P a → Returns Q (f a))
    → Returns Q (r >>= f)
Returns-bind P Q (ok a) f h k = k a h
Returns-bind P Q panic f h k = absurd h

pub Returns-weaken :
    {A : Type 0} (P Q : A → Type 0) (r : Go A) → ((a : A) → P a → Q a) → Returns P r → Returns Q r
Returns-weaken P Q (ok a) f h = f a h
Returns-weaken P Q panic f h = h
