-- ===== src/RingBuffer/History.antt =====
-- The ring buffer against all that was written to it.
use native.Mathlib.Nat.{
  sub-zero, sub-eq-zero_of_le, zero-sub, suc-sub-suc, zero-add, suc-add, zero-min, min-zero,
  suc-min-suc,
}
use mathlib.Core.List.{append-nil}
use awl.Base.{
  ℕ, zero, suc, ◌+◌, ◌-◌, ◌*◌, ◌/◌, ◌≤◌, ◌≡◌, refl, ap, sym, ◌∙◌, List, [], ◌∷◌, ◌++◌, arith,
  length, take, drop, copy_at, overlay, min, ltb, eqb, length-append, length-take, length-drop,
  length-copy_at, length-overlay, drop-nil, Bool-cases, inl, inr,
}
use awl.RingBuffer.{RingBuffer, compact, append, write, bytes, filling_rate}

-- The last `n` elements.
abbrev pub last : ℕ → List ℕ → List ℕ
last n xs = drop (length xs - n) xs

pub record IsValid (r : RingBuffer) : Type 0 where
  pub room : length r.buf ≡ r.size * 2
  pub inside : r.pos ≤ length r.buf

take-nil : (n : ℕ) → take {A = ℕ} n [] ≡ []
take-nil zero = refl
take-nil (suc n) = refl

-- take and drop against each other, and against a copy
drop-take : (k n : ℕ) (xs : List ℕ) → drop k (take n xs) ≡ take (n - k) (drop k xs)
drop-take zero n xs = rw (sub-zero n)
drop-take (suc k) zero xs = rw (zero-sub (suc k))
drop-take (suc k) (suc n) [] = sym (take-nil (suc n - suc k))
drop-take (suc k) (suc n) (x ∷ xs) = rw (suc-sub-suc n k) (drop-take k n xs)

take-overlay_all :
    (ds ss : List ℕ) → take (min (length ds) (length ss)) (overlay ds ss) ≡ take (length ds) ss
take-overlay_all [] ss = rw (zero-min (length ss))
take-overlay_all (d ∷ ds) [] = rw (min-zero (suc (length ds)))
take-overlay_all (d ∷ ds) (s ∷ ss) =
    rw (suc-min-suc (length ds) (length ss)) (ap (λ l. s ∷ l) (take-overlay_all ds ss))

take-copy_at :
    (i : ℕ) (ds ss : List ℕ)
    → i ≤ length ds
    → take (i + min (length ds - i) (length ss)) (copy_at i ds ss)
      ≡ take i ds ++ take (length ds - i) ss
take-copy_at zero ds ss h = rw (sub-zero (length ds)) (rw zero-add (take-overlay_all ds ss))
take-copy_at (suc i) [] ss h = absurd (omega arith)
take-copy_at (suc i) (d ∷ ds) ss h = rw (suc-sub-suc (length ds) i) (
    rw (suc-add i (min (length ds - i) (length ss)))
      (ap (λ l. d ∷ l) (take-copy_at i ds ss (omega arith))))

drop-append-le : (k : ℕ) (xs ys : List ℕ) → k ≤ length xs → drop k (xs ++ ys) ≡ drop k xs ++ ys
drop-append-le zero xs ys h = refl
drop-append-le (suc k) [] ys h = elim h [ ]
drop-append-le (suc k) (x ∷ xs) ys h = drop-append-le k xs ys (omega arith)

drop-drop : (j k : ℕ) (xs : List ℕ) → drop j (drop k xs) ≡ drop (k + j) xs
drop-drop j zero xs = rw (zero-add j)
drop-drop j (suc k) [] = drop-nil j ∙ sym (drop-nil (suc k + j))
drop-drop j (suc k) (x ∷ xs) = rw (suc-add k j) (drop-drop j k xs)

-- Only the last `n` bytes of the past count.
last-append : (n : ℕ) (xs ys : List ℕ) → last n (last n xs ++ ys) ≡ last n (xs ++ ys)
last-append n xs ys =
    let k = length xs - n in
    let a = length (drop k xs ++ ys) - n in
    let e : k + a ≡ length (xs ++ ys) - n =
      omega (arith, length-append (drop k xs) ys, length-append xs ys, length-drop k xs) in
    ap (drop a) (sym (drop-append-le k xs ys (omega arith)))
    ∙ drop-drop a k (xs ++ ys)
    ∙ ap (λ (m : ℕ). drop m (xs ++ ys)) e

-- What Bytes shows is the end of what the buffer holds.
bytes-eq-last : (r : RingBuffer) → IsValid r → bytes r ≡ last r.size (take r.pos r.buf)
unfolding bytes
bytes-eq-last r v =
    let n : length (take r.pos r.buf) ≡ r.pos = omega (arith, length-take r.pos r.buf, v.inside) in
    elim (Bool-cases (eqb r.pos 0)) [
      | inl z ↦ let e : r.pos ≡ 0 = ground arith in rw z (rw e (sym (drop-nil (0 - r.size))))
      | inr z ↦ rw (z, n) (sym (drop-take (r.pos - r.size) r.pos r.buf))
    ]

take-overlay_prefix :
    (ds ss : List ℕ) → length ss ≤ length ds → take (length ss) (overlay ds ss) ≡ ss
take-overlay_prefix ds [] h = refl
take-overlay_prefix [] (s ∷ ss) h = elim h [ ]
take-overlay_prefix (d ∷ ds) (s ∷ ss) h = ap (λ l. s ∷ l) (take-overlay_prefix ds ss (omega arith))

last_short : (n : ℕ) (xs : List ℕ) → length xs ≤ n → last n xs ≡ xs
last_short n xs h = rw (sub-eq-zero_of_le h)

module _ (r : RingBuffer) (v : IsValid r) where
  -- the bytes that slide are the last `size` bytes held
  slide :
      r.size ≤ r.pos
      → take r.size (overlay r.buf (take r.size (drop (r.pos - r.size) r.buf)))
        ≡ last r.size (take r.pos r.buf)
  slide h =
      let k = r.pos - r.size in
      let moved = take r.size (drop k r.buf) in
      let held : length (take r.pos r.buf) ≡ r.pos =
        omega (arith, length-take r.pos r.buf, v.inside) in
      let n : length moved ≡ r.size =
        omega (arith, length-take r.size (drop k r.buf), length-drop k r.buf, v.inside) in
      let d : r.pos - k ≡ r.size = omega arith in
      let shift : length (take r.pos r.buf) - r.size ≡ k = ap (λ (m : ℕ). m - r.size) held in
      ap (λ (m : ℕ). take m (overlay r.buf moved)) (sym n)
      ∙ take-overlay_prefix r.buf moved (omega (arith, v.room))
      ∙ sym (
          ap (λ (m : ℕ). drop m (take r.pos r.buf)) shift
          ∙ drop-take k r.pos r.buf
          ∙ ap (λ (m : ℕ). take m (drop k r.buf)) d)

  length-slide : length (overlay r.buf (take r.size (drop (r.pos - r.size) r.buf))) ≡ r.size * 2
  length-slide = length-overlay r.buf (take r.size (drop (r.pos - r.size) r.buf)) ∙ v.room

-- What sliding keeps, and the room that it leaves.
record IsCompact (r : RingBuffer) (c : RingBuffer) : Type 0 where
  room : length c.buf ≡ c.size * 2
  size : c.size ≡ r.size
  low : 10 * c.pos ≤ r.size * 17
  held : last r.size (take c.pos c.buf) ≡ last r.size (take r.pos r.buf)

compact-IsCompact : (r : RingBuffer) → IsValid r → IsCompact r (compact r)
unfolding compact
compact-IsCompact r v = elim (Bool-cases (ltb (r.size * filling_rate / 10) r.pos)) [
  | inl full ↦
      let h : r.size ≤ r.pos = ground arith in
      rw full (record {
        room = length-slide r v;
        size = refl;
        low = omega arith;
        held =
            ap (last r.size) (slide r v h)
            ∙ last_short r.size (last r.size (take r.pos r.buf)) (
                omega (arith, length-drop (length (take r.pos r.buf) - r.size) (take r.pos r.buf)));
      })
  | inr low ↦ rw low (record { room = v.room; size = refl; low = ground arith; held = refl })
]

-- What a write of `p` does to what Bytes shows.
pub record IsWritten (r : RingBuffer) (p : List ℕ) (result : RingBuffer × ℕ) : Type 0 where
  pub valid : IsValid result.0
  pub shows : bytes result.0 ≡ last r.size (bytes r ++ take result.1 p)
  pub taken : result.1 ≤ length p
  pub all_taken : 10 * length p ≤ 3 * r.size → result.1 ≡ length p

nothing-IsWritten : (r : RingBuffer) (p : List ℕ) → IsValid r → length p ≡ 0 → IsWritten r p (r, 0)
nothing-IsWritten r p v e =
    let held = take r.pos r.buf in
    record {
      valid = v;
      shows =
          bytes-eq-last r v
          ∙ sym (
              ap (λ (l : List ℕ). last r.size (l ++ [])) (bytes-eq-last r v)
              ∙ last-append r.size held []
              ∙ ap (last r.size) (append-nil held));
      taken = omega arith;
      all_taken = λ h. sym e;
    }

take-min : (n : ℕ) (xs : List ℕ) → take (min n (length xs)) xs ≡ take n xs
take-min n [] = take-nil (min n 0) ∙ sym (take-nil n)
take-min zero (x ∷ xs) = rw (zero-min (suc (length xs)))
take-min (suc n) (x ∷ xs) = rw (suc-min-suc n (length xs)) (ap (λ l. x ∷ l) (take-min n xs))

append-IsWritten : (r : RingBuffer) (p : List ℕ) → IsValid r → IsWritten r p (append (compact r) p)
append-IsWritten r p v =
    let c = compact r in
    let k = compact-IsCompact r v in
    let n = min (length c.buf - c.pos) (length p) in
    let held = take c.pos c.buf in
    let r' : RingBuffer = record c { buf = copy_at c.pos c.buf p; pos = c.pos + n } in
    let inside : c.pos ≤ length c.buf = omega (arith, k.room, k.low, k.size) in
    let v' : IsValid r' = record {
      room = length-copy_at c.pos c.buf p ∙ k.room;
      inside = omega (arith, length-copy_at c.pos c.buf p, inside);
    } in
    record {
      valid = v';
      shows =
          bytes-eq-last r' v'
          ∙ ap (last c.size) (take-copy_at c.pos c.buf p inside)
          ∙ ap (λ (m : ℕ). last m (held ++ take (length c.buf - c.pos) p)) k.size
          ∙ sym (
              ap (λ (l : List ℕ). last r.size (bytes r ++ l)) (take-min (length c.buf - c.pos) p)
              ∙ ap (λ (l : List ℕ). last r.size (l ++ take (length c.buf - c.pos) p))
                  (bytes-eq-last r v ∙ sym k.held)
              ∙ last-append r.size held (take (length c.buf - c.pos) p));
      taken = omega arith;
      all_taken = λ h. omega (arith, k.room, k.low, k.size);
    }

-- After a write to a valid buffer, Bytes shows the last `size` bytes of what it showed before
-- followed by the bytes that the write reports as taken, and the buffer is valid. Never more than
-- the argument is taken, and all of it if it is at most three tenths of the size.
pub write-IsWritten : (r : RingBuffer) (p : List ℕ) → IsValid r → IsWritten r p (write r p)
unfolding write
write-IsWritten r p v = elim (Bool-cases (eqb (length p) 0)) [
  | inl z ↦ rw z (nothing-IsWritten r p v (ground arith))
  | inr z ↦ rw z (append-IsWritten r p v)
]
