-- ===== src/Vpn/SwappableTun/Safety.antt =====
-- A Read of the swappable device over every interleaving.
use awl.Base.{
  ℕ, ◌+◌, ◌*◌, ◌≤◌, ◌≡◌, refl, ◌⊎◌, inl, inr, Bool, true, false, eqb, Bool-cases, arith, subst,
}
use awl.Vpn.SwappableTun.{
  Reader, loading, answered, calling, refused, not_closed, failed, SwappableTun, begin_swap,
  begin_close, load, check_closed, check_swapped, looked, Step, loads, answers, refuses, looks,
  compares, swaps_to, exchanges, closes_old, closes, closes_current, dies, new_swappable_tun, Reach,
  here, later,
}
use awl.Vpn.SwappableTun.Sound.{IsGone, ReaderOk, IsSound, few}
use awl.Vpn.SwappableTun.Keeps.{
  load_lem, answer_lem, refuse_lem, looked_lem, check_swapped_lem, swap_if_lem, close_if_lem,
  close_old_lem, close_current_lem, dies_lem, exchange_lem,
}

Step-IsSound : {s t : SwappableTun} → Step s t → IsSound s → IsSound t
unfolding check_closed begin_swap begin_close
Step-IsSound {s = s} (loads e) v = load_lem s v e
Step-IsSound {s = s} (answers {h = h} e) v = answer_lem s v h e
Step-IsSound {s = s} (refuses {h = h} e n) v = refuse_lem s v h e n
Step-IsSound {s = s} (looks {h = h} e) v = looked_lem s v h s.closed refl e
Step-IsSound {s = s} (compares {h = h} e) v = check_swapped_lem s v h e
Step-IsSound {s = s} (swaps_to new size e n o) v =
    swap_if_lem s v new s.closed (eqb size s.batch_size) e n o
Step-IsSound {s = s} (exchanges {new = new} e) v = exchange_lem s v new e
Step-IsSound {s = s} (closes_old {old = old} e) v = close_old_lem s v old e
Step-IsSound {s = s} (closes e) v = close_if_lem s v s.closed e
Step-IsSound {s = s} (closes_current e) v = close_current_lem s v e
Step-IsSound {s = s} (dies d) v = dies_lem s v d

start-IsSound : (initial size : ℕ) → IsSound (new_swappable_tun initial size)
start-IsSound initial size = record {
  current_used = ground arith;
  current = λ h. absurd (let q : true ≡ false = h in cc q);
  reader_ok = (omega arith, omega arith);
  control_ok = tt;
}

Reach-IsSound :
    {initial size : ℕ} {s : SwappableTun} → Reach (new_swappable_tun initial size) s → IsSound s
Reach-IsSound {initial} {size} here = start-IsSound initial size
Reach-IsSound (later r st) = Step-IsSound st (Reach-IsSound r)

-- Over every interleaving of a Read with swaps, a close and devices that are closed from outside,
-- Read returns os.ErrClosed for a device only if the wrapper has been closed or that device was
-- closed from outside; so a swap alone never surfaces as an error.
pub failed-IsGone :
    {initial size : ℕ} {s : SwappableTun} (h : ℕ)
    → Reach (new_swappable_tun initial size) s
    → s.reader ≡ failed h
    → IsGone s h
failed-IsGone {s = s} h r e = (subst (ReaderOk s) e (Reach-IsSound r).reader_ok).0

read_bound : (s : SwappableTun) (r : Reader) → ReaderOk s r → s.steps ≤ 4 * (s.swaps + 1)
read_bound s loading h = omega (arith, h.0, h.1)
read_bound s answered h = omega (arith, h.0, h.1)
read_bound s (calling d) h = omega (arith, few s d h.0, h.1)
read_bound s (refused d) h = omega (arith, few s d h.0, h.2)
read_bound s (not_closed d) h = omega (arith, few s d h.0, h.2)
read_bound s (failed d) h = omega (arith, h.1, h.2)

abbrev pub HasReturned : Reader → Type 0
HasReturned loading = ⊥
HasReturned answered = Unit
HasReturned (calling h) = ⊥
HasReturned (refused h) = ⊥
HasReturned (not_closed h) = ⊥
HasReturned (failed h) = Unit

abbrev pub CanStep : SwappableTun → Type 0
CanStep s = (t : SwappableTun) × Step s t × (t.steps ≡ s.steps + 1)

looked_steps : (s : SwappableTun) (h : ℕ) (b : Bool) → (looked s h b).steps ≡ s.steps + 1
looked_steps s h true = refl
looked_steps s h false = refl

swapped_steps : (s : SwappableTun) (h : ℕ) → (check_swapped s h).steps ≡ s.steps + 1
unfolding check_swapped
swapped_steps s h = elim (Bool-cases (eqb s.cur h)) [ inl y ↦ rw y refl | inr n ↦ rw n refl ]

next_step : (s : SwappableTun) (r : Reader) → s.reader ≡ r → HasReturned r ⊎ CanStep s
unfolding load check_closed
next_step s loading e = inr (load s, loads e, refl)
next_step s answered e = inl tt
next_step s (calling h) e =
    inr (record s { reader = answered; steps = s.steps + 1 }, answers e, refl)
next_step s (refused h) e = inr (check_closed s h, looks e, looked_steps s h s.closed)
next_step s (not_closed h) e = inr (check_swapped s h, compares e, swapped_steps s h)
next_step s (failed h) e = inl tt

-- Over every interleaving, Read has returned or can take a step of its own, and it takes at most
-- four steps for each exchange of the device since it began, and four more: so it ends once there
-- are no more swaps and the device answers.
pub read_ends :
    {initial size : ℕ} {s : SwappableTun}
    → Reach (new_swappable_tun initial size) s
    → (HasReturned s.reader ⊎ CanStep s) × (s.steps ≤ 4 * (s.swaps + 1))
read_ends {s = s} r = (next_step s s.reader refl, read_bound s s.reader (Reach-IsSound r).reader_ok)
