-- ===== src/Vpn/SwappableTun/Keeps.antt =====
-- The steps of the swappable device against its invariant.
use awl.Base.{
  ℕ, suc, ◌+◌, ◌≤◌, ◌≡◌, ◌≢◌, refl, sym, ap, ◌∙◌, inl, inr, Bool, true, false, eqb, eqb_iff,
  Bool-cases, arith, subst,
}
use awl.Vpn.SwappableTun.{
  Reader, loading, answered, calling, refused, not_closed, failed, Control, idle, shutting, storing,
  closing, SwappableTun, set, exchange, close_old, close_current, load, check_swapped, looked,
  rejected, swap_if, close_if,
}
use awl.Vpn.SwappableTun.Sound.{
  IsGone, IsHandle, ReaderOk, ControlOk, IsSound, Quiet, ReaderOk-Quiet, storing_injective, reads,
  same-IsHandle, few,
}

module _ (s : SwappableTun) (v : IsSound s) where
  reader_step :
      (r : Reader) (retries : ℕ) → ReaderOk (reads s r retries) r → IsSound (reads s r retries)
  reader_step r retries k = record {
    current_used = v.current_used;
    current = v.current;
    reader_ok = k;
    control_ok = v.control_ok;
  }

  pub load_lem : s.reader ≡ loading → IsSound (load s)
  unfolding load
  load_lem e =
      let (few, count) = subst (ReaderOk s) e v.reader_ok in
      reader_step (calling s.cur) s.retries (
        record {
          used = v.current_used;
          kept = λ _. few;
          moved = λ n. absurd (n refl);
          apart = λ new c. let k = subst (ControlOk s) c v.control_ok in λ q. k.2 (sym q);
        },
        omega (arith, count),
      )

  pub answer_lem :
      (h : ℕ) → s.reader ≡ calling h → IsSound (record s { reader = answered; steps = s.steps + 1 })
  answer_lem h e =
      let (k, count) = subst (ReaderOk s) e v.reader_ok in
      reader_step answered s.retries (few s h k, omega (arith, count))

  pub refuse_lem :
      (h : ℕ)
      → s.reader ≡ calling h
      → s.is_open h ≡ false
      → IsSound (record s { reader = refused h; steps = s.steps + 1 })
  refuse_lem h e n =
      let (k, count) = subst (ReaderOk s) e v.reader_ok in
      reader_step (refused h) s.retries (same-IsHandle s (refused h) h k, n, omega (arith, count))

  pub looked_lem : (h : ℕ) (b : Bool) → s.closed ≡ b → s.reader ≡ refused h → IsSound (looked s h b)
  looked_lem h true y e =
      let (k, n, count) = subst (ReaderOk s) e v.reader_ok in
      reader_step (failed h) s.retries (inl y, few s h k, omega (arith, count))
  looked_lem h false y e =
      let (k, n, count) = subst (ReaderOk s) e v.reader_ok in
      reader_step (not_closed h) s.retries
        (same-IsHandle s (not_closed h) h k, n, omega (arith, count))

  pub check_swapped_lem : (h : ℕ) → s.reader ≡ not_closed h → IsSound (check_swapped s h)
  unfolding check_swapped
  check_swapped_lem h e =
      let (k, n, count) = subst (ReaderOk s) e v.reader_ok in
      elim (Bool-cases (eqb s.cur h)) [
        | inl y ↦ rw y (
            reader_step (failed h) s.retries (
              subst (IsGone s) ((eqb_iff s.cur h).0 y)
                  (v.current (ap s.is_open ((eqb_iff s.cur h).0 y) ∙ n)),
              few s h k,
              omega (arith, count),
            ))
        | inr m ↦
            let moved : suc s.retries ≤ s.swaps =
              k.moved (λ q. let c : true ≡ false = sym ((eqb_iff s.cur h).1 (sym q)) ∙ m in cc c) in
            rw m (reader_step loading (s.retries + 1) (omega (arith, moved), omega (arith, count)))
      ]

  Quiet-step :
      (t : SwappableTun)
      → Quiet s t
      → t.reader ≡ s.reader
      → (t.is_open t.cur ≡ false → IsGone t t.cur)
      → ControlOk t t.control
      → IsSound t
  Quiet-step t q r current control = record {
    current_used = subst (λ c. t.used c ≡ true) (sym q.cur) (q.used s.cur v.current_used);
    current = current;
    reader_ok = subst (ReaderOk t) (sym r) (ReaderOk-Quiet s.reader q v.reader_ok);
    control_ok = control;
  }

  set-true : (f : ℕ → Bool) (d e : ℕ) → f e ≡ true → set f d true e ≡ true
  set-true f d e h = ground (arith, h)

  set-false : (f : ℕ → Bool) (d e : ℕ) → f e ≡ false → set f d false e ≡ false
  set-false f d e h = ground (arith, h)

  set-other : (f : ℕ → Bool) (b c : Bool) (d e : ℕ) → d ≢ e → set f d b e ≡ c → f e ≡ c
  set-other f b c d e n h = ground (arith, h, n)

  set-same : (f : ℕ → Bool) (b : Bool) (d : ℕ) → set f d b d ≡ b
  set-same f b d = ground arith

  -- a device that has not been handed over is not the current one
  unused : (new : ℕ) → s.used new ≡ false → new ≢ s.cur
  unused new n e = let q : true ≡ false = sym v.current_used ∙ ap s.used (sym e) ∙ n in cc q

  rejected_lem : (new : ℕ) → s.control ≡ idle → s.used new ≡ false → IsSound (rejected s new)
  rejected_lem new e n =
      Quiet-step (rejected s new)
        (record {
          cur = refl;
          swaps = refl;
          retries = refl;
          steps = refl;
          used = λ d. set-true s.used new d;
          is_open = λ d. set-false s.is_open new d;
          closed = λ c. c;
          died = λ d h. h;
          fresh = λ m c. inl c;
        })
        refl (λ h. v.current (set-other s.is_open false false new s.cur (unused new n) h))
        (subst (ControlOk (rejected s new)) (sym e) tt)

  pub swap_if_lem :
      (new : ℕ) (closed fits : Bool)
      → s.control ≡ idle
      → s.used new ≡ false
      → s.is_open new ≡ true
      → IsSound (swap_if s new closed fits)
  swap_if_lem new true fits e n o = rejected_lem new e n
  swap_if_lem new false false e n o = rejected_lem new e n
  swap_if_lem new false true e n o =
      Quiet-step (swap_if s new false true)
        (record {
          cur = refl;
          swaps = refl;
          retries = refl;
          steps = refl;
          used = λ d. set-true s.used new d;
          is_open = λ d h. h;
          closed = λ c. c;
          died = λ d h. h;
          fresh = λ m c. inr (subst (λ x. s.used x ≡ false) (storing_injective new m c) n);
        })
        refl v.current
        (
          set-same s.used true new,
          λ h. absurd (let q : true ≡ false = sym o ∙ h in cc q),
          unused new n,
        )

  pub close_if_lem : (b : Bool) → s.control ≡ idle → IsSound (close_if s b)
  close_if_lem true e = v
  close_if_lem false e =
      Quiet-step (close_if s false)
        (record {
          cur = refl;
          swaps = refl;
          retries = refl;
          steps = refl;
          used = λ d h. h;
          is_open = λ d h. h;
          closed = λ c. refl;
          died = λ d h. h;
          fresh = λ m c. absurd (let q : shutting ≡ storing m = c in cc q);
        })
        refl (λ h. inl refl) refl

  shut_lem :
      (d : ℕ)
      → (set s.is_open d false s.cur ≡ false → IsGone s s.cur)
      → IsSound (record s { is_open = set s.is_open d false; control = idle })
  shut_lem d current =
      Quiet-step (record s { is_open = set s.is_open d false; control = idle })
        (record {
          cur = refl;
          swaps = refl;
          retries = refl;
          steps = refl;
          used = λ e h. h;
          is_open = λ e. set-false s.is_open d e;
          closed = λ c. c;
          died = λ e h. h;
          fresh = λ m c. absurd (let q : idle ≡ storing m = c in cc q);
        })
        refl current tt

  pub close_old_lem : (old : ℕ) → s.control ≡ closing old → IsSound (close_old s old)
  unfolding close_old
  close_old_lem old e =
      let other = subst (ControlOk s) e v.control_ok in
      shut_lem old (λ h. v.current (set-other s.is_open false false old s.cur other h))

  pub close_current_lem : s.control ≡ shutting → IsSound (close_current s)
  unfolding close_current
  close_current_lem e = shut_lem s.cur (λ h. inl (subst (ControlOk s) e v.control_ok))

  abbrev dead : ℕ → SwappableTun
  dead d = record s { is_open = set s.is_open d false; died = set s.died d true }

  IsGone-or_dead : (d : ℕ) → set s.is_open d false s.cur ≡ false → IsGone (dead d) s.cur
  IsGone-or_dead d h = elim (Bool-cases (s.is_open s.cur)) [
    | inr n ↦ elim (v.current n) [ inl c ↦ inl c | inr g ↦ inr (set-true s.died d s.cur g) ]
    | inl y ↦ inr (ground (arith, h, y))
  ]

  dead-ControlOk : (d : ℕ) (c : Control) → ControlOk s c → ControlOk (dead d) c
  dead-ControlOk d idle h = tt
  dead-ControlOk d shutting h = h
  dead-ControlOk d (closing old) h = h
  dead-ControlOk d (storing new) (u, o, n) = (u, λ h. ground (arith, h, o), n)

  pub dies_lem : (d : ℕ) → IsSound (dead d)
  dies_lem d =
      Quiet-step (dead d)
        (record {
          cur = refl;
          swaps = refl;
          retries = refl;
          steps = refl;
          used = λ e h. h;
          is_open = λ e. set-false s.is_open d e;
          closed = λ c. c;
          died = λ e. set-true s.died d e;
          fresh = λ m c. inl c;
        })
        refl (IsGone-or_dead d) (dead-ControlOk d s.control v.control_ok)

  exchanged-IsHandle :
      (h new : ℕ) → s.control ≡ storing new → IsHandle s h → IsHandle (exchange s new) h
  unfolding exchange
  exchanged-IsHandle h new e k = record {
    used = k.used;
    kept = λ q. absurd (k.apart new e q);
    moved = λ n. omega (arith, few s h k);
    apart = λ m c. absurd (let q : closing s.cur ≡ storing m = c in cc q);
  }

  exchanged-ReaderOk :
      (new : ℕ) (r : Reader) → s.control ≡ storing new → ReaderOk s r → ReaderOk (exchange s new) r
  unfolding exchange
  exchanged-ReaderOk new loading e h = (omega (arith, h.0), h.1)
  exchanged-ReaderOk new answered e h = (omega (arith, h.0), h.1)
  exchanged-ReaderOk new (calling d) e h = (exchanged-IsHandle d new e h.0, h.1)
  exchanged-ReaderOk new (refused d) e h = (exchanged-IsHandle d new e h.0, h.1, h.2)
  exchanged-ReaderOk new (not_closed d) e h = (exchanged-IsHandle d new e h.0, h.1, h.2)
  exchanged-ReaderOk new (failed d) e h = (h.0, omega (arith, h.1), h.2)

  pub exchange_lem : (new : ℕ) → s.control ≡ storing new → IsSound (exchange s new)
  unfolding exchange
  exchange_lem new e =
      let (u, o, n) = subst (ControlOk s) e v.control_ok in
      record {
        current_used = u;
        current = λ h. inr (o h);
        reader_ok = exchanged-ReaderOk new s.reader e v.reader_ok;
        control_ok = λ q. n (sym q);
      }
