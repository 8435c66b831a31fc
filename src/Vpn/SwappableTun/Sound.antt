-- ===== src/Vpn/SwappableTun/Sound.antt =====
-- The invariant of the swappable device, and the steps that leave its reader alone.
use awl.Base.{
  ℕ, suc, ◌+◌, ◌*◌, ◌≤◌, ◌≡◌, ◌≢◌, sym, ap, ◌∙◌, ◌⊎◌, inl, inr, true, false, eqb, eqb_iff,
  Bool-cases, arith,
}
use awl.Vpn.SwappableTun.{
  Reader, loading, answered, calling, refused, not_closed, failed, Control, idle, shutting, storing,
  closing, SwappableTun,
}

-- the device is closed for good: by Close, or from outside of the wrapper
abbrev pub IsGone : SwappableTun → ℕ → Type 0
IsGone s d = (s.closed ≡ true) ⊎ (s.died d ≡ true)

-- The device of the handle is not about to be made current, and the retries are within the swaps.
pub record IsHandle (s : SwappableTun) (h : ℕ) : Type 0 where
  pub used : s.used h ≡ true
  pub kept : h ≡ s.cur → s.retries ≤ s.swaps
  pub moved : h ≢ s.cur → suc s.retries ≤ s.swaps
  pub apart : (new : ℕ) → s.control ≡ storing new → h ≢ new

abbrev pub ReaderOk : SwappableTun → Reader → Type 0
ReaderOk s loading = (s.retries ≤ s.swaps) × (s.steps ≡ 4 * s.retries)
ReaderOk s answered = (s.retries ≤ s.swaps) × (s.steps ≤ 4 * s.retries + 4)
ReaderOk s (calling h) = IsHandle s h × (s.steps ≡ 4 * s.retries + 1)
ReaderOk s (refused h) = IsHandle s h × (s.is_open h ≡ false) × (s.steps ≡ 4 * s.retries + 2)
ReaderOk s (not_closed h) = IsHandle s h × (s.is_open h ≡ false) × (s.steps ≡ 4 * s.retries + 3)
ReaderOk s (failed h) = IsGone s h × (s.retries ≤ s.swaps) × (s.steps ≤ 4 * s.retries + 4)

abbrev pub ControlOk : SwappableTun → Control → Type 0
ControlOk s idle = Unit
ControlOk s shutting = s.closed ≡ true
ControlOk s (storing new) =
    (s.used new ≡ true) × (s.is_open new ≡ false → s.died new ≡ true) × (new ≢ s.cur)
ControlOk s (closing old) = old ≢ s.cur

pub record IsSound (s : SwappableTun) : Type 0 where
  pub current_used : s.used s.cur ≡ true
  pub current : s.is_open s.cur ≡ false → IsGone s s.cur
  pub reader_ok : ReaderOk s s.reader
  pub control_ok : ControlOk s s.control

-- a step that leaves the handle and the reader alone
pub record Quiet (s t : SwappableTun) : Type 0 where
  pub cur : t.cur ≡ s.cur
  pub swaps : t.swaps ≡ s.swaps
  pub retries : t.retries ≡ s.retries
  pub steps : t.steps ≡ s.steps
  pub used : (d : ℕ) → s.used d ≡ true → t.used d ≡ true
  pub is_open : (d : ℕ) → s.is_open d ≡ false → t.is_open d ≡ false
  pub closed : s.closed ≡ true → t.closed ≡ true
  pub died : (d : ℕ) → s.died d ≡ true → t.died d ≡ true
  pub fresh : (new : ℕ) → t.control ≡ storing new → (s.control ≡ storing new) ⊎ (s.used new ≡ false)

IsGone-Quiet : {s t : SwappableTun} (d : ℕ) → Quiet s t → IsGone s d → IsGone t d
IsGone-Quiet d q (inl c) = inl (q.closed c)
IsGone-Quiet d q (inr g) = inr (q.died d g)

apart-fresh :
    {s : SwappableTun} (h new : ℕ)
    → IsHandle s h
    → (s.control ≡ storing new) ⊎ (s.used new ≡ false)
    → h ≢ new
apart-fresh h new k (inl e) = k.apart new e
apart-fresh {s = s} h new k (inr n) =
    λ e. let q : true ≡ false = sym k.used ∙ ap s.used e ∙ n in cc q

IsHandle-Quiet : {s t : SwappableTun} (h : ℕ) → Quiet s t → IsHandle s h → IsHandle t h
IsHandle-Quiet {s = s} {t = t} h q k = record {
  used = q.used h k.used;
  kept = λ e. rw (q.retries, q.swaps) (k.kept (e ∙ q.cur));
  moved = λ n. rw (q.retries, q.swaps) (k.moved (λ e. n (e ∙ sym q.cur)));
  apart = λ new e. apart-fresh {s = s} h new k (q.fresh new e);
}

pub ReaderOk-Quiet : {s t : SwappableTun} (r : Reader) → Quiet s t → ReaderOk s r → ReaderOk t r
ReaderOk-Quiet loading q h = rw (q.retries, q.swaps, q.steps) h
ReaderOk-Quiet answered q h = rw (q.retries, q.swaps, q.steps) h
ReaderOk-Quiet (calling d) q h = (IsHandle-Quiet d q h.0, rw (q.retries, q.steps) h.1)
ReaderOk-Quiet (refused d) q h =
    (IsHandle-Quiet d q h.0, q.is_open d h.1, rw (q.retries, q.steps) h.2)
ReaderOk-Quiet (not_closed d) q h =
    (IsHandle-Quiet d q h.0, q.is_open d h.1, rw (q.retries, q.steps) h.2)
ReaderOk-Quiet (failed d) q h =
    (IsGone-Quiet d q h.0, rw (q.retries, q.swaps) h.1, rw (q.retries, q.steps) h.2)

pub storing_injective : (m n : ℕ) → storing m ≡ storing n → m ≡ n
storing_injective m n e = cc

-- a step of the reader
abbrev pub reads : SwappableTun → Reader → ℕ → SwappableTun
reads s r retries = record s { reader = r; steps = s.steps + 1; retries = retries }

pub same-IsHandle :
    (s : SwappableTun) (r : Reader) (h : ℕ) → IsHandle s h → IsHandle (reads s r s.retries) h
same-IsHandle s r h k = record { used = k.used; kept = k.kept; moved = k.moved; apart = k.apart }

pub few : (s : SwappableTun) (h : ℕ) → IsHandle s h → s.retries ≤ s.swaps
few s h k = elim (Bool-cases (eqb h s.cur)) [
  | inl y ↦ k.kept ((eqb_iff h s.cur).0 y)
  | inr n ↦
      let m : suc s.retries ≤ s.swaps =
        k.moved (λ e. let q : true ≡ false = sym ((eqb_iff h s.cur).1 e) ∙ n in cc q) in
      omega (arith, m)
]
