-- ===== src/Vpn/SwappableTun.antt =====
-- vpn/swappable_tun.go: a TUN device that can be replaced while it is read. A device is a number;
-- a reader, and the host that swaps and closes, take atomic steps in any order. Write has the same
-- steps as Read. Swap and Close are not concurrent with each other, as the source assumes.
pub mod Sound
pub mod Keeps
pub mod Safety
use awl.Base.{ℕ, ◌+◌, ◌≡◌, ◌≢◌, Bool, true, false, not, eqb, if◌then◌else◌}

-- Where a call of Read stands: before it loads the handle, in the device's Read, after that has
-- answered os.ErrClosed, after it has seen that the wrapper is not closed, and when it returns the
-- device's answer or os.ErrClosed.
pub data Reader : Type 0 where
  loading answered : Reader
  calling refused not_closed failed : ℕ → Reader

-- Where Swap or Close stands: about to exchange the handle, about to close the old device, or
-- about to close the current one.
pub data Control : Type 0 where
  idle shutting : Control
  storing closing : ℕ → Control

pub record SwappableTun : Type 0 where
  pub cur : ℕ
  pub closed : Bool
  pub batch_size : ℕ
  pub is_open : ℕ → Bool
  -- closed by neither Swap nor Close
  pub died : ℕ → Bool
  -- handed to the wrapper
  pub used : ℕ → Bool
  pub reader : Reader
  pub control : Control
  -- the exchanges, and the retries and steps of the reader, since it began
  pub swaps : ℕ
  pub retries : ℕ
  pub steps : ℕ

abbrev pub set : (ℕ → Bool) → ℕ → Bool → ℕ → Bool
set f d b e = if eqb d e then b else f e

-- the new device is closed again
abbrev pub rejected : SwappableTun → ℕ → SwappableTun
rejected s new = record s { is_open = set s.is_open new false; used = set s.used new true }

abbrev pub swap_if : SwappableTun → ℕ → Bool → Bool → SwappableTun
swap_if s new true fits = rejected s new
swap_if s new false false = rejected s new
swap_if s new false true = record s { control = storing new; used = set s.used new true }

-- Swap up to the exchange
unfoldable pub begin_swap : SwappableTun → ℕ → ℕ → SwappableTun
begin_swap s new size = swap_if s new s.closed (eqb size s.batch_size)

-- w.cur.Swap
unfoldable pub exchange : SwappableTun → ℕ → SwappableTun
exchange s new = record s { cur = new; control = closing s.cur; swaps = s.swaps + 1 }

-- old.dev.Close
unfoldable pub close_old : SwappableTun → ℕ → SwappableTun
close_old s old = record s { is_open = set s.is_open old false; control = idle }

abbrev pub close_if : SwappableTun → Bool → SwappableTun
close_if s true = s
close_if s false = record s { closed = true; control = shutting }

-- Close up to the device's
unfoldable pub begin_close : SwappableTun → SwappableTun
begin_close s = close_if s s.closed

unfoldable pub close_current : SwappableTun → SwappableTun
close_current s = record s { is_open = set s.is_open s.cur false; control = idle }

-- the steps of Read
unfoldable pub load : SwappableTun → SwappableTun
load s = record s { reader = calling s.cur; steps = s.steps + 1 }

abbrev pub looked : SwappableTun → ℕ → Bool → SwappableTun
looked s h true = record s { reader = failed h; steps = s.steps + 1 }
looked s h false = record s { reader = not_closed h; steps = s.steps + 1 }

unfoldable pub check_closed : SwappableTun → ℕ → SwappableTun
check_closed s h = looked s h s.closed

unfoldable pub check_swapped : SwappableTun → ℕ → SwappableTun
check_swapped s h =
    if not (eqb s.cur h)
    then record s { reader = loading; steps = s.steps + 1; retries = s.retries + 1 }
    else record s { reader = failed h; steps = s.steps + 1 }

pub data Step : SwappableTun → SwappableTun → Type 0 where
  loads : {s : SwappableTun} → s.reader ≡ loading → Step s (load s)
  -- success, or an error that is not os.ErrClosed
  answers :
      {s : SwappableTun} {h : ℕ}
      → s.reader ≡ calling h
      → Step s (record s { reader = answered; steps = s.steps + 1 })
  -- os.ErrClosed, only of a device that is closed
  refuses :
      {s : SwappableTun} {h : ℕ}
      → s.reader ≡ calling h
      → s.is_open h ≡ false
      → Step s (record s { reader = refused h; steps = s.steps + 1 })
  looks : {s : SwappableTun} {h : ℕ} → s.reader ≡ refused h → Step s (check_closed s h)
  compares : {s : SwappableTun} {h : ℕ} → s.reader ≡ not_closed h → Step s (check_swapped s h)
  swaps_to :
      {s : SwappableTun} (new size : ℕ)
      → s.control ≡ idle
      → s.used new ≡ false
      → s.is_open new ≡ true
      → Step s (begin_swap s new size)
  exchanges : {s : SwappableTun} {new : ℕ} → s.control ≡ storing new → Step s (exchange s new)
  closes_old : {s : SwappableTun} {old : ℕ} → s.control ≡ closing old → Step s (close_old s old)
  closes : {s : SwappableTun} → s.control ≡ idle → Step s (begin_close s)
  closes_current : {s : SwappableTun} → s.control ≡ shutting → Step s (close_current s)
  -- a device is closed from outside of the wrapper
  dies :
      {s : SwappableTun} (d : ℕ)
      → Step s (record s { is_open = set s.is_open d false; died = set s.died d true })

-- NewSwappableTUN, with a Read that begins
abbrev pub new_swappable_tun : ℕ → ℕ → SwappableTun
new_swappable_tun initial size = record {
  cur = initial;
  closed = false;
  batch_size = size;
  is_open = λ d. true;
  died = λ d. false;
  used = λ d. eqb initial d;
  reader = loading;
  control = idle;
  swaps = 0;
  retries = 0;
  steps = 0;
}

pub data Reach (s : SwappableTun) : SwappableTun → Type 0 where
  here : Reach s s
  later : {t u : SwappableTun} → Reach s t → Step t u → Reach s u
