-- ===== src/RingBuffer.antt =====
-- ringbuffer/ring_buffer.go. Each method holds the mutex from its first to its last access of the
-- fields, so a method is one step. `size` is a size that `make` accepts.
pub mod History
use awl.Base.{
  ℕ, ◌+◌, ◌-◌, ◌*◌, ◌/◌, ◌≤◌, ◌<◌, ◌≡◌, List, [], ◌∷◌, length, take, drop, replicate, copy_at,
  overlay, min, ltb, eqb, if◌then◌else◌,
}

pub record RingBuffer : Type 0 where
  pub buf : List ℕ
  pub size : ℕ
  pub pos : ℕ

abbrev pub filling_rate : ℕ
filling_rate = 17

unfoldable pub new : ℕ → RingBuffer
new size = record { buf = replicate (size * 2) 0; size = size; pos = 0 }

-- the bytes that slide to the front when the buffer has filled up
unfoldable pub compact : RingBuffer → RingBuffer
compact r =
    if ltb (r.size * filling_rate / 10) r.pos
    then record r {
      buf = copy_at 0 r.buf (take r.size (drop (r.pos - r.size) r.buf));
      pos = r.size;
    }
    else r

-- `copy` stops at the end of the buffer, and Write reports how many bytes it took.
abbrev append : RingBuffer → List ℕ → RingBuffer × ℕ
append r p =
    let n = min (length r.buf - r.pos) (length p) in
    (record r { buf = copy_at r.pos r.buf p; pos = r.pos + n }, n)

unfoldable pub write : RingBuffer → List ℕ → RingBuffer × ℕ
write r p = if eqb (length p) 0 then (r, 0) else append (compact r) p

unfoldable pub bytes : RingBuffer → List ℕ
bytes r = if eqb r.pos 0 then [] else take (r.pos - (r.pos - r.size)) (drop (r.pos - r.size) r.buf)

unfoldable pub reset : RingBuffer → RingBuffer
reset r = record r { pos = 0 }
