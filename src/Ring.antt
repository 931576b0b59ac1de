-- ===== src/Ring.antt =====
-- The ring buffer of pointers (ringbuf.h, ringbuf.c). A pointer is a number, NULL is 0.
-- `int` indices stay below `iLen`, so no sum here leaves the range of a C int.
pub mod Refine
mod Tests
use vfi.Prelude.{ℕ, ◌+◌, ◌-◌, ◌%◌, Bool, List, ◌==◌, if◌then◌else◌, get_or, set}

-- `RINGBUF`; `array` is the memory behind `ppArray`.
pub record Ring : Type 0 where
  pub array : List ℕ
  pub i_read : ℕ
  pub i_write : ℕ
  pub i_len : ℕ

pub init : List ℕ → ℕ → Bool → Ring
init array len full = record {
  array = array;
  i_read = 0;
  i_write = if full then len - 1 else 0;
  i_len = len;
}

pub empty : Ring → Bool
empty r = r.i_read == r.i_write

-- The pointer and the ring after the call; NULL for an empty ring.
pub get : Ring → ℕ × Ring
get r =
    if r.i_read == r.i_write
    then (0, r)
    else (get_or r.array r.i_read 0, record r { i_read = (r.i_read + 1) % r.i_len })

-- The pointer itself, or NULL for a full ring.
pub put : Ring → ℕ → ℕ × Ring
put r p =
    let next = (r.i_write + 1) % r.i_len in
    if next == r.i_read
    then (0, r)
    else (p, record r { array = set r.array r.i_write p; i_write = next })
