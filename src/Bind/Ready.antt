-- ===== src/Bind/Ready.antt =====
-- The `ready` word of `struct vfi_bind` (vfi_bind.h), the local ready and done operations
-- (vfi_local_ops.c) and `vfi_dma_complete` (vfi_dma.c).
-- The functions of vfi_bind.h run under `bind->lock`; what the operations do after one of them is
-- outside of it.
use vfi.Prelude.{ℕ, ◌+◌, ◌-◌, bit_and, bit_or, bit_xor, Bool, ◌==◌, if◌then◌else◌}

-- The fields that the protocol uses. `queued` counts the calls of the engine's `queue_transfer`,
-- and the last two the done events sent to the agents.
pub record Bind : Type 0 where
  pub ready : ℕ
  pub queued : ℕ
  pub src_signals : ℕ
  pub dst_signals : ℕ

abbrev pub src_rdy : ℕ
src_rdy = 1

abbrev pub dst_rdy : ℕ
dst_rdy = 2

abbrev pub rdy : ℕ
rdy = 3

abbrev pub done_pend : ℕ
done_pend = 4

-- `w & ~m` for a word `w` below 8.
abbrev clear : ℕ → ℕ → ℕ
clear w m = bit_and w (7 - m)

unfoldable pub is_ready : Bind → Bool
is_ready b = b.ready == rdy

-- The two that follow return whether both sides are ready. A mark that is on already is only logged.
unfoldable pub src_ready : Bind → Bool × Bind
unfolding is_ready
src_ready b =
    let b' : Bind =
      if bit_and b.ready src_rdy == 0 then record b { ready = bit_or b.ready src_rdy } else b in
    (is_ready b', b')

unfoldable pub dst_ready : Bind → Bool × Bind
unfolding is_ready
dst_ready b =
    let b' : Bind =
      if bit_and b.ready dst_rdy == 0 then record b { ready = bit_or b.ready dst_rdy } else b in
    (is_ready b', b')

abbrev pub queue_transfer : Bind → Bind
queue_transfer b = record b { queued = b.queued + 1 }

unfoldable pub done_pending : Bind → Bind
unfolding is_ready
done_pending b =
    let b' : Bind = record b { ready = bit_xor b.ready done_pend } in
    if is_ready b' then queue_transfer b' else b'

unfoldable pub src_done : Bind → Bind
src_done b = if bit_and b.ready src_rdy == 0 then b else record b { ready = clear b.ready src_rdy }

unfoldable pub dst_done : Bind → Bind
dst_done b = if bit_and b.ready dst_rdy == 0 then b else record b { ready = clear b.ready dst_rdy }

-- The operations that an event starts, with nothing in between: they queue the transfer if the other
-- side was ready, after the lock is given back. `Protocol` takes them apart.
unfoldable pub local_src_ready : Bind → Bind
unfolding src_ready
local_src_ready b = let (both, b') = src_ready b in if both then queue_transfer b' else b'

unfoldable pub local_dst_ready : Bind → Bind
unfolding dst_ready
local_dst_ready b = let (both, b') = dst_ready b in if both then queue_transfer b' else b'

-- The operations of the upcall, with nothing in between: they take the ready mark back, then send the
-- done event.
abbrev pub signal_src : Bind → Bind
signal_src b = record b { src_signals = b.src_signals + 1 }

abbrev pub signal_dst : Bind → Bind
signal_dst b = record b { dst_signals = b.dst_signals + 1 }

unfoldable pub local_src_done : Bind → Bind
unfolding src_done
local_src_done b = signal_src (src_done b)

unfoldable pub local_dst_done : Bind → Bind
unfolding dst_done
local_dst_done b = signal_dst (dst_done b)

-- `vfi_dma_complete` as a whole, for a bind with local operations; `Protocol` takes it apart.
unfoldable pub dma_complete : Bind → Bind
unfolding done_pending local_src_done local_dst_done
dma_complete b = done_pending (local_src_done (local_dst_done (done_pending b)))
