-- ===== src/Sync.antt =====
-- The synchronisation object of a location: a counting barrier (`new_vfi_sync` in vfi_sync.c,
-- `vfi_local_sync_send` and `vfi_local_sync_wait` in vfi_local_ops.c).
-- Both calls count one arrival down under `sync->sem`; `wait` then sleeps until the count is 0.
-- The count is a C int, kept here as its word of 32 bits: an offset, which has 64 bits, is cut to it.
pub mod Barrier
mod Tests
use vfi.Prelude.{ℕ, ◌+◌, ◌-◌, ◌%◌, ◌^◌, ◌≡◌, ◌<◌, ◌==◌, if◌then◌else◌}

-- `count` of `struct vfi_sync`.
pub record Sync : Type 0 where
  pub count : ℕ

-- `new_vfi_sync`: the count is the offset of the create command.
unfoldable pub new : ℕ → Sync
new offset = record { count = offset % 2 ^ 32 }

-- How an arrival ends: `idle` leaves an unused barrier alone, `opened` is the last one and wakes the
-- sleepers, `closed` leaves others to come.
pub data Arrival : Type 0 where
  idle opened closed : Arrival

-- The part that both calls share; the offset of the command fills up an empty barrier.
unfoldable pub arrive : ℕ → Sync → Arrival × Sync
arrive offset s =
    let filled : ℕ = if s.count == 0 then (s.count + offset) % 2 ^ 32 else s.count in
    if filled == 0
    then (idle, s)
    else (if filled - 1 == 0 then opened else closed, record s { count = filled - 1 })

-- A barrier with the number of threads in the sleeping loop of `wait`, and of arrivals so far.
pub record System : Type 0 where
  pub sync : Sync
  pub sleeping : ℕ
  pub arrivals : ℕ

-- `vfi_local_sync_send`
unfoldable pub sync_send : ℕ → System → System
unfolding arrive
sync_send offset s =
    let (end, sync) = arrive offset s.sync in record s { sync = sync; arrivals = s.arrivals + 1 }

-- `vfi_local_sync_wait` up to its loop
unfoldable pub sync_wait : ℕ → System → System
unfolding arrive
sync_wait offset s =
    let (end, sync) = arrive offset s.sync in
    record s {
      sync = sync;
      arrivals = s.arrivals + 1;
      sleeping = elim end [ closed ↦ s.sleeping + 1 | _ ↦ s.sleeping ];
    }

-- The threads at the barrier: each step is what one of them does under the semaphore. A sleeper
-- leaves the loop when it finds the count at 0, or when a signal interrupts its wait.
pub data Step (offset : ℕ) : System → System → Type 0 where
  send : (s : System) → Step offset s (sync_send offset s)
  wait : (s : System) → Step offset s (sync_wait offset s)
  leave :
      (s : System)
      → 0 < s.sleeping
      → s.sync.count ≡ 0
      → Step offset s (record s { sleeping = s.sleeping - 1 })
  interrupt : (s : System) → 0 < s.sleeping → Step offset s (record s { sleeping = s.sleeping - 1 })

pub data Reach (offset : ℕ) (s : System) : System → Type 0 where
  here : Reach offset s s
  next : {t u : System} → Reach offset s t → Step offset t u → Reach offset s u
