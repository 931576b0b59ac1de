-- ===== src/Bind/Protocol.antt =====
-- The agents of a bind and its DMA engine, one atomic section at a time.
-- The source and the destination announce that they are ready (`vfi_local_src_ready`,
-- `vfi_local_dst_ready`) at any time: a locked section, then, if both are ready, the call of
-- `queue_transfer`, which other steps may come before. The engine completes a transfer that it was given
-- by `vfi_dma_complete`, whose four locked sections and two done events interleave with the rest.
use vfi.Prelude.{
  ℕ, zero, suc, ◌+◌, ◌-◌, ◌*◌, ◌/◌, ◌%◌, ◌≤◌, ◌<◌, ◌≡◌, refl, ap, ap₂, subst, min, arith, Bool,
  bit_and, bit_or, bit_xor, ◌==◌, if◌then◌else◌,
}
use vfi.Bind.Ready.{
  Bind, src_rdy, dst_rdy, rdy, done_pending, src_ready, dst_ready, src_done, dst_done,
  queue_transfer, signal_src, signal_dst, local_src_ready, local_dst_ready, local_src_done,
  local_dst_done, dma_complete,
}

-- How far `vfi_dma_complete` has come.
pub data Stage : Type 0 where
  idle pended dst_cleared dst_told src_cleared src_told : Stage

pub record System : Type 0 where
  pub bind : Bind
  pub stage : Stage
  pub owed : ℕ  -- calls of `queue_transfer` that announcements have still to make
  pub completed : ℕ  -- calls of `vfi_dma_complete` that have begun
  pub src_calls : ℕ  -- announcements of the source
  pub dst_calls : ℕ  -- announcements of the destination
  pub repeated : ℕ  -- announcements by a side whose mark was on

-- The locked section of an announcement, and what it leaves to be done.
abbrev with_owed : Bool × Bind → System → System
with_owed (both, b) s = record s { bind = b; owed = if both then s.owed + 1 else s.owed }

abbrev count_repeated : ℕ → ℕ → ℕ
count_repeated mark n = if mark == 0 then n else n + 1

abbrev pub src_announced : System → System
src_announced s = record (with_owed (src_ready s.bind) s) {
  src_calls = s.src_calls + 1;
  repeated = count_repeated (bit_and s.bind.ready src_rdy) s.repeated;
}

abbrev pub dst_announced : System → System
dst_announced s = record (with_owed (dst_ready s.bind) s) {
  dst_calls = s.dst_calls + 1;
  repeated = count_repeated (bit_and s.bind.ready dst_rdy) s.repeated;
}

pub data Step : System → System → Type 0 where
  src_announce : (s : System) → Step s (src_announced s)
  dst_announce : (s : System) → Step s (dst_announced s)
  hand_over :
      (s : System)
      → 0 < s.owed
      → Step s (record s { bind = queue_transfer s.bind; owed = s.owed - 1 })
  complete :
      (s : System)
      → s.stage ≡ idle
      → s.completed < s.bind.queued
      → Step s
          (record s { bind = done_pending s.bind; stage = pended; completed = s.completed + 1 })
  clear_dst :
      (s : System)
      → s.stage ≡ pended
      → Step s (record s { bind = dst_done s.bind; stage = dst_cleared })
  tell_dst :
      (s : System)
      → s.stage ≡ dst_cleared
      → Step s (record s { bind = signal_dst s.bind; stage = dst_told })
  clear_src :
      (s : System)
      → s.stage ≡ dst_told
      → Step s (record s { bind = src_done s.bind; stage = src_cleared })
  tell_src :
      (s : System)
      → s.stage ≡ src_cleared
      → Step s (record s { bind = signal_src s.bind; stage = src_told })
  rearm :
      (s : System)
      → s.stage ≡ src_told
      → Step s (record s { bind = done_pending s.bind; stage = idle })

pub data Reach (s : System) : System → Type 0 where
  here : Reach s s
  next : {t u : System} → Reach s t → Step t u → Reach s u

-- A new bind, before any announcement.
abbrev pub fresh : System
fresh = record {
  bind = record { ready = 0; queued = 0; src_signals = 0; dst_signals = 0 };
  stage = idle;
  owed = 0;
  completed = 0;
  src_calls = 0;
  dst_calls = 0;
  repeated = 0;
}

-- The marks that the completion under way has still to take back, its events still to be sent, and its
-- own mark.
abbrev src_marked : Stage → ℕ
src_marked pended = 1
src_marked dst_cleared = 1
src_marked dst_told = 1
src_marked _ = 0

abbrev dst_marked : Stage → ℕ
dst_marked pended = 1
dst_marked _ = 0

abbrev src_untold : Stage → ℕ
src_untold idle = 0
src_untold src_told = 0
src_untold _ = 1

abbrev dst_untold : Stage → ℕ
dst_untold pended = 1
dst_untold dst_cleared = 1
dst_untold _ = 0

abbrev pend_mark : Stage → ℕ
pend_mark idle = 0
pend_mark _ = 1

-- The transfers that the engine holds or will be handed.
abbrev pub in_flight : Stage → ℕ → ℕ
in_flight idle ready = if ready == rdy then 1 else 0
in_flight _ ready = 0

pub record Inv (s : System) : Type 0 where
  pub small : s.bind.ready < 8
  pub pending : s.bind.ready / 4 ≡ pend_mark s.stage
  pub src_holds : src_marked s.stage ≤ s.bind.ready % 2
  pub dst_holds : dst_marked s.stage ≤ s.bind.ready / 2 % 2
  pub src_count : s.src_calls + src_marked s.stage ≡ s.completed + s.bind.ready % 2
  pub dst_count : s.dst_calls + dst_marked s.stage ≡ s.completed + s.bind.ready / 2 % 2
  pub queue_count : s.bind.queued + s.owed ≡ s.completed + in_flight s.stage s.bind.ready
  pub owed_fits : s.owed ≤ in_flight s.stage s.bind.ready
  pub src_signal_count : s.bind.src_signals + src_untold s.stage ≡ s.completed
  pub dst_signal_count : s.bind.dst_signals + dst_untold s.stage ≡ s.completed

-- The bit operations on the words below 8, as arithmetic.
word_table :
    (r : ℕ)
    → r < 8
    → ((bit_and r 1 ≡ r % 2)
        × (bit_and r 2 ≡ r / 2 % 2 * 2)
        × (bit_or r 1 ≡ r - r % 2 + 1)
        × (bit_or r 2 ≡ r - r / 2 % 2 * 2 + 2)
        × (bit_and r 6 ≡ r - r % 2)
        × (bit_and r 5 ≡ r - r / 2 % 2 * 2)
        × (bit_xor r 4 ≡ (r + 4) % 8))
word_table zero h = (refl, refl, refl, refl, refl, refl, refl)
word_table (suc zero) h = (refl, refl, refl, refl, refl, refl, refl)
word_table (suc (suc zero)) h = (refl, refl, refl, refl, refl, refl, refl)
word_table (suc (suc (suc zero))) h = (refl, refl, refl, refl, refl, refl, refl)
word_table (suc (suc (suc (suc zero)))) h = (refl, refl, refl, refl, refl, refl, refl)
word_table (suc (suc (suc (suc (suc zero))))) h = (refl, refl, refl, refl, refl, refl, refl)
word_table (suc (suc (suc (suc (suc (suc zero)))))) h = (refl, refl, refl, refl, refl, refl, refl)
word_table (suc (suc (suc (suc (suc (suc (suc zero))))))) h =
    (refl, refl, refl, refl, refl, refl, refl)
word_table (suc (suc (suc (suc (suc (suc (suc (suc r)))))))) h = absurd (omega arith)

-- Every step keeps the books, as long as no announcement was repeated.
pub Step-Inv : {s t : System} → Step s t → (s.repeated ≡ 0 → Inv s) → t.repeated ≡ 0 → Inv t
unfolding src_ready dst_ready done_pending src_done dst_done
Step-Inv (src_announce s) v once =
    let w = v (ground (arith, once)) in ground (arith, w, word_table s.bind.ready w.small, once)
Step-Inv (dst_announce s) v once =
    let w = v (ground (arith, once)) in ground (arith, w, word_table s.bind.ready w.small, once)
Step-Inv (hand_over s h) v once = ground (arith, v once)
Step-Inv (complete s e h) v once =
    let w = v once in ground (arith, w, word_table s.bind.ready w.small)
Step-Inv (clear_dst s e) v once =
    let w = v once in ground (arith, w, word_table s.bind.ready w.small)
Step-Inv (tell_dst s e) v once = ground (arith, v once)
Step-Inv (clear_src s e) v once =
    let w = v once in ground (arith, w, word_table s.bind.ready w.small)
Step-Inv (tell_src s e) v once = ground (arith, v once)
Step-Inv (rearm s e) v once = let w = v once in ground (arith, w, word_table s.bind.ready w.small)

pub Reach-Inv : {s t : System} → Inv s → Reach s t → t.repeated ≡ 0 → Inv t
Reach-Inv v here once = v
Reach-Inv v (next r st) once = Step-Inv st (Reach-Inv v r) once

pub fresh-Inv : Inv fresh
fresh-Inv = omega arith

-- In every interleaving of announcements, completions and calls of `queue_transfer` that starts from a
-- new bind and in which no agent has announced while its mark was on: whenever no completion is under
-- way and no announcement has still to call `queue_transfer`, the engine was given one transfer for each
-- pair of announcements, as many as the agent that announced less often has announced.
pub transfers_match_announcements :
    {s : System}
    → Reach fresh s
    → s.repeated ≡ 0
    → s.stage ≡ idle
    → s.owed ≡ 0
    → s.bind.queued ≡ min s.src_calls s.dst_calls
transfers_match_announcements {s} r once e f = ground (arith, Reach-Inv fresh-Inv r once)

-- In every interleaving of announcements, completions and calls of `queue_transfer` that starts from a
-- new bind and in which no agent has announced while its mark was on, also in the middle of a completion:
-- the transfers of the bind that the engine holds and those that it is still to
-- be given are at most one, and no agent has been sent more done events than it has announced.
pub one_transfer_in_flight :
    {s : System}
    → Reach fresh s
    → s.repeated ≡ 0
    → (s.completed ≤ s.bind.queued)
      × (s.bind.queued + s.owed ≤ s.completed + 1)
      × (s.bind.src_signals ≤ s.src_calls)
      × (s.bind.dst_signals ≤ s.dst_calls)
one_transfer_in_flight {s} r once = ground (arith, Reach-Inv fresh-Inv r once)

-- `vfi_dma_complete` with no announcement in between takes both marks back, sends one done event to
-- each agent and gives the engine nothing.
pub dma_complete_lem :
    (b : Bind)
    → b.ready ≡ rdy
    → dma_complete b
      ≡ record b { ready = 0; src_signals = b.src_signals + 1; dst_signals = b.dst_signals + 1 }
unfolding dma_complete
dma_complete_lem b e = ground arith

in_flight_fits : (st : Stage) (r : ℕ) → in_flight st r ≤ 1
in_flight_fits idle r = ground arith
in_flight_fits pended r = omega arith
in_flight_fits dst_cleared r = omega arith
in_flight_fits dst_told r = omega arith
in_flight_fits src_cleared r = omega arith
in_flight_fits src_told r = omega arith

-- The call of `queue_transfer` that an announcement has still to make.
abbrev pub handed : System → System
handed s = record s { bind = record s.bind { queued = s.bind.queued + s.owed }; owed = 0 }

handed-Reach : {s : System} → Reach fresh s → s.repeated ≡ 0 → Reach s (handed s)
handed-Reach {s} r once =
    let v = Reach-Inv fresh-Inv r once in
    by_owed s.owed refl (omega (arith, v.owed_fits, in_flight_fits s.stage s.bind.ready))
  where
    with_queue : ℕ → ℕ → System
    with_queue queued owed = record s { bind = record s.bind { queued = queued }; owed = owed }

    by_owed : (n : ℕ) → s.owed ≡ n → n ≤ 1 → Reach s (handed s)
    by_owed zero e h = subst (Reach s) (ap₂ with_queue (omega (arith, e)) e) here
    by_owed (suc zero) e h =
        subst (Reach s) (ap₂ with_queue (omega (arith, e)) (omega (arith, e)))
          (next here (hand_over s (omega (arith, e))))
    by_owed (suc (suc n)) e h = absurd (omega (arith, h))

-- From every state that a new bind comes to without an announcement by an agent whose mark was on, in which both agents are ready and no completion
-- is under way, the engine can complete the transfer, after it has been handed to it where that is still
-- to be done, and then both agents can announce again.
pub completion_can_finish :
    {s : System}
    → Reach fresh s
    → s.repeated ≡ 0
    → s.stage ≡ idle
    → s.bind.ready ≡ rdy
    → (t : System) × Reach s t
      × (t.stage ≡ idle)
      × (t.bind.ready ≡ 0)
      × (t.completed ≡ s.completed + 1)
unfolding dma_complete local_src_done local_dst_done
completion_can_finish {s} r once e f = (
  record (handed s) {
    bind = dma_complete (handed s).bind;
    stage = idle;
    completed = s.completed + 1;
  },
  next
      (next
        (next
          (next (next (next (handed-Reach r once) (complete (handed s) e given)) (clear_dst _ refl))
            (tell_dst _ refl))
          (clear_src _ refl))
        (tell_src _ refl))
      (rearm _ refl),
  refl,
  ap (λ b. b.ready) (dma_complete_lem (handed s).bind f),
  refl,
)
  where
    given : s.completed < s.bind.queued + s.owed
    given = ground (arith, (Reach-Inv fresh-Inv r once).queue_count)

-- An announcement made while the transfer it asked for is still in flight is only logged, and the
-- same descriptor is given to the engine a second time.
pub announce_twice :
    (b : Bind)
    → b.ready ≡ rdy
    → (local_src_ready b ≡ record b { queued = b.queued + 1 })
      × (local_dst_ready b ≡ record b { queued = b.queued + 1 })
unfolding local_src_ready local_dst_ready
announce_twice b e = ground arith
