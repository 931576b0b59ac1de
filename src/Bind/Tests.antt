-- ===== src/Bind/Tests.antt =====
-- Runs of the bind operations on concrete values.
use vfi.Prelude.{◌↔◌, ℕ, ◌+◌, ◌≡◌, ◌≤◌, refl, [], ◌∷◌, true, false, arith, min}
use vfi.Bind.Ready.{Bind, done_pending, src_ready, dst_ready, src_done, dst_done}
use vfi.Bind.Protocol.{
  System, Reach, here, next, src_announce, dst_announce, hand_over, complete, clear_dst, tell_dst,
  clear_src, tell_src, fresh, Stage, idle, transfers_match_announcements, one_transfer_in_flight,
  completion_can_finish,
}
use vfi.Bind.Extents.{Extents, valid_extents, Agree, valid_extents_iff}
use vfi.Bind.Delete.{Part, delete_binds, delete_takes_next}

abbrev both_ready : Bind
both_ready = record { ready = 3; queued = 1; src_signals = 0; dst_signals = 0 }

-- Both agents have announced once.
abbrev announced : System
announced = record fresh { bind = both_ready; src_calls = 1; dst_calls = 1 }

announced-Reach : Reach fresh announced
unfolding src_ready dst_ready
announced-Reach =
    next (next (next here (src_announce fresh)) (dst_announce _)) (hand_over _ (omega arith))

-- The source announces again between the two halves of a completion.
abbrev overlapped : System
overlapped = record {
  bind = record { ready = 5; queued = 1; src_signals = 1; dst_signals = 1 };
  stage = Stage.src_told;
  owed = 0;
  completed = 1;
  src_calls = 2;
  dst_calls = 1;
  repeated = 0;
}

overlapped-Reach : Reach fresh overlapped
unfolding src_ready done_pending dst_done src_done
overlapped-Reach =
    next
      (next
        (next
          (next
            (next (next announced-Reach (complete announced refl (omega arith))) (clear_dst _ refl))
            (tell_dst _ refl))
          (clear_src _ refl))
        (tell_src _ refl))
      (src_announce _)

transfers_match_announcements_example : announced.bind.queued ≡ min 1 1
transfers_match_announcements_example = transfers_match_announcements announced-Reach refl refl refl

one_transfer_in_flight_example :
    (overlapped.completed ≤ overlapped.bind.queued)
    × (overlapped.bind.queued + overlapped.owed ≤ overlapped.completed + 1)
    × (overlapped.bind.src_signals ≤ overlapped.src_calls)
    × (overlapped.bind.dst_signals ≤ overlapped.dst_calls)
one_transfer_in_flight_example = one_transfer_in_flight overlapped-Reach refl

completion_can_finish_example :
    (t : System) × Reach announced t
    × (t.stage ≡ idle)
    × (t.bind.ready ≡ 0)
    × (t.completed ≡ announced.completed + 1)
completion_can_finish_example = completion_can_finish announced-Reach refl refl refl

-- Only the source's extent is given.
abbrev source_only : Extents
source_only = record { xfer = 0; dst = 0; src = 0x40 }

valid_extents_iff_example :
    Agree source_only 0x40
    ↔ (valid_extents source_only ≡ (true, record { xfer = 0x40; dst = 0x40; src = 0x40 }))
valid_extents_iff_example = valid_extents_iff source_only 0x40

extents_disagree : (valid_extents (record { xfer = 1; dst = 2; src = 0 })).0 ≡ false
unfolding valid_extents
extents_disagree = refl

abbrev part : ℕ → Part
part n = record { offset = n; extent = 0x10 }

delete_takes_next_example :
    delete_binds (part 0x10) (part 0 ∷ part 0x10 ∷ part 0x20 ∷ part 0x30 ∷ [])
    ≡ part 0 ∷ part 0x30 ∷ []
delete_takes_next_example =
    delete_takes_next 0 (part 0 ∷ []) (part 0x10) (part 0x20) (part 0x30 ∷ []) (omega arith)
      (omega arith)
