-- ===== src/Forward/Events.antt =====
-- The members of vfi_fabric_ops.c for events: their creation with doorbells, the doorbells themselves,
-- and the commands that start, find and chain events on another board.
use vfi.Prelude.{ℕ, List, [], ◌∷◌, ◌++◌, Option, none, some, if◌then◌else◌, bytes}
use vfi.Ops.Model.{ℤ, pos, negsuc, einval, Op, Desc, BindDesc, Object}
use vfi.Ops.Dispatch.{line}
use vfi.Parse.Desc.{get_option}
use vfi.Bind.Ready.{Bind}
use vfi.Bind.Ready
use vfi.Forward.Model.{
  Board, Text, Called, replied, failed, Verdict, unparsed, nameless, read, Slot, src_ready,
  src_done, dst_ready, dst_done, Effect, sent, got, freed, parsed, cleaned, doorbell_on,
  doorbell_off, doorbell, noted, event_made, event_deleted, list_found, list_made, list_put, Run,
  run, before, read_desc,
}
use vfi.Forward.Requests.{at, event_name_of}

-- The doorbell that a command names, or -1.
abbrev pub named_bell : Text → List ℕ → ℤ
named_bell t s = elim (t.scan s) [ none ↦ negsuc 0 | some n ↦ n ]

abbrev pub listing : Board → List ℕ → Effect
listing b name = if b.find_vfi_events name then list_found name else list_made name

-- The two events of one side of a bind: `ready` is sent by the doorbell that the command names, and a
-- new doorbell is registered for `done`.
abbrev pub two_events : Board → Object → Slot → Slot → Option (List ℕ) → Option (List ℕ) → Run
two_events b bind ready done none name = run einval none []
two_events b bind ready done (some id) none = run einval none []
two_events b bind ready done (some id) (some name) =
    let bell = named_bell b.text id in
    let own = b.vfi_doorbell_register bind done in
    run (pos 0) none (
      listing b name
      ∷ event_made ready bell
      ∷ noted ready bell
      ∷ doorbell_on own
      ∷ event_made done own
      ∷ noted done own
      ∷ list_put name
      ∷ [])

unfoldable pub fabric_dst_events : Board → Object → BindDesc → Option Run
fabric_dst_events b bind d = some (
    two_events b bind dst_ready dst_done (get_option d.dst.query (bytes "event_id"))
      (get_option d.dst.query (bytes "event_name")))

unfoldable pub fabric_src_events : Board → Object → BindDesc → Option Run
fabric_src_events b bind d =
    if b.has_event bind src_ready
    then some (run (pos 0) none [])
    else some (
        two_events b bind src_ready src_done (get_option d.src.query (bytes "event_id"))
          (get_option d.src.query (bytes "event_name")))

-- The events of a side are deleted, and the doorbell of `done` is given back.
abbrev pub events_gone : Board → Object → Slot → Slot → Run
events_gone b bind ready done = run (pos 0) none (
    event_deleted ready
    ∷ event_deleted done
    ∷ doorbell_off (b.event_id bind done)
    ∷ noted ready (pos 0)
    ∷ noted done (pos 0)
    ∷ [])

unfoldable pub fabric_dst_ev_delete : Board → Object → Option Run
fabric_dst_ev_delete b bind = some (events_gone b bind dst_ready dst_done)

unfoldable pub fabric_src_ev_delete : Board → Object → Option Run
fabric_src_ev_delete b bind = some (events_gone b bind src_ready src_done)

-- The ready word of the bind is changed here as on the other board, to which a doorbell goes. `peer` is
-- where its address is, if there is one.
abbrev pub ring : Board → Option Object → Object → Slot → List Effect
ring b none bind slot = []
ring b (some peer) bind slot = doorbell peer (b.event_id bind slot) ∷ []

unfoldable pub fabric_src_done : Board → Option Object → Object → Bind → List Effect × Bind
unfolding Ready.src_done
fabric_src_done b peer bind w = (ring b peer bind src_done, Ready.src_done w)

unfoldable pub fabric_dst_done : Board → Option Object → Object → Bind → List Effect × Bind
unfolding Ready.dst_done
fabric_dst_done b peer bind w = (ring b peer bind dst_done, Ready.dst_done w)

unfoldable pub fabric_src_ready : Board → Option Object → Object → Bind → List Effect × Bind
unfolding Ready.src_ready
fabric_src_ready b peer bind w = (ring b peer bind src_ready, (Ready.src_ready w).1)

unfoldable pub fabric_dst_ready : Board → Option Object → Object → Bind → List Effect × Bind
unfolding Ready.dst_ready
fabric_dst_ready b peer bind w = (ring b peer bind dst_ready, (Ready.dst_ready w).1)

-- A command about events: the result is the other board's, or -EINVAL; the buffer is freed whether the
-- reply is parsed or not.
abbrev pub event_result : Option ℤ → ℤ
event_result none = einval
event_result (some n) = n

abbrev pub event_heard : Verdict Desc → Option Run
event_heard unparsed = some (run einval none (got ∷ freed ∷ []))
event_heard nameless = none
event_heard (read reply n) = some (run (event_result n) none (got ∷ parsed ∷ cleaned ∷ freed ∷ []))

abbrev pub event_called : Board → Called → Option Run
event_called b (failed e) = some (run einval none [])
event_called b (replied r) = event_heard (read_desc b.text r)

abbrev pub event_sent : Board → Object → List ℕ → Option Run
event_sent b loc text = before (sent loc text ∷ []) (event_called b (b.vfi_fabric_call loc text))

unfoldable pub fabric_event_start : Board → Object → Desc → Option Run
fabric_event_start b loc d = event_sent b loc (line Op.event_start (at d))

unfoldable pub fabric_event_find : Board → Object → Desc → Option Run
fabric_event_find b loc d = event_sent b loc (line Op.event_find (at d))

unfoldable pub fabric_event_chain : Board → Object → Desc → Option Run
fabric_event_chain b loc d = event_sent b loc (line Op.event_chain (at d ++ 63 ∷ event_name_of d))
