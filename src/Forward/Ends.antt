-- ===== src/Forward/Ends.antt =====
-- `vfi_fabric_dsts_create` and `vfi_fabric_srcs_create` (vfi_fabric_ops.c), which set up the two ends
-- of a bind: a doorbell, a local object and the command to the other board, taken back on failure.
use vfi.Prelude.{
  ℕ, Bool, true, false, not, List, [], ◌∷◌, ◌++◌, Option, none, some, ◌==◌, if◌then◌else◌, bytes,
}
use vfi.Ops.Model.{ℤ, pos, negsuc, is_zero, einval, Op, Desc, BindDesc, a_dsts, a_srcs, Object}
use vfi.Ops.Dispatch.{line}
use vfi.Parse.Desc.{get_option}
use vfi.Forward.Model.{
  Board, Text, Called, replied, failed, Verdict, unparsed, nameless, read, src_ready, src_done,
  dst_ready, dst_done, Effect, sent, got, freed, parsed, cleaned, stub, deleted, put, doorbell_on,
  doorbell_off, noted, loaded, Run, run, before, read_bind,
}
use vfi.Forward.Creates.{if_named}
use vfi.Forward.Requests.{bind_spot, event_name, event_id}

abbrev pub is_negative : ℤ → Bool
is_negative (pos n) = false
is_negative (negsuc n) = true

abbrev pub option : Desc → List ℕ → Option (List ℕ)
option d name = get_option d.query name

-- The number of the option `event_id` of a reply.
abbrev pub event_number : Text → Option (List ℕ) → Option ℤ
event_number t none = none
event_number t (some s) = t.scan s

-- Whether a reply's result is a number other than 0.
abbrev pub refusal : Option ℤ → Bool
refusal none = false
refusal (some n) = not (is_zero n)

-- `dsts_create`, from its end: the event that the reply names is noted; a reply that is not parsed or
-- names none takes everything back. `id` is the doorbell.
module _ (b : Board) (parent dsts : Object) (id : ℤ) where
  abbrev pub dsts_undone : List Effect → Run
  dsts_undone log = run einval (some dsts) (log ++ deleted a_dsts dsts ∷ doorbell_off id ∷ [])

  abbrev pub dsts_noted : Option ℤ → Run
  dsts_noted none = dsts_undone (got ∷ parsed ∷ cleaned ∷ freed ∷ [])
  dsts_noted (some n) =
      run (pos 0) (some dsts) (
        got ∷ parsed ∷ noted dst_done n ∷ noted dst_ready id ∷ loaded parent ∷ freed ∷ cleaned ∷ [])

  abbrev pub dsts_read : Verdict BindDesc → Option Run
  dsts_read unparsed = some (dsts_undone (got ∷ freed ∷ []))
  dsts_read nameless = none
  dsts_read (read reply n) =
      if refusal n
      then some (dsts_undone (got ∷ parsed ∷ cleaned ∷ freed ∷ []))
      else some (dsts_noted (event_number b.text (option reply.dst (bytes "event_id"))))

  abbrev pub dsts_called : Called → Option Run
  dsts_called (failed e) = some (dsts_undone [])
  dsts_called (replied r) = dsts_read (read_bind b.text r)

abbrev pub dsts_command : Board → Object → ℤ → List ℕ → List ℕ → BindDesc → List ℕ
dsts_command b parent id dst_name src_name d = line Op.dsts_create (
    bind_spot b.text d (63 ∷ (event_id b.text id ++ 44 ∷ event_name dst_name))
      (63 ∷ event_name src_name))

abbrev pub dsts_made :
    Board → Object → ℤ → List ℕ → List ℕ → BindDesc → Option Object → Bool → Option Run
dsts_made b parent id dst_name src_name d none ok = some (run einval none (doorbell_off id ∷ []))
dsts_made b parent id dst_name src_name d (some dsts) false =
    some (run einval (some dsts) (doorbell_off id ∷ []))
dsts_made b parent id dst_name src_name d (some dsts) true =
    let text = dsts_command b parent id dst_name src_name d in
    before (sent (b.dst_ploc parent) text ∷ [])
      (dsts_called b parent dsts id (b.vfi_fabric_call (b.dst_ploc parent) text))

abbrev pub dsts_named : Board → Object → BindDesc → Option (List ℕ) → Option (List ℕ) → Option Run
dsts_named b parent d none src_name = some (run einval none [])
dsts_named b parent d (some dst_name) none = some (run einval none [])
dsts_named b parent d (some dst_name) (some src_name) =
    let id = b.vfi_doorbell_register parent dst_ready in
    let made = b.create_bind a_dsts parent d in
    if is_negative id
    then some (run einval none [])
    else before (doorbell_on id ∷ stub a_dsts parent ∷ [])
        (dsts_made b parent id dst_name src_name d made.obj (is_zero made.ret))

-- The names of the events are those of the parent's description.
unfoldable pub fabric_dsts_create : Board → Object → BindDesc → Option Run
fabric_dsts_create b parent d =
    dsts_named b parent d (option (b.bind_desc parent).dst (bytes "event_name"))
      (option (b.bind_desc parent).src (bytes "event_name"))

-- `srcs_create`. `id` is the doorbell, -1 if the bind has its event already; `ready` is the event that
-- is sent. The results are those of the variable `ret` on each way.
abbrev pub bell_off : ℤ → List Effect
bell_off (pos n) = doorbell_off (pos n) ∷ []
bell_off (negsuc n) = if n == 0 then [] else doorbell_off (negsuc n) ∷ []

module _ (b : Board) (bind parent srcs : Object) (id : ℤ) where
  abbrev pub srcs_undone : ℤ → List Effect → Run
  srcs_undone ret log =
      run ret (some srcs) (log ++ (deleted a_srcs srcs ∷ (bell_off id ++ put bind ∷ [])))

  -- The event of the other board is wanted only where the bind has none.
  abbrev pub srcs_noted : ℤ → Bool → Option ℤ → Run
  srcs_noted ret false n = run ret (some srcs) (got ∷ parsed ∷ loaded parent ∷ cleaned ∷ freed ∷ [])
  srcs_noted ret true none = srcs_undone ret (got ∷ parsed ∷ cleaned ∷ freed ∷ [])
  srcs_noted ret true (some n) =
      run ret (some srcs) (got ∷ parsed ∷ noted src_done n ∷ loaded parent ∷ cleaned ∷ freed ∷ [])

  abbrev pub srcs_wanted : ℤ → BindDesc → Run
  srcs_wanted ret reply =
      srcs_noted ret (is_negative (b.event_id bind src_done))
        (event_number b.text (option reply.src (bytes "event_id")))

  abbrev pub srcs_read : Verdict BindDesc → Option Run
  srcs_read unparsed = some (srcs_undone einval (got ∷ freed ∷ []))
  srcs_read nameless = none
  srcs_read (read reply none) = some (srcs_wanted einval reply)
  srcs_read (read reply (some n)) =
      if is_zero n
      then some (srcs_wanted n reply)
      else some (srcs_undone n (got ∷ parsed ∷ cleaned ∷ freed ∷ []))

  abbrev pub srcs_called : Called → Option Run
  srcs_called (failed e) = some (srcs_undone (if is_zero e then einval else e) [])
  srcs_called (replied r) = srcs_read (read_bind b.text r)

abbrev pub srcs_command : Board → BindDesc → List ℕ → ℤ → List ℕ
srcs_command b d name ready =
    line Op.srcs_create
      (bind_spot b.text d [] (63 ∷ (event_name name ++ 44 ∷ event_id b.text ready)))

abbrev pub srcs_made :
    Board → Object → Object → BindDesc → List ℕ → ℤ → ℤ → ℤ → Option Object → Option Run
srcs_made b bind parent d name id ready ret none =
    some (run ret none (bell_off id ++ put bind ∷ []))
srcs_made b bind parent d name id ready ret (some srcs) =
    let text = srcs_command b d name ready in
    before (sent (b.src_ploc parent) text ∷ [])
      (srcs_called b bind parent srcs id (b.vfi_fabric_call (b.src_ploc parent) text))

abbrev pub srcs_begun : Board → Object → Object → BindDesc → List ℕ → ℤ → ℤ → Option Run
srcs_begun b bind parent d name id ready =
    let made = b.create_bind a_srcs parent d in
    before (stub a_srcs parent ∷ []) (srcs_made b bind parent d name id ready made.ret made.obj)

abbrev pub srcs_for : Board → Object → BindDesc → List ℕ → Option Object → Option Run
srcs_for b parent d name none = some (run einval none [])
srcs_for b parent d name (some bind) =
    let id = b.vfi_doorbell_register bind src_ready in
    if b.has_event bind src_ready
    then srcs_begun b bind parent d name (negsuc 0) (b.event_id bind src_ready)
    else (if is_negative id
        then some (run einval none (noted src_ready id ∷ put bind ∷ []))
        else before (doorbell_on id ∷ noted src_ready id ∷ [])
            (srcs_begun b bind parent d name id id))

unfoldable pub fabric_srcs_create : Board → Object → BindDesc → Option Run
fabric_srcs_create b parent d =
    if_named (option d.src (bytes "event_name"))
      (λ name. srcs_for b parent d name (b.vfi_bind_of parent))
