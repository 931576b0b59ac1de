-- ===== src/Forward/Places.antt =====
-- `vfi_fabric_location_find` and `vfi_fabric_location_lose` (vfi_fabric_ops.c).
use vfi.Prelude.{
  ℕ, ◌%◌, ◌^◌, Bool, false, not, ◌&&◌, ◌||◌, List, [], ◌∷◌, ◌++◌, Option, none, some, ◌==◌,
  if◌then◌else◌,
}
use vfi.Ops.Model.{
  ℤ, pos, is_zero, einval, Op, Vtable, Desc, Kind, a_smb, a_xfer, a_sync, Object, Lookup,
}
use vfi.Ops.Dispatch.{line}
use vfi.Forward.Model.{
  enomem, is_eexist, is_enomem, Board, Called, replied, failed, Verdict, unparsed, nameless, read,
  Effect, sent, got, freed, parsed, cleaned, found, put, registered, unregistered, Run, run, quiet,
  read_desc, answer, on_success,
}
use vfi.Forward.Requests.{at}

-- A find also changes the description that it gets, and the extent of the location that it is in.
pub record Placed : Type 0 where
  pub run : Run
  pub desc : Desc
  pub loc_extent : ℕ

abbrev pub found_of : Option Object → List Effect
found_of none = []
found_of (some o) = found o ∷ []

abbrev pub after : List Effect → Option Placed → Option Placed
after log none = none
after log (some p) = some (record p { run = record p.run { log = log ++ p.run.log } })

-- A set that the location lacks is made; one that has come into being meanwhile is no error.
abbrev pub fine : ℤ → Bool
fine n = is_zero n || is_eexist n

abbrev pub set_made : Board → Object → Kind → ℤ
set_made b o k = if b.has_set o k then pos 0 else b.new_set o k

abbrev pub sets_made : Board → Object → ℤ
sets_made b o =
    if fine (set_made b o a_smb)
    then (if fine (set_made b o a_xfer) then set_made b o a_sync else set_made b o a_xfer)
    else set_made b o a_smb

-- The location has come into being meanwhile.
abbrev pub found_later : Board → Lookup → Run
found_later b l =
    if is_zero l.ret
    then (elim l.obj [
      | none ↦ run einval none []
      | some o ↦
          if fine (sets_made b o)
          then run (pos 0) (some o) (found o ∷ [])
          else run (sets_made b o) none (found o ∷ put o ∷ [])
    ])
    else run l.ret none []

abbrev pub told_parent : Board → Option Object → Option Object → List Effect
told_parent b none o = []
told_parent b (some loc) none = []
told_parent b (some loc) (some o) = if b.has_address loc then registered o ∷ [] else []

abbrev pub location_made : Board → Option Object → Desc → Run
location_made b loc d =
    let c = b.create_location loc d in
    if is_zero c.ret
    then run (pos 0) c.obj (told_parent b loc c.obj)
    else (if is_eexist c.ret
        then found_later b (b.find_vfi_name_again loc d)
        else run c.ret none [])

-- The description takes the offset of the reply; the extent is the location's, and where that is 0 both
-- become the offset of the reply, an `unsigned int` here, and the new location is local.
abbrev pub sized_in : Board → Option Object → Desc → Desc → Desc
sized_in b none d reply = record d { offset = reply.offset; extent = 0 }
sized_in b (some loc) d reply =
    if (b.desc loc).extent == 0
    then record d { offset = reply.offset; extent = reply.offset % 2 ^ 32; ops = some Vtable.local }
    else record d { offset = reply.offset; extent = (b.desc loc).extent }

abbrev pub extent_of : Board → Option Object → ℕ
extent_of b none = 0
extent_of b (some loc) = (b.desc loc).extent

abbrev pub new_extent : Board → Option Object → Desc → ℕ
new_extent b none reply = 0
new_extent b (some loc) reply =
    if (b.desc loc).extent == 0 then reply.offset % 2 ^ 32 else (b.desc loc).extent

abbrev pub unchanged : Board → Option Object → Desc → Run → Placed
unchanged b loc d r = record { run = r; desc = d; loc_extent = extent_of b loc }

-- Only a reply with result 0 and an extent is taken.
abbrev pub accepts : Option ℤ → Desc → Bool
accepts none reply = false
accepts (some n) reply = is_zero n && not (reply.extent == 0)

abbrev pub place_read : Board → Option Object → Desc → Verdict Desc → Option Placed
place_read b loc d unparsed = some (unchanged b loc d (run einval none (got ∷ [])))
place_read b loc d nameless = none
place_read b loc d (read reply n) =
    let d' = sized_in b loc d reply in
    if accepts n reply
    then after (got ∷ parsed ∷ freed ∷ cleaned ∷ []) (
        some
          (record { run = location_made b loc d'; desc = d'; loc_extent = new_extent b loc reply }))
    else some (unchanged b loc d (run einval none (got ∷ parsed ∷ freed ∷ cleaned ∷ [])))

abbrev pub place_called : Board → Option Object → Desc → Called → Option Placed
place_called b loc d (replied r) = place_read b loc d (read_desc b.text r)
place_called b loc d (failed e) =
    some (unchanged b loc d (run (if is_zero e then einval else e) none []))

-- The temporary location goes before the reply is read; its address is kept if memory has run out.
abbrev pub fresh_gone : Board → Called → List Effect
fresh_gone b (replied r) = unregistered b.fresh ∷ put b.fresh ∷ []
fresh_gone b (failed e) =
    if is_enomem e then put b.fresh ∷ [] else unregistered b.fresh ∷ put b.fresh ∷ []

abbrev pub find_from_root : Board → Desc → Option Placed
find_from_root b d =
    let text = line Op.location_find d.name in
    let c = b.vfi_fabric_call b.fresh text in
    if b.kzalloc
    then (if is_zero b.kset_register
        then after (sent b.fresh text ∷ fresh_gone b c) (place_called b none d c)
        else some (unchanged b none d (run b.kset_register none (put b.fresh ∷ []))))
    else some (unchanged b none d (run enomem none []))

abbrev pub find_remote : Board → Option Object → Desc → Option Placed
find_remote b none d = find_from_root b d
find_remote b (some loc) d =
    let text = line Op.location_find (at d) in
    after (sent loc text ∷ []) (place_called b (some loc) d (b.vfi_fabric_call loc text))

unfoldable pub fabric_location_find : Board → Option Object → Desc → Option Placed
fabric_location_find b loc d =
    let old = b.find_vfi_name loc d in
    let remote = find_remote b loc d in
    if is_zero old.ret
    then some (unchanged b loc d (run old.ret old.obj (found_of old.obj)))
    else remote

-- The other board gives up its reference; nothing here depends on its answer.
abbrev pub lose_called : Board → Desc → Option Run
lose_called b d =
    let text = line Op.location_put (at d) in
    let c = b.vfi_fabric_call b.fresh text in
    quiet (
      answer (sent b.fresh text ∷ fresh_gone b c) c (read_desc b.text) (pos 0)
        (on_success (pos 0) (λ reply. run (pos 0) none [])))

unfoldable pub fabric_location_lose : Board → Option Object → Desc → Option Run
fabric_location_lose b none d = some (run (pos 0) none [])
fabric_location_lose b (some loc) d =
    if b.kzalloc
    then (if is_zero b.kset_register
        then lose_called b d
        else some (run (pos 0) none (put b.fresh ∷ [])))
    else some (run (pos 0) none [])
