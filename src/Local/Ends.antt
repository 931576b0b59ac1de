-- ===== src/Local/Ends.antt =====
-- The members of vfi_local_ops.c that create a bind and its two ends: the events of a side, the dsts
-- with one dst for each fragment, the srcs with one src for each, and the bind.
use vfi.Prelude.{
  ℕ, ◌+◌, ◌%◌, ◌^◌, Bool, true, false, List, [], ◌∷◌, ◌++◌, map, Option, none, some, if◌then◌else◌,
  ◌==◌, bytes,
}
use vfi.Ops.Model.{
  ℤ, pos, is_zero, einval, Op, Desc, BindDesc, a_bind, a_dsts, a_srcs, Object, Lookup,
}
use vfi.Parse.Desc.{get_option}
use vfi.Forward.Model.{Slot, src_ready, src_done, dst_ready, dst_done}
use vfi.Local.Split.{Fragment, desc_valid, split_dst, split_src}
use vfi.Local.Model.{
  Site, Effect, found, put, made, deleted, asked, fragment, events_asked, extent_set, loaded,
  chain_ended, inherited, list_found, list_made, list_put, event_made, event_put, Run, run, before,
}

-- The list of events of a name is found or made, and the two events of a side are made in it.
abbrev pub ready_made : Site → Object → List ℕ → Slot → Slot → Run
ready_made t bind name done ready =
    if is_zero (t.vfi_event_create bind ready)
    then run (pos 0) none (event_made done ∷ event_made ready ∷ list_put name ∷ [])
    else run einval none (event_made done ∷ event_put done ∷ list_put name ∷ [])

abbrev pub done_made : Site → Object → List ℕ → Slot → Slot → Run
done_made t bind name done ready =
    if is_zero (t.vfi_event_create bind done)
    then ready_made t bind name done ready
    else run einval none (list_put name ∷ [])

abbrev pub listed : Site → Object → List ℕ → Slot → Slot → Run
listed t bind name done ready =
    if t.find_vfi_events name
    then before (list_found name ∷ []) (done_made t bind name done ready)
    else (if is_zero (t.vfi_events_create name)
        then before (list_made name ∷ []) (done_made t bind name done ready)
        else run einval none [])

abbrev pub side_events : Site → Object → Option (List ℕ) → Slot → Slot → Run
side_events t bind none done ready = run einval none []
side_events t bind (some name) done ready = listed t bind name done ready

unfoldable pub local_dst_events : Site → Object → Run
local_dst_events t bind =
    side_events t bind (get_option (t.bind_desc bind).dst.query (bytes "event_name")) dst_done
      dst_ready

unfoldable pub local_src_events : Site → Object → BindDesc → Run
local_src_events t parent d =
    let bind = t.vfi_dst_parent parent in
    if t.has_event bind src_done
    then run (pos 0) none []
    else side_events t bind (get_option d.src.query (bytes "event_name")) src_done src_ready

-- The description that the loop hands to `dst_create` and `src_create`.
abbrev pub dst_params : BindDesc → Fragment → BindDesc
dst_params d f = record d {
  dst = record (d.dst) { offset = f.address; extent = f.extent };
  src = record (d.src) { offset = f.peer; extent = f.extent };
}

abbrev pub src_params : BindDesc → Fragment → BindDesc
src_params d f = record d {
  dst = record (d.dst) { extent = f.peer };
  src = record (d.src) { offset = f.address; extent = f.extent };
}

abbrev pub dst_call : Site → Object → BindDesc → Fragment → Bool × ℤ
dst_call t parent d f =
    let r = (t.create_part Op.dst_create parent (dst_params d f)).ret in (is_zero r, r)

abbrev pub is_some {ℓ} : {A : Type ℓ} → Option A → Bool
is_some none = false
is_some (some a) = true

abbrev pub src_call : Site → Object → BindDesc → Fragment → Bool × ℤ
src_call t parent d f =
    let r = t.create_part Op.src_create parent (src_params d f) in (is_some r.obj, r.ret)

abbrev pub asked_for : Op → Object → List Fragment → List Effect
asked_for op parent fs = map (fragment op parent) fs

abbrev pub valid_part : Site → Object → Desc → Bool
valid_part t smb d = desc_valid (t.desc smb).extent d.offset d.extent

-- A search or a maker has succeeded if its result is 0. Each gives 0 only with an object, as `Site` takes
-- them: with 0 and none, which the code would follow, this says that nothing was found.
abbrev pub hit : Lookup → Option Object
hit l = if is_zero l.ret then l.obj else none

-- `dsts_create`, from its end; the out-pointer is that of the dsts on every way that has made them.
module _ (t : Site) (parent : Object) (d : BindDesc) (dsts smb : Object) where
  abbrev pub dsts_ended : List Effect → Option ℤ → Run
  dsts_ended log none =
      run (pos 0) (some dsts) (log ++ loaded parent ∷ put smb ∷ chain_ended parent ∷ [])
  dsts_ended log (some r) = run einval (some dsts) (log ++ put smb ∷ put dsts ∷ [])

  abbrev pub dsts_split : Option (ℕ → ℕ) → Run
  dsts_split none = run einval (some dsts) (put smb ∷ put dsts ∷ [])
  dsts_split (some frame) =
      let (fs, stop) =
        split_dst frame (dst_call t parent d) (t.desc smb).offset d.dst.offset d.dst.extent
          d.src.offset in
      dsts_ended (asked_for Op.dst_create parent fs) stop

  abbrev pub dsts_checked : Run
  dsts_checked =
      if valid_part t smb d.dst
      then dsts_split (t.frames smb)
      else run einval (some dsts) (put smb ∷ put dsts ∷ [])

abbrev pub dsts_found : Site → Object → BindDesc → Object → Option Object → Run
dsts_found t parent d dsts none = run einval (some dsts) (put dsts ∷ [])
dsts_found t parent d dsts (some smb) = before (found smb ∷ []) (dsts_checked t parent d dsts smb)

abbrev pub dsts_made : Site → Object → BindDesc → Option Object → Run
dsts_made t parent d none = run einval none []
dsts_made t parent d (some dsts) =
    before (made a_dsts dsts ∷ []) (dsts_found t parent d dsts (hit (t.find_vfi_smb d.dst)))

unfoldable pub local_dsts_create : Site → Object → BindDesc → Run
unfolding split_dst desc_valid
local_dsts_create t parent d =
    if is_zero (t.part_events parent d)
    then before (events_asked parent ∷ [])
        (dsts_made t parent d (hit (t.create_bind a_dsts parent d)))
    else run einval none (events_asked parent ∷ [])

-- `srcs_create`, from its end. The pages of the smb are not tested; where it has none the run stops.
module _ (t : Site) (parent : Object) (d : BindDesc) (srcs smb : Object) where
  abbrev pub srcs_ended : List Effect → Option ℤ → Run
  srcs_ended log none = run (pos 0) (some srcs) (log ++ loaded parent ∷ put smb ∷ [])
  srcs_ended log (some r) = run r none (log ++ put smb ∷ deleted a_srcs srcs ∷ [])

  abbrev pub srcs_split : Option (ℕ → ℕ) → Option Run
  srcs_split none = none
  srcs_split (some frame) =
      let (fs, stop) =
        split_src frame (src_call t parent d) (t.desc smb).offset d.src.offset d.src.extent
          d.dst.offset in
      some (srcs_ended (asked_for Op.src_create parent fs) stop)

  abbrev pub srcs_checked : Option Run
  srcs_checked =
      if valid_part t smb d.src
      then srcs_split (t.frames smb)
      else some (run (pos 0) none (put smb ∷ deleted a_srcs srcs ∷ []))

abbrev pub go_on : List Effect → Option Run → Option Run
go_on log none = none
go_on log (some r) = some (before log r)

abbrev pub srcs_found : Site → Object → BindDesc → Object → ℤ → Option Object → Option Run
srcs_found t parent d srcs ret none = some (run ret none (deleted a_srcs srcs ∷ []))
srcs_found t parent d srcs ret (some smb) =
    go_on (found smb ∷ []) (srcs_checked t parent d srcs smb)

abbrev pub srcs_made : Site → Object → BindDesc → ℤ → Option Object → Option Run
srcs_made t parent d ret none = some (run ret none [])
srcs_made t parent d ret (some srcs) =
    let events = t.part_events parent d in
    let l = t.find_vfi_smb d.src in
    go_on (made a_srcs srcs ∷ events_asked parent ∷ []) (
      if is_zero events
      then srcs_found t parent d srcs l.ret (hit l)
      else some (run events none (deleted a_srcs srcs ∷ [])))

unfoldable pub local_srcs_create : Site → Object → BindDesc → Option Run
unfolding split_src desc_valid
local_srcs_create t parent d =
    let c = t.create_bind a_srcs parent d in srcs_made t parent d c.ret (hit c)

-- The place of a bind in its transfer: the offset that the command gives, or the end of the transfer,
-- whose extent grows by that of the bind.
unfoldable pub bind_place : Desc → Desc → Desc × Desc
bind_place xfer d = (
  record xfer { extent = (xfer.extent + d.extent) % 2 ^ 32 },
  record d { offset = if d.offset == 0 then xfer.extent else d.offset },
)

-- `bind_create`, from its end. The smbs are put by a member of their own table.
module _ (t : Site) (xfer : Object) (d : BindDesc) (bind dsts : Object) where
  abbrev pub bind_undone : ℤ → List Effect → Run
  bind_undone ret log = run ret none (log ++ deleted a_dsts dsts ∷ deleted a_bind bind ∷ [])

  abbrev pub bind_filled : Object → Object → Option Object → ℤ → Run
  bind_filled dsmb ssmb none ret =
      bind_undone ret (asked Op.dsts_create bind ∷ put ssmb ∷ put dsmb ∷ [])
  bind_filled dsmb ssmb (some rdsts) ret =
      run (pos 0) (some bind) (asked Op.dsts_create bind ∷ loaded xfer ∷ [])

  abbrev pub bind_sourced : Object → Object → Run
  bind_sourced dsmb ssmb =
      let r = t.create_part Op.dsts_create bind d in
      if valid_part t ssmb d.src
      then before (inherited bind ssmb ∷ inherited bind dsmb ∷ [])
          (bind_filled dsmb ssmb r.obj r.ret)
      else bind_undone (pos 0) (put ssmb ∷ put dsmb ∷ [])

  abbrev pub bind_src : Object → ℤ → Option Object → Run
  bind_src dsmb ret none = bind_undone ret (put dsmb ∷ [])
  bind_src dsmb ret (some ssmb) = before (found ssmb ∷ []) (bind_sourced dsmb ssmb)

  abbrev pub bind_checked : Object → Run
  bind_checked dsmb =
      let l = t.find_vfi_smb d.src in
      if valid_part t dsmb d.dst
      then bind_src dsmb l.ret l.obj
      else bind_undone (pos 0) (put dsmb ∷ [])

  abbrev pub bind_dst : ℤ → Option Object → Run
  bind_dst ret none = bind_undone ret []
  bind_dst ret (some dsmb) = before (found dsmb ∷ []) (bind_checked dsmb)

abbrev pub bind_dsts : Site → Object → BindDesc → Object → ℤ → Option Object → Run
bind_dsts t xfer d bind ret none = run ret none (deleted a_bind bind ∷ [])
bind_dsts t xfer d bind ret (some dsts) =
    let l = t.find_vfi_smb d.dst in
    before (made a_dsts dsts ∷ []) (bind_dst t xfer d bind dsts l.ret l.obj)

abbrev pub bind_made : Site → Object → BindDesc → ℤ → Option Object → Run
bind_made t xfer d ret none = run ret none []
bind_made t xfer d ret (some bind) =
    let c = t.create_bind a_dsts bind d in
    before (made a_bind bind ∷ []) (bind_dsts t xfer d bind c.ret (hit c))

unfoldable pub local_bind_create : Site → Object → BindDesc → Run
unfolding bind_place desc_valid
local_bind_create t xfer d =
    let (grown, part) = bind_place (t.desc xfer) d.xfer in
    let placed = record d { xfer = part } in
    let c = t.create_bind a_bind xfer placed in
    before (extent_set xfer grown.extent ∷ []) (bind_made t xfer placed c.ret (hit c))
