-- ===== src/Forward/Creates.antt =====
-- The members of vfi_fabric_ops.c that create objects, apart from dsts and srcs.
use vfi.Prelude.{ℕ, not, ◌||◌, List, [], ◌∷◌, Option, none, some, ◌==◌, if◌then◌else◌, bytes}
use vfi.Ops.Model.{
  pos, is_zero, einval, Op, Desc, BindDesc, a_smb, a_xfer, a_sync, a_bind, a_dst, a_src, Object,
  Lookup,
}
use vfi.Ops.Dispatch.{line}
use vfi.Parse.Desc.{get_option}
use vfi.Forward.Model.{
  eexist, Board, Called, replied, failed, Effect, found, put, registered, Run, run, read_desc,
  read_bind, on_success, answer, exchange, sent,
}
use vfi.Forward.Requests.{spot, bind_spot, event_name, event_name_of}
use vfi.Forward.Finds.{make, make_bind, local_dst_find}

-- A location that is there already is not made again; a top level location has no address.
abbrev pub registering : Board → Lookup → Run
registering b c =
    run c.ret c.obj
      (elim c.obj [ none ↦ [] | some o ↦ if b.has_address o then registered o ∷ [] else [] ])

abbrev pub place_location : Board → Option Object → Desc → Run
place_location b (some loc) d = registering b (b.create_location (some loc) d)
place_location b none d =
    if not (d.extent == 0) || not (d.offset == 0)
    then run einval none []
    else (let c = b.create_location none d in run c.ret c.obj [])

abbrev pub put_found : Option Object → List Effect
put_found none = []
put_found (some o) = found o ∷ put o ∷ []

unfoldable pub fabric_location_create : Board → Option Object → Desc → Option Run
fabric_location_create b loc d =
    let old = b.find_vfi_name loc d in
    if is_zero old.ret
    then some (run eexist none (put_found old.obj))
    else some (place_location b loc d)

unfoldable pub fabric_smb_create : Board → Object → Desc → Option Run
unfolding exchange
fabric_smb_create b loc d =
    exchange b loc (line Op.smb_create (spot b.text d)) (read_desc b.text) einval
      (on_success einval (make b a_smb loc))

unfoldable pub fabric_mmap_create : Board → Object → Desc → Option Run
fabric_mmap_create b smb d = some (run einval none [])

unfoldable pub fabric_xfer_create : Board → Object → Desc → Option Run
unfolding exchange
fabric_xfer_create b loc d =
    exchange b loc (line Op.xfer_create (spot b.text d)) (read_desc b.text) einval
      (on_success einval (make b a_xfer loc))

unfoldable pub fabric_sync_create : Board → Object → Desc → Option Run
unfolding exchange
fabric_sync_create b loc d =
    exchange b loc (line Op.sync_create (spot b.text d)) (read_desc b.text) einval
      (on_success einval (make b a_sync loc))

unfoldable pub fabric_bind_create : Board → Object → BindDesc → Option Run
unfolding exchange
fabric_bind_create b parent d =
    exchange b (b.ploc parent)
      (line Op.bind_create
        (bind_spot b.text d (63 ∷ event_name_of d.dst) (63 ∷ event_name_of d.src)))
      (read_bind b.text) einval (on_success einval (make_bind b a_bind parent))

-- A dst that is there already is taken.
abbrev pub dst_or_new : Board → Object → BindDesc → Option Object → Run
dst_or_new b parent d none = make_bind b a_dst parent d
dst_or_new b parent d (some o) = run (pos 0) (some o) (found o ∷ [])

-- Without the name of an event nothing is done.
abbrev pub if_named : Option (List ℕ) → (List ℕ → Option Run) → Option Run
if_named none f = some (run einval none [])
if_named (some name) f = f name

unfoldable pub fabric_dst_create : Board → Object → BindDesc → Option Run
unfolding exchange local_dst_find
fabric_dst_create b parent d = if_named (get_option d.src.query (bytes "event_name")) (λ name.
    exchange b (b.xfer_ploc parent)
      (line Op.dst_create (bind_spot b.text d [] (63 ∷ event_name name))) (read_bind b.text) einval
      (on_success einval (λ reply. dst_or_new b parent reply (local_dst_find b parent reply))))

-- The result of a call that fails is lost here.
abbrev pub lost_error : Called → Called
lost_error (replied r) = replied r
lost_error (failed e) = failed einval

unfoldable pub fabric_src_create : Board → Object → BindDesc → Option Run
fabric_src_create b parent d =
    let loc = b.xfer_ploc parent in
    let text = line Op.src_create (bind_spot b.text d [] []) in
    answer (sent loc text ∷ []) (lost_error (b.vfi_fabric_call loc text)) (read_bind b.text) einval
      (on_success einval (make_bind b a_src parent))
