-- ===== src/Forward/Finds.antt =====
-- The members of vfi_fabric_ops.c that find, put and lose what another board has.
use vfi.Prelude.{◌&&◌, [], ◌∷◌, ◌++◌, Option, none, some, if◌then◌else◌, ltb, length}
use vfi.Ops.Model.{
  pos, einval, Op, Desc, BindDesc, Kind, a_smb, a_xfer, a_sync, a_bind, a_dst, a_src, Object,
}
use vfi.Ops.Dispatch.{line}
use vfi.Forward.Model.{
  is_eexist, Board, found, put, stub, deleted, invoked, Run, run, quiet, read_desc, read_bind,
  on_success, exchange,
}
use vfi.Forward.Requests.{at, at_offset, spot, bind_name, bind_spot}

-- A reply without the size of the object, and the object that is made of a reply.
abbrev pub sizeless : Desc → Desc
sizeless d = record d { offset = 0; extent = 0 }

abbrev pub make : Board → Kind → Object → Desc → Run
make b k parent d = let c = b.create k parent d in run c.ret c.obj (stub k parent ∷ [])

abbrev pub make_bind : Board → Kind → Object → BindDesc → Run
make_bind b k parent d = let c = b.create_bind k parent d in run c.ret c.obj (stub k parent ∷ [])

-- An object of the local tree is taken, else the other board is asked.
abbrev pub or_ask : Option Object → Option Run → Option Run
or_ask (some o) asked = some (run (pos 0) (some o) (found o ∷ []))
or_ask none asked = asked

-- The object may have come into being meanwhile.
abbrev pub smb_again : Board → Object → Desc → Run → Run
smb_again b parent d r =
    if is_eexist r.ret
    then (elim (b.kset_find_again parent a_smb d.name) [
      | none ↦ run r.ret none r.log
      | some o ↦ run (pos 0) (some o) (r.log ++ found o ∷ invoked Op.smb_put o ∷ [])
    ])
    else r

unfoldable pub fabric_smb_find : Board → Object → Desc → Option Run
unfolding exchange
fabric_smb_find b parent d = or_ask (b.kset_find_obj parent a_smb d.name) (
    exchange b parent (line Op.smb_find (at d)) (read_desc b.text) (pos 0)
      (on_success (pos 0) (λ reply. smb_again b parent d (make b a_smb parent reply))))

unfoldable pub fabric_smb_put : Board → Object → Option Run
unfolding exchange
fabric_smb_put b smb = quiet (
    exchange b (b.ploc smb) (line Op.smb_put (at (b.desc smb))) (read_desc b.text) (pos 0)
      (on_success (pos 0) (λ reply. run (pos 0) none (deleted a_smb smb ∷ []))))

unfoldable pub fabric_smb_lose : Board → Object → Option Run
unfolding exchange
fabric_smb_lose b smb = quiet (
    exchange b (b.ploc smb) (line Op.smb_lose (at (b.desc smb))) (read_desc b.text) (pos 0)
      (on_success (pos 0) (λ reply. run (pos 0) none [])))

unfoldable pub fabric_mmap_find : Board → Object → Desc → Option Run
fabric_mmap_find b smb d = some (run einval none [])

unfoldable pub fabric_xfer_find : Board → Object → Desc → Option Run
unfolding exchange
fabric_xfer_find b loc d = or_ask (b.kset_find_obj loc a_xfer d.name) (
    exchange b loc (line Op.xfer_find (at d)) (read_desc b.text) einval
      (on_success einval (λ reply. make b a_xfer loc (sizeless reply))))

unfoldable pub fabric_xfer_put : Board → Object → Option Run
unfolding exchange
fabric_xfer_put b xfer = quiet (
    exchange b (b.ploc xfer) (line Op.xfer_put (at (b.desc xfer))) (read_desc b.text) (pos 0)
      (on_success (pos 0) (λ reply. run (pos 0) none (put xfer ∷ []))))

unfoldable pub fabric_xfer_lose : Board → Object → Option Run
unfolding exchange
fabric_xfer_lose b xfer = quiet (
    exchange b (b.ploc xfer) (line Op.xfer_lose (at (b.desc xfer))) (read_desc b.text) (pos 0)
      (on_success (pos 0) (λ reply. run (pos 0) none [])))

abbrev pub taken_again : Run → Option Object → Run
taken_again r none = run r.ret none r.log
taken_again r (some o) = run (pos 0) (some o) (r.log ++ found o ∷ [])

abbrev pub sync_again : Board → Object → Desc → Run → Run
sync_again b loc d r =
    if is_eexist r.ret then taken_again r (b.kset_find_again loc a_sync d.name) else r

abbrev pub sync_find_stub : Board → Object → Desc → Option Run
sync_find_stub b loc d = or_ask (b.kset_find_obj loc a_sync d.name) (
    exchange b loc (line Op.sync_find (at d)) (read_desc b.text) einval
      (on_success einval (λ reply. sync_again b loc d (make b a_sync loc (sizeless reply)))))

unfoldable pub fabric_sync_find : Board → Object → Desc → Option Run
unfolding exchange
fabric_sync_find b loc d =
    if b.has_set loc a_sync then sync_find_stub b loc d else some (run einval none [])

unfoldable pub fabric_sync_put : Board → Object → Option Run
fabric_sync_put b sync = some (run (pos 0) none (put sync ∷ []))

unfoldable pub fabric_sync_lose : Board → Object → Desc → Option Run
unfolding exchange
fabric_sync_lose b sync d = quiet (
    exchange b (b.ploc sync) (line Op.sync_put (at d)) (read_desc b.text) einval
      (on_success einval (λ reply. run (pos 0) none [])))

-- The two members of a barrier give back the result of the other board.
unfoldable pub fabric_sync_send : Board → Object → Desc → Option Run
unfolding exchange
fabric_sync_send b sync d =
    exchange b (b.ploc sync)
      (line Op.sync_send (at_offset b.text (record (b.desc sync) { offset = d.offset })))
      (read_desc b.text) einval (on_success einval (λ reply. run (pos 0) none []))

unfoldable pub fabric_sync_wait : Board → Object → Desc → Option Run
unfolding exchange
fabric_sync_wait b sync d =
    exchange b (b.ploc sync)
      (line Op.sync_wait (at_offset b.text (record (b.desc sync) { offset = d.offset })))
      (read_desc b.text) einval (on_success einval (λ reply. run (pos 0) none []))

unfoldable pub fabric_bind_find : Board → Object → Desc → Option Run
unfolding exchange
fabric_bind_find b parent d = or_ask (b.kset_find_obj parent a_bind (bind_name b.text d)) (
    exchange b (b.ploc parent) (line Op.bind_find (spot b.text d)) (read_bind b.text) einval
      (on_success einval (make_bind b a_bind parent)))

-- `vfi_local_dst_find`: the dst of the name "%s.%s#%llx", if memory for the name can be had and the
-- name is not too long.
unfoldable pub local_dst_find : Board → Object → BindDesc → Option Object
local_dst_find b parent d =
    let name = at_offset b.text d.dst in
    if b.kzalloc && ltb (length name) 2048 then b.kset_find_obj parent a_dst name else none

unfoldable pub fabric_dst_find : Board → Object → BindDesc → Option Run
unfolding exchange local_dst_find
fabric_dst_find b parent d = or_ask (local_dst_find b parent d) (
    exchange b (b.dst_ploc parent) (line Op.dst_find (bind_spot b.text d [] [])) (read_bind b.text)
      einval (on_success einval (make_bind b a_dst parent)))

unfoldable pub fabric_src_find : Board → Object → BindDesc → Option Run
unfolding exchange
fabric_src_find b parent d =
    exchange b (b.src_ploc parent) (line Op.src_find (bind_spot b.text d [] [])) (read_bind b.text)
      einval (on_success einval (make_bind b a_src parent))
