-- ===== src/Forward/Deletes.antt =====
-- The members of vfi_fabric_ops.c that delete objects.
use vfi.Prelude.{List, [], ◌∷◌, ◌++◌, Option, none, some, if◌then◌else◌}
use vfi.Ops.Model.{
  ℤ, pos, is_zero, Op, Desc, BindDesc, a_location, a_smb, a_bind, a_xfer, a_sync, a_dst, a_src,
  a_dsts, a_srcs, Object,
}
use vfi.Ops.Dispatch.{line}
use vfi.Forward.Model.{
  Board, src_ready, dst_ready, Effect, sent, found, put, deleted, doorbell_off, Run, run, quiet,
  read_desc, read_bind, answer, on_success, exchange,
}
use vfi.Forward.Requests.{at, spot, bind_spot}

abbrev pub gone : List Effect → Run
gone log = run (pos 0) none log

unfoldable pub fabric_location_put : Object → Option Run
fabric_location_put loc = some (gone (put loc ∷ []))

unfoldable pub fabric_location_delete : Board → Object → Desc → Option Run
unfolding exchange
fabric_location_delete b loc d = quiet (
    exchange b loc (line Op.location_delete (at d)) (read_desc b.text) (pos 0)
      (on_success (pos 0) (λ reply. gone (deleted a_location loc ∷ []))))

unfoldable pub fabric_smb_delete : Object → Option Run
fabric_smb_delete smb = some (gone (deleted a_smb smb ∷ []))

unfoldable pub fabric_mmap_delete : Object → Option Run
fabric_mmap_delete mmap = some (gone [])

unfoldable pub fabric_mmap_put : Object → Option Run
fabric_mmap_put mmap = some (gone [])

-- The binds in the range of the description are deleted below the xfer.
unfoldable pub fabric_bind_delete : Board → Object → Desc → Option Run
unfolding exchange
fabric_bind_delete b xfer d = quiet (
    exchange b (b.ploc xfer) (line Op.bind_delete (spot b.text d)) (read_desc b.text) (pos 0)
      (on_success (pos 0) (λ reply. gone (deleted a_bind xfer ∷ []))))

unfoldable pub fabric_bind_lose : Board → Object → Desc → Option Run
unfolding exchange
fabric_bind_lose b xfer d = quiet (
    exchange b (b.ploc xfer) (line Op.bind_lose (spot b.text d)) (read_desc b.text) (pos 0)
      (on_success (pos 0) (λ reply. gone [])))

unfoldable pub fabric_xfer_delete : Object → Option Run
fabric_xfer_delete xfer = some (gone (deleted a_xfer xfer ∷ []))

unfoldable pub fabric_sync_delete : Board → Object → Desc → Option Run
unfolding exchange
fabric_sync_delete b sync d = quiet (
    exchange b (b.ploc sync) (line Op.sync_delete (at d)) (read_desc b.text) (pos 0)
      (on_success (pos 0) (λ reply. gone (deleted a_sync sync ∷ []))))

abbrev pub held : Option Object → List Effect
held none = []
held (some o) = found o ∷ []

abbrev pub released : Option Object → List Effect
released none = []
released (some o) = put o ∷ []

-- The dst is held while the other board is asked. `dst` is what `find_vfi_dst_in` finds.
unfoldable pub fabric_dst_delete : Board → Option Object → Object → BindDesc → Option Run
fabric_dst_delete b dst bind d =
    let loc = b.xfer_ploc bind in
    let text = line Op.dst_delete (bind_spot b.text d [] []) in
    quiet (
      answer (held dst ++ sent loc text ∷ released dst) (b.vfi_fabric_call loc text)
        (read_bind b.text) (pos 0) (on_success (pos 0) (λ reply. gone (deleted a_dst bind ∷ []))))

-- The dst of the command is that of the parent.
unfoldable pub fabric_src_delete : Board → Object → BindDesc → Option Run
unfolding exchange
fabric_src_delete b parent d = quiet (
    exchange b (b.xfer_ploc parent)
      (line Op.src_delete (bind_spot b.text (record d { dst = (b.bind_desc parent).dst }) [] []))
      (read_bind b.text) (pos 0) (on_success (pos 0) (λ reply. gone (deleted a_src parent ∷ []))))

unfoldable pub fabric_srcs_delete : Board → Object → Object → BindDesc → Option Run
unfolding exchange
fabric_srcs_delete b bind parent d = quiet (
    exchange b (b.src_ploc parent) (line Op.srcs_delete (bind_spot b.text d [] []))
      (read_bind b.text) (pos 0)
      (on_success (pos 0)
        (λ reply. gone (doorbell_off (b.event_id bind src_ready) ∷ deleted a_srcs parent ∷ []))))

-- The dsts go whatever the other board says, its doorbell only if it says 0.
abbrev pub dsts_gone : Board → Object → BindDesc → Option ℤ → Run
dsts_gone b parent reply none = gone (deleted a_dsts parent ∷ [])
dsts_gone b parent reply (some n) =
    if is_zero n
    then gone (doorbell_off (b.event_id parent dst_ready) ∷ deleted a_dsts parent ∷ [])
    else gone (deleted a_dsts parent ∷ [])

unfoldable pub fabric_dsts_delete : Board → Object → BindDesc → Option Run
unfolding exchange
fabric_dsts_delete b parent d = quiet (
    exchange b (b.dst_ploc parent) (line Op.dsts_delete (bind_spot b.text d [] []))
      (read_bind b.text) (pos 0) (dsts_gone b parent))
