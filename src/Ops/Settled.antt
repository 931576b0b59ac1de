-- ===== src/Ops/Settled.antt =====
-- The theorem on references for each command, shape by shape.
use vfi.Prelude.{ℕ, ◌≡◌, refl, subst, arith, Bool, true, false, List, [], some}
use vfi.Ops.Model.{is_zero, Op, Driver, Params, Outcome}
use vfi.Ops.Frame.{plain, by_params, by_made, by_result, by_ticket, by_ticket_always, by_event}
use vfi.Ops.Places.{
  location_create_below, location_create_body, location_delete_body, location_find_below,
  location_find_body, location_put_below, event_below, event_body,
}
use vfi.Ops.Buffers.{smb_find_body, close_mmap, mmap_close_body, unaligned}
use vfi.Ops.Binds.{
  extents, checked, bind_create_body, src_create_body, src_find_body, srcs_create_body,
  dsts_create_body,
}
use vfi.Ops.Places
use vfi.Ops.Buffers
use vfi.Ops.Transfers
use vfi.Ops.Binds
use vfi.Ops.Dispatch.{handler}
use vfi.Ops.References.{
  OutcomeSettled, Settled, IsCareful, ask-Tidy, ask_inside-Tidy, tell-Tidy, tell_inside-Tidy,
  finish-Settled, choice-Tidy, with_desc-Settled, with_bind-Settled,
}
use vfi.Ops.Tidy.{
  close_mmap-Tidy, src_create-Tidy, src_find-Tidy, srcs_create-Tidy, dsts_create-Tidy,
  location_create-Tidy, location_delete-Tidy, event-Tidy, smb_find-Tidy, choice-Settled,
  bind_create-Tidy,
}

-- The commands that give back exactly what they are handed.
abbrev pub keeps : Op → Bool
keeps Op.smb_put = false
keeps Op.location_put = false
keeps Op.location_find = false
keeps _ = true

bind_create-Settled :
    (d : Driver) (text : List ℕ) (wanted : Bool) → OutcomeSettled (Binds.bind_create d text wanted)
unfolding Binds.bind_create
bind_create-Settled d text wanted =
    let (ret, p) = d.vfi_parse_bind text in
    choice-Settled (is_zero ret) _ _
      (finish-Settled Op.bind_create by_made wanted (Params.of_bind (checked p)) _
        (bind_create-Tidy d p))
      (finish-Settled Op.bind_create by_made wanted (Params.of_bind p) (some (plain ret []))
        (refl, refl))

each-Settled :
    (d : Driver) (op : Op) (text : List ℕ) (wanted : Bool)
    → IsCareful d
    → keeps op ≡ true
    → OutcomeSettled (handler op d text wanted)
unfolding Places.event_start Places.event_find Places.event_chain Places.location_create
    Places.location_delete Places.location_find Places.location_put Buffers.smb_create
    Buffers.smb_delete Buffers.smb_find Buffers.smb_put Buffers.smb_lose Buffers.mmap_create
    Buffers.mmap_delete Buffers.mmap_find Buffers.mmap_put Transfers.sync_create
    Transfers.sync_delete Transfers.sync_find Transfers.sync_put Transfers.sync_send
    Transfers.sync_wait Transfers.xfer_create Transfers.xfer_delete Transfers.xfer_find
    Transfers.xfer_put Transfers.xfer_lose Binds.bind_create Binds.bind_delete Binds.bind_find
    Binds.bind_lose Binds.dsts_create Binds.dsts_delete Binds.dsts_find Binds.dst_create
    Binds.dst_delete Binds.dst_find Binds.srcs_create Binds.srcs_delete Binds.srcs_find
    Binds.src_create Binds.src_delete Binds.src_find
each-Settled d Op.event_start text wanted h k =
    with_desc-Settled d Op.event_start by_params text wanted _ (event-Tidy d Op.event_start h)
each-Settled d Op.event_find text wanted h k =
    with_desc-Settled d Op.event_find by_params text wanted _ (event-Tidy d Op.event_find h)
each-Settled d Op.event_chain text wanted h k =
    with_desc-Settled d Op.event_chain by_params text wanted _ (event-Tidy d Op.event_chain h)
each-Settled d Op.location_create text wanted h k =
    with_desc-Settled d Op.location_create by_result text wanted _ (location_create-Tidy d h)
each-Settled d Op.location_delete text wanted h k =
    with_desc-Settled d Op.location_delete by_params text wanted _ (location_delete-Tidy d h)
each-Settled d Op.location_find text wanted h k = ground arith
each-Settled d Op.location_put text wanted h k = ground arith
each-Settled d Op.smb_create text wanted h k =
    with_desc-Settled d Op.smb_create by_made text wanted _
      (λ p. ask-Tidy d d.desc_ops Op.smb_create (d.locate_vfi_location p))
each-Settled d Op.smb_delete text wanted h k =
    with_desc-Settled d Op.smb_delete by_params text wanted _
      (λ p. tell_inside-Tidy d d.desc_ops Op.smb_delete (d.find_vfi_smb p) (h.smb p))
each-Settled d Op.smb_find text wanted h k =
    with_desc-Settled d Op.smb_find by_made text wanted _ (smb_find-Tidy d)
each-Settled d Op.smb_put text wanted h k = ground arith
each-Settled d Op.smb_lose text wanted h k =
    with_desc-Settled d Op.smb_lose by_params text wanted _
      (λ p. tell_inside-Tidy d d.desc_ops Op.smb_lose (d.find_vfi_smb p) (h.smb p))
each-Settled d Op.mmap_create text wanted h k =
    with_desc-Settled d Op.mmap_create by_ticket text wanted _ (λ p.
      choice-Tidy (unaligned p) _ _ (refl, refl)
        (ask-Tidy d d.desc_ops Op.mmap_create (d.find_vfi_smb p)))
each-Settled d Op.mmap_delete text wanted h k =
    with_desc-Settled d Op.mmap_delete by_params text wanted _ (λ p.
      choice-Tidy (unaligned p) _ _ (refl, refl)
        (close_mmap-Tidy d Op.mmap_delete (d.find_vfi_smb p) (h.smb p)))
each-Settled d Op.mmap_find text wanted h k =
    with_desc-Settled d Op.mmap_find by_ticket_always text wanted _
      (λ p. ask_inside-Tidy d d.desc_ops Op.mmap_find (d.find_vfi_smb p) (h.smb p))
each-Settled d Op.mmap_put text wanted h k =
    with_desc-Settled d Op.mmap_put by_params text wanted _ (λ p.
      choice-Tidy (unaligned p) _ _ (refl, refl)
        (close_mmap-Tidy d Op.mmap_put (d.find_vfi_smb p) (h.smb p)))
each-Settled d Op.sync_create text wanted h k =
    with_desc-Settled d Op.sync_create by_params text wanted _
      (λ p. ask-Tidy d d.desc_ops Op.sync_create (d.locate_vfi_location p))
each-Settled d Op.sync_delete text wanted h k =
    with_desc-Settled d Op.sync_delete by_params text wanted _
      (λ p. tell-Tidy d d.desc_ops Op.sync_delete (d.find_vfi_sync p))
each-Settled d Op.sync_find text wanted h k =
    with_desc-Settled d Op.sync_find by_made text wanted _
      (λ p. ask-Tidy d d.desc_ops Op.sync_find (d.locate_vfi_location p))
each-Settled d Op.sync_put text wanted h k =
    with_desc-Settled d Op.sync_put by_params text wanted _
      (λ p. tell-Tidy d d.desc_ops Op.sync_put (d.find_vfi_sync p))
each-Settled d Op.sync_send text wanted h k =
    with_desc-Settled d Op.sync_send by_params text wanted _
      (λ p. ask-Tidy d d.desc_ops Op.sync_send (d.find_vfi_sync p))
each-Settled d Op.sync_wait text wanted h k =
    with_desc-Settled d Op.sync_wait by_params text wanted _
      (λ p. ask-Tidy d d.desc_ops Op.sync_wait (d.find_vfi_sync p))
each-Settled d Op.xfer_create text wanted h k =
    with_desc-Settled d Op.xfer_create by_params text wanted _
      (λ p. ask-Tidy d d.desc_ops Op.xfer_create (d.locate_vfi_location p))
each-Settled d Op.xfer_delete text wanted h k =
    with_desc-Settled d Op.xfer_delete by_params text wanted _
      (λ p. tell_inside-Tidy d d.desc_ops Op.xfer_delete (d.find_vfi_xfer p) (h.xfer p))
each-Settled d Op.xfer_find text wanted h k =
    with_desc-Settled d Op.xfer_find by_made text wanted _
      (λ p. ask-Tidy d d.desc_ops Op.xfer_find (d.locate_vfi_location p))
each-Settled d Op.xfer_put text wanted h k =
    with_desc-Settled d Op.xfer_put by_params text wanted _
      (λ p. tell_inside-Tidy d d.desc_ops Op.xfer_put (d.find_vfi_xfer p) (h.xfer p))
each-Settled d Op.xfer_lose text wanted h k =
    with_desc-Settled d Op.xfer_lose by_params text wanted _
      (λ p. tell_inside-Tidy d d.desc_ops Op.xfer_lose (d.find_vfi_xfer p) (h.xfer p))
each-Settled d Op.bind_create text wanted h k = bind_create-Settled d text wanted
each-Settled d Op.bind_delete text wanted h k =
    with_desc-Settled d Op.bind_delete by_params text wanted _
      (λ p. tell_inside-Tidy d d.desc_ops Op.bind_delete (d.find_vfi_xfer p) (h.xfer p))
each-Settled d Op.bind_find text wanted h k =
    with_desc-Settled d Op.bind_find by_made text wanted _
      (λ p. ask-Tidy d d.desc_ops Op.bind_find (d.find_vfi_xfer p))
each-Settled d Op.bind_lose text wanted h k =
    with_desc-Settled d Op.bind_lose by_params text wanted _
      (λ p. tell_inside-Tidy d d.desc_ops Op.bind_lose (d.find_vfi_xfer p) (h.xfer p))
each-Settled d Op.dsts_create text wanted h k =
    with_bind-Settled d Op.dsts_create by_event text wanted _
      (λ p. dsts_create-Tidy d (d.find_vfi_bind p.xfer))
each-Settled d Op.dsts_delete text wanted h k =
    with_bind-Settled d Op.dsts_delete by_params text wanted _
      (λ p. tell_inside-Tidy d d.dst_ops Op.dsts_delete (d.find_vfi_bind p.xfer) (h.bind p.xfer))
each-Settled d Op.dsts_find text wanted h k =
    with_bind-Settled d Op.dsts_find by_params text wanted _
      (λ p. ask-Tidy d d.dst_ops Op.dsts_find (d.find_vfi_bind p.xfer))
each-Settled d Op.dst_create text wanted h k =
    with_bind-Settled d Op.dst_create by_made text wanted _
      (λ p. ask-Tidy d d.desc_ops Op.dst_create (d.find_vfi_bind p.xfer))
each-Settled d Op.dst_delete text wanted h k =
    with_bind-Settled d Op.dst_delete by_params text wanted _
      (λ p. tell-Tidy d d.desc_ops Op.dst_delete (d.find_vfi_bind p.xfer))
each-Settled d Op.dst_find text wanted h k =
    with_bind-Settled d Op.dst_find by_made text wanted _
      (λ p. ask-Tidy d d.dst_ops Op.dst_find (d.find_vfi_bind p.xfer))
each-Settled d Op.srcs_create text wanted h k =
    with_bind-Settled d Op.srcs_create by_event text wanted _
      (λ p. srcs_create-Tidy d (d.find_vfi_dst p))
each-Settled d Op.srcs_delete text wanted h k =
    with_bind-Settled d Op.srcs_delete by_params text wanted _
      (λ p. tell_inside-Tidy d d.src_ops Op.srcs_delete (d.find_vfi_dst p) (h.dst p))
each-Settled d Op.srcs_find text wanted h k =
    with_bind-Settled d Op.srcs_find by_params text wanted _
      (λ p. ask_inside-Tidy d d.dst_ops Op.srcs_find (d.find_vfi_dst p) (h.dst p))
each-Settled d Op.src_create text wanted h k =
    with_bind-Settled d Op.src_create by_made text wanted _
      (λ p. src_create-Tidy d (d.find_vfi_dst p) (h.dst p))
each-Settled d Op.src_delete text wanted h k =
    with_bind-Settled d Op.src_delete by_params text wanted _
      (λ p. tell_inside-Tidy d d.desc_ops Op.src_delete (d.find_vfi_dst p) (h.dst p))
each-Settled d Op.src_find text wanted h k =
    with_bind-Settled d Op.src_find by_made text wanted _ (λ p. src_find-Tidy d (d.find_vfi_dst p))

-- Every command but `smb_put`, `location_put` and `location_find` gives back what its search hands
-- it, once, uses nothing after it has given it back, and gives nothing else back, whether it succeeds
-- or fails: as long as a search that fails hands out nothing.
pub handler-Settled :
    (d : Driver) (op : Op) (text : List ℕ) (wanted : Bool) (o : Outcome)
    → IsCareful d
    → keeps op ≡ true
    → handler op d text wanted ≡ some o
    → Settled o.log
handler-Settled d op text wanted o h kept e =
    subst OutcomeSettled e (each-Settled d op text wanted h kept)
