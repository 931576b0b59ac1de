-- ===== src/Forward/Balance.antt =====
-- The theorem on the buffers of replies, for the whole table of vfi_fabric_ops.c.
use vfi.Prelude.{
  ℕ, ◌≡◌, refl, arith, inl, inr, Bool, Bool-cases, true, false, List, [], ◌∷◌, ◌++◌, Option, none,
  some, if◌then◌else◌, bytes,
}
use vfi.Ops.Model.{is_zero, Op, Object, Desc, BindDesc, Lookup}
use vfi.Parse.Desc.{get_option}
use vfi.Forward.Model.{
  Board, Called, replied, failed, Verdict, unparsed, nameless, read, Effect, sent, Slot, run,
  read_desc,
}
use vfi.Forward.Finds.{fabric_mmap_find, fabric_sync_put}
use vfi.Forward.Deletes.{
  fabric_location_put, fabric_smb_delete, fabric_mmap_delete, fabric_mmap_put, fabric_xfer_delete,
}
use vfi.Forward.Creates.{fabric_mmap_create, place_location, fabric_location_create}
use vfi.Forward.Events.{
  two_events, event_sent, event_called, event_heard, ring, fabric_dst_events, fabric_src_events,
  fabric_dst_ev_delete, fabric_src_ev_delete, fabric_src_done, fabric_dst_done, fabric_src_ready,
  fabric_dst_ready, fabric_event_start, fabric_event_find, fabric_event_chain,
}
use vfi.Forward.Places.{
  Placed, after, found_later, location_made, place_read, place_called, fresh_gone, find_from_root,
  find_remote, fabric_location_find, fabric_location_lose, sized_in, accepts, unchanged, found_of,
}
use vfi.Forward.Returned.{
  smb_find-Returned, smb_put-Returned, smb_lose-Returned, xfer_put-Returned, xfer_lose-Returned,
  sync_lose-Returned, location_delete-Returned, bind_delete-Returned, bind_lose-Returned,
  sync_delete-Returned, sync_send-Returned, sync_wait-Returned, smb_create-Returned,
  xfer_create-Returned, sync_create-Returned, xfer_find-Returned, sync_find-Returned,
  bind_find-Returned, dst_find-Returned, src_find-Returned, bind_create-Returned,
  src_delete-Returned, dst_create-Returned, src_create-Returned, dsts_delete-Returned,
  srcs_delete-Returned, dst_delete-Returned,
}
use vfi.Forward.EndsReturned.{dsts_create-Returned, srcs_create-Returned}
use vfi.Forward.Requests.{at, event_name_of}
use vfi.Ops.Dispatch.{line}
use vfi.Forward.Table.{Member, placed, serve}
use vfi.Forward.Buffers.{
  named, Named, IsNaming, Neutral, Returned, RunReturned, before-Returned, quiet-Returned,
  append-Returned, answered-Returned, choice-Returned,
}

place_location-Neutral :
    (b : Board) (loc : Option Object) (d : Desc) → Neutral (place_location b loc d).log
place_location-Neutral b none d = ground arith
place_location-Neutral b (some loc) d = ground arith

pub location_create-Returned :
    (b : Board) (loc : Option Object) (d : Desc)
    → RunReturned false (fabric_location_create b loc d)
unfolding fabric_location_create
location_create-Returned b loc d = ground (arith, place_location-Neutral b loc d)

module _ (b : Board) (bind : Object) where
  two_events-Returned :
      (ready done : Slot) (id name : Option (List ℕ))
      → Returned false (two_events b bind ready done id name).log
  two_events-Returned ready done none name = (refl, refl)
  two_events-Returned ready done (some id) none = (refl, refl)
  two_events-Returned ready done (some id) (some name) = ground arith

  dst_events-Returned : (d : BindDesc) → RunReturned false (fabric_dst_events b bind d)
  unfolding fabric_dst_events
  dst_events-Returned d =
      two_events-Returned Slot.dst_ready Slot.dst_done (get_option d.dst.query (bytes "event_id"))
        (get_option d.dst.query (bytes "event_name"))

  src_events-Returned : (d : BindDesc) → RunReturned false (fabric_src_events b bind d)
  unfolding fabric_src_events
  src_events-Returned d =
      choice-Returned false (b.has_event bind Slot.src_ready) _
        (some (
          two_events b bind Slot.src_ready Slot.src_done (get_option d.src.query (bytes "event_id"))
            (get_option d.src.query (bytes "event_name"))))
        (refl, refl)
        (two_events-Returned Slot.src_ready Slot.src_done
          (get_option d.src.query (bytes "event_id")) (get_option d.src.query (bytes "event_name")))

  ring-Returned : (peer : Option Object) (slot : Slot) → Returned false (ring b peer bind slot)
  ring-Returned none slot = (refl, refl)
  ring-Returned (some o) slot = (refl, refl)

event_heard-Returned : (v : Verdict Desc) → named v ≡ true → RunReturned true (event_heard v)
event_heard-Returned unparsed h = (refl, refl)
event_heard-Returned nameless h = cc
event_heard-Returned (read d n) h = (refl, refl)

event_called-Returned :
    (b : Board) (c : Called) → Named (read_desc b.text) c → RunReturned true (event_called b c)
event_called-Returned b (failed e) h = (refl, refl)
event_called-Returned b (replied r) h = event_heard-Returned (read_desc b.text r) (h r refl)

event_sent-Returned :
    (b : Board) (loc : Object) (text : List ℕ)
    → Named (read_desc b.text) (b.vfi_fabric_call loc text)
    → RunReturned true (event_sent b loc text)
event_sent-Returned b loc text h =
    before-Returned true (sent loc text ∷ []) (event_called b (b.vfi_fabric_call loc text))
      (refl, refl, refl, refl) (event_called-Returned b (b.vfi_fabric_call loc text) h)

found_later-Neutral : (b : Board) (l : Lookup) → Neutral (found_later b l).log
found_later-Neutral b l = ground arith

location_made-Neutral :
    (b : Board) (loc : Option Object) (d : Desc) → Neutral (location_made b loc d).log
location_made-Neutral b none d =
    ground (arith, found_later-Neutral b (b.find_vfi_name_again none d))
location_made-Neutral b (some loc) d =
    ground (arith, found_later-Neutral b (b.find_vfi_name_again (some loc) d))

module _ (b : Board) (loc : Option Object) (d : Desc) where
  place_read-Returned :
      (v : Verdict Desc) → named v ≡ true → RunReturned false (placed (place_read b loc d v))
  place_read-Returned unparsed h = (refl, refl)
  place_read-Returned nameless h = cc
  place_read-Returned (read reply n) h = elim (Bool-cases (accepts n reply)) [
    | inl e ↦ rw e (ground (arith, location_made-Neutral b loc (sized_in b loc d reply)))
    | inr e ↦ rw e (refl, refl)
  ]

  place_called-Returned :
      (c : Called)
      → Named (read_desc b.text) c
      → RunReturned false (placed (place_called b loc d c))
  place_called-Returned (failed e) h = (refl, refl)
  place_called-Returned (replied r) h = place_read-Returned (read_desc b.text r) (h r refl)

fresh_gone-Neutral :
    (b : Board) (text : List ℕ) (c : Called) → Neutral (sent b.fresh text ∷ fresh_gone b c)
fresh_gone-Neutral b text (replied r) = (refl, refl, refl, refl)
fresh_gone-Neutral b text (failed e) = ground arith

after-Returned :
    (log : List Effect) (p : Option Placed)
    → Neutral log
    → RunReturned false (placed p)
    → RunReturned false (placed (after log p))
after-Returned log none n h = h
after-Returned log (some p) n h = append-Returned false log p.run.log n h

choice_placed :
    (c : Bool) (x y : Option Placed)
    → RunReturned false (placed x)
    → RunReturned false (placed y)
    → RunReturned false (placed (if c then x else y))
choice_placed true x y h k = h
choice_placed false x y h k = k

found_of-Returned : (o : Option Object) → Returned false (found_of o)
found_of-Returned none = (refl, refl)
found_of-Returned (some o) = (refl, refl)

module _ (b : Board) (h : IsNaming b) (d : Desc) where
  from_root-Returned : RunReturned false (placed (find_from_root b d))
  from_root-Returned =
      let text = line Op.location_find d.name in
      let c = b.vfi_fabric_call b.fresh text in
      choice_placed b.kzalloc _ _
        (choice_placed (is_zero b.kset_register) _ _
          (after-Returned (sent b.fresh text ∷ fresh_gone b c) (place_called b none d c)
            (fresh_gone-Neutral b text c)
            (place_called-Returned b none d c (h.desc b.fresh Op.location_find d.name refl)))
          (refl, refl))
        (refl, refl)

  remote-Returned : (loc : Option Object) → RunReturned false (placed (find_remote b loc d))
  remote-Returned none = from_root-Returned
  remote-Returned (some loc) =
      after-Returned (sent loc (line Op.location_find (at d)) ∷ []) (place_called b (some loc) d _)
        (refl, refl, refl, refl)
        (place_called-Returned b (some loc) d _ (h.desc _ Op.location_find _ refl))

  location_find-Returned :
      (loc : Option Object) → RunReturned false (placed (fabric_location_find b loc d))
  unfolding fabric_location_find
  location_find-Returned loc =
      let old = b.find_vfi_name loc d in
      choice_placed (is_zero old.ret)
        (some (unchanged b loc d (run old.ret old.obj (found_of old.obj)))) _
        (found_of-Returned old.obj) (remote-Returned loc)

  location_lose-Returned : (loc : Option Object) → RunReturned false (fabric_location_lose b loc d)
  unfolding fabric_location_lose
  location_lose-Returned none = (refl, refl)
  location_lose-Returned (some loc) =
      let text = line Op.location_put (at d) in
      let c = b.vfi_fabric_call b.fresh text in
      choice-Returned false b.kzalloc _ _
        (choice-Returned false (is_zero b.kset_register) _ _
          (quiet-Returned false _ (
            answered-Returned _ c _ _ _ (h.desc b.fresh Op.location_put _ refl)
              (fresh_gone-Neutral b text c) (λ x. (refl, refl, refl, refl))))
          (refl, refl))
        (refl, refl)

-- The members that free the buffer of a reply whether it is parsed or not.
abbrev pub frees_always : Member → Bool
frees_always (Member.srcs_create o d) = true
frees_always (Member.dsts_create o d) = true
frees_always (Member.event_start o d) = true
frees_always (Member.event_find o d) = true
frees_always (Member.event_chain o d) = true
frees_always m = false

pub serve-Returned :
    (b : Board) (m : Member) → IsNaming b → RunReturned (frees_always m) (serve b m)
unfolding serve fabric_location_put fabric_smb_delete fabric_mmap_create fabric_mmap_find
    fabric_mmap_delete fabric_mmap_put fabric_xfer_delete fabric_sync_put fabric_src_done
    fabric_dst_done fabric_src_ready fabric_dst_ready fabric_src_ev_delete fabric_dst_ev_delete
    fabric_event_start fabric_event_find fabric_event_chain
serve-Returned b (Member.location_create o d) h = location_create-Returned b o d
serve-Returned b (Member.location_find o d) h = location_find-Returned b h d o
serve-Returned b (Member.location_lose o d) h = location_lose-Returned b h d o
serve-Returned b (Member.location_put o) h = (refl, refl)
serve-Returned b (Member.location_delete o d) h = location_delete-Returned b h o d
serve-Returned b (Member.smb_create o d) h = smb_create-Returned b h o d
serve-Returned b (Member.smb_find o d) h = smb_find-Returned b h o d
serve-Returned b (Member.smb_delete o) h = (refl, refl)
serve-Returned b (Member.smb_put o) h = smb_put-Returned b h o (b.desc o)
serve-Returned b (Member.smb_lose o) h = smb_lose-Returned b h o (b.desc o)
serve-Returned b (Member.mmap_create o d) h = (refl, refl)
serve-Returned b (Member.mmap_find o d) h = (refl, refl)
serve-Returned b (Member.mmap_delete o) h = (refl, refl)
serve-Returned b (Member.mmap_put o) h = (refl, refl)
serve-Returned b (Member.xfer_create o d) h = xfer_create-Returned b h o d
serve-Returned b (Member.xfer_find o d) h = xfer_find-Returned b h o d
serve-Returned b (Member.xfer_delete o) h = (refl, refl)
serve-Returned b (Member.xfer_put o) h = xfer_put-Returned b h o (b.desc o)
serve-Returned b (Member.xfer_lose o) h = xfer_lose-Returned b h o (b.desc o)
serve-Returned b (Member.sync_create o d) h = sync_create-Returned b h o d
serve-Returned b (Member.sync_find o d) h = sync_find-Returned b h o d
serve-Returned b (Member.sync_delete o d) h = sync_delete-Returned b h o d
serve-Returned b (Member.sync_send o d) h = sync_send-Returned b h o d
serve-Returned b (Member.sync_wait o d) h = sync_wait-Returned b h o d
serve-Returned b (Member.sync_lose o d) h = sync_lose-Returned b h o d
serve-Returned b (Member.sync_put o) h = (refl, refl)
serve-Returned b (Member.srcs_create o d) h = srcs_create-Returned b h o d
serve-Returned b (Member.src_create o d) h = src_create-Returned b h o d
serve-Returned b (Member.src_find o d) h = src_find-Returned b h o d
serve-Returned b (Member.dsts_create o d) h = dsts_create-Returned b h o d
serve-Returned b (Member.dst_create o d) h = dst_create-Returned b h o d
serve-Returned b (Member.dst_find o d) h = dst_find-Returned b h o d
serve-Returned b (Member.src_delete o d) h = src_delete-Returned b h o d
serve-Returned b (Member.dsts_delete o d) h = dsts_delete-Returned b h o d
serve-Returned b (Member.srcs_delete o p d) h = srcs_delete-Returned b h p d o
serve-Returned b (Member.dst_delete o p d) h = dst_delete-Returned b h p d o
serve-Returned b (Member.bind_find o d) h = bind_find-Returned b h o d
serve-Returned b (Member.bind_delete o d) h = bind_delete-Returned b h o d
serve-Returned b (Member.bind_lose o d) h = bind_lose-Returned b h o d
serve-Returned b (Member.bind_create o d) h = bind_create-Returned b h o d
serve-Returned b (Member.src_done o p w) h = ring-Returned b p o Slot.src_done
serve-Returned b (Member.dst_done o p w) h = ring-Returned b p o Slot.dst_done
serve-Returned b (Member.src_ready o p w) h = ring-Returned b p o Slot.src_ready
serve-Returned b (Member.dst_ready o p w) h = ring-Returned b p o Slot.dst_ready
serve-Returned b (Member.src_events o d) h = src_events-Returned b o d
serve-Returned b (Member.dst_events o d) h = dst_events-Returned b o d
serve-Returned b (Member.src_ev_delete o) h = (refl, refl)
serve-Returned b (Member.dst_ev_delete o) h = (refl, refl)
serve-Returned b (Member.event_start o d) h =
    event_sent-Returned b o _ (h.desc o Op.event_start (at d) refl)
serve-Returned b (Member.event_find o d) h =
    event_sent-Returned b o _ (h.desc o Op.event_find (at d) refl)
serve-Returned b (Member.event_chain o d) h =
    event_sent-Returned b o _ (h.desc o Op.event_chain (at d ++ 63 ∷ event_name_of d) refl)
