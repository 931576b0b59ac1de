-- ===== src/Local/Deletes.antt =====
-- The members of vfi_local_ops.c that delete objects of this board.
use vfi.Prelude.{List, [], ◌∷◌, ◌++◌, map, Option, none, some, if◌then◌else◌}
use vfi.Ops.Model.{
  pos, Op, Desc, BindDesc, a_location, a_smb, a_mmap, a_xfer, a_sync, a_bind, a_dst, a_dsts, a_src,
  a_srcs, Object,
}
use vfi.Forward.Model.{src_ready, src_done, dst_ready, dst_done}
use vfi.Bind.Delete.{Part, in_range}
use vfi.Local.Model.{
  Site, Effect, found, put, deleted, asked, events_gone_asked, event_deleted, Run, run,
}
use vfi.Local.Ends.{hit}

unfoldable pub local_location_delete : Site → Object → Desc → Run
unfolding in_range
local_location_delete t loc d = elim (hit (t.find_vfi_name (some loc) d)) [
  | none ↦ run (pos 0) none []
  | some target ↦ run (pos 0) none (found target ∷ deleted a_location target ∷ put target ∷ [])
]

unfoldable pub local_smb_delete : Option Object → Run
local_smb_delete none = run (pos 0) none []
local_smb_delete (some smb) = run (pos 0) none (deleted a_smb smb ∷ [])

unfoldable pub local_mmap_delete : Object → Run
local_mmap_delete mmap = run (pos 0) none (deleted a_mmap mmap ∷ [])

unfoldable pub local_xfer_delete : Object → Run
local_xfer_delete xfer = run (pos 0) none (deleted a_xfer xfer ∷ [])

unfoldable pub local_sync_delete : Object → Run
local_sync_delete sync = run (pos 0) none (deleted a_sync sync ∷ [])

unfoldable pub local_src_delete : Object → Run
local_src_delete src = run (pos 0) none (deleted a_src src ∷ [])

-- Both events of a side, the one that is sent first.
unfoldable pub local_dst_ev_delete : Run
local_dst_ev_delete = run (pos 0) none (event_deleted dst_ready ∷ event_deleted dst_done ∷ [])

unfoldable pub local_src_ev_delete : Run
local_src_ev_delete = run (pos 0) none (event_deleted src_ready ∷ event_deleted src_done ∷ [])

-- Every child is deleted by the table of its xfer, then the events of the side, then the set.
unfoldable pub local_srcs_delete : Site → Object → Run
local_srcs_delete t parent = elim (t.set_of parent) [
  | none ↦ run (pos 0) none []
  | some srcs ↦ run (pos 0) none (
      map (asked Op.src_delete) (t.children srcs)
      ++ (events_gone_asked parent ∷ deleted a_srcs srcs ∷ []))
]

unfoldable pub local_dsts_delete : Site → Object → Run
local_dsts_delete t parent = elim (t.set_of parent) [
  | none ↦ run (pos 0) none []
  | some dsts ↦ run (pos 0) none (
      map (asked Op.dst_delete) (t.children dsts)
      ++ (events_gone_asked parent ∷ deleted a_dsts dsts ∷ []))
]

unfoldable pub local_dst_delete : Site → Object → BindDesc → Run
local_dst_delete t parent d = elim (hit (t.find_vfi_dst_in parent d)) [
  | none ↦ run (pos 0) none []
  | some dst ↦
      run (pos 0) none (found dst ∷ asked Op.srcs_delete dst ∷ deleted a_dst dst ∷ put dst ∷ [])
]

-- Where a bind lies in its transfer, and the part that a command names.
abbrev pub part_of : Desc → Part
part_of d = record { offset = d.offset; extent = d.extent }

-- The reference of the search, and the one that the bind has held since it was created.
abbrev pub smb_released : Option Object → List Effect
smb_released none = []
smb_released (some smb) = found smb ∷ put smb ∷ put smb ∷ []

abbrev pub bind_gone : Site → Object → List Effect
bind_gone t bind =
    asked Op.dsts_delete bind
    ∷ (smb_released (hit (t.find_vfi_smb (t.bind_desc bind).dst))
        ++ smb_released (hit (t.find_vfi_smb (t.bind_desc bind).src))
        ++ deleted a_bind bind ∷ [])

-- The binds of the transfer in the range of the command, in their order.
unfoldable pub binds_gone : Site → Desc → List Object → List Effect
unfolding in_range
binds_gone t d [] = []
binds_gone t d (bind ∷ bs) =
    let later = binds_gone t d bs in
    if in_range (part_of d) (part_of (t.bind_desc bind).xfer)
    then bind_gone t bind ++ later
    else later

unfoldable pub local_bind_delete : Site → Object → Desc → Run
unfolding binds_gone
local_bind_delete t parent d = run (pos 0) none (binds_gone t d (t.children parent))

abbrev pub binds_lost : Site → Desc → List Object → List Effect
unfolding in_range
binds_lost t d [] = []
binds_lost t d (bind ∷ bs) =
    let later = binds_lost t d bs in
    if in_range (part_of d) (part_of (t.bind_desc bind).xfer)
    then deleted a_bind bind ∷ later
    else later

unfoldable pub local_bind_lose : Site → Object → Desc → Run
unfolding in_range
local_bind_lose t parent d = run (pos 0) none (binds_lost t d (t.children parent))
