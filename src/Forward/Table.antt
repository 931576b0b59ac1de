-- ===== src/Forward/Table.antt =====
-- The table `vfi_fabric_ops` (vfi_fabric_ops.c): a member with its arguments, and its run.
use vfi.Prelude.{List, Option, none, some}
use vfi.Ops.Model.{pos, Desc, BindDesc, Object}
use vfi.Bind.Ready.{Bind}
use vfi.Forward.Model.{Board, Effect, Run, run}
use vfi.Forward.Finds.{
  fabric_smb_find, fabric_smb_put, fabric_smb_lose, fabric_mmap_find, fabric_xfer_find,
  fabric_xfer_put, fabric_xfer_lose, fabric_sync_find, fabric_sync_put, fabric_sync_lose,
  fabric_sync_send, fabric_sync_wait, fabric_bind_find, fabric_dst_find, fabric_src_find,
}
use vfi.Forward.Creates.{
  fabric_location_create, fabric_smb_create, fabric_mmap_create, fabric_xfer_create,
  fabric_sync_create, fabric_bind_create, fabric_dst_create, fabric_src_create,
}
use vfi.Forward.Deletes.{
  fabric_location_put, fabric_location_delete, fabric_smb_delete, fabric_mmap_delete,
  fabric_mmap_put, fabric_bind_delete, fabric_bind_lose, fabric_xfer_delete, fabric_sync_delete,
  fabric_dst_delete, fabric_src_delete, fabric_srcs_delete, fabric_dsts_delete,
}
use vfi.Forward.Ends.{fabric_dsts_create, fabric_srcs_create}
use vfi.Forward.Events.{
  fabric_dst_events, fabric_src_events, fabric_dst_ev_delete, fabric_src_ev_delete, fabric_src_done,
  fabric_dst_done, fabric_src_ready, fabric_dst_ready, fabric_event_start, fabric_event_find,
  fabric_event_chain,
}
use vfi.Forward.Places.{Placed, fabric_location_find, fabric_location_lose}

pub data Member : Type 0 where
  location_create location_find location_lose : Option Object → Desc → Member
  location_put : Object → Member
  location_delete : Object → Desc → Member
  smb_create smb_find : Object → Desc → Member
  smb_delete smb_put smb_lose : Object → Member
  mmap_create mmap_find : Object → Desc → Member
  mmap_delete mmap_put : Object → Member
  xfer_create xfer_find : Object → Desc → Member
  xfer_delete xfer_put xfer_lose : Object → Member
  sync_create sync_find sync_delete sync_send sync_wait sync_lose : Object → Desc → Member
  sync_put : Object → Member
  srcs_create src_create src_find dsts_create dst_create dst_find : Object → BindDesc → Member
  src_delete dsts_delete : Object → BindDesc → Member
  srcs_delete : Object → Object → BindDesc → Member
  dst_delete : Option Object → Object → BindDesc → Member
  bind_find bind_delete bind_lose : Object → Desc → Member
  bind_create : Object → BindDesc → Member
  src_done dst_done src_ready dst_ready : Option Object → Object → Bind → Member
  src_events dst_events : Object → BindDesc → Member
  src_ev_delete dst_ev_delete : Object → Member
  event_start event_find event_chain : Object → Desc → Member

abbrev pub placed : Option Placed → Option Run
placed none = none
placed (some p) = some p.run

abbrev pub rung : List Effect × Bind → Option Run
rung (log, w) = some (run (pos 0) none log)

-- `vfi_fabric_done` does nothing and is left out.
unfoldable pub serve : Board → Member → Option Run
serve b (Member.location_create o d) = fabric_location_create b o d
serve b (Member.location_find o d) = placed (fabric_location_find b o d)
serve b (Member.location_lose o d) = fabric_location_lose b o d
serve b (Member.location_put o) = fabric_location_put o
serve b (Member.location_delete o d) = fabric_location_delete b o d
serve b (Member.smb_create o d) = fabric_smb_create b o d
serve b (Member.smb_find o d) = fabric_smb_find b o d
serve b (Member.smb_delete o) = fabric_smb_delete o
serve b (Member.smb_put o) = fabric_smb_put b o
serve b (Member.smb_lose o) = fabric_smb_lose b o
serve b (Member.mmap_create o d) = fabric_mmap_create b o d
serve b (Member.mmap_find o d) = fabric_mmap_find b o d
serve b (Member.mmap_delete o) = fabric_mmap_delete o
serve b (Member.mmap_put o) = fabric_mmap_put o
serve b (Member.xfer_create o d) = fabric_xfer_create b o d
serve b (Member.xfer_find o d) = fabric_xfer_find b o d
serve b (Member.xfer_delete o) = fabric_xfer_delete o
serve b (Member.xfer_put o) = fabric_xfer_put b o
serve b (Member.xfer_lose o) = fabric_xfer_lose b o
serve b (Member.sync_create o d) = fabric_sync_create b o d
serve b (Member.sync_find o d) = fabric_sync_find b o d
serve b (Member.sync_delete o d) = fabric_sync_delete b o d
serve b (Member.sync_send o d) = fabric_sync_send b o d
serve b (Member.sync_wait o d) = fabric_sync_wait b o d
serve b (Member.sync_lose o d) = fabric_sync_lose b o d
serve b (Member.sync_put o) = fabric_sync_put b o
serve b (Member.srcs_create o d) = fabric_srcs_create b o d
serve b (Member.src_create o d) = fabric_src_create b o d
serve b (Member.src_find o d) = fabric_src_find b o d
serve b (Member.dsts_create o d) = fabric_dsts_create b o d
serve b (Member.dst_create o d) = fabric_dst_create b o d
serve b (Member.dst_find o d) = fabric_dst_find b o d
serve b (Member.src_delete o d) = fabric_src_delete b o d
serve b (Member.dsts_delete o d) = fabric_dsts_delete b o d
serve b (Member.srcs_delete o p d) = fabric_srcs_delete b o p d
serve b (Member.dst_delete o p d) = fabric_dst_delete b o p d
serve b (Member.bind_find o d) = fabric_bind_find b o d
serve b (Member.bind_delete o d) = fabric_bind_delete b o d
serve b (Member.bind_lose o d) = fabric_bind_lose b o d
serve b (Member.bind_create o d) = fabric_bind_create b o d
serve b (Member.src_done o p w) = rung (fabric_src_done b o p w)
serve b (Member.dst_done o p w) = rung (fabric_dst_done b o p w)
serve b (Member.src_ready o p w) = rung (fabric_src_ready b o p w)
serve b (Member.dst_ready o p w) = rung (fabric_dst_ready b o p w)
serve b (Member.src_events o d) = fabric_src_events b o d
serve b (Member.dst_events o d) = fabric_dst_events b o d
serve b (Member.src_ev_delete o) = fabric_src_ev_delete b o
serve b (Member.dst_ev_delete o) = fabric_dst_ev_delete b o
serve b (Member.event_start o d) = fabric_event_start b o d
serve b (Member.event_find o d) = fabric_event_find b o d
serve b (Member.event_chain o d) = fabric_event_chain b o d
