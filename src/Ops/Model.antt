-- ===== src/Ops/Model.antt =====
-- What the handlers work on: parsed commands, the objects that they look up, the two tables of
-- operations (`vfi_local_ops`, `vfi_fabric_ops`), and what a run of a handler leaves behind.
use vfi.Prelude.{ℕ, zero, suc, Bool, true, false, List, Option}

-- C's `int`
pub data ℤ : Type 0 where
  pos negsuc : ℕ → ℤ

abbrev pub is_zero : ℤ → Bool
is_zero (pos zero) = true
is_zero (pos (suc n)) = false
is_zero (negsuc n) = false

-- `-EINVAL` and `-ENODEV`
abbrev pub einval : ℤ
einval = negsuc 21

abbrev pub enodev : ℤ
enodev = negsuc 18

-- The commands, in the order of the table `ops`. A member of `struct vfi_ops` has the name of the
-- command that calls it.
pub data Op : Type 0 where
  event_start event_find event_chain : Op
  location_create location_delete location_find location_put : Op
  smb_create smb_delete smb_find smb_put smb_lose : Op
  mmap_create mmap_delete mmap_find mmap_put : Op
  sync_create sync_delete sync_find sync_put sync_send sync_wait : Op
  xfer_create xfer_delete xfer_find xfer_put xfer_lose : Op
  bind_create bind_delete bind_find bind_lose : Op
  dsts_create dsts_delete dsts_find : Op
  dst_create dst_delete dst_find : Op
  srcs_create srcs_delete srcs_find : Op
  src_create src_delete src_find : Op

-- The two tables; a member that the initialiser does not name is NULL.
pub data Vtable : Type 0 where
  local fabric : Vtable

abbrev pub vfi_local_ops : Op → Bool
vfi_local_ops dsts_find = false
vfi_local_ops srcs_find = false
vfi_local_ops _ = true

abbrev pub vfi_fabric_ops : Op → Bool
vfi_fabric_ops dsts_find = false
vfi_fabric_ops srcs_find = false
vfi_fabric_ops _ = true

abbrev pub has : Vtable → Op → Bool
has local = vfi_local_ops
has fabric = vfi_fabric_ops

-- `struct vfi_desc_param`: its strings without the buffer that they lie in.
pub record Desc : Type 0 where
  pub name : List ℕ
  pub location : Option (List ℕ)
  pub offset : ℕ
  pub extent : ℕ
  pub query : List (List ℕ)
  pub ops : Option Vtable

-- `struct vfi_bind_param`
pub record BindDesc : Type 0 where
  pub xfer : Desc
  pub dst : Desc
  pub src : Desc

-- An object of the tree of kobjects.
pub data Kind : Type 0 where
  a_location a_smb a_mmap a_sync a_xfer a_bind a_dsts a_dst a_srcs a_src : Kind

pub record Object : Type 0 where
  pub kind : Kind
  pub address : ℕ

-- The result and the out-pointer of a function that looks for an object or makes one.
pub record Lookup : Type 0 where
  pub ret : ℤ
  pub obj : Option Object

-- The parts of the driver that a handler calls: the parser, the searches, the `ops` of an object (of
-- its `desc`, or of `desc.xfer`, `desc.dst` and `desc.src` for a bind or dst), the members of the
-- tables, and the event of a bind.
pub record Driver : Type 0 where
  pub vfi_parse_desc : List ℕ → ℤ × Desc
  pub vfi_parse_bind : List ℕ → ℤ × BindDesc
  pub locate_vfi_location : Desc → Lookup
  pub find_vfi_name : Desc → Lookup
  pub kset_find_obj : List ℕ → Option Object
  pub find_vfi_smb : Desc → Lookup
  pub find_vfi_sync : Desc → Lookup
  pub find_vfi_xfer : Desc → Lookup
  pub find_vfi_bind : Desc → Lookup
  pub find_vfi_dst : BindDesc → Lookup
  pub desc_ops : Object → Option Vtable
  pub dst_ops : Object → Option Vtable
  pub src_ops : Object → Option Vtable
  pub invoke : Vtable → Op → Option Object → Lookup
  pub vfi_dst_parent : Object → Object
  pub src_done_event : Object → Option ℕ
  pub dst_done_event : Object → Option ℕ

-- What a handler does to the rest of the driver, in order: a search hands it a reference, it gives
-- one back, it calls a member of a table, it calls `vfi_location_delete`, and it cleans the
-- parsed command.
pub data Effect : Type 0 where
  found : Object → Effect
  put : Object → Effect
  invoked : Vtable → Op → Option Object → Effect
  deleted : Object → Effect
  cleaned : Effect

-- What a handler has when it comes to its reply: the result, the object that was made or found for
-- the user, and the event of the reply (-1 if there is none).
pub record Body : Type 0 where
  pub ret : ℤ
  pub made : Option Object
  pub event_id : ℤ
  pub log : List Effect

-- What a reply is about, apart from its result and the command that it answers.
pub data Quoted : Type 0 where
  the_params : Quoted
  the_object : Object → Quoted
  the_ticket : ℕ → Quoted
  the_event : ℤ → Quoted

pub data Params : Type 0 where
  of_desc : Desc → Params
  of_bind : BindDesc → Params

pub record Reply : Type 0 where
  pub op : Op
  pub quoted : Quoted
  pub ret : ℤ
  pub params : Params

pub record Outcome : Type 0 where
  pub ret : ℤ
  pub reply : Option Reply
  pub log : List Effect
