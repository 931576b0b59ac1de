-- ===== src/Local/Model.antt =====
-- What the members of `vfi_local_ops` use of the rest of the driver, and what they leave behind.
use vfi.Prelude.{ℕ, Bool, List, [], ◌∷◌, ◌++◌, Option, none, some}
use vfi.Ops.Model.{ℤ, Op, Desc, BindDesc, Kind, Object, Lookup}
use vfi.Forward.Model.{Slot}
use vfi.Local.Split.{Fragment}

-- The board that a member runs on. The searches and the makers of objects (`vfi_smb_create` and its
-- like) give a result and an object; `frames` is the array `pages` of an smb, if it has one, as the
-- numbers of page frames. `children` are the members of an object's kset, and `set_of` its `dsts` or
-- `srcs`. `member` and `create_part` are members of the table of another part of a bind: what
-- they are asked and what they give.
pub record Site : Type 0 where
  pub strtoul : List ℕ → ℕ × List ℕ
  pub hex : ℕ → List ℕ
  pub kzalloc : Bool
  pub kset_find_obj : Object → Kind → List ℕ → Option Object
  pub has_set : Object → Kind → Bool
  pub find_vfi_name : Option Object → Desc → Lookup
  pub find_vfi_smb : Desc → Lookup
  pub find_vfi_mmap_in : Object → Desc → Lookup
  pub find_vfi_dst_in : Object → BindDesc → Lookup
  pub find_vfi_events : List ℕ → Bool
  pub vfi_events_create : List ℕ → ℤ
  pub vfi_event_create : Object → Slot → ℤ
  pub create_location : Option Object → Desc → Lookup
  pub create : Kind → Object → Desc → Lookup
  pub create_bind : Kind → Object → BindDesc → Lookup
  pub desc : Object → Desc
  pub bind_desc : Object → BindDesc
  pub has_address : Object → Bool
  pub has_event : Object → Slot → Bool
  pub frames : Object → Option (ℕ → ℕ)
  pub children : Object → List Object
  pub set_of : Object → Option Object
  pub vfi_dst_parent : Object → Object
  pub member : Op → Object → BindDesc → Lookup
  pub create_part : Op → Object → BindDesc → Lookup
  pub part_events : Object → BindDesc → ℤ

-- What a member does, in order. `found` and `made` hand out a reference, `put` and `deleted` give one
-- back; `asked` is a call of a member of a table.
pub data Effect : Type 0 where
  found put : Object → Effect
  made deleted : Kind → Object → Effect
  asked : Op → Object → Effect
  fragment : Op → Object → Fragment → Effect
  events_asked events_gone_asked : Object → Effect
  extent_set : Object → ℕ → Effect
  registered : Object → Effect
  loaded : Object → Effect
  chain_ended : Object → Effect
  inherited : Object → Object → Effect
  list_found list_made list_put : List ℕ → Effect
  event_made event_put event_deleted : Slot → Effect

-- The result of a member, the object that it hands out, and what it did. A member without a result
-- has 0 here.
pub record Run : Type 0 where
  pub ret : ℤ
  pub obj : Option Object
  pub log : List Effect

abbrev pub run : ℤ → Option Object → List Effect → Run
run ret obj log = record { ret = ret; obj = obj; log = log }

abbrev pub before : List Effect → Run → Run
before log r = record r { log = log ++ r.log }

-- What a search and a maker leave in the log.
abbrev pub finding : Lookup → List Effect
finding l = elim l.obj [ none ↦ [] | some o ↦ found o ∷ [] ]

abbrev pub making : Kind → Lookup → List Effect
making k l = elim l.obj [ none ↦ [] | some o ↦ made k o ∷ [] ]
