-- ===== src/Ops/Tidy.antt =====
-- The bodies of the handlers of vfi_ops.c, with respect to the references that they hold.
use vfi.Prelude.{refl, arith, Bool, true, false, [], Option, some, if◌then◌else◌}
use vfi.Ops.Model.{einval, Op, Desc, BindDesc, Lookup, Driver, Outcome}
use vfi.Ops.Frame.{plain, ask}
use vfi.Ops.Places.{
  location_create_below, location_create_body, location_delete_body, event_below, event_body,
}
use vfi.Ops.Buffers.{smb_find_body, close_mmap, mmap_close_body}
use vfi.Bind.Extents.{valid_extents}
use vfi.Ops.Binds.{
  extents, checked, bind_create_body, src_create_body, src_find_body, srcs_create_body,
  dsts_create_body,
}
use vfi.Ops.References.{
  Tidy, BodyTidy, OutcomeSettled, IsCareful, FailsEmpty, call_on-Tidy, ask-Tidy, tell_inside-Tidy,
  choice-Tidy,
}

module _ (d : Driver) where
  event_below-Tidy : (op : Op) (l : Lookup) → FailsEmpty l → Tidy (event_below d op l)
  unfolding event_below
  event_below-Tidy op l h = ground (arith, h)

  location_create_below-Tidy :
      (p : Desc) → FailsEmpty (d.locate_vfi_location p) → Tidy (location_create_below d p)
  unfolding location_create_below
  location_create_below-Tidy p h =
      ground (arith, h, call_on-Tidy d d.desc_ops Op.location_create (d.locate_vfi_location p).obj)

  pub close_mmap-Tidy : (op : Op) (l : Lookup) → FailsEmpty l → BodyTidy (mmap_close_body d op l)
  unfolding mmap_close_body close_mmap
  close_mmap-Tidy op l h = ground (arith, h)

  pub src_create-Tidy : (l : Lookup) → FailsEmpty l → Tidy (src_create_body d l)
  unfolding src_create_body
  src_create-Tidy l h = ground (arith, h, call_on-Tidy d d.desc_ops Op.src_create l.obj)

  pub src_find-Tidy : (l : Lookup) → Tidy (src_find_body d l)
  unfolding src_find_body
  src_find-Tidy l = ground (arith, ask-Tidy d d.dst_ops Op.src_find l)

  pub srcs_create-Tidy : (l : Lookup) → BodyTidy (srcs_create_body d l)
  unfolding srcs_create_body
  srcs_create-Tidy l = ground (arith, ask-Tidy d d.src_ops Op.srcs_create l)

  pub dsts_create-Tidy : (l : Lookup) → Tidy (dsts_create_body d l)
  unfolding dsts_create_body
  dsts_create-Tidy l = ground (arith, ask-Tidy d d.dst_ops Op.dsts_create l)

  pub location_create-Tidy : IsCareful d → (p : Desc) → BodyTidy (location_create_body d p)
  unfolding location_create_body
  location_create-Tidy h p = ground (arith, location_create_below-Tidy p (h.location p))

  pub location_delete-Tidy : IsCareful d → (p : Desc) → BodyTidy (location_delete_body d p)
  unfolding location_delete_body
  location_delete-Tidy h p = ground (
    arith,
    tell_inside-Tidy d d.desc_ops Op.location_delete (d.locate_vfi_location p) (h.location p),
  )

  pub event-Tidy : (op : Op) → IsCareful d → (p : Desc) → BodyTidy (event_body d op p)
  unfolding event_body
  event-Tidy op h p = ground (arith, event_below-Tidy op (d.locate_vfi_location p) (h.location p))

  pub smb_find-Tidy : (p : Desc) → BodyTidy (smb_find_body d p)
  unfolding smb_find_body
  smb_find-Tidy p = ground (arith, ask-Tidy d d.desc_ops Op.smb_find (d.locate_vfi_location p))

pub choice-Settled :
    (c : Bool) (a b : Option Outcome)
    → OutcomeSettled a
    → OutcomeSettled b
    → OutcomeSettled (if c then a else b)
choice-Settled true a b g h = g
choice-Settled false a b g h = h

pub bind_create-Tidy : (d : Driver) (p : BindDesc) → BodyTidy (bind_create_body d p)
unfolding bind_create_body
bind_create-Tidy d p =
    choice-Tidy (valid_extents (extents p)).0
      (some (ask d d.desc_ops Op.bind_create (d.find_vfi_xfer (checked p).xfer)))
      (some (plain einval []))
      (ask-Tidy d d.desc_ops Op.bind_create (d.find_vfi_xfer (checked p).xfer)) (refl, refl)
