-- ===== src/Local/BindBalance.antt =====
-- The references of a bind: what bind_create takes and keeps, and what bind_delete gives back
-- (vfi_local_ops.c).
use vfi.Prelude.{
  ℕ, ◌+◌, ◌≡◌, refl, ap, ◌∙◌, arith, true, List, [], ◌∷◌, ◌++◌, total, total-append, Option, none,
  some, if◌then◌else◌, Bool-cases, inl, inr,
}
use vfi.Ops.Model.{ℤ, Op, Desc, BindDesc, Object, a_bind, a_dsts}
use vfi.Local.Model.{Site, deleted, asked}
use vfi.Local.Ends.{
  hit, bind_filled, bind_sourced, bind_src, bind_checked, bind_dst, bind_dsts, bind_made,
  local_bind_create, valid_part,
}
use vfi.Bind.Delete.{in_range}
use vfi.Local.Deletes.{smb_released, bind_gone, binds_gone, part_of, local_bind_delete}
use vfi.Local.Ends.{bind_place}
use vfi.Local.Balance.{gain, loss, held, Balance}

module _ (w : Object → ℕ) (t : Site) (xfer : Object) (d : BindDesc) where
  -- What a bind keeps: itself, its dsts, and its two smbs.
  abbrev pub bind_kept : Option Object → ℕ
  bind_kept none = 0
  bind_kept (some bind) =
      w bind
      + held w (hit (t.create_bind a_dsts bind d))
      + held w (t.find_vfi_smb d.dst).obj
      + held w (t.find_vfi_smb d.src).obj

  module _ (bind dsts : Object) (made_dsts : hit (t.create_bind a_dsts bind d) ≡ some dsts) where
    bind_filled-Balance :
        (dsmb ssmb : Object) (o : Option Object) (ret : ℤ)
        → (t.find_vfi_smb d.dst).obj ≡ some dsmb
        → (t.find_vfi_smb d.src).obj ≡ some ssmb
        → (let r = bind_filled t xfer d bind dsts dsmb ssmb o ret in
            Balance w r (w ssmb + w dsmb + w dsts + w bind) (bind_kept r.obj))
    bind_filled-Balance dsmb ssmb none ret e e' = omega arith
    bind_filled-Balance dsmb ssmb (some rdsts) ret e e' =
        omega (arith, ap (held w) made_dsts, ap (held w) e, ap (held w) e')

    bind_sourced-Balance :
        (dsmb ssmb : Object)
        → (t.find_vfi_smb d.dst).obj ≡ some dsmb
        → (t.find_vfi_smb d.src).obj ≡ some ssmb
        → (let r = bind_sourced t xfer d bind dsts dsmb ssmb in
            Balance w r (w ssmb + w dsmb + w dsts + w bind) (bind_kept r.obj))
    bind_sourced-Balance dsmb ssmb e e' =
        let c = t.create_part Op.dsts_create bind d in
        elim (Bool-cases (valid_part t ssmb d.src)) [
          | inl v ↦ rw v (omega (arith, bind_filled-Balance dsmb ssmb c.obj c.ret e e'))
          | inr v ↦ rw v (omega arith)
        ]

    bind_src-Balance :
        (dsmb : Object) (ret : ℤ) (o : Option Object)
        → (t.find_vfi_smb d.dst).obj ≡ some dsmb
        → (t.find_vfi_smb d.src).obj ≡ o
        → (let r = bind_src t xfer d bind dsts dsmb ret o in
            Balance w r (w dsmb + w dsts + w bind) (bind_kept r.obj))
    bind_src-Balance dsmb ret none e e' = omega arith
    bind_src-Balance dsmb ret (some ssmb) e e' = omega (arith, bind_sourced-Balance dsmb ssmb e e')

    bind_checked-Balance :
        (dsmb : Object)
        → (t.find_vfi_smb d.dst).obj ≡ some dsmb
        → (let r = bind_checked t xfer d bind dsts dsmb in
            Balance w r (w dsmb + w dsts + w bind) (bind_kept r.obj))
    bind_checked-Balance dsmb e =
        let l = t.find_vfi_smb d.src in
        elim (Bool-cases (valid_part t dsmb d.dst)) [
          | inl v ↦ rw v (bind_src-Balance dsmb l.ret l.obj e refl)
          | inr v ↦ rw v (omega arith)
        ]

    bind_dst-Balance :
        (ret : ℤ) (o : Option Object)
        → (t.find_vfi_smb d.dst).obj ≡ o
        → (let r = bind_dst t xfer d bind dsts ret o in
            Balance w r (w dsts + w bind) (bind_kept r.obj))
    bind_dst-Balance ret none e = omega arith
    bind_dst-Balance ret (some dsmb) e = omega (arith, bind_checked-Balance dsmb e)

  bind_dsts-Balance :
      (bind : Object) (ret : ℤ) (o : Option Object)
      → hit (t.create_bind a_dsts bind d) ≡ o
      → (let r = bind_dsts t xfer d bind ret o in Balance w r (w bind) (bind_kept r.obj))
  bind_dsts-Balance bind ret none e = omega arith
  bind_dsts-Balance bind ret (some dsts) e =
      let l = t.find_vfi_smb d.dst in omega (arith, bind_dst-Balance bind dsts e l.ret l.obj refl)

  bind_made-Balance :
      (ret : ℤ) (o : Option Object)
      → (let r = bind_made t xfer d ret o in Balance w r 0 (bind_kept r.obj))
  bind_made-Balance ret none = refl
  bind_made-Balance ret (some bind) =
      let c = t.create_bind a_dsts bind d in
      omega (arith, bind_dsts-Balance bind c.ret (hit c) refl)

-- bind_create gives back every reference that it takes if it hands out no bind. If it hands out a
-- bind, it keeps the bind, its dsts, and one reference to each of the two smbs.
pub bind_create-Balance :
    (w : Object → ℕ) (t : Site) (xfer : Object) (d : BindDesc)
    → (let r = local_bind_create t xfer d in
        let placed = record d { xfer = (bind_place (t.desc xfer) d.xfer).1 } in
        Balance w r 0 (bind_kept w t xfer placed r.obj))
unfolding local_bind_create
bind_create-Balance w t xfer d =
    let placed = record d { xfer = (bind_place (t.desc xfer) d.xfer).1 } in
    let c = t.create_bind a_bind xfer placed in
    omega (arith, bind_made-Balance w t xfer placed c.ret (hit c))

-- What a bind has held, as bind_delete finds it, and what the binds in a range have.
abbrev pub bind_held : (Object → ℕ) → Site → Object → ℕ
bind_held w t bind =
    w bind
    + held w (hit (t.find_vfi_smb (t.bind_desc bind).dst))
    + held w (hit (t.find_vfi_smb (t.bind_desc bind).src))

unfoldable pub range_held : (Object → ℕ) → Site → Desc → List Object → ℕ
unfolding in_range
range_held w t d [] = 0
range_held w t d (bind ∷ bs) =
    let later = range_held w t d bs in
    if in_range (part_of d) (part_of (t.bind_desc bind).xfer)
    then bind_held w t bind + later
    else later

module _ (w : Object → ℕ) where
  both_released :
      (a b : Option Object) (bind : Object)
      → (let log =
            asked Op.dsts_delete bind
            ∷ (smb_released a ++ smb_released b ++ deleted a_bind bind ∷ []) in
          w bind + held w a + held w b + total (gain w) log ≡ total (loss w) log)
  both_released none none bind = omega arith
  both_released none (some b) bind = omega arith
  both_released (some a) none bind = omega arith
  both_released (some a) (some b) bind = omega arith

  bind_gone-Balance :
      (t : Site) (bind : Object)
      → bind_held w t bind + total (gain w) (bind_gone t bind) ≡ total (loss w) (bind_gone t bind)
  bind_gone-Balance t bind = both_released _ _ bind

  binds_gone-Balance :
      (t : Site) (d : Desc) (bs : List Object)
      → range_held w t d bs + total (gain w) (binds_gone t d bs)
        ≡ total (loss w) (binds_gone t d bs)
  unfolding binds_gone range_held
  binds_gone-Balance t d [] = refl
  binds_gone-Balance t d (bind ∷ bs) =
      let later = binds_gone t d bs in
      elim (Bool-cases (in_range (part_of d) (part_of (t.bind_desc bind).xfer))) [
        | inl e ↦ rw e (
            omega (
              arith,
              bind_gone-Balance t bind,
              binds_gone-Balance t d bs,
              total-append (gain w) (bind_gone t bind) later,
              total-append (loss w) (bind_gone t bind) later,
            ))
        | inr e ↦ rw e (binds_gone-Balance t d bs)
      ]

  -- bind_delete gives back what the binds in the range of the command have held, each with a reference
  -- to each of its two smbs, and what it takes itself.
  pub bind_delete-Balance :
      (t : Site) (parent : Object) (d : Desc)
      → Balance w (local_bind_delete t parent d) (range_held w t d (t.children parent)) 0
  unfolding local_bind_delete
  bind_delete-Balance t parent d = omega (arith, binds_gone-Balance t d (t.children parent))

-- A bind that is created and then deleted leaves no reference to its smbs. If bind_create hands out a
-- bind, and later it is the only bind of its transfer, lies in the range of a bind_delete, and the
-- searches for its smbs find those of its creation, then both together give back all references that
-- they take but that of the dsts, which the bind_delete hands to dsts_delete.
pub bind_create-delete :
    (w : Object → ℕ) (t t' : Site) (xfer bind : Object) (d : BindDesc) (spec : Desc)
    → (local_bind_create t xfer d).obj ≡ some bind
    → t'.children xfer ≡ bind ∷ []
    → in_range (part_of spec) (part_of (t'.bind_desc bind).xfer) ≡ true
    → hit (t'.find_vfi_smb (t'.bind_desc bind).dst) ≡ (t.find_vfi_smb d.dst).obj
    → hit (t'.find_vfi_smb (t'.bind_desc bind).src) ≡ (t.find_vfi_smb d.src).obj
    → (let placed = record d { xfer = (bind_place (t.desc xfer) d.xfer).1 } in
        let create = (local_bind_create t xfer d).log in
        let delete = (local_bind_delete t' xfer spec).log in
        total (gain w) create + total (gain w) delete
        ≡ total (loss w) create
          + total (loss w) delete
          + held w (hit (t.create_bind a_dsts bind placed)))
unfolding range_held
bind_create-delete w t t' xfer bind d spec success only within same_dst same_src =
    let placed = record d { xfer = (bind_place (t.desc xfer) d.xfer).1 } in
    let kept = ap (bind_kept w t xfer placed) success in
    let one : range_held w t' spec (t'.children xfer) ≡ bind_held w t' bind + 0 =
      ap (range_held w t' spec) only ∙ rw within refl in
    omega (
      arith,
      bind_create-Balance w t xfer d,
      bind_delete-Balance w t' xfer spec,
      kept,
      one,
      ap (held w) same_dst,
      ap (held w) same_src,
    )
