-- ===== src/Local/Asked.antt =====
-- What a dsts_create that succeeds has asked for (vfi_local_ops.c).
use vfi.Prelude.{
  ℕ, ◌+◌, ◌^◌, ◌≤◌, ◌<◌, ◌≡◌, refl, sym, ap, subst, ◌∙◌, arith, Bool, true, List, [], ◌∷◌, ◌++◌,
  append-nil, Option, none, some, if◌then◌else◌, Bool-cases, inl, inr,
}
use mathlib.Core.Option.{some-injective}
use vfi.Ops.Model.{ℤ, pos, is_zero, einval, Op, BindDesc, Object, a_dsts}
use vfi.Local.Split.{Fragment, split_dst}
use vfi.Local.Bytes.{bytes, named}
use vfi.Local.Cover.{split_dst-named}
use vfi.Local.Stops.{always, up_to_failure, first_failure, split_ends_stop}
use vfi.Local.Model.{Site, Effect, put, fragment, events_asked, run, before}
use vfi.Local.Ends.{
  hit, asked_for, dst_call, dsts_ended, dsts_split, dsts_checked, dsts_found, dsts_made, valid_part,
  local_dsts_create,
}

-- The fragments that a run asks for.
abbrev pub fragments : List Effect → List Fragment
fragments [] = []
fragments (fragment op o f ∷ log) = f ∷ fragments log
fragments (_ ∷ log) = fragments log

fragments-asked_for :
    (op : Op) (o : Object) (fs : List Fragment) (log : List Effect)
    → fragments (asked_for op o fs ++ log) ≡ fs ++ fragments log
fragments-asked_for op o [] log = refl
fragments-asked_for op o (f ∷ fs) log = ap (◌∷◌ f) (fragments-asked_for op o fs log)

-- If no call has stopped the loop, all were made.
calls-all :
    (create : Fragment → Bool × ℤ) (fs : List Fragment)
    → first_failure create fs ≡ none
    → up_to_failure create fs ≡ fs
calls-all create [] h = refl
calls-all create (f ∷ fs) h = elim (Bool-cases (create f).0) [
  | inl e ↦ ground (arith, e, h, calls-all create fs)
  | inr e ↦ ground (arith, e, h)
]

-- The fragments of a run are those of the part of the smb that was found.
abbrev Splits : Site → BindDesc → Object → List Fragment → Type 0
Splits t d smb fs =
    (frame : ℕ → ℕ) × (t.frames smb ≡ some frame)
    × (valid_part t smb d.dst ≡ true)
    × (fs ≡ (split_dst frame always (t.desc smb).offset d.dst.offset d.dst.extent d.src.offset).0)

module _ (t : Site) (parent : Object) (d : BindDesc) (dsts smb : Object) where
  ended-asks :
      (fs : List Fragment) (stop : Option ℤ)
      → (dsts_ended t parent d dsts smb (asked_for Op.dst_create parent fs) stop).ret ≡ pos 0
      → (stop ≡ none)
        × (fragments (dsts_ended t parent d dsts smb (asked_for Op.dst_create parent fs) stop).log
            ≡ fs)
  ended-asks fs none h = (refl, fragments-asked_for Op.dst_create parent fs _ ∙ append-nil fs)
  ended-asks fs (some r) h = cc

  split-asks :
      (o : Option (ℕ → ℕ))
      → t.frames smb ≡ o
      → valid_part t smb d.dst ≡ true
      → (dsts_split t parent d dsts smb o).ret ≡ pos 0
      → Splits t d smb (fragments (dsts_split t parent d dsts smb o).log)
  split-asks none e v h = cc
  split-asks (some frame) e v h =
      let create = dst_call t parent d in
      let b = (t.desc smb).offset in
      let res = split_dst frame create b d.dst.offset d.dst.extent d.src.offset in
      let stop = (split_ends_stop frame create b d.dst.offset d.dst.extent d.src.offset).0 in
      let a = ended-asks res.0 res.1 h in
      (frame, e, v, a.1 ∙ ap (λ r. r.0) stop ∙ calls-all create _ (sym (ap (λ r. r.1) stop) ∙ a.0))

  checked-asks :
      (dsts_checked t parent d dsts smb).ret ≡ pos 0
      → Splits t d smb (fragments (dsts_checked t parent d dsts smb).log)
  checked-asks h = elim (Bool-cases (valid_part t smb d.dst)) [
    | inl v ↦
        let bad = run einval (some dsts) (put smb ∷ put dsts ∷ []) in
        let same : dsts_checked t parent d dsts smb
            ≡ dsts_split t parent d dsts smb (t.frames smb) =
          ap (λ b. if b then dsts_split t parent d dsts smb (t.frames smb) else bad) v in
        subst (λ r. Splits t d smb (fragments r.log)) (sym same)
          (split-asks (t.frames smb) refl v (sym (ap (λ r. r.ret) same) ∙ h))
    | inr v ↦
        let good = dsts_split t parent d dsts smb (t.frames smb) in
        let bad = run einval (some dsts) (put smb ∷ put dsts ∷ []) in
        let same : dsts_checked t parent d dsts smb ≡ bad = ap (λ b. if b then good else bad) v in
        let no : einval ≡ pos 0 = sym (ap (λ r. r.ret) same) ∙ h in cc
  ]

module _ (t : Site) (parent : Object) (d : BindDesc) (smb : Object)
    (there : hit (t.find_vfi_smb d.dst) ≡ some smb) where
  found-asks :
      (dsts : Object) (o : Option Object)
      → o ≡ some smb
      → (dsts_found t parent d dsts o).ret ≡ pos 0
      → Splits t d smb (fragments (dsts_found t parent d dsts o).log)
  found-asks dsts o e h =
      subst (λ x. Splits t d smb (fragments (dsts_found t parent d dsts x).log)) (sym e)
        (checked-asks t parent d dsts smb
          (sym (ap (λ x. (dsts_found t parent d dsts x).ret) e) ∙ h))

  made-asks :
      (o : Option Object)
      → (dsts_made t parent d o).ret ≡ pos 0
      → Splits t d smb (fragments (dsts_made t parent d o).log)
  made-asks none h = cc
  made-asks (some dsts) h = found-asks dsts (hit (t.find_vfi_smb d.dst)) there h

  create-asks :
      (local_dsts_create t parent d).ret ≡ pos 0
      → Splits t d smb (fragments (local_dsts_create t parent d).log)
  unfolding local_dsts_create
  create-asks h = elim (Bool-cases (is_zero (t.part_events parent d))) [
    | inl e ↦
        let rest = dsts_made t parent d (hit (t.create_bind a_dsts parent d)) in
        let same : local_dsts_create t parent d ≡ before (events_asked parent ∷ []) rest =
          rw (e, local_dsts_create) refl in
        subst (λ r. Splits t d smb (fragments r.log)) (sym same)
          (made-asks (hit (t.create_bind a_dsts parent d)) (sym (ap (λ r. r.ret) same) ∙ h))
    | inr e ↦
        let bad = run einval none (events_asked parent ∷ []) in
        let same : local_dsts_create t parent d ≡ bad = rw (e, local_dsts_create) refl in
        let no : einval ≡ pos 0 = sym (ap (λ r. r.ret) same) ∙ h in cc
  ]

-- A dsts_create that gives 0 has asked for fragments that name exactly the bytes of the part of the smb
-- that was found: each once, in order, at its place in memory and with its offset in the source. The
-- part is not empty and ends below 2 ^ 43, its extent has 32 bits, and the offsets of the source do
-- not wrap around.
pub dsts_create-covers :
    (t : Site) (parent : Object) (d : BindDesc) (smb : Object) (frame : ℕ → ℕ)
    → (local_dsts_create t parent d).ret ≡ pos 0
    → hit (t.find_vfi_smb d.dst) ≡ some smb
    → t.frames smb ≡ some frame
    → 0 < d.dst.extent
    → (t.desc smb).offset + d.dst.offset + d.dst.extent < 2 ^ 43
    → d.dst.extent < 2 ^ 32
    → d.src.offset + d.dst.extent ≤ 2 ^ 64
    → named (fragments (local_dsts_create t parent d).log)
      ≡ bytes frame ((t.desc smb).offset + d.dst.offset) d.src.offset d.dst.extent
dsts_create-covers t parent d smb frame success there paged some_extent small word fits =
    let (frame', paged', valid, asks) = create-asks t parent d smb there success in
    let one : frame' ≡ frame = some-injective frame' frame (sym paged' ∙ paged) in
    ap named asks
    ∙ split_dst-named frame' always (t.desc smb).offset d.dst.offset d.dst.extent d.src.offset
        (λ f. refl) some_extent small word fits
    ∙ ap (λ x. bytes x ((t.desc smb).offset + d.dst.offset) d.src.offset d.dst.extent) one
