-- ===== src/Ops/Outcomes.antt =====
-- What some commands come to: the buffer that `smb_put` loses, and the two searches that no table has.
use vfi.Prelude.{ℕ, ◌≡◌, arith, Bool, true, false, List, [], ◌∷◌, Option, none, some, if◌then◌else◌}
use vfi.Ops.Model.{ℤ, pos, is_zero, einval, Op, Desc, Object, Driver, Outcome}
use vfi.Ops.Frame.{member, finish, with_desc}
use vfi.Ops.Buffers.{smb_put, smb_put_body}
use vfi.Ops.References.{founds, puts}

-- The result, and the references handed out and given back.
abbrev pub account : Option Outcome → Option (ℤ × List Object × List Object)
account none = none
account (some o) = some (o.ret, founds o.log, puts o.log)

-- A buffer that `smb_put` finds is given back twice, for the search and for the user, if its table
-- has the member `smb_put`; if it has not, the reference of the search is never given back.
pub smb_put_lem :
    (d : Driver) (text : List ℕ) (wanted : Bool) (p : Desc) (smb : Object)
    → d.vfi_parse_desc text ≡ (pos 0, p)
    → d.find_vfi_smb p ≡ record { ret = pos 0; obj = some smb }
    → account (smb_put d text wanted) ≡ elim (member d.desc_ops Op.smb_put (some smb)) [
      | some v ↦ some (pos 0, smb ∷ [], smb ∷ smb ∷ [])
      | none ↦ some (einval, smb ∷ [], [])
    ]
unfolding smb_put smb_put_body with_desc finish
smb_put_lem d text wanted p smb parsed hit = ground (arith, parsed, hit)

abbrev pub failed : Option Outcome → Bool
failed none = true
failed (some o) = if is_zero o.ret then false else true
