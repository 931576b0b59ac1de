-- ===== src/Local/Sizes.antt =====
-- The buffer that smb_create makes over the memory of a user (vfi_local_ops.c).
use vfi.Prelude.{
  ℕ, ◌+◌, ◌-◌, ◌*◌, ◌/◌, ◌%◌, ◌^◌, ◌≤◌, ◌<◌, ◌≡◌, ◌≢◌, refl, ap, ap₂, ◌∙◌, arith, List, some, bytes,
}
use native.Mathlib.Nat.{mod-eq_of_lt}
use vfi.Ops.Model.{Desc}
use vfi.Parse.Desc.{get_option}
use vfi.Local.Model.{Site}
use vfi.Local.Creates.{
  Buffer, sized, smb_size, fitting, size_by, map_address, buffer_extent, at_address,
}

-- A command with an extent and the option `map_address` has its pages taken from the start of the page
-- of that address, and the bytes of its buffer begin where the address is, moved by the command's
-- offset; but the buffer is longer than the extent by the offset of the address in its page. The new
-- offset leaves 32 bytes of a page, and the new extent has 32 bits.
pub smb_size-address :
    (t : Site) (d : Desc) (s : List ℕ)
    → get_option d.query (bytes "map_address") ≡ some s
    → d.extent ≢ 0
    → d.offset + (t.strtoul s).0 % 4096 ≤ 4096 - 32
    → d.extent + (t.strtoul s).0 % 4096 < 2 ^ 32
    → (buf : Buffer) × (smb_size t d ≡ sized buf)
      × (buf.address + buf.offset ≡ (t.strtoul s).0 + d.offset)
      × (buf.address % 4096 ≡ 0)
      × (buf.extent ≡ d.extent + (t.strtoul s).0 % 4096)
unfolding smb_size
smb_size-address t d s named some_extent low word =
    let extent : buffer_extent t d ≡ some d.extent = ground arith in
    let address : map_address t d ≡ some (t.strtoul s) = rw (named, map_address) refl in
    let fits : fitting (at_address (some (t.strtoul s)) d.offset d.extent) ≡ sized buf =
      ap fitting made_at ∙ room in
    (buf, ap₂ (λ x y. size_by x d.offset y) address extent ∙ fits, omega arith, omega arith, refl)
  where
    a : ℕ
    a = (t.strtoul s).0

    buf : Buffer
    buf = record {
      offset = d.offset + a % 4096;
      extent = d.extent + a % 4096;
      address = a / 4096 * 4096;
    }

    made_at : at_address (some (t.strtoul s)) d.offset d.extent ≡ buf
    made_at =
        ap₂ (λ x y. record { offset = x; extent = y; address = a / 4096 * 4096 })
          (mod-eq_of_lt (omega arith)) (mod-eq_of_lt (omega arith))

    room : fitting buf ≡ sized buf
    room = ground arith
