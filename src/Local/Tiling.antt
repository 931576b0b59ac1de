-- ===== src/Local/Tiling.antt =====
-- Where the binds of a transfer lie that bind_create makes one after the other (vfi_local_ops.c).
use vfi.Prelude.{ℕ, ◌+◌, ◌%◌, ◌^◌, ◌<◌, ◌≡◌, ◌≢◌, refl, arith, List, [], ◌∷◌}
use native.Mathlib.Nat.{mod-eq_of_lt}
use vfi.Ops.Model.{Desc}
use vfi.Bind.Delete.{Part, Tiles, tiles_end}
use vfi.Local.Deletes.{part_of}
use vfi.Local.Ends.{bind_place}

-- The transfer after several commands, and the places of their binds.
unfoldable pub place_binds : Desc → List Desc → Desc × List Part
unfolding bind_place
place_binds xfer [] = (xfer, [])
place_binds xfer (d ∷ ds) =
    let (grown, d') = bind_place xfer d in
    let (full, parts) = place_binds grown ds in (full, part_of d' ∷ parts)

-- Commands that give no offset and some extent.
abbrev pub Unplaced : List Desc → Type 0
Unplaced [] = Unit
Unplaced (d ∷ ds) = (d.offset ≡ 0) × (d.extent ≢ 0) × Unplaced ds

abbrev pub extents : List Desc → ℕ
extents [] = 0
extents (d ∷ ds) = d.extent + extents ds

-- Binds that are created without an offset lie end to end, from where the transfer ended before to
-- where it ends after them, as long as its extent has 32 bits.
pub place_binds-Tiles :
    (xfer : Desc) (ds : List Desc)
    → Unplaced ds
    → xfer.extent + extents ds < 2 ^ 32
    → (let (full, parts) = place_binds xfer ds in
        Tiles xfer.extent parts × (tiles_end xfer.extent parts ≡ full.extent))
unfolding place_binds
place_binds-Tiles xfer [] u small = (tt, refl)
place_binds-Tiles xfer (d ∷ ds) (o, e, u) small =
    let grown : (xfer.extent + d.extent) % 2 ^ 32 ≡ xfer.extent + d.extent =
      mod-eq_of_lt (omega arith) in
    let ih =
      place_binds-Tiles (record xfer { extent = xfer.extent + d.extent }) ds u (omega arith) in
    ((ground arith, e, rw grown ih.0), rw grown ih.1)
