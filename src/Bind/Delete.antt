-- ===== src/Bind/Delete.antt =====
-- Which binds of a transfer a delete command removes (`vfi_local_bind_delete` and
-- `vfi_local_bind_lose` in vfi_local_ops.c): the loop over the `<binds>` kset with its range test.
use vfi.Prelude.{
  ℕ, ◌+◌, ◌%◌, ◌^◌, ◌≤◌, ◌<◌, ◌≡◌, ◌≢◌, refl, ap, ◌∙◌, Bool, ◌&&◌, ◌||◌, List, [], ◌∷◌, ◌++◌, arith,
  leb, ◌==◌, if◌then◌else◌,
}

-- A bind by its offset (u64) and extent (unsigned int) within the transfer.
pub record Part : Type 0 where
  pub offset : ℕ
  pub extent : ℕ

-- The test of the loop; u64 addition wraps.
unfoldable pub in_range : Part → Part → Bool
in_range spec b =
    leb spec.offset b.offset
    && (spec.extent == 0 || leb b.offset ((spec.offset + spec.extent) % 2 ^ 64))

-- The binds left by the loop, which steps by a saved successor and so sees each bind once.
unfoldable pub delete_binds : Part → List Part → List Part
delete_binds spec [] = []
delete_binds spec (b ∷ bs) =
    let later = delete_binds spec bs in if in_range spec b then later else b ∷ later

-- The binds of a transfer, laid end to end from `start` on.
abbrev pub Tiles : ℕ → List Part → Type 0
Tiles start [] = Unit
Tiles start (b ∷ bs) = (b.offset ≡ start) × (b.extent ≢ 0) × Tiles (start + b.extent) bs

-- Where they end.
abbrev pub tiles_end : ℕ → List Part → ℕ
tiles_end start [] = start
tiles_end start (b ∷ bs) = tiles_end (start + b.extent) bs

tiles_end-ge : (start : ℕ) (bs : List Part) → start ≤ tiles_end start bs
tiles_end-ge start [] = omega arith
tiles_end-ge start (b ∷ bs) = omega (arith, tiles_end-ge (start + b.extent) bs)

Tiles-append :
    (start : ℕ) (bs cs : List Part)
    → Tiles start (bs ++ cs)
    → Tiles start bs × Tiles (tiles_end start bs) cs
Tiles-append start [] cs v = (tt, v)
Tiles-append start (b ∷ bs) cs (o, e, v) =
    let (v', w) = Tiles-append (start + b.extent) bs cs v in ((o, e, v'), w)

-- Binds past the range stay.
delete_past :
    (spec : Part) (start : ℕ) (bs : List Part)
    → spec.extent ≢ 0
    → spec.offset + spec.extent < 2 ^ 64
    → spec.offset + spec.extent < start
    → Tiles start bs
    → delete_binds spec bs ≡ bs
unfolding delete_binds in_range
delete_past spec start [] ne small past v = refl
delete_past spec start (b ∷ bs) ne small past (o, e, v) =
    ground (arith, delete_past spec (start + b.extent) bs ne small (omega arith) v)

-- Binds before the range stay.
delete_before :
    (spec : Part) (start : ℕ) (before rest : List Part)
    → tiles_end start before ≤ spec.offset
    → Tiles start before
    → delete_binds spec (before ++ rest) ≡ before ++ delete_binds spec rest
unfolding delete_binds in_range
delete_before spec start [] rest h v = refl
delete_before spec start (b ∷ bs) rest h (o, e, v) =
    ground
      (arith, tiles_end-ge (start + b.extent) bs, delete_before spec (start + b.extent) bs rest h v)

-- In a transfer whose binds are laid end to end, deleting one bind by its own offset and extent also
-- deletes the bind that follows it, and no other.
pub delete_takes_next :
    (start : ℕ) (before : List Part) (b c : Part) (after : List Part)
    → tiles_end start before + b.extent + c.extent < 2 ^ 64
    → Tiles start (before ++ b ∷ c ∷ after)
    → delete_binds b (before ++ b ∷ c ∷ after) ≡ before ++ after
unfolding delete_binds in_range
delete_takes_next start before b c after small v =
    let (w, ob, eb, oc, ec, x) = parts in
    delete_before b start before (b ∷ c ∷ after) (omega arith) w
    ∙ ap (◌++◌ before) (ground (arith, delete_past b _ after eb (omega arith) (omega arith) x))
  where
    parts :
        Tiles start before
        × (b.offset ≡ tiles_end start before)
        × (b.extent ≢ 0)
        × (c.offset ≡ tiles_end start before + b.extent)
        × (c.extent ≢ 0)
        × Tiles (tiles_end start before + b.extent + c.extent) after
    parts =
        let (w, (ob, eb, (oc, ec, x))) = Tiles-append start before (b ∷ c ∷ after) v in
        (w, ob, eb, oc, ec, x)
