-- ===== src/Location/Inherit.antt =====
-- A new location (`new_vfi_location` in vfi_location.c): what it takes from the location above it, and
-- the sets that are made with it and put again on failure.
use vfi.Prelude.{
  ℕ, ◌≡◌, arith, Bool, true, false, not, ◌&&◌, List, [], ◌∷◌, total, Option, none, some,
  if◌then◌else◌, ◌==◌, ◌⊎◌,
}
use vfi.Ops.Model.{ℤ, pos, is_zero, Vtable}
use vfi.Forward.Model.{enomem, is_eexist}

-- What a description may give: extent and offset, 0 if not given, the table of operations, the DMA
-- engine and the fabric.
pub record Given : Type 0 where
  pub extent : ℕ
  pub offset : ℕ
  pub ops : Option Vtable
  pub rde : Option ℕ
  pub address : Option ℕ

abbrev pub or_number : ℕ → ℕ → ℕ
or_number n above = if n == 0 then above else n

abbrev pub or_else {ℓ} : {A : Type ℓ} → Option A → Option A → Option A
or_else (some a) above = some a
or_else none above = above

-- What is not given comes from the location above; without one of its own and one above, the table is
-- that of another board.
unfoldable pub inherit : Option Given → Given → Given
inherit none g = record g { ops = or_else g.ops (some Vtable.fabric) }
inherit (some above) g = record {
  extent = or_number g.extent above.extent;
  offset = or_number g.offset above.offset;
  ops = or_else g.ops (or_else above.ops (some Vtable.fabric));
  rde = or_else g.rde above.rde;
  address = or_else g.address above.address;
}

-- The sets of a new location, in the order in which they are made. -EEXIST is no failure.
pub data Step : Type 0 where
  location smbs xfers syncs : Step

pub data Effect : Type 0 where
  made put : Step → Effect

abbrev pub fails : ℤ → Bool
fails r = not (is_zero r) && not (is_eexist r)

pub record New : Type 0 where
  pub ret : ℤ
  pub made : Bool
  pub log : List Effect

abbrev pub undone : ℤ → List Effect → New
undone ret log = record { ret = ret; made = false; log = log }

-- `new_vfi_location`, by whether memory can be had and the results of `kset_register` and of the
-- makers of the three sets. The location itself is put on every failure.
unfoldable pub new_vfi_location : Bool → ℤ → ℤ → ℤ → ℤ → New
new_vfi_location kzalloc registered r_smbs r_xfers r_syncs =
    if not kzalloc
    then undone enomem []
    else if not (is_zero registered)
    then undone registered (made location ∷ put location ∷ [])
    else if fails r_smbs
    then undone r_smbs (made location ∷ put location ∷ [])
    else if fails r_xfers
    then undone r_xfers (made location ∷ made smbs ∷ put smbs ∷ put location ∷ [])
    else if fails r_syncs
    then undone r_syncs
        (made location ∷ made smbs ∷ made xfers ∷ put xfers ∷ put smbs ∷ put location ∷ [])
    else record {
      ret = pos 0;
      made = true;
      log = made location ∷ made smbs ∷ made xfers ∷ made syncs ∷ [];
    }

abbrev pub makes : (Step → ℕ) → Effect → ℕ
makes w (made s) = w s
makes w (put s) = 0

abbrev pub puts : (Step → ℕ) → Effect → ℕ
puts w (made s) = 0
puts w (put s) = w s

-- A failure is reported, and puts everything that was made, each once; a success is reported as 0 and
-- puts nothing.
pub new_vfi_location-Ends :
    (w : Step → ℕ) (kzalloc : Bool) (registered r_smbs r_xfers r_syncs : ℤ)
    → (let n = new_vfi_location kzalloc registered r_smbs r_xfers r_syncs in
        ((n.made ≡ true) × (n.ret ≡ pos 0) × (total (puts w) n.log ≡ 0))
        ⊎ ((n.made ≡ false)
            × (is_zero n.ret ≡ false)
            × (total (puts w) n.log ≡ total (makes w) n.log)))
unfolding new_vfi_location
new_vfi_location-Ends w kzalloc registered r_smbs r_xfers r_syncs = ground arith
