-- ===== src/Location/Tests.antt =====
-- A tree with the location `top`, below it `mid`, and below that `leaf`.
use vfi.Prelude.{
  ℕ, ◌≡◌, refl, arith, true, false, ◌&&◌, List, [], ◌∷◌, total, Option, none, some, if◌then◌else◌,
  ◌==◌, bytes, str_eq, ◌⊎◌,
}
use vfi.Ops.Model.{pos, negsuc, is_zero, einval, Desc, Object, Lookup, a_location}
use vfi.Parse.Desc.{parse_part}
use vfi.Parse.Tests.{strtoul}
use vfi.Location.Model.{Tree, locate_vfi_location, walk}
use vfi.Location.Walk.{Finds, locate-walk}
use vfi.Location.Held.{SearchEven, locate-Even}
use vfi.Location.Inherit.{new_vfi_location, puts, makes, new_vfi_location-Ends}

abbrev at : ℕ → Object
at n = record { kind = a_location; address = n }

abbrev child : Option Object → List ℕ → Option Object
child none n = if str_eq n (bytes "top") then some (at 1) else none
child (some o) n =
    if str_eq n (bytes "mid") && o.address == 1
    then some (at 2)
    else if str_eq n (bytes "leaf") && o.address == 2
    then some (at 3)
    else none

abbrev of_option : Option Object → Lookup
of_option o = record { ret = elim o [ none ↦ einval | some a ↦ pos 0 ]; obj = o }

abbrev tree : Tree
tree = record {
  vfi_parse_desc = λ s. parse_part strtoul false (some s);
  location_find = λ o d. of_option (child (some o) d.name);
  kset_find_obj = child;
}

abbrev buffer : Desc
buffer = record {
  name = bytes "buf";
  location = some (bytes "leaf.mid.top");
  offset = 16;
  extent = 32;
  query = [];
  ops = none;
}

locate-walk_example :
    Finds
      (walk child (bytes "leaf") (bytes "mid" ∷ bytes "top" ∷ []))
      (locate_vfi_location 3 tree none buffer)
locate-walk_example =
    locate-walk tree strtoul false 3 buffer (bytes "leaf") (bytes "mid" ∷ bytes "top" ∷ [])
      (record { member = λ o d. refl; parser = λ s. refl }) refl refl refl (omega arith)

leaf_found : walk child (bytes "leaf") (bytes "mid" ∷ bytes "top" ∷ []) ≡ some (at 3)
unfolding str_eq
leaf_found = refl

locate-Even_example : SearchEven (λ o. o.address) (locate_vfi_location 3 tree none buffer)
locate-Even_example = locate-Even (λ o. o.address) 3 tree none buffer

new_vfi_location-Ends_example :
    let n = new_vfi_location true (pos 0) (pos 0) (negsuc 16) (negsuc 11) in
    ((n.made ≡ true) × (n.ret ≡ pos 0) × (total (puts (λ s. 1)) n.log ≡ 0))
    ⊎ ((n.made ≡ false)
        × (is_zero n.ret ≡ false)
        × (total (puts (λ s. 1)) n.log ≡ total (makes (λ s. 1)) n.log))
new_vfi_location-Ends_example =
    new_vfi_location-Ends (λ s. 1) true (pos 0) (pos 0) (negsuc 16) (negsuc 11)
