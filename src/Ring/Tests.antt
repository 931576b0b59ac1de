-- ===== src/Ring/Tests.antt =====
-- Runs of ringbuf.c on concrete rings.
use vfi.Prelude.{ℕ, ◌≡◌, refl, List, [], ◌∷◌, true, false, arith}
use vfi.Ring.{Ring, init, empty, get, put}
use vfi.Ring.Refine.{
  IsValid, contents, take_oldest, add_newest, get_refines, put_refines, get-IsValid,
}

abbrev slots : List ℕ
slots = 0x10 ∷ 0x20 ∷ 0x30 ∷ []

-- 0x20, then 0x30, with the writer gone round.
abbrev turned : Ring
turned = record { array = slots; i_read = 1; i_write = 0; i_len = 3 }

turned-IsValid : IsValid turned
turned-IsValid = omega arith

full_ring : put turned 0x40 ≡ (0, turned)
unfolding put
full_ring = refl

empty_ring : empty (init slots 3 false) ≡ true
unfolding empty init
empty_ring = refl

get_refines_example : let (p, r) = get turned in (p, contents r) ≡ take_oldest (0x20 ∷ 0x30 ∷ [])
get_refines_example = get_refines turned-IsValid

put_refines_example :
    let (p, r) = put (get turned).1 0x40 in (p, contents r) ≡ add_newest 2 (0x30 ∷ []) 0x40
unfolding get
put_refines_example = put_refines 0x40 (get-IsValid turned-IsValid)
