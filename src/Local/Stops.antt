-- ===== src/Local/Stops.antt =====
-- What the loops of `vfi_local_dsts_create` and `vfi_local_srcs_create` have asked for when they stop.
use vfi.Prelude.{
  ℕ, zero, suc, ◌+◌, ◌*◌, ◌%◌, ◌^◌, ◌≡◌, refl, Bool, true, List, Option, none, [], ◌∷◌, arith,
  ℕ_discrete, Bool-cases, inl, inr, some, if◌then◌else◌,
}
use vfi.Ops.Model.{ℤ, pos}
use vfi.Local.Split.{Fragment, split, split_from, split_dst, split_src, next_size, created, num_dma}

-- Every call succeeds.
abbrev pub always : Fragment → Bool × ℤ
always f = (true, pos 0)

-- The fragments up to and with the first whose call fails, and the result of that call.
abbrev pub up_to_failure : (Fragment → Bool × ℤ) → List Fragment → List Fragment
up_to_failure create [] = []
up_to_failure create (f ∷ fs) = if (create f).0 then f ∷ up_to_failure create fs else f ∷ []

abbrev pub first_failure : (Fragment → Bool × ℤ) → List Fragment → Option ℤ
first_failure create [] = none
first_failure create (f ∷ fs) = if (create f).0 then first_failure create fs else some (create f).1

abbrev calls : (Fragment → Bool × ℤ) → List Fragment → List Fragment × Option ℤ
calls create fs = (up_to_failure create fs, first_failure create fs)

created-calls :
    (create : Fragment → Bool × ℤ) (f : Fragment) (fs : List Fragment)
    (r : List Fragment × Option ℤ)
    → r ≡ calls create fs
    → created create f r ≡ calls create (f ∷ fs)
created-calls create f fs r h = elim (Bool-cases (create f).0) [
  | inl e ↦ ground (arith, e, h)
  | inr e ↦ ground (arith, e)
]

module _ (frame : ℕ → ℕ) (end width : ℕ) (create : Fragment → Bool × ℤ) where
  split_stops :
      (left page : ℕ) (f : Fragment)
      → split frame end width create left page f
        ≡ calls create (split frame end width always left page f).0
  unfolding split
  split_stops zero page f = created-calls create f [] _ refl
  split_stops (suc left) page f =
      let joint : Fragment = record f { extent = (f.extent + next_size end left) % 2 ^ 32 } in
      let new : Fragment = record {
        address = frame (page + 1) * 4096;
        extent = next_size end left;
        peer = (f.peer + f.extent) % width;
      } in
      elim (ℕ_discrete (frame page + 1) (frame (page + 1))) [
        | yes e ↦ ground (arith, split_stops left (page + 1) joint)
        | no e ↦
            let later = split frame end width create left (page + 1) new in
            let rest = (split frame end width always left (page + 1) new).0 in
            ground (arith, created-calls create f rest later (split_stops left (page + 1) new))
      ]

  split_from_stops :
      (pages page offset size peer : ℕ)
      → split_from frame end width create pages page offset size peer
        ≡ calls create (split_from frame end width always pages page offset size peer).0
  split_from_stops zero page offset size peer = refl
  split_from_stops (suc left) page offset size peer = split_stops left page _

-- A call that fails ends the loop. On every way both loops ask for the fragments that they ask for when
-- every call succeeds, in that order, up to and with the first whose call fails and for none after it,
-- and what they keep is the result of that call, or none if no call fails.
pub split_ends_stop :
    (frame : ℕ → ℕ) (create : Fragment → Bool × ℤ) (b d n peer : ℕ)
    → let dsts = (split_dst frame always b d n peer).0 in
      let srcs = (split_src frame always b d n peer).0 in
      (split_dst frame create b d n peer ≡ (up_to_failure create dsts, first_failure create dsts))
      × (split_src frame create b d n peer ≡ (up_to_failure create srcs, first_failure create srcs))
unfolding split_dst split_src
split_ends_stop frame create b d n peer = (
  split_from_stops frame _ _ create (num_dma b d n) _ _ _ _,
  split_from_stops frame _ _ create (num_dma b d n) _ _ _ _,
)
