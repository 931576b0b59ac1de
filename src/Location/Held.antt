-- ===== src/Location/Held.antt =====
-- The references and the memory that the searches of vfi_location.c use on their way.
use vfi.Prelude.{
  ℕ, zero, suc, ◌+◌, ◌≡◌, refl, sym, subst, arith, List, [], ◌∷◌, ◌++◌, total, total-append, Option,
  none, some, Option-cases, inl, inr,
}
use vfi.Ops.Model.{ℤ, pos, einval, Desc, Object}
use vfi.Location.Model.{
  Tree, Effect, found, put, parsed, cleaned, Search, result, below_found, below?, taken, is_there,
  find_vfi_location, locate_vfi_location, place_by,
}

-- References weigh what `w` says; memory is counted.
abbrev pub gain : (Object → ℕ) → Effect → ℕ
gain w (found o) = w o
gain w _ = 0

abbrev pub loss : (Object → ℕ) → Effect → ℕ
loss w (put o) = w o
loss w _ = 0

abbrev pub is_parsed : Effect → ℕ
is_parsed parsed = 1
is_parsed _ = 0

abbrev pub is_cleaned : Effect → ℕ
is_cleaned cleaned = 1
is_cleaned _ = 0

abbrev pub held : (Object → ℕ) → Option Object → ℕ
held w none = 0
held w (some o) = w o

abbrev pub Even : (Object → ℕ) → List Effect → Option Object → Type 0
Even w log o =
    (total (gain w) log ≡ total (loss w) log + held w o)
    × (total is_parsed log ≡ total is_cleaned log)

abbrev pub SearchEven : (Object → ℕ) → Option Search → Type 0
SearchEven w none = Unit
SearchEven w (some s) = Even w s.log s.obj

-- An inner search also has the result 0 exactly where it has an object.
abbrev code : Option Object → ℤ
code none = einval
code (some o) = pos 0

abbrev Inner : (Object → ℕ) → Option Search → Type 0
Inner w none = Unit
Inner w (some s) = Even w s.log s.obj × (s.ret ≡ code s.obj)

module _ (w : Object → ℕ) where
  result-Inner : (o : Option Object) → Inner w (some (result [] o))
  result-Inner none = ((refl, refl), refl)
  result-Inner (some o) = ((omega arith, refl), refl)

  taken-Even : (o : Option Object) → Even w (taken o) o
  taken-Even none = (refl, refl)
  taken-Even (some o) = (omega arith, refl)

  -- The log of a search below: parsed first, what was handed out, and cleaned last.
  framed :
      (log middle : List Effect) (above : Object) (o : Option Object)
      → Even w log (some above)
      → Even w middle o
      → Even w ((parsed ∷ log) ++ middle ++ put above ∷ cleaned ∷ []) o
  framed log middle above o (g, p) (h, q) =
      let end = put above ∷ cleaned ∷ [] in
      (
        omega (
          arith,
          total-append (gain w) (log ++ middle) end,
          total-append (loss w) (log ++ middle) end,
          total-append (gain w) log middle,
          total-append (loss w) log middle,
        ),
        omega (
          arith,
          total-append is_parsed (log ++ middle) end,
          total-append is_cleaned (log ++ middle) end,
          total-append is_parsed log middle,
          total-append is_cleaned log middle,
        ),
      )

  around :
      (log : List Effect) (above : Object) (o : Option Object)
      → Even w log (some above)
      → Inner w (
          some (record (result (parsed ∷ log) o) {
            log = (parsed ∷ log) ++ taken o ++ put above ∷ cleaned ∷ [];
          }))
  around log above none v = (framed log (taken none) above none v (taken-Even none), refl)
  around log above (some o) v =
      (framed log (taken (some o)) above (some o) v (taken-Even (some o)), refl)

  missed :
      (log : List Effect)
      → Even w log none
      → Inner w (some (result ((parsed ∷ log) ++ cleaned ∷ []) none))
  missed log (g, p) =
      let end = cleaned ∷ [] in
      (
        (
          omega (arith, total-append (gain w) log end, total-append (loss w) log end),
          omega (arith, total-append is_parsed log end, total-append is_cleaned log end),
        ),
        refl,
      )

  below_found-Inner :
      (t : Tree) (d : Desc) (log : List Effect) (o : Option Object)
      → Even w log o
      → Inner w (some (below_found t d (parsed ∷ log) (code o) o))
  below_found-Inner t d log none v = missed log v
  below_found-Inner t d log (some above) v = around log above (t.location_find above d).obj v

  below-Inner : (t : Tree) (d : Desc) (s : Option Search) → Inner w s → Inner w (below? t d s)
  below-Inner t d none v = tt
  below-Inner t d (some s) (v, r) =
      subst (λ x. Inner w (some (below_found t d (parsed ∷ s.log) x s.obj))) (sym r)
        (below_found-Inner t d s.log s.obj v)

  find-Inner : (fuel : ℕ) (t : Tree) (d : Desc) → Inner w (find_vfi_location fuel t none d)
  unfolding find_vfi_location
  find-Inner zero t d = tt
  find-Inner (suc fuel) t d = elim (Option-cases (is_there d.location)) [
    | inl e ↦ rw (e, find_vfi_location) (result-Inner (t.kset_find_obj none d.name))
    | inr (s, e) ↦
        rw (e, find_vfi_location)
          (elim (Option-cases (t.vfi_parse_desc s)) [
            | inl f ↦ rw f (result-Inner none)
            | inr (above, f) ↦ rw f (below-Inner t d _ (find-Inner fuel t above))
          ])
  ]

  Inner-Even : (s : Option Search) → Inner w s → SearchEven w s
  Inner-Even none v = tt
  Inner-Even (some s) (v, r) = v

-- A search for a location, however deep, gives back every reference that it takes on its way and frees
-- every description that it parses; what it keeps is one reference to the location that it hands
-- out, if it does.
pub locate-Even :
    (w : Object → ℕ) (fuel : ℕ) (t : Tree) (loc : Option Object) (d : Desc)
    → SearchEven w (locate_vfi_location fuel t loc d)
unfolding locate_vfi_location find_vfi_location
locate-Even w zero t loc d = tt
locate-Even w (suc fuel) t none d =
    Inner-Even w _ (find-Inner w (suc fuel) t (place_by d d.location))
locate-Even w (suc fuel) t (some loc) d =
    taken-Even w (t.location_find loc (place_by d d.location)).obj
