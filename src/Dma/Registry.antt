-- ===== src/Dma/Registry.antt =====
-- The table `dma_engines` (vfi_dma.c): registration, removal and lookup of the engine drivers.
use mathlib.Core.Bool.{false≢true}
use vfi.Prelude.{
  ℕ, zero, suc, ◌≡◌, ◌≢◌, refl, sym, ap, ◌∙◌, ◌⊎◌, inl, inr, Bool, true, false, ◌&&◌, List, [], ◌∷◌,
  ◌++◌, Option, none, some, arith, if◌then◌else◌, str_eq, str_eq-true, str_eq_refl, replicate,
  Bool-cases,
}

-- `struct vfi_dma_engine`: its name, and whether `try_module_get` of its owner succeeds.
pub record Engine : Type 0 where
  pub name : List ℕ
  pub live : Bool

-- `dma_engines`: VFI_MAX_DMA_ENGINES slots, NULL where none.
abbrev pub Slots : Type 0
Slots = List (Option Engine)

abbrev pub max_engines : ℕ
max_engines = 5

pub data Code : Type 0 where
  ok exists no_mem : Code

-- The loop stops at the first empty slot; past the end of the table there is no room.
unfoldable pub register : Slots → Engine → Code × Slots
register [] e = (no_mem, [])
register (none ∷ slots) e = (ok, some e ∷ slots)
register (some d ∷ slots) e =
    let (code, slots') = register slots e in
    if str_eq e.name d.name then (exists, some d ∷ slots) else (code, some d ∷ slots')

unfoldable pub unregister : Slots → List ℕ → Slots
unregister [] name = []
unregister (none ∷ slots) name = none ∷ slots
unregister (some d ∷ slots) name =
    let slots' = unregister slots name in
    if str_eq name d.name then none ∷ slots else some d ∷ slots'

-- `vfi_dma_find` steps its pointer to the first engine by `rdp++`, to the memory behind that engine
-- and not to the next slot; what it reads there is not in the table.
pub data Found : Type 0 where
  engine : Engine → Found
  null : Found
  stray : Found

unfoldable pub find : Slots → List ℕ → Found
find [] name = null
find (none ∷ slots) name = null
find (some d ∷ slots) name = if str_eq name d.name && d.live then engine d else stray

-- The engines of a table, in the order of the slots.
abbrev pub engines : Slots → List Engine
engines [] = []
engines (none ∷ slots) = engines slots
engines (some d ∷ slots) = d ∷ engines slots

-- A table without holes: `n` empty slots after the engines.
abbrev pub table : List Engine → ℕ → Slots
table [] n = replicate n none
table (d ∷ ds) n = some d ∷ table ds n

-- `name` is the name of one of the engines.
abbrev pub Named : List ℕ → List Engine → Type 0
Named name [] = ⊥
Named name (d ∷ ds) = (name ≡ d.name) ⊎ Named name ds

-- Names are distinct.
abbrev pub Distinct : List Engine → Type 0
Distinct [] = Unit
Distinct (d ∷ ds) = (Named d.name ds → ⊥) × Distinct ds

-- `strcmp` decides equality.
name_cases : (s t : List ℕ) → ((s ≡ t) × (str_eq s t ≡ true)) ⊎ ((s ≢ t) × (str_eq s t ≡ false))
name_cases s t = elim (Bool-cases (str_eq s t)) [
  | inl e ↦ inl (str_eq-true s t e, e)
  | inr e ↦ inr (λ p. false≢true (sym e ∙ rw p (str_eq_refl t)), e)
]

register_known :
    (ds : List Engine) (n : ℕ) (e : Engine)
    → Named e.name ds
    → register (table ds n) e ≡ (exists, table ds n)
unfolding register
register_known [] n e h = absurd h
register_known (d ∷ ds) n e h = ground (arith, name_cases e.name d.name, register_known ds n e)

register_new :
    (ds : List Engine) (n : ℕ) (e : Engine)
    → (Named e.name ds → ⊥)
    → register (table ds (suc n)) e ≡ (ok, table (ds ++ e ∷ []) n)
unfolding register
register_new [] n e h = refl
register_new (d ∷ ds) n e h =
    ground (arith, name_cases e.name d.name, register_new ds n e (λ k. h (inr k)), h)

register_full :
    (ds : List Engine) (e : Engine)
    → (Named e.name ds → ⊥)
    → register (table ds 0) e ≡ (no_mem, table ds 0)
unfolding register
register_full [] e h = refl
register_full (d ∷ ds) e h =
    ground (arith, name_cases e.name d.name, register_full ds e (λ k. h (inr k)), h)

-- On a table without holes: a known name is refused and changes nothing; an unknown one takes the
-- first empty slot, or is refused where there is none.
pub register_lem :
    (ds : List Engine) (n : ℕ) (e : Engine)
    → (Named e.name ds → register (table ds n) e ≡ (exists, table ds n))
      × ((Named e.name ds → ⊥)
          → (register (table ds (suc n)) e ≡ (ok, table (ds ++ e ∷ []) n))
            × (register (table ds 0) e ≡ (no_mem, table ds 0)))
register_lem ds n e = (register_known ds n e, λ h. (register_new ds n e h, register_full ds e h))

Named-append :
    (name : List ℕ) (ds : List Engine) (e : Engine)
    → Named name (ds ++ e ∷ [])
    → Named name ds ⊎ (name ≡ e.name)
Named-append name [] e (inl p) = inr p
Named-append name [] e (inr h) = absurd h
Named-append name (d ∷ ds) e (inl p) = inl (inl p)
Named-append name (d ∷ ds) e (inr h) = elim (Named-append name ds e h) [
  | inl k ↦ inl (inr k)
  | inr p ↦ inr p
]

Distinct-append :
    (ds : List Engine) (e : Engine) → Distinct ds → (Named e.name ds → ⊥) → Distinct (ds ++ e ∷ [])
Distinct-append [] e v h = ((λ k. k), tt)
Distinct-append (d ∷ ds) e v h = (
  λ k. elim (Named-append d.name ds e k) [ inl m ↦ v.0 m | inr p ↦ h (inl (sym p)) ],
  Distinct-append ds e v.1 (λ k. h (inr k)),
)

Named-cases : (name : List ℕ) (ds : List Engine) → Named name ds ⊎ (Named name ds → ⊥)
Named-cases name [] = inr (λ k. k)
Named-cases name (d ∷ ds) = elim (name_cases name d.name) [
  | inl (p, _) ↦ inl (inl p)
  | inr (p, _) ↦ elim (Named-cases name ds) [
    | inl k ↦ inl (inr k)
    | inr k ↦ inr (λ m. elim m [ inl q ↦ p q | inr q ↦ k q ])
  ]
]

engines-table : (ds : List Engine) (n : ℕ) → engines (table ds n) ≡ ds
engines-table [] zero = refl
engines-table [] (suc n) = engines-table [] n
engines-table (d ∷ ds) n = ap (◌∷◌ d) (engines-table ds n)

-- Registering an engine in a table without holes keeps the names distinct.
pub register-Distinct :
    (ds : List Engine) (n : ℕ) (e : Engine)
    → Distinct ds
    → Distinct (engines (register (table ds n) e).1)
register-Distinct ds n e v = elim (Named-cases e.name ds) [
  | inl k ↦ rw (register_known ds n e k, engines-table ds n) v
  | inr k ↦ by_room n k
]
  where
    by_room : (m : ℕ) → (Named e.name ds → ⊥) → Distinct (engines (register (table ds m) e).1)
    by_room zero k = rw (register_full ds e k, engines-table ds 0) v
    by_room (suc m) k =
        rw (register_new ds m e k, engines-table (ds ++ e ∷ []) m) (Distinct-append ds e v k)

-- Removing the first engine of a table leaves a hole before the others: no name is found any more,
-- and every engine is registered, also one whose name another slot holds.
pub unregister_first_hides :
    (d : Engine) (ds : List Engine) (n : ℕ) (name : List ℕ) (e : Engine)
    → let slots = unregister (table (d ∷ ds) n) d.name in
      (engines slots ≡ ds)
      × (find slots name ≡ null)
      × (register slots e ≡ (ok, some e ∷ table ds n))
unfolding unregister find register
unregister_first_hides d ds n name e = ground (arith, str_eq_refl d.name, engines-table ds n)

-- A lookup finds the first engine only: it answers by the engine of slot 0 if that has the name and
-- its module is live, and otherwise, whatever the other slots hold, it reads outside the table.
pub find_lem :
    (d : Engine) (ds : List Engine) (n : ℕ) (name : List ℕ)
    → ((name ≡ d.name) → d.live ≡ true → find (table (d ∷ ds) n) name ≡ engine d)
      × ((name ≢ d.name) ⊎ (d.live ≡ false) → find (table (d ∷ ds) n) name ≡ stray)
unfolding find
find_lem d ds n name =
    (λ e h. ground (arith, name_cases name d.name), λ h. ground (arith, name_cases name d.name))
