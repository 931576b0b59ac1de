-- ===== src/Local/Events.antt =====
-- The lists of events of this board, as the commands event_start, event_find and event_chain use them
-- (vfi_local_ops.c).
use vfi.Prelude.{
  ℕ, zero, suc, ◌+◌, ◌-◌, ◌≡◌, Bool, true, false, List, [], ◌∷◌, ◌++◌, Option, none, some,
  if◌then◌else◌, bytes, str_eq,
}
use vfi.Ops.Model.{ℤ, pos, einval, Desc}
use vfi.Parse.Desc.{get_option}

-- The lists that there are, by their names, with the neighbours of each and the references to it, and
-- the lists that were started, in order.
pub record Lists : Type 0 where
  pub exists : List ℕ → Bool
  pub next : List ℕ → Option (List ℕ)
  pub prev : List ℕ → Option (List ℕ)
  pub refs : List ℕ → ℕ
  pub started : List (List ℕ)

abbrev pub update {ℓ} : {A : Type ℓ} → (List ℕ → A) → List ℕ → A → List ℕ → A
update f n v m = if str_eq n m then v else f m

-- `find_vfi_events` hands out a reference.
abbrev pub find : Lists → List ℕ → Option Lists
find l n = if l.exists n then some (record l { refs = update l.refs n (l.refs n + 1) }) else none

abbrev pub put : Lists → List ℕ → Lists
put l n = record l { refs = update l.refs n (l.refs n - 1) }

-- The loop of `event_start`: each list of the chain is started, and the reference of the search is put
-- after the first. `fuel` bounds the number of rounds; without a result it was not enough.
abbrev pub start : Lists → List ℕ → Lists
start l n = record l { started = l.started ++ n ∷ [] }

unfoldable pub start_chain : ℕ → Bool → Lists → Option (List ℕ) → Option Lists
start_chain fuel first l none = some l
start_chain zero first l (some n) = none
start_chain (suc fuel) first l (some n) =
    let begun = start l n in
    start_chain fuel false (if first then put begun n else begun) (l.next n)

abbrev pub ended : Option Lists → Option (ℤ × Lists)
ended none = none
ended (some l) = some (pos 0, l)

unfoldable pub local_event_start : ℕ → Lists → Desc → Option (ℤ × Lists)
unfolding start_chain
local_event_start fuel l d = elim (find l d.name) [
  | none ↦ some (einval, l)
  | some l' ↦ ended (start_chain fuel true l' (some d.name))
]

unfoldable pub local_event_find : Lists → Desc → ℤ × Lists
local_event_find l d = elim (find l d.name) [ none ↦ (einval, l) | some l' ↦ (pos 0, l') ]

-- Two lists become neighbours, and both references are put.
abbrev pub joined : Lists → List ℕ → List ℕ → Lists
joined l this after =
    put
      (put
        (record l {
          next = update l.next this (some after);
          prev = update l.prev after (some this);
        })
        this)
      after

abbrev pub chain_named : Lists → List ℕ → List ℕ → ℤ × Lists
chain_named l this after = elim (find l this) [
  | none ↦ (einval, l)
  | some l' ↦ elim (find l' after) [
    | none ↦ (einval, l')
    | some l'' ↦ (pos 0, joined l'' this after)
  ]
]

unfoldable pub local_event_chain : Lists → Desc → ℤ × Lists
local_event_chain l d = elim (get_option d.query (bytes "event_name")) [
  | none ↦ (einval, l)
  | some after ↦ chain_named l d.name after
]

-- The lists from the first of `ns` on are `ns`, and the last of them has no next one.
abbrev pub Linked : (List ℕ → Option (List ℕ)) → List (List ℕ) → Type 0
Linked next [] = Unit
Linked next (n ∷ []) = next n ≡ none
Linked next (n ∷ m ∷ ns) = (next n ≡ some m) × Linked next (m ∷ ns)
