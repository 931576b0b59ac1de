-- ===== src/Local/Chains.antt =====
-- Chains of events: what event_start does to them, and event_chain (vfi_local_ops.c).
use vfi.Prelude.{
  ℕ, zero, suc, ◌+◌, ◌-◌, ◌<◌, ◌≡◌, ◌≢◌, refl, ap, ◌∙◌, inl, inr, Bool, true, false, List, [], ◌∷◌,
  ◌++◌, append_assoc, Option, none, some, bytes, str_eq, str_eq-true, str_eq_refl, Bool-cases,
  length, arith,
}
use vfi.Ops.Model.{pos, Desc}
use vfi.Parse.Desc.{get_option}
use vfi.Local.Events.{
  Lists, update, put, start, start_chain, ended, joined, chain_named, local_event_start,
  local_event_chain, Linked,
}

str_eq_ne : (m n : List ℕ) → m ≢ n → str_eq m n ≡ false
str_eq_ne m n h = elim (Bool-cases (str_eq m n)) [
  | inl e ↦ absurd (h (str_eq-true m n e))
  | inr e ↦ e
]

update_self {ℓ} : {A : Type ℓ} (f : List ℕ → A) (n : List ℕ) (v : A) → update f n v n ≡ v
update_self f n v = rw (str_eq_refl n) refl

update_ne {ℓ} : {A : Type ℓ} (f : List ℕ → A) {n m : List ℕ} (v : A) → n ≢ m → update f n v m ≡ f m
update_ne f {n} {m} v h = rw (str_eq_ne n m h) refl

-- A name that is not one of some others.
abbrev pub Apart : List ℕ → List (List ℕ) → Type 0
Apart n [] = Unit
Apart n (m ∷ ns) = (n ≢ m) × Apart n ns

-- After the first round the loop only starts lists.
start_chain-Linked :
    (fuel : ℕ) (l : Lists) (n : List ℕ) (ns : List (List ℕ))
    → Linked l.next (n ∷ ns)
    → length ns < fuel
    → start_chain fuel false l (some n) ≡ some (record l { started = l.started ++ n ∷ ns })
unfolding start_chain
start_chain-Linked zero l n ns h enough = absurd (omega arith)
start_chain-Linked (suc fuel) l n [] h enough = ap (start_chain fuel false (start l n)) h
start_chain-Linked (suc fuel) l n (m ∷ ns) (h, more) enough =
    ap (start_chain fuel false (start l n)) h
    ∙ start_chain-Linked fuel (start l n) m ns more (omega arith)
    ∙ ap (λ s. some (record l { started = s })) (append_assoc l.started (n ∷ []) (m ∷ ns))

-- A search and the put of what it found.
refs_back :
    (l : Lists) (n m : List ℕ)
    → update (update l.refs n (l.refs n + 1)) n (update l.refs n (l.refs n + 1) n - 1) m ≡ l.refs m
refs_back l n m = elim (Bool-cases (str_eq n m)) [
  | inl e ↦
      let same : l.refs n ≡ l.refs m = ap l.refs (str_eq-true n m e) in
      rw (e, str_eq_refl n) (omega (arith, same))
  | inr e ↦ rw e refl
]

-- The first round also puts the reference of the search.
start_first :
    (fuel : ℕ) (l : Lists) (n : List ℕ) (ns : List (List ℕ))
    → Linked l.next (n ∷ ns)
    → length ns < fuel
    → start_chain fuel true l (some n) ≡ some (record (put l n) { started = l.started ++ n ∷ ns })
unfolding start_chain
start_first zero l n ns h enough = absurd (omega arith)
start_first (suc fuel) l n [] h enough = ap (start_chain fuel false (put (start l n) n)) h
start_first (suc fuel) l n (m ∷ ns) (h, more) enough =
    ap (start_chain fuel false (put (start l n) n)) h
    ∙ start_chain-Linked fuel (put (start l n) n) m ns more (omega arith)
    ∙ ap (λ s. some (record (put l n) { started = s })) (append_assoc l.started (n ∷ []) (m ∷ ns))

-- event_start on the first list of a chain starts the lists of the chain, each once and in order, and
-- returns 0, if the rounds of its loop are not fewer than the lists; the references are what they were.
pub event_start-Linked :
    (fuel : ℕ) (l : Lists) (d : Desc) (ns : List (List ℕ))
    → Linked l.next (d.name ∷ ns)
    → l.exists d.name ≡ true
    → length ns < fuel
    → (r : Lists) × (local_event_start fuel l d ≡ some (pos 0, r))
      × (r.started ≡ l.started ++ d.name ∷ ns)
      × ((m : List ℕ) → r.refs m ≡ l.refs m)
unfolding local_event_start
event_start-Linked fuel l d ns h there enough =
    let l' : Lists = record l { refs = update l.refs d.name (l.refs d.name + 1) } in
    (
      record (put l' d.name) { started = l.started ++ d.name ∷ ns },
      rw (there, local_event_start) (ap ended (start_first fuel l' d.name ns h enough)),
      refl,
      refs_back l d.name,
    )

-- Links of other lists stay when one link is set.
Linked-update :
    (next : List ℕ → Option (List ℕ)) (n : List ℕ) (v : Option (List ℕ)) (ns : List (List ℕ))
    → Apart n ns
    → Linked next ns
    → Linked (update next n v) ns
Linked-update next n v [] apart h = tt
Linked-update next n v (m ∷ []) (ne, apart) h = update_ne next v ne ∙ h
Linked-update next n v (m ∷ k ∷ ns) (ne, apart) (h, more) =
    (update_ne next v ne ∙ h, Linked-update next n v (k ∷ ns) apart more)

-- Both lists with the reference of the search, and then joined.
abbrev got : Lists → List ℕ → Lists
got l n = record l { refs = update l.refs n (l.refs n + 1) }

chain_done :
    (l : Lists) (d : Desc) (n : List ℕ)
    → get_option d.query (bytes "event_name") ≡ some n
    → l.exists d.name ≡ true
    → l.exists n ≡ true
    → local_event_chain l d ≡ (pos 0, joined (got (got l d.name) n) d.name n)
unfolding local_event_chain
chain_done l d n named this after =
    rw (named, local_event_chain) (rw (this, chain_named) (rw after refl))

-- event_chain puts the list of its name in front of the chain that begins with the list of its option:
-- event_start on it then starts that list and after it those of the chain, in order, if it is not one
-- of them.
pub event_chain-start :
    (fuel : ℕ) (l : Lists) (d : Desc) (n : List ℕ) (ns : List (List ℕ))
    → get_option d.query (bytes "event_name") ≡ some n
    → l.exists d.name ≡ true
    → l.exists n ≡ true
    → Apart d.name (n ∷ ns)
    → Linked l.next (n ∷ ns)
    → length (n ∷ ns) < fuel
    → ((local_event_chain l d).0 ≡ pos 0)
      × ((r : Lists) × (local_event_start fuel (local_event_chain l d).1 d ≡ some (pos 0, r))
          × (r.started ≡ l.started ++ d.name ∷ n ∷ ns))
event_chain-start fuel l d n ns named this after apart h enough =
    let done = chain_done l d n named this after in
    let l' : Lists = joined (got (got l d.name) n) d.name n in
    let links : Linked l'.next (d.name ∷ n ∷ ns) =
      (update_self l.next d.name (some n), Linked-update l.next d.name (some n) (n ∷ ns) apart h) in
    let (r, result, started, refs) = event_start-Linked fuel l' d (n ∷ ns) links this enough in
    (ap (λ p. p.0) done, (r, ap (λ p. local_event_start fuel p.1 d) done ∙ result, started))

-- A list that is its own next one keeps the loop going.
own_next :
    (fuel : ℕ) (first : Bool) (l : Lists) (n : List ℕ)
    → l.next n ≡ some n
    → start_chain fuel first l (some n) ≡ none
unfolding start_chain
own_next zero first l n h = refl
own_next (suc fuel) true l n h =
    ap (start_chain fuel false (put (start l n) n)) h ∙ own_next fuel false (put (start l n) n) n h
own_next (suc fuel) false l n h =
    ap (start_chain fuel false (start l n)) h ∙ own_next fuel false (start l n) n h

-- A list that is chained to itself is started again and again: no number of rounds is enough for
-- event_start.
pub event_chain_endless :
    (fuel : ℕ) (l : Lists) (d : Desc)
    → get_option d.query (bytes "event_name") ≡ some d.name
    → l.exists d.name ≡ true
    → ((local_event_chain l d).0 ≡ pos 0)
      × (local_event_start fuel (local_event_chain l d).1 d ≡ none)
unfolding local_event_start
event_chain_endless fuel l d named this =
    let done = chain_done l d d.name named this this in
    let l' : Lists = joined (got (got l d.name) d.name) d.name d.name in
    let loop : l'.next d.name ≡ some d.name = update_self l.next d.name (some d.name) in
    let endless : local_event_start fuel l' d ≡ none =
      rw (this, local_event_start) (ap ended (own_next fuel true (got l' d.name) d.name loop)) in
    (ap (λ p. p.0) done, ap (λ p. local_event_start fuel p.1 d) done ∙ endless)
