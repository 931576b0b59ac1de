-- ===== src/Location/Walk.antt =====
-- Which location a search finds in a tree of local ones (vfi_location.c).
use vfi.Prelude.{
  ℕ, zero, suc, ◌<◌, ◌≡◌, refl, sym, ap, ap₂, subst, ◌∙◌, arith, Bool, true, List, [], ◌∷◌, ◌++◌,
  Option, none, some, strchr, length,
}
use vfi.Ops.Model.{pos, einval, Desc, Object}
use vfi.Parse.Desc.{parse_part, str_dup_fits, empty}
use vfi.Parse.Split.{lacks, strchr-plain, take-at, drop-at}
use vfi.Parse.Dotted.{dotted, rest_of, is_proper, are_proper, parse-dotted, str_dup_fits-behind}
use vfi.Location.Model.{
  Tree, Effect, parsed, Search, result, below_found, below?, is_there, find_vfi_location,
  locate_vfi_location, cut_at, renamed, place_by, walk,
}

-- A search that has found `o`, whatever it did for it.
abbrev pub Finds : Option Object → Option Search → Type 0
Finds o none = ⊥
Finds o (some s) = (s.obj ≡ o) × (s.ret ≡ (elim o [ none ↦ einval | some a ↦ pos 0 ]))

result-Finds : (log : List Effect) (o : Option Object) → Finds o (some (result log o))
result-Finds log none = (refl, refl)
result-Finds log (some o) = (refl, refl)

relogged-Finds :
    (log log' : List Effect) (o : Option Object)
    → Finds o (some (record (result log o) { log = log' }))
relogged-Finds log log' none = (refl, refl)
relogged-Finds log log' (some o) = (refl, refl)

-- A path is not empty.
is_there-dotted :
    (m : List ℕ) (ms : List (List ℕ))
    → is_proper m ≡ true
    → is_there (some (dotted m ms)) ≡ some (dotted m ms)
is_there-dotted [] ms h = cc
is_there-dotted (x ∷ m) [] h = refl
is_there-dotted (x ∷ m) (k ∷ ms) h = refl

-- A tree whose locations are all on this board, and whose descriptions are parsed by the parser.
pub record IsLocal (t : Tree) (strtoul : List ℕ → ℕ × List ℕ) (debug : Bool) : Type 0 where
  pub member :
      (loc : Object) (d : Desc) → (t.location_find loc d).obj ≡ t.kset_find_obj (some loc) d.name
  pub parser : (s : List ℕ) → t.vfi_parse_desc s ≡ parse_part strtoul debug (some s)

module _ (t : Tree) (strtoul : List ℕ → ℕ × List ℕ) (debug : Bool)
    (local : IsLocal t strtoul debug) where
  below-Finds :
      (n : List ℕ) (d : Desc) (o : Option Object) (s : Option Search)
      → d.name ≡ n
      → Finds o s
      → Finds (elim o [ none ↦ none | some above ↦ t.kset_find_obj (some above) n ]) (below? t d s)
  below-Finds n d o none e f = absurd f
  below-Finds n d none (some s) e (f, r) =
      subst (λ o. Finds none (some (below_found t d (parsed ∷ s.log) s.ret o))) (sym f) (refl, refl)
  below-Finds n d (some above) (some s) e (f, r) =
      let log = parsed ∷ s.log in
      let target = t.kset_find_obj (some above) n in
      let same : (t.location_find above d).obj ≡ target =
        local.member above d ∙ ap (t.kset_find_obj (some above)) e in
      let here : Finds target (some (below_found t d log (pos 0) (some above))) =
        subst (λ o. Finds o (some (below_found t d log (pos 0) (some above)))) same
          (relogged-Finds log [] _) in
      subst (λ x. Finds target (some (below_found t d log x s.obj))) (sym r)
        (subst (λ o. Finds target (some (below_found t d log (pos 0) o))) (sym f) here)

  find-walk :
      (fuel : ℕ) (d : Desc) (n : List ℕ) (ns : List (List ℕ))
      → d.name ≡ n
      → d.location ≡ rest_of ns
      → are_proper (n ∷ ns) ≡ true
      → str_dup_fits (dotted n ns) ≡ true
      → length ns < fuel
      → Finds (walk t.kset_find_obj n ns) (find_vfi_location fuel t none d)
  unfolding find_vfi_location
  find-walk zero d n ns e l p fits enough = absurd (omega arith)
  find-walk (suc fuel) d n [] e l p fits enough =
      rw (l, find_vfi_location)
        (subst (λ x. Finds (t.kset_find_obj none n) (some (result [] (t.kset_find_obj none x))))
          (sym e) (result-Finds [] (t.kset_find_obj none n)))
  find-walk (suc fuel) d n (m ∷ ms) e l p fits enough =
      let above : Desc = record empty { name = m; location = rest_of ms } in
      let behind = str_dup_fits-behind n (dotted m ms) fits in
      let there = is_there-dotted m ms (ground (arith, p)) in
      let parse =
        local.parser (dotted m ms) ∙ parse-dotted strtoul debug m ms (ground (arith, p)) behind in
      rw (l, find_vfi_location)
        (rw there (
          rw parse (
            below-Finds n d (walk t.kset_find_obj m ms) (find_vfi_location fuel t none above) e
              (find-walk fuel above m ms refl refl (ground (arith, p)) behind (omega arith)))))

strchr-none : (s : List ℕ) (c : ℕ) → lacks c s ≡ true → strchr s c ≡ none
strchr-none [] c h = refl
strchr-none (x ∷ s) c h = ground (arith, h, strchr-none s c)

proper-lacks : (n : List ℕ) → is_proper n ≡ true → lacks 46 n ≡ true
proper-lacks [] h = refl
proper-lacks (x ∷ s) h = ground (arith, h)

-- The first name of a path is what stands before its first dot.
cut_at-dotted :
    (n : List ℕ) (ns : List (List ℕ))
    → is_proper n ≡ true
    → cut_at (dotted n ns) (strchr (dotted n ns) 46) ≡ (n, rest_of ns)
cut_at-dotted n [] h = ap (cut_at n) (strchr-none n 46 (proper-lacks n h))
cut_at-dotted n (m ∷ ms) h =
    ap (cut_at (n ++ 46 ∷ dotted m ms)) (strchr-plain n (dotted m ms) 46 (proper-lacks n h))
    ∙ ap₂ (λ x y. (x, some y)) (take-at n (dotted m ms) 46) (drop-at n (dotted m ms) 46)

-- On a board where all locations are local, the location of a description is found by its path: from
-- the root to the location of the last name, from there to that of the name before, and so on to that
-- of the first name; it is missing exactly where one of them is, and then the result is -EINVAL. The
-- names of the path are not empty and have no character at which a description is cut, the whole fits
-- a page, and as many rounds are enough as there are names.
pub locate-walk :
    (t : Tree) (strtoul : List ℕ → ℕ × List ℕ) (debug : Bool) (fuel : ℕ) (d : Desc) (n : List ℕ)
    (ns : List (List ℕ))
    → IsLocal t strtoul debug
    → d.location ≡ some (dotted n ns)
    → are_proper (n ∷ ns) ≡ true
    → str_dup_fits (dotted n ns) ≡ true
    → length ns < fuel
    → Finds (walk t.kset_find_obj n ns) (locate_vfi_location fuel t none d)
unfolding locate_vfi_location
locate-walk t strtoul debug fuel d n ns local l p fits enough =
    let cut = cut_at-dotted n ns (ground (arith, p)) in
    let place : place_by d d.location ≡ record d { name = n; location = rest_of ns } =
      ap (place_by d) l ∙ ap (renamed d) cut in
    subst (λ x. Finds (walk t.kset_find_obj n ns) (find_vfi_location fuel t none x)) (sym place)
      (find-walk t strtoul debug local fuel (record d { name = n; location = rest_of ns }) n ns refl
        refl p fits enough)
