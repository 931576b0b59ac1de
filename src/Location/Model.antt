-- ===== src/Location/Model.antt =====
-- The searches of vfi_location.c, and what a new location takes from the one above it.
use vfi.Prelude.{
  ℕ, zero, suc, List, [], ◌∷◌, ◌++◌, Option, none, some, if◌then◌else◌, take, drop, strchr,
}
use vfi.Ops.Model.{ℤ, pos, is_zero, einval, Desc, Object, Lookup}

-- What the searches use: `vfi_parse_desc`, where none is an error; the member `location_find` of a
-- location's table; and the search by name in a location's kset, or at the root.
pub record Tree : Type 0 where
  pub vfi_parse_desc : List ℕ → Option Desc
  pub location_find : Object → Desc → Lookup
  pub kset_find_obj : Option Object → List ℕ → Option Object

-- A reference is handed out or given back, and the memory of a parsed description is taken or freed.
pub data Effect : Type 0 where
  found put : Object → Effect
  parsed cleaned : Effect

pub record Search : Type 0 where
  pub ret : ℤ
  pub obj : Option Object
  pub log : List Effect

-- An object that was looked for, after what was done for it.
abbrev pub result : List Effect → Option Object → Search
result log none = record { ret = einval; obj = none; log = log }
result log (some o) = record { ret = pos 0; obj = some o; log = log ++ found o ∷ [] }

abbrev pub taken : Option Object → List Effect
taken none = []
taken (some o) = found o ∷ []

abbrev pub handed : Lookup → Search
handed l = record { ret = l.ret; obj = l.obj; log = taken l.obj }

unfoldable pub find_vfi_name : Tree → Option Object → Desc → Search
find_vfi_name t loc d = result [] (t.kset_find_obj loc d.name)

-- The search in the location above, whose reference is put after it; then the parsed description is
-- cleaned. The result of the search counts only by its object.
abbrev pub below_found : Tree → Desc → List Effect → ℤ → Option Object → Search
below_found t d log ret none = result (log ++ cleaned ∷ []) none
below_found t d log ret (some above) =
    if is_zero ret
    then record (result log (t.location_find above d).obj) {
      log = log ++ taken (t.location_find above d).obj ++ put above ∷ cleaned ∷ [];
    }
    else result (log ++ cleaned ∷ []) none

abbrev pub below : Tree → Desc → Search → Search
below t d s = below_found t d (parsed ∷ s.log) s.ret s.obj

abbrev pub below? : Tree → Desc → Option Search → Option Search
below? t d none = none
below? t d (some s) = some (below t d s)

-- `find_vfi_location`, where `fuel` bounds the depth of the recursion; without a result it was not
-- enough. A location that is empty is as none.
abbrev pub is_there : Option (List ℕ) → Option (List ℕ)
is_there none = none
is_there (some []) = none
is_there (some (c ∷ s)) = some (c ∷ s)

unfoldable pub find_vfi_location : ℕ → Tree → Option Object → Desc → Option Search
find_vfi_location zero t loc d = none
find_vfi_location (suc fuel) t (some loc) d = some (handed (t.location_find loc d))
find_vfi_location (suc fuel) t none d = elim (is_there d.location) [
  | none ↦ some (result [] (t.kset_find_obj none d.name))
  | some s ↦ elim (t.vfi_parse_desc s) [
    | none ↦ some (result [] none)
    | some above ↦ below? t d (find_vfi_location fuel t none above)
  ]
]

-- `locate_vfi_location` looks for the location of a description: its name is what stands before the
-- first dot. The description is afterwards as it was.
abbrev pub cut_at : List ℕ → Option ℕ → List ℕ × Option (List ℕ)
cut_at s none = (s, none)
cut_at s (some i) = (take i s, some (drop (suc i) s))

abbrev pub renamed : Desc → List ℕ × Option (List ℕ) → Desc
renamed d (name, rest) = record d { name = name; location = rest }

abbrev pub place_by : Desc → Option (List ℕ) → Desc
place_by d none = d
place_by d (some s) = renamed d (cut_at s (strchr s 46))

unfoldable pub locate_vfi_location : ℕ → Tree → Option Object → Desc → Option Search
unfolding find_vfi_location
locate_vfi_location fuel t loc d = find_vfi_location fuel t loc (place_by d d.location)

-- The names of a path from a location up to the root, and the location that they lead to from there.
abbrev pub walk : (Option Object → List ℕ → Option Object) → List ℕ → List (List ℕ) → Option Object
walk child n [] = child none n
walk child n (m ∷ ms) = elim (walk child m ms) [ none ↦ none | some above ↦ child (some above) n ]
