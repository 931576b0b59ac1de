-- ===== src/Ops/Places.antt =====
-- The commands on locations and on their events.
use vfi.Prelude.{ℕ, Bool, List, [], ◌∷◌, ◌++◌, Option, none, some, if◌then◌else◌}
use vfi.Ops.Model.{
  ℤ, pos, negsuc, is_zero, einval, Op, Vtable, has, Desc, Object, Lookup, Driver, Effect, found,
  put, invoked, deleted, Body, Outcome,
}
use vfi.Ops.Frame.{
  plain, gained, dropped, member, unchecked, call_on, tell_inside, by_params, by_result, with_desc,
  located,
}

-- A member is called for a location, or for none, and gives the result.
abbrev pub call_at : Driver → Vtable → Op → Option Object → List Effect → List Effect → Body
call_at d v op loc before after =
    let r = d.invoke v op loc in
    record {
      ret = r.ret;
      made = r.obj;
      event_id = negsuc 0;
      log = before ++ invoked v op loc ∷ after;
    }

-- The table of the command's parameters goes before that of the location above.
unfoldable pub location_create_below : Driver → Desc → Body
location_create_below d p =
    let l = d.locate_vfi_location p in
    let after = dropped l.obj in
    if is_zero l.ret
    then elim p.ops [
      | some v ↦
          if has v Op.location_create
          then call_at d v Op.location_create l.obj (gained l.obj) after
          else call_on d d.desc_ops Op.location_create l.obj
      | none ↦ call_on d d.desc_ops Op.location_create l.obj
    ]
    else plain l.ret (gained l.obj)

-- A call of a member without a test.
abbrev pub call_root : Driver → Vtable → Op → Option Body
call_root d v op = elim (unchecked v op) [ none ↦ none | some w ↦ some (call_at d w op none [] []) ]

unfoldable pub location_create_body : Driver → Desc → Option Body
location_create_body d p =
    if located p
    then some (location_create_below d p)
    else elim p.ops [ none ↦ some (plain einval []) | some v ↦ call_root d v Op.location_create ]

unfoldable pub location_create : Driver → List ℕ → Bool → Option Outcome
location_create d = with_desc d Op.location_create by_result (location_create_body d)

-- The same call for a member without a result.
abbrev pub tell_root : Vtable → Op → ℤ → Option Body
tell_root v op ret = elim (unchecked v op) [
  | none ↦ none
  | some w ↦ some (plain ret (invoked w op none ∷ []))
]

unfoldable pub location_delete_body : Driver → Desc → Option Body
location_delete_body d p =
    if located p
    then some (tell_inside d.desc_ops Op.location_delete (d.locate_vfi_location p))
    else elim p.ops [
      | some v ↦ tell_root v Op.location_delete (pos 0)
      | none ↦ elim (d.kset_find_obj p.name) [
        | none ↦ some (plain einval [])
        | some loc ↦ some (plain (pos 0) (found loc ∷ deleted loc ∷ put loc ∷ []))
      ]
    ]

unfoldable pub location_delete : Driver → List ℕ → Bool → Option Outcome
location_delete d = with_desc d Op.location_delete by_params (location_delete_body d)

-- The member is called without a test once the location has a table. At the root the command keeps
-- what the search hands it.
unfoldable pub location_find_below : Driver → Lookup → Option Body
location_find_below d l =
    if is_zero l.ret
    then elim l.obj [
      | none ↦ some (plain l.ret [])
      | some loc ↦ elim (d.desc_ops loc) [
        | none ↦ some (plain l.ret (found loc ∷ put loc ∷ []))
        | some v ↦ elim (unchecked v Op.location_find) [
          | none ↦ none
          | some w ↦ some (call_at d w Op.location_find (some loc) (found loc ∷ []) (put loc ∷ []))
        ]
      ]
    ]
    else some (plain l.ret (gained l.obj))

unfoldable pub location_find_body : Driver → Desc → Option Body
location_find_body d p =
    if located p then location_find_below d (d.locate_vfi_location p) else elim p.ops [
      | some v ↦ call_root d v Op.location_find
      | none ↦
          let l = d.find_vfi_name p in
          some (record { ret = l.ret; made = l.obj; event_id = negsuc 0; log = gained l.obj })
    ]

unfoldable pub location_find : Driver → List ℕ → Bool → Option Outcome
location_find d = with_desc d Op.location_find by_result (location_find_body d)

-- Below a location the result is that of the search, whether the member is there or not.
unfoldable pub location_put_below : Driver → Lookup → Body
location_put_below d l =
    if is_zero l.ret
    then elim (member d.desc_ops Op.location_put l.obj) [
      | none ↦ plain l.ret (gained l.obj ++ dropped l.obj)
      | some v ↦ plain l.ret (gained l.obj ++ invoked v Op.location_put l.obj ∷ dropped l.obj)
    ]
    else plain l.ret (gained l.obj)

unfoldable pub location_put_body : Driver → Desc → Option Body
location_put_body d p =
    if located p then some (location_put_below d (d.locate_vfi_location p)) else elim p.ops [
      | some v ↦ tell_root v Op.location_put einval
      | none ↦ elim (d.kset_find_obj p.name) [
        | none ↦ some (plain einval [])
        | some loc ↦ elim (d.desc_ops loc) [
          | none ↦ none
          | some v ↦ elim (unchecked v Op.location_put) [
            | none ↦ none
            | some w ↦ some (plain (pos 0) (found loc ∷ invoked w Op.location_put none ∷ []))
          ]
        ]
      ]
    ]

unfoldable pub location_put : Driver → List ℕ → Bool → Option Outcome
location_put d = with_desc d Op.location_put by_params (location_put_body d)

-- The three commands on events: without a member to call, the result of the parser or of the search
-- stays.
unfoldable pub event_below : Driver → Op → Lookup → Body
event_below d op l =
    if is_zero l.ret
    then elim (member d.desc_ops op l.obj) [
      | none ↦ plain l.ret (gained l.obj ++ dropped l.obj)
      | some v ↦ call_at d v op l.obj (gained l.obj) (dropped l.obj)
    ]
    else plain l.ret (gained l.obj)

unfoldable pub event_body : Driver → Op → Desc → Option Body
event_body d op p =
    if located p
    then some (event_below d op (d.locate_vfi_location p))
    else elim p.ops [ some v ↦ call_root d v op | none ↦ some (plain (pos 0) []) ]

unfoldable pub event_start : Driver → List ℕ → Bool → Option Outcome
event_start d = with_desc d Op.event_start by_params (event_body d Op.event_start)

unfoldable pub event_find : Driver → List ℕ → Bool → Option Outcome
event_find d = with_desc d Op.event_find by_params (event_body d Op.event_find)

unfoldable pub event_chain : Driver → List ℕ → Bool → Option Outcome
event_chain d = with_desc d Op.event_chain by_params (event_body d Op.event_chain)
