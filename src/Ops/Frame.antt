-- ===== src/Ops/Frame.antt =====
-- The shapes that the handlers share. A handler that would follow a NULL pointer has no outcome.
use vfi.Prelude.{ℕ, Bool, true, false, List, [], ◌∷◌, ◌++◌, Option, none, some, if◌then◌else◌}
use vfi.Ops.Model.{
  ℤ, pos, negsuc, is_zero, einval, Op, Vtable, has, Desc, BindDesc, Object, Lookup, Driver, Effect,
  found, put, invoked, cleaned, Body, Quoted, the_params, the_object, the_ticket, the_event, Params,
  Outcome,
}
use vfi.Mmap.Ticket.{to_ticket}

-- A body that comes to its reply without an object and an event.
abbrev pub plain : ℤ → List Effect → Body
plain ret log = record { ret = ret; made = none; event_id = negsuc 0; log = log }

-- The reference that a search hands out, and `put`, which takes NULL for nothing to do.
abbrev pub gained : Option Object → List Effect
gained none = []
gained (some o) = found o ∷ []

abbrev pub dropped : Option Object → List Effect
dropped none = []
dropped (some o) = put o ∷ []

-- `o && o->ops && o->ops->op`
abbrev pub member : (Object → Option Vtable) → Op → Option Object → Option Vtable
member ops op none = none
member ops op (some o) = elim (ops o) [ none ↦ none | some v ↦ if has v op then some v else none ]

-- `ops->op` without a test: none if the member is NULL.
abbrev pub unchecked : Vtable → Op → Option Vtable
unchecked v op = if has v op then some v else none

-- An object is found, a member of its table is called and gives the result, and the object is put.
abbrev pub call_on : Driver → (Object → Option Vtable) → Op → Option Object → Body
call_on d ops op obj = elim (member ops op obj) [
  | none ↦ plain einval (gained obj ++ dropped obj)
  | some v ↦
      let r = d.invoke v op obj in
      record {
        ret = r.ret;
        made = r.obj;
        event_id = negsuc 0;
        log = gained obj ++ invoked v op obj ∷ dropped obj;
      }
]

-- The put comes after the `if` on the search's result, or inside it.
unfoldable pub ask : Driver → (Object → Option Vtable) → Op → Lookup → Body
ask d ops op l =
    if is_zero l.ret then call_on d ops op l.obj else plain l.ret (gained l.obj ++ dropped l.obj)

unfoldable pub ask_inside : Driver → (Object → Option Vtable) → Op → Lookup → Body
ask_inside d ops op l = if is_zero l.ret then call_on d ops op l.obj else plain l.ret (gained l.obj)

-- The same for a member without a result: 0 once it is called.
abbrev pub tell_on : (Object → Option Vtable) → Op → Option Object → Body
tell_on ops op obj = elim (member ops op obj) [
  | none ↦ plain einval (gained obj ++ dropped obj)
  | some v ↦ plain (pos 0) (gained obj ++ invoked v op obj ∷ dropped obj)
]

unfoldable pub tell : (Object → Option Vtable) → Op → Lookup → Body
tell ops op l =
    if is_zero l.ret then tell_on ops op l.obj else plain l.ret (gained l.obj ++ dropped l.obj)

unfoldable pub tell_inside : (Object → Option Vtable) → Op → Lookup → Body
tell_inside ops op l = if is_zero l.ret then tell_on ops op l.obj else plain l.ret (gained l.obj)

-- What the reply of a handler quotes: the command's parameters; the object made if there is one; the
-- object made if the result is 0, else the parameters; a ticket; or the parameters and an event.
pub data Quoting : Type 0 where
  by_params by_made by_result by_ticket by_ticket_always by_event : Quoting

abbrev pub quote : Quoting → Body → Option Quoted
quote by_params b = some the_params
quote by_made b = elim b.made [ none ↦ some the_params | some o ↦ some (the_object o) ]
quote by_result b =
    if is_zero b.ret
    then (elim b.made [ none ↦ none | some o ↦ some (the_object o) ])
    else some the_params
quote by_ticket b = elim b.made [
  | none ↦ some the_params
  | some o ↦ some (the_ticket (to_ticket o.address))
]
quote by_ticket_always b = elim b.made [
  | none ↦ some (the_ticket (to_ticket 0))
  | some o ↦ some (the_ticket (to_ticket o.address))
]
quote by_event b = some (the_event b.event_id)

-- The reply, if the caller has a buffer for it.
abbrev pub replied : Op → Params → Body → Option Quoted → Option Outcome
replied op p b none = none
replied op p b (some q) = some (record {
  ret = b.ret;
  reply = some (record { op = op; quoted = q; ret = b.ret; params = p });
  log = b.log ++ cleaned ∷ [];
})

-- The end of a handler: the reply and the cleaning.
unfoldable pub finish : Op → Quoting → Bool → Params → Option Body → Option Outcome
finish op quoting wanted p none = none
finish op quoting true p (some b) = replied op p b (quote quoting b)
finish op quoting false p (some b) =
    some (record { ret = b.ret; reply = none; log = b.log ++ cleaned ∷ [] })

-- A handler that parses a description, and one that parses a bind: a parser's error is the result.
unfoldable pub with_desc :
    Driver → Op → Quoting → (Desc → Option Body) → List ℕ → Bool → Option Outcome
with_desc d op quoting body text wanted =
    let (ret, p) = d.vfi_parse_desc text in
    finish op quoting wanted (Params.of_desc p)
      (if is_zero ret then body p else some (plain ret []))

unfoldable pub with_bind :
    Driver → Op → Quoting → (BindDesc → Option Body) → List ℕ → Bool → Option Outcome
with_bind d op quoting body text wanted =
    let (ret, p) = d.vfi_parse_bind text in
    finish op quoting wanted (Params.of_bind p)
      (if is_zero ret then body p else some (plain ret []))

-- `params.location && *params.location`
abbrev pub located : Desc → Bool
located p = elim p.location [ none ↦ false | some [] ↦ false | some (c ∷ s) ↦ true ]
