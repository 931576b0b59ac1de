-- ===== src/Ops/Binds.antt =====
-- The commands on binds, and on the destinations and sources of a bind.
use vfi.Prelude.{ℕ, Bool, List, [], Option, none, some, if◌then◌else◌}
use vfi.Ops.Model.{pos, is_zero, einval, Op, BindDesc, Lookup, Driver, Body, Params, Outcome}
use vfi.Ops.Frame.{
  plain, gained, member, call_on, ask, ask_inside, tell, tell_inside, by_params, by_made, by_event,
  finish, with_desc, with_bind,
}
use vfi.Bind.Extents.{Extents, valid_extents}

-- The extents of the three parts, as `valid_extents` leaves them.
abbrev pub extents : BindDesc → Extents
extents p = record { xfer = p.xfer.extent; dst = p.dst.extent; src = p.src.extent }

abbrev pub filled : BindDesc → Extents → BindDesc
filled p x = record {
  xfer = record p.xfer { extent = x.xfer };
  dst = record p.dst { extent = x.dst };
  src = record p.src { extent = x.src };
}

-- The parameters as `valid_extents` leaves them, and the part of the handler behind it.
abbrev pub checked : BindDesc → BindDesc
checked p = filled p (valid_extents (extents p)).1

unfoldable pub bind_create_body : Driver → BindDesc → Option Body
bind_create_body d p =
    if (valid_extents (extents p)).0
    then some (ask d d.desc_ops Op.bind_create (d.find_vfi_xfer (checked p).xfer))
    else some (plain einval [])

-- The reply quotes the parameters with their extents filled in, also if they are refused.
unfoldable pub bind_create : Driver → List ℕ → Bool → Option Outcome
bind_create d text wanted =
    let (ret, p) = d.vfi_parse_bind text in
    if is_zero ret
    then finish Op.bind_create by_made wanted (Params.of_bind (checked p)) (bind_create_body d p)
    else finish Op.bind_create by_made wanted (Params.of_bind p) (some (plain ret []))

unfoldable pub bind_delete : Driver → List ℕ → Bool → Option Outcome
bind_delete d =
    with_desc d Op.bind_delete by_params
      (λ p. some (tell_inside d.desc_ops Op.bind_delete (d.find_vfi_xfer p)))

unfoldable pub bind_find : Driver → List ℕ → Bool → Option Outcome
bind_find d =
    with_desc d Op.bind_find by_made (λ p. some (ask d d.desc_ops Op.bind_find (d.find_vfi_xfer p)))

unfoldable pub bind_lose : Driver → List ℕ → Bool → Option Outcome
bind_lose d =
    with_desc d Op.bind_lose by_params
      (λ p. some (tell_inside d.desc_ops Op.bind_lose (d.find_vfi_xfer p)))

unfoldable pub dst_create : Driver → List ℕ → Bool → Option Outcome
dst_create d =
    with_bind d Op.dst_create by_made
      (λ p. some (ask d d.desc_ops Op.dst_create (d.find_vfi_bind p.xfer)))

unfoldable pub dst_delete : Driver → List ℕ → Bool → Option Outcome
dst_delete d =
    with_bind d Op.dst_delete by_params
      (λ p. some (tell d.desc_ops Op.dst_delete (d.find_vfi_bind p.xfer)))

unfoldable pub dst_find : Driver → List ℕ → Bool → Option Outcome
dst_find d =
    with_bind d Op.dst_find by_made
      (λ p. some (ask d d.dst_ops Op.dst_find (d.find_vfi_bind p.xfer)))

-- A search that gives neither an error nor a dst ends the command with 0.
unfoldable pub src_create_body : Driver → Lookup → Body
src_create_body d l =
    if is_zero l.ret
    then elim l.obj [
      | none ↦ plain l.ret []
      | some dst ↦ call_on d d.desc_ops Op.src_create (some dst)
    ]
    else plain l.ret (gained l.obj)

unfoldable pub src_create : Driver → List ℕ → Bool → Option Outcome
src_create d = with_bind d Op.src_create by_made (λ p. some (src_create_body d (d.find_vfi_dst p)))

unfoldable pub src_delete : Driver → List ℕ → Bool → Option Outcome
src_delete d =
    with_bind d Op.src_delete by_params
      (λ p. some (tell_inside d.desc_ops Op.src_delete (d.find_vfi_dst p)))

-- The result of the member is replaced by 0.
unfoldable pub src_find_body : Driver → Lookup → Body
unfolding ask
src_find_body d l =
    let b = ask d d.dst_ops Op.src_find l in
    if is_zero l.ret
    then elim (member d.dst_ops Op.src_find l.obj) [ none ↦ b | some v ↦ record b { ret = pos 0 } ]
    else b

unfoldable pub src_find : Driver → List ℕ → Bool → Option Outcome
src_find d = with_bind d Op.src_find by_made (λ p. some (src_find_body d (d.find_vfi_dst p)))

-- The event of the bind above is read without a test, once the search has given no error.
unfoldable pub srcs_create_body : Driver → Lookup → Option Body
unfolding ask
srcs_create_body d l =
    let b = ask d d.src_ops Op.srcs_create l in
    if is_zero l.ret
    then elim l.obj [
      | none ↦ none
      | some dst ↦ elim (d.src_done_event (d.vfi_dst_parent dst)) [
        | none ↦ none
        | some id ↦ some (record b { event_id = pos id })
      ]
    ]
    else some b

unfoldable pub srcs_create : Driver → List ℕ → Bool → Option Outcome
srcs_create d = with_bind d Op.srcs_create by_event (λ p. srcs_create_body d (d.find_vfi_dst p))

unfoldable pub srcs_delete : Driver → List ℕ → Bool → Option Outcome
srcs_delete d =
    with_bind d Op.srcs_delete by_params
      (λ p. some (tell_inside d.src_ops Op.srcs_delete (d.find_vfi_dst p)))

unfoldable pub srcs_find : Driver → List ℕ → Bool → Option Outcome
srcs_find d =
    with_bind d Op.srcs_find by_params
      (λ p. some (ask_inside d d.dst_ops Op.srcs_find (d.find_vfi_dst p)))

unfoldable pub dsts_create_body : Driver → Lookup → Body
unfolding ask
dsts_create_body d l =
    let b = ask d d.dst_ops Op.dsts_create l in
    if is_zero l.ret
    then elim l.obj [
      | none ↦ b
      | some bind ↦ elim (d.dst_done_event bind) [
        | none ↦ b
        | some id ↦ record b { event_id = pos id }
      ]
    ]
    else b

unfoldable pub dsts_create : Driver → List ℕ → Bool → Option Outcome
dsts_create d =
    with_bind d Op.dsts_create by_event (λ p. some (dsts_create_body d (d.find_vfi_bind p.xfer)))

unfoldable pub dsts_delete : Driver → List ℕ → Bool → Option Outcome
dsts_delete d =
    with_bind d Op.dsts_delete by_params
      (λ p. some (tell_inside d.dst_ops Op.dsts_delete (d.find_vfi_bind p.xfer)))

unfoldable pub dsts_find : Driver → List ℕ → Bool → Option Outcome
dsts_find d =
    with_bind d Op.dsts_find by_params
      (λ p. some (ask d d.dst_ops Op.dsts_find (d.find_vfi_bind p.xfer)))
