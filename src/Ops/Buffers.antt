-- ===== src/Ops/Buffers.antt =====
-- The commands on shared memory buffers and on their mappings.
use vfi.Prelude.{
  ℕ, ◌%◌, ◌==◌, Bool, List, [], ◌∷◌, ◌++◌, Option, none, some, if◌then◌else◌, not, ◌&&◌,
}
use vfi.Ops.Model.{
  pos, is_zero, einval, enodev, Op, has, Desc, Lookup, Driver, Effect, invoked, Body, Outcome,
}
use vfi.Ops.Frame.{
  plain, gained, dropped, member, ask, ask_inside, tell_inside, by_params, by_made, by_ticket,
  by_ticket_always, with_desc,
}

unfoldable pub smb_create : Driver → List ℕ → Bool → Option Outcome
smb_create d =
    with_desc d Op.smb_create by_made
      (λ p. some (ask d d.desc_ops Op.smb_create (d.locate_vfi_location p)))

unfoldable pub smb_delete : Driver → List ℕ → Bool → Option Outcome
smb_delete d =
    with_desc d Op.smb_delete by_params
      (λ p. some (tell_inside d.desc_ops Op.smb_delete (d.find_vfi_smb p)))

unfoldable pub smb_find_body : Driver → Desc → Option Body
smb_find_body d p = elim p.location [
  | none ↦ some (plain enodev [])
  | some at ↦ some (ask d d.desc_ops Op.smb_find (d.locate_vfi_location p))
]

unfoldable pub smb_find : Driver → List ℕ → Bool → Option Outcome
smb_find d = with_desc d Op.smb_find by_made (smb_find_body d)

-- The member is not called: the buffer is put twice if there is one, and not at all otherwise.
unfoldable pub smb_put_body : Driver → Lookup → Body
smb_put_body d l =
    if is_zero l.ret
    then elim (member d.desc_ops Op.smb_put l.obj) [
      | none ↦ plain einval (gained l.obj)
      | some v ↦ plain (pos 0) (gained l.obj ++ dropped l.obj ++ dropped l.obj)
    ]
    else plain l.ret (gained l.obj)

unfoldable pub smb_put : Driver → List ℕ → Bool → Option Outcome
smb_put d = with_desc d Op.smb_put by_params (λ p. some (smb_put_body d (d.find_vfi_smb p)))

unfoldable pub smb_lose : Driver → List ℕ → Bool → Option Outcome
smb_lose d =
    with_desc d Op.smb_lose by_params
      (λ p. some (tell_inside d.desc_ops Op.smb_lose (d.find_vfi_smb p)))

-- `params.offset % PAGE_SIZE`
abbrev pub unaligned : Desc → Bool
unaligned p = not (p.offset % 4096 == 0)

unfoldable pub mmap_create : Driver → List ℕ → Bool → Option Outcome
mmap_create d = with_desc d Op.mmap_create by_ticket (λ p.
    if unaligned p
    then some (plain einval [])
    else some (ask d d.desc_ops Op.mmap_create (d.find_vfi_smb p)))

unfoldable pub mmap_find : Driver → List ℕ → Bool → Option Outcome
mmap_find d =
    with_desc d Op.mmap_find by_ticket_always
      (λ p. some (ask_inside d d.desc_ops Op.mmap_find (d.find_vfi_smb p)))

-- Two members of the mapping's table are called without a test once the buffer's table has found
-- the mapping; what `mmap_find` has found is not looked at.
unfoldable pub close_mmap : Driver → Op → Lookup → List Effect → List Effect → Option Body
close_mmap d op m before after =
    if is_zero m.ret
    then elim m.obj [
      | none ↦ none
      | some mmap ↦ elim (d.desc_ops mmap) [
        | none ↦ none
        | some v ↦
            if has v op && has v Op.mmap_put
            then some (
                plain m.ret
                  (before ++ invoked v op (some mmap) ∷ invoked v Op.mmap_put (some mmap) ∷ after))
            else none
      ]
    ]
    else some (plain m.ret (before ++ after))

unfoldable pub mmap_close_body : Driver → Op → Lookup → Option Body
mmap_close_body d op l =
    if is_zero l.ret
    then elim (member d.desc_ops Op.mmap_find l.obj) [
      | none ↦ some (plain einval (gained l.obj ++ dropped l.obj))
      | some v ↦
          close_mmap d op (d.invoke v Op.mmap_find l.obj)
            (gained l.obj ++ invoked v Op.mmap_find l.obj ∷ []) (dropped l.obj)
    ]
    else some (plain l.ret (gained l.obj))

unfoldable pub mmap_delete : Driver → List ℕ → Bool → Option Outcome
mmap_delete d = with_desc d Op.mmap_delete by_params (λ p.
    if unaligned p
    then some (plain einval [])
    else mmap_close_body d Op.mmap_delete (d.find_vfi_smb p))

unfoldable pub mmap_put : Driver → List ℕ → Bool → Option Outcome
mmap_put d = with_desc d Op.mmap_put by_params (λ p.
    if unaligned p
    then some (plain einval [])
    else mmap_close_body d Op.mmap_put (d.find_vfi_smb p))
