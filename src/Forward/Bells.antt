-- ===== src/Forward/Bells.antt =====
-- What the two ends of a bind keep: the doorbell and the local object of `vfi_fabric_dsts_create` and
-- `vfi_fabric_srcs_create` (vfi_fabric_ops.c), on success and on failure; and results that mislead.
use vfi.Prelude.{
  ℕ, ◌≡◌, refl, ◌⊎◌, inl, inr, Bool, total, true, false, List, [], ◌∷◌, Option, none, some, bytes,
}
use vfi.Ops.Model.{ℤ, pos, is_zero, einval, Op, Kind, Object, Lookup, Desc, BindDesc, a_smb}
use vfi.Ops.Dispatch.{line}
use vfi.Forward.Model.{
  Board, replied, unparsed, read, Slot, Effect, sent, got, freed, parsed, cleaned, stub, deleted,
  put, doorbell_on, doorbell_off, noted, loaded, Run, run, read_desc, read_bind, hear, heard,
  exchange, answer,
}
use vfi.Forward.Requests.{at}
use vfi.Forward.Finds.{fabric_smb_find, or_ask}
use vfi.Forward.Creates.{if_named}
use vfi.Forward.Ends.{
  srcs_called, srcs_read, srcs_made, srcs_for, srcs_noted, srcs_command, is_negative, event_number,
  option, fabric_srcs_create,
}
use vfi.Forward.Buffers.{count, named}

abbrev pub is_on : Effect → Bool
is_on (doorbell_on n) = true
is_on _ = false

abbrev pub is_off : Effect → Bool
is_off (doorbell_off n) = true
is_off _ = false

abbrev pub is_loaded : Effect → Bool
is_loaded (loaded o) = true
is_loaded _ = false

abbrev pub is_deleted : Effect → Bool
is_deleted (deleted k o) = true
is_deleted _ = false

-- The same with a weight for each doorbell and each object.
abbrev pub ons : (ℤ → ℕ) → Effect → ℕ
ons w (doorbell_on n) = w n
ons w _ = 0

abbrev pub offs : (ℤ → ℕ) → Effect → ℕ
offs w (doorbell_off n) = w n
offs w _ = 0

abbrev pub notes : (ℤ → ℕ) → Effect → ℕ
notes w (noted Slot.dst_ready n) = w n
notes w _ = 0

abbrev pub deletes : (Object → ℕ) → Effect → ℕ
deletes v (deleted Kind.a_dsts o) = v o
deletes v _ = 0

abbrev pub makes : ℕ → Effect → ℕ
makes n (stub Kind.a_dsts o) = n
makes n _ = 0

-- The weight of an object, if it was made.
abbrev pub made_weight : (Object → ℕ) → Option Object → Bool → ℕ
made_weight v (some o) true = v o
made_weight v _ _ = 0

-- A success with the doorbell `id`: the bind keeps the doorbell, its chain is loaded, and the object is
-- handed out.
abbrev pub Succeeds : (ℤ → ℕ) → (Object → ℕ) → ℤ → Option Object → Run → Type 0
Succeeds w v id made r =
    (r.ret ≡ pos 0)
    × (r.obj ≡ made)
    × (count is_loaded r.log ≡ 1)
    × (total (ons w) r.log ≡ w id)
    × (total (notes w) r.log ≡ w id)
    × (total (offs w) r.log ≡ 0)
    × (total (deletes v) r.log ≡ 0)

-- A failure: each doorbell that was registered is given back, and the object that was made is deleted.
abbrev pub Fails : (ℤ → ℕ) → (Object → ℕ) → ℕ → Run → Type 0
Fails w v made r =
    (r.ret ≡ einval)
    × (count is_loaded r.log ≡ 0)
    × (total (offs w) r.log ≡ total (ons w) r.log)
    × (total (deletes v) r.log ≡ total (makes made) r.log)

abbrev pub RunEnds : (ℤ → ℕ) → (Object → ℕ) → ℤ → Lookup → Option Run → Type 0
RunEnds w v id made none = ⊥
RunEnds w v id made (some r) =
    Succeeds w v id made.obj r ⊎ Fails w v (made_weight v made.obj (is_zero made.ret)) r

-- The same after the doorbell is registered and the maker of the object is called.
abbrev Begun : (ℤ → ℕ) → (Object → ℕ) → ℤ → Option Object → ℕ → Option Run → Type 0
Begun w v id obj made none = ⊥
Begun w v id obj made (some r) =
    (total (ons w) r.log ≡ 0)
    × (total (makes made) r.log ≡ 0)
    × ((r.ret ≡ pos 0)
          × (r.obj ≡ obj)
          × (count is_loaded r.log ≡ 1)
          × (total (notes w) r.log ≡ w id)
          × (total (offs w) r.log ≡ 0)
          × (total (deletes v) r.log ≡ 0)
        ⊎ (r.ret ≡ einval)
          × (count is_loaded r.log ≡ 0)
          × (total (offs w) r.log ≡ w id)
          × (total (deletes v) r.log ≡ made))

-- A bind without the event of its src: if the other board replies the result 0 and names no event of
-- its own, and the bind has none for the end of a transfer, `vfi_fabric_srcs_create` deletes what it
-- has made, gives its doorbell back and puts the bind, but its result is 0, as if it had succeeded.
pub srcs_create_misleads :
    (b : Board) (parent bind srcs : Object) (d reply : BindDesc) (s r : List ℕ) (id : ℕ)
    → option d.src (bytes "event_name") ≡ some s
    → b.vfi_bind_of parent ≡ some bind
    → b.has_event bind Slot.src_ready ≡ false
    → b.vfi_doorbell_register bind Slot.src_ready ≡ pos id
    → (b.create_bind Kind.a_srcs parent d).obj ≡ some srcs
    → b.vfi_fabric_call (b.src_ploc parent) (srcs_command b d s (pos id)) ≡ replied r
    → read_bind b.text r ≡ read reply (some (pos 0))
    → event_number b.text (option reply.src (bytes "event_id")) ≡ none
    → is_negative (b.event_id bind Slot.src_done) ≡ true
    → (log : List Effect) × (fabric_srcs_create b parent d ≡ some (run (pos 0) (some srcs) log))
      × (count is_deleted log ≡ 1)
      × (count is_loaded log ≡ 0)
      × (count is_on log ≡ count is_off log)
unfolding fabric_srcs_create
srcs_create_misleads b parent bind srcs d reply s r id named bound fresh bell made call reads number
      wanted =
    (
      doorbell_on (pos id)
          ∷ noted Slot.src_ready (pos id)
          ∷ stub Kind.a_srcs parent
          ∷ sent (b.src_ploc parent) (srcs_command b d s (pos id))
          ∷ got
          ∷ parsed
          ∷ cleaned
          ∷ freed
          ∷ deleted Kind.a_srcs srcs
          ∷ doorbell_off (pos id)
          ∷ put bind
          ∷ [],
      rw (
        named, if_named, bound, srcs_for, fresh, bell, made, srcs_made, bell, call, srcs_called,
        reads, srcs_read, number, wanted, srcs_noted, bell,
      ),
      refl,
      refl,
      refl,
    )

-- A buffer that is not known here: if the other board's reply is not parsed, or the result in it is not
-- a number, `vfi_fabric_smb_find` gives 0, as if it had found the buffer, and no buffer.
pub smb_find_misleads :
    (b : Board) (parent : Object) (d : Desc) (r : List ℕ)
    → b.kset_find_obj parent a_smb d.name ≡ none
    → b.vfi_fabric_call parent (line Op.smb_find (at d)) ≡ replied r
    → (read_desc b.text r ≡ unparsed) ⊎ ((reply : Desc) × (read_desc b.text r ≡ read reply none))
    → (log : List Effect) × (fabric_smb_find b parent d ≡ some (run (pos 0) none log))
unfolding fabric_smb_find exchange answer
smb_find_misleads b parent d r missing call mute = elim mute [
  | inl e ↦
      (sent parent (line Op.smb_find (at d)) ∷ got ∷ [], rw (missing, or_ask, call, heard, e, hear))
  | inr (reply, e) ↦ (
    sent parent (line Op.smb_find (at d)) ∷ got ∷ parsed ∷ freed ∷ cleaned ∷ [],
    rw (missing, or_ask, call, heard, e, hear),
  )
]
