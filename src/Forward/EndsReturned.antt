-- ===== src/Forward/EndsReturned.antt =====
-- The two ends of a bind, with respect to the buffers and descriptions of their replies.
use vfi.Prelude.{
  ℕ, ◌≡◌, refl, arith, Bool, true, false, List, [], ◌∷◌, ◌++◌, Option, none, some, bytes,
}
use vfi.Ops.Model.{ℤ, pos, negsuc, is_zero, einval, Op, Kind, Object, BindDesc}
use vfi.Forward.Model.{
  Board, Called, replied, failed, Verdict, unparsed, nameless, read, sent, stub, doorbell_on, noted,
  Slot, Run, put, read_bind,
}
use vfi.Forward.Creates.{if_named}
use vfi.Forward.Ends.{
  dsts_command, srcs_command, dsts_called, dsts_read, dsts_made, dsts_named, dsts_noted,
  srcs_called, srcs_read, srcs_made, srcs_begun, srcs_for, srcs_noted, srcs_wanted, is_negative,
  bell_off, event_number, option, fabric_dsts_create, fabric_srcs_create,
}
use vfi.Forward.Buffers.{
  named, Named, IsNaming, Neutral, Returned, RunReturned, before-Returned, Neutral-Returned,
  choice-Returned,
}

module _ (b : Board) (parent dsts : Object) (id : ℤ) where
  dsts_noted-Returned : (n : Option ℤ) → Returned true (dsts_noted b parent dsts id n).log
  dsts_noted-Returned none = (refl, refl)
  dsts_noted-Returned (some n) = (refl, refl)

  dsts_read-Returned :
      (v : Verdict BindDesc) → named v ≡ true → RunReturned true (dsts_read b parent dsts id v)
  dsts_read-Returned unparsed h = (refl, refl)
  dsts_read-Returned nameless h = cc
  dsts_read-Returned (read reply n) h =
      ground
        (arith, dsts_noted-Returned (event_number b.text (option reply.dst (bytes "event_id"))))

  dsts_called-Returned :
      (c : Called) → Named (read_bind b.text) c → RunReturned true (dsts_called b parent dsts id c)
  dsts_called-Returned (failed e) h = (refl, refl)
  dsts_called-Returned (replied r) h = dsts_read-Returned (read_bind b.text r) (h r refl)

dsts_made-Returned :
    (b : Board) (h : IsNaming b) (parent : Object) (id : ℤ) (x y : List ℕ) (d : BindDesc)
    (dsts : Option Object) (ok : Bool)
    → RunReturned true (dsts_made b parent id x y d dsts ok)
dsts_made-Returned b h parent id x y d none ok = (refl, refl)
dsts_made-Returned b h parent id x y d (some dsts) false = (refl, refl)
dsts_made-Returned b h parent id x y d (some dsts) true =
    before-Returned true (sent (b.dst_ploc parent) (dsts_command b parent id x y d) ∷ [])
      (dsts_called b parent dsts id _) (refl, refl, refl, refl)
      (dsts_called-Returned b parent dsts id _ (h.bind _ Op.dsts_create _ refl))

dsts_named-Returned :
    (b : Board) (h : IsNaming b) (parent : Object) (d : BindDesc) (x y : Option (List ℕ))
    → RunReturned true (dsts_named b parent d x y)
dsts_named-Returned b h parent d none y = (refl, refl)
dsts_named-Returned b h parent d (some x) none = (refl, refl)
dsts_named-Returned b h parent d (some x) (some y) =
    let id = b.vfi_doorbell_register parent Slot.dst_ready in
    let made = b.create_bind Kind.a_dsts parent d in
    choice-Returned true (is_negative id) _ _ (refl, refl)
      (before-Returned true (doorbell_on id ∷ stub Kind.a_dsts parent ∷ [])
        (dsts_made b parent id x y d made.obj (is_zero made.ret)) (refl, refl, refl, refl)
        (dsts_made-Returned b h parent id x y d made.obj (is_zero made.ret)))

bell_off-Neutral : (id : ℤ) (o : Object) → Neutral (bell_off id ++ put o ∷ [])
bell_off-Neutral (pos n) o = (refl, refl, refl, refl)
bell_off-Neutral (negsuc n) o = ground arith

module _ (b : Board) (bind parent srcs : Object) (id : ℤ) where
  srcs_noted-Returned :
      (ret : ℤ) (wanted : Bool) (n : Option ℤ)
      → Returned true (srcs_noted b bind parent srcs id ret wanted n).log
  srcs_noted-Returned ret false n = (refl, refl)
  srcs_noted-Returned ret true (some n) = (refl, refl)
  srcs_noted-Returned ret true none = ground (arith, bell_off-Neutral id bind)

  srcs_wanted-Returned :
      (ret : ℤ) (reply : BindDesc) → Returned true (srcs_wanted b bind parent srcs id ret reply).log
  srcs_wanted-Returned ret reply =
      srcs_noted-Returned ret (is_negative (b.event_id bind Slot.src_done))
        (event_number b.text (option reply.src (bytes "event_id")))

  srcs_read-Returned :
      (v : Verdict BindDesc) → named v ≡ true → RunReturned true (srcs_read b bind parent srcs id v)
  srcs_read-Returned unparsed h = ground (arith, bell_off-Neutral id bind)
  srcs_read-Returned nameless h = cc
  srcs_read-Returned (read reply none) h = srcs_wanted-Returned einval reply
  srcs_read-Returned (read reply (some n)) h =
      choice-Returned true (is_zero n) (some (srcs_wanted b bind parent srcs id n reply)) _
        (srcs_wanted-Returned n reply) (ground (arith, bell_off-Neutral id bind))

  srcs_called-Returned :
      (c : Called)
      → Named (read_bind b.text) c
      → RunReturned true (srcs_called b bind parent srcs id c)
  srcs_called-Returned (failed e) h = ground (arith, bell_off-Neutral id bind)
  srcs_called-Returned (replied r) h = srcs_read-Returned (read_bind b.text r) (h r refl)

module _ (b : Board) (h : IsNaming b) (bind parent : Object) (d : BindDesc) (name : List ℕ)
    (id ready : ℤ) where
  srcs_made-Returned :
      (ret : ℤ) (srcs : Option Object)
      → RunReturned true (srcs_made b bind parent d name id ready ret srcs)
  srcs_made-Returned ret none =
      Neutral-Returned true (bell_off id ++ put bind ∷ []) (bell_off-Neutral id bind)
  srcs_made-Returned ret (some srcs) =
      before-Returned true (sent (b.src_ploc parent) (srcs_command b d name ready) ∷ [])
        (srcs_called b bind parent srcs id _) (refl, refl, refl, refl)
        (srcs_called-Returned b bind parent srcs id _ (h.bind _ Op.srcs_create _ refl))

  srcs_begun-Returned : RunReturned true (srcs_begun b bind parent d name id ready)
  srcs_begun-Returned =
      let made = b.create_bind Kind.a_srcs parent d in
      before-Returned true (stub Kind.a_srcs parent ∷ [])
        (srcs_made b bind parent d name id ready made.ret made.obj) (refl, refl, refl, refl)
        (srcs_made-Returned made.ret made.obj)

srcs_for-Returned :
    (b : Board) (h : IsNaming b) (parent : Object) (d : BindDesc) (name : List ℕ)
    (bind : Option Object)
    → RunReturned true (srcs_for b parent d name bind)
srcs_for-Returned b h parent d name none = (refl, refl)
srcs_for-Returned b h parent d name (some bind) =
    let id = b.vfi_doorbell_register bind Slot.src_ready in
    choice-Returned true (b.has_event bind Slot.src_ready)
      (srcs_begun b bind parent d name (negsuc 0) (b.event_id bind Slot.src_ready)) _
      (srcs_begun-Returned b h bind parent d name (negsuc 0) (b.event_id bind Slot.src_ready))
      (choice-Returned true (is_negative id) _ _ (refl, refl)
        (before-Returned true (doorbell_on id ∷ noted Slot.src_ready id ∷ [])
          (srcs_begun b bind parent d name id id) (refl, refl, refl, refl)
          (srcs_begun-Returned b h bind parent d name id id)))

pub dsts_create-Returned :
    (b : Board) (h : IsNaming b) (parent : Object) (d : BindDesc)
    → RunReturned true (fabric_dsts_create b parent d)
unfolding fabric_dsts_create
dsts_create-Returned b h parent d =
    dsts_named-Returned b h parent d (option (b.bind_desc parent).dst (bytes "event_name"))
      (option (b.bind_desc parent).src (bytes "event_name"))

named-Returned :
    (s : Option (List ℕ)) (f : List ℕ → Option Run)
    → ((name : List ℕ) → RunReturned true (f name))
    → RunReturned true (if_named s f)
named-Returned none f h = (refl, refl)
named-Returned (some name) f h = h name

pub srcs_create-Returned :
    (b : Board) (h : IsNaming b) (parent : Object) (d : BindDesc)
    → RunReturned true (fabric_srcs_create b parent d)
unfolding fabric_srcs_create
srcs_create-Returned b h parent d =
    named-Returned (option d.src (bytes "event_name"))
      (λ name. srcs_for b parent d name (b.vfi_bind_of parent))
      (λ name. srcs_for-Returned b h parent d name (b.vfi_bind_of parent))
