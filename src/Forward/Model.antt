-- ===== src/Forward/Model.antt =====
-- What the members of `vfi_fabric_ops` use of the rest of the driver, what they leave behind, and the
-- exchange with another board that most of them are made of.
use vfi.Prelude.{
  ℕ, Bool, false, List, [], ◌∷◌, ◌++◌, Option, none, some, ◌==◌, if◌then◌else◌, bytes,
}
use vfi.Ops.Model.{ℤ, pos, negsuc, is_zero, Op, Desc, BindDesc, Kind, Object, Lookup}
use vfi.Parse.Desc.{get_option, parse_part, parse_bind}

-- `-EEXIST` and `-ENOMEM`
abbrev pub eexist : ℤ
eexist = negsuc 16

abbrev pub enomem : ℤ
enomem = negsuc 11

abbrev pub is_error : ℕ → ℤ → Bool
is_error n (pos k) = false
is_error n (negsuc k) = k == n

abbrev pub is_eexist : ℤ → Bool
is_eexist = is_error 16

abbrev pub is_enomem : ℤ → Bool
is_enomem = is_error 11

-- The kernel's conversions of numbers: `simple_strtoul` for base 16, `sscanf` of "%d", and the
-- printing of "%llx" or "%x" and of "%d". `debug` is CONFIG_VFI_DEBUG.
pub record Text : Type 0 where
  pub strtoul : List ℕ → ℕ × List ℕ
  pub debug : Bool
  pub scan : List ℕ → Option ℤ
  pub hex : ℕ → List ℕ
  pub dec : ℤ → List ℕ

-- What `vfi_fabric_call` gives: a buffer with the reply, or an error and no buffer.
pub data Called : Type 0 where
  replied : List ℕ → Called
  failed : ℤ → Called

-- The events of a bind.
pub data Slot : Type 0 where
  src_ready src_done dst_ready dst_done : Slot

-- The board that a member runs on. `kset_find_obj` looks for a child of a kind by its name, and
-- `kset_find_again` does so later in the same member. `create` and `create_bind` stand for
-- `vfi_smb_create` and its like; `ploc` is the location of an object's description, the other three
-- those of the parts of a bind or dst; `vfi_bind_of` is `vfi_dst_parent`. `fresh` is the temporary
-- location of a member that has none, with what registering it gives.
pub record Board : Type 0 where
  pub text : Text
  pub vfi_fabric_call : Object → List ℕ → Called
  pub kzalloc : Bool
  pub kset_find_obj : Object → Kind → List ℕ → Option Object
  pub kset_find_again : Object → Kind → List ℕ → Option Object
  pub has_set : Object → Kind → Bool
  pub new_set : Object → Kind → ℤ
  pub find_vfi_name : Option Object → Desc → Lookup
  pub find_vfi_name_again : Option Object → Desc → Lookup
  pub create_location : Option Object → Desc → Lookup
  pub create : Kind → Object → Desc → Lookup
  pub create_bind : Kind → Object → BindDesc → Lookup
  pub desc : Object → Desc
  pub bind_desc : Object → BindDesc
  pub ploc : Object → Object
  pub xfer_ploc : Object → Object
  pub dst_ploc : Object → Object
  pub src_ploc : Object → Object
  pub has_address : Object → Bool
  pub vfi_bind_of : Object → Option Object
  pub has_event : Object → Slot → Bool
  pub event_id : Object → Slot → ℤ
  pub vfi_doorbell_register : Object → Slot → ℤ
  pub find_vfi_events : List ℕ → Bool
  pub fresh : Object
  pub kset_register : ℤ

-- What a member does, in order. A buffer comes with a reply, and a parsed reply owns memory until it
-- is cleaned.
pub data Effect : Type 0 where
  sent : Object → List ℕ → Effect
  got freed : Effect
  parsed cleaned : Effect
  found put : Object → Effect
  stub : Kind → Object → Effect
  deleted : Kind → Object → Effect
  invoked : Op → Object → Effect
  registered : Object → Effect
  unregistered : Object → Effect
  doorbell_on doorbell_off : ℤ → Effect
  doorbell : Object → ℤ → Effect
  noted : Slot → ℤ → Effect
  event_made : Slot → ℤ → Effect
  event_deleted : Slot → Effect
  list_found list_made list_put : List ℕ → Effect
  loaded : Object → Effect

-- The result of a member, the object that it hands out, and what it did. A member without a result
-- has 0 here, and one that would follow a NULL pointer has no run.
pub record Run : Type 0 where
  pub ret : ℤ
  pub obj : Option Object
  pub log : List Effect

abbrev pub run : ℤ → Option Object → List Effect → Run
run ret obj log = record { ret = ret; obj = obj; log = log }

-- Something is done before, or after, a run.
abbrev pub before : List Effect → Option Run → Option Run
before log none = none
before log (some r) = some (record r { log = log ++ r.log })

abbrev pub quiet : Option Run → Option Run
quiet none = none
quiet (some r) = some (record r { ret = pos 0; obj = none })

-- What a reply says: it is not parsed; it has no option `result`, so that `sscanf` gets NULL; or it is
-- parsed, and the result is a number or not.
pub data Verdict {ℓ} (A : Type ℓ) : Type ℓ where
  unparsed nameless : Verdict A
  read : A → Option ℤ → Verdict A

abbrev pub judge {ℓ} : {A : Type ℓ} → Text → (A → Desc) → Option A → Verdict A
judge t part none = unparsed
judge t part (some a) = elim (get_option (part a).query (bytes "result")) [
  | none ↦ nameless
  | some s ↦ read a (t.scan s)
]

abbrev pub read_desc : Text → List ℕ → Verdict Desc
read_desc t r = judge t (λ d. d) (parse_part t.strtoul t.debug (some r))

-- The options of a bind stand behind its src.
abbrev pub read_bind : Text → List ℕ → Verdict BindDesc
read_bind t r = judge t (λ d. d.src) (parse_bind t.strtoul t.debug r)

-- A reply is read, and its buffer freed once it is parsed. `silent` is the result if it is not.
abbrev pub hear {ℓ} : {A : Type ℓ} → ℤ → (A → Option ℤ → Run) → Verdict A → Option Run
hear silent f unparsed = some (run silent none (got ∷ []))
hear silent f nameless = none
hear silent f (read a n) =
    let r = f a n in some (record r { log = got ∷ parsed ∷ freed ∷ (r.log ++ cleaned ∷ []) })

abbrev pub heard {ℓ} :
    {A : Type ℓ} → (List ℕ → Verdict A) → ℤ → (A → Option ℤ → Run) → Called → Option Run
heard reader silent f (failed e) = some (run e none [])
heard reader silent f (replied r) = hear silent f (reader r)

-- A result of 0 is followed by `next`, any other is the member's; where it is no number, the result
-- stays what it was.
abbrev pub on_success {ℓ} : {A : Type ℓ} → ℤ → (A → Run) → A → Option ℤ → Run
on_success silent next a none = run silent none []
on_success silent next a (some n) = if is_zero n then next a else run n none []

-- What a call gives is heard, after `log`; and a command is sent to a location and its reply heard.
unfoldable pub answer {ℓ} :
    {A : Type ℓ}
    → List Effect
    → Called
    → (List ℕ → Verdict A)
    → ℤ
    → (A → Option ℤ → Run)
    → Option Run
answer log c reader silent f = before log (heard reader silent f c)

unfoldable pub exchange {ℓ} :
    {A : Type ℓ}
    → Board
    → Object
    → List ℕ
    → (List ℕ → Verdict A)
    → ℤ
    → (A → Option ℤ → Run)
    → Option Run
unfolding answer
exchange b loc text reader silent f =
    answer (sent loc text ∷ []) (b.vfi_fabric_call loc text) reader silent f
