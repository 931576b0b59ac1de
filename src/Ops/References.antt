-- ===== src/Ops/References.antt =====
-- Every reference that a search hands to a handler is given back, after the last use of it.
use vfi.Prelude.{
  ℕ, ◌≡◌, refl, arith, Bool, true, false, List, [], ◌∷◌, ◌++◌, Option, none, some, if◌then◌else◌,
  leb, ◌&&◌,
}
use vfi.Ops.Model.{
  ℤ, is_zero, Op, Vtable, Desc, BindDesc, Object, Lookup, Driver, Effect, found, put, invoked,
  deleted, cleaned, Body, Quoted, Params, Outcome,
}
use vfi.Ops.Frame.{
  replied, plain, call_on, ask, ask_inside, tell_on, tell, tell_inside, Quoting, quote, finish,
  with_desc, with_bind,
}

-- The references that a run is handed, and those that it gives back.
abbrev pub founds : List Effect → List Object
founds [] = []
founds (found o ∷ log) = o ∷ founds log
founds (put o ∷ log) = founds log
founds (invoked v op o ∷ log) = founds log
founds (deleted o ∷ log) = founds log
founds (cleaned ∷ log) = founds log

abbrev pub puts : List Effect → List Object
puts [] = []
puts (found o ∷ log) = puts log
puts (put o ∷ log) = o ∷ puts log
puts (invoked v op o ∷ log) = puts log
puts (deleted o ∷ log) = puts log
puts (cleaned ∷ log) = puts log

-- The phases of a run: searches, calls, puts, and the cleaning of the parameters.
abbrev pub phase : Effect → ℕ
phase (found o) = 0
phase (put o) = 2
phase (invoked v op o) = 1
phase (deleted o) = 1
phase cleaned = 3

abbrev pub in_order : ℕ → List Effect → Bool
in_order n [] = true
in_order n (e ∷ log) = leb n (phase e) && in_order (phase e) log

-- Everything found is put, nothing is used after a put, and nothing else is put.
abbrev pub Settled : List Effect → Type 0
Settled log = (founds log ≡ puts log) × (in_order 0 log ≡ true)

-- The same for a body, which the cleaning still follows; a run that stops at a NULL pointer is
-- not judged.
abbrev pub Tidy : Body → Type 0
Tidy b = Settled (b.log ++ cleaned ∷ [])

abbrev pub BodyTidy : Option Body → Type 0
BodyTidy none = Unit
BodyTidy (some b) = Tidy b

abbrev pub OutcomeSettled : Option Outcome → Type 0
OutcomeSettled none = Unit
OutcomeSettled (some o) = Settled o.log

-- A search that fails hands out nothing.
abbrev pub FailsEmpty : Lookup → Type 0
FailsEmpty l = is_zero l.ret ≡ false → l.obj ≡ none

pub record IsCareful (d : Driver) : Type 0 where
  pub location : (p : Desc) → FailsEmpty (d.locate_vfi_location p)
  pub smb : (p : Desc) → FailsEmpty (d.find_vfi_smb p)
  pub sync : (p : Desc) → FailsEmpty (d.find_vfi_sync p)
  pub xfer : (p : Desc) → FailsEmpty (d.find_vfi_xfer p)
  pub bind : (p : Desc) → FailsEmpty (d.find_vfi_bind p)
  pub dst : (p : BindDesc) → FailsEmpty (d.find_vfi_dst p)

module _ (d : Driver) (ops : Object → Option Vtable) (op : Op) where
  pub call_on-Tidy : (obj : Option Object) → Tidy (call_on d ops op obj)
  call_on-Tidy none = ground arith
  call_on-Tidy (some o) = ground arith

  pub ask-Tidy : (l : Lookup) → Tidy (ask d ops op l)
  unfolding ask
  ask-Tidy l = ground (arith, call_on-Tidy l.obj)

  pub ask_inside-Tidy : (l : Lookup) → FailsEmpty l → Tidy (ask_inside d ops op l)
  unfolding ask_inside
  ask_inside-Tidy l h = ground (arith, h, call_on-Tidy l.obj)

  pub tell_on-Tidy : (obj : Option Object) → Tidy (tell_on ops op obj)
  tell_on-Tidy none = ground arith
  tell_on-Tidy (some o) = ground arith

  pub tell-Tidy : (l : Lookup) → Tidy (tell ops op l)
  unfolding tell
  tell-Tidy l = ground (arith, tell_on-Tidy l.obj)

  pub tell_inside-Tidy : (l : Lookup) → FailsEmpty l → Tidy (tell_inside ops op l)
  unfolding tell_inside
  tell_inside-Tidy l h = ground (arith, h, tell_on-Tidy l.obj)

replied-Settled :
    (op : Op) (p : Params) (b : Body)
    → Tidy b
    → (q : Option Quoted) → OutcomeSettled (replied op p b q)
replied-Settled op p b h none = tt
replied-Settled op p b h (some q) = h

pub choice-Tidy :
    (c : Bool) (a b : Option Body) → BodyTidy a → BodyTidy b → BodyTidy (if c then a else b)
choice-Tidy true a b g h = g
choice-Tidy false a b g h = h

pub finish-Settled :
    (op : Op) (q : Quoting) (wanted : Bool) (p : Params) (b : Option Body)
    → BodyTidy b
    → OutcomeSettled (finish op q wanted p b)
unfolding finish
finish-Settled op q wanted p none h = tt
finish-Settled op q true p (some b) h = replied-Settled op p b h (quote q b)
finish-Settled op q false p (some b) h = h

plain-Tidy : (ret : ℤ) → Tidy (plain ret [])
plain-Tidy ret = (refl, refl)

module _ (d : Driver) (op : Op) (q : Quoting) (text : List ℕ) (wanted : Bool) where
  pub with_desc-Settled :
      (body : Desc → Option Body)
      → ((p : Desc) → BodyTidy (body p))
      → OutcomeSettled (with_desc d op q body text wanted)
  unfolding with_desc
  with_desc-Settled body h =
      let (ret, p) = d.vfi_parse_desc text in
      finish-Settled op q wanted (Params.of_desc p) _
        (choice-Tidy (is_zero ret) (body p) (some (plain ret [])) (h p) (plain-Tidy ret))

  pub with_bind-Settled :
      (body : BindDesc → Option Body)
      → ((p : BindDesc) → BodyTidy (body p))
      → OutcomeSettled (with_bind d op q body text wanted)
  unfolding with_bind
  with_bind-Settled body h =
      let (ret, p) = d.vfi_parse_bind text in
      finish-Settled op q wanted (Params.of_bind p) _
        (choice-Tidy (is_zero ret) (body p) (some (plain ret [])) (h p) (plain-Tidy ret))
