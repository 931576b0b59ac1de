-- ===== src/Forward/Buffers.antt =====
-- The buffers and descriptions of replies: which members of vfi_fabric_ops.c give them back.
use vfi.Prelude.{
  ℕ, suc, ◌+◌, ◌≡◌, refl, arith, Bool, true, false, List, [], ◌∷◌, ◌++◌, Option, none, some,
  if◌then◌else◌,
}
use vfi.Ops.Model.{ℤ, Op, Object}
use vfi.Ops.Dispatch.{line}
use vfi.Forward.Model.{
  Board, Called, replied, failed, Verdict, unparsed, nameless, read, Effect, got, freed, parsed,
  cleaned, sent, Run, read_desc, read_bind, before, quiet, hear, heard, on_success, answer,
  exchange,
}

-- A reply that is parsed has the option `result`.
abbrev pub named {ℓ} : {A : Type ℓ} → Verdict A → Bool
named nameless = false
named _ = true

abbrev pub Named {ℓ} : {A : Type ℓ} → (List ℕ → Verdict A) → Called → Type 0
Named reader c = (r : List ℕ) → c ≡ replied r → named (reader r) ≡ true

-- The commands whose replies the members of vfi_fabric_ops.c read as binds.
abbrev pub reads_bind : Op → Bool
reads_bind Op.bind_create = true
reads_bind Op.bind_find = true
reads_bind Op.dst_create = true
reads_bind Op.dst_delete = true
reads_bind Op.dst_find = true
reads_bind Op.dsts_create = true
reads_bind Op.dsts_delete = true
reads_bind Op.src_create = true
reads_bind Op.src_delete = true
reads_bind Op.src_find = true
reads_bind Op.srcs_create = true
reads_bind Op.srcs_delete = true
reads_bind _ = false

-- Each reply to a command of this board, if it is parsed as it is read here, has the option `result`.
pub record IsNaming (b : Board) : Type 0 where
  pub desc :
      (loc : Object) (op : Op) (s : List ℕ)
      → reads_bind op ≡ false
      → Named (read_desc b.text) (b.vfi_fabric_call loc (line op s))
  pub bind :
      (loc : Object) (op : Op) (s : List ℕ)
      → reads_bind op ≡ true
      → Named (read_bind b.text) (b.vfi_fabric_call loc (line op s))

abbrev pub count : (Effect → Bool) → List Effect → ℕ
count p [] = 0
count p (e ∷ es) = if p e then suc (count p es) else count p es

abbrev pub is_got : Effect → Bool
is_got got = true
is_got _ = false

abbrev pub is_freed : Effect → Bool
is_freed freed = true
is_freed _ = false

abbrev pub is_parsed : Effect → Bool
is_parsed parsed = true
is_parsed _ = false

abbrev pub is_cleaned : Effect → Bool
is_cleaned cleaned = true
is_cleaned _ = false

pub count-append :
    (p : Effect → Bool) (xs ys : List Effect) → count p (xs ++ ys) ≡ count p xs + count p ys
count-append p [] ys = ground arith
count-append p (x ∷ xs) ys = ground (arith, count-append p xs ys)

-- A log without a reply, and one whose descriptions are all cleaned and whose buffers are freed: all of
-- them (`careful`), or those that were parsed.
abbrev pub Neutral : List Effect → Type 0
Neutral log =
    (count is_got log ≡ 0)
    × (count is_freed log ≡ 0)
    × (count is_parsed log ≡ 0)
    × (count is_cleaned log ≡ 0)

abbrev pub Returned : Bool → List Effect → Type 0
Returned careful log =
    (count is_cleaned log ≡ count is_parsed log)
    × (count is_freed log ≡ (if careful then count is_got log else count is_parsed log))

abbrev pub RunReturned : Bool → Option Run → Type 0
RunReturned careful none = ⊥
RunReturned careful (some r) = Returned careful r.log

pub Neutral-Returned : (careful : Bool) (log : List Effect) → Neutral log → Returned careful log
Neutral-Returned careful log n = ground arith

pub append-Returned :
    (careful : Bool) (xs ys : List Effect)
    → Neutral xs
    → Returned careful ys
    → Returned careful (xs ++ ys)
append-Returned true xs ys n r = ground (
  arith,
  count-append is_got xs ys,
  count-append is_freed xs ys,
  count-append is_parsed xs ys,
  count-append is_cleaned xs ys,
)
append-Returned false xs ys n r = ground (
  arith,
  count-append is_got xs ys,
  count-append is_freed xs ys,
  count-append is_parsed xs ys,
  count-append is_cleaned xs ys,
)

pub before-Returned :
    (careful : Bool) (log : List Effect) (r : Option Run)
    → Neutral log
    → RunReturned careful r
    → RunReturned careful (before log r)
before-Returned careful log none n h = h
before-Returned careful log (some r) n h = append-Returned careful log r.log n h

pub quiet-Returned :
    (careful : Bool) (r : Option Run) → RunReturned careful r → RunReturned careful (quiet r)
quiet-Returned careful none h = h
quiet-Returned careful (some r) h = h

pub choice-Returned :
    (careful c : Bool) (x y : Option Run)
    → RunReturned careful x
    → RunReturned careful y
    → RunReturned careful (if c then x else y)
choice-Returned careful true x y h k = h
choice-Returned careful false x y h k = k

module _ {ℓ} {A : Type ℓ} (silent : ℤ) (f : A → Option ℤ → Run) where
  hear-Returned :
      (v : Verdict A)
      → named v ≡ true
      → ((a : A) (n : Option ℤ) → Neutral (f a n).log)
      → RunReturned false (hear silent f v)
  hear-Returned unparsed h n = (refl, refl)
  hear-Returned nameless h n = cc
  hear-Returned (read a m) h n = ground (
    arith,
    n a m,
    count-append is_got (f a m).log (cleaned ∷ []),
    count-append is_freed (f a m).log (cleaned ∷ []),
    count-append is_parsed (f a m).log (cleaned ∷ []),
    count-append is_cleaned (f a m).log (cleaned ∷ []),
  )

  heard-Returned :
      (reader : List ℕ → Verdict A) (c : Called)
      → Named reader c
      → ((a : A) (n : Option ℤ) → Neutral (f a n).log)
      → RunReturned false (heard reader silent f c)
  heard-Returned reader (failed e) h n = (refl, refl)
  heard-Returned reader (replied r) h n = hear-Returned (reader r) (h r refl) n

  pub answer-Returned :
      (log : List Effect) (c : Called) (reader : List ℕ → Verdict A)
      → Named reader c
      → Neutral log
      → ((a : A) (n : Option ℤ) → Neutral (f a n).log)
      → RunReturned false (answer log c reader silent f)
  unfolding answer
  answer-Returned log c reader h k n =
      before-Returned false log (heard reader silent f c) k (heard-Returned reader c h n)

  pub exchange-Returned :
      (b : Board) (loc : Object) (text : List ℕ) (reader : List ℕ → Verdict A)
      → Named reader (b.vfi_fabric_call loc text)
      → ((a : A) (n : Option ℤ) → Neutral (f a n).log)
      → RunReturned false (exchange b loc text reader silent f)
  unfolding exchange
  exchange-Returned b loc text reader h n =
      answer-Returned (sent loc text ∷ []) (b.vfi_fabric_call loc text) reader h
        (refl, refl, refl, refl) n

pub on_success-Neutral {ℓ} :
    {A : Type ℓ} (silent : ℤ) (next : A → Run) (a : A) (n : Option ℤ)
    → ((x : A) → Neutral (next x).log)
    → Neutral (on_success silent next a n).log
on_success-Neutral silent next a none h = (refl, refl, refl, refl)
on_success-Neutral silent next a (some n) h = ground (arith, h a)

-- An exchange that goes on after a success.
pub asked-Returned {ℓ} :
    {A : Type ℓ} (b : Board) (loc : Object) (text : List ℕ) (reader : List ℕ → Verdict A)
    (silent : ℤ) (next : A → Run)
    → Named reader (b.vfi_fabric_call loc text)
    → ((x : A) → Neutral (next x).log)
    → RunReturned false (exchange b loc text reader silent (on_success silent next))
asked-Returned b loc text reader silent next m h =
    exchange-Returned silent (on_success silent next) b loc text reader m
      (λ a n. on_success-Neutral silent next a n h)

pub told-Returned {ℓ} :
    {A : Type ℓ} (b : Board) (loc : Object) (text : List ℕ) (reader : List ℕ → Verdict A)
    (silent : ℤ) (next : A → Run)
    → Named reader (b.vfi_fabric_call loc text)
    → ((x : A) → Neutral (next x).log)
    → RunReturned false (quiet (exchange b loc text reader silent (on_success silent next)))
told-Returned b loc text reader silent next m h =
    quiet-Returned false _ (asked-Returned b loc text reader silent next m h)

pub answered-Returned {ℓ} :
    {A : Type ℓ} (log : List Effect) (c : Called) (reader : List ℕ → Verdict A) (silent : ℤ)
    (next : A → Run)
    → Named reader c
    → Neutral log
    → ((x : A) → Neutral (next x).log)
    → RunReturned false (answer log c reader silent (on_success silent next))
answered-Returned log c reader silent next m k h =
    answer-Returned silent (on_success silent next) log c reader m k
      (λ a n. on_success-Neutral silent next a n h)
