-- ===== src/Forward/Results.antt =====
-- What the result of a member of vfi_fabric_ops.c has to do with the result that the other board
-- replies: the shapes.
use vfi.Prelude.{
  ℕ, ◌≡◌, refl, sym, ◌∙◌, inl, inr, arith, Bool, Bool-cases, true, false, List, [], ◌∷◌, ◌++◌,
  Option, none, some, if◌then◌else◌,
}
use vfi.Ops.Model.{ℤ, pos, is_zero, Object}
use vfi.Forward.Model.{
  Board, Called, replied, failed, Verdict, unparsed, nameless, read, Effect, sent, cleaned, Run,
  before, hear, heard, on_success, answer, exchange, read_desc, read_bind,
}

-- A call that fails gives an error, which is not 0.
abbrev pub Fails : Board → Type 0
Fails b =
    (loc : Object) (text : List ℕ) (e : ℤ)
    → b.vfi_fabric_call loc text ≡ failed e
    → is_zero e ≡ false

-- The result in a reply, if it has one.
abbrev pub result_of {ℓ} : {A : Type ℓ} → Verdict A → Option ℤ
result_of unparsed = none
result_of nameless = none
result_of (read a n) = n

-- The reply is that of a bind or of a description.
abbrev pub told : Board → Bool → Called → Option ℤ
told b k (failed e) = none
told b true (replied r) = result_of (read_bind b.text r)
told b false (replied r) = result_of (read_desc b.text r)

-- The result of a member agrees with what each of its commands is told.
abbrev pub Agrees : Option ℤ → ℤ → Type 0
Agrees t ret =
    (is_zero ret ≡ true → t ≡ some (pos 0)) × ((n : ℤ) → t ≡ some n → is_zero n ≡ false → ret ≡ n)

abbrev pub Answered : Board → Bool → ℤ → Effect → Type 0
Answered b k ret (sent loc text) = Agrees (told b k (b.vfi_fabric_call loc text)) ret
Answered b k ret _ = Unit

abbrev pub Faithful : Board → Bool → ℤ → List Effect → Type 0
Faithful b k ret [] = Unit
Faithful b k ret (e ∷ log) = Answered b k ret e × Faithful b k ret log

abbrev pub RunFaithful : Board → Bool → Option Run → Type 0
RunFaithful b k none = Unit
RunFaithful b k (some r) = Faithful b k r.ret r.log

pub Faithful-append :
    (b : Board) (k : Bool) (ret : ℤ) (xs ys : List Effect)
    → Faithful b k ret xs
    → Faithful b k ret ys
    → Faithful b k ret (xs ++ ys)
Faithful-append b k ret [] ys u f = f
Faithful-append b k ret (x ∷ xs) ys u f = (u.0, Faithful-append b k ret xs ys u.1 f)

pub choice-Faithful :
    (b : Board) (k c : Bool) (x y : Option Run)
    → RunFaithful b k x
    → RunFaithful b k y
    → RunFaithful b k (if c then x else y)
choice-Faithful b k true x y h g = h
choice-Faithful b k false x y h g = g

zero_of : (n : ℤ) → is_zero n ≡ true → n ≡ pos 0
zero_of n h = ground arith

-- The answer of an exchange that goes on after a success, where `silent` is an error: the result and
-- what it has to do with the reply.
module _ {ℓ} {A : Type ℓ} (b : Board) (k : Bool) (silent : ℤ) (bad : is_zero silent ≡ false)
    (next : A → Run) where
  silent-Agrees : Agrees none silent
  silent-Agrees = (λ z. ground (arith, z, bad), λ m e h. ground (arith, e))

  judged-Agrees : (a : A) (n : Option ℤ) → Agrees n (on_success silent next a n).ret
  judged-Agrees a none = silent-Agrees
  judged-Agrees a (some n) = ground arith

  -- What follows a success sends nothing.
  abbrev Quiet : Type ℓ
  Quiet = (a : A) (ret : ℤ) → Faithful b k ret (next a).log

  judged-Faithful :
      (a : A) (n : Option ℤ) (ret : ℤ) → Quiet → Faithful b k ret (on_success silent next a n).log
  judged-Faithful a none ret q = tt
  judged-Faithful a (some n) ret q = elim (Bool-cases (is_zero n)) [
    | inl e ↦ rw e (q a ret)
    | inr e ↦ rw e tt
  ]

  hear-Faithful :
      (loc : Object) (text : List ℕ) (v : Verdict A)
      → result_of v ≡ told b k (b.vfi_fabric_call loc text)
      → Quiet
      → RunFaithful b k (before (sent loc text ∷ []) (hear silent (on_success silent next) v))
  hear-Faithful loc text unparsed e q = (rw (← e) silent-Agrees, (tt, tt))
  hear-Faithful loc text nameless e q = tt
  hear-Faithful loc text (read a n) e q =
      let ret = (on_success silent next a n).ret in
      (
        rw (← e) (judged-Agrees a n),
        (
          tt,
          (
            tt,
            (
              tt,
              Faithful-append b k ret (on_success silent next a n).log (cleaned ∷ [])
                  (judged-Faithful a n ret q) (tt, tt),
            ),
          ),
        ),
      )

  -- The reader is the one for the kind of the reply.
  abbrev Reads : (List ℕ → Verdict A) → Type 0
  Reads reader = (r : List ℕ) → result_of (reader r) ≡ told b k (replied r)

  -- The call that is heard says what the board's own call does.
  called-Faithful :
      (loc : Object) (text : List ℕ) (reader : List ℕ → Verdict A) (c : Called)
      → told b k (b.vfi_fabric_call loc text) ≡ told b k c
      → Reads reader
      → ((e : ℤ) → c ≡ failed e → is_zero e ≡ false)
      → Quiet
      → RunFaithful b k
          (before (sent loc text ∷ []) (heard reader silent (on_success silent next) c))
  called-Faithful loc text reader (failed e) h r f q =
      (rw h (λ z. ground (arith, f e refl), λ m z. ground (arith, z)), tt)
  called-Faithful loc text reader (replied s) h r f q =
      hear-Faithful loc text (reader s) (r s ∙ sym h) q

  pub answered-Faithful :
      (loc : Object) (text : List ℕ) (reader : List ℕ → Verdict A) (c : Called)
      → told b k (b.vfi_fabric_call loc text) ≡ told b k c
      → Reads reader
      → ((e : ℤ) → c ≡ failed e → is_zero e ≡ false)
      → Quiet
      → RunFaithful b k (answer (sent loc text ∷ []) c reader silent (on_success silent next))
  unfolding answer
  answered-Faithful = called-Faithful

  pub asked-Faithful :
      (loc : Object) (text : List ℕ) (reader : List ℕ → Verdict A)
      → Reads reader
      → Fails b
      → Quiet
      → RunFaithful b k (exchange b loc text reader silent (on_success silent next))
  unfolding answer exchange
  asked-Faithful loc text reader r f q =
      called-Faithful loc text reader (b.vfi_fabric_call loc text) refl r (λ e h. f loc text e h) q
