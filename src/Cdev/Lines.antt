-- ===== src/Cdev/Lines.antt =====
-- `vfi_write` without O_NONBLOCK: a write is cut into lines, each line is a command, and the answers are
-- queued in the order of the lines.
use vfi.Prelude.{
  ℕ, zero, suc, ◌+◌, ◌<◌, ◌≡◌, refl, sym, ap, ap₂, subst, ◌∙◌, arith, Bool, true, not, ◌&&◌, List,
  [], ◌∷◌, ◌++◌, map, append-nil, append_assoc, Option, none, some, if◌then◌else◌, ◌==◌, length,
  length-append, take, drop,
}
use mathlib.Core.Option.{map as map_option}
use vfi.Cdev.File.{Mybuf, Priv, queue_to_read}
use vfi.Cdev.Pending.{pending, texts, text, rest}

-- `strsep(&buffer, "\n")`: the place of the first newline of a C string, and a string without one.
abbrev pub line_end : List ℕ → Option ℕ
line_end [] = none
line_end (c ∷ s) = if c == 10 then some 0 else if c == 0 then none else map_option suc (line_end s)

abbrev pub c_string : List ℕ → List ℕ
c_string [] = []
c_string (c ∷ s) = if c == 0 then [] else c ∷ c_string s

-- The loop of `vfi_write`, with the position of the file; `answer` is `do_operation`.
unfoldable pub write : ℕ → (List ℕ → Mybuf) → List ℕ → ℕ × Priv → ℕ × Priv
unfolding queue_to_read
write zero answer buffer s = s
write (suc fuel) answer buffer (at, p) = elim (line_end buffer) [
  | none ↦ (at + length buffer, queue_to_read p (answer (c_string buffer)))
  | some i ↦
      let remains = drop (suc i) buffer in
      let s : ℕ × Priv = (at + suc i, queue_to_read p (answer (take i buffer))) in
      let again = write fuel answer remains s in if length remains == 0 then s else again
]

-- Lines with their newlines.
abbrev pub join : List (List ℕ) → List ℕ
join [] = []
join (l ∷ ls) = l ++ 10 ∷ join ls

abbrev pub plain : List ℕ → Bool
plain [] = true
plain (c ∷ s) = not (c == 10) && not (c == 0) && plain s

abbrev pub all_plain : List (List ℕ) → Bool
all_plain [] = true
all_plain (l ∷ ls) = plain l && all_plain ls

line_end-plain : (l s : List ℕ) → plain l ≡ true → line_end (l ++ 10 ∷ s) ≡ some (length l)
line_end-plain [] s h = refl
line_end-plain (c ∷ l) s h = ground (arith, line_end-plain l s)

take-line : (l s : List ℕ) → take (length l) (l ++ 10 ∷ s) ≡ l
take-line [] s = refl
take-line (c ∷ l) s = ap (◌∷◌ c) (take-line l s)

drop-line : (l s : List ℕ) → drop (suc (length l)) (l ++ 10 ∷ s) ≡ s
drop-line [] s = refl
drop-line (c ∷ l) s = drop-line l s

-- The state after the answers to some lines are queued.
abbrev pub queued : (List ℕ → Mybuf) → List (List ℕ) → Priv → Priv
queued answer [] p = p
queued answer (l ∷ ls) p = queued answer ls (queue_to_read p (answer l))

all_plain_head : (l : List ℕ) (ls : List (List ℕ)) → all_plain (l ∷ ls) ≡ true → plain l ≡ true
all_plain_head l ls h = ground (arith, h)

length-line : (l s : List ℕ) → length (l ++ 10 ∷ s) ≡ suc (length l) + length s
length-line l s = omega (arith, length-append l (10 ∷ s))

-- One pass over a buffer that begins with a line.
abbrev after : ℕ → (List ℕ → Mybuf) → List ℕ → List ℕ → ℕ → Priv → ℕ × Priv
after fuel answer line remains at p =
    let s : ℕ × Priv = (at + suc (length line), queue_to_read p (answer line)) in
    if length remains == 0 then s else write fuel answer remains s

write-line :
    (fuel : ℕ) (answer : List ℕ → Mybuf) (l s : List ℕ) (at : ℕ) (p : Priv)
    → plain l ≡ true
    → write (suc fuel) answer (l ++ 10 ∷ s) (at, p) ≡ after fuel answer l s at p
unfolding write
write-line fuel answer l s at p h = by_end (line_end (l ++ 10 ∷ s)) (line_end-plain l s h)
  where
    cut : (line remains : List ℕ) (i : ℕ) → ℕ × Priv
    cut line remains i =
        let t : ℕ × Priv = (at + suc i, queue_to_read p (answer line)) in
        if length remains == 0 then t else write fuel answer remains t

    by_end :
        (r : Option ℕ)
        → r ≡ some (length l)
        → (elim r [
          | none ↦ (at + length (l ++ 10 ∷ s), queue_to_read p (answer (c_string (l ++ 10 ∷ s))))
          | some i ↦ cut (take i (l ++ 10 ∷ s)) (drop (suc i) (l ++ 10 ∷ s)) i
        ])
          ≡ after fuel answer l s at p
    by_end none e = ground (arith, e)
    by_end (some i) e =
        let here : length l ≡ i = ground (arith, e) in
        let whole = l ++ 10 ∷ s in
        subst (λ k. cut (take k whole) (drop (suc k) whole) k ≡ after fuel answer l s at p) here
          (ap₂ (λ x y. cut x y (length l)) (take-line l s) (drop-line l s))

all_plain_tail : (l : List ℕ) (ls : List (List ℕ)) → all_plain (l ∷ ls) ≡ true → all_plain ls ≡ true
all_plain_tail l ls h = ground (arith, h)

unless_zero : (n : ℕ) (a b : ℕ × Priv) → 0 < n → (if n == 0 then a else b) ≡ b
unless_zero n a b h = ground arith

write-join :
    (fuel : ℕ) (answer : List ℕ → Mybuf) (l : List ℕ) (ls : List (List ℕ)) (at : ℕ) (p : Priv)
    → all_plain (l ∷ ls) ≡ true
    → length ls < fuel
    → write fuel answer (join (l ∷ ls)) (at, p)
      ≡ (at + length (join (l ∷ ls)), queued answer (l ∷ ls) p)
write-join zero answer l ls at p h enough = absurd (omega arith)
write-join (suc fuel) answer l [] at p h enough =
    write-line fuel answer l [] at p (all_plain_head l [] h)
    ∙ (let e : at + suc (length l) ≡ at + length (l ++ 10 ∷ []) = omega (arith, length-line l []) in
        ap (λ i. (i, queue_to_read p (answer l))) e)
write-join (suc fuel) answer l (m ∷ ls) at p h enough =
    write-line fuel answer l (join (m ∷ ls)) at p (all_plain_head l (m ∷ ls) h)
    ∙ unless_zero (length (join (m ∷ ls))) _ _ (omega (arith, length-line m (join ls)))
    ∙ write-join fuel answer m ls (at + suc (length l)) (queue_to_read p (answer l))
        (all_plain_tail l (m ∷ ls) h) (omega arith)
    ∙ (let e : at + suc (length l) + length (join (m ∷ ls)) ≡ at + length (join (l ∷ m ∷ ls)) =
          omega (arith, length-line l (join (m ∷ ls))) in
        ap (λ i. (i, queued answer (l ∷ m ∷ ls) p)) e)

texts-append : (bs cs : List Mybuf) → texts (bs ++ cs) ≡ texts bs ++ texts cs
texts-append [] cs = refl
texts-append (b ∷ bs) cs =
    ap (λ z. text b ++ z) (texts-append bs cs) ∙ sym (append_assoc (text b) (texts bs) (texts cs))

queue_to_read-pending :
    (p : Priv) (b : Mybuf)
    → p.is_open ≡ true
    → (pending (queue_to_read p b) ≡ pending p ++ text b) × ((queue_to_read p b).is_open ≡ true)
unfolding queue_to_read
queue_to_read-pending p b h = ground (
  arith,
  h,
  texts-append p.readlist (b ∷ []),
  append-nil (text b),
  append_assoc (rest p) (texts p.readlist) (text b),
)

queued-pending :
    (answer : List ℕ → Mybuf) (ls : List (List ℕ)) (p : Priv)
    → p.is_open ≡ true
    → pending (queued answer ls p) ≡ pending p ++ texts (map answer ls)
queued-pending answer [] p h = sym (append-nil (pending p))
queued-pending answer (l ∷ ls) p h =
    let q = queue_to_read-pending p (answer l) h in
    queued-pending answer ls (queue_to_read p (answer l)) q.1
    ∙ ap (λ z. z ++ texts (map answer ls)) q.0
    ∙ append_assoc (pending p) (text (answer l)) (texts (map answer ls))

-- A blocking write to an open file of one or more whole lines, without newlines and zero bytes inside
-- them, runs one command for each line, not only for the first, and queues the answers in the order of
-- the lines; the position of the file moves by all the bytes written. More rounds of the loop than lines
-- behind the first are enough.
pub write_answers :
    (fuel : ℕ) (answer : List ℕ → Mybuf) (l : List ℕ) (ls : List (List ℕ)) (at : ℕ) (p : Priv)
    → all_plain (l ∷ ls) ≡ true
    → length ls < fuel
    → p.is_open ≡ true
    → let (end, q) = write fuel answer (join (l ∷ ls)) (at, p) in
      (pending q ≡ pending p ++ texts (map answer (l ∷ ls))) × (end ≡ at + length (join (l ∷ ls)))
write_answers fuel answer l ls at p h enough is_open =
    let e = write-join fuel answer l ls at p h enough in
    (ap (λ s. pending s.1) e ∙ queued-pending answer (l ∷ ls) p is_open, ap (λ s. s.0) e)
