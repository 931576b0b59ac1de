-- ===== src/Cdev/Pending.antt =====
-- What is still to be read from an open file of vfi_cdev.c, and one pass of its loop.
use vfi.Prelude.{
  ℕ, ◌+◌, ◌-◌, ◌≤◌, ◌<◌, ◌≡◌, refl, sym, ap, ap₂, ◌∙◌, arith, Bool, true, false, List, [], ◌∷◌,
  ◌++◌, append_assoc, Option, none, some, if◌then◌else◌, ltb, length, length-take, length-drop,
  take, drop, take-split, drop-drop,
}
use vfi.Cdev.File.{Mybuf, Priv, Got, chunk, nothing, out_of_fuel, current, serve, retire}

-- The bytes of an answer, and those of the current answer that are still to come.
abbrev pub text : Mybuf → List ℕ
text b = take b.size b.reply

abbrev pub rest : Priv → List ℕ
rest p = elim p.mybuf [ none ↦ [] | some b ↦ take (p.size - p.offset) (drop p.offset b.reply) ]

abbrev pub texts : List Mybuf → List ℕ
texts [] = []
texts (b ∷ bs) = text b ++ texts bs

-- What a program has still to read.
abbrev pub pending : Priv → List ℕ
pending p = rest p ++ texts p.readlist

-- Answers do not go beyond their memory, and the current one is read inside of it.
abbrev pub Fits : List Mybuf → Type 0
Fits [] = Unit
Fits (b ∷ bs) = (b.size ≤ length b.reply) × Fits bs

abbrev pub CurrentFits : Priv → Type 0
CurrentFits p = elim p.mybuf [
  | none ↦ Unit
  | some b ↦ (p.size ≡ b.size) × (b.size ≤ length b.reply) × (p.offset ≤ p.size)
]

pub record IsValid (p : Priv) : Type 0 where
  pub waiting : Fits p.readlist
  pub reading : CurrentFits p

-- How many answers are still to come.
abbrev pub answers : Priv → ℕ
answers p = length p.readlist + elim p.mybuf [ none ↦ 0 | some b ↦ 1 ]

-- What a call with room for `count` bytes may give: a piece from the front of what is pending, which
-- is not empty and has at most `count` bytes, or nothing, if nothing is pending.
abbrev pub Delivers : ℕ → Priv → Got → Type 0
Delivers count p (chunk bs q) =
    (pending p ≡ bs ++ pending q) × (0 < length bs) × (length bs ≤ count) × IsValid q
Delivers count p (nothing q) = (pending p ≡ []) × IsValid q
Delivers count p out_of_fuel = ⊥

pub retire-pending :
    (b : Mybuf) (q : Priv)
    → IsValid q
    → (pending (retire b q) ≡ texts q.readlist)
      × IsValid (retire b q)
      × (answers (retire b q) ≡ length q.readlist)
unfolding retire
retire-pending b q v = ground (arith, v.waiting, v.reading)

-- The state to read from has the same bytes pending, and a current answer.
abbrev pub Chosen : Priv → Option (Mybuf × Priv) → Type 0
Chosen p none = pending p ≡ []
Chosen p (some (b, q)) =
    (pending q ≡ pending p) × IsValid q × (q.mybuf ≡ some b) × (answers q ≡ answers p)

pub current-pending : (p : Priv) → IsValid p → Chosen p (current p)
unfolding current
current-pending p v = ground (arith, v.waiting, v.reading)

-- What one pass gives: `n` bytes from the front of what is pending.
abbrev pub Passes : ℕ → Mybuf → Priv → ℕ × Priv → Type 0
Passes count b q (n, r) =
    (pending q ≡ take n (drop q.offset b.reply) ++ pending r)
    × (length (take n (drop q.offset b.reply)) ≡ n)
    × (n ≤ count)
    × IsValid r
    × (n ≡ 0 → answers r < answers q)

-- The facts about a current answer.
reads_b :
    (b : Mybuf) (q : Priv)
    → IsValid q
    → q.mybuf ≡ some b
    → (q.size ≡ b.size)
      × (b.size ≤ length b.reply)
      × (q.offset ≤ q.size)
      × (rest q ≡ take (q.size - q.offset) (drop q.offset b.reply))
      × (answers q ≡ length q.readlist + 1)
reads_b b q v e = ground (arith, v.reading, e)

piece-length :
    (b : Mybuf) (q : Priv) (n : ℕ)
    → IsValid q
    → q.mybuf ≡ some b
    → n ≤ q.size - q.offset
    → length (take n (drop q.offset b.reply)) ≡ n
piece-length b q n v e small =
    let f = reads_b b q v e in
    omega
      (arith, length-take n (drop q.offset b.reply), length-drop q.offset b.reply, f.0, f.1, f.2)

moved-IsValid :
    (b : Mybuf) (q : Priv) (n : ℕ)
    → IsValid q
    → q.mybuf ≡ some b
    → n ≤ q.size - q.offset
    → IsValid (record q { offset = q.offset + n })
moved-IsValid b q n v e small =
    let f = reads_b b q v e in ground (arith, v.waiting, v.reading, f.0, f.1, f.2)

moved-pending :
    (b : Mybuf) (q : Priv) (n : ℕ)
    → IsValid q
    → q.mybuf ≡ some b
    → n ≤ q.size - q.offset
    → pending q ≡ take n (drop q.offset b.reply) ++ pending (record q { offset = q.offset + n })
moved-pending b q n v e small =
    let r : Priv = record q { offset = q.offset + n } in
    let front = take n (drop q.offset b.reply) in
    let left : q.size - q.offset - n ≡ q.size - (q.offset + n) = omega arith in
    let back =
      ap₂ take left (drop-drop b.reply q.offset n)
      ∙ sym (reads_b b r (moved-IsValid b q n v e small) e).3 in
    ap (λ z. z ++ texts q.readlist)
      ((reads_b b q v e).3
        ∙ take-split (q.size - q.offset) n (drop q.offset b.reply) small
        ∙ ap (λ z. front ++ z) back)
    ∙ append_assoc front (rest r) (texts q.readlist)

partial-Passes :
    (count : ℕ) (b : Mybuf) (q : Priv)
    → 0 < count
    → IsValid q
    → q.mybuf ≡ some b
    → count < q.size - q.offset
    → Passes count b q (count, record q { offset = q.offset + count })
partial-Passes count b q pos v e small = (
  moved-pending b q count v e (omega arith),
  piece-length b q count v e (omega arith),
  omega arith,
  moved-IsValid b q count v e (omega arith),
  λ z. absurd (omega arith),
)

full-Passes :
    (count : ℕ) (b : Mybuf) (q : Priv)
    → 0 < count
    → IsValid q
    → q.mybuf ≡ some b
    → q.size - q.offset ≤ count
    → Passes count b q (q.size - q.offset, retire b q)
full-Passes count b q pos v e small =
    let f = reads_b b q v e in
    let g = retire-pending b q v in
    (
      rw (f.3, g.0) refl,
      piece-length b q (q.size - q.offset) v e (omega arith),
      small,
      g.1,
      λ z. omega (arith, f.4, g.2),
    )

-- One pass without a fault, with room for at least one byte.
pub serve-Passes :
    (count : ℕ) (b : Mybuf) (q : Priv)
    → 0 < count
    → IsValid q
    → q.mybuf ≡ some b
    → Passes count b q (serve count 0 b q)
unfolding serve
serve-Passes count b q pos v e = by_room (ltb count (q.size - q.offset)) refl
  where
    by_room :
        (c : Bool)
        → ltb count (q.size - q.offset) ≡ c
        → Passes count b q (
            if c
            then (
              if c then count else q.size - q.offset,
              record q { offset = q.offset + (if c then count else q.size - q.offset) },
            )
            else (q.size - q.offset, retire b q))
    by_room true h = partial-Passes count b q pos v e (ground (arith, h))
    by_room false h = full-Passes count b q pos v e (ground (arith, h))

pub Delivers-pending :
    (count : ℕ) (p q : Priv) (g : Got)
    → pending p ≡ pending q
    → Delivers count q g
    → Delivers count p g
Delivers-pending count p q (chunk bs r) e (f, long, room, v) = (e ∙ f, long, room, v)
Delivers-pending count p q (nothing r) e (f, v) = (e ∙ f, v)
Delivers-pending count p q out_of_fuel e h = h
