-- ===== src/Cdev/Seek.antt =====
-- The answers kept for reading again: at most 17, and a seek back gives the last of them once more.
use vfi.Prelude.{
  ℕ, zero, suc, ◌+◌, ◌-◌, ◌≤◌, ◌≡◌, refl, sym, ap, subst, ◌∙◌, arith, Bool, true, false, List, [],
  ◌∷◌, ◌++◌, Option, none, some, if◌then◌else◌, ◌==◌, length, take, drop,
}
use vfi.Cdev.File.{
  Mybuf, Priv, Got, chunk, nothing, out_of_fuel, current, serve, retire, moved, read, drop_last,
  queue_to_read, Origin, cur, llseek, release, opened,
}
use vfi.Cdev.Pending.{pending, texts, text}

abbrev pub IsBounded : Priv → Type 0
IsBounded p = (p.seekbufs ≡ length p.seeklist) × (p.seekbufs ≤ 17)

length-drop_last : (b : Mybuf) (bs : List Mybuf) → length (drop_last (b ∷ bs)) ≡ length bs
length-drop_last b [] = refl
length-drop_last b (c ∷ bs) = ap suc (length-drop_last c bs)

retire-IsBounded : (b : Mybuf) (p : Priv) → IsBounded p → IsBounded (retire b p)
unfolding retire
retire-IsBounded b p h = ground (arith, length-drop_last b p.seeklist)

serve-IsBounded :
    (count uncopied : ℕ) (b : Mybuf) (p : Priv)
    → IsBounded p
    → IsBounded (serve count uncopied b p).1
unfolding serve
serve-IsBounded count uncopied b p h = ground (arith, retire-IsBounded b p h)

abbrev KeepsBound : Got → Type 0
KeepsBound (chunk bs p) = IsBounded p
KeepsBound (nothing p) = IsBounded p
KeepsBound out_of_fuel = Unit

choice-KeepsBound :
    (c : Bool) (a b : Got) → KeepsBound a → KeepsBound b → KeepsBound (if c then a else b)
choice-KeepsBound true a b g h = g
choice-KeepsBound false a b g h = h

abbrev ChosenBound : Option (Mybuf × Priv) → Type 0
ChosenBound none = Unit
ChosenBound (some (b, q)) = IsBounded q

current-IsBounded : (p : Priv) → IsBounded p → ChosenBound (current p)
unfolding current
current-IsBounded p h = ground arith

read-KeepsBound :
    (fuel count : ℕ) (uncopied : ℕ → ℕ) (at : ℕ) (p : Priv)
    → IsBounded p
    → KeepsBound (read fuel count uncopied at p)
unfolding read
read-KeepsBound zero count uncopied at p h = tt
read-KeepsBound (suc fuel) count uncopied at p h =
    by_current (current p) (current-IsBounded p h) (λ r. read-KeepsBound fuel count uncopied at r)
  where
    by_current :
        (c : Option (Mybuf × Priv))
        → ChosenBound c
        → ((r : Priv) → IsBounded r → KeepsBound (read fuel count uncopied at r))
        → KeepsBound (elim c [
          | none ↦ nothing p
          | some (b, q) ↦
              let (n, r) = serve count (uncopied fuel) b q in
              if n == 0
              then read fuel count uncopied at r
              else chunk (take n (drop q.offset b.reply)) (moved (at + n) r)
        ])
    by_current none e ih = h
    by_current (some (b, q)) e ih =
        let s = serve-IsBounded count (uncopied fuel) b q e in
        choice-KeepsBound ((serve count (uncopied fuel) b q).0 == 0) _ _ (ih _ s) s

-- What a program and the driver do with an open file.
pub data Step : Priv → Priv → Type 0 where
  reads :
      (fuel count : ℕ) (uncopied : ℕ → ℕ) (at : ℕ) (p : Priv) (bs : List ℕ) (q : Priv)
      → read fuel count uncopied at p ≡ chunk bs q
      → Step p q
  seeks : (o : Origin) (back : ℕ) (p : Priv) → Step p (llseek o back p)
  answered : (p : Priv) (b : Mybuf) → Step p (queue_to_read p b)
  released : (p : Priv) → Step p (release p)

pub data Reach : Priv → Type 0 where
  fresh : Reach opened
  next : {p q : Priv} → Reach p → Step p q → Reach q

Step-IsBounded : {p q : Priv} → Step p q → IsBounded p → IsBounded q
unfolding llseek queue_to_read release
Step-IsBounded (reads fuel count uncopied at p bs q e) h =
    subst KeepsBound e (read-KeepsBound fuel count uncopied at p h)
Step-IsBounded (seeks Origin.cur zero p) h = h
Step-IsBounded (seeks Origin.cur (suc back) p) h = ground (arith, h)
Step-IsBounded (seeks Origin.set back p) h = h
Step-IsBounded (seeks Origin.end back p) h = h
Step-IsBounded (answered p b) h = ground (arith, h)
Step-IsBounded (released p) h = (refl, omega arith)

Reach-IsBounded : {p : Priv} → Reach p → IsBounded p
Reach-IsBounded fresh = (refl, omega arith)
Reach-IsBounded (next r s) = Step-IsBounded s (Reach-IsBounded r)

-- However a file is used, also when copying to the program fails, it keeps at most 17 answers for
-- reading again, and counts them right.
pub seeklist_bound :
    {p : Priv} → Reach p → (p.seekbufs ≡ length p.seeklist) × (length p.seeklist ≤ 17)
seeklist_bound r = let h = Reach-IsBounded r in (h.0, omega (arith, h.0, h.1))

retire-llseek :
    (back : ℕ) (b : Mybuf) (p : Priv)
    → IsBounded p
    → pending (llseek cur (suc back) (retire b p)) ≡ text b ++ texts p.readlist
unfolding llseek retire
retire-llseek back b p h = ground (arith, h)

served-whole :
    (count : ℕ) (b : Mybuf) (p : Priv)
    → p.size - p.offset ≤ count
    → (serve count 0 b p).1 ≡ retire b p
unfolding serve
served-whole count b p h = ground (arith, h)

retire-pending : (b : Mybuf) (p : Priv) → pending (retire b p) ≡ texts p.readlist
unfolding retire
retire-pending b p = ground arith

-- On a file that keeps at most 17 answers for reading again and counts them right: a pass of `vfi_read`
-- that has room for the rest of the current answer reads it to its end, if `copy_to_user` copies all,
-- however much of it was read before. A seek back, by any number of bytes, directly after it
-- makes the whole answer pending again, in front of what was pending after that read.
pub llseek_rereads :
    (count back : ℕ) (b : Mybuf) (p : Priv)
    → IsBounded p
    → p.mybuf ≡ some b
    → p.size - p.offset ≤ count
    → pending (llseek cur (suc back) (serve count 0 b p).1)
      ≡ text b ++ pending (serve count 0 b p).1
llseek_rereads count back b p bound here room =
    ap (λ q. pending (llseek cur (suc back) q)) (served-whole count b p room)
    ∙ retire-llseek back b p bound
    ∙ ap (λ t. text b ++ t) (sym (ap pending (served-whole count b p room) ∙ retire-pending b p))
