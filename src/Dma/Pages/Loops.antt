-- ===== src/Dma/Pages/Loops.antt =====
-- The loops of `vfi_alloc_pages` that ask for one page after another, and its loop that gives
-- them back.
use vfi.Prelude.{
  ℕ, zero, suc, ◌+◌, ◌≤◌, ◌<◌, ◌≡◌, ◌≢◌, refl, sym, ap, subst, ◌∙◌, inl, inr, Bool-cases, List, [],
  ◌∷◌, ◌++◌, append_assoc, arith, ◌==◌, if◌then◌else◌, length, set, get_or, take, length-set,
}
use native.Mathlib.Numerals.{add-one}
use vfi.Dma.Pages.{alloc_discontig, alloc_contig, free_down}

-- The results of the calls `i` to `i + n - 1` of the allocator.
abbrev pub calls : (ℕ → ℕ) → ℕ → ℕ → List ℕ
calls f i zero = []
calls f i (suc n) = f i ∷ calls f (suc i) n

calls-snoc : (f : ℕ → ℕ) (i n : ℕ) → calls f i (suc n) ≡ calls f i n ++ f (i + n) ∷ []
calls-snoc f i zero = ap (λ k. f k ∷ []) (omega arith)
calls-snoc f i (suc n) =
    ap (◌∷◌ (f i)) (calls-snoc f (suc i) n ∙ ap (λ k. calls f (suc i) n ++ f k ∷ []) (omega arith))

calls_next : (f : ℕ → ℕ) (n : ℕ) → calls f 0 (suc n) ≡ calls f 0 n ++ f n ∷ []
calls_next f n = calls-snoc f 0 n ∙ ap {B = List ℕ} (λ k. calls f 0 n ++ f k ∷ []) (omega arith)

-- No page is NULL.
abbrev pub NonNull : List ℕ → Type 0
NonNull [] = Unit
NonNull (p ∷ ps) = (p ≢ 0) × NonNull ps

NonNull-append : (ps : List ℕ) (p : ℕ) → NonNull ps → p ≢ 0 → NonNull (ps ++ p ∷ [])
NonNull-append [] p v h = (h, tt)
NonNull-append (q ∷ ps) p v h = (v.0, NonNull-append ps p v.1 h)

take-set : (xs : List ℕ) (i v : ℕ) → i < length xs → take (suc i) (set xs i v) ≡ take i xs ++ v ∷ []
take-set [] i v h = absurd (omega arith)
take-set (x ∷ xs) zero v h = refl
take-set (x ∷ xs) (suc i) v h = ap (◌∷◌ x) (take-set xs i v (omega arith))

pub take_all : (n : ℕ) (xs : List ℕ) → length xs ≡ n → take n xs ≡ xs
take_all zero [] h = refl
take_all zero (x ∷ xs) h = absurd (omega arith)
take_all (suc n) [] h = refl
take_all (suc n) (x ∷ xs) h = ap (◌∷◌ x) (take_all n xs (omega arith))

take-suc : (n : ℕ) (xs : List ℕ) → n < length xs → take (suc n) xs ≡ take n xs ++ get_or xs n 0 ∷ []
take-suc n [] h = absurd (omega arith)
take-suc zero (x ∷ xs) h = refl
take-suc (suc n) (x ∷ xs) h = ap (◌∷◌ x) (take-suc n xs (omega arith))

-- `while (page--)` frees the first `page` entries.
pub free_down-take :
    (page : ℕ) (ary freed : List ℕ)
    → page ≤ length ary
    → free_down page ary freed ≡ take page ary ++ freed
unfolding free_down
free_down-take zero ary freed h = refl
free_down-take (suc page) ary freed h =
    free_down-take page ary (get_or ary page 0 ∷ freed) (omega arith)
    ∙ sym (append_assoc (take page ary) (get_or ary page 0 ∷ []) freed)
    ∙ ap (λ xs. xs ++ freed) (sym (take-suc page ary h))

take-set_same : (xs : List ℕ) (i v : ℕ) → take i (set xs i v) ≡ take i xs
take-set_same [] i v = refl
take-set_same (x ∷ xs) zero v = refl
take-set_same (x ∷ xs) (suc i) v = ap (◌∷◌ x) (take-set_same xs i v)

-- What an allocation loop over `total` pages has done: the call `k` failed, or all calls succeeded
-- and `k` is their number.
pub record Filled (alloc : ℕ → ℕ) (total k : ℕ) : Type 0 where
  pub upto : k ≤ total
  pub good : NonNull (calls alloc 0 k)
  pub bad : k < total → alloc k ≡ 0

module _ (alloc : ℕ → ℕ) (page : ℕ) (ary : List ℕ) (t : take page ary ≡ calls alloc 0 page) where
  -- One more entry stored.
  stored :
      page < length ary → take (page + 1) (set ary page (alloc page)) ≡ calls alloc 0 (page + 1)
  stored h = rw add-one (take-set ary page (alloc page) h ∙ rw t (sym (calls_next alloc page)))

  grown : NonNull (calls alloc 0 page) → alloc page ≢ 0 → NonNull (calls alloc 0 (page + 1))
  grown g ne =
      subst (λ k. NonNull (calls alloc 0 k)) (sym (add-one page))
        (subst NonNull (sym (calls_next alloc page)) (NonNull-append _ _ g ne))

-- The outcome of an allocation loop that leaves `page` at `n`.
pub record Outcome (alloc : ℕ → ℕ) (total n : ℕ) (ary : List ℕ) : Type 0 where
  pub filled : Filled alloc total n
  pub size : length ary ≡ total
  pub entries : take n ary ≡ calls alloc 0 n

pub discontig_lem :
    (alloc : ℕ → ℕ) (total left page : ℕ) (ary : List ℕ)
    → NonNull (calls alloc 0 page)
    → page + left ≡ total
    → length ary ≡ total
    → take page ary ≡ calls alloc 0 page
    → let (n, ary') = alloc_discontig alloc left page ary in Outcome alloc total n ary'
unfolding alloc_discontig
discontig_lem alloc total zero page ary g h l t = record {
  filled = record { upto = omega arith; good = g; bad = λ k. absurd (omega arith) };
  size = l;
  entries = t;
}
discontig_lem alloc total (suc left) page ary g h l t = elim (Bool-cases (alloc page == 0)) [
  | inl e ↦
      let null : alloc page ≡ 0 = ground arith in
      rw (e, alloc_discontig)
        record {
          filled = record { upto = omega arith; good = g; bad = λ k. null };
          size = length-set ary page 0 ∙ l;
          entries = take-set_same ary page 0 ∙ t;
        }
  | inr ne ↦
      let given : alloc page ≢ 0 = ground arith in
      let later =
        discontig_lem alloc total left (page + 1) (set ary page (alloc page))
          (grown alloc page ary t g given) (omega arith) (length-set ary page (alloc page) ∙ l)
          (stored alloc page ary t (omega arith)) in
      rw (ne, alloc_discontig)
        record { filled = later.filled; size = later.size; entries = later.entries }
]

-- Where the other loop leaves `page` when it stops at the call `k`: behind a page that is NULL.
abbrev past : ℕ → ℕ → ℕ
past total k = if k == total then k else k + 1

pub record Stepped (alloc : ℕ → ℕ) (total n : ℕ) (ary : List ℕ) : Type 0 where
  pub call : ℕ
  pub filled : Filled alloc total call
  pub step : n ≡ past total call
  pub size : length ary ≡ total
  pub entries : take n ary ≡ calls alloc 0 n

pub contig_lem :
    (alloc : ℕ → ℕ) (total left page : ℕ) (ary : List ℕ)
    → NonNull (calls alloc 0 page)
    → page + left ≡ total
    → length ary ≡ total
    → take page ary ≡ calls alloc 0 page
    → let (n, ary') = alloc_contig alloc left page ary in Stepped alloc total n ary'
unfolding alloc_contig
contig_lem alloc total zero page ary g h l t = record {
  call = page;
  filled = record { upto = omega arith; good = g; bad = λ k. absurd (omega arith) };
  step = ground arith;
  size = l;
  entries = t;
}
contig_lem alloc total (suc left) page ary g h l t = elim (Bool-cases (alloc page == 0)) [
  | inl e ↦
      let null : alloc page ≡ 0 = ground arith in
      rw (e, alloc_contig)
        record {
          call = page;
          filled = record { upto = omega arith; good = g; bad = λ k. null };
          step = ground arith;
          size = length-set ary page 0 ∙ l;
          entries =
              subst (λ v. take (page + 1) (set ary page v) ≡ calls alloc 0 (page + 1)) null
                (stored alloc page ary t (omega arith));
        }
  | inr ne ↦
      let given : alloc page ≢ 0 = ground arith in
      let later =
        contig_lem alloc total left (page + 1) (set ary page (alloc page))
          (grown alloc page ary t g given) (omega arith) (length-set ary page (alloc page) ∙ l)
          (stored alloc page ary t (omega arith)) in
      rw (ne, alloc_contig)
        record {
          call = later.call;
          filled = later.filled;
          step = later.step;
          size = later.size;
          entries = later.entries;
        }
]
