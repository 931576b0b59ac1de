-- ===== src/Local/Bytes.antt =====
-- The bytes of a buffer, by their places in memory, and the bytes that fragments name.
use vfi.Prelude.{
  ℕ, zero, suc, ◌+◌, ◌*◌, ◌/◌, ◌%◌, ◌≤◌, ◌<◌, ◌≡◌, refl, ap, ap₂, ◌∙◌, List, [], ◌∷◌, ◌++◌, arith,
}
use native.Mathlib.Nat.{zero-add, add-zero}
use vfi.Local.Split.{Fragment}

-- `n` consecutive addresses from `a`, each with the place on the other side from `p`.
abbrev pub range : ℕ → ℕ → ℕ → List (ℕ × ℕ)
range a p zero = []
range a p (suc n) = (a, p) ∷ range (a + 1) (p + 1) n

-- Where the byte `i` of a buffer lies in memory.
abbrev pub place : (ℕ → ℕ) → ℕ → ℕ
place frame i = frame (i / 4096) * 4096 + i % 4096

-- The bytes `i`, `i + 1`, … of a buffer, `n` of them, in the same way.
abbrev pub bytes : (ℕ → ℕ) → ℕ → ℕ → ℕ → List (ℕ × ℕ)
bytes frame i p zero = []
bytes frame i p (suc n) = (place frame i, p) ∷ bytes frame (i + 1) (p + 1) n

-- What the fragments name.
abbrev pub named : List Fragment → List (ℕ × ℕ)
named [] = []
named (f ∷ fs) = range f.address f.peer f.extent ++ named fs

pub range_add : (a p m n : ℕ) → range a p (m + n) ≡ range a p m ++ range (a + m) (p + m) n
range_add a p zero n = simp (zero-add, add-zero) refl
range_add a p (suc m) n =
    let e : suc m + n ≡ suc (m + n) = omega arith in
    ap (range a p) e
    ∙ ap (◌∷◌ (a, p)) (
        range_add (a + 1) (p + 1) m n
        ∙ ap₂ (λ x y. range (a + 1) (p + 1) m ++ range x y n) (omega arith) (omega arith))

pub bytes_add :
    (frame : ℕ → ℕ) (i p m n : ℕ)
    → bytes frame i p (m + n) ≡ bytes frame i p m ++ bytes frame (i + m) (p + m) n
bytes_add frame i p zero n = simp (zero-add, add-zero) refl
bytes_add frame i p (suc m) n =
    let e : suc m + n ≡ suc (m + n) = omega arith in
    ap (bytes frame i p) e
    ∙ ap (◌∷◌ (place frame i, p)) (
        bytes_add frame (i + 1) (p + 1) m n
        ∙ ap₂ (λ x y. bytes frame (i + 1) (p + 1) m ++ bytes frame x y n) (omega arith)
            (omega arith))

place-page : (frame : ℕ → ℕ) (q o : ℕ) → o < 4096 → place frame (q * 4096 + o) ≡ frame q * 4096 + o
place-page frame q o h =
    let page : (q * 4096 + o) / 4096 ≡ q = omega arith in
    let rest : (q * 4096 + o) % 4096 ≡ o = omega arith in rw (page, rest) refl

-- Bytes of one page are consecutive in memory.
pub bytes-page :
    (frame : ℕ → ℕ) (q o p n : ℕ)
    → o + n ≤ 4096
    → bytes frame (q * 4096 + o) p n ≡ range (frame q * 4096 + o) p n
bytes-page frame q o p zero h = refl
bytes-page frame q o p (suc n) h = ap₂ ◌∷◌ (ap (λ x. (x, p)) (place-page frame q o (omega arith))) (
    ap (λ x. bytes frame x (p + 1) n) (omega arith)
    ∙ bytes-page frame q (o + 1) (p + 1) n (omega arith)
    ∙ ap (λ x. range x (p + 1) n) (omega arith))
