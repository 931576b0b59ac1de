-- ===== src/Local/Transfer.antt =====
-- The copies of a whole bind: `vfi_local_dsts_create` splits the destination, `vfi_local_dst_create`
-- hands each fragment to `vfi_local_srcs_create`, which splits the source for it (vfi_local_ops.c).
use vfi.Prelude.{
  ℕ, zero, suc, ◌+◌, ◌*◌, ◌%◌, ◌^◌, ◌≤◌, ◌<◌, ◌≡◌, refl, sym, ap, ap₂, subst, ◌∙◌, Bool, true, List,
  [], ◌∷◌, ◌++◌, map, map-append, arith, ℕ_discrete,
}
use vfi.Ops.Model.{ℤ}
use vfi.Local.Split.{
  Fragment, split, split_from, split_dst, split_src, next_size, start_page, start_offset,
  start_size, end_size,
}
use vfi.Local.Bytes.{range, place, bytes, named}
use vfi.Local.Cover.{made, split_together, split_apart, split_dst-named, split_src-named}
use vfi.Local.Pages.{rest, next_size-cases, pages_fit}

-- The copies that the fragments of a destination bring about: `vfi_local_srcs_create` takes the offset
-- of the source from `src.offset`, the extent, and the address of the destination from `dst.offset`.
unfoldable pub copies : (ℕ → ℕ) → (Fragment → Bool × ℤ) → ℕ → List Fragment → List (ℕ × ℕ)
unfolding split_src
copies frame create b [] = []
copies frame create b (f ∷ fs) =
    named (split_src frame create b f.peer f.extent f.address).0 ++ copies frame create b fs

-- The same bytes one by one: those from `i` in one buffer, each with its fellow from `j` in another.
abbrev pub pairs : (ℕ → ℕ) → (ℕ → ℕ) → ℕ → ℕ → ℕ → List (ℕ × ℕ)
pairs frame frame' i j zero = []
pairs frame frame' i j (suc n) =
    (place frame i, place frame' j) ∷ pairs frame frame' (i + 1) (j + 1) n

-- A fragment of a destination that has something in it, lies below 2 ^ 32 and takes its bytes from
-- before `bound`.
abbrev Fit : ℕ → Fragment → Type 0
Fit bound f =
    (0 < f.extent)
    × (f.extent < 2 ^ 32)
    × (f.address + f.extent ≤ 2 ^ 32)
    × (f.peer + f.extent ≤ bound)

abbrev AllFit : ℕ → List Fragment → Type 0
AllFit bound [] = Unit
AllFit bound (f ∷ fs) = Fit bound f × AllFit bound fs

module _ (frame : ℕ → ℕ) (end bound : ℕ) (create : Fragment → Bool × ℤ)
    (ok : (f : Fragment) → (create f).0 ≡ true) (part : end < 4096)
    (low : (q : ℕ) → frame q < 2 ^ 20) (word : bound ≤ 2 ^ 64) where
  split-AllFit :
      (left page : ℕ) (f : Fragment)
      → 0 < f.extent
      → f.address + f.extent ≤ (frame page + 1) * 4096
      → f.extent + rest end left < 2 ^ 32
      → f.peer + f.extent + rest end left ≤ bound
      → AllFit bound (split frame end (2 ^ 64) create left page f).0
  unfolding split
  split-AllFit zero page f some upto small fits =
      let l = low page in
      subst (AllFit bound) (sym (made frame end (2 ^ 64) create ok part f _))
        ((some, omega arith, omega arith, omega arith), tt)
  split-AllFit (suc left) page f some upto small fits =
      let s = next_size end left in
      let c = next_size-cases end left part in
      let l = low page in
      elim (ℕ_discrete (frame page + 1) (frame (page + 1))) [
        | yes e ↦
            let same : (f.extent + s) % 2 ^ 32 ≡ f.extent + s = omega arith in
            let g : Fragment = record f { extent = f.extent + s } in
            subst (AllFit bound)
              (sym (
                ap (λ r. r.0) (split_together frame end (2 ^ 64) create ok part left page f e)
                ∙ ap
                    (λ x.
                      (split frame end (2 ^ 64) create left (page + 1) (record f { extent = x })).0)
                    same))
              (split-AllFit left (page + 1) g (omega arith) (omega arith) (omega arith)
                (omega arith))
        | no e ↦
            let same : (f.peer + f.extent) % 2 ^ 64 ≡ f.peer + f.extent = omega arith in
            let g : Fragment = record {
              address = frame (page + 1) * 4096;
              extent = s;
              peer = f.peer + f.extent;
            } in
            subst (AllFit bound)
              (sym (
                ap (λ r. r.0) (split_apart frame end (2 ^ 64) create ok part left page f e)
                ∙ made frame end (2 ^ 64) create ok part f _
                ∙ ap
                    (λ x.
                      f
                      ∷ (split frame end (2 ^ 64) create left (page + 1) (record g { peer = x })).0)
                    same))
              (
                (some, omega arith, omega arith, omega arith),
                split-AllFit left (page + 1) g c.0 (omega arith) (omega arith) (omega arith),
              )
      ]

split_dst-AllFit :
    (frame : ℕ → ℕ) (create : Fragment → Bool × ℤ) (b d n src : ℕ)
    → ((f : Fragment) → (create f).0 ≡ true)
    → ((q : ℕ) → frame q < 2 ^ 20)
    → 0 < n
    → b + d + n < 2 ^ 43
    → n < 2 ^ 32
    → src + n ≤ 2 ^ 64
    → AllFit (src + n) (split_dst frame create b d n src).0
unfolding split_dst
split_dst-AllFit frame create b d n src ok low some small word fits =
    let (left, pages, nonempty, total, in_page, whole, part, start) = pages_fit b d n some small in
    let f : Fragment = record {
      address = start_offset b d + frame (start_page b d) * 4096;
      extent = start_size b d n;
      peer = src;
    } in
    subst
      (λ k.
        AllFit (src + n)
          (split_from frame (end_size b d n) (2 ^ 64) create k (start_page b d) (start_offset b d)
            (start_size b d n) src).0)
      (sym pages)
      (split-AllFit frame (end_size b d n) (src + n) create ok part low fits left (start_page b d) f
        nonempty (omega arith) (omega arith) (omega arith))

-- A byte of a fragment of a destination, whose peer is an offset of the source, as a copy.
abbrev copied : (ℕ → ℕ) → ℕ → ℕ × ℕ → ℕ × ℕ
copied frame b (a, p) = (place frame (b + p), a)

copied-range :
    (frame : ℕ → ℕ) (b a p n : ℕ) → map (copied frame b) (range a p n) ≡ bytes frame (b + p) a n
copied-range frame b a p zero = refl
copied-range frame b a p (suc n) =
    ap (◌∷◌ (place frame (b + p), a))
      (copied-range frame b (a + 1) (p + 1) n ∙ ap (λ x. bytes frame x (a + 1) n) (omega arith))

copied-bytes :
    (frame frame' : ℕ → ℕ) (b i p n : ℕ)
    → map (copied frame b) (bytes frame' i p n) ≡ pairs frame frame' (b + p) i n
copied-bytes frame frame' b i p zero = refl
copied-bytes frame frame' b i p (suc n) = ap (◌∷◌ (place frame (b + p), place frame' i)) (
    copied-bytes frame frame' b (i + 1) (p + 1) n
    ∙ ap (λ x. pairs frame frame' x (i + 1) n) (omega arith))

copies-named :
    (frame : ℕ → ℕ) (create : Fragment → Bool × ℤ) (b bound : ℕ)
    → ((f : Fragment) → (create f).0 ≡ true)
    → b + bound < 2 ^ 43
    → (fs : List Fragment) → AllFit bound fs
    → copies frame create b fs ≡ map (copied frame b) (named fs)
unfolding copies
copies-named frame create b bound ok small [] fit = refl
copies-named frame create b bound ok small (f ∷ fs) (now, later) =
    ap₂ ◌++◌
      (split_src-named frame create b f.peer f.extent f.address ok now.0 (omega arith) now.1
          (omega arith)
        ∙ sym (copied-range frame b f.address f.peer f.extent))
      (copies-named frame create b bound ok small fs later)
    ∙ sym (map-append (copied frame b) (range f.address f.peer f.extent) (named fs))

-- A bind copies its source to its destination. If every call of `dst_create` and `src_create` succeeds,
-- the DMA descriptors of all fragments together copy exactly `n` bytes, in order: the byte `k` of the
-- source part, at its place in memory, to the place of the byte `k` of the destination part. The parts
-- are not empty and end below 2 ^ 43, the extent has 32 bits, and the pages of the destination lie below
-- 2 ^ 32.
pub bind_copies :
    (sframe dframe : ℕ → ℕ) (screate dcreate : Fragment → Bool × ℤ) (sb s db d n : ℕ)
    → ((f : Fragment) → (screate f).0 ≡ true)
    → ((f : Fragment) → (dcreate f).0 ≡ true)
    → ((q : ℕ) → dframe q < 2 ^ 20)
    → 0 < n
    → n < 2 ^ 32
    → sb + s + n < 2 ^ 43
    → db + d + n < 2 ^ 43
    → copies sframe screate sb (split_dst dframe dcreate db d n s).0
      ≡ pairs sframe dframe (sb + s) (db + d) n
bind_copies sframe dframe screate dcreate sb s db d n sok dok low some word ssmall dsmall =
    copies-named sframe screate sb (s + n) sok (omega arith) _
      (split_dst-AllFit dframe dcreate db d n s dok low some dsmall word (omega arith))
    ∙ ap (map (copied sframe sb))
        (split_dst-named dframe dcreate db d n s dok some dsmall word (omega arith))
    ∙ copied-bytes sframe dframe sb (db + d) s n
