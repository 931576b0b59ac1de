-- ===== src/Local/Cover.antt =====
-- Which bytes the fragments of `vfi_local_dsts_create` and `vfi_local_srcs_create` name.
use vfi.Prelude.{
  ℕ, zero, suc, ◌+◌, ◌*◌, ◌%◌, ◌^◌, ◌≤◌, ◌<◌, ◌≡◌, refl, sym, ap, ap₂, ◌∙◌, Bool, true, List, ◌∷◌,
  ◌++◌, Option, append_assoc, arith, ℕ_discrete, ◌≢◌, ◌⊎◌, inl, inr,
}
use native.Mathlib.Nat.{mod-eq_of_lt}
use vfi.Ops.Model.{ℤ}
use vfi.Local.Split.{
  Fragment, split, split_from, split_dst, split_src, next_size, start_page, start_offset,
  start_size, end_size, created,
}
use vfi.Local.Bytes.{range, bytes, named, range_add, bytes_add, bytes-page}
use vfi.Local.Pages.{rest, next_size-cases, pages_fit}

module _ (frame : ℕ → ℕ) (end width : ℕ) (create : Fragment → Bool × ℤ)
    (ok : (f : Fragment) → (create f).0 ≡ true) (part : end < 4096) where
  pub made : (f : Fragment) (r : List Fragment × Option ℤ) → (created create f r).0 ≡ f ∷ r.0
  made f r = rw (ok f) refl

  pub split_together :
      (left page : ℕ) (f : Fragment)
      → frame page + 1 ≡ frame (page + 1)
      → split frame end width create (suc left) page f
        ≡ split frame end width create left
            (page + 1)
            (record f { extent = (f.extent + next_size end left) % 2 ^ 32 })
  unfolding split
  split_together left page f h = ground arith

  pub split_apart :
      (left page : ℕ) (f : Fragment)
      → frame page + 1 ≢ frame (page + 1)
      → split frame end width create (suc left) page f
        ≡ created create f (
            split frame end width create left (page + 1) (record {
              address = frame (page + 1) * 4096;
              extent = next_size end left;
              peer = (f.peer + f.extent) % width;
            }))
  unfolding split
  split_apart left page f h = ground arith

  -- The next page begins where the pages that are left do, whether it is the last one or not.
  bytes_next :
      (left page p : ℕ)
      → bytes frame ((page + 1) * 4096) p (rest end (suc left))
        ≡ range (frame (page + 1) * 4096) p (next_size end left)
          ++ bytes frame ((page + 1 + 1) * 4096) (p + next_size end left) (rest end left)
  bytes_next left page p =
      let s = next_size end left in
      let c = next_size-cases end left part in
      let first : bytes frame ((page + 1) * 4096) p s ≡ range (frame (page + 1) * 4096) p s =
        ap (λ x. bytes frame x p s) (omega arith)
        ∙ bytes-page frame (page + 1) 0 p s (omega (arith, c.1))
        ∙ ap (λ x. range x p s) (omega arith) in
      let after : bytes frame ((page + 1) * 4096 + s) (p + s) (rest end left)
          ≡ bytes frame ((page + 1 + 1) * 4096) (p + s) (rest end left) =
        elim c.2 [
          | inl e ↦ ap (λ x. bytes frame x (p + s) (rest end left)) (omega arith)
          | inr e ↦ rw e refl
        ] in
      bytes_add frame ((page + 1) * 4096) p s (rest end left) ∙ ap₂ ◌++◌ first after

  -- The fragments name the bytes of the open fragment and those of the pages that are left.
  split-named :
      (left page : ℕ) (f : Fragment)
      → (left ≡ 0) ⊎ (f.address + f.extent ≡ (frame page + 1) * 4096)
      → f.extent + rest end left < 2 ^ 32
      → f.peer + f.extent + rest end left ≤ width
      → named (split frame end width create left page f).0
        ≡ range f.address f.peer f.extent
          ++ bytes frame ((page + 1) * 4096) (f.peer + f.extent) (rest end left)
  unfolding split
  split-named zero page f whole small fits = ap named (made f _)
  split-named (suc left) page f whole small fits =
      let s = next_size end left in
      let c = next_size-cases end left part in
      let joint : f.address + f.extent ≡ (frame page + 1) * 4096 = elim whole [
        | inl e ↦ absurd (omega arith)
        | inr e ↦ e
      ] in
      let next = bytes_next left page (f.peer + f.extent) in
      elim (ℕ_discrete (frame page + 1) (frame (page + 1))) [
        | yes e ↦
            let g : Fragment = record f { extent = f.extent + s } in
            let same : (f.extent + s) % 2 ^ 32 ≡ f.extent + s = omega arith in
            let whole' : (left ≡ 0) ⊎ (f.address + (f.extent + s) ≡ (frame (page + 1) + 1) * 4096) =
              elim c.2 [ inl q ↦ inr (omega arith) | inr q ↦ inl q ] in
            ap (λ r. named r.0) (split_together left page f e)
            ∙ ap
                (λ x.
                  named (split frame end width create left (page + 1) (record f { extent = x })).0)
                same
            ∙ split-named left (page + 1) g whole' (omega arith) (omega arith)
            ∙ ap₂ ◌++◌ (range_add f.address f.peer f.extent s)
                (ap (λ x. bytes frame ((page + 1 + 1) * 4096) x (rest end left)) (omega arith))
            ∙ append_assoc (range f.address f.peer f.extent) _ _
            ∙ ap (◌++◌ (range f.address f.peer f.extent)) (
                ap
                  (λ x.
                    range x (f.peer + f.extent) s
                    ++ bytes frame ((page + 1 + 1) * 4096) (f.peer + f.extent + s) (rest end left))
                  (omega arith)
                ∙ sym next)
        | no e ↦
            let g : Fragment = record {
              address = frame (page + 1) * 4096;
              extent = s;
              peer = f.peer + f.extent;
            } in
            let same : (f.peer + f.extent) % width ≡ f.peer + f.extent =
              mod-eq_of_lt (omega arith) in
            let whole' : (left ≡ 0)
                ⊎ (frame (page + 1) * 4096 + s ≡ (frame (page + 1) + 1) * 4096) =
              elim c.2 [ inl q ↦ inr (omega arith) | inr q ↦ inl q ] in
            ap (λ r. named r.0) (split_apart left page f e)
            ∙ ap named (made f _)
            ∙ ap
                (λ x.
                  range f.address f.peer f.extent
                  ++ named (split frame end width create left (page + 1) (record g { peer = x })).0)
                same
            ∙ ap (◌++◌ (range f.address f.peer f.extent))
                (split-named left (page + 1) g whole' (omega arith) (omega arith) ∙ sym next)
      ]

-- A loop over `left + 1` pages names the bytes from the start offset in the first of them on.
split_from-named :
    (frame : ℕ → ℕ) (end width : ℕ) (create : Fragment → Bool × ℤ)
    → ((f : Fragment) → (create f).0 ≡ true)
    → end < 4096
    → (left page offset size peer : ℕ) → offset + size ≤ 4096
    → (left ≡ 0) ⊎ (offset + size ≡ 4096)
    → size + rest end left < 2 ^ 32
    → peer + size + rest end left ≤ width
    → named (split_from frame end width create (suc left) page offset size peer).0
      ≡ bytes frame (page * 4096 + offset) peer (size + rest end left)
split_from-named frame end width create ok part left page offset size peer in_page whole small
      fits =
    let f : Fragment = record {
      address = offset + frame page * 4096;
      extent = size;
      peer = peer;
    } in
    let whole' : (left ≡ 0) ⊎ (f.address + size ≡ (frame page + 1) * 4096) = elim whole [
      | inl e ↦ inl e
      | inr e ↦ inr (omega arith)
    ] in
    let first : range f.address peer size ≡ bytes frame (page * 4096 + offset) peer size =
      ap (λ x. range x peer size) (omega arith)
      ∙ sym (bytes-page frame page offset peer size in_page) in
    let after : bytes frame ((page + 1) * 4096) (peer + size) (rest end left)
        ≡ bytes frame (page * 4096 + offset + size) (peer + size) (rest end left) =
      elim whole [
        | inl e ↦ rw e refl
        | inr e ↦ ap (λ x. bytes frame x (peer + size) (rest end left)) (omega arith)
      ] in
    split-named frame end width create ok part left page f whole' small fits
    ∙ ap₂ ◌++◌ first after
    ∙ sym (bytes_add frame (page * 4096 + offset) peer size (rest end left))

-- If every call of `dst_create` succeeds, the fragments of a dst name exactly the `n` bytes of the part
-- of the buffer, in order, each once and at its place in memory, and give to the byte `k` the offset
-- `src + k` of the source. The part is not empty and ends below 2 ^ 43, its extent has 32 bits,
-- and the offsets of the source do not wrap around.
pub split_dst-named :
    (frame : ℕ → ℕ) (create : Fragment → Bool × ℤ) (b d n src : ℕ)
    → ((f : Fragment) → (create f).0 ≡ true)
    → 0 < n
    → b + d + n < 2 ^ 43
    → n < 2 ^ 32
    → src + n ≤ 2 ^ 64
    → named (split_dst frame create b d n src).0 ≡ bytes frame (b + d) src n
unfolding split_dst
split_dst-named frame create b d n src ok some small word fits =
    let (left, pages, nonempty, total, in_page, whole, part, start) = pages_fit b d n some small in
    ap
      (λ k.
        named
          (split_from frame (end_size b d n) (2 ^ 64) create k (start_page b d) (start_offset b d)
            (start_size b d n) src).0)
      pages
    ∙ split_from-named frame (end_size b d n) (2 ^ 64) create ok part left (start_page b d)
        (start_offset b d) (start_size b d n) src in_page whole (omega arith) (omega arith)
    ∙ ap₂ (λ x y. bytes frame x src y) start total

-- The same for the fragments of a src, which give to the byte `k` the address `dst + k` of the
-- destination, if the destination does not go past 2 ^ 32.
pub split_src-named :
    (frame : ℕ → ℕ) (create : Fragment → Bool × ℤ) (b d n dst : ℕ)
    → ((f : Fragment) → (create f).0 ≡ true)
    → 0 < n
    → b + d + n < 2 ^ 43
    → n < 2 ^ 32
    → dst + n ≤ 2 ^ 32
    → named (split_src frame create b d n dst).0 ≡ bytes frame (b + d) dst n
unfolding split_src
split_src-named frame create b d n dst ok some small word fits =
    let (left, pages, nonempty, total, in_page, whole, part, start) = pages_fit b d n some small in
    let low : dst % 2 ^ 32 ≡ dst = omega arith in
    ap₂
      (λ k x.
        named
          (split_from frame (end_size b d n) (2 ^ 32) create k (start_page b d) (start_offset b d)
            (start_size b d n) x).0)
      pages low
    ∙ split_from-named frame (end_size b d n) (2 ^ 32) create ok part left (start_page b d)
        (start_offset b d) (start_size b d n) dst in_page whole (omega arith) (omega arith)
    ∙ ap₂ (λ x y. bytes frame x dst y) start total
