-- ===== src/Dma/Pages/Alloc.antt =====
-- What the allocation of a buffer's pages leaves behind, on every outcome.
use vfi.Prelude.{
  ℕ, zero, suc, ◌+◌, ◌<◌, ◌≡◌, refl, ap, ◌∙◌, ◌⊎◌, inl, inr, true, false, List, ◌++◌, Option, none,
  some, arith, length, replicate, take,
}
use native.Mathlib.Decide.{ℕ_discrete}
use vfi.Dma.Pages.{
  Smb, Pinned, ok, no_mem, pages_for, alloc_discontig, alloc_contig, finish_alloc, alloc_pages,
}
use vfi.Dma.Pages.Loops.{calls, NonNull, take_all, free_down-take, discontig_lem, contig_lem}

length-replicate : (n v : ℕ) → length (replicate n v) ≡ n
length-replicate zero v = refl
length-replicate (suc n) v = ap suc (length-replicate n v)

-- A kernel buffer that has no pages yet, with the page count that it will get.
abbrev pub IsNew : Smb → ℕ → Type 0
IsNew smb n = (smb.pages ≡ none) × (smb.address ≡ 0) × (n ≡ pages_for smb.size smb.offset)

-- The buffer with all its pages, and the buffer after a failure that gave `ps` back.
abbrev pub with_pages : Smb → ℕ → List ℕ → Smb
with_pages smb n ps = record smb { num_pages = n; pages = some ps }

abbrev pub given_back : Smb → List ℕ → Smb
given_back smb ps = record smb { num_pages = 0; freed = ps ++ smb.freed }

module _ (alloc : ℕ → ℕ) (user : Option Pinned) (smb : Smb) (n : ℕ) (new : IsNew smb n) where
  abbrev sized : Smb
  sized = record smb { num_pages = n }

  discontig_end :
      smb.discontig ≡ true
      → let (page, ary) = alloc_discontig alloc n 0 (replicate n 0) in
        alloc_pages alloc true user smb ≡ finish_alloc sized page ary
  unfolding alloc_pages
  discontig_end d = let (fresh, kernel, e) = new in ground arith

  contig_end :
      smb.discontig ≡ false
      → let (page, ary) = alloc_contig alloc n 0 (replicate n 0) in
        alloc_pages alloc true user smb ≡ finish_alloc sized page ary
  unfolding alloc_pages
  contig_end d = let (fresh, kernel, e) = new in ground arith

  finish_all :
      (page : ℕ) (ary : List ℕ)
      → page ≡ n
      → length ary ≡ n
      → take page ary ≡ calls alloc 0 page
      → finish_alloc sized page ary ≡ (ok, with_pages smb n (calls alloc 0 n))
  unfolding finish_alloc
  finish_all page ary p l t = ground (arith, take_all n ary l)

  finish_part :
      (page : ℕ) (ary : List ℕ)
      → page < n
      → length ary ≡ n
      → take page ary ≡ calls alloc 0 page
      → finish_alloc sized page ary ≡ (no_mem, given_back smb (calls alloc 0 page))
  unfolding finish_alloc
  finish_part page ary p l t = ground (arith, free_down-take page ary smb.freed)

-- A discontiguous buffer gets every page it needs, none of them NULL; or, when a call of the
-- allocator returns NULL, it gets -ENOMEM, and exactly the pages given before go back.
pub alloc_discontig_pages :
    (alloc : ℕ → ℕ) (user : Option Pinned) (smb : Smb) (n : ℕ)
    → IsNew smb n
    → smb.discontig ≡ true
    → (k : ℕ) × NonNull (calls alloc 0 k)
      × (((k ≡ n) × (alloc_pages alloc true user smb ≡ (ok, with_pages smb n (calls alloc 0 n))))
          ⊎ ((k < n)
              × (alloc k ≡ 0)
              × (alloc_pages alloc true user smb ≡ (no_mem, given_back smb (calls alloc 0 k)))))
alloc_discontig_pages alloc user smb n new d =
    let (page, ary) = alloc_discontig alloc n 0 (replicate n 0) in
    let o =
      discontig_lem alloc n n 0 (replicate n 0) tt (omega arith) (length-replicate n 0) refl in
    let l = o.size in
    let run = discontig_end alloc user smb n new d in
    (
      page,
      o.filled.good,
      elim (ℕ_discrete page n) [
        | yes p ↦ inl (p, run ∙ finish_all alloc user smb n new page ary p l o.entries)
        | no np ↦
            let less : page < n = omega (arith, o.filled.upto) in
            inr (
              less,
              o.filled.bad less,
              run ∙ finish_part alloc user smb n new page ary less l o.entries,
            )
      ],
    )

-- A buffer for which no option asks for single pages gets all its pages too, or -ENOMEM, with one
-- NULL given back behind the pages; but if it is the very last call that returns NULL, the function
-- reports success and the last entry of the buffer's pages is NULL.
pub alloc_contig_pages :
    (alloc : ℕ → ℕ) (user : Option Pinned) (smb : Smb) (n : ℕ)
    → IsNew smb n
    → smb.discontig ≡ false
    → (k : ℕ) × NonNull (calls alloc 0 k)
      × (((k ≡ n) × (alloc_pages alloc true user smb ≡ (ok, with_pages smb n (calls alloc 0 n))))
          ⊎ ((k + 1 < n)
              × (alloc k ≡ 0)
              × (alloc_pages alloc true user smb
                  ≡ (no_mem, given_back smb (calls alloc 0 (k + 1)))))
          ⊎ ((k + 1 ≡ n)
              × (alloc k ≡ 0)
              × (alloc_pages alloc true user smb ≡ (ok, with_pages smb n (calls alloc 0 n)))))
alloc_contig_pages alloc user smb n new d =
    let (page, ary) = alloc_contig alloc n 0 (replicate n 0) in
    let o = contig_lem alloc n n 0 (replicate n 0) tt (omega arith) (length-replicate n 0) refl in
    let l = o.size in
    let run = contig_end alloc user smb n new d in
    (
      o.call,
      o.filled.good,
      elim (ℕ_discrete o.call n) [
        | yes p ↦
            inl (
              p,
              run ∙ finish_all alloc user smb n new page ary (ground (arith, o.step)) l o.entries,
            )
        | no np ↦
            let less : o.call < n = omega (arith, o.filled.upto) in
            let at : page ≡ o.call + 1 = ground (arith, o.step) in
            elim (ℕ_discrete page n) [
              | yes p ↦ inr (
                  inr (
                    omega arith,
                    o.filled.bad less,
                    run ∙ finish_all alloc user smb n new page ary p l o.entries,
                  ))
              | no nq ↦
                  let some_left : page < n = omega arith in
                  inr (
                    inl (
                      omega arith,
                      o.filled.bad less,
                      run
                          ∙ finish_part alloc user smb n new page ary some_left l o.entries
                          ∙ ap (λ m. (no_mem, given_back smb (calls alloc 0 m))) at,
                    ))
            ]
      ],
    )
