-- ===== src/Dma/Pages.antt =====
-- The pages of a shared memory buffer: `vfi_alloc_pages` and `vfi_dealloc_pages` (vfi_dma.c).
-- The kernel's allocator and `get_user_pages` are parameters; a page is a number, NULL is 0.
pub mod Loops
pub mod Alloc
use vfi.Prelude.{
  ℕ, zero, suc, ◌+◌, ◌-◌, ◌/◌, ◌%◌, ◌^◌, ◌≤◌, ◌<◌, ◌≡◌, ◌≢◌, refl, Bool, true, false, not, List, [],
  ◌∷◌, Option, none, some, arith, ◌==◌, if◌then◌else◌, length, set, replicate, get_or,
}

-- The fields of `struct vfi_smb` that the two functions use; `freed` lists the pages given back to
-- the kernel by `__free_pages` and `page_cache_release`, the last one first.
pub record Smb : Type 0 where
  pub size : ℕ
  pub offset : ℕ
  pub address : ℕ
  pub discontig : Bool
  pub num_pages : ℕ
  pub pages : Option (List ℕ)
  pub freed : List ℕ

-- What `get_user_pages` does: it pins the pages, or returns a negative error.
pub data Pinned : Type 0 where
  pinned : List ℕ → Pinned
  refused : Pinned

-- `fault` is the walk below index 0 of `page_ary`.
pub data Code : Type 0 where
  ok inval no_mem fault : Code

-- size_t addition, and `((n) >> PAGE_SHIFT) + ((n) & ~PAGE_MASK ? 1 : 0)`.
unfoldable pub pages_for : ℕ → ℕ → ℕ
pages_for size offset =
    let n = (size + offset) % 2 ^ 32 in n / 4096 + (if n % 4096 == 0 then 0 else 1)

-- The loop over a discontiguous buffer: `page` counts the pages that the allocator gave. The
-- argument `left` is `num_pages - page`.
unfoldable pub alloc_discontig : (ℕ → ℕ) → ℕ → ℕ → List ℕ → ℕ × List ℕ
alloc_discontig alloc zero page ary = (page, ary)
alloc_discontig alloc (suc left) page ary =
    let rest = alloc_discontig alloc left (page + 1) (set ary page (alloc page)) in
    if alloc page == 0 then (page, set ary page 0) else rest

-- The other loop: `page_ary[page++] = alloc_page(...)` steps `page` before it looks at the result.
unfoldable pub alloc_contig : (ℕ → ℕ) → ℕ → ℕ → List ℕ → ℕ × List ℕ
alloc_contig alloc zero page ary = (page, ary)
alloc_contig alloc (suc left) page ary =
    let rest = alloc_contig alloc left (page + 1) (set ary page (alloc page)) in
    if alloc page == 0 then (page + 1, set ary page 0) else rest

-- `while (page--) __free_pages(page_ary[page],0)`
unfoldable pub free_down : ℕ → List ℕ → List ℕ → List ℕ
free_down zero ary freed = freed
free_down (suc page) ary freed = free_down page ary (get_or ary page 0 ∷ freed)

-- The end of `vfi_alloc_pages`, for `page` pages in `ary`.
unfoldable pub finish_alloc : Smb → ℕ → List ℕ → Code × Smb
unfolding free_down
finish_alloc smb page ary =
    if page == smb.num_pages
    then (ok, record smb { pages = some ary })
    else (no_mem, record smb { num_pages = 0; freed = free_down page ary smb.freed })

-- Pages of the process named by the `mytid` option, if there is such a process.
pin_pages : Smb → Option Pinned → Code × Smb
unfolding finish_alloc
pin_pages smb none = finish_alloc smb 0 (replicate smb.num_pages 0)
pin_pages smb (some (pinned ps)) = finish_alloc smb (length ps) ps
pin_pages smb (some refused) = (fault, smb)

-- `alloc i` is what the call for page `i` of the allocator returns, and `ary_given` says whether
-- there is memory for `page_ary`.
unfoldable pub alloc_pages : (ℕ → ℕ) → Bool → Option Pinned → Smb → Code × Smb
unfolding pages_for alloc_discontig alloc_contig finish_alloc pin_pages
alloc_pages alloc ary_given user smb = elim smb.pages [
  | some _ ↦ (inval, smb)
  | none ↦
      let n = pages_for smb.size smb.offset in
      let smb' : Smb = record smb { num_pages = n } in
      if not ary_given
      then (no_mem, smb')
      else if not (smb.address == 0)
      then pin_pages smb' user
      else let (page, ary) =
          if smb.discontig
          then alloc_discontig alloc n 0 (replicate n 0)
          else alloc_contig alloc n 0 (replicate n 0) in
        finish_alloc smb' page ary
]

-- `vfi_dealloc_pages`: every page goes back, the last one first. Its caller tests `pages` and frees
-- the object next; the model leaves it without pages.
unfoldable pub dealloc_pages : Smb → Smb
unfolding free_down
dealloc_pages smb = elim smb.pages [
  | none ↦ smb
  | some ary ↦ record smb {
    num_pages = 0;
    pages = none;
    freed = free_down smb.num_pages ary smb.freed;
  }
]
