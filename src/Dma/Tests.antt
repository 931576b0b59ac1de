-- ===== src/Dma/Tests.antt =====
-- Runs of the engine table and of the page allocator on concrete values.
use vfi.Prelude.{
  ℕ, ◌+◌, ◌*◌, ◌≡◌, ◌⊎◌, ◌<◌, refl, [], ◌∷◌, true, false, none, some, if◌then◌else◌, ltb, replicate,
  str_eq,
}
use vfi.Dma.Registry.{
  Engine, Slots, register, ok, exists, no_mem, table, Named, max_engines, register_lem,
}
use vfi.Dma.Pages.{Smb, alloc_pages, pages_for, Code}
use vfi.Dma.Pages.Loops.{calls, NonNull}
use vfi.Dma.Pages.Alloc.{with_pages, given_back, alloc_discontig_pages, alloc_contig_pages}

abbrev rio : Engine
rio = record { name = b'r' ∷ b'i' ∷ b'o' ∷ []; live = true }

abbrev net : Engine
net = record { name = b'n' ∷ b'e' ∷ b't' ∷ []; live = true }

abbrev two_engines : Slots
two_engines = table (rio ∷ net ∷ []) 3

registered : register (register (replicate max_engines none) rio).1 net ≡ (ok, two_engines)
unfolding register str_eq
registered = refl

register_lem_example :
    (Named net.name (rio ∷ net ∷ []) → register two_engines net ≡ (exists, two_engines))
    × ((Named net.name (rio ∷ net ∷ []) → ⊥)
        → (register (table (rio ∷ net ∷ []) 4) net ≡ (ok, table (rio ∷ net ∷ net ∷ []) 3))
          × (register (table (rio ∷ net ∷ []) 0) net ≡ (no_mem, table (rio ∷ net ∷ []) 0)))
register_lem_example = register_lem (rio ∷ net ∷ []) 3 net

-- A buffer of 8193 bytes takes three pages.
abbrev new_buffer : Smb
new_buffer = record {
  size = 8193;
  offset = 0;
  address = 0;
  discontig = true;
  num_pages = 0;
  pages = none;
  freed = [];
}

-- The allocator has two pages left.
abbrev two_left : ℕ → ℕ
two_left i = if ltb i 2 then 0x1000 * (i + 1) else 0

alloc_discontig_pages_example :
    (k : ℕ) × NonNull (calls two_left 0 k)
    × (((k ≡ 3)
          × (alloc_pages two_left true none new_buffer
              ≡ (Code.ok, with_pages new_buffer 3 (calls two_left 0 3))))
        ⊎ ((k < 3)
            × (two_left k ≡ 0)
            × (alloc_pages two_left true none new_buffer
                ≡ (Code.no_mem, given_back new_buffer (calls two_left 0 k)))))
unfolding pages_for
alloc_discontig_pages_example =
    alloc_discontig_pages two_left none new_buffer 3 (refl, refl, refl) refl

null_page_kept : alloc_pages two_left true none (record new_buffer { discontig = false }) ≡ (
  Code.ok,
  record new_buffer { discontig = false; num_pages = 3; pages = some (0x1000 ∷ 0x2000 ∷ 0 ∷ []) },
)
unfolding alloc_pages
null_page_kept = refl

abbrev contiguous : Smb
contiguous = record new_buffer { discontig = false }

alloc_contig_pages_example :
    (k : ℕ) × NonNull (calls two_left 0 k)
    × (((k ≡ 3)
          × (alloc_pages two_left true none contiguous
              ≡ (Code.ok, with_pages contiguous 3 (calls two_left 0 3))))
        ⊎ ((k + 1 < 3)
            × (two_left k ≡ 0)
            × (alloc_pages two_left true none contiguous
                ≡ (Code.no_mem, given_back contiguous (calls two_left 0 (k + 1)))))
        ⊎ ((k + 1 ≡ 3)
            × (two_left k ≡ 0)
            × (alloc_pages two_left true none contiguous
                ≡ (Code.ok, with_pages contiguous 3 (calls two_left 0 3)))))
unfolding pages_for
alloc_contig_pages_example = alloc_contig_pages two_left none contiguous 3 (refl, refl, refl) refl
