-- ===== src/Mmap/Window.antt =====
-- The part of a buffer's page table that a mapping covers, and the page faults that it serves.
use vfi.Prelude.{
  ℕ, ◌+◌, ◌-◌, ◌*◌, ◌/◌, ◌%◌, ◌^◌, ◌≤◌, ◌<◌, ◌≡◌, Bool, true, List, Option, none, some, arith, ltb,
  leb, if◌then◌else◌, length, drop, get_elem?, get_elem?-drop, get_elem?-some,
}

-- `struct vfi_mmap`: the pages from `pg_tbl` on, of which `n_pg` belong to the mapping.
pub record Mapping : Type 0 where
  pub pg_tbl : List ℕ
  pub n_pg : ℕ

-- What `vfi_mmap_create` does: it returns 0 and makes no object, it makes one, or `new_vfi_mmap`
-- fails.
pub data Created : Type 0 where
  skipped : Created
  made : Mapping → Created
  failed : Created

-- Arithmetic of `unsigned long`.
abbrev pub add_long : ℕ → ℕ → ℕ
add_long a b = (a + b) % 2 ^ 32

abbrev pub sub_long : ℕ → ℕ → ℕ
sub_long a b = (a + 2 ^ 32 - b) % 2 ^ 32

-- The page table and size of the buffer, and the offset (u64) and extent of the command. `new_given`
-- says whether the object could be made.
unfoldable pub mmap_create : List ℕ → ℕ → ℕ → ℕ → Bool → Created
mmap_create pages n_pg offset64 extent new_given =
    let offset = offset64 % 2 ^ 32 in
    let firstpage = offset / 2 ^ 12 in
    let lastpage = sub_long (add_long offset extent) 1 / 2 ^ 12 in
    if leb n_pg lastpage
    then skipped
    else if new_given
    then made
        (record { pg_tbl = drop firstpage pages; n_pg = add_long (sub_long lastpage firstpage) 1 })
    else failed

-- The `vm_area_struct` of a caller of mmap(2); `ticket` is its private data.
pub record Area : Type 0 where
  pub vm_pgoff : ℕ
  pub vm_start : ℕ
  pub vm_end : ℕ
  pub ticket : Option Mapping

pub data Code : Type 0 where
  ok inval : Code

-- `vfi_mmap` of the device file, after the search for the ticket of `vm_pgoff`.
unfoldable pub mmap_file : Option Mapping → Area → Code × Area
mmap_file none vma = (inval, vma)
mmap_file (some tkt) vma =
    if ltb tkt.n_pg (sub_long vma.vm_end vma.vm_start / 2 ^ 12)
    then (inval, vma)
    else elim vma.ticket [
      | some _ ↦ (inval, vma)
      | none ↦ (ok, record vma { vm_pgoff = 0; ticket = some tkt })
    ]

-- `vfi_mmap_nopage`: the page for an address, or none.
unfoldable pub nopage : Area → ℕ → Option ℕ
nopage vma address = elim vma.ticket [
  | none ↦ none
  | some tkt ↦
      let pg_off = sub_long address vma.vm_start / 2 ^ 12 in
      if leb tkt.n_pg pg_off then none else get_elem? tkt.pg_tbl pg_off
]

-- A mapping of `extent` bytes at `offset`, which do not go past the end of the 32-bit range, lies in
-- the page table, begins with the page of the offset, and covers the bytes.
pub mmap_create_covers :
    (pages : List ℕ) (offset extent : ℕ) (m : Mapping)
    → 0 < extent
    → offset + extent ≤ 2 ^ 32
    → mmap_create pages (length pages) offset extent true ≡ made m
    → (m.pg_tbl ≡ drop (offset / 2 ^ 12) pages)
      × (offset / 2 ^ 12 + m.n_pg ≤ length pages)
      × (offset + extent ≤ (offset / 2 ^ 12 + m.n_pg) * 2 ^ 12)
unfolding mmap_create
mmap_create_covers pages offset extent m pos small e = ground arith

-- A page fault inside an area that the device file has accepted for such a mapping is served by the
-- page of the buffer that lies as far behind the offset.
pub nopage_serves :
    (pages : List ℕ) (offset extent : ℕ) (m : Mapping) (vma vma' : Area) (address : ℕ)
    → 0 < extent
    → offset + extent ≤ 2 ^ 32
    → mmap_create pages (length pages) offset extent true ≡ made m
    → mmap_file (some m) vma ≡ (ok, vma')
    → vma.vm_start ≤ address
    → address < vma.vm_end
    → vma.vm_end < 2 ^ 32
    → (vma.vm_end - vma.vm_start) % 2 ^ 12 ≡ 0
    → (page : ℕ) × (nopage vma' address ≡ some page)
      × (get_elem? pages (offset / 2 ^ 12 + (address - vma.vm_start) / 2 ^ 12) ≡ some page)
unfolding mmap_file nopage
nopage_serves pages offset extent m vma vma' address pos small made_m accepted from upto fits
      whole =
    let c = mmap_create_covers pages offset extent m pos small made_m in
    let i = (address - vma.vm_start) / 2 ^ 12 in
    let near : i < m.n_pg = ground (arith, accepted, whole) in
    let in_table : offset / 2 ^ 12 + i < length pages = omega (arith, c.1) in
    let found = get_elem?-some pages (offset / 2 ^ 12 + i) in_table in
    (found.0, ground (arith, c.0, get_elem?-drop pages (offset / 2 ^ 12) i, found.1), found.1)

-- A request whose offset and extent add up to just over 2 ^ 32 is accepted for a buffer that ends
-- before the offset: the mapping then begins behind the page table.
pub mmap_create_wraps :
    (pages : List ℕ) (offset over : ℕ)
    → 1 < length pages
    → length pages * 2 ^ 12 ≤ offset
    → offset < 2 ^ 32
    → 0 < over
    → over ≤ 2 ^ 12
    → (m : Mapping) × (mmap_create pages (length pages) offset (2 ^ 32 + over - offset) true
        ≡ made m)
      × (length pages ≤ offset / 2 ^ 12)
      × (0 < m.n_pg)
unfolding mmap_create
mmap_create_wraps pages offset over some_page past word pos small = (
  record { pg_tbl = drop (offset / 2 ^ 12) pages; n_pg = 2 ^ 32 + 1 - offset / 2 ^ 12 },
  ground (arith, off, rest),
  omega arith,
  omega arith,
)
  where
    off : offset % 2 ^ 32 ≡ offset
    off = omega arith

    rest : sub_long (add_long offset (2 ^ 32 + over - offset)) 1 / 2 ^ 12 ≡ 0
    rest = omega arith
