-- ===== src/Mmap/Tests.antt =====
-- A buffer of four pages, and a tree of two locations.
use vfi.Prelude.{
  ℕ, ◌+◌, ◌-◌, ◌/◌, ◌^◌, ◌≡◌, refl, true, List, [], ◌∷◌, none, some, arith, get_elem?,
}
use vfi.Mmap.Ticket.{is_ticket}
use vfi.Mmap.Window.{Mapping, Created, Area, Code, mmap_create, mmap_file, nopage, nopage_serves}
use vfi.Mmap.Search.{
  Location, Locations, find_vfi_mmap_by_id, frm_by_loc, in_children, find_vfi_mmap_by_id_lem,
  scan_mmaps, all, answer,
}

abbrev four_pages : List ℕ
four_pages = 90 ∷ 91 ∷ 92 ∷ 93 ∷ []

abbrev two_pages : Mapping
two_pages = record { pg_tbl = 91 ∷ 92 ∷ 93 ∷ []; n_pg = 2 }

abbrev caller : Area
caller = record { vm_pgoff = 77; vm_start = 40960; vm_end = 49152; ticket = none }

abbrev served : Area
served = record { vm_pgoff = 0; vm_start = 40960; vm_end = 49152; ticket = some two_pages }

mmap_create-two : mmap_create four_pages 4 4096 5000 true ≡ Created.made two_pages
unfolding mmap_create
mmap_create-two = refl

mmap_file-caller : mmap_file (some two_pages) caller ≡ (Code.ok, served)
unfolding mmap_file
mmap_file-caller = refl

nopage_serves_example :
    (page : ℕ) × (nopage served 45056 ≡ some page)
    × (get_elem? four_pages (4096 / 2 ^ 12 + (45056 - 40960) / 2 ^ 12) ≡ some page)
nopage_serves_example =
    nopage_serves four_pages 4096 5000 two_pages caller served 45056 (omega arith) (omega arith)
      mmap_create-two mmap_file-caller (omega arith) (omega arith) (omega arith) refl

abbrev above : Location
above = Location.location Locations.leaf ((65537 ∷ []) ∷ [])

abbrev top : Location
top = Location.location (Locations.node above Locations.leaf) ((131074 ∷ 65539 ∷ []) ∷ [])

abbrev tree : Locations
tree = Locations.node top Locations.leaf

-- 65537 and 131074 have the same ticket: the mapping of the location below is found.
first_of_two : find_vfi_mmap_by_id none tree 0 ≡ (Code.ok, some 65537)
unfolding find_vfi_mmap_by_id frm_by_loc in_children is_ticket
first_of_two = refl

find_vfi_mmap_by_id_lem_example :
    find_vfi_mmap_by_id (some 5) tree 131072 ≡ answer (scan_mmaps 131072 (all tree))
find_vfi_mmap_by_id_lem_example = find_vfi_mmap_by_id_lem (some 5) top Locations.leaf 131072
