-- ===== src/Mmap/Search.antt =====
-- The search for the mapping of a ticket in the tree of locations. A mapping is named by its
-- address.
use vfi.Prelude.{
  ℕ, ◌≡◌, refl, ap, sym, ◌∙◌, List, [], ◌∷◌, ◌++◌, Option, none, some, arith, if◌then◌else◌,
}
use vfi.Mmap.Ticket.{is_ticket}
use vfi.Mmap.Window.{Code}

-- A location holds the locations below it and its buffers; a buffer is the list of its mappings.
mutual
  pub data Location : Type 0 where
    location : Locations → List (List ℕ) → Location

  pub data Locations : Type 0 where
    leaf : Locations
    node : Location → Locations → Locations

-- The first of two results that is not NULL.
abbrev pub or_else : Option ℕ → Option ℕ → Option ℕ
or_else (some m) next = some m
or_else none next = next

-- The loops over the mappings of a buffer and over the buffers of a location.
abbrev pub scan_mmaps : ℕ → List ℕ → Option ℕ
scan_mmaps tid [] = none
scan_mmaps tid (m ∷ ms) = if is_ticket m tid then some m else scan_mmaps tid ms

abbrev pub scan_smbs : ℕ → List (List ℕ) → Option ℕ
scan_smbs tid [] = none
scan_smbs tid (smb ∷ smbs) = or_else (scan_mmaps tid smb) (scan_smbs tid smbs)

unfoldable mutual
  pub frm_by_loc : Location → ℕ → Option ℕ
  frm_by_loc (location children smbs) tid = or_else (in_children children tid) (scan_smbs tid smbs)

  pub in_children : Locations → ℕ → Option ℕ
  in_children leaf tid = none
  in_children (node loc rest) tid = or_else (frm_by_loc loc tid) (in_children rest tid)

-- The result, and what the caller's pointer holds then. `old` is what it held: the pointer is
-- written only inside the loop.
unfoldable pub find_vfi_mmap_by_id : Option ℕ → Locations → ℕ → Code × Option ℕ
find_vfi_mmap_by_id old leaf tid = (Code.inval, old)
find_vfi_mmap_by_id old (node loc rest) tid = elim (frm_by_loc loc tid) [
  | some m ↦ (Code.ok, some m)
  | none ↦ find_vfi_mmap_by_id none rest tid
]

-- All the mappings, those of the locations below a location before its own.
abbrev pub concat : List (List ℕ) → List ℕ
concat [] = []
concat (xs ∷ xss) = xs ++ concat xss

abbrev mutual
  pub below : Location → List ℕ
  below (location children smbs) = all children ++ concat smbs

  pub all : Locations → List ℕ
  all leaf = []
  all (node loc rest) = below loc ++ all rest

scan-append :
    (tid : ℕ) (xs ys : List ℕ)
    → scan_mmaps tid (xs ++ ys) ≡ or_else (scan_mmaps tid xs) (scan_mmaps tid ys)
scan-append tid [] ys = refl
scan-append tid (x ∷ xs) ys = ground (arith, scan-append tid xs ys)

scan_smbs-concat :
    (tid : ℕ) (smbs : List (List ℕ)) → scan_smbs tid smbs ≡ scan_mmaps tid (concat smbs)
scan_smbs-concat tid [] = refl
scan_smbs-concat tid (smb ∷ smbs) =
    rw (scan_smbs-concat tid smbs) (sym (scan-append tid smb (concat smbs)))

mutual
  unfolding frm_by_loc in_children

  frm_by_loc-below : (loc : Location) (tid : ℕ) → frm_by_loc loc tid ≡ scan_mmaps tid (below loc)
  frm_by_loc-below (location children smbs) tid =
      rw (in_children-all children tid, scan_smbs-concat tid smbs)
        (sym (scan-append tid (all children) (concat smbs)))

  in_children-all : (locs : Locations) (tid : ℕ) → in_children locs tid ≡ scan_mmaps tid (all locs)
  in_children-all leaf tid = refl
  in_children-all (node loc rest) tid =
      rw (frm_by_loc-below loc tid, in_children-all rest tid)
        (sym (scan-append tid (below loc) (all rest)))

-- The result that goes with what was found.
abbrev pub answer : Option ℕ → Code × Option ℕ
answer none = (Code.inval, none)
answer (some m) = (Code.ok, some m)

search_lem :
    (old : Option ℕ) (loc : Location) (rest : Locations) (tid : ℕ)
    → find_vfi_mmap_by_id old (node loc rest) tid ≡ answer (in_children (node loc rest) tid)
unfolding find_vfi_mmap_by_id in_children
search_lem old loc leaf tid = ground arith
search_lem old loc (node next rest) tid = ground (arith, search_lem none next rest tid)

-- With at least one location under the root, the search of the tree gives the first mapping that
-- accepts the ticket, in the order that lists the locations below a location before its own
-- buffers, and an error and NULL if no mapping accepts it.
pub find_vfi_mmap_by_id_lem :
    (old : Option ℕ) (loc : Location) (rest : Locations) (tid : ℕ)
    → find_vfi_mmap_by_id old (node loc rest) tid ≡ answer (scan_mmaps tid (all (node loc rest)))
find_vfi_mmap_by_id_lem old loc rest tid =
    search_lem old loc rest tid ∙ ap answer (in_children-all (node loc rest) tid)
