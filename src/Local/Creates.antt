-- ===== src/Local/Creates.antt =====
-- The members of vfi_local_ops.c that create objects of this board, apart from binds and their ends.
use vfi.Prelude.{
  ℕ, ◌+◌, ◌-◌, ◌*◌, ◌/◌, ◌%◌, ◌^◌, List, [], ◌∷◌, ◌++◌, Option, none, some, if◌then◌else◌, ltb,
  ◌==◌, bytes,
}
use vfi.Ops.Model.{
  ℤ, pos, is_zero, einval, Op, Desc, BindDesc, a_location, a_smb, a_mmap, a_xfer, a_sync, a_dst,
  a_src, Object, Lookup,
}
use vfi.Parse.Desc.{get_option}
use vfi.Forward.Model.{eexist, enomem}
use vfi.Local.Model.{
  Site, Effect, found, put, made, deleted, asked, extent_set, registered, Run, run, before, finding,
  making,
}

-- A new location gives its extent to a parent without one, and its address is registered.
abbrev pub adopted : Site → Option Object → Object → List Effect
adopted t none new = if t.has_address new then registered new ∷ [] else []
adopted t (some loc) new =
    let set = if (t.desc loc).extent == 0 then extent_set loc (t.desc new).extent ∷ [] else [] in
    set ++ (if t.has_address new then registered new ∷ [] else [])

abbrev pub location_made : Site → Option Object → Lookup → Run
location_made t loc c =
    if is_zero c.ret
    then run c.ret c.obj
        (making a_location c ++ elim c.obj [ none ↦ [] | some new ↦ adopted t loc new ])
    else run c.ret c.obj (making a_location c)

unfoldable pub local_location_create : Site → Option Object → Desc → Run
local_location_create t loc d =
    let old = t.find_vfi_name loc d in
    if is_zero old.ret
    then run eexist none (elim old.obj [ none ↦ [] | some o ↦ found o ∷ put o ∷ [] ])
    else location_made t loc (t.create_location loc d)

-- The buffer of an smb: offset and extent of its description, its size, and the address of the
-- user's memory that it takes its pages from, 0 if it has pages of its own.
pub record Buffer : Type 0 where
  pub offset : ℕ
  pub extent : ℕ
  pub address : ℕ

-- The extent, or that of the option `map_extent`.
abbrev pub buffer_extent : Site → Desc → Option ℕ
buffer_extent t d =
    if d.extent == 0
    then (elim (get_option d.query (bytes "map_extent")) [
      | none ↦ none
      | some s ↦ some ((t.strtoul s).0 % 2 ^ 32)
    ])
    else some d.extent

-- A buffer at an address of the user's begins at a page, and its offset is that of the address in it.
abbrev pub at_address : Option (ℕ × List ℕ) → ℕ → ℕ → Buffer
at_address none offset extent = record { offset = offset; extent = extent; address = 0 }
at_address (some (a, more)) offset extent = record {
  offset = (offset + a % 4096) % 2 ^ 64;
  extent = (extent + a % 4096) % 2 ^ 32;
  address = a / 4096 * 4096;
}

abbrev pub map_address : Site → Desc → Option (ℕ × List ℕ)
map_address t d = elim (get_option d.query (bytes "map_address")) [
  | none ↦ none
  | some s ↦ some (t.strtoul s)
]

-- The buffer that a description asks for, or a result without one, which is 0 if it names no extent.
pub data Sized : Type 0 where
  sized : Buffer → Sized
  unsized : ℤ → Sized

abbrev pub fitting : Buffer → Sized
fitting buf = if ltb (4096 - 32) buf.offset then unsized einval else sized buf

abbrev pub size_by : Option (ℕ × List ℕ) → ℕ → Option ℕ → Sized
size_by address offset none = unsized (pos 0)
size_by address offset (some extent) = fitting (at_address address offset extent)

unfoldable pub smb_size : Site → Desc → Sized
smb_size t d = size_by (map_address t d) d.offset (buffer_extent t d)

-- The pages are allocated by `vfi_alloc_pages`.
abbrev pub smb_paged : Object → ℤ → Run
smb_paged smb r =
    if is_zero r then run (pos 0) (some smb) [] else run r none (deleted a_smb smb ∷ [])

abbrev pub smb_made : Site → (Object → Buffer → ℤ) → Object → Run
smb_made t vfi_alloc_pages smb = elim (smb_size t (t.desc smb)) [
  | unsized r ↦ run r none (deleted a_smb smb ∷ [])
  | sized buf ↦ smb_paged smb (vfi_alloc_pages smb buf)
]

unfoldable pub local_smb_create : Site → (Object → Buffer → ℤ) → Object → Desc → Run
unfolding smb_size
local_smb_create t vfi_alloc_pages loc d =
    let c = t.create a_smb loc d in
    if is_zero c.ret
    then (elim c.obj [
      | none ↦ run (pos 0) none []
      | some smb ↦ before (made a_smb smb ∷ []) (smb_made t vfi_alloc_pages smb)
    ])
    else run c.ret none []

unfoldable pub local_mmap_create : Site → Object → Desc → Run
local_mmap_create t smb d =
    let old = t.find_vfi_mmap_in smb d in
    let c = t.create a_mmap smb d in
    if is_zero old.ret then run (pos 0) old.obj (finding old) else run c.ret c.obj (making a_mmap c)

-- The transfer itself begins empty; the command's offset and extent are put back after that.
unfoldable pub local_xfer_create : Site → Object → Desc → Run
local_xfer_create t loc d =
    let c = t.create a_xfer loc (record d { offset = 0; extent = 0 }) in
    run c.ret c.obj (making a_xfer c)

unfoldable pub local_sync_create : Site → Object → Desc → Run
local_sync_create t loc d = let c = t.create a_sync loc d in run c.ret c.obj (making a_sync c)

unfoldable pub local_src_create : Site → Object → BindDesc → Run
local_src_create t parent d =
    let c = t.create_bind a_src parent d in run c.ret c.obj (making a_src c)

-- The sources of a new dst are created on the board of the src.
abbrev pub dst_sourced : Site → BindDesc → Object → Run
dst_sourced t d dst =
    let r = t.create_part Op.srcs_create dst d in
    let failed = if is_zero r.ret then enomem else r.ret in
    elim (if is_zero r.ret then r.obj else none) [
      | none ↦ run failed none (asked Op.srcs_create dst ∷ put dst ∷ [])
      | some srcs ↦ run (pos 0) (some dst) (asked Op.srcs_create dst ∷ [])
    ]

unfoldable pub local_dst_create : Site → Object → BindDesc → Run
local_dst_create t parent d =
    let c = t.create_bind a_dst parent d in
    if is_zero c.ret
    then (elim c.obj [
      | none ↦ run enomem none []
      | some dst ↦ before (made a_dst dst ∷ []) (dst_sourced t d dst)
    ])
    else run c.ret c.obj (making a_dst c)
