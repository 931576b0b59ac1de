-- ===== src/Local/Finds.antt =====
-- The members of vfi_local_ops.c that find, put and lose objects of this board.
use vfi.Prelude.{ℕ, ◌&&◌, List, [], ◌∷◌, ◌++◌, Option, none, some, if◌then◌else◌, ltb, length}
use vfi.Ops.Model.{
  ℤ, pos, is_zero, einval, Desc, BindDesc, a_smb, a_mmap, a_xfer, a_sync, a_bind, a_src, Object,
}
use vfi.Local.Model.{Site, found, put, Run, run, finding}

unfoldable pub local_location_find : Site → Option Object → Desc → Run
local_location_find t loc d = let l = t.find_vfi_name loc d in run l.ret l.obj (finding l)

-- The reference of the search and the one that the sender of the command holds.
unfoldable pub local_location_put : Site → Option Object → Desc → Run
local_location_put t loc d =
    let l = t.find_vfi_name loc d in
    if is_zero l.ret
    then run (pos 0) none (elim l.obj [ none ↦ [] | some o ↦ found o ∷ put o ∷ put o ∷ [] ])
    else run (pos 0) none []

unfoldable pub local_location_lose : Run
local_location_lose = run (pos 0) none []

-- A search by name; `missing` is the result if there is no such object.
abbrev pub taken : ℤ → Option Object → Run
taken missing none = run missing none []
taken missing (some o) = run (pos 0) (some o) (found o ∷ [])

unfoldable pub local_smb_find : Site → Object → Desc → Run
local_smb_find t parent d = taken einval (t.kset_find_obj parent a_smb d.name)

unfoldable pub local_smb_put : Object → Run
local_smb_put smb = run (pos 0) none (put smb ∷ [])

unfoldable pub local_smb_lose : Object → Run
local_smb_lose smb = run (pos 0) none (put smb ∷ [])

unfoldable pub local_xfer_find : Site → Object → Desc → Run
local_xfer_find t parent d = taken (pos 1) (t.kset_find_obj parent a_xfer d.name)

unfoldable pub local_xfer_put : Object → Run
local_xfer_put xfer = run (pos 0) none (put xfer ∷ [])

unfoldable pub local_xfer_lose : Object → Run
local_xfer_lose xfer = run (pos 0) none (put xfer ∷ [])

unfoldable pub local_sync_find : Site → Object → Desc → Run
local_sync_find t parent d =
    if t.has_set parent a_sync
    then taken (pos 1) (t.kset_find_obj parent a_sync d.name)
    else run einval none []

unfoldable pub local_sync_put : Object → Run
local_sync_put sync = run (pos 0) none (put sync ∷ [])

unfoldable pub local_sync_lose : Run
local_sync_lose = run (pos 0) none []

-- The name "#%llx:%x" of a part of an object; `snprintf` cuts it to its buffer.
abbrev pub part_name : (ℕ → List ℕ) → Desc → List ℕ
part_name hex d = 35 ∷ (hex d.offset ++ 58 ∷ hex d.extent)

unfoldable pub local_mmap_find : Site → Option Object → Desc → Run
local_mmap_find t none d = run (pos 1) none []
local_mmap_find t (some parent) d =
    taken (pos 1) (t.kset_find_obj parent a_mmap (part_name t.hex d))

unfoldable pub local_mmap_put : Object → Run
local_mmap_put mmap = run (pos 0) none (put mmap ∷ [])

unfoldable pub local_bind_find : Site → Object → Desc → Run
local_bind_find t parent d =
    let name = part_name t.hex d in
    if ltb 128 (length name)
    then run (pos 1) none []
    else taken (pos 1) (t.kset_find_obj parent a_bind name)

unfoldable pub local_src_find : Site → Object → BindDesc → Run
local_src_find t parent d =
    let name = part_name t.hex d.src in
    if t.kzalloc && ltb (length name) 2048
    then taken (pos 1) (t.kset_find_obj parent a_src name)
    else run (pos 1) none []
