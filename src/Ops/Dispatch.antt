-- ===== src/Ops/Dispatch.antt =====
-- `do_operation`: the command line is split at "://", and the handler of the name before it gets what
-- stands behind it.
use Prim.Native.String.{String}
use vfi.Prelude.{
  ℕ, ◌+◌, Bool, true, false, List, [], ◌∷◌, ◌++◌, Option, none, some, if◌then◌else◌, ltb, take,
  drop, str_eq, bytes, strstr,
}
use vfi.Ops.Model.{Op, Driver, Outcome}
use vfi.Ops.Places
use vfi.Ops.Buffers
use vfi.Ops.Transfers
use vfi.Ops.Binds

-- The function of a row of the table.
abbrev pub handler : Op → Driver → List ℕ → Bool → Option Outcome
handler Op.event_start = Places.event_start
handler Op.event_find = Places.event_find
handler Op.event_chain = Places.event_chain
handler Op.location_create = Places.location_create
handler Op.location_delete = Places.location_delete
handler Op.location_find = Places.location_find
handler Op.location_put = Places.location_put
handler Op.smb_create = Buffers.smb_create
handler Op.smb_delete = Buffers.smb_delete
handler Op.smb_find = Buffers.smb_find
handler Op.smb_put = Buffers.smb_put
handler Op.smb_lose = Buffers.smb_lose
handler Op.mmap_create = Buffers.mmap_create
handler Op.mmap_delete = Buffers.mmap_delete
handler Op.mmap_find = Buffers.mmap_find
handler Op.mmap_put = Buffers.mmap_put
handler Op.sync_create = Transfers.sync_create
handler Op.sync_delete = Transfers.sync_delete
handler Op.sync_find = Transfers.sync_find
handler Op.sync_put = Transfers.sync_put
handler Op.sync_send = Transfers.sync_send
handler Op.sync_wait = Transfers.sync_wait
handler Op.xfer_create = Transfers.xfer_create
handler Op.xfer_delete = Transfers.xfer_delete
handler Op.xfer_find = Transfers.xfer_find
handler Op.xfer_put = Transfers.xfer_put
handler Op.xfer_lose = Transfers.xfer_lose
handler Op.bind_create = Binds.bind_create
handler Op.bind_delete = Binds.bind_delete
handler Op.bind_find = Binds.bind_find
handler Op.bind_lose = Binds.bind_lose
handler Op.dsts_create = Binds.dsts_create
handler Op.dsts_delete = Binds.dsts_delete
handler Op.dsts_find = Binds.dsts_find
handler Op.dst_create = Binds.dst_create
handler Op.dst_delete = Binds.dst_delete
handler Op.dst_find = Binds.dst_find
handler Op.srcs_create = Binds.srcs_create
handler Op.srcs_delete = Binds.srcs_delete
handler Op.srcs_find = Binds.srcs_find
handler Op.src_create = Binds.src_create
handler Op.src_delete = Binds.src_delete
handler Op.src_find = Binds.src_find

-- The name of a row.
abbrev pub name : Op → String
name Op.event_start = "event_start"
name Op.event_find = "event_find"
name Op.event_chain = "event_chain"
name Op.location_create = "location_create"
name Op.location_delete = "location_delete"
name Op.location_find = "location_find"
name Op.location_put = "location_put"
name Op.smb_create = "smb_create"
name Op.smb_delete = "smb_delete"
name Op.smb_find = "smb_find"
name Op.smb_put = "smb_put"
name Op.smb_lose = "smb_lose"
name Op.mmap_create = "mmap_create"
name Op.mmap_delete = "mmap_delete"
name Op.mmap_find = "mmap_find"
name Op.mmap_put = "mmap_put"
name Op.sync_create = "sync_create"
name Op.sync_delete = "sync_delete"
name Op.sync_find = "sync_find"
name Op.sync_put = "sync_put"
name Op.sync_send = "sync_send"
name Op.sync_wait = "sync_wait"
name Op.xfer_create = "xfer_create"
name Op.xfer_delete = "xfer_delete"
name Op.xfer_find = "xfer_find"
name Op.xfer_put = "xfer_put"
name Op.xfer_lose = "xfer_lose"
name Op.bind_create = "bind_create"
name Op.bind_delete = "bind_delete"
name Op.bind_find = "bind_find"
name Op.bind_lose = "bind_lose"
name Op.dsts_create = "dsts_create"
name Op.dsts_delete = "dsts_delete"
name Op.dsts_find = "dsts_find"
name Op.dst_create = "dst_create"
name Op.dst_delete = "dst_delete"
name Op.dst_find = "dst_find"
name Op.srcs_create = "srcs_create"
name Op.srcs_delete = "srcs_delete"
name Op.srcs_find = "srcs_find"
name Op.src_create = "src_create"
name Op.src_delete = "src_delete"
name Op.src_find = "src_find"

-- The table `ops`.
abbrev pub ops : List Op
ops =
    Op.event_start ∷ Op.event_find ∷ Op.event_chain ∷ Op.location_create ∷ Op.location_delete
    ∷ Op.location_find ∷ Op.location_put ∷ Op.smb_create ∷ Op.smb_delete ∷ Op.smb_find ∷ Op.smb_put
    ∷ Op.smb_lose ∷ Op.mmap_create ∷ Op.mmap_delete ∷ Op.mmap_find ∷ Op.mmap_put ∷ Op.sync_create
    ∷ Op.sync_delete ∷ Op.sync_find ∷ Op.sync_put ∷ Op.sync_send ∷ Op.sync_wait ∷ Op.xfer_create
    ∷ Op.xfer_delete ∷ Op.xfer_find ∷ Op.xfer_put ∷ Op.xfer_lose ∷ Op.bind_create ∷ Op.bind_delete
    ∷ Op.bind_find ∷ Op.bind_lose ∷ Op.dsts_create ∷ Op.dsts_delete ∷ Op.dsts_find ∷ Op.dst_create
    ∷ Op.dst_delete ∷ Op.dst_find ∷ Op.srcs_create ∷ Op.srcs_delete ∷ Op.srcs_find ∷ Op.src_create
    ∷ Op.src_delete ∷ Op.src_find ∷ []

abbrev pub find_op : List ℕ → List Op → Option Op
find_op test [] = none
find_op test (op ∷ rest) = if str_eq test (bytes (name op)) then some op else find_op test rest

-- What `do_operation` does: the handler of a command runs, or the line is answered with the result
-- 10101; `more` says whether the line has a "request" already.
pub data Answer : Type 0 where
  ran : Option Outcome → Answer
  not_found : (more : Bool) → Answer

abbrev pub max_op_len : ℕ
max_op_len = 15

abbrev is_some : Option ℕ → Bool
is_some none = false
is_some (some n) = true

abbrev pub run_op : Driver → List ℕ → List ℕ → Bool → Option Op → Answer
run_op d cmd rest wanted none = not_found (is_some (strstr cmd (bytes "request")))
run_op d cmd rest wanted (some op) = ran (handler op d rest wanted)

-- A line made of a command's name, the separator and the rest.
abbrev pub line : Op → List ℕ → List ℕ
line op rest = bytes (name op) ++ (bytes "://" ++ rest)

-- What follows the search for the separator.
abbrev pub split_at : Driver → List ℕ → Bool → Option ℕ → Answer
split_at d cmd wanted none = run_op d cmd [] wanted none
split_at d cmd wanted (some toklen) =
    if ltb max_op_len toklen
    then run_op d cmd [] wanted none
    else run_op d cmd (drop (toklen + 3) cmd) wanted (find_op (take toklen cmd) ops)

unfoldable pub do_operation : Driver → List ℕ → Bool → Answer
do_operation d cmd wanted = split_at d cmd wanted (strstr cmd (bytes "://"))
