-- ===== src/Ops/Answered.antt =====
-- No command follows a NULL pointer.
use vfi.Prelude.{Bool, true, false}
use vfi.Ops.Model.{Op}
use vfi.Ops.Binds.{extents, srcs_create_body}
use vfi.Ops.Places
use vfi.Ops.Buffers
use vfi.Ops.Transfers
use vfi.Ops.Binds

-- Nothing promises that the bind of a srcs_create has its event.
abbrev pub completes : Op → Bool
completes Op.srcs_create = false
completes _ = true
