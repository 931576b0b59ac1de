-- ===== src/Bind.antt =====
-- A bind: a transfer that its source and its destination must both announce.
-- `Ready` is the state of vfi_bind.h, `Protocol` its use by the agents and the DMA engine,
-- `Extents` the validation of the three extents of a bind command (vfi_ops.c), `Delete` the choice
-- of the binds that a delete command removes (vfi_local_ops.c).
pub mod Ready
pub mod Protocol
pub mod Extents
pub mod Delete
mod Tests
