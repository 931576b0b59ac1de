-- ===== src/Fabric.antt =====
-- Commands to other boards (vfi_fabric.c): a call sends a request that carries the address of its
-- tag, waits, and takes the reply that carries the same address.
pub mod Call
pub mod Replies
mod Tests
