-- ===== src/Local.antt =====
-- The operations on objects of this board (vfi_local_ops.c).
pub mod Split
pub mod Bytes
pub mod Pages
pub mod Cover
pub mod Model
pub mod Finds
pub mod Creates
pub mod Ends
pub mod Deletes
pub mod Balance
pub mod BindBalance
pub mod Asked
pub mod Tiling
pub mod Stops
pub mod Sizes
pub mod Tests
pub mod Events
pub mod Chains
pub mod Transfer
