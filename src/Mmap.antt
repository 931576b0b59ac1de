-- ===== src/Mmap.antt =====
-- Memory mapping: the tickets that stand for a prepared mapping (vfi_mmap.h), the mapping of a part
-- of a buffer (`vfi_mmap_create`), the search for a ticket in the tree of locations
-- (`frm_by_loc`, `find_vfi_mmap_by_id` in vfi_mmap.c) and its use by the device file (`vfi_mmap`
-- and `vfi_mmap_nopage` in vfi_cdev.c).
-- `unsigned long` has 32 bits, as on the boards that the driver is for.
pub mod Ticket
pub mod Window
pub mod Search
mod Tests
