-- ===== src/Cdev.antt =====
-- The device file (vfi_cdev.c): a program writes command lines, the driver answers each, and the
-- program reads the answers as one stream, in which it may seek back. Memory is assumed to suffice,
-- and the calls are those of a file without O_NONBLOCK. A call that waits is the same as one that
-- finds nothing to read.
pub mod File
pub mod Pending
pub mod Stream
pub mod Seek
pub mod Lines
mod Tests
