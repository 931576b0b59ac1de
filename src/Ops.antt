-- ===== src/Ops.antt =====
-- The commands of the driver (vfi_ops.c): one handler for each command, and `do_operation`, which
-- takes a command line apart and runs the handler of its name.
pub mod Model
pub mod Frame
pub mod Places
pub mod Buffers
pub mod Transfers
pub mod Binds
pub mod Dispatch
pub mod References
pub mod Tidy
pub mod Settled
pub mod Sound
pub mod Answered
pub mod Lines
pub mod Outcomes
pub mod Tests
