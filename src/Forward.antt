-- ===== src/Forward.antt =====
-- The operations on objects of other boards (vfi_fabric_ops.c).
pub mod Model
pub mod Requests
pub mod Finds
pub mod Creates
pub mod Deletes
pub mod Ends
pub mod Events
pub mod Places
pub mod Table
pub mod Buffers
pub mod Returned
pub mod EndsReturned
pub mod Balance
pub mod Results
pub mod Answers
pub mod Understood
pub mod Bells
mod Tests
