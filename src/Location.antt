-- ===== src/Location.antt =====
-- The tree of locations (vfi_location.c).
pub mod Model
pub mod Walk
pub mod Held
pub mod Inherit
pub mod Tests
