-- ===== src/Parse.antt =====
-- The parser of descriptions and binds (vfi_parse.c). The fields `address` and `rde` of a description,
-- which come from the tables of fabrics and engines, are left out.
pub mod Desc
pub mod Split
pub mod Print
pub mod Dotted
pub mod Tests
