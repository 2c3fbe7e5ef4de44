-- ===== src/Go.antt =====
-- What the program uses of Go's standard library: decimal integers, string helpers and maps.
pub mod Decimal
pub mod Strings
pub mod Maps
