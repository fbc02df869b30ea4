-- ===== src/Std.antt =====
-- What the source takes from Go's language and standard library: 64-bit integers, strconv, strings.
pub mod Int64
pub mod Time
pub mod Strconv
pub mod Strings
mod Tests
