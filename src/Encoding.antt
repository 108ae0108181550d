-- ===== src/Encoding.antt =====
-- An independent description of the encoding: the bytes of a value with its entries in the order in
-- which it holds them, its nesting depth, and which values are canonical.
pub mod Bytes
pub mod Head
pub mod Utf8
pub mod Canonical
pub mod Normal
pub mod Ordered
pub mod Total
