-- ===== src/Tests.antt =====
-- Runs of the code on inputs of its own tests, and the theorems at concrete inputs.
pub mod Codec
pub mod Api
pub mod Derive
pub mod Enum
pub mod Serde
