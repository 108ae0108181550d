-- ===== src/Derive.antt =====
-- The derive macros of derive/src: what the code that they generate for a declaration does. The
-- declaration is data, and the generated impl is a function of it.
pub mod Bytes
pub mod Declaration
pub mod Encoder
pub mod Decoder
pub mod Arranged
pub mod Normal
pub mod Pushed
pub mod RoundTrip
pub mod Struct
pub mod Marker
pub mod Unknown
pub mod Enum
