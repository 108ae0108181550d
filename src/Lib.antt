-- ===== src/Lib.antt =====
-- oasis-cbor: canonical CBOR for Rust. The program is three crates.
--
-- The crate in value/ has the CBOR data model and its bytes:
--   value/src/values.rs   the type Value, its order and the conversions into it
--   value/src/writer.rs   write, write_nested: a Value becomes bytes appended to a vector, and the
--                         entries of a map are sorted by their encoded keys
--   value/src/reader.rs   read, read_nested, read_nested_non_strict: bytes become a Value, and
--                         strict mode rejects what is not canonical
--   value/src/macros.rs   macros that build values and take maps apart
-- The crate at the root stands on it: src/encode.rs and src/decode.rs have the traits Encode and
-- Decode with their impls for the standard types, and src/lib.rs composes them with the writer
-- and the reader into to_vec and from_slice.
--
-- The macros in derive/src derive the two traits for structs and enums.
--
-- Which file is which part:
--   Value, Value/Order, Value/Convert   value/src/values.rs: enums, cmp and eq, From and
--                       IntoCborValue, and the building macros of value/src/macros.rs
--   Nesting             the Option<i8> limit that reader and writer count down
--   Writer              value/src/writer.rs; Writer::encode_cbor is encode_cbor, which returns the
--                       vector on success and on failure
--   Reader              value/src/reader.rs; a method of Reader returns the reader it leaves, and
--                       decode_complete_data_item and the read_*_content methods keep their names
--   Macros              destructure_cbor_map! with its peek function, assert_sorted_keys!, and the
--                       strict peek function of src/macros.rs
--   Encode, Decode      src/encode.rs and src/decode.rs: a record per trait, a value of it per impl;
--                       Decode/Containers has the maps and sets, Decode/Tuples what tuples accept
--   Api                 src/lib.rs
--   Derive/Declaration  derive/src/common.rs: what the macros read of a declaration
--   Derive/Encoder, Derive/Decoder, Derive/Decoder/Sorting
--                       derive_struct of derive/src/encode.rs and of derive/src/decode.rs
--   Derive/Enum, Derive/Enum/Decoder
--                       derive_enum of derive/src/encode.rs and of derive/src/decode.rs
--   Derive/Marker       encode_as_map of derive/src/encode.rs: which types get EncodeAsMap
--   Serde, Serde/Serializers, Serde/Visits, Serde/Failure
--                       src/serde: the serializer with to_vec and to_value, its states, the
--                       deserializer with its accesses, and the errors of the two
-- The rest are specifications and proofs. Encoding describes the canonical encoding without the
-- writer or the reader: Head the bytes in front of a data item, Utf8 valid text, Canonical the
-- encoding, the depth and the canonical values, Normal a value with the entries of its maps
-- sorted, Ordered and Total their order. Writer/* and Reader/* compare the writer and the reader
-- with that description, Codec the two with each other. Codable is the contract between an impl
-- of Encode and one of Decode, with its instances for impls of the crate, Macros/Lookup the scan
-- over a map beside a search, and Serde/Supported what the serializer takes. Serde/Calls
-- compares the serializers' states with the serializer, Serde/Accesses is about the steps of a
-- map's visitor, Serde/Visits/Range about the integers, Serde/Given about what visitors get of
-- serialized data, and Serde/Bytes about the bytes in between. The other files of Derive are
-- about the derived impls: Arranged and Pushed about sorting, RoundTrip, Struct, Normal and
-- Bytes about structs, Unknown about keys that are no field's, and Enum/* about enums.
--
-- A macro is modelled as what the code that it generates does: a function of the declaration,
-- which is a record per field and per variant. A struct is the tuple of its fields, an enum the
-- sum of its variants. Where a macro reports an error, so that the program does not compile,
-- there is no impl.
--
-- Bounds. A u64 is a natural number, and IsCanonical has the bound below 2^64 where a value needs
-- it; usize is taken to have 64 bits, and the casts that could wrap are written with the
-- remainder. A byte is a number below 256, which theorems about arbitrary input have as a
-- hypothesis. A String is its UTF-8 bytes, a char its code point.
--
-- Fuel. The reader's recursion is on fuel, one more than the number of bytes: every data item
-- takes at least one byte before it reads another, so this is enough for any input. The loops of
-- the reader over the items of an array or a map are on the count that the bytes announce, and
-- their first failure ends them.
--
-- Not modelled: how the macros parse a declaration and print code, the Go comparison in
-- difffuzz/, the fuzz target and the tests. What serde itself does is not modelled either: Datum
-- is the calls that it makes of the serializer, Visit those that the deserializer makes of a
-- visitor, and a type's Deserialize is a parameter. Error texts are data in place of strings.
-- The place of an item in a HashMap or a HashSet is not determined by the source, so collecting
-- into one is a parameter. Allocation always succeeds.
pub mod Prelude
pub mod Value
pub mod Nesting
pub mod Encoding
pub mod Writer
pub mod Reader
pub mod Codec
pub mod Encode
pub mod Decode
pub mod Codable
pub mod Macros
pub mod Derive
pub mod Serde
pub mod Api
pub mod Tests
