-- ===== src/Serde.antt =====
-- src/serde/ser.rs, src/serde/error.rs and src/serde/mod.rs. A type with serde's `Serialize` is seen by
-- the serializer as the calls that it makes, which are a `Datum`; a name is the list of its UTF-8 bytes.
pub mod Failure
pub mod Serializers
pub mod Calls
pub mod Given
pub mod Bytes
pub mod Accesses
pub mod Supported
pub mod Visits
use oasis_cbor.Prelude.{ℕ, ℤ, pos, Bool, Option, List, []}
use oasis_cbor.Value.{
  Value, Values, Entries, byte_string, array, map, no_values, value, no_entries, entry,
}
use oasis_cbor.Encode.{
  Encode, encode_bool, encode_int, encode_uint, encode_u128, encode_char, encode_string,
  encode_unit,
}
use oasis_cbor.Decode.{DecodeError}
use oasis_cbor.Writer
use oasis_cbor.Writer.{Written, EncoderError, write}
use oasis_cbor.Reader
use oasis_cbor.Reader.{DecoderError, read_nested}
use oasis_cbor.Serde.Failure.{
  Message, i128_is_not_supported, cut_off, Unsupported, f32_type, f64_type,
}
use oasis_cbor.Api.{max_nesting_level}

pub data Error : Type 0 where
  byte_encoder : EncoderError → Error
  byte_decoder : DecoderError → Error
  value_decoder : DecodeError → Error
  unsupported_type : Unsupported → Error
  other : Message → Error

pub data Result {ℓ} (A : Type ℓ) : Type ℓ where
  ok : A → Result A
  err : Error → Result A

infixl 5 ◌>>=◌
abbrev pub ◌>>=◌ {ℓ κ} : {A : Type ℓ} {B : Type κ} → Result A → (A → Result B) → Result B
ok a >>= f = f a
err e >>= f = err e

-- The methods of `Serializer` that a type calls. `int` and `uint` are those of up to 64 bits.
mutual
  pub data Datum : Type 0 where
    bool : Bool → Datum
    int i128 : ℤ → Datum
    uint u128 char : ℕ → Datum
    str bytes : List ℕ → Datum
    f32 f64 none unit unit_struct : Datum
    some newtype_struct : Datum → Datum
    unit_variant : List ℕ → Datum
    newtype_variant : List ℕ → Datum → Datum
    seq tuple tuple_struct : Data → Datum
    tuple_variant : List ℕ → Data → Datum
    map_of : Pairs → Datum
    struct : Fields → Datum
    struct_variant : List ℕ → Fields → Datum

  pub data Data : Type 0 where
    no_data : Data
    datum : Datum → Data → Data

  pub data Pairs : Type 0 where
    no_pairs : Pairs
    pair : Datum → Datum → Pairs → Pairs

  pub data Fields : Type 0 where
    no_fields : Fields
    field : List ℕ → Datum → Fields → Fields

-- `serialize_str`
abbrev pub serialize_str : List ℕ → Value
serialize_str v = encode_string.into_cbor_value v

-- A variant with contents is a map of one entry.
abbrev pub variant_map : List ℕ → Value → Value
variant_map variant contents = map (entry (serialize_str variant) contents no_entries)

unfoldable mutual
  pub serialize : Datum → Result Value
  serialize (bool v) = ok (encode_bool.into_cbor_value v)
  serialize (int v) = ok (encode_int.into_cbor_value v)
  serialize (uint v) = ok (encode_uint.into_cbor_value v)
  serialize (u128 v) = ok (encode_u128.into_cbor_value v)
  serialize (char v) = ok (encode_char.into_cbor_value v)
  serialize (str v) = ok (serialize_str v)
  serialize (bytes v) = ok (byte_string v)
  serialize (i128 v) = err (other i128_is_not_supported)
  serialize f32 = err (unsupported_type f32_type)
  serialize f64 = err (unsupported_type f64_type)
  serialize none = ok (encode_unit.into_cbor_value tt)
  serialize unit = ok (encode_unit.into_cbor_value tt)
  serialize unit_struct = ok (encode_unit.into_cbor_value tt)
  serialize (some v) = serialize v
  serialize (newtype_struct v) = serialize v >>= λ x. ok (array (value x no_values))
  serialize (unit_variant variant) = ok (serialize_str variant)
  serialize (newtype_variant variant v) = serialize v >>= λ x. ok (variant_map variant x)
  serialize (seq items) = serialize_elements items >>= λ xs. ok (array xs)
  serialize (tuple items) = serialize_elements items >>= λ xs. ok (array xs)
  serialize (tuple_struct items) = serialize_elements items >>= λ xs. ok (array xs)
  serialize (tuple_variant variant items) =
      serialize_elements items >>= λ xs. ok (variant_map variant (array xs))
  serialize (map_of items) = serialize_pairs items >>= λ es. ok (map es)
  serialize (struct fields) = serialize_fields fields >>= λ es. ok (map es)
  serialize (struct_variant variant fields) =
      serialize_fields fields >>= λ es. ok (variant_map variant (map es))

  -- The calls of `serialize_element`, or of `serialize_field` for a tuple.
  pub serialize_elements : Data → Result Values
  serialize_elements no_data = ok no_values
  serialize_elements (datum v rest) =
      serialize v >>= λ x. serialize_elements rest >>= λ xs. ok (value x xs)

  -- The calls of `serialize_key` and `serialize_value` in turn.
  pub serialize_pairs : Pairs → Result Entries
  serialize_pairs no_pairs = ok no_entries
  serialize_pairs (pair k v rest) =
      serialize k >>= λ x. serialize v >>= λ y. serialize_pairs rest >>= λ es. ok (entry x y es)

  -- The calls of `serialize_field` for a struct.
  pub serialize_fields : Fields → Result Entries
  serialize_fields no_fields = ok no_entries
  serialize_fields (field key v rest) =
      serialize v >>= λ y. serialize_fields rest >>= λ es. ok (entry (serialize_str key) y es)

-- `to_value` and `to_vec` of src/serde/mod.rs.
abbrev pub to_value : Datum → Result Value
to_value v = serialize v

abbrev pub from_writer : Written → Result (List ℕ)
from_writer (Writer.done cbor) = ok cbor
from_writer (Writer.failed e cbor) = err (byte_encoder e)

unfoldable pub to_vec : Datum → Result (List ℕ)
to_vec v = to_value v >>= λ x. from_writer (write x [])

-- `from_slice` and `from_value` of src/serde/mod.rs; `deserialize` is `T::deserialize` over the
-- deserializer of a value.
unfoldable pub from_value {ℓ} : {A : Type ℓ} → (Value → Result A) → Value → Result A
from_value deserialize v = deserialize v

abbrev pub from_reader : Reader.Result Value → Result Value
from_reader (Reader.ok v) = ok v
from_reader (Reader.err e) = err (byte_decoder e)
from_reader Reader.out_of_fuel = err (other cut_off)

unfoldable pub from_slice {ℓ} : {A : Type ℓ} → (Value → Result A) → List ℕ → Result A
from_slice deserialize cbor =
    from_reader (read_nested cbor (Option.some (pos max_nesting_level))) >>= from_value deserialize
