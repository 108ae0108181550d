-- ===== src/Serde/Visits.antt =====
-- src/serde/de.rs: a method of `Deserializer` calls one method of the visitor that it is given, or
-- fails. A `Visit` is that call with its argument; the sequence and map accesses are the items left.
pub mod Range
use oasis_cbor.Prelude.{
  ℕ, suc, ℤ, pos, negsuc, ◌-◌, ◌%◌, ◌^◌, ◌<◌, ◌≡◌, refl, ap, Bool, true, false, Option, none, some,
  List, arith,
}
use oasis_cbor.Value.{
  Value, Values, Entries, unsigned, negative, byte_string, text_string, array, map, tag, simple,
  no_values, value, no_entries, entry, null_value, undefined, true_value, false_value, integer,
}
use oasis_cbor.Decode
use oasis_cbor.Decode.{u128_from_value, char_from_value}
use oasis_cbor.Serde.Failure.{
  as_i64, unexpected, Expected, array_expected, map_expected, null_expected, string_or_map_expected,
  invalid_type, unexpected_end_of_map, cut_off, f32_type, f64_type, cbor_tag,
}
use oasis_cbor.Codable.Scalars.{IsInt}
use oasis_cbor.Serde.{
  Result, ok, err, ◌>>=◌, value_decoder, unsupported_type, other, int, serialize,
}

pub data Visit : Type 0 where
  visit_u64 visit_u128 visit_char : ℕ → Visit
  visit_i64 : ℤ → Visit
  visit_byte_buf visit_string : List ℕ → Visit
  visit_seq : Values → Visit
  visit_map : Entries → Visit
  visit_bool : Bool → Visit
  visit_unit visit_none : Visit
  visit_some : Value → Visit
  visit_enum : Value × Value → Visit

-- `de::Error::invalid_type(unexpected(&v), &expected)`
abbrev pub invalid {ℓ} : {A : Type ℓ} → Value → Expected → Result A
invalid v expected = err (other (invalid_type (unexpected v) expected))

unfoldable pub deserialize_seq : Value → Result Visit
deserialize_seq (array items) = ok (visit_seq items)
deserialize_seq v = invalid v array_expected

unfoldable pub deserialize_map : Value → Result Visit
deserialize_map (map pairs) = ok (visit_map pairs)
deserialize_map v = invalid v map_expected

abbrev pub deserialize_struct : Value → Result Visit
deserialize_struct v = deserialize_map v

unfoldable pub deserialize_any : Value → Result Visit
deserialize_any (unsigned n) = ok (visit_u64 n)
deserialize_any (negative n) = ok (visit_i64 (as_i64 n))
deserialize_any (byte_string bs) = ok (visit_byte_buf bs)
deserialize_any (text_string s) = ok (visit_string s)
deserialize_any (array items) = deserialize_seq (array items)
deserialize_any (map pairs) = deserialize_map (map pairs)
deserialize_any (tag t v) = err (unsupported_type cbor_tag)
deserialize_any (simple false_value) = ok (visit_bool false)
deserialize_any (simple true_value) = ok (visit_bool true)
deserialize_any (simple null_value) = ok visit_unit
deserialize_any (simple undefined) = ok visit_unit

-- `map_err(Error::from)` and the visit of the number; a decoder here never panics.
abbrev pub visit_decoded : (ℕ → Visit) → Decode.Result ℕ → Result Visit
visit_decoded visit (Decode.ok n) = ok (visit n)
visit_decoded visit (Decode.err e) = err (value_decoder e)
visit_decoded visit Decode.panicked = err (other cut_off)

unfoldable pub deserialize_u128 : Value → Result Visit
deserialize_u128 v = visit_decoded visit_u128 (u128_from_value v)

abbrev pub deserialize_f32 : Value → Result Visit
deserialize_f32 v = err (unsupported_type f32_type)

abbrev pub deserialize_f64 : Value → Result Visit
deserialize_f64 v = err (unsupported_type f64_type)

unfoldable pub deserialize_char : Value → Result Visit
deserialize_char v = visit_decoded visit_char (char_from_value v)

unfoldable pub deserialize_option : Value → Result Visit
deserialize_option (simple null_value) = ok visit_none
deserialize_option x = ok (visit_some x)

-- `SeqAccessImpl::next_element_seed`: the item that the seed gets, and the items left.
unfoldable pub next_element : Values → Option Value × Values
next_element no_values = (none, no_values)
next_element (value item rest) = (some item, rest)

-- `MapAccessImpl::next_key_seed` takes the key out of the entry, and `next_value_seed` the entry.
unfoldable pub next_key : Entries → Option Value × Entries
next_key no_entries = (none, no_entries)
next_key (entry k v rest) = (some k, entry (simple undefined) v rest)

unfoldable pub next_value : Entries → Result (Value × Entries)
next_value no_entries = err (other unexpected_end_of_map)
next_value (entry k v rest) = ok (v, rest)

unfoldable pub deserialize_enum : Value → Result Visit
deserialize_enum (map (entry variant contents no_entries)) = ok (visit_enum (variant, contents))
deserialize_enum (text_string s) = ok (visit_enum (text_string s, simple null_value))
deserialize_enum v = invalid v string_or_map_expected

-- `EnumAccessImpl::variant_seed`: the seed gets the name, and the access of the variant is the contents.
unfoldable pub variant_seed {ℓ} :
    {A : Type ℓ} → (Value → Result A) → Value × Value → Result (A × Value)
variant_seed seed (name, contents) = seed name >>= λ a. ok (a, contents)

-- The methods of `VariantAccessImpl`.
unfoldable pub unit_variant_access : Value → Result (Unit {0})
unit_variant_access (simple null_value) = ok tt
unit_variant_access v = invalid v null_expected

abbrev pub newtype_variant_seed {ℓ} : {A : Type ℓ} → (Value → Result A) → Value → Result A
newtype_variant_seed seed contents = seed contents

abbrev pub tuple_variant_access : Value → Result Visit
tuple_variant_access contents = deserialize_seq contents

abbrev pub struct_variant_access : Value → Result Visit
struct_variant_access contents = deserialize_map contents

-- The call that gives a visitor a signed integer.
abbrev pub visit_int : ℤ → Visit
visit_int (pos n) = visit_u64 n
visit_int (negsuc n) = visit_i64 (negsuc n)

pub as_i64_lem : (n : ℕ) → n < 2 ^ 63 → as_i64 (negsuc n) ≡ negsuc n
unfolding as_i64
as_i64_lem n h =
    let low : (2 ^ 64 - suc n % 2 ^ 64) % 2 ^ 64 ≡ 2 ^ 64 - suc n = omega arith in
    rw low (ground arith)

-- A signed integer of up to 64 bits, serialized and deserialized, gives the visitor that integer.
pub deserialize_any-int :
    (z : ℤ) → IsInt 63 z → (serialize (int z) >>= deserialize_any) ≡ ok (visit_int z)
unfolding serialize deserialize_any integer
deserialize_any-int (pos n) h = let small : n % 2 ^ 64 ≡ n = omega arith in rw small refl
deserialize_any-int (negsuc n) h = ap (λ z. ok (visit_i64 z)) (as_i64_lem n h)
