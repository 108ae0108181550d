-- ===== src/Tests/Derive.antt =====
-- Structs of tests/derive_test.rs with what the macros of derive/src derive for them, and the theorems
-- about the macros at concrete inputs.
use oasis_cbor.Prelude.{ℕ, ◌≡◌, refl, Bool, true, false, none, some, List, [], ◌∷◌, arith}
use oasis_cbor.Value.{Entries, unsigned, text_string, map, no_entries, entry}
use oasis_cbor.Encoding.Utf8.{is_utf8}
use oasis_cbor.Encoding.Canonical.{IsCanonical, depth}
use oasis_cbor.Encode.{Encode, Tuple, encode_uint, encode_bytes}
use oasis_cbor.Decode.{
  Decode, ok, err, unknown_field, unexpected_type, try_from_cbor_value_default, decode_uint,
  decode_bytes, uint_from_value, bytes_from_value,
}
use oasis_cbor.Derive.Declaration.{unit_style}
use oasis_cbor.Derive.Declaration.{validate, Field, Fields, field_key, Attributes, named_style}
use oasis_cbor.Derive.Encoder.{
  push_entries, encode_form, encode_as, encode_map, encode_null, encode_struct, optional_value,
  field_value,
}
use oasis_cbor.Derive.Decoder.{
  array_from_value, decode_field, decode_form, decode_as, decode_struct, struct_from_value,
}
use oasis_cbor.Derive.Arranged.{HaveCanonicalKeys, AreDistinct}
use oasis_cbor.Derive.Pushed.{AllValues, field_pushed}
use oasis_cbor.Derive.RoundTrip.{Keeps, KeepsAfter, struct_from_value-encode_map}
use oasis_cbor.Value.Order.{cmp}
use oasis_cbor.Value.Convert.{from}
use oasis_cbor.Derive.Normal.{HasCanonicalValue}
use oasis_cbor.Derive.Bytes.{from_slice-encode_struct}
use oasis_cbor.Api.{to_vec, from_slice}
use oasis_cbor.Encoding.Normal.{normalize}
use oasis_cbor.Derive.Struct.{decode_struct-encode_struct}
use oasis_cbor.Derive.Unknown.Known.{AllKnown}
use oasis_cbor.Derive.Unknown.{struct_from_value-AllKnown, struct_from_value-unknown_field}

abbrev plain : Attributes
plain = record {
  transparent = false;
  untagged = false;
  tag = none;
  as_array = false;
  no_default = false;
  with_default = false;
  allow_unknown = false;
}

abbrev required : {A : Type 0} → List ℕ → Encode A → Decode A → A → Field A
required ident e d default = record {
  ident = ident;
  rename = none;
  optional = false;
  skip = false;
  skip_serializing_if = none;
  serialize_with = none;
  deserialize_with = none;
  encoder = e;
  decoder = d;
  default = default;
}

-- The type of struct B: foo is a u64, bytes a Vec<u8>. The key of foo is the first.
abbrev types : List (Type 0)
types = ℕ ∷ (List ℕ ∷ [])

abbrev fields : Fields types
fields = (
  required (0x66 ∷ 0x6f ∷ 0x6f ∷ []) encode_uint (decode_uint 64) 0,
  (required (0x62 ∷ 0x79 ∷ 0x74 ∷ 0x65 ∷ 0x73 ∷ []) encode_bytes decode_bytes [], tt),
)

abbrev sample : Tuple types
sample = (10, (1 ∷ 2 ∷ [], tt))

abbrev decode_b : Bool → Decode (Tuple types)
decode_b allow_unknown = record {
  try_default = ok (0, ([], tt));
  try_from_cbor_value = struct_from_value types fields allow_unknown;
}

fields-HaveCanonicalKeys : HaveCanonicalKeys types fields
unfolding field_key from IsCanonical is_utf8
fields-HaveCanonicalKeys =
    ((omega arith, omega arith, refl), ((omega arith, omega arith, refl), tt))

fields-AreDistinct : AreDistinct types fields
unfolding field_key from cmp
fields-AreDistinct = ((λ e. cc, tt), (tt, tt))

sample_kept : AllValues Keeps types fields sample
unfolding decode_field optional_value field_value uint_from_value bytes_from_value
    try_from_cbor_value_default
sample_kept = (refl, (refl, tt))

encode_struct_b : encode_struct named_style plain types fields ≡ some (encode_map types fields)
unfolding encode_struct encode_form encode_as validate
encode_struct_b = refl

decode_struct_b : decode_struct named_style plain types fields (0, ([], tt)) ≡ some (decode_b false)
unfolding decode_struct decode_form decode_as validate
decode_struct_b = refl

decode_struct-encode_struct_example :
    struct_from_value types fields false ((encode_map types fields).into_cbor_value sample)
    ≡ ok sample
unfolding encode_form
decode_struct-encode_struct_example =
    decode_struct-encode_struct named_style plain types fields (0, ([], tt)) sample
      (encode_map types fields) (decode_b false) refl
      (fields-HaveCanonicalKeys, fields-AreDistinct, sample_kept) encode_struct_b decode_struct_b

sample_decoded :
    struct_from_value types fields false ((encode_map types fields).into_cbor_value sample)
    ≡ ok sample
sample_decoded =
    struct_from_value-encode_map types fields sample false fields-HaveCanonicalKeys
      fields-AreDistinct sample_kept

struct_from_value-AllKnown_example :
    (es : Entries) × ((encode_map types fields).into_cbor_value sample ≡ map es)
    × AllKnown types fields es
struct_from_value-AllKnown_example =
    struct_from_value-AllKnown types fields ((encode_map types fields).into_cbor_value sample)
      sample sample_decoded

-- BWithUnknown, and a map with the key "a".
struct_from_value-unknown_field_example :
    struct_from_value types fields true
      (map (entry (text_string (0x61 ∷ [])) (unsigned 1) no_entries))
    ≡ err unknown_field
unfolding field_key from cmp
struct_from_value-unknown_field_example =
    struct_from_value-unknown_field ℕ (List ℕ ∷ []) fields true (text_string (0x61 ∷ []))
      (unsigned 1) ((refl, refl), ((refl, refl), tt))

-- A unit struct with `as_array`.
abbrev as_array : Attributes
as_array = record plain { as_array = true }

abbrev decode_unit_array : Decode (Unit {0})
decode_unit_array = record {
  try_default = ok tt;
  try_from_cbor_value = array_from_value [] tt false;
}

-- What `derive` makes of it decodes an array only, and it is encoded as null.
unit_array_decoder : decode_struct unit_style as_array [] tt tt ≡ some decode_unit_array
unfolding decode_struct decode_form decode_as validate
unit_array_decoder = refl

unit_array_refused :
    decode_unit_array.try_from_cbor_value (encode_null.into_cbor_value tt) ≡ err unexpected_type
unfolding array_from_value
unit_array_refused = refl

sample_values : AllValues HasCanonicalValue types fields sample
unfolding field_pushed optional_value field_value normalize IsCanonical
sample_values = (omega arith, ((omega arith, omega arith), tt))

sample_kept_sorted : AllValues (KeepsAfter normalize) types fields sample
unfolding decode_field optional_value field_value uint_from_value bytes_from_value
    try_from_cbor_value_default normalize
sample_kept_sorted = (refl, (refl, tt))

from_slice-encode_struct_example :
    (cbor : List ℕ) × (to_vec (encode_map types fields) sample ≡ ok cbor)
    × (from_slice (decode_b false) cbor ≡ ok sample)
unfolding push_entries optional_value field_value depth field_key
from_slice-encode_struct_example =
    from_slice-encode_struct plain types fields (0, ([], tt)) sample (encode_map types fields)
      (decode_b false) refl refl fields-HaveCanonicalKeys fields-AreDistinct (omega arith)
      sample_values sample_kept_sorted (omega arith) encode_struct_b decode_struct_b
