-- ===== src/Tests/Api.antt =====
-- Runs of src/lib.rs, src/decode.rs and of the macros of value/src, and the theorems about them at
-- concrete inputs.
use oasis_cbor.Prelude.{
  ℕ, ◌≤◌, ◌⊎◌, List, [], ◌∷◌, ◌++◌, ◌≡◌, ◌↔◌, refl, Option, none, some, compare, pos, negsuc, ◌^◌,
  true, Ordering, reverse_ordering, Bool, arith,
}
use oasis_cbor.Value.{
  integer, Value, Values, Entries, count_values, unsigned, negative, text_string, array, no_values,
  value, no_entries, entry, from_integer,
}
use oasis_cbor.Value.Order.{compare_bytes, cmp}
use oasis_cbor.Encoding.Utf8.{is_utf8}
use oasis_cbor.Encoding.Canonical.{encoding, depth, IsCanonical, HaveCanonical, IsSorted}
use oasis_cbor.Encoding.Total.{cmp_trans}
use oasis_cbor.Reader.{
  read_nested, decode_complete_data_item, read_item, read_bytes, read_variadic_length_integer,
  read_size, is_non_minimal, read_content, decode_value_to_unsigned, read_array_content,
  read_elements, decode_to_simple_value,
}
use oasis_cbor.Codec.{cmp-eq_iff}
use oasis_cbor.Encode.{encode_int, encode_tuple, collect_values, encode_bool}
use oasis_cbor.Decode.{
  ok, err, panicked, DecodeError, decode_uint, decode_bool, decode_tuple, uint_from_value,
  int_from_value, bool_from_value, tuple_from_value, remove_all, try_from_cbor_value_default,
}
use oasis_cbor.Decode.Tuples.{tuple_from_value-length}
use oasis_cbor.Encode.{encode_u128}
use oasis_cbor.Decode.{u128_from_value}
use oasis_cbor.Decode.Range.{int_from_value_iff}
use oasis_cbor.Codable.Wide.{u128_trip}
use oasis_cbor.Encode.{encode_map, collect_entries}
use oasis_cbor.Decode.Containers.{decode_btree_map, collect_ordered, map_from_value}
use oasis_cbor.Decode.Containers.Ordered.{IsOrder}
use oasis_cbor.Codable.Maps.{btree_map_trip}
use oasis_cbor.Codable.Maps.Bytes.{from_slice-encode_map}
use oasis_cbor.Codable.{Codable}
use oasis_cbor.Codable.Scalars.{int_trip, codable_uint, IsInt}
use oasis_cbor.Codable.Containers.{
  Codables, encoders, decoders, tuple_trip, codable_vec, codable_option,
}
use oasis_cbor.Macros.{peek_value, destructure_cbor_map, assert_sorted_keys}
use oasis_cbor.Macros.Lookup.{lookup_all, destructure_cbor_map-lookup_all}
use oasis_cbor.Encoding.Normal.{normalize}
use oasis_cbor.Api.{
  from_slice, from_slice_non_strict, to_vec, to_value, from_value, from_slice-to_vec,
  from_slice_cases,
}

-- Vec<Option<u16>>
abbrev numbers : Codable (List (Option ℕ))
numbers = codable_vec (codable_option (codable_uint 16 (omega arith)))

abbrev two : List (Option ℕ)
two = some 1000 ∷ (none ∷ [])

from_slice_u8_large :
    from_slice (decode_uint 8) (0x19 ∷ 0x01 ∷ 0x00 ∷ []) ≡ err DecodeError.unexpected_integer_size
unfolding from_slice uint_from_value read_nested decode_complete_data_item read_item read_bytes
    read_variadic_length_integer read_size is_non_minimal read_content decode_value_to_unsigned
    try_from_cbor_value_default
from_slice_u8_large = refl

-- A pair of Booleans from an array of one.
short_tuple_panics :
    from_slice
      (decode_tuple (Bool ∷ (Bool ∷ [])) (decode_bool, (decode_bool, tt)))
      (0x81 ∷ 0xf5 ∷ [])
    ≡ panicked
unfolding from_slice read_nested decode_complete_data_item read_item read_bytes
    read_variadic_length_integer read_size is_non_minimal read_content read_array_content
    read_elements decode_to_simple_value from_integer try_from_cbor_value_default tuple_from_value
    remove_all bool_from_value
short_tuple_panics = refl

-- A number and null in an array.
abbrev encoded_two : Value
encoded_two = to_value numbers.encoder two

from_slice-to_vec_example :
    (cbor : List ℕ) × (to_vec numbers.encoder two ≡ ok cbor)
    × (from_slice numbers.decoder cbor ≡ from_value numbers.decoder (normalize encoded_two))
    × (from_slice_non_strict numbers.decoder (cbor ++ (9 ∷ []))
        ≡ from_value numbers.decoder (normalize encoded_two))
unfolding collect_values normalize IsCanonical depth to_value
from_slice-to_vec_example =
    from_slice-to_vec numbers.encoder numbers.decoder two (9 ∷ [])
      (omega arith, (omega arith, (tt, tt))) (omega arith)

from_slice_cases_example :
    ((v : Value) × IsCanonical v
      × (depth v ≤ 64)
      × ((0x18 ∷ (0xff ∷ [])) ≡ encoding v)
      × (from_slice (decode_uint 8) (0x18 ∷ 0xff ∷ [])
          ≡ try_from_cbor_value_default (decode_uint 8) v))
    ⊎ (from_slice (decode_uint 8) (0x18 ∷ 0xff ∷ []) ≡ err DecodeError.parsing_failed)
from_slice_cases_example = from_slice_cases (decode_uint 8) (0x18 ∷ 0xff ∷ []) (omega arith)

abbrev one : Value
one = unsigned 1

abbrev minus_one : Value
minus_one = negative (negsuc 0)

abbrev word : Value
word = text_string (0x61 ∷ [])

one-IsCanonical : IsCanonical one
unfolding IsCanonical
one-IsCanonical = omega arith

minus_one-IsCanonical : IsCanonical minus_one
unfolding IsCanonical
minus_one-IsCanonical = omega arith

word-IsCanonical : IsCanonical word
unfolding IsCanonical is_utf8
word-IsCanonical = ((omega arith, tt), omega arith, refl)

cmp_trans_example : cmp one word ≡ Ordering.lt
cmp_trans_example =
    cmp_trans one minus_one word one-IsCanonical minus_one-IsCanonical word-IsCanonical
      (unfold cmp in refl) (unfold cmp in refl)

cmp-eq_iff_example :
    ((cmp one word ≡ Ordering.eq) ↔ (one ≡ word)) × (cmp word one ≡ reverse_ordering (cmp one word))
cmp-eq_iff_example = cmp-eq_iff one word one-IsCanonical word-IsCanonical

abbrev fields : Entries
fields = entry one word (entry minus_one one (entry word minus_one no_entries))

fields-HaveCanonical : HaveCanonical fields
unfolding IsCanonical is_utf8
fields-HaveCanonical = (
  one-IsCanonical,
  word-IsCanonical,
  (minus_one-IsCanonical, one-IsCanonical, (word-IsCanonical, minus_one-IsCanonical, tt)),
)

fields-IsSorted : IsSorted fields
unfolding cmp
fields-IsSorted = (refl, (refl, (tt, tt)))

destructure_cbor_map-lookup_all_example :
    destructure_cbor_map (minus_one ∷ (word ∷ [])) fields
    ≡ lookup_all (minus_one ∷ (word ∷ [])) fields
destructure_cbor_map-lookup_all_example =
    destructure_cbor_map-lookup_all (minus_one ∷ (word ∷ [])) fields
      (minus_one-IsCanonical, (word-IsCanonical, tt)) (unfold assert_sorted_keys cmp in refl)
      fields-HaveCanonical fields-IsSorted

destructured :
    destructure_cbor_map (minus_one ∷ (word ∷ [])) fields ≡ some one ∷ (some minus_one ∷ [])
unfolding destructure_cbor_map peek_value cmp compare_bytes
destructured = refl

abbrev two_bits : Value
two_bits =
    array (
      value (encode_bool.into_cbor_value true) (value (encode_bool.into_cbor_value true) no_values))

decoded_bits :
    tuple_from_value (Bool ∷ (Bool ∷ [])) (decode_bool, (decode_bool, tt)) two_bits
    ≡ ok (true, (true, tt))
unfolding tuple_from_value remove_all bool_from_value
decoded_bits = refl

tuple_from_value-length_example : (vs : Values) × (two_bits ≡ array vs) × (2 ≤ count_values vs)
tuple_from_value-length_example =
    tuple_from_value-length (Bool ∷ (Bool ∷ [])) (decode_bool, (decode_bool, tt)) two_bits
      (true, (true, tt)) decoded_bits

int_kept : int_from_value 7 (encode_int.into_cbor_value (negsuc 99)) ≡ ok (negsuc 99)
int_kept = int_trip 7 (negsuc 99) (omega arith) (omega arith)

abbrev pair_types : List (Type 0)
pair_types = ℕ ∷ (List (Option ℕ) ∷ [])

abbrev pair_codables : Codables pair_types
pair_codables = (codable_uint 8 (omega arith), (numbers, tt))

tuple_trip_example :
    tuple_from_value pair_types (decoders pair_types pair_codables) (
      (encode_tuple pair_types (encoders pair_types pair_codables)).into_cbor_value
        (255, (two, tt)))
    ≡ ok (255, (two, tt))
tuple_trip_example =
    tuple_trip pair_types pair_codables (255, (two, tt))
      (omega arith, ((((omega arith, refl), (tt, tt)), omega arith), tt))

u128_trip_example : u128_from_value (encode_u128.into_cbor_value (2 ^ 100)) ≡ ok (2 ^ 100)
u128_trip_example = u128_trip (2 ^ 100) (omega arith)

-- i8
int_from_value_iff_example :
    (int_from_value 7 (unsigned 127) ≡ ok (pos 127))
    ↔ ((unsigned 127 ≡ integer (pos 127)) × IsInt 7 (pos 127))
unfolding IsCanonical
int_from_value_iff_example =
    int_from_value_iff 7 (pos 127) (unsigned 127) (omega arith) (omega arith)

compare-IsOrder : IsOrder compare
compare-IsOrder = record {
  same = λ k l h. ground arith;
  flip = λ k l. ground arith;
  trans = λ k l m h g. ground arith;
}

abbrev u8 : Codable ℕ
u8 = codable_uint 8 (omega arith)

-- A BTreeMap<u8, u8>, and its entries the other way round.
btree_map_kept :
    map_from_value
      (collect_ordered compare [])
      u8.decoder
      u8.decoder
      ((encode_map u8.encoder u8.encoder).into_cbor_value ((2, 20) ∷ ((1, 10) ∷ [])))
    ≡ ok ((1, 10) ∷ ((2, 20) ∷ []))
btree_map_kept =
    btree_map_trip u8 u8 compare ((1, 10) ∷ ((2, 20) ∷ [])) ((2, 20) ∷ ((1, 10) ∷ []))
      compare-IsOrder ((refl, tt), (tt, tt)) ((2, 20) ∷ [], [], refl, ([], [], refl, refl))
      ((omega arith, omega arith), ((omega arith, omega arith), tt))

from_slice-encode_map_example :
    (cbor : List ℕ) × (to_vec (encode_map u8.encoder u8.encoder) ((1, 10) ∷ ((2, 20) ∷ []))
      ≡ ok cbor)
    × (from_slice (decode_btree_map compare u8.decoder u8.decoder) cbor
        ≡ ok ((1, 10) ∷ ((2, 20) ∷ [])))
unfolding collect_entries depth
from_slice-encode_map_example =
    from_slice-encode_map u8 u8 compare compare-IsOrder ((1, 10) ∷ ((2, 20) ∷ []))
      ((refl, tt), (tt, tt)) ((omega arith, omega arith), ((omega arith, omega arith), tt))
      (omega arith) (omega arith)
