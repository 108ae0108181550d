-- ===== src/Tests/Serde.antt =====
-- Runs of src/serde, and the theorems about it at concrete inputs.
use oasis_cbor.Prelude.{List, ℕ, Option, pos, negsuc, true, false, ◌≡◌, refl, [], ◌∷◌, arith}
use oasis_cbor.Value.{
  Value, Entries, unsigned, text_string, map, simple, true_value, no_entries, entry,
}
use oasis_cbor.Value.Order.{cmp, compare_bytes}
use oasis_cbor.Encoding.Canonical.{depth, IsCanonical}
use oasis_cbor.Encoding.Normal.{normalize, insert_key}
use oasis_cbor.Encoding.Utf8.{is_utf8}
use oasis_cbor.Serde.{
  ok, err, other, ◌>>=◌, Datum, Data, Pairs, Fields, int, uint, f64, seq, tuple, tuple_struct,
  tuple_variant, newtype_variant, map_of, struct, struct_variant, no_data, datum, no_pairs, pair,
  no_fields, field, serialize, to_vec, from_value, from_slice,
}
use oasis_cbor.Serde.Supported.{refusal, Returns, serialize-refusal}
use oasis_cbor.Serde.Failure.{as_i64, i128_is_not_supported}
use oasis_cbor.Serde.Visits.{
  visit_i64, deserialize_any, deserialize_any-int, deserialize_map, next_key, next_value,
}
use oasis_cbor.Serde.Accesses.{Round, asked, Rounds, stopped, round, pairs_of, pairs_of-next_key}
use oasis_cbor.Serde.Serializers.{
  drive, drive_fields, drive_pairs, ended, empty_seq, empty_tuple_struct, empty_tuple_variant,
  empty_map, empty_struct, empty_struct_variant, serialize_element, end_seq, serialize_tuple_field,
  end_tuple_struct, serialize_variant_item, end_tuple_variant, serialize_field, end_struct,
  serialize_variant_field, end_struct_variant, serialize_value, panicked,
}
use oasis_cbor.Serde.Calls.{serialize-drive}
use oasis_cbor.Serde.Bytes.{from_slice-to_vec_serde}
use oasis_cbor.Prelude.{◌↔◌}
use oasis_cbor.Value.{negative, integer}
use oasis_cbor.Serde.Visits.{visit_int}
use oasis_cbor.Serde.Visits.Range.{IsVisited, deserialize_any-integer_iff}

-- Variant "a" with a field "b".
abbrev nested_variant : Datum
nested_variant = struct_variant (0x61 ∷ []) (field (0x62 ∷ []) (uint 3) no_fields)

variant_serialized :
    serialize nested_variant
    ≡ ok (
        map (
          entry
            (text_string (0x61 ∷ []))
            (map (entry (text_string (0x62 ∷ [])) (unsigned 3) no_entries))
            no_entries))
unfolding serialize
variant_serialized = refl

-- A number outside `i64` that the reader returns is not what the visitor gets.
as_i64_wraps : as_i64 (negsuc 0xffff_ffff_ffff_ffff) ≡ pos 0
unfolding as_i64
as_i64_wraps = refl

abbrev with_float : Datum
with_float = seq (datum (uint 1) (datum f64 no_data))

serialize-refusal_example : Returns (refusal with_float) (serialize with_float)
serialize-refusal_example = serialize-refusal with_float

-- The first error is the one that is returned.
i128_first :
    serialize (seq (datum (Datum.i128 (pos 1)) (datum f64 no_data)))
    ≡ err (other i128_is_not_supported)
unfolding serialize
i128_first = refl

-- The value of -100.
deserialize_any-integer_iff_example :
    (deserialize_any (negative (negsuc 99)) ≡ ok (visit_int (negsuc 99)))
    ↔ ((negative (negsuc 99) ≡ integer (negsuc 99)) × IsVisited (negsuc 99))
unfolding IsCanonical
deserialize_any-integer_iff_example =
    deserialize_any-integer_iff (negative (negsuc 99)) (negsuc 99) (omega arith)

visited_int : (serialize (int (negsuc 99)) >>= deserialize_any) ≡ ok (visit_i64 (negsuc 99))
visited_int = deserialize_any-int (negsuc 99) (omega arith)

abbrev two_items : Data
two_items = datum (uint 1) (datum (Datum.bool false) no_data)

abbrev one_field : Fields
one_field = field (0x62 ∷ []) (uint 3) no_fields

abbrev one_pair : Pairs
one_pair = pair (uint 1) f64 no_pairs

serialize-drive_example :
    ((drive serialize_element two_items empty_seq >>= λ s. ok (end_seq s))
      ≡ serialize (seq two_items))
    × ((drive serialize_element two_items empty_seq >>= λ s. ok (end_seq s))
        ≡ serialize (tuple two_items))
    × ((drive serialize_tuple_field two_items empty_tuple_struct >>= λ s. ok (end_tuple_struct s))
        ≡ serialize (tuple_struct two_items))
    × ((drive serialize_variant_item two_items (empty_tuple_variant []) >>= λ s.
          ok (end_tuple_variant s))
        ≡ serialize (tuple_variant [] two_items))
    × (ended (drive_pairs one_pair empty_map) ≡ Option.some (serialize (map_of one_pair)))
    × ((drive_fields serialize_field one_field empty_struct >>= λ s. ok (end_struct s))
        ≡ serialize (struct one_field))
    × ((drive_fields serialize_variant_field one_field (empty_struct_variant []) >>= λ s.
          ok (end_struct_variant s))
        ≡ serialize (struct_variant [] one_field))
serialize-drive_example = serialize-drive two_items one_pair one_field []

-- A value without a key is a panic.
value_without_key : serialize_value (uint 1) empty_map ≡ panicked
unfolding serialize_value
value_without_key = refl

-- A struct with a: Some(-300) and b: an enum with the variant "y" of [true].
abbrev sample_datum : Datum
sample_datum = struct (
    field (0x61 ∷ []) (Datum.some (int (negsuc 299))) (
      field (0x62 ∷ []) (newtype_variant (0x79 ∷ []) (seq (datum (Datum.bool true) no_data)))
        no_fields))

-- A struct with b: 7 and a: true.
abbrev unsorted_datum : Datum
unsorted_datum = struct (field (0x62 ∷ []) (uint 7) (field (0x61 ∷ []) (Datum.bool true) no_fields))

abbrev unsorted_value : Value
unsorted_value = map (
    entry (text_string (0x62 ∷ [])) (unsigned 7)
      (entry (text_string (0x61 ∷ [])) (simple true_value) no_entries))

unsorted-IsCanonical : IsCanonical (normalize unsorted_value)
unfolding normalize insert_key cmp compare_bytes IsCanonical is_utf8
unsorted-IsCanonical = (
  omega arith,
  (refl, (tt, tt)),
  (
    ((omega arith, tt), omega arith, refl),
    tt,
    (((omega arith, tt), omega arith, refl), omega arith, tt),
  ),
)

-- The type is one that keeps what its visitor gets.
from_slice-to_vec_serde_example :
    (cbor : List ℕ) × (to_vec unsorted_datum ≡ ok cbor)
    × (from_slice deserialize_map cbor ≡ from_value deserialize_map (normalize unsorted_value))
unfolding serialize depth
from_slice-to_vec_serde_example =
    from_slice-to_vec_serde deserialize_map unsorted_datum unsorted_value refl unsorted-IsCanonical
      (omega arith)

abbrev two_entries : Entries
two_entries = entry (unsigned 1) (unsigned 10) (entry (unsigned 2) (unsigned 20) no_entries)

abbrev one_entry : Entries
one_entry = entry (unsigned 2) (unsigned 20) no_entries

taken_once : Round two_entries (unsigned 1, unsigned 10) one_entry
unfolding next_key next_value
taken_once = asked refl refl

pairs_of-next_key_example :
    (rest : List (Value × Value)) × (end : Entries) × Rounds one_entry rest end
    × (next_key end ≡ (Option.none, end))
    × (pairs_of two_entries ≡ (unsigned 1, unsigned 10) ∷ rest)
pairs_of-next_key_example =
    pairs_of-next_key two_entries one_entry ((unsigned 1, unsigned 10) ∷ [])
      (round taken_once stopped)
