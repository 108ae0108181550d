-- ===== src/Derive/Decoder.antt =====
-- derive/src/decode.rs: the impl of `Decode` for a struct.
pub mod Sorting
use oasis_cbor.Prelude.{
  ℕ, Bool, true, false, not, ◌&&◌, ◌||◌, Option, none, some, List, [], ◌∷◌, if◌then◌else◌,
}
use oasis_cbor.Value.{
  Value, Values, Entries, array, map, simple, no_values, value, no_entries, entry, null_value,
}
use oasis_cbor.Encode.{Tuple}
use oasis_cbor.Decode.{
  Result, ok, err, ◌>>=◌, missing_field, unknown_field, unexpected_type, Decode,
  try_from_cbor_value_default,
}
use oasis_cbor.Macros.{peek_value_strict}
use oasis_cbor.Derive.Declaration.{
  Field, Fields, field_key, count, Style, is_unit, is_tuple, is_newtype, Attributes, validate,
}
use oasis_cbor.Derive.Encoder.{Form}
use oasis_cbor.Derive.Decoder.Sorting.{sort_entries, sort_fields}

-- `field_decode_fn`
unfoldable pub decode_field : {A : Type 0} → Field A → Value → Result A
decode_field f v = elim f.deserialize_with [
  | none ↦ try_from_cbor_value_default f.decoder v
  | some custom ↦ custom v
]

-- The fields taken off an array, and what is left of it.
unfoldable pub decode_items :
    (types : List (Type 0)) → Fields types → Values → Result (Tuple types × Values)
decode_items [] fs vs = ok (tt, vs)
decode_items (A ∷ types) fs vs = elim fs.0.skip [
  | true ↦ do (rest, left) ← decode_items types fs.1 vs; ok ((fs.0.default, rest), left)
  | false ↦ elim vs [
    | no_values ↦ err missing_field
    | value v others ↦ do
      a ← decode_field fs.0 v
      (rest, left) ← decode_items types fs.1 others
      ok ((a, rest), left)
  ]
]

abbrev pub value_or_null : Option Value → Value
value_or_null none = simple null_value
value_or_null (some v) = v

-- The fields taken off a map, and what is left of it.
unfoldable pub decode_entries :
    (types : List (Type 0)) → Fields types → Entries → Result (Tuple types × Entries)
decode_entries [] fs es = ok (tt, es)
decode_entries (A ∷ types) fs es = elim fs.0.skip [
  | true ↦ do (rest, left) ← decode_entries types fs.1 es; ok ((fs.0.default, rest), left)
  | false ↦ do
    (found, others) ← peek_value_strict (field_key fs.0) es
    a ← decode_field fs.0 (value_or_null found)
    (rest, left) ← decode_entries types fs.1 others
    ok ((a, rest), left)
]

-- `handle_unknown_fields`: what is left is an error, unless it is allowed.
abbrev pub all_values_taken : {A : Type 0} → Bool → A × Values → Result A
all_values_taken true (a, left) = ok a
all_values_taken false (a, no_values) = ok a
all_values_taken false (a, value v left) = err unknown_field

abbrev pub all_entries_taken : {A : Type 0} → Bool → A × Entries → Result A
all_entries_taken true (a, left) = ok a
all_entries_taken false (a, no_entries) = ok a
all_entries_taken false (a, entry k v left) = err unknown_field

unfoldable pub array_from_value :
    (types : List (Type 0)) → Fields types → Bool → Value → Result (Tuple types)
array_from_value types fs allow_unknown (array vs) =
    decode_items types fs vs >>= all_values_taken allow_unknown
array_from_value types fs allow_unknown v = err unexpected_type

-- The entries and the fields are both sorted by their keys; `back` puts the fields in their places.
unfoldable pub struct_from_value :
    (types : List (Type 0)) → Fields types → Bool → Value → Result (Tuple types)
struct_from_value types fs allow_unknown (map es) =
    let sorted = sort_fields types fs in
    decode_entries sorted.types sorted.fields (sort_entries es)
    >>= all_entries_taken allow_unknown
    >>= λ a. ok (sorted.back a)
struct_from_value types fs allow_unknown v = err unexpected_type

unfoldable pub decode_form : Style → Bool → Bool → ℕ → Form
decode_form style transparent as_array fields =
    if transparent
    then (if is_newtype style fields then Form.transparent_form else Form.rejected)
    else if is_tuple style || as_array
    then Form.array_form
    else if is_unit style
    then Form.null_form
    else Form.map_form

-- A unit struct is decoded from any value.
unfoldable pub decode_as :
    Form → (types : List (Type 0)) → Fields types → Bool → Option (Value → Result (Tuple types))
decode_as Form.null_form [] fs allow_unknown = some (λ v. ok tt)
decode_as Form.null_form (A ∷ types) fs allow_unknown = none
decode_as Form.transparent_form [] fs allow_unknown = none
decode_as Form.transparent_form (A ∷ []) fs allow_unknown =
    some (λ v. try_from_cbor_value_default fs.0.decoder v >>= λ a. ok (a, tt))
decode_as Form.transparent_form (A ∷ B ∷ types) fs allow_unknown = none
decode_as Form.array_form types fs allow_unknown = some (array_from_value types fs allow_unknown)
decode_as Form.map_form types fs allow_unknown = some (struct_from_value types fs allow_unknown)
decode_as Form.rejected types fs allow_unknown = none

-- The impl, unless `no_default` leaves out `try_default`; `default` is the `Default::default()`.
abbrev pub and_default :
    {A : Type 0} → Attributes → A → Option (Value → Result A) → Option (Decode A)
and_default attributes default none = none
and_default attributes default (some from_value) = some (record {
  try_default =
      if not attributes.no_default || attributes.with_default
      then ok default
      else err missing_field;
  try_from_cbor_value = from_value;
})

-- `derive` of a struct
unfoldable pub decode_struct :
    Style
    → Attributes
    → (types : List (Type 0)) → Fields types
    → Tuple types
    → Option (Decode (Tuple types))
decode_struct style attributes types fs default =
    if validate attributes
    then and_default attributes default (
        decode_as (decode_form style attributes.transparent attributes.as_array (count types)) types
          fs attributes.allow_unknown)
    else none
