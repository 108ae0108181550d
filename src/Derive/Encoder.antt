-- ===== src/Derive/Encoder.antt =====
-- derive/src/encode.rs: the impl of `Encode` for a struct. Where the macro reports an error, so that
-- the program does not compile, there is no impl.
use oasis_cbor.Prelude.{
  ℕ, Bool, true, false, not, ◌&&◌, ◌||◌, Option, none, some, List, [], ◌∷◌, if◌then◌else◌,
}
use oasis_cbor.Value.{
  Value, Values, Entries, array, map, simple, no_values, value, no_entries, entry, null_value,
}
use oasis_cbor.Encode.{Encode, Tuple}
use oasis_cbor.Derive.Declaration.{
  Field, Fields, field_key, count, Style, is_unit, is_tuple, is_newtype, Attributes, validate,
}

-- What the generated code is about, by the first tests of `derive_struct`.
pub data Form : Type 0 where
  null_form transparent_form array_form map_form rejected : Form

unfoldable pub encode_form : Style → Bool → Bool → Bool → ℕ → Form
encode_form style transparent as_array unit_as_struct fields =
    if is_unit style && not unit_as_struct
    then Form.null_form
    else if transparent
    then (if is_newtype style fields then Form.transparent_form else Form.rejected)
    else if is_tuple style || as_array
    then Form.array_form
    else Form.map_form

unfoldable pub field_value : {A : Type 0} → Field A → A → Value
field_value f a = elim f.serialize_with [
  | none ↦ f.encoder.into_cbor_value a
  | some custom ↦ custom a
]

-- What a field pushes in the form of a map. An optional one with no `skip_serializing_if` is encoded
-- by its type alone.
unfoldable pub optional_value : {A : Type 0} → Field A → A → Option Value
optional_value f a =
    if f.optional
    then elim f.skip_serializing_if [
      | none ↦ f.encoder.into_optional_cbor_value a
      | some skips ↦ if skips a then none else some (field_value f a)
    ]
    else some (field_value f a)

abbrev pub push_some : Value → Option Value → Entries → Entries
push_some key none es = es
push_some key (some v) es = entry key v es

unfoldable pub push_values : (types : List (Type 0)) → Fields types → Tuple types → Values
push_values [] fs a = no_values
push_values (A ∷ types) fs a =
    let rest = push_values types fs.1 a.1 in
    if fs.0.skip then rest else value (field_value fs.0 a.0) rest

unfoldable pub push_entries : (types : List (Type 0)) → Fields types → Tuple types → Entries
push_entries [] fs a = no_entries
push_entries (A ∷ types) fs a =
    let rest = push_entries types fs.1 a.1 in
    if fs.0.skip then rest else push_some (field_key fs.0) (optional_value fs.0 a.0) rest

-- `skip_serializing_if` on a field of an array is an error.
unfoldable pub has_conditional : (types : List (Type 0)) → Fields types → Bool
has_conditional [] fs = false
has_conditional (A ∷ types) fs =
    (not fs.0.skip && elim fs.0.skip_serializing_if [ none ↦ false | some skips ↦ true ])
    || has_conditional types fs.1

-- The generated `into_optional_cbor_value` of a struct with fields.
abbrev pub unless_empty_map : Value → Option Value
unless_empty_map (map no_entries) = none
unless_empty_map v = some v

-- `is_empty` is the trait's own.
abbrev pub encode_fields : {A : Type 0} → (A → Value) → Encode A
encode_fields into_cbor_value = record {
  is_empty = λ a. false;
  into_cbor_value = into_cbor_value;
  into_optional_cbor_value = λ a. unless_empty_map (into_cbor_value a);
}

abbrev pub encode_null : {A : Type 0} → Encode A
encode_null = record {
  is_empty = λ a. false;
  into_cbor_value = λ a. simple null_value;
  into_optional_cbor_value = λ a. none;
}

abbrev pub encode_transparent : {A : Type 0} → Field A → Encode (A × Unit {0})
encode_transparent f = record {
  is_empty = λ a. false;
  into_cbor_value = λ a. f.encoder.into_cbor_value a.0;
  into_optional_cbor_value = λ a. f.encoder.into_optional_cbor_value a.0;
}

abbrev pub encode_array : (types : List (Type 0)) → Fields types → Encode (Tuple types)
encode_array types fs = encode_fields (λ a. array (push_values types fs a))

abbrev pub encode_map : (types : List (Type 0)) → Fields types → Encode (Tuple types)
encode_map types fs = encode_fields (λ a. map (push_entries types fs a))

unfoldable pub encode_as :
    Form → (types : List (Type 0)) → Fields types → Option (Encode (Tuple types))
encode_as Form.null_form types fs = some encode_null
encode_as Form.transparent_form [] fs = none
encode_as Form.transparent_form (A ∷ []) fs = some (encode_transparent fs.0)
encode_as Form.transparent_form (A ∷ B ∷ types) fs = none
encode_as Form.array_form types fs =
    if has_conditional types fs then none else some (encode_array types fs)
encode_as Form.map_form types fs = some (encode_map types fs)
encode_as Form.rejected types fs = none

-- `derive_struct`
unfoldable pub encode_struct :
    Style → Attributes → (types : List (Type 0)) → Fields types → Option (Encode (Tuple types))
encode_struct style attributes types fs =
    if validate attributes
    then encode_as
        (encode_form style attributes.transparent attributes.as_array false (count types)) types fs
    else none
