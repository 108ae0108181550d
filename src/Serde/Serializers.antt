-- ===== src/Serde/Serializers.antt =====
-- src/serde/ser.rs: the serializers that keep a state between the calls of a type. A method on
-- `&mut self` returns the state that it leaves. The functions named `drive_…` are the type's calls of
-- them, in the order of its contents.
pub mod Joined
use oasis_cbor.Prelude.{Option, none, some, List, ℕ, ◌≡◌, refl, ap, ◌∙◌}
use oasis_cbor.Value.{Value, Values, Entries, array, map, no_values, value, no_entries, entry}
use oasis_cbor.Serde.{
  Error, Result, ok, err, ◌>>=◌, Datum, Data, Pairs, Fields, seq, tuple, tuple_struct,
  tuple_variant, map_of, struct, struct_variant, no_data, datum, no_pairs, pair, no_fields, field,
  serialize_str, variant_map, serialize, serialize_elements, serialize_pairs, serialize_fields,
}

-- `Vec::push`
unfoldable pub push_item : Values → Value → Values
push_item no_values x = value x no_values
push_item (value v vs) x = value v (push_item vs x)

unfoldable pub push_pair : Entries → Value → Value → Entries
push_pair no_entries x y = entry x y no_entries
push_pair (entry k v es) x y = entry k v (push_pair es x y)

pub record SeqSerializer : Type 0 where
  pub items : Values

unfoldable pub serialize_element : Datum → SeqSerializer → Result SeqSerializer
serialize_element v s = serialize v >>= λ x. ok (record { items = push_item s.items x })

unfoldable pub end_seq : SeqSerializer → Value
end_seq s = array s.items

pub record TupleStructSerializer : Type 0 where
  pub fields : Values

unfoldable pub serialize_tuple_field : Datum → TupleStructSerializer → Result TupleStructSerializer
serialize_tuple_field v s = serialize v >>= λ x. ok (record { fields = push_item s.fields x })

unfoldable pub end_tuple_struct : TupleStructSerializer → Value
end_tuple_struct s = array s.fields

pub record TupleVariantSerializer : Type 0 where
  pub variant : List ℕ
  pub fields : Values

unfoldable pub serialize_variant_item :
    Datum → TupleVariantSerializer → Result TupleVariantSerializer
serialize_variant_item v s = serialize v >>= λ x. ok (record s { fields = push_item s.fields x })

unfoldable pub end_tuple_variant : TupleVariantSerializer → Value
end_tuple_variant s = variant_map s.variant (array s.fields)

pub record StructSerializer : Type 0 where
  pub fields : Entries

unfoldable pub serialize_field : List ℕ → Datum → StructSerializer → Result StructSerializer
serialize_field key v s =
    serialize v >>= λ y. ok (record { fields = push_pair s.fields (serialize_str key) y })

unfoldable pub end_struct : StructSerializer → Value
end_struct s = map s.fields

pub record StructVariantSerializer : Type 0 where
  pub variant : List ℕ
  pub fields : Entries

unfoldable pub serialize_variant_field :
    List ℕ → Datum → StructVariantSerializer → Result StructVariantSerializer
serialize_variant_field key v s =
    serialize v >>= λ y. ok (record s { fields = push_pair s.fields (serialize_str key) y })

unfoldable pub end_struct_variant : StructVariantSerializer → Value
end_struct_variant s = variant_map s.variant (map s.fields)

pub record MapSerializer : Type 0 where
  pub key : Option Value
  pub items : Entries

-- A call of a method that can panic.
pub data Called : Type 0 where
  returned : MapSerializer → Called
  failed : Error → Called
  panicked : Called

unfoldable pub serialize_key : Datum → MapSerializer → Called
serialize_key k s = elim (serialize k) [
  | ok x ↦ returned (record s { key = some x })
  | err e ↦ failed e
]

-- The key is taken, with `expect`, before the value is serialized.
unfoldable pub serialize_value : Datum → MapSerializer → Called
serialize_value v s = elim s.key [
  | none ↦ panicked
  | some x ↦ elim (serialize v) [
    | ok y ↦ returned (record { key = none; items = push_pair s.items x y })
    | err e ↦ failed e
  ]
]

unfoldable pub end_map : MapSerializer → Value
end_map s = map s.items

abbrev pub and_call : Called → (MapSerializer → Called) → Called
and_call (returned s) next = next s
and_call (failed e) next = failed e
and_call panicked next = panicked

-- The states that `serialize_seq` and the other methods of `Serializer` begin with.
abbrev pub empty_seq : SeqSerializer
empty_seq = record { items = no_values }

abbrev pub empty_tuple_struct : TupleStructSerializer
empty_tuple_struct = record { fields = no_values }

abbrev pub empty_tuple_variant : List ℕ → TupleVariantSerializer
empty_tuple_variant name = record { variant = name; fields = no_values }

abbrev pub empty_map : MapSerializer
empty_map = record { key = none; items = no_entries }

abbrev pub empty_struct : StructSerializer
empty_struct = record { fields = no_entries }

abbrev pub empty_struct_variant : List ℕ → StructVariantSerializer
empty_struct_variant name = record { variant = name; fields = no_entries }

-- A call of `step` for each item.
unfoldable pub drive : {S : Type 0} → (Datum → S → Result S) → Data → S → Result S
drive step no_data s = ok s
drive step (datum v rest) s = step v s >>= λ s'. drive step rest s'

unfoldable pub drive_fields : {S : Type 0} → (List ℕ → Datum → S → Result S) → Fields → S → Result S
drive_fields step no_fields s = ok s
drive_fields step (field key v rest) s = step key v s >>= λ s'. drive_fields step rest s'

unfoldable pub drive_pairs : Pairs → MapSerializer → Called
drive_pairs no_pairs s = returned s
drive_pairs (pair k v rest) s =
    and_call (serialize_key k s) λ s₁. and_call (serialize_value v s₁) λ s₂. drive_pairs rest s₂

-- What `end` makes of the state that the calls leave; a panic has no result.
abbrev pub ended : Called → Option (Result Value)
ended (returned s) = some (ok (end_map s))
ended (failed e) = some (err e)
ended panicked = none
