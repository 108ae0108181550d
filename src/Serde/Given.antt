-- ===== src/Serde/Given.antt =====
-- src/serde/ser.rs and src/serde/de.rs together: what the deserializer gives to a visitor from what the
-- serializer makes of a datum.
pub mod Serialized
use oasis_cbor.Prelude.{
  ℕ, ℤ, ◌<◌, ◌^◌, ◌≡◌, ◌≢◌, ◌⊎◌, inl, inr, refl, Bool, true, false, List, Option, none, some,
}
use oasis_cbor.Value.{
  Value, Values, Entries, unsigned, negative, byte_string, text_string, array, map, tag, simple,
  true_value, false_value, null_value, undefined,
}
use oasis_cbor.Decode.{is_char}
use oasis_cbor.Codable.Scalars.{IsInt, char_trip}
use oasis_cbor.Codable.Wide.{u128_trip}
use oasis_cbor.Serde.{
  Result, ok, err, ◌>>=◌, Datum, Data, Pairs, Fields, no_data, datum, no_pairs, pair, no_fields,
  field, serialize, serialize_elements, serialize_pairs, serialize_fields,
}
use oasis_cbor.Serde.Visits.{
  Visit, visit_u64, visit_u128, visit_char, visit_byte_buf, visit_string, visit_seq, visit_map,
  visit_bool, visit_unit, visit_none, visit_some, visit_enum, visit_int, deserialize_any,
  deserialize_any-int, deserialize_u128, deserialize_char, deserialize_option, deserialize_seq,
  deserialize_map, deserialize_struct, deserialize_enum, next_element, next_key, next_value,
  variant_seed, unit_variant_access, newtype_variant_seed, tuple_variant_access,
  struct_variant_access,
}

-- What is serialized as null, at which an `Option` cannot tell `Some` from `None`.
unfoldable pub is_null_like : Datum → Bool
is_null_like Datum.none = true
is_null_like Datum.unit = true
is_null_like Datum.unit_struct = true
is_null_like (Datum.some d) = is_null_like d
is_null_like _ = false

-- There is no `f32`, `f64` or `i128`, the other numbers are those of Rust's types, and no `Some` holds what is serialized as null.
unfoldable mutual
  pub IsFaithful : Datum → Type 0
  IsFaithful (Datum.int z) = IsInt 63 z
  IsFaithful (Datum.i128 z) = ⊥
  IsFaithful Datum.f32 = ⊥
  IsFaithful Datum.f64 = ⊥
  IsFaithful (Datum.u128 n) = n < 2 ^ 128
  IsFaithful (Datum.char c) = is_char c ≡ true
  IsFaithful (Datum.some d) = (is_null_like d ≡ false) × IsFaithful d
  IsFaithful (Datum.newtype_struct d) = IsFaithful d
  IsFaithful (Datum.newtype_variant variant d) = IsFaithful d
  IsFaithful (Datum.seq ds) = AreFaithful ds
  IsFaithful (Datum.tuple ds) = AreFaithful ds
  IsFaithful (Datum.tuple_struct ds) = AreFaithful ds
  IsFaithful (Datum.tuple_variant variant ds) = AreFaithful ds
  IsFaithful (Datum.map_of ds) = PairsFaithful ds
  IsFaithful (Datum.struct ds) = FieldsFaithful ds
  IsFaithful (Datum.struct_variant variant ds) = FieldsFaithful ds
  IsFaithful _ = Unit {0}

  pub AreFaithful : Data → Type 0
  AreFaithful no_data = Unit {0}
  AreFaithful (datum d ds) = IsFaithful d × AreFaithful ds

  pub PairsFaithful : Pairs → Type 0
  PairsFaithful no_pairs = Unit {0}
  PairsFaithful (pair k d ds) = IsFaithful k × IsFaithful d × PairsFaithful ds

  pub FieldsFaithful : Fields → Type 0
  FieldsFaithful no_fields = Unit {0}
  FieldsFaithful (field name d ds) = IsFaithful d × FieldsFaithful ds

-- An enum's value gives a visitor the variant's name and its contents.
abbrev pub GivesVariant : Value → List ℕ → (Value → Type 0) → Type 0
GivesVariant v name P =
    (access : Value × Value) × (contents : Value) × (deserialize_enum v ≡ ok (visit_enum access))
    × (variant_seed deserialize_any access ≡ ok (visit_string name, contents))
    × P contents

-- The deserializer of the value, by the method for what the datum is, calls the visitor's method for it
-- with what the datum holds, and where that is values, they do the same for the data in it.
unfoldable mutual
  pub Gives : Datum → Value → Type 0
  Gives (Datum.bool b) v = deserialize_any v ≡ ok (visit_bool b)
  Gives (Datum.int z) v = deserialize_any v ≡ ok (visit_int z)
  Gives (Datum.i128 z) v = ⊥
  Gives (Datum.uint n) v = deserialize_any v ≡ ok (visit_u64 n)
  Gives (Datum.u128 n) v = deserialize_u128 v ≡ ok (visit_u128 n)
  Gives (Datum.char c) v = deserialize_char v ≡ ok (visit_char c)
  Gives (Datum.str s) v = deserialize_any v ≡ ok (visit_string s)
  Gives (Datum.bytes bs) v = deserialize_any v ≡ ok (visit_byte_buf bs)
  Gives Datum.f32 v = ⊥
  Gives Datum.f64 v = ⊥
  Gives Datum.none v = deserialize_option v ≡ ok visit_none
  Gives Datum.unit v = deserialize_any v ≡ ok visit_unit
  Gives Datum.unit_struct v = deserialize_any v ≡ ok visit_unit
  Gives (Datum.some d) v = (x : Value) × (deserialize_option v ≡ ok (visit_some x)) × Gives d x
  Gives (Datum.newtype_struct d) v =
      (xs rest : Values) × (x : Value) × (deserialize_any v ≡ ok (visit_seq xs))
      × (next_element xs ≡ (some x, rest))
      × Gives d x
  Gives (Datum.unit_variant name) v =
      GivesVariant v name (λ contents. unit_variant_access contents ≡ ok tt)
  Gives (Datum.newtype_variant name d) v =
      GivesVariant v name
        (λ contents. (x : Value) × (newtype_variant_seed ok contents ≡ ok x) × Gives d x)
  Gives (Datum.seq ds) v =
      (xs : Values) × (deserialize_seq v ≡ ok (visit_seq xs)) × GivesElements ds xs
  Gives (Datum.tuple ds) v =
      (xs : Values) × (deserialize_any v ≡ ok (visit_seq xs)) × GivesElements ds xs
  Gives (Datum.tuple_struct ds) v =
      (xs : Values) × (deserialize_any v ≡ ok (visit_seq xs)) × GivesElements ds xs
  Gives (Datum.tuple_variant name ds) v = GivesVariant v name (λ contents.
      (xs : Values) × (tuple_variant_access contents ≡ ok (visit_seq xs)) × GivesElements ds xs)
  Gives (Datum.map_of ds) v =
      (es : Entries) × (deserialize_map v ≡ ok (visit_map es)) × GivesPairs ds es
  Gives (Datum.struct ds) v =
      (es : Entries) × (deserialize_struct v ≡ ok (visit_map es)) × GivesFields ds es
  Gives (Datum.struct_variant name ds) v = GivesVariant v name (λ contents.
      (es : Entries) × (struct_variant_access contents ≡ ok (visit_map es)) × GivesFields ds es)

  -- The sequence access gives the items in order, and then none.
  pub GivesElements : Data → Values → Type 0
  GivesElements no_data xs = next_element xs ≡ (none, xs)
  GivesElements (datum d ds) xs =
      (x : Value) × (rest : Values) × (next_element xs ≡ (some x, rest))
      × Gives d x
      × GivesElements ds rest

  -- The map access gives a key and a value in turn, and then no key.
  pub GivesPairs : Pairs → Entries → Type 0
  GivesPairs no_pairs es = next_key es ≡ (none, es)
  GivesPairs (pair k d ds) es =
      (x y : Value) × (between rest : Entries) × (next_key es ≡ (some x, between))
      × Gives k x
      × (next_value between ≡ ok (y, rest))
      × Gives d y
      × GivesPairs ds rest

  -- The key of a field is its name.
  pub GivesFields : Fields → Entries → Type 0
  GivesFields no_fields es = next_key es ≡ (none, es)
  GivesFields (field name d ds) es =
      (x y : Value) × (between rest : Entries) × (next_key es ≡ (some x, between))
      × (deserialize_any x ≡ ok (visit_string name))
      × (next_value between ≡ ok (y, rest))
      × Gives d y
      × GivesFields ds rest
