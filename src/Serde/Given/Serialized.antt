-- ===== src/Serde/Given/Serialized.antt =====
-- src/serde/ser.rs and src/serde/de.rs together: a serialized datum is given to visitors as it was.
use oasis_cbor.Prelude.{pos, negsuc, ◌≡◌, ◌⊎◌, inl, inr, refl, true, false}
use oasis_cbor.Value.{
  Value, Values, Entries, unsigned, negative, byte_string, text_string, array, map, tag, simple,
  true_value, false_value, null_value, undefined, no_values, value, no_entries, entry,
}
use oasis_cbor.Encode.{encode_int, encode_u128, encode_char}
use oasis_cbor.Decode.{char_from_value, u128_from_value}
use oasis_cbor.Codable.Scalars.{char_trip}
use oasis_cbor.Codable.Wide.{u128_trip}
use oasis_cbor.Serde.{
  ok, Datum, Data, Pairs, Fields, no_data, datum, no_pairs, pair, no_fields, field, serialize,
  serialize_elements, serialize_pairs, serialize_fields, variant_map,
}
use oasis_cbor.Serde.Visits.{
  visit_some, deserialize_any, deserialize_any-int, deserialize_u128, deserialize_char,
  deserialize_option, deserialize_seq, deserialize_map, deserialize_enum, next_element, next_key,
  next_value, variant_seed, unit_variant_access,
}
use oasis_cbor.Serde.Given.{
  is_null_like, IsFaithful, AreFaithful, PairsFaithful, FieldsFaithful, Gives, GivesElements,
  GivesPairs, GivesFields,
}

option-cases : (v : Value) → (v ≡ simple null_value) ⊎ (deserialize_option v ≡ ok (visit_some v))
unfolding deserialize_option
option-cases (simple null_value) = inl refl
option-cases (simple undefined) = inr refl
option-cases (simple true_value) = inr refl
option-cases (simple false_value) = inr refl
option-cases (unsigned n) = inr refl
option-cases (negative z) = inr refl
option-cases (byte_string bs) = inr refl
option-cases (text_string bs) = inr refl
option-cases (array vs) = inr refl
option-cases (map es) = inr refl
option-cases (tag t v) = inr refl

-- No visitor gets a datum out of null that is not null there.
Gives-null : (d : Datum) → is_null_like d ≡ false → ¬ Gives d (simple null_value)
unfolding is_null_like Gives deserialize_any deserialize_u128 deserialize_char u128_from_value
    char_from_value deserialize_seq deserialize_map deserialize_enum deserialize_option
Gives-null (Datum.bool b) n h = cc
Gives-null (Datum.int (pos k)) n h = cc
Gives-null (Datum.int (negsuc k)) n h = cc
Gives-null (Datum.i128 z) n h = h
Gives-null (Datum.uint k) n h = cc
Gives-null (Datum.u128 k) n h = cc
Gives-null (Datum.char k) n h = cc
Gives-null (Datum.str s) n h = cc
Gives-null (Datum.bytes bs) n h = cc
Gives-null Datum.f32 n h = h
Gives-null Datum.f64 n h = h
Gives-null Datum.none n h = cc
Gives-null Datum.unit n h = cc
Gives-null Datum.unit_struct n h = cc
Gives-null (Datum.some d) n (x, e, g) = cc
Gives-null (Datum.newtype_struct d) n (xs, rest, x, e, _, _) = cc
Gives-null (Datum.unit_variant name) n (a, c, e, _, _) = cc
Gives-null (Datum.newtype_variant name d) n (a, c, e, _, _) = cc
Gives-null (Datum.seq ds) n (xs, e, _) = cc
Gives-null (Datum.tuple ds) n (xs, e, _) = cc
Gives-null (Datum.tuple_struct ds) n (xs, e, _) = cc
Gives-null (Datum.tuple_variant name ds) n (a, c, e, _, _) = cc
Gives-null (Datum.map_of ds) n (es, e, _) = cc
Gives-null (Datum.struct ds) n (es, e, _) = cc
Gives-null (Datum.struct_variant name ds) n (a, c, e, _, _) = cc

-- A value that is made, and that gives the datum.
abbrev Given : Datum → Type 0
Given d = (v : Value) × (serialize d ≡ ok v) × Gives d v

some_given : (d : Datum) → is_null_like d ≡ false → Given d → Given (Datum.some d)
unfolding serialize Gives
some_given d n (v, e, g) = elim (option-cases v) [
  | inl same ↦ absurd (Gives-null d n (rw same at g))
  | inr visited ↦ (v, e, (v, visited, g))
]

mutual
  unfolding serialize IsFaithful Gives deserialize_any deserialize_u128 deserialize_char
      deserialize_option deserialize_seq deserialize_map deserialize_enum next_element next_key
      next_value variant_seed unit_variant_access

  given : (d : Datum) → IsFaithful d → Given d
  given (Datum.bool true) f = (_, refl, refl)
  given (Datum.bool false) f = (_, refl, refl)
  given (Datum.int z) f = (encode_int.into_cbor_value z, refl, deserialize_any-int z f)
  given (Datum.i128 z) f = absurd f
  given (Datum.uint n) f = (_, refl, refl)
  given (Datum.u128 n) f = (encode_u128.into_cbor_value n, refl, rw (u128_trip n f) refl)
  given (Datum.char c) f = (encode_char.into_cbor_value c, refl, rw (char_trip c f) refl)
  given (Datum.str s) f = (_, refl, refl)
  given (Datum.bytes bs) f = (_, refl, refl)
  given Datum.f32 f = absurd f
  given Datum.f64 f = absurd f
  given Datum.none f = (_, refl, refl)
  given Datum.unit f = (_, refl, refl)
  given Datum.unit_struct f = (_, refl, refl)
  given (Datum.some d) f = some_given d f.0 (given d f.1)
  given (Datum.newtype_struct d) f =
      let (x, e, g) = given d f in
      (array (value x no_values), rw e refl, (_, no_values, x, refl, refl, g))
  given (Datum.unit_variant name) f = (_, refl, (_, _, refl, refl, refl))
  given (Datum.newtype_variant name d) f =
      let (x, e, g) = given d f in
      (variant_map name x, rw e refl, ((text_string name, x), x, refl, refl, (x, refl, g)))
  given (Datum.seq ds) f =
      let (xs, e, g) = given_elements ds f in (array xs, rw e refl, (xs, refl, g))
  given (Datum.tuple ds) f =
      let (xs, e, g) = given_elements ds f in (array xs, rw e refl, (xs, refl, g))
  given (Datum.tuple_struct ds) f =
      let (xs, e, g) = given_elements ds f in (array xs, rw e refl, (xs, refl, g))
  given (Datum.tuple_variant name ds) f =
      let (xs, e, g) = given_elements ds f in
      (
        variant_map name (array xs),
        rw e refl,
        ((text_string name, array xs), array xs, refl, refl, (xs, refl, g)),
      )
  given (Datum.map_of ds) f =
      let (es, e, g) = given_pairs ds f in (map es, rw e refl, (es, refl, g))
  given (Datum.struct ds) f =
      let (es, e, g) = given_fields ds f in (map es, rw e refl, (es, refl, g))
  given (Datum.struct_variant name ds) f =
      let (es, e, g) = given_fields ds f in
      (
        variant_map name (map es),
        rw e refl,
        ((text_string name, map es), map es, refl, refl, (es, refl, g)),
      )

  given_elements :
      (ds : Data)
      → AreFaithful ds
      → (xs : Values) × (serialize_elements ds ≡ ok xs) × GivesElements ds xs
  given_elements no_data f = (no_values, refl, refl)
  given_elements (datum d ds) f =
      let (x, e, g) = given d f.0 in
      let (xs, e', g') = given_elements ds f.1 in
      (value x xs, rw (e, e') refl, (x, xs, refl, g, g'))

  given_pairs :
      (ds : Pairs)
      → PairsFaithful ds
      → (es : Entries) × (serialize_pairs ds ≡ ok es) × GivesPairs ds es
  given_pairs no_pairs f = (no_entries, refl, refl)
  given_pairs (pair k d ds) f =
      let (x, e, g) = given k f.0 in
      let (y, e', g') = given d f.1 in
      let (es, e'', g'') = given_pairs ds f.2 in
      (entry x y es, rw (e, e', e'') refl, (x, y, _, es, refl, g, refl, g', g''))

  given_fields :
      (ds : Fields)
      → FieldsFaithful ds
      → (es : Entries) × (serialize_fields ds ≡ ok es) × GivesFields ds es
  given_fields no_fields f = (no_entries, refl, refl)
  given_fields (field name d ds) f =
      let (y, e, g) = given d f.0 in
      let (es, e', g') = given_fields ds f.1 in
      (
        entry (text_string name) y es,
        rw (e, e') refl,
        (text_string name, y, _, es, refl, refl, refl, g, g'),
      )
