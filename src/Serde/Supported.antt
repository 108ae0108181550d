-- ===== src/Serde/Supported.antt =====
-- src/serde/ser.rs: the data that the serializer takes, and those that it refuses.
use oasis_cbor.Prelude.{◌≡◌, refl, Option, none, some}
use oasis_cbor.Serde.Failure.{i128_is_not_supported, f32_type, f64_type}
use oasis_cbor.Serde.{
  Result, ok, err, ◌>>=◌, unsupported_type, other, Error, Datum, Data, Pairs, Fields, no_data,
  datum, no_pairs, pair, no_fields, field, serialize, serialize_elements, serialize_pairs,
  serialize_fields,
}

-- The first error of two, if there is one.
abbrev or_later : Option Error → Option Error → Option Error
or_later none later = later
or_later (some e) later = some e

-- The error for the first part of a datum, in the order in which the parts are serialized, that is a
-- floating-point number or an integer of 128 bits with a sign.
unfoldable mutual
  pub refusal : Datum → Option Error
  refusal (Datum.i128 v) = some (other i128_is_not_supported)
  refusal Datum.f32 = some (unsupported_type f32_type)
  refusal Datum.f64 = some (unsupported_type f64_type)
  refusal (Datum.some v) = refusal v
  refusal (Datum.newtype_struct v) = refusal v
  refusal (Datum.newtype_variant variant v) = refusal v
  refusal (Datum.seq items) = refusal_among items
  refusal (Datum.tuple items) = refusal_among items
  refusal (Datum.tuple_struct items) = refusal_among items
  refusal (Datum.tuple_variant variant items) = refusal_among items
  refusal (Datum.map_of items) = refusal_among_pairs items
  refusal (Datum.struct fields) = refusal_among_fields fields
  refusal (Datum.struct_variant variant fields) = refusal_among_fields fields
  refusal _ = none

  pub refusal_among : Data → Option Error
  refusal_among no_data = none
  refusal_among (datum v rest) = or_later (refusal v) (refusal_among rest)

  pub refusal_among_pairs : Pairs → Option Error
  refusal_among_pairs no_pairs = none
  refusal_among_pairs (pair k v rest) =
      or_later (refusal k) (or_later (refusal v) (refusal_among_pairs rest))

  pub refusal_among_fields : Fields → Option Error
  refusal_among_fields no_fields = none
  refusal_among_fields (field key v rest) = or_later (refusal v) (refusal_among_fields rest)

-- The error, if there is one, and else some result.
abbrev pub Returns {ℓ} : {A : Type ℓ} → Option Error → Result A → Type ℓ
Returns {A = A} none r = (a : A) × (r ≡ ok a)
Returns (some e) r = r ≡ err e

Returns-map {ℓ κ} :
    {A : Type ℓ} {B : Type κ} (e : Option Error) (r : Result A) (f : A → B)
    → Returns e r
    → Returns e (r >>= λ a. ok (f a))
Returns-map none r f h = (f h.0, rw h.1 refl)
Returns-map (some e) r f h = rw h refl

Returns-bind {ℓ κ} :
    {A : Type ℓ} {B : Type κ} (e e' : Option Error) (r : Result A) (f : A → Result B)
    → Returns e r
    → ((a : A) → Returns e' (f a))
    → Returns (or_later e e') (r >>= f)
Returns-bind none none r f h next = let (x, same) = next h.0 in (x, rw h.1 same)
Returns-bind none (some e') r f h next = rw h.1 (next h.0)
Returns-bind (some e) e' r f h next = rw h refl

mutual
  unfolding serialize refusal

  outcome : (d : Datum) → Returns (refusal d) (serialize d)
  outcome (Datum.i128 v) = refl
  outcome Datum.f32 = refl
  outcome Datum.f64 = refl
  outcome (Datum.some v) = outcome v
  outcome (Datum.newtype_struct v) = Returns-map _ _ _ (outcome v)
  outcome (Datum.newtype_variant variant v) = Returns-map _ _ _ (outcome v)
  outcome (Datum.seq items) = Returns-map _ _ _ (outcomes items)
  outcome (Datum.tuple items) = Returns-map _ _ _ (outcomes items)
  outcome (Datum.tuple_struct items) = Returns-map _ _ _ (outcomes items)
  outcome (Datum.tuple_variant variant items) = Returns-map _ _ _ (outcomes items)
  outcome (Datum.map_of items) = Returns-map _ _ _ (pair_outcomes items)
  outcome (Datum.struct fields) = Returns-map _ _ _ (field_outcomes fields)
  outcome (Datum.struct_variant variant fields) = Returns-map _ _ _ (field_outcomes fields)
  outcome (Datum.bool v) = (_, refl)
  outcome (Datum.int v) = (_, refl)
  outcome (Datum.uint v) = (_, refl)
  outcome (Datum.u128 v) = (_, refl)
  outcome (Datum.char v) = (_, refl)
  outcome (Datum.str v) = (_, refl)
  outcome (Datum.bytes v) = (_, refl)
  outcome Datum.none = (_, refl)
  outcome Datum.unit = (_, refl)
  outcome Datum.unit_struct = (_, refl)
  outcome (Datum.unit_variant variant) = (_, refl)

  outcomes : (items : Data) → Returns (refusal_among items) (serialize_elements items)
  outcomes no_data = (_, refl)
  outcomes (datum v rest) = Returns-bind _ _ _ _ (outcome v) λ x. Returns-map _ _ _ (outcomes rest)

  pair_outcomes : (items : Pairs) → Returns (refusal_among_pairs items) (serialize_pairs items)
  pair_outcomes no_pairs = (_, refl)
  pair_outcomes (pair k v rest) =
      Returns-bind _ _ _ _ (outcome k)
        λ x. Returns-bind _ _ _ _ (outcome v) λ y. Returns-map _ _ _ (pair_outcomes rest)

  field_outcomes :
      (fields : Fields) → Returns (refusal_among_fields fields) (serialize_fields fields)
  field_outcomes no_fields = (_, refl)
  field_outcomes (field key v rest) =
      Returns-bind _ _ _ _ (outcome v) λ y. Returns-map _ _ _ (field_outcomes rest)

-- serde's serializer gives a value for every datum with no `f32`, `f64` or `i128` in it at any depth.
-- For any other datum it gives an error, that for the first of those in it, in the order in which they
-- are serialized: `UnsupportedType` with the name of the type of a floating-point number, and for an
-- `i128` `Other` with the text that serde documents.
pub serialize-refusal : (d : Datum) → Returns (refusal d) (serialize d)
serialize-refusal d = outcome d
