-- ===== src/Tests/Enum.antt =====
-- Enums of tests/derive_test.rs with what the macros of derive/src derive for them, and the theorems
-- about the macros at concrete inputs.
use oasis_cbor.Prelude.{
  ℕ, ◌≡◌, inl, inr, refl, Bool, true, false, Option, none, some, List, [], ◌∷◌, arith,
}
use oasis_cbor.Value.{
  Value, Entries, unsigned, text_string, map, simple, null_value, undefined, no_entries, entry,
}
use oasis_cbor.Value.Order.{cmp, eq, compare_bytes}
use oasis_cbor.Value.Convert.{from}
use oasis_cbor.Encoding.Utf8.{is_utf8}
use oasis_cbor.Encoding.Canonical.{depth, IsCanonical}
use oasis_cbor.Encode.{Encode, encode_by, encode_uint}
use oasis_cbor.Api.{to_vec, from_slice}
use oasis_cbor.Encoding.Normal.{insert_key, normalize}
use oasis_cbor.Decode.{
  Decode, ok, err, missing_field, decode_uint, uint_from_value, try_from_cbor_value_default,
}
use oasis_cbor.Derive.Declaration.{
  Key, to_cbor_key, Field, Fields, field_key, Attributes, Style, unit_style, tuple_style,
  named_style, validate,
}
use oasis_cbor.Derive.Encoder.{encode_form, encode_as, field_value, optional_value, push_entries}
use oasis_cbor.Derive.Decoder.{
  decode_field, decode_entries, decode_form, decode_as, struct_from_value,
}
use oasis_cbor.Macros.{peek_value_strict}
use oasis_cbor.Derive.Decoder.Sorting.{insert_entry, sort_entries, insert_field, sort_fields}
use oasis_cbor.Derive.Enum.{tag_map}
use oasis_cbor.Derive.Enum.{
  Variant, Variants, Sum, variant_key, is_unit_variant, unit_value, newtype_value, variant_value,
  is_arrayed, wrap, encode_variant, encode_enum, Arm, gives, unreachable,
}
use oasis_cbor.Derive.Enum.Decoder.{
  newtype_from_value, variant_from_value, enum_from_value, has_rejected, is_non_unit, is_rejected,
  repeats_missing, decode_enum,
}
use oasis_cbor.Derive.Enum.Bytes.{from_slice-encode_enum}
use oasis_cbor.Derive.Enum.Regular.{IsRegular, AreRegular, KeepsSum}
use oasis_cbor.Derive.Enum.RoundTrip.{enum_from_value-encode_enum}
use oasis_cbor.Derive.Marker.{
  all_encode_as_map, all_variants, maybe_encode_as_map, encode_enum-all_encode_as_map,
}
use oasis_cbor.Derive.Enum.Selectors.{AreTaggable, KeepsMaps}
use oasis_cbor.Derive.Enum.Tagged.{enum_from_value-encode_tagged}

abbrev attributes : Option Key → Attributes
attributes label = record {
  transparent = false;
  untagged = false;
  tag = label;
  as_array = false;
  no_default = false;
  with_default = false;
  allow_unknown = false;
}

abbrev u64_field : List ℕ → Field ℕ
u64_field ident = record {
  ident = ident;
  rename = none;
  optional = false;
  skip = false;
  skip_serializing_if = none;
  serialize_with = none;
  deserialize_with = none;
  encoder = encode_uint;
  decoder = decode_uint 64;
  default = 0;
}

abbrev variant :
    (types : List (Type 0)) → List ℕ → Option Key → Bool → Style → Fields types → Variant types
variant types ident rename missing style fields = record {
  ident = ident;
  rename = rename;
  style = style;
  fields = fields;
  discriminant = none;
  as_array = false;
  as_struct = false;
  skip = false;
  embed = false;
  allow_unknown = false;
  missing = missing;
}

abbrev numbers : List (Type 0)
numbers = ℕ ∷ []

-- `One` and `Two(u64)` of D.
abbrev kinds : List (List (Type 0))
kinds = [] ∷ (numbers ∷ [])

abbrev one : Variant []
one = variant [] (0x4f ∷ 0x6e ∷ 0x65 ∷ []) none false unit_style tt

abbrev two : Variant numbers
two = variant numbers (0x54 ∷ 0x77 ∷ 0x6f ∷ []) none false tuple_style (u64_field [], tt)

abbrev variants : Variants kinds
variants = (one, (two, tt))

one-IsRegular : IsRegular [] one
unfolding variant_key unit_value from IsCanonical is_utf8
one-IsRegular = record {
  kept = refl;
  own = refl;
  keyed = refl;
  key = (omega arith, omega arith, refl);
  unit = (omega arith, omega arith, refl);
  no_map = refl;
}

two-IsRegular : IsRegular numbers two
unfolding variant_key unit_value from IsCanonical is_utf8
two-IsRegular = record {
  kept = refl;
  own = refl;
  keyed = refl;
  key = (omega arith, omega arith, refl);
  unit = (omega arith, omega arith, refl);
  no_map = refl;
}

variants-AreRegular : AreRegular kinds variants
unfolding variant_key unit_value from cmp eq compare_bytes
variants-AreRegular = (one-IsRegular, ((refl, refl), tt), (two-IsRegular, tt, tt))

chosen_kept : KeepsSum (λ v. v) kinds variants (inr (inl (7, tt)))
unfolding is_unit_variant variant_value newtype_value variant_from_value newtype_from_value
    uint_from_value try_from_cbor_value_default
chosen_kept = (_, refl, refl)

variant_kept :
    (x : Value) × (encode_enum (attributes none) kinds variants (inr (inl (7, tt))) ≡ gives x)
    × (enum_from_value none kinds variants x ≡ ok (inr (inl (7, tt))))
variant_kept =
    enum_from_value-encode_enum (attributes none) refl refl kinds variants (inr (inl (7, tt)))
      variants-AreRegular chosen_kept

-- `V0` and `V1` of InternallyTagged, whose tag is "v".
abbrev label : Key
label = Key.string (0x76 ∷ [])

abbrev versions : List (List (Type 0))
versions = numbers ∷ (numbers ∷ [])

abbrev version_0 : Variant numbers
version_0 =
    variant numbers (0x56 ∷ 0x30 ∷ []) (some (Key.integer 0)) true named_style
      (u64_field (0x66 ∷ 0x6f ∷ 0x6f ∷ []), tt)

abbrev version_1 : Variant numbers
version_1 =
    variant numbers (0x56 ∷ 0x31 ∷ []) (some (Key.integer 1)) false named_style
      (u64_field (0x62 ∷ 0x61 ∷ 0x72 ∷ []), tt)

abbrev tagged_variants : Variants versions
tagged_variants = (version_0, (version_1, tt))

tagged_variants-AreTaggable : AreTaggable versions tagged_variants
unfolding variant_key to_cbor_key from cmp eq IsCanonical is_arrayed
tagged_variants-AreTaggable = (
  record { kept = refl; own = refl; named = refl; key = omega arith },
  ((refl, refl), tt),
  (record { kept = refl; own = refl; named = refl; key = omega arith }, tt, tt),
)

tagged_kept : KeepsMaps (to_cbor_key label) versions tagged_variants (inr (inl (5, tt)))
unfolding variant_value encode_form encode_as push_entries optional_value field_value field_key from
    to_cbor_key cmp eq variant_from_value decode_form decode_as struct_from_value sort_fields
    insert_field sort_entries insert_entry decode_entries peek_value_strict decode_field
    try_from_cbor_value_default uint_from_value compare_bytes
tagged_kept = (_, refl, (refl, tt), refl)

enum_from_value-encode_tagged_example :
    (es : Entries) × (encode_enum
        (attributes (some label))
        versions
        tagged_variants
        (inr (inl (5, tt)))
      ≡ gives (map es))
    × (enum_from_value (some label) versions tagged_variants (map es) ≡ ok (inr (inl (5, tt))))
unfolding to_cbor_key from IsCanonical is_utf8
enum_from_value-encode_tagged_example =
    enum_from_value-encode_tagged (attributes (some label)) label refl refl versions tagged_variants
      (inr (inl (5, tt))) (omega arith, omega arith, refl) tagged_variants-AreTaggable tagged_kept

-- A unit variant of an internally tagged enum meets `unreachable!()` when it is encoded.
tagged_unit_panics : encode_variant (attributes (some label)) [] one tt ≡ unreachable
unfolding encode_variant wrap variant_value encode_form encode_as variant_key from is_unit_variant
    is_arrayed newtype_value tag_map
tagged_unit_panics = refl

-- Version 1 where no tag is given.
encode_enum-all_encode_as_map_example :
    (es : Entries) × (map (
        entry
          (unsigned 1)
          (map (entry (text_string (0x62 ∷ 0x61 ∷ 0x72 ∷ [])) (unsigned 5) no_entries))
          no_entries)
      ≡ map es)
unfolding all_encode_as_map all_variants maybe_encode_as_map is_unit_variant is_arrayed encode_enum
    encode_variant variant_value encode_form encode_as push_entries optional_value field_value
    field_key from to_cbor_key wrap variant_key
encode_enum-all_encode_as_map_example =
    encode_enum-all_encode_as_map (attributes none) versions tagged_variants (inr (inl (5, tt))) _
      refl (refl, refl, refl) refl

-- With a variant that is skipped an enum has the marker, and that variant is encoded as undefined.
abbrev skipped : Variant numbers
skipped = record version_1 { skip = true }

skipped_marked :
    (all_encode_as_map (attributes none) (numbers ∷ []) (skipped, tt) ≡ true)
    × (encode_enum (attributes none) (numbers ∷ []) (skipped, tt) (inl (5, tt))
        ≡ gives (simple undefined))
unfolding all_encode_as_map all_variants maybe_encode_as_map encode_enum encode_variant
skipped_marked = (refl, refl)

abbrev value_or_null : Arm → Value
value_or_null (gives v) = v
value_or_null _ = simple null_value

abbrev encoder : Encode (Sum kinds)
encoder =
    encode_by (λ s. false) (λ s. value_or_null (encode_enum (attributes none) kinds variants s))

abbrev decoder : Decode (Sum kinds)
decoder = record {
  try_default = err missing_field;
  try_from_cbor_value = enum_from_value none kinds variants;
}

normal_kept : KeepsSum normalize kinds variants (inr (inl (7, tt)))
unfolding is_unit_variant variant_value newtype_value variant_from_value newtype_from_value
    uint_from_value try_from_cbor_value_default normalize
normal_kept = (_, refl, refl)

from_slice-encode_enum_example :
    (cbor : List ℕ) × (to_vec encoder (inr (inl (7, tt))) ≡ ok cbor)
    × (from_slice decoder cbor ≡ ok (inr (inl (7, tt))))
unfolding encode_enum encode_variant is_unit_variant variant_value newtype_value wrap variant_key
    from decode_enum has_rejected repeats_missing is_rejected is_non_unit validate normalize
    insert_key IsCanonical depth is_utf8
from_slice-encode_enum_example =
    from_slice-encode_enum (attributes none) refl refl kinds variants (inl tt) (inr (inl (7, tt)))
      encoder decoder variants-AreRegular normal_kept refl refl refl
      (
        omega arith,
        (tt, tt),
        (((omega arith, (omega arith, (omega arith, tt))), omega arith, refl), omega arith, tt),
      )
      (omega arith)
