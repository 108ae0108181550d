-- ===== src/Derive/Marker.antt =====
-- derive/src/encode.rs: the types for which the macro derives the marker `EncodeAsMap`, and whether
-- they are encoded as maps.
use oasis_cbor.Prelude.{
  ℕ, ◌≡◌, refl, sym, subst, Bool, true, false, not, ◌&&◌, Option, none, some, List, [], ◌∷◌, inl,
  inr, if◌then◌else◌, Bool-cases, Option-cases,
}
use mathlib.Core.Option.{some-injective}
use oasis_cbor.Value.{Value, Entries, map, no_entries, entry}
use oasis_cbor.Encode.{Encode, Tuple, into_cbor_map}
use oasis_cbor.Derive.Declaration.{
  to_cbor_key, Fields, Style, Attributes, is_newtype, is_tagged, count, validate,
}
use oasis_cbor.Derive.Encoder.{Form, encode_form, encode_as, encode_struct}
use oasis_cbor.Derive.Enum.{
  Variant, Variants, Sum, variant_key, is_unit_variant, is_arrayed, variant_value, push_last,
  tag_map, wrap, encode_variant, encode_enum, gives, gives-injective, unreachable, no_code,
}

-- The field `encode_as_map` of what `derive_struct` returns.
unfoldable pub form_as_map : Form → Bool
form_as_map Form.map_form = true
form_as_map _ = false

unfoldable pub struct_as_map : Style → Attributes → ℕ → Bool
struct_as_map style attributes fields =
    form_as_map (encode_form style attributes.transparent attributes.as_array false fields)

-- A variant's entry in `maybe_encode_as_map`.
unfoldable pub maybe_encode_as_map : Attributes → (types : List (Type 0)) → Variant types → Bool
maybe_encode_as_map attributes types v =
    if v.skip
    then true
    else if v.embed
    then is_newtype v.style (count types) && not (is_tagged attributes.tag)
    else if is_unit_variant attributes.tag v
    then false
    else not (is_tagged attributes.tag && is_arrayed v)

unfoldable pub all_variants : Attributes → (kinds : List (List (Type 0))) → Variants kinds → Bool
all_variants attributes [] vs = true
all_variants attributes (types ∷ kinds) vs =
    maybe_encode_as_map attributes types vs.0 && all_variants attributes kinds vs.1

-- An enum with no variants is left out before.
unfoldable pub all_encode_as_map :
    Attributes → (kinds : List (List (Type 0))) → Variants kinds → Bool
all_encode_as_map attributes [] vs = false
all_encode_as_map attributes (types ∷ kinds) vs =
    not attributes.untagged && all_variants attributes (types ∷ kinds) vs

-- The generated `into_optional_cbor_value` of an enum, where its `into_cbor_value` does not panic.
unfoldable pub encode_optional_enum :
    Attributes → (kinds : List (List (Type 0))) → Variants kinds → Sum kinds → Option (Option Value)
encode_optional_enum attributes kinds vs a = elim (encode_enum attributes kinds vs a) [
  | gives v ↦ some (some v)
  | unreachable ↦ none
  | no_code ↦ none
]

abbrev pub IsMap : Value → Type 0
IsMap v = (es : Entries) × (v ≡ map es)

-- A struct with the marker is encoded as the map of its entries.
pub encode_struct-struct_as_map :
    (style : Style) (attributes : Attributes) (types : List (Type 0)) (fs : Fields types)
    (e : Encode (Tuple types)) (a : Tuple types)
    → encode_struct style attributes types fs ≡ some e
    → struct_as_map style attributes (count types) ≡ true
    → e.into_cbor_value a ≡ map (into_cbor_map e a)
unfolding encode_struct struct_as_map into_cbor_map form_as_map encode_as
encode_struct-struct_as_map style attributes types fs e a h marked =
    go (validate attributes)
      (encode_form style attributes.transparent attributes.as_array false (count types)) h marked
  where
    go :
        (b : Bool) (form : Form)
        → (if b then encode_as form types fs else none) ≡ some e
        → form_as_map form ≡ true
        → e.into_cbor_value a ≡ map (into_cbor_map e a)
    go true Form.map_form h m =
        subst (λ x. x.into_cbor_value a ≡ map (into_cbor_map x a)) (some-injective _ e h) refl
    go false Form.map_form h m = cc
    go b _ h m = cc

and_true : (b c : Bool) → (b && c) ≡ true → (b ≡ true) × (c ≡ true)
and_true true true h = (refl, refl)
and_true true false h = cc
and_true false c h = cc

-- The variant of the value is none of skipped, embedded and the fallback.
abbrev pub IsPlain : (kinds : List (List (Type 0))) → Variants kinds → Sum kinds → Type 0
IsPlain [] vs a = ⊥
IsPlain (types ∷ kinds) vs (inl a) =
    (vs.0.skip ≡ false) × (vs.0.embed ≡ false) × (vs.0.missing ≡ false)
IsPlain (types ∷ kinds) vs (inr b) = IsPlain kinds vs.1 b

tag_map-IsMap : (label key inner v : Value) → tag_map label key inner ≡ gives v → IsMap v
tag_map-IsMap label key (map items) v h = (push_last items label key, cc)
tag_map-IsMap label key _ v h = cc

wrapped-IsMap :
    {types : List (Type 0)} (attributes : Attributes) (w : Variant types) (inner v : Value)
    → attributes.untagged ≡ false
    → w.missing ≡ false
    → wrap attributes w inner ≡ gives v
    → IsMap v
unfolding wrap
wrapped-IsMap attributes w inner v u m h = elim (Option-cases attributes.tag) [
  | inl e ↦ (entry (variant_key w) inner no_entries, gives-injective v _ (sym (rw (u, m, e) at h)))
  | inr (label, e) ↦ tag_map-IsMap (to_cbor_key label) (variant_key w) inner v (rw (u, m, e) at h)
]

variant-IsMap :
    (attributes : Attributes) (types : List (Type 0)) (w : Variant types) (a : Tuple types)
    (v : Value)
    → attributes.untagged ≡ false
    → (w.skip ≡ false) × (w.embed ≡ false) × (w.missing ≡ false)
    → maybe_encode_as_map attributes types w ≡ true
    → encode_variant attributes types w a ≡ gives v
    → IsMap v
unfolding maybe_encode_as_map encode_variant wrap
variant-IsMap attributes types w a v u (s, e, m) marked h =
    elim (Bool-cases (is_unit_variant attributes.tag w)) [
      | inl unit ↦ let unmarked = rw (unit, s, e) at marked in cc
      | inr other ↦ elim (Bool-cases (is_tagged attributes.tag && is_arrayed w)) [
        | inl rejected ↦ let unmarked = rw (other, rejected, s, e) at marked in cc
        | inr fits ↦ elim (Option-cases (variant_value types w a)) [
          | inl none_inside ↦ let no_value = rw (other, fits, none_inside, s, e) at h in cc
          | inr (inner, inside) ↦
              wrapped-IsMap attributes w inner v u m (rw (other, fits, inside, s, e) at h)
        ]
      ]
    ]

enum-IsMap :
    (attributes : Attributes) (kinds : List (List (Type 0))) (vs : Variants kinds) (a : Sum kinds)
    (v : Value)
    → attributes.untagged ≡ false
    → IsPlain kinds vs a
    → all_variants attributes kinds vs ≡ true
    → encode_enum attributes kinds vs a ≡ gives v
    → IsMap v
unfolding all_variants encode_enum
enum-IsMap attributes [] vs a v u plain marked h = absurd plain
enum-IsMap attributes (types ∷ kinds) vs (inl a) v u plain marked h =
    variant-IsMap attributes types vs.0 a v u plain (and_true _ _ marked).0 h
enum-IsMap attributes (types ∷ kinds) vs (inr b) v u plain marked h =
    enum-IsMap attributes kinds vs.1 b v u plain (and_true _ _ marked).1 h

-- A value of an enum with the marker, of a variant that is none of skipped, embedded and the fallback
-- for a missing tag, is encoded as a map, if its encoding does not panic.
pub encode_enum-all_encode_as_map :
    (attributes : Attributes) (kinds : List (List (Type 0))) (vs : Variants kinds) (a : Sum kinds)
    (v : Value)
    → all_encode_as_map attributes kinds vs ≡ true
    → IsPlain kinds vs a
    → encode_enum attributes kinds vs a ≡ gives v
    → (es : Entries) × (v ≡ map es)
unfolding all_encode_as_map
encode_enum-all_encode_as_map attributes [] vs a v marked plain h = absurd plain
encode_enum-all_encode_as_map attributes (types ∷ kinds) vs a v marked plain h =
    elim (Bool-cases attributes.untagged) [
      | inl e ↦ let unmarked = rw e at marked in cc
      | inr e ↦ enum-IsMap attributes (types ∷ kinds) vs a v e plain (and_true _ _ marked).1 h
    ]
