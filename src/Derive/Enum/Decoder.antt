-- ===== src/Derive/Enum/Decoder.antt =====
-- derive/src/decode.rs: `derive_enum`, the impl of `Decode` for an enum.
use oasis_cbor.Prelude.{
  Bool, true, false, not, ◌&&◌, ◌||◌, ◌⊎◌, inl, inr, Option, none, some, List, [], ◌∷◌,
  if◌then◌else◌,
}
use oasis_cbor.Value.{Value, Entries, map, simple, no_entries, entry, undefined}
use oasis_cbor.Value.Order.{eq}
use oasis_cbor.Encode.{Tuple}
use oasis_cbor.Decode.{
  Result, ok, err, panicked, ◌>>=◌, missing_field, unknown_field, unexpected_type, Decode,
  try_from_cbor_value_default,
}
use oasis_cbor.Derive.Declaration.{
  Key, to_cbor_key, Fields, count, is_newtype, Attributes, is_tagged, validate,
}
use oasis_cbor.Derive.Decoder.{decode_form, decode_as}
use oasis_cbor.Derive.Enum.{
  Variant, Variants, Sum, variant_key, is_unit_variant, unit_value, is_arrayed,
}

unfoldable pub newtype_from_value :
    (types : List (Type 0)) → Fields types → Value → Result (Tuple types)
newtype_from_value [] fs v = panicked
newtype_from_value (A ∷ []) fs v = try_from_cbor_value_default fs.0.decoder v >>= λ a. ok (a, tt)
newtype_from_value (A ∷ B ∷ types) fs v = panicked

abbrev pub apply_decoder : {A : Type 0} → Option (Value → Result A) → Value → Result A
apply_decoder none v = panicked
apply_decoder (some decode) v = decode v

-- The fields of a variant, from what stands beside its key. Declarations that do not compile panic.
unfoldable pub variant_from_value :
    (types : List (Type 0)) → Variant types → Value → Result (Tuple types)
variant_from_value types v inner =
    if is_newtype v.style (count types)
    then newtype_from_value types v.fields inner
    else apply_decoder
        (decode_as (decode_form v.style false v.as_array (count types)) types v.fields
          v.allow_unknown)
        inner

-- What a sequence of `if … { return … }` comes to: nothing where all tests fail.
abbrev pub later_kind : {A B : Type 0} → Option (Result B) → Option (Result (A ⊎ B))
later_kind none = none
later_kind (some r) = some (r >>= λ b. ok (inr b))

-- `unit_decoders`
unfoldable pub unit_decoders :
    Option Key
    → (kinds : List (List (Type 0))) → Variants kinds
    → Value
    → Option (Result (Sum kinds))
unit_decoders label [] vs v = none
unit_decoders label ([] ∷ kinds) vs v =
    let later = later_kind (unit_decoders label kinds vs.1 v) in
    if is_unit_variant label vs.0 && (not vs.0.skip && not vs.0.embed)
    then (if eq v (unit_value vs.0) then some (ok (inl tt)) else later)
    else later
unit_decoders label ((A ∷ types) ∷ kinds) vs v = later_kind (unit_decoders label kinds vs.1 v)

unfoldable pub is_non_unit : {types : List (Type 0)} → Option Key → Variant types → Bool
is_non_unit label v = not (is_unit_variant label v) && (not v.skip && not v.embed)

abbrev pub matches : {types : List (Type 0)} → Variant types → Value → Bool
matches v key = eq key (variant_key v) || (v.missing && eq key (simple undefined))

-- `non_unit_decoders`
unfoldable pub non_unit_decoders :
    Option Key
    → (kinds : List (List (Type 0))) → Variants kinds
    → Value
    → Value
    → Option (Result (Sum kinds))
non_unit_decoders label [] vs key v = none
non_unit_decoders label (types ∷ kinds) vs key v =
    let later = later_kind (non_unit_decoders label kinds vs.1 key v) in
    if is_non_unit label vs.0 && matches vs.0 key
    then some (variant_from_value types vs.0 v >>= λ a. ok (inl a))
    else later

abbrev pub or_later : {A B : Type 0} → Result A → Option (Result (A ⊎ B)) → Option (Result (A ⊎ B))
or_later (ok a) later = some (ok (inl a))
or_later (err e) later = later
or_later panicked later = some panicked

-- `embedded_decoders`: an error of an embedded enum is passed over.
unfoldable pub embedded_decoders :
    (kinds : List (List (Type 0))) → Variants kinds → Value → Option (Result (Sum kinds))
embedded_decoders [] vs v = none
embedded_decoders (types ∷ kinds) vs v =
    let later = later_kind (embedded_decoders kinds vs.1 v) in
    if vs.0.embed && not vs.0.skip
    then or_later (newtype_from_value types vs.0.fields v) later
    else later

-- A variant at which the macro reports an error.
unfoldable pub is_rejected : {types : List (Type 0)} → Option Key → Variant types → Bool
is_rejected {types} label v =
    (not v.skip && (v.embed && (not (is_newtype v.style (count types)) || is_tagged label)))
    || (is_non_unit label v && (is_tagged label && is_arrayed v))

unfoldable pub has_rejected : Option Key → (kinds : List (List (Type 0))) → Variants kinds → Bool
has_rejected label [] vs = false
has_rejected label (types ∷ kinds) vs = is_rejected label vs.0 || has_rejected label kinds vs.1

-- `have_missing_variant` at a second variant with the attribute.
unfoldable pub repeats_missing :
    Option Key → Bool → (kinds : List (List (Type 0))) → Variants kinds → Bool
repeats_missing label have_missing_variant [] vs = false
repeats_missing label have_missing_variant (types ∷ kinds) vs =
    let fallback = is_non_unit label vs.0 && vs.0.missing in
    (fallback && have_missing_variant)
    || repeats_missing label (have_missing_variant || fallback) kinds vs.1

unfoldable pub has_non_unit : Option Key → (kinds : List (List (Type 0))) → Variants kinds → Bool
has_non_unit label [] vs = false
has_non_unit label (types ∷ kinds) vs = is_non_unit label vs.0 || has_non_unit label kinds vs.1

abbrev pub first_of : {A : Type 0} → Option A → Option A → Option A
first_of (some a) later = some a
first_of none later = later

abbrev pub settle : {A : Type 0} → Option (Result A) → Result A
settle none = err unknown_field
settle (some r) = r

-- The entry with the tag is taken out of the map, wherever it is.
unfoldable pub take_tag : Value → Entries → Option Value × Entries
take_tag label no_entries = (none, no_entries)
take_tag label (entry k v es) = elim (eq k label) [
  | true ↦ (some v, es)
  | false ↦ let (found, rest) = take_tag label es in (found, entry k v rest)
]

abbrev pub value_or_undefined : Option Value → Value
value_or_undefined none = simple undefined
value_or_undefined (some v) = v

unfoldable pub tagged_from_value :
    Key → (kinds : List (List (Type 0))) → Variants kinds → Value → Result (Sum kinds)
tagged_from_value label kinds vs (map es) =
    let (found, rest) = take_tag (to_cbor_key label) es in
    settle (non_unit_decoders (some label) kinds vs (value_or_undefined found) (map rest))
tagged_from_value label kinds vs v = err unexpected_type

unfoldable pub plain_from_value :
    (kinds : List (List (Type 0))) → Variants kinds → Value → Result (Sum kinds)
plain_from_value kinds vs v =
    settle (first_of (unit_decoders none kinds vs v) (embedded_decoders kinds vs v))

-- The `match` of an enum with a non-unit variant.
unfoldable pub shape_from_value :
    (kinds : List (List (Type 0))) → Variants kinds → Value → Result (Sum kinds)
shape_from_value kinds vs (map no_entries) = err unknown_field
shape_from_value kinds vs (map (entry key v no_entries)) = settle (
    first_of (non_unit_decoders none kinds vs key v)
      (embedded_decoders kinds vs (map (entry key v no_entries))))
shape_from_value kinds vs (map (entry key v (entry k w es))) = err unknown_field
shape_from_value kinds vs v = plain_from_value kinds vs v

unfoldable pub enum_from_value :
    Option Key → (kinds : List (List (Type 0))) → Variants kinds → Value → Result (Sum kinds)
enum_from_value none kinds vs v =
    if has_non_unit none kinds vs then shape_from_value kinds vs v else plain_from_value kinds vs v
enum_from_value (some label) kinds vs v = tagged_from_value label kinds vs v

-- `derive` of an enum; `default` is its `Default::default()`.
unfoldable pub decode_enum :
    Attributes
    → (kinds : List (List (Type 0))) → Variants kinds
    → Sum kinds
    → Option (Decode (Sum kinds))
decode_enum attributes kinds vs default =
    if not (validate attributes) || (attributes.transparent || attributes.untagged)
    then none
    else if has_rejected attributes.tag kinds vs || repeats_missing attributes.tag false kinds vs
    then none
    else some (record {
      try_default = if attributes.with_default then ok default else err missing_field;
      try_from_cbor_value = enum_from_value attributes.tag kinds vs;
    })
