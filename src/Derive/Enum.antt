-- ===== src/Derive/Enum.antt =====
-- derive/src/encode.rs and derive/src/decode.rs: the impls for an enum. A value is one of its variants
-- with the tuple of that variant's fields. `none` is where the macro reports an error, so that there is
-- no code, and for the parts of a value where they are not those of a variant of that form.
pub mod Decoder
pub mod Regular
pub mod RoundTrip
pub mod Bytes
pub mod Selectors
pub mod Tagged
use oasis_cbor.Prelude.{
  ℕ, ◌≡◌, Bool, true, false, not, ◌&&◌, ◌||◌, ◌⊎◌, inl, inr, Option, none, some, List, [], ◌∷◌,
  if◌then◌else◌,
}
use oasis_cbor.Value.{Value, Entries, map, simple, no_entries, entry, undefined}
use oasis_cbor.Value.Convert.{from, from_text}
use oasis_cbor.Encode.{Encode, Tuple}
use oasis_cbor.Derive.Declaration.{
  Key, to_cbor_key, Fields, count, Style, is_unit, is_tuple, is_newtype, Attributes, is_tagged,
  validate,
}
use oasis_cbor.Derive.Encoder.{encode_form, encode_as}

-- A variant with its attributes. `discriminant` has the expression made a value.
pub record Variant (types : List (Type 0)) : Type 0 where
  pub ident : List ℕ
  pub rename : Option Key
  pub style : Style
  pub fields : Fields types
  pub discriminant : Option Value
  pub as_array : Bool
  pub as_struct : Bool
  pub skip : Bool
  pub embed : Bool
  pub allow_unknown : Bool
  pub missing : Bool

abbrev pub Variants : List (List (Type 0)) → Type 0
Variants [] = Unit {0}
Variants (types ∷ kinds) = Variant types × Variants kinds

abbrev pub Sum : List (List (Type 0)) → Type 0
Sum [] = ⊥
Sum (types ∷ kinds) = Tuple types ⊎ Sum kinds

-- `Variant::to_cbor_key_expr`
unfoldable pub variant_key : {types : List (Type 0)} → Variant types → Value
unfolding from
variant_key v = elim v.rename [ none ↦ from (from_text v.ident) | some key ↦ to_cbor_key key ]

-- A unit variant in the form of its key or its discriminant.
unfoldable pub is_unit_variant : {types : List (Type 0)} → Option Key → Variant types → Bool
is_unit_variant label v = is_unit v.style && (not v.as_struct && not (is_tagged label))

unfoldable pub unit_value : {types : List (Type 0)} → Variant types → Value
unit_value v = elim v.discriminant [ none ↦ variant_key v | some expr ↦ expr ]

-- The one field's own encoding.
unfoldable pub newtype_value : (types : List (Type 0)) → Fields types → Tuple types → Option Value
newtype_value [] fs a = none
newtype_value (A ∷ []) fs a = some (fs.0.encoder.into_cbor_value a.0)
newtype_value (A ∷ B ∷ types) fs a = none

abbrev pub apply_encoder : {A : Type 0} → Option (Encode A) → A → Option Value
apply_encoder none a = none
apply_encoder (some e) a = some (e.into_cbor_value a)

-- What stands beside the key: `inner` of `derive_enum`.
unfoldable pub variant_value : (types : List (Type 0)) → Variant types → Tuple types → Option Value
variant_value types v a =
    if is_newtype v.style (count types)
    then newtype_value types v.fields a
    else apply_encoder
        (encode_as (encode_form v.style false v.as_array v.as_struct (count types)) types v.fields)
        a

unfoldable pub push_last : Entries → Value → Value → Entries
push_last no_entries key v = entry key v no_entries
push_last (entry k w es) key v = entry k w (push_last es key v)

-- What the generated arm for a variant does: it gives a value, or it meets `unreachable!()` and panics.
-- For some variants the macro reports an error, and there is no code.
pub data Arm : Type 0 where
  gives : Value → Arm
  unreachable no_code : Arm

pub gives-injective : (x y : Value) → gives x ≡ gives y → x ≡ y
gives-injective x y h = cc

abbrev pub and_give : Option Value → Arm
and_give none = no_code
and_give (some v) = gives v

abbrev pub tag_map : Value → Value → Value → Arm
tag_map label key (map items) = gives (map (push_last items label key))
tag_map label key v = unreachable

-- `maybe_wrap_map`
unfoldable pub wrap : {types : List (Type 0)} → Attributes → Variant types → Value → Arm
wrap attributes v inner =
    if attributes.untagged || v.missing then gives inner else elim attributes.tag [
      | none ↦ gives (map (entry (variant_key v) inner no_entries))
      | some label ↦ tag_map (to_cbor_key label) (variant_key v) inner
    ]

abbrev pub and_wrap : {types : List (Type 0)} → Attributes → Variant types → Option Value → Arm
and_wrap attributes v none = no_code
and_wrap attributes v (some inner) = wrap attributes v inner

-- Fields in the form of an array, which cannot stand beside a tag.
unfoldable pub is_arrayed : {types : List (Type 0)} → Variant types → Bool
is_arrayed {types} v = not (is_newtype v.style (count types)) && (v.as_array || is_tuple v.style)

-- The arm of the generated `match` for a variant.
unfoldable pub encode_variant :
    Attributes → (types : List (Type 0)) → Variant types → Tuple types → Arm
encode_variant attributes types v a =
    if v.skip
    then gives (simple undefined)
    else if v.embed
    then (if is_newtype v.style (count types) && not (is_tagged attributes.tag)
        then and_give (newtype_value types v.fields a)
        else no_code)
    else if is_unit_variant attributes.tag v
    then gives (unit_value v)
    else if is_tagged attributes.tag && is_arrayed v
    then no_code
    else and_wrap attributes v (variant_value types v a)

-- The generated `match`.
unfoldable pub encode_enum :
    Attributes → (kinds : List (List (Type 0))) → Variants kinds → Sum kinds → Arm
encode_enum attributes [] vs a = absurd a
encode_enum attributes (types ∷ kinds) vs (inl a) = encode_variant attributes types vs.0 a
encode_enum attributes (types ∷ kinds) vs (inr b) = encode_enum attributes kinds vs.1 b

-- The generated `into_cbor_value`, where there is one.
unfoldable pub derive_enum :
    Attributes → (kinds : List (List (Type 0))) → Variants kinds → Option (Sum kinds → Arm)
derive_enum attributes kinds vs =
    if attributes.transparent || not (validate attributes)
    then none
    else some (encode_enum attributes kinds vs)
