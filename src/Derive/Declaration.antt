-- ===== src/Derive/Declaration.antt =====
-- derive/src/common.rs: what the macros read of a declaration. A struct with fields of the types
-- `types` is the tuple of them; paths to functions in attributes are the functions.
use oasis_cbor.Prelude.{ℕ, Bool, true, false, not, ◌&&◌, Option, none, some, List, [], ◌∷◌, ◌==◌}
use oasis_cbor.Value.{Value}
use oasis_cbor.Value.Convert.{from, from_text, from_u64}
use oasis_cbor.Encode.{Encode}
use oasis_cbor.Decode.{Decode, Result}

pub data Key : Type 0 where
  string : List ℕ → Key
  integer : ℕ → Key

unfoldable pub to_cbor_key : Key → Value
unfolding from
to_cbor_key (string v) = from (from_text v)
to_cbor_key (integer v) = from (from_u64 v)

-- A field with its attributes and the impls of its type. `serialize_with` has the function's result
-- made a value, and `deserialize_with` the function behind the decoder of its argument. A field of
-- a tuple has no name, and is never asked for one.
pub record Field (A : Type 0) : Type 0 where
  pub ident : List ℕ
  pub rename : Option Key
  pub optional : Bool
  pub skip : Bool
  pub skip_serializing_if : Option (A → Bool)
  pub serialize_with : Option (A → Value)
  pub deserialize_with : Option (Value → Result A)
  pub encoder : Encode A
  pub decoder : Decode A
  pub default : A

-- `Field::to_cbor_key`, and the same as an expression.
unfoldable pub field_key : {A : Type 0} → Field A → Value
unfolding from
field_key f = elim f.rename [ none ↦ from (from_text f.ident) | some key ↦ to_cbor_key key ]

abbrev pub Fields : List (Type 0) → Type 0
Fields [] = Unit {0}
Fields (A ∷ types) = Field A × Fields types

abbrev pub count : List (Type 0) → ℕ
count [] = 0
count (A ∷ types) = ℕ.suc (count types)

-- How the fields are written: `;`, `(A, B)` or `{ a: A }`.
pub data Style : Type 0 where
  unit_style tuple_style named_style : Style

abbrev pub is_unit : Style → Bool
is_unit unit_style = true
is_unit _ = false

abbrev pub is_tuple : Style → Bool
is_tuple tuple_style = true
is_tuple _ = false

abbrev pub is_newtype : Style → ℕ → Bool
is_newtype style fields = is_tuple style && fields == 1

-- The attributes of a struct or an enum.
pub record Attributes : Type 0 where
  pub transparent : Bool
  pub untagged : Bool
  pub tag : Option Key
  pub as_array : Bool
  pub no_default : Bool
  pub with_default : Bool
  pub allow_unknown : Bool

abbrev pub is_tagged : Option Key → Bool
is_tagged none = false
is_tagged (some key) = true

-- `Codable::validate`: whether the macros go on.
unfoldable pub validate : Attributes → Bool
validate attributes =
    not (attributes.no_default && attributes.with_default)
    && not (attributes.untagged && is_tagged attributes.tag)
