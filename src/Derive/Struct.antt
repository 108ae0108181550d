-- ===== src/Derive/Struct.antt =====
-- The derived impls of a struct in all their forms: `derive` of derive/src/encode.rs, then `derive`
-- of derive/src/decode.rs.
use mathlib.Core.Option.{some-injective}
use oasis_cbor.Prelude.{
  ℕ, ◌≡◌, refl, Bool, true, false, ◌&&◌, ◌||◌, Option, none, some, List, [], ◌∷◌, Bool-cases, inl,
  inr,
}
use oasis_cbor.Value.{Value}
use oasis_cbor.Encode.{Encode, Tuple}
use oasis_cbor.Decode.{Decode, Result, ok, try_from_cbor_value_default}
use oasis_cbor.Derive.Declaration.{
  Fields, Attributes, validate, count, Style, unit_style, tuple_style, named_style, is_unit,
}
use oasis_cbor.Derive.Encoder.{Form, encode_form, encode_as, encode_struct, has_conditional}
use oasis_cbor.Derive.Decoder.{decode_form, decode_as, and_default, decode_struct}
use oasis_cbor.Derive.Arranged.{HaveCanonicalKeys, AreDistinct}
use oasis_cbor.Derive.Pushed.{AllValues}
use oasis_cbor.Derive.RoundTrip.{
  Keeps, KeepsItem, struct_from_value-encode_map, array_from_value-encode_array,
}

-- The one field of a transparent struct is decoded from what it is encoded as.
abbrev pub KeepsInner : (types : List (Type 0)) → Fields types → Tuple types → Type 0
KeepsInner [] fs a = ⊥
KeepsInner (A ∷ types) fs a =
    try_from_cbor_value_default fs.0.decoder (fs.0.encoder.into_cbor_value a.0) ≡ ok a.0

-- What a form asks of the fields.
abbrev pub KeepsAs : Form → (types : List (Type 0)) → Fields types → Tuple types → Type 0
KeepsAs Form.null_form types fs a = Unit {0}
KeepsAs Form.transparent_form types fs a = KeepsInner types fs a
KeepsAs Form.array_form types fs a = AllValues KeepsItem types fs a
KeepsAs Form.map_form types fs a =
    HaveCanonicalKeys types fs × AreDistinct types fs × AllValues Keeps types fs a
KeepsAs Form.rejected types fs a = ⊥

-- What an impl of `Encode` encodes is what the decoder decodes, if there are both.
abbrev AreInverse : {A : Type 0} → A → Option (Encode A) → Option (Value → Result A) → Type 0
AreInverse a none decode = Unit {0}
AreInverse a (some e) none = Unit {0}
AreInverse a (some e) (some from_value) = from_value (e.into_cbor_value a) ≡ ok a

decode_as-encode_as :
    (form : Form) (types : List (Type 0)) (fs : Fields types) (a : Tuple types)
    (allow_unknown : Bool)
    → KeepsAs form types fs a
    → AreInverse a (encode_as form types fs) (decode_as form types fs allow_unknown)
unfolding encode_as decode_as
decode_as-encode_as Form.null_form [] fs a allow_unknown h = refl
decode_as-encode_as Form.null_form (A ∷ types) fs a allow_unknown h = tt
decode_as-encode_as Form.transparent_form [] fs a allow_unknown h = tt
decode_as-encode_as Form.transparent_form (A ∷ []) fs a allow_unknown h = rw h refl
decode_as-encode_as Form.transparent_form (A ∷ B ∷ types) fs a allow_unknown h = tt
decode_as-encode_as Form.array_form types fs a allow_unknown h =
    elim (Bool-cases (has_conditional types fs)) [
      | inl e ↦ rw e tt
      | inr e ↦ rw e (array_from_value-encode_array types fs a allow_unknown h)
    ]
decode_as-encode_as Form.map_form types fs a allow_unknown (c, apart, keeps) =
    struct_from_value-encode_map types fs a allow_unknown c apart keeps
decode_as-encode_as Form.rejected types fs a allow_unknown h = absurd h

-- The encoder's form is the decoder's, but for a unit struct with an attribute of other structs.
decode_form-encode_form :
    (style : Style) (transparent as_array : Bool) (fields : ℕ)
    → (is_unit style && (transparent || as_array)) ≡ false
    → decode_form style transparent as_array fields
      ≡ encode_form style transparent as_array false fields
unfolding decode_form encode_form
decode_form-encode_form unit_style true as_array fields h = cc
decode_form-encode_form unit_style false true fields h = cc
decode_form-encode_form unit_style false false fields h = refl
decode_form-encode_form tuple_style transparent as_array fields h = refl
decode_form-encode_form named_style transparent as_array fields h = refl

decode_struct_cases :
    {A : Type 0} (attributes : Attributes) (default a : A) (d : Decode A) (e : Encode A)
    (encode : Option (Encode A)) (from_value : Option (Value → Result A))
    → AreInverse a encode from_value
    → encode ≡ some e
    → and_default attributes default from_value ≡ some d
    → d.try_from_cbor_value (e.into_cbor_value a) ≡ ok a
decode_struct_cases attributes default a d e none from_value h he hd = cc
decode_struct_cases attributes default a d e (some x) none h he hd = cc
decode_struct_cases attributes default a d e (some x) (some from_value) h he hd =
    rw (← some-injective _ d hd, ← some-injective x e he) h

-- A struct of any form is decoded from what it is encoded as, if it derives both impls and the fields
-- keep their values in that form: a map's fields have distinct, canonical keys besides. A unit
-- struct must not have one of the attributes `transparent` and `as_array`.
pub decode_struct-encode_struct :
    (style : Style) (attributes : Attributes) (types : List (Type 0)) (fs : Fields types)
    (default a : Tuple types) (e : Encode (Tuple types)) (d : Decode (Tuple types))
    → (is_unit style && (attributes.transparent || attributes.as_array)) ≡ false
    → KeepsAs
        (encode_form style attributes.transparent attributes.as_array false (count types))
        types
        fs
        a
    → encode_struct style attributes types fs ≡ some e
    → decode_struct style attributes types fs default ≡ some d
    → d.try_from_cbor_value (e.into_cbor_value a) ≡ ok a
unfolding encode_struct decode_struct
decode_struct-encode_struct style attributes types fs default a e d plain h he hd =
    elim (Bool-cases (validate attributes)) [
      | inl b ↦
          decode_struct_cases attributes default a d e _ _
            (decode_as-encode_as
              (encode_form style attributes.transparent attributes.as_array false (count types))
              types fs a attributes.allow_unknown h)
            (rw (b) at he)
            (rw
              (
                b,
                decode_form-encode_form style attributes.transparent attributes.as_array
                    (count types) plain,
              )
              at hd)
      | inr b ↦ let none_encoded = rw b at he in cc
    ]
