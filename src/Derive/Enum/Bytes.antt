-- ===== src/Derive/Enum/Bytes.antt =====
-- A derived enum with the variants' keys outside through src/lib.rs: `to_vec`, then `from_slice`.
use oasis_cbor.Prelude.{
  ℕ, ◌≡◌, ◌≤◌, sym, ap, ◌∙◌, inl, inr, false, not, ◌||◌, some, none, List, [], ◌∷◌, Bool-cases,
}
use mathlib.Core.Option.{some-injective}
use oasis_cbor.Value.{Value}
use oasis_cbor.Encoding.Canonical.{depth, IsCanonical}
use oasis_cbor.Encoding.Normal.{insert_key, normalize, normalize-IsCanonical}
use oasis_cbor.Encode.{Encode, is_null}
use oasis_cbor.Decode.{Decode, ok}
use oasis_cbor.Codable.{default-is_null}
use oasis_cbor.Api.{to_vec, from_slice, from_slice-to_vec-normalize}
use oasis_cbor.Derive.Declaration.{Attributes, validate}
use oasis_cbor.Derive.Enum.{Variants, Sum, encode_enum, gives, gives-injective}
use oasis_cbor.Derive.Enum.Decoder.{enum_from_value, has_rejected, repeats_missing, decode_enum}
use oasis_cbor.Derive.Enum.Regular.{AreRegular, KeepsSum, chosen_key, chosen_unit}
use oasis_cbor.Derive.Enum.RoundTrip.{KeepsSum-Kept}

chosen-IsCanonical :
    (kinds : List (List (Type 0))) (vs : Variants kinds) (s : Sum kinds)
    → AreRegular kinds vs
    → IsCanonical (chosen_unit kinds vs s) × IsCanonical (chosen_key kinds vs s)
chosen-IsCanonical [] vs s h = absurd s
chosen-IsCanonical (types ∷ kinds) vs (inl a) h = (h.0.unit, h.0.key)
chosen-IsCanonical (types ∷ kinds) vs (inr b) h = chosen-IsCanonical kinds vs.1 b h.2

-- What the value is encoded as is decoded to it after the sorting of the maps inside.
enum_from_value-normalize :
    (attributes : Attributes)
    → attributes.untagged ≡ false
    → attributes.tag ≡ none
    → (kinds : List (List (Type 0))) (vs : Variants kinds) (s : Sum kinds) (x : Value)
    → AreRegular kinds vs
    → KeepsSum normalize kinds vs s
    → encode_enum attributes kinds vs s ≡ gives x
    → enum_from_value attributes.tag kinds vs (normalize x) ≡ ok s
unfolding normalize insert_key
enum_from_value-normalize attributes untagged no_tag kinds vs s x h k e =
    let (unit, key) = chosen-IsCanonical kinds vs s h in
    elim (KeepsSum-Kept normalize attributes untagged no_tag kinds vs s h k) [
      | inl (encoded, decoded) ↦
          let same = gives-injective x (chosen_unit kinds vs s) (sym e ∙ encoded) in
          rw same (rw (normalize-IsCanonical (chosen_unit kinds vs s) unit) decoded)
      | inr (inner, encoded, decoded) ↦
          let same = gives-injective x _ (sym e ∙ encoded) in
          rw same (rw (normalize-IsCanonical (chosen_key kinds vs s) key) decoded)
    ]

decoder_lem :
    (attributes : Attributes) (kinds : List (List (Type 0))) (vs : Variants kinds)
    (default : Sum kinds) (d : Decode (Sum kinds)) (x : Value)
    → decode_enum attributes kinds vs default ≡ some d
    → d.try_from_cbor_value x ≡ enum_from_value attributes.tag kinds vs x
unfolding decode_enum
decoder_lem attributes kinds vs default d x h =
    elim (Bool-cases
      (not (validate attributes) || (attributes.transparent || attributes.untagged))) [
        | inl b ↦ let no_impl = rw b at h in cc
        | inr b ↦
            elim (Bool-cases (
              has_rejected attributes.tag kinds vs
              || repeats_missing attributes.tag false kinds vs)) [
                | inl b' ↦ let no_impl = rw (b, b') at h in cc
                | inr b' ↦
                    sym (ap (λ y. y.try_from_cbor_value x) (some-injective _ d (rw (b, b') at h)))
              ]
      ]

-- A value of a derived enum, neither untagged nor internally tagged, at which its encoding does not
-- panic, is encoded by `to_vec`, and `from_slice` decodes the bytes to it, provided that: no
-- variant of the enum is skipped, embedded or the fallback for a missing key; the key and the unit
-- form of every variant are canonical, no unit form is a map, and the keys of two variants differ,
-- as do their unit forms; the value's variant is a unit variant and has no fields, or its fields
-- are decoded from what they are encoded as with its maps sorted; and the CBOR value with its maps
-- sorted is not null, canonical, and nested at most 64 deep.
pub from_slice-encode_enum :
    (attributes : Attributes)
    → attributes.untagged ≡ false
    → attributes.tag ≡ none
    → (kinds : List (List (Type 0))) (vs : Variants kinds) (default s : Sum kinds)
      (e : Encode (Sum kinds)) (d : Decode (Sum kinds))
    → AreRegular kinds vs
    → KeepsSum normalize kinds vs s
    → encode_enum attributes kinds vs s ≡ gives (e.into_cbor_value s)
    → decode_enum attributes kinds vs default ≡ some d
    → is_null (normalize (e.into_cbor_value s)) ≡ false
    → IsCanonical (normalize (e.into_cbor_value s))
    → depth (e.into_cbor_value s) ≤ 64
    → (cbor : List ℕ) × (to_vec e s ≡ ok cbor) × (from_slice d cbor ≡ ok s)
from_slice-encode_enum attributes untagged no_tag kinds vs default s e d h k he hd null c shallow =
    let x = normalize (e.into_cbor_value s) in
    let (cbor, encoded, decoded) = from_slice-to_vec-normalize e d s c shallow in
    (
      cbor,
      encoded,
      decoded
          ∙ default-is_null d x null
          ∙ decoder_lem attributes kinds vs default d x hd
          ∙ enum_from_value-normalize attributes untagged no_tag kinds vs s (e.into_cbor_value s) h
              k he,
    )
