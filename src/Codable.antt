-- ===== src/Codable.antt =====
-- The contract between an `impl Encode` of src/encode.rs and an `impl Decode` of src/decode.rs. The
-- children have its instances.
pub mod Scalars
pub mod Containers
pub mod Maps
pub mod Wide
use oasis_cbor.Prelude.{◌≡◌, refl, Bool, true, false}
use oasis_cbor.Value.{
  Value, unsigned, negative, byte_string, text_string, array, map, tag, simple, false_value,
  true_value, null_value, undefined,
}
use oasis_cbor.Encoding.Canonical.{IsCanonical}
use oasis_cbor.Encode.{Encode, is_null}
use oasis_cbor.Decode.{Decode, ok, try_from_cbor_value_default}

pub default-is_null {ℓ} :
    {A : Type ℓ} (d : Decode A) (v : Value)
    → is_null v ≡ false
    → try_from_cbor_value_default d v ≡ d.try_from_cbor_value v
unfolding try_from_cbor_value_default
default-is_null d (unsigned n) h = refl
default-is_null d (negative z) h = refl
default-is_null d (byte_string bs) h = refl
default-is_null d (text_string bs) h = refl
default-is_null d (array vs) h = refl
default-is_null d (map es) h = refl
default-is_null d (tag t v) h = refl
default-is_null d (simple false_value) h = refl
default-is_null d (simple true_value) h = refl
default-is_null d (simple null_value) h = cc
default-is_null d (simple undefined) h = cc

-- `IsValid` are the values that the Rust type has.
pub record Codable (A : Type 0) : Type 1 where
  pub encoder : Encode A
  pub decoder : Decode A
  pub IsValid : A → Type 0
  pub canonical : (a : A) → IsValid a → IsCanonical (encoder.into_cbor_value a)
  pub round_trip :
      (a : A) → IsValid a → decoder.try_from_cbor_value (encoder.into_cbor_value a) ≡ ok a
  pub default_trip :
      (a : A) → IsValid a → try_from_cbor_value_default decoder (encoder.into_cbor_value a) ≡ ok a
