-- ===== src/Api.antt =====
-- src/lib.rs: the functions that users of the crate call. A value of a Rust type comes with its
-- `impl Encode` and `impl Decode`.
use oasis_cbor.Prelude.{ℕ, ◌⊎◌, inl, inr, ◌≤◌, ◌≡◌, refl, List, [], ◌++◌, All, pos, some, arith}
use oasis_cbor.Value.{Value}
use oasis_cbor.Encoding.Canonical.{depth, IsCanonical, encoding}
use oasis_cbor.Encode.{Encode}
use oasis_cbor.Decode.{
  Decode, Result, ok, err, panicked, ◌>>=◌, parsing_failed, try_from_cbor_value_default,
}
use oasis_cbor.Encoding.Bytes.{IsByte}
use oasis_cbor.Reader.Outcome.{Meets-cases}
use oasis_cbor.Writer.{Written, done, failed, write}
use oasis_cbor.Writer.Normal.{write_nested-normalize}
use oasis_cbor.Encoding.Normal.{normalize, depth-normalize}
use oasis_cbor.Reader
use oasis_cbor.Reader.{read_nested, read_nested_non_strict}
use oasis_cbor.Codec.{read_nested-encoding, read_nested-Meets, read_nested_non_strict-encoding}

abbrev pub max_nesting_level : ℕ
max_nesting_level = 64

-- `?` on a `reader::DecoderError`; running out of fuel has no counterpart in the source.
abbrev pub from_reader : Reader.Result Value → Result Value
from_reader (Reader.ok v) = ok v
from_reader (Reader.err e) = err parsing_failed
from_reader Reader.out_of_fuel = panicked

unfoldable pub from_slice {ℓ} : {A : Type ℓ} → Decode A → List ℕ → Result A
from_slice d cbor =
    from_reader (read_nested cbor (some (pos max_nesting_level))) >>= try_from_cbor_value_default d

unfoldable pub from_slice_non_strict {ℓ} : {A : Type ℓ} → Decode A → List ℕ → Result A
from_slice_non_strict d cbor =
    from_reader (read_nested_non_strict cbor (some (pos max_nesting_level)))
    >>= try_from_cbor_value_default d

unfoldable pub from_value {ℓ} : {A : Type ℓ} → Decode A → Value → Result A
from_value d v = try_from_cbor_value_default d v

-- `unwrap` on what the writer returns.
abbrev pub unwrap : Written → Result (List ℕ)
unwrap (done cbor) = ok cbor
unwrap (failed e cbor) = panicked

unfoldable pub to_vec {ℓ} : {A : Type ℓ} → Encode A → A → Result (List ℕ)
to_vec e a = unwrap (write (e.into_cbor_value a) [])

unfoldable pub to_value {ℓ} : {A : Type ℓ} → Encode A → A → Value
to_value e a = e.into_cbor_value a

-- For any two impls of Encode and Decode: a value whose CBOR value is canonical once its maps are
-- sorted, and nested at most 64 deep, is encoded by `to_vec` without a panic; `from_slice` gives on
-- the bytes what `from_value` gives on the CBOR value with its maps sorted, errors and panics
-- included, and so does `from_slice_non_strict` with any bytes behind them.
pub from_slice-to_vec :
    {A : Type 0} (e : Encode A) (d : Decode A) (a : A) (rest : List ℕ)
    → IsCanonical (normalize (to_value e a))
    → depth (to_value e a) ≤ 64
    → (cbor : List ℕ) × (to_vec e a ≡ ok cbor)
      × (from_slice d cbor ≡ from_value d (normalize (to_value e a)))
      × (from_slice_non_strict d (cbor ++ rest) ≡ from_value d (normalize (to_value e a)))
unfolding to_vec to_value write from_slice from_slice_non_strict from_value
from_slice-to_vec e d a rest c shallow =
    let sorted = normalize (e.into_cbor_value a) in
    let limited : depth sorted ≤ 64 = rw (depth-normalize (e.into_cbor_value a)) shallow in
    (
      encoding sorted,
      rw (write_nested-normalize (e.into_cbor_value a) [] (some (pos 127)) c (omega arith)) refl,
      rw (read_nested-encoding sorted (some (pos 64)) c limited) refl,
      rw (read_nested_non_strict-encoding sorted rest (some (pos 64)) c limited) refl,
    )

-- The same, with the impls' own methods.
pub from_slice-to_vec-normalize :
    {A : Type 0} (e : Encode A) (d : Decode A) (a : A)
    → IsCanonical (normalize (e.into_cbor_value a))
    → depth (e.into_cbor_value a) ≤ 64
    → (cbor : List ℕ) × (to_vec e a ≡ ok cbor)
      × (from_slice d cbor ≡ try_from_cbor_value_default d (normalize (e.into_cbor_value a)))
unfolding to_value from_value
from_slice-to_vec-normalize e d a c shallow =
    let (cbor, encoded, decoded, _) = from_slice-to_vec e d a [] c shallow in
    (cbor, encoded, decoded)

-- `from_slice` on any bytes: they are the canonical encoding of a canonical value nested at most
-- 64 deep, and the result is the type's decoding of that value, or the parsing fails.
pub from_slice_cases :
    {A : Type 0} (d : Decode A) (cbor : List ℕ)
    → All IsByte cbor
    → ((v : Value) × IsCanonical v
        × (depth v ≤ 64)
        × (cbor ≡ encoding v)
        × (from_slice d cbor ≡ try_from_cbor_value_default d v))
      ⊎ (from_slice d cbor ≡ err parsing_failed)
unfolding from_slice
from_slice_cases d cbor bytes = elim (Meets-cases (read_nested-Meets cbor (some (pos 64)) bytes)) [
  | inl (v, (same, c, w), e) ↦ inl (v, c, w, same, rw e refl)
  | inr (e, h) ↦ inr (rw h refl)
]
