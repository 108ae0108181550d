-- ===== src/Decode/Range.antt =====
-- src/decode.rs, the impls for integers: which values they decode, and to what.
use oasis_cbor.Prelude.{
  ℕ, ◌<◌, ◌≤◌, ◌^◌, ◌≡◌, ◌↔◌, ℤ, pos, negsuc, refl, arith, Bool-cases, inl, inr, ltb,
}
use Prim.Native.Nat.{◌%◌}
use oasis_cbor.Value.{
  Value, integer, unsigned, negative, byte_string, text_string, array, map, tag, simple,
}
use oasis_cbor.Encoding.Canonical.{IsCanonical}
use oasis_cbor.Decode.{ok, int_from_value}
use oasis_cbor.Codable.Scalars.{IsInt, int_trip, pow63-≤}

-- A signed type with `bits` bits beside the sign, at most 63, decodes exactly the canonical values
-- of the integers that it has room for, each to that integer.
pub int_from_value_iff :
    (bits : ℕ) (z : ℤ) (v : Value)
    → bits ≤ 63
    → IsCanonical v
    → (int_from_value bits v ≡ ok z) ↔ ((v ≡ integer z) × IsInt bits z)
unfolding int_from_value integer
int_from_value_iff bits z v wide c = (found v z c, λ (e, small). rw e (int_trip bits z wide small))
  where
    found :
        (v : Value) (z : ℤ)
        → IsCanonical v
        → int_from_value bits v ≡ ok z
        → (v ≡ integer z) × IsInt bits z
    found (unsigned m) z c h = elim (Bool-cases (ltb m (2 ^ bits))) [
      | inl b ↦
          let same : pos m ≡ z = cc (rw b at h) in
          let room : m < 2 ^ bits = ground arith in
          let top = pow63-≤ bits wide in
          let small : m % 2 ^ 64 ≡ m = omega arith in rw (← same) (rw small refl, room)
      | inr b ↦ cc (rw b at h)
    ]
    found (negative (pos m)) z c h = unfold IsCanonical in absurd c
    found (negative (negsuc m)) z c h = elim (Bool-cases (ltb m (2 ^ bits))) [
      | inl b ↦
          let same : negsuc m ≡ z = cc (rw b at h) in
          let room : m < 2 ^ bits = ground arith in rw (← same) (refl, room)
      | inr b ↦ cc (rw b at h)
    ]
    found (byte_string bs) z c h = cc
    found (text_string bs) z c h = cc
    found (array vs) z c h = cc
    found (map es) z c h = cc
    found (tag t v) z c h = cc
    found (simple s) z c h = cc
