-- ===== src/Serde/Visits/Range.antt =====
-- src/serde/de.rs, `deserialize_any`: which integers a visitor gets.
use oasis_cbor.Prelude.{
  ℕ, ◌<◌, ◌≤◌, ◌^◌, ◌≡◌, ◌↔◌, ℤ, pos, negsuc, refl, arith, inl, inr, ltb, Bool-cases, ◌-◌, ◌%◌,
  as_u64, ap,
}
use oasis_cbor.Value.{
  Value, integer, unsigned, negative, byte_string, text_string, array, map, tag, simple, true_value,
  false_value, null_value, undefined,
}
use oasis_cbor.Encoding.Canonical.{IsCanonical}
use oasis_cbor.Serde.{ok}
use oasis_cbor.Serde.Failure.{as_i64}
use oasis_cbor.Serde.Visits.{
  visit_int, deserialize_any, deserialize_seq, deserialize_map, as_i64_lem,
}

-- The integers of `u64` and of `i64`.
abbrev pub IsVisited : ℤ → Type 0
IsVisited (pos n) = n < 2 ^ 64
IsVisited (negsuc n) = n < 2 ^ 63

-- A number below `i64` becomes one that is not negative.
as_i64-low : (n : ℕ) → 2 ^ 63 ≤ n → n < 2 ^ 64 → as_i64 (negsuc n) ≡ pos (2 ^ 64 - 1 - n)
unfolding as_i64
as_i64-low n low h =
    let bits : as_u64 (negsuc n) ≡ 2 ^ 64 - 1 - n = omega arith in rw bits (ground arith)

-- From a canonical value a visitor gets an integer, one that is not negative by `visit_u64` and a
-- negative one by `visit_i64`, exactly if the value is that integer's and the integer fits `u64` or
-- `i64`: an integer below -2^63, which the reader returns too, is given to no visitor as it is.
pub deserialize_any-integer_iff :
    (v : Value) (z : ℤ)
    → IsCanonical v
    → (deserialize_any v ≡ ok (visit_int z)) ↔ ((v ≡ integer z) × IsVisited z)
unfolding deserialize_any integer IsCanonical deserialize_seq deserialize_map
deserialize_any-integer_iff v z c = (found v z c, λ (e, small). rw e (given z small))
  where
    given : (z : ℤ) → IsVisited z → deserialize_any (integer z) ≡ ok (visit_int z)
    given (pos n) h = let small : n % 2 ^ 64 ≡ n = omega arith in rw small refl
    given (negsuc n) h = rw (as_i64_lem n h) refl

    found :
        (v : Value) (z : ℤ)
        → IsCanonical v
        → deserialize_any v ≡ ok (visit_int z)
        → (v ≡ integer z) × IsVisited z
    found (unsigned m) (pos n) c h =
        let same : m ≡ n = cc in
        let small : n % 2 ^ 64 ≡ n = omega arith in (rw (small, same) refl, omega arith)
    found (unsigned m) (negsuc n) c h = cc
    found (negative (pos m)) z c h = absurd c
    found (negative (negsuc m)) (pos n) c h = cc
    found (negative (negsuc m)) (negsuc n) c h = elim (Bool-cases (ltb m (2 ^ 63))) [
      | inl b ↦
          let room : m < 2 ^ 63 = ground arith in
          let kept = as_i64_lem m room in
          let same : m ≡ n = cc in (ap (λ k. negative (negsuc k)) same, omega arith)
      | inr b ↦ let room : 2 ^ 63 ≤ m = ground arith in let wrapped = as_i64-low m room c in cc
    ]
    found (byte_string bs) (pos n) c h = cc
    found (byte_string bs) (negsuc n) c h = cc
    found (text_string bs) (pos n) c h = cc
    found (text_string bs) (negsuc n) c h = cc
    found (array vs) (pos n) c h = cc
    found (array vs) (negsuc n) c h = cc
    found (map es) (pos n) c h = cc
    found (map es) (negsuc n) c h = cc
    found (tag t v) z c h = cc
    found (simple true_value) (pos n) c h = cc
    found (simple true_value) (negsuc n) c h = cc
    found (simple false_value) (pos n) c h = cc
    found (simple false_value) (negsuc n) c h = cc
    found (simple null_value) (pos n) c h = cc
    found (simple null_value) (negsuc n) c h = cc
    found (simple undefined) (pos n) c h = cc
    found (simple undefined) (negsuc n) c h = cc
