-- ===== src/Codable/Wide.antt =====
-- src/encode.rs and src/decode.rs, the impls for u128: big-endian bytes without the zeros in front.
use oasis_cbor.Prelude.{
  ℕ, zero, suc, ◌+◌, ◌*◌, ◌/◌, ◌%◌, ◌^◌, ◌-◌, ◌<◌, ◌≤◌, ◌≡◌, refl, sym, ap, ◌∙◌, subst, false, List,
  [], ◌∷◌, ◌++◌, append_assoc, append-nil, drop, Bool-cases, inl, inr, ltb, arith,
}
use mathlib.Core.List.{foldl-append}
use native.Mathlib.Nat.{pow-suc, pow-le-pow_right}
use oasis_cbor.Encoding.Bytes.{big_endian, length-big_endian}
use oasis_cbor.Encode.{leading_zeros, u128_bytes, encode_u128}
use oasis_cbor.Decode.{ok, zeros, from_be_bytes, u128_from_value}

pow_byte : (x : ℕ) → 2 ^ suc (suc (suc (suc (suc (suc (suc (suc x))))))) ≡ 256 * 2 ^ x
pow_byte x = omega (
  arith,
  pow-suc 2 x,
  pow-suc 2 (suc x),
  pow-suc 2 (suc (suc x)),
  pow-suc 2 (suc (suc (suc x))),
  pow-suc 2 (suc (suc (suc (suc x)))),
  pow-suc 2 (suc (suc (suc (suc (suc x))))),
  pow-suc 2 (suc (suc (suc (suc (suc (suc x)))))),
  pow-suc 2 (suc (suc (suc (suc (suc (suc (suc x))))))),
)

pow_bytes : (m : ℕ) → 2 ^ (m * 8) ≡ 256 ^ m
pow_bytes zero = refl
pow_bytes (suc m) =
    let bits : suc m * 8 ≡ suc (suc (suc (suc (suc (suc (suc (suc (m * 8)))))))) = omega arith in
    ap (λ x. 2 ^ x) bits ∙ omega (arith, pow_byte (m * 8), pow_bytes m, pow-suc 256 m)

shifted : (a b : ℕ) → a - b ≡ suc a - suc b
shifted a b = omega arith

unshifted : (a : ℕ) → a ≡ a - 0
unshifted a = omega arith

leading_zeros-lt :
    (bits n : ℕ)
    → n < 2 ^ bits
    → (leading_zeros bits n ≤ bits) × (n < 2 ^ (bits - leading_zeros bits n))
unfolding leading_zeros
leading_zeros-lt zero n h = (omega arith, h)
leading_zeros-lt (suc bits) n h = elim (Bool-cases (ltb n (2 ^ bits))) [
  | inl e ↦ rw e (
      let (low, high) = leading_zeros-lt bits n (ground arith) in
      (omega arith, subst (λ x. n < 2 ^ x) (shifted bits (leading_zeros bits n)) high))
  | inr e ↦ rw e (omega arith, subst (λ x. n < 2 ^ x) (unshifted (suc bits)) h)
]

zeros-snoc : (k : ℕ) → zeros k ++ (0 ∷ []) ≡ 0 ∷ zeros k
zeros-snoc zero = refl
zeros-snoc (suc k) = ap (◌∷◌ 0) (zeros-snoc k)

big_endian-zeros : (k : ℕ) → big_endian k 0 ≡ zeros k
unfolding big_endian
big_endian-zeros zero = refl
big_endian-zeros (suc k) = rw (big_endian-zeros k) (zeros-snoc k)

-- Bytes in front of a number that fits the others are zero.
big_endian-zeros_append :
    (k m n : ℕ) → n < 256 ^ m → big_endian (k + m) n ≡ zeros k ++ big_endian m n
unfolding big_endian
big_endian-zeros_append k zero n h =
    let none : n ≡ 0 = omega arith in
    let sum : k + 0 ≡ k = omega arith in
    rw (none, sum, big_endian-zeros k) (sym (append-nil (zeros k)))
big_endian-zeros_append k (suc m) n h =
    let rest = big_endian-zeros_append k m (n / 256) (omega (arith, pow-suc 256 m)) in
    let sum : k + suc m ≡ suc (k + m) = omega arith in
    rw sum (rw rest (append_assoc (zeros k) (big_endian m (n / 256)) (n % 256 ∷ [])))

drop-zeros : (k : ℕ) (bs : List ℕ) → drop k (zeros k ++ bs) ≡ bs
drop-zeros zero bs = refl
drop-zeros (suc k) bs = drop-zeros k bs

from_be_bytes-big_endian : (m n : ℕ) → n < 256 ^ m → from_be_bytes (big_endian m n) ≡ n
unfolding from_be_bytes big_endian
from_be_bytes-big_endian zero n h = omega arith
from_be_bytes-big_endian (suc m) n h =
    let rest = from_be_bytes-big_endian m (n / 256) (omega (arith, pow-suc 256 m)) in
    foldl-append _ 0 (big_endian m (n / 256)) (n % 256 ∷ []) ∙ rw rest (omega arith)

-- The bytes left are as many as the number needs.
abbrev skipped : ℕ → ℕ
skipped n = leading_zeros 128 n / 8

kept-lt : (n : ℕ) → n < 2 ^ 128 → (skipped n ≤ 16) × (n < 256 ^ (16 - skipped n))
kept-lt n h =
    let (low, high) = leading_zeros-lt 128 n h in
    let wide : 2 ^ (128 - leading_zeros 128 n) ≤ 2 ^ ((16 - skipped n) * 8) =
      pow-le-pow_right (omega arith) (omega arith) in
    (omega arith, omega (arith, high, wide, pow_bytes (16 - skipped n)))

big_endian-skipped :
    (n : ℕ) → n < 2 ^ 128 → big_endian 16 n ≡ zeros (skipped n) ++ big_endian (16 - skipped n) n
big_endian-skipped n h =
    let (few, small) = kept-lt n h in
    subst (λ w. big_endian w n ≡ zeros (skipped n) ++ big_endian (16 - skipped n) n) (omega arith)
      (big_endian-zeros_append (skipped n) (16 - skipped n) n small)

u128_bytes-big_endian : (n : ℕ) → n < 2 ^ 128 → u128_bytes n ≡ big_endian (16 - skipped n) n
unfolding u128_bytes
u128_bytes-big_endian n h =
    rw (big_endian-skipped n h) (drop-zeros (skipped n) (big_endian (16 - skipped n) n))

-- Every u128 is decoded from the byte string that it is encoded as.
pub u128_trip : (n : ℕ) → n < 2 ^ 128 → u128_from_value (encode_u128.into_cbor_value n) ≡ ok n
unfolding u128_from_value
u128_trip n h =
    let (few, small) = kept-lt n h in
    let short : ltb 16 (16 - skipped n) ≡ false = ground arith in
    let front : 16 - (16 - skipped n) ≡ skipped n = omega arith in
    rw (u128_bytes-big_endian n h, length-big_endian (16 - skipped n) n, short, front)
      (rw (← big_endian-skipped n h) (ap ok (from_be_bytes-big_endian 16 n (omega arith))))
