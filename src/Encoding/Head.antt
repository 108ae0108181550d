-- ===== src/Encoding/Head.antt =====
-- The head of a data item: the major type and a size, in the fewest bytes.
use oasis_cbor.Prelude.{
  ℕ, suc, ◌+◌, ◌*◌, ◌^◌, ◌<◌, ◌≤◌, ◌≡◌, refl, sym, ap, ◌∙◌, inl, inr, List, ◌∷◌, ◌++◌, length, All,
  compare, Ordering, then_with, then_with_assoc, ltb, if◌then◌else◌, Bool-cases, compare_self,
  compare-eq, compare-lt, compare-gt, subst, arith,
}
use oasis_cbor.Value.Order.{compare_bytes}
use oasis_cbor.Encoding.Bytes.{
  IsByte, big_endian, length-big_endian, big_endian-IsByte, compare-big_endian,
  compare_bytes-common,
}
use native.Mathlib.Decide.{dec_lt}

abbrev pub IsU64 : ℕ → Type 0
IsU64 n = n < 2 ^ 64

-- The bytes that follow the first one.
unfoldable pub width : ℕ → ℕ
width s =
    if ltb s 24
    then 0
    else if ltb s (2 ^ 8)
    then 1
    else if ltb s (2 ^ 16)
    then 2
    else if ltb s (2 ^ 32)
    then 4
    else 8

-- The low five bits of the first byte.
unfoldable pub info : ℕ → ℕ
info s =
    if ltb s 24
    then s
    else if ltb s (2 ^ 8)
    then 24
    else if ltb s (2 ^ 16)
    then 25
    else if ltb s (2 ^ 32)
    then 26
    else 27

unfoldable pub head : ℕ → ℕ → List ℕ
head label s = (label * 32 + info s) ∷ big_endian (width s) s

pub info-lt : (s : ℕ) → info s < 28
unfolding info
info-lt s = ground arith

info_mono : (s t : ℕ) → info s < info t → s < t
unfolding info
info_mono s t h = ground arith

width_of_info : (s t : ℕ) → info s ≡ info t → width s ≡ width t
unfolding info width
width_of_info s t e = ground arith

inline_of_info : (s t : ℕ) → s < 24 → info s ≡ info t → s ≡ t
unfolding info
inline_of_info s t h e = ground arith

inline_width : (s : ℕ) → s < 24 → (info s ≡ s) × (width s ≡ 0)
unfolding info width
inline_width s h = ground arith

-- A size that is not in the first byte is in the bytes behind it.
pub lt-width : (s : ℕ) → IsU64 s → 24 ≤ s → s < 256 ^ width s
unfolding width
lt-width s h low = elim (Bool-cases (ltb s 24)) [
  | inl e ↦ absurd (ground arith)
  | inr e ↦ rw e (elim (Bool-cases (ltb s 256)) [
    | inl e₁ ↦ rw e₁ (ground arith)
    | inr e₁ ↦ rw e₁ (elim (Bool-cases (ltb s 65536)) [
      | inl e₂ ↦ rw e₂ (ground arith)
      | inr e₂ ↦ rw e₂ (elim (Bool-cases (ltb s 4294967296)) [
        | inl e₃ ↦ rw e₃ (ground arith)
        | inr e₃ ↦ rw e₃ (omega arith)
      ])
    ])
  ])
]

pub length-head : (label s : ℕ) → length (head label s) ≡ suc (width s)
unfolding head
length-head label s = ap suc (length-big_endian (width s) s)

pub head-IsByte : (label s : ℕ) → label < 8 → All IsByte (head label s)
unfolding head
head-IsByte label s h = (omega (arith, info-lt s), big_endian-IsByte (width s) s)

compare_first :
    (l m i j : ℕ)
    → i < 28
    → j < 28
    → compare (l * 32 + i) (m * 32 + j) ≡ then_with (compare l m) (compare i j)
compare_first l m i j hi hj = ground arith

same_info :
    (s t : ℕ) (xs ys : List ℕ)
    → IsU64 s
    → IsU64 t
    → info s ≡ info t
    → compare_bytes (big_endian (width s) s ++ xs) (big_endian (width t) t ++ ys)
      ≡ then_with (compare s t) (compare_bytes xs ys)
same_info s t xs ys hs ht e = elim (dec_lt s 24) [
  | yes p ↦ rw (← inline_of_info s t p e) (
      compare_bytes-common _ xs ys
      ∙ sym (ap (λ o. then_with o (compare_bytes xs ys)) (compare_self s)))
  | no p ↦ rw (width_of_info s t e) (
      compare-big_endian (width t) s t xs ys
        (subst (λ w. s < 256 ^ w) (width_of_info s t e) (lt-width s hs (omega arith)))
        (lt-width t ht (ground (arith, inline_of_info t s))))
]

-- Heads are ordered as their labels, and those of one label as the sizes.
compare_sizes :
    (s t : ℕ) (xs ys : List ℕ)
    → IsU64 s
    → IsU64 t
    → then_with
        (compare (info s) (info t))
        (compare_bytes (big_endian (width s) s ++ xs) (big_endian (width t) t ++ ys))
      ≡ then_with (compare s t) (compare_bytes xs ys)
compare_sizes s t xs ys hs ht = go (compare (info s) (info t)) refl
  where
    go :
        (o : Ordering)
        → compare (info s) (info t) ≡ o
        → then_with o (compare_bytes (big_endian (width s) s ++ xs) (big_endian (width t) t ++ ys))
          ≡ then_with (compare s t) (compare_bytes xs ys)
    go Ordering.lt e = rw (compare-lt s t (info_mono s t (ground arith)))
    go Ordering.gt e = rw (compare-gt s t (info_mono t s (ground arith)))
    go Ordering.eq e = same_info s t xs ys hs ht (compare-eq (info s) (info t) e)

pub compare-head :
    (l m s t : ℕ) (xs ys : List ℕ)
    → IsU64 s
    → IsU64 t
    → compare_bytes (head l s ++ xs) (head m t ++ ys)
      ≡ then_with (compare l m) (then_with (compare s t) (compare_bytes xs ys))
unfolding head compare_bytes
compare-head l m s t xs ys hs ht =
    rw (compare_first l m (info s) (info t) (info-lt s) (info-lt t)) (
      then_with_assoc (compare l m) (compare (info s) (info t)) _
      ∙ ap (then_with (compare l m)) (compare_sizes s t xs ys hs ht))
