-- ===== src/Encoding/Total.antt =====
-- `Ord for Value` of value/src/values.rs on canonical values: the laws of an order.
use oasis_cbor.Prelude.{
  ℕ, ◌≡◌, refl, sym, ap, ap₂, ◌∙◌, List, [], ◌∷◌, compare, Ordering, then_with, reverse_ordering,
  arith,
}
use oasis_cbor.Value.{Value}
use oasis_cbor.Value.Order.{compare_bytes, cmp}
use oasis_cbor.Encoding.Canonical.{encoding, IsCanonical}
use oasis_cbor.Encoding.Ordered.{compare-encoding}

compare_flip : (m n : ℕ) → compare n m ≡ reverse_ordering (compare m n)
compare_flip m n = ground arith

reverse-then_with :
    (o p : Ordering)
    → then_with (reverse_ordering o) (reverse_ordering p) ≡ reverse_ordering (then_with o p)
reverse-then_with Ordering.lt p = refl
reverse-then_with Ordering.eq p = refl
reverse-then_with Ordering.gt p = refl

pub compare_bytes_flip :
    (xs ys : List ℕ) → compare_bytes ys xs ≡ reverse_ordering (compare_bytes xs ys)
unfolding compare_bytes
compare_bytes_flip [] [] = refl
compare_bytes_flip [] (y ∷ ys) = refl
compare_bytes_flip (x ∷ xs) [] = refl
compare_bytes_flip (x ∷ xs) (y ∷ ys) =
    ap₂ then_with (compare_flip x y) (compare_bytes_flip xs ys)
    ∙ reverse-then_with (compare x y) (compare_bytes xs ys)

pub compare_bytes-eq : (xs ys : List ℕ) → compare_bytes xs ys ≡ Ordering.eq → xs ≡ ys
unfolding compare_bytes
compare_bytes-eq [] [] h = refl
compare_bytes-eq [] (y ∷ ys) h = cc
compare_bytes-eq (x ∷ xs) [] h = cc
compare_bytes-eq (x ∷ xs) (y ∷ ys) h = ground (arith, compare_bytes-eq xs ys)

compare_bytes_trans :
    (xs ys zs : List ℕ)
    → compare_bytes xs ys ≡ Ordering.lt
    → compare_bytes ys zs ≡ Ordering.lt
    → compare_bytes xs zs ≡ Ordering.lt
unfolding compare_bytes
compare_bytes_trans [] [] zs h k = cc
compare_bytes_trans [] (y ∷ ys) [] h k = cc
compare_bytes_trans [] (y ∷ ys) (z ∷ zs) h k = refl
compare_bytes_trans (x ∷ xs) [] zs h k = cc
compare_bytes_trans (x ∷ xs) (y ∷ ys) [] h k = cc
compare_bytes_trans (x ∷ xs) (y ∷ ys) (z ∷ zs) h k = ground (arith, compare_bytes_trans xs ys zs)

pub compare_bytes_refl : (xs : List ℕ) → compare_bytes xs xs ≡ Ordering.eq
unfolding compare_bytes
compare_bytes_refl [] = refl
compare_bytes_refl (x ∷ xs) = ground (arith, compare_bytes_refl xs)

pub cmp-eq :
    (a b : Value) → IsCanonical a → IsCanonical b → cmp a b ≡ Ordering.eq → encoding a ≡ encoding b
cmp-eq a b ca cb h = compare_bytes-eq (encoding a) (encoding b) (compare-encoding a b ca cb ∙ h)

pub cmp_refl : (a : Value) → IsCanonical a → cmp a a ≡ Ordering.eq
cmp_refl a ca = sym (compare-encoding a a ca ca) ∙ compare_bytes_refl (encoding a)

pub cmp_flip : (a b : Value) → IsCanonical a → IsCanonical b → cmp b a ≡ reverse_ordering (cmp a b)
cmp_flip a b ca cb =
    sym (compare-encoding b a cb ca)
    ∙ compare_bytes_flip (encoding a) (encoding b)
    ∙ ap reverse_ordering (compare-encoding a b ca cb)

-- On canonical values the order is transitive.
pub cmp_trans :
    (a b c : Value)
    → IsCanonical a
    → IsCanonical b
    → IsCanonical c
    → cmp a b ≡ Ordering.lt
    → cmp b c ≡ Ordering.lt
    → cmp a c ≡ Ordering.lt
cmp_trans a b c ca cb cc' h k =
    sym (compare-encoding a c ca cc')
    ∙ compare_bytes_trans (encoding a) (encoding b) (encoding c) (compare-encoding a b ca cb ∙ h)
        (compare-encoding b c cb cc' ∙ k)

pub cmp-eq_lt :
    (a b c : Value)
    → IsCanonical a
    → IsCanonical b
    → IsCanonical c
    → cmp a b ≡ Ordering.eq
    → cmp b c ≡ Ordering.lt
    → cmp a c ≡ Ordering.lt
cmp-eq_lt a b c ca cb cc' h k =
    sym (compare-encoding a c ca cc')
    ∙ ap (λ bytes. compare_bytes bytes (encoding c)) (cmp-eq a b ca cb h)
    ∙ compare-encoding b c cb cc'
    ∙ k
