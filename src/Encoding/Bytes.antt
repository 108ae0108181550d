-- ===== src/Encoding/Bytes.antt =====
-- Unsigned integers as big-endian bytes, and the order of the bytes beside that of the integers.
use oasis_cbor.Prelude.{
  ℕ, zero, suc, ◌/◌, ◌%◌, ◌^◌, ◌<◌, ◌≡◌, refl, sym, ap, ◌∙◌, List, [], ◌∷◌, ◌++◌, append_assoc,
  length, length-append, All, All-append, compare, Ordering, then_with, then_with_assoc,
  compare_self, arith,
}
use oasis_cbor.Value.Order.{compare_bytes}
use native.Mathlib.Nat.{pow-suc}

abbrev pub IsByte : ℕ → Type 0
IsByte b = b < 256

-- The lowest `n` bytes of `s`, the highest first.
unfoldable pub big_endian : ℕ → ℕ → List ℕ
big_endian zero s = []
big_endian (suc n) s = big_endian n (s / 256) ++ (s % 256 ∷ [])

pub length-big_endian : (n s : ℕ) → length (big_endian n s) ≡ n
unfolding big_endian
length-big_endian zero s = refl
length-big_endian (suc n) s =
    omega
      (arith, length-append (big_endian n (s / 256)) (s % 256 ∷ []), length-big_endian n (s / 256))

pub big_endian-IsByte : (n s : ℕ) → All IsByte (big_endian n s)
unfolding big_endian
big_endian-IsByte zero s = tt
big_endian-IsByte (suc n) s =
    All-append IsByte _ _ (big_endian-IsByte n (s / 256)) (omega arith, tt)

-- One digit: the quotients decide first, then the remainders.
compare_digit :
    (s t : ℕ) → compare s t ≡ then_with (compare (s / 256) (t / 256)) (compare (s % 256) (t % 256))
compare_digit s t = ground arith

quotient_bound : (n s : ℕ) → s < 256 ^ suc n → s / 256 < 256 ^ n
quotient_bound n s h = omega (arith, pow-suc 256 n)

compare_zero : (s t : ℕ) → s < 1 → t < 1 → compare s t ≡ Ordering.eq
compare_zero s t hs ht = ground arith

pub compare-big_endian :
    (n s t : ℕ) (xs ys : List ℕ)
    → s < 256 ^ n
    → t < 256 ^ n
    → compare_bytes (big_endian n s ++ xs) (big_endian n t ++ ys)
      ≡ then_with (compare s t) (compare_bytes xs ys)
unfolding big_endian compare_bytes
compare-big_endian zero s t xs ys hs ht = ground (arith, compare_zero s t hs ht)
compare-big_endian (suc n) s t xs ys hs ht =
    rw (append_assoc (big_endian n (s / 256)), append_assoc (big_endian n (t / 256)))
      (compare-big_endian n (s / 256) (t / 256) (s % 256 ∷ xs) (t % 256 ∷ ys)
          (quotient_bound n s hs) (quotient_bound n t ht)
        ∙ regroup)
  where
    regroup :
        then_with
          (compare (s / 256) (t / 256))
          (then_with (compare (s % 256) (t % 256)) (compare_bytes xs ys))
        ≡ then_with (compare s t) (compare_bytes xs ys)
    regroup =
        sym (then_with_assoc (compare (s / 256) (t / 256)) (compare (s % 256) (t % 256)) _)
        ∙ ap (λ o. then_with o (compare_bytes xs ys)) (sym (compare_digit s t))

pub compare_bytes-common :
    (xs ys zs : List ℕ) → compare_bytes (xs ++ ys) (xs ++ zs) ≡ compare_bytes ys zs
unfolding compare_bytes
compare_bytes-common [] ys zs = refl
compare_bytes-common (x ∷ xs) ys zs = rw (compare_self x) (compare_bytes-common xs ys zs)

-- Texts of one length: what follows them counts only if they agree.
pub compare_bytes-append :
    (xs ys zs ws : List ℕ)
    → length xs ≡ length ys
    → compare_bytes (xs ++ zs) (ys ++ ws) ≡ then_with (compare_bytes xs ys) (compare_bytes zs ws)
unfolding compare_bytes
compare_bytes-append [] [] zs ws h = refl
compare_bytes-append [] (y ∷ ys) zs ws h = absurd (omega arith)
compare_bytes-append (x ∷ xs) [] zs ws h = absurd (omega arith)
compare_bytes-append (x ∷ xs) (y ∷ ys) zs ws h =
    rw (compare_bytes-append xs ys zs ws (omega arith))
      (sym (then_with_assoc (compare x y) (compare_bytes xs ys) _))
