-- ===== src/Writer/Sorting.antt =====
-- `sort_by` and `dedup_by` of value/src/writer.rs on entries whose encoded keys increase.
use oasis_cbor.Prelude.{
  ℕ, ◌≡◌, refl, ap, true, false, List, [], ◌∷◌, compare_self, Ordering, Bool-cases, inl, inr, arith,
}
use oasis_cbor.Value.Order.{compare_bytes}
use oasis_cbor.Writer.{Encoded, insert_by_key, sort_by_key, eq_bytes, dedup_after, dedup_by_key}

abbrev pub IsBelow : Encoded → List Encoded → Type 0
IsBelow a [] = Unit {0}
IsBelow a (b ∷ rest) = compare_bytes a.0 b.0 ≡ Ordering.lt

abbrev pub IsIncreasing : List Encoded → Type 0
IsIncreasing [] = Unit {0}
IsIncreasing (a ∷ rest) = IsBelow a rest × IsIncreasing rest

insert_by_key_below :
    (a : Encoded) (rest : List Encoded) → IsBelow a rest → insert_by_key a rest ≡ a ∷ rest
unfolding insert_by_key
insert_by_key_below a [] h = refl
insert_by_key_below a (b ∷ rest) h = rw (h, insert_by_key)

pub sort_by_key_increasing : (l : List Encoded) → IsIncreasing l → sort_by_key l ≡ l
unfolding sort_by_key
sort_by_key_increasing [] h = refl
sort_by_key_increasing (a ∷ rest) h =
    rw (sort_by_key_increasing rest h.1) (insert_by_key_below a rest h.0)

-- Keys that differ in the order are not equal.
pub compare_bytes_self : (xs : List ℕ) → compare_bytes xs xs ≡ Ordering.eq
unfolding compare_bytes
compare_bytes_self [] = refl
compare_bytes_self (x ∷ xs) = rw (compare_self x) (compare_bytes_self xs)

pub eq_bytes→eq : (xs ys : List ℕ) → eq_bytes xs ys ≡ true → xs ≡ ys
unfolding eq_bytes
eq_bytes→eq [] [] h = refl
eq_bytes→eq [] (y ∷ ys) h = cc
eq_bytes→eq (x ∷ xs) [] h = cc
eq_bytes→eq (x ∷ xs) (y ∷ ys) h = ground (arith, eq_bytes→eq xs ys)

pub eq_bytes_self : (xs : List ℕ) → eq_bytes xs xs ≡ true
unfolding eq_bytes
eq_bytes_self [] = refl
eq_bytes_self (x ∷ xs) = ground (arith, eq_bytes_self xs)

pub eq_bytes_lt : (xs ys : List ℕ) → compare_bytes xs ys ≡ Ordering.lt → eq_bytes xs ys ≡ false
eq_bytes_lt xs ys h = elim (Bool-cases (eq_bytes xs ys)) [
  | inl e ↦ cc (h, ap (compare_bytes xs) (eq_bytes→eq xs ys e), compare_bytes_self xs)
  | inr e ↦ e
]

dedup_after_increasing :
    (a : Encoded) (l : List Encoded) → IsBelow a l → IsIncreasing l → dedup_after a l ≡ l
unfolding dedup_after
dedup_after_increasing a [] h k = refl
dedup_after_increasing a (b ∷ rest) h k =
    rw (eq_bytes_lt a.0 b.0 h, dedup_after) (ap (◌∷◌ b) (dedup_after_increasing b rest k.0 k.1))

pub dedup_by_key_increasing : (l : List Encoded) → IsIncreasing l → dedup_by_key l ≡ l
unfolding dedup_by_key
dedup_by_key_increasing [] h = refl
dedup_by_key_increasing (a ∷ rest) h = ap (◌∷◌ a) (dedup_after_increasing a rest h.0 h.1)
