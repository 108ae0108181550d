-- ===== src/Writer/Distinct.antt =====
-- The arm of `Writer::encode_cbor` for maps, on entries in any order: sorting, `dedup_by` and the
-- comparison of the lengths.
use oasis_cbor.Prelude.{
  ℕ, suc, ◌≤◌, ◌≡◌, ◌≢◌, ◌⊎◌, inl, inr, refl, sym, ap, Bool, true, false, List, [], ◌∷◌, length,
  Ordering, Bool-cases, ◌==◌, ==_iff, arith,
}
use oasis_cbor.Value.Order.{compare_bytes}
use oasis_cbor.Encoding.Total.{compare_bytes_flip, compare_bytes-eq}
use oasis_cbor.Writer.{
  Encoded, failed, duplicate_map_key, start_item, insert_by_key, sort_by_key, eq_bytes, dedup_after,
  dedup_by_key, write_entries, write_map,
}
use oasis_cbor.Writer.Sorting.{IsIncreasing, eq_bytes_self, dedup_by_key_increasing}

-- The first key of the list is not below `a`.
abbrev IsFirst : Encoded → List Encoded → Type 0
IsFirst a [] = Unit {0}
IsFirst a (b ∷ rest) = compare_bytes a.0 b.0 ≢ Ordering.gt

abbrev IsAscending : List Encoded → Type 0
IsAscending [] = Unit {0}
IsAscending (a ∷ rest) = IsFirst a rest × IsAscending rest

insert_by_key-IsFirst :
    (b a : Encoded) (rest : List Encoded)
    → compare_bytes b.0 a.0 ≢ Ordering.gt
    → IsFirst b rest
    → IsFirst b (insert_by_key a rest)
unfolding insert_by_key
insert_by_key-IsFirst b a [] h k = h
insert_by_key-IsFirst b a (c ∷ rest) h k = go (compare_bytes a.0 c.0) refl
  where
    go : (o : Ordering) → compare_bytes a.0 c.0 ≡ o → IsFirst b (insert_by_key a (c ∷ rest))
    go Ordering.lt e = rw (e, insert_by_key) h
    go Ordering.eq e = rw (e, insert_by_key) h
    go Ordering.gt e = rw (e, insert_by_key) k

insert_by_key-IsAscending :
    (a : Encoded) (l : List Encoded) → IsAscending l → IsAscending (insert_by_key a l)
unfolding insert_by_key
insert_by_key-IsAscending a [] h = (tt, tt)
insert_by_key-IsAscending a (b ∷ rest) h =
    go (compare_bytes a.0 b.0) refl (insert_by_key-IsAscending a rest h.1)
  where
    go :
        (o : Ordering)
        → compare_bytes a.0 b.0 ≡ o
        → IsAscending (insert_by_key a rest)
        → IsAscending (insert_by_key a (b ∷ rest))
    go Ordering.lt e later = rw (e, insert_by_key) ((λ k. cc (e, k)), h)
    go Ordering.eq e later = rw (e, insert_by_key) ((λ k. cc (e, k)), h)
    go Ordering.gt e later =
        rw (e, insert_by_key)
          (insert_by_key-IsFirst b a rest (λ k. cc (compare_bytes_flip a.0 b.0, e, k)) h.0, later)

sort_by_key-IsAscending : (l : List Encoded) → IsAscending (sort_by_key l)
unfolding sort_by_key
sort_by_key-IsAscending [] = tt
sort_by_key-IsAscending (a ∷ rest) =
    insert_by_key-IsAscending a (sort_by_key rest) (sort_by_key-IsAscending rest)

length-dedup_after : (a : Encoded) (l : List Encoded) → length (dedup_after a l) ≤ length l
unfolding dedup_after
length-dedup_after a [] = omega arith
length-dedup_after a (b ∷ rest) =
    go (eq_bytes a.0 b.0) refl (length-dedup_after a rest) (length-dedup_after b rest)
  where
    go :
        (t : Bool)
        → eq_bytes a.0 b.0 ≡ t
        → length (dedup_after a rest) ≤ length rest
        → length (dedup_after b rest) ≤ length rest
        → length (dedup_after a (b ∷ rest)) ≤ suc (length rest)
    go true e h k = rw (e, dedup_after) (omega arith)
    go false e h k = rw (e, dedup_after) (omega arith)

below :
    (a b : Encoded)
    → compare_bytes a.0 b.0 ≢ Ordering.gt
    → eq_bytes a.0 b.0 ≡ false
    → compare_bytes a.0 b.0 ≡ Ordering.lt
below a b h k = go (compare_bytes a.0 b.0) refl
  where
    go : (o : Ordering) → compare_bytes a.0 b.0 ≡ o → compare_bytes a.0 b.0 ≡ Ordering.lt
    go Ordering.lt e = e
    go Ordering.eq e = cc (k, ap (eq_bytes a.0) (compare_bytes-eq a.0 b.0 e), eq_bytes_self a.0)
    go Ordering.gt e = absurd (h e)

dedup_after-IsIncreasing :
    (a : Encoded) (l : List Encoded)
    → IsAscending (a ∷ l)
    → length l ≡ length (dedup_after a l)
    → IsIncreasing (a ∷ l)
unfolding dedup_after
dedup_after-IsIncreasing a [] h k = (tt, tt)
dedup_after-IsIncreasing a (b ∷ rest) h k =
    go (eq_bytes a.0 b.0) refl k (dedup_after-IsIncreasing b rest h.1)
  where
    go :
        (t : Bool)
        → eq_bytes a.0 b.0 ≡ t
        → suc (length rest) ≡ length (dedup_after a (b ∷ rest))
        → (length rest ≡ length (dedup_after b rest) → IsIncreasing (b ∷ rest))
        → IsIncreasing (a ∷ b ∷ rest)
    go true e k later =
        let same = rw (e, dedup_after) at k in
        let bound = length-dedup_after a rest in absurd (omega arith)
    go false e k later =
        let same = rw (e, dedup_after) at k in (below a b h.0 e, later (omega arith))

dedup_by_key-IsIncreasing :
    (l : List Encoded) → IsAscending l → length l ≡ length (dedup_by_key l) → IsIncreasing l
unfolding dedup_by_key
dedup_by_key-IsIncreasing [] h k = tt
dedup_by_key-IsIncreasing (a ∷ rest) h k = dedup_after-IsIncreasing a rest h (omega arith)

-- On entries in any order the arm for maps does one of two things. Either the keys, sorted by their
-- encodings, strictly increase, and it writes the count and the entries in that order; or they do
-- not, and it fails with the error for a duplicate key and leaves the vector as it was.
pub write_map_cases :
    (label : ℕ) (encoded : List Encoded) (buf : List ℕ)
    → (IsIncreasing (sort_by_key encoded)
        × (write_map label encoded buf
            ≡ write_entries
                (sort_by_key encoded)
                (start_item label (length (sort_by_key encoded)) buf)))
      ⊎ (¬ IsIncreasing (sort_by_key encoded)
          × (write_map label encoded buf ≡ failed duplicate_map_key buf))
unfolding write_map
write_map_cases label encoded buf =
    let sorted = sort_by_key encoded in
    elim (Bool-cases (length sorted == length (dedup_by_key sorted))) [
      | inl e ↦
          let same = (==_iff (length sorted) (length (dedup_by_key sorted))).0 e in
          let inc = dedup_by_key-IsIncreasing sorted (sort_by_key-IsAscending encoded) same in
          inl (inc, rw e (rw (dedup_by_key_increasing sorted inc) refl))
      | inr e ↦ inr (
        (λ inc. cc (
          (==_iff (length sorted) (length (dedup_by_key sorted))).1
              (ap length (sym (dedup_by_key_increasing sorted inc))),
          e,
        )),
        rw e refl,
      )
    ]
