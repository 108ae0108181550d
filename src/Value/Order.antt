-- ===== src/Value/Order.antt =====
-- `impl Ord for Value` and `impl PartialEq for Value` of value/src/values.rs.
use oasis_cbor.Prelude.{
  ℕ, List, [], ◌∷◌, Bool, length, compare, Ordering, then_with, reverse_ordering, is_equal,
  compare_ℤ,
}
use oasis_cbor.Value.{
  Value, Values, Entries, unsigned, negative, byte_string, text_string, array, map, tag, simple,
  value, entry, type_label, discriminant, count_values, count_entries,
}

-- `Vec<u8>::cmp` and `str::cmp`: lexicographic in the bytes.
unfoldable pub compare_bytes : List ℕ → List ℕ → Ordering
compare_bytes [] [] = Ordering.eq
compare_bytes [] (y ∷ ys) = Ordering.lt
compare_bytes (x ∷ xs) [] = Ordering.gt
compare_bytes (x ∷ xs) (y ∷ ys) = then_with (compare x y) (compare_bytes xs ys)

-- Two values with one label are built by one constructor, so the label test of the source is the
-- last clause of `cmp`, and its unreachable arm is gone. A guard on unequal lengths is `then_with`.
unfoldable mutual
  pub cmp : Value → Value → Ordering
  cmp (unsigned m) (unsigned n) = compare m n
  cmp (negative m) (negative n) = reverse_ordering (compare_ℤ m n)
  cmp (byte_string xs) (byte_string ys) =
      then_with (compare (length xs) (length ys)) (compare_bytes xs ys)
  cmp (text_string xs) (text_string ys) =
      then_with (compare (length xs) (length ys)) (compare_bytes xs ys)
  cmp (array vs) (array ws) =
      then_with (compare (count_values vs) (count_values ws)) (cmp_values vs ws)
  cmp (map es) (map fs) =
      then_with (compare (count_entries es) (count_entries fs)) (cmp_entries es fs)
  cmp (tag t v) (tag u w) = then_with (compare t u) (cmp v w)
  cmp (simple s) (simple t) = compare (discriminant s) (discriminant t)
  cmp a b = compare (type_label a) (type_label b)

  -- The loop over the zipped arrays, left at the first unequal pair.
  pub cmp_values : Values → Values → Ordering
  cmp_values (value v vs) (value w ws) = then_with (cmp v w) (cmp_values vs ws)
  cmp_values _ _ = Ordering.eq

  pub cmp_entries : Entries → Entries → Ordering
  cmp_entries (entry k v es) (entry l w fs) =
      then_with (then_with (cmp k l) (cmp v w)) (cmp_entries es fs)
  cmp_entries _ _ = Ordering.eq

-- `PartialEq::eq`
unfoldable pub eq : Value → Value → Bool
eq a b = is_equal (cmp a b)
