-- ===== src/Encoding/Ordered.antt =====
-- `Ord for Value` of value/src/values.rs on canonical values, beside the order of their encodings.
use oasis_cbor.Prelude.{
  ℕ, pos, negsuc, ◌≡◌, ◌≢◌, refl, sym, ap, ◌∙◌, List, [], ◌++◌, append_assoc, append-nil, length,
  compare, Ordering, then_with, then_with_assoc, reverse_ordering, compare_self, compare-eq, arith,
}
use oasis_cbor.Value.{
  SimpleValue, Value, Values, Entries, unsigned, negative, byte_string, text_string, array, map,
  tag, simple, no_values, value, no_entries, entry, type_label, discriminant, count_values,
  count_entries,
}
use oasis_cbor.Value.Order.{compare_bytes, cmp, cmp_values, cmp_entries}
use oasis_cbor.Encoding.Bytes.{compare_bytes-append}
use oasis_cbor.Encoding.Head.{IsU64, head, compare-head}
use oasis_cbor.Encoding.Canonical.{
  encoding, encoding_values, encoding_entries, IsCanonical, AreCanonical, HaveCanonical,
}

pub discriminant-IsU64 : (s : SimpleValue) → IsU64 (discriminant s)
discriminant-IsU64 SimpleValue.false_value = omega arith
discriminant-IsU64 _ = omega arith

-- An encoding is a head with the value's label, and the rest.
pub encoding_opening :
    (a : Value)
    → IsCanonical a
    → (s : ℕ) × (body : List ℕ) × IsU64 s × (encoding a ≡ head (type_label a) s ++ body)
unfolding IsCanonical encoding
encoding_opening (unsigned n) c = (n, [], c, sym (append-nil (head 0 n)))
encoding_opening (negative (pos n)) c = absurd c
encoding_opening (negative (negsuc n)) c = (n, [], c, sym (append-nil (head 1 n)))
encoding_opening (byte_string bs) c = (length bs, bs, c.1, refl)
encoding_opening (text_string bs) c = (length bs, bs, c.1, refl)
encoding_opening (array vs) c = (count_values vs, encoding_values vs, c.0, refl)
encoding_opening (map es) c = (count_entries es, encoding_entries es, c.0, refl)
encoding_opening (tag t v) c = (t, encoding v, c.0, refl)
encoding_opening (simple s) c =
    (discriminant s, [], discriminant-IsU64 s, sym (append-nil (head 7 (discriminant s))))

other_label :
    (a b : Value) (xs ys : List ℕ)
    → IsCanonical a
    → IsCanonical b
    → compare (type_label a) (type_label b) ≢ Ordering.eq
    → compare_bytes (encoding a ++ xs) (encoding b ++ ys) ≡ compare (type_label a) (type_label b)
other_label a b xs ys ca cb ne =
    let (s, as', hs, ea) = encoding_opening a ca in
    let (t, bs', ht, eb) = encoding_opening b cb in
    rw (ea, eb, append_assoc (head (type_label a) s), append_assoc (head (type_label b) t))
      (compare-head (type_label a) (type_label b) s t (as' ++ xs) (bs' ++ ys) hs ht
        ∙ decided (compare (type_label a) (type_label b)) _ ne)
  where
    decided : (o p : Ordering) → o ≢ Ordering.eq → then_with o p ≡ o
    decided Ordering.lt p h = refl
    decided Ordering.eq p h = absurd (h refl)
    decided Ordering.gt p h = refl

-- Under one label the sizes decide, and then the contents, if those are compared by `o`.
same_label :
    (l s t : ℕ) (as' bs' xs ys : List ℕ) (o : Ordering)
    → IsU64 s
    → IsU64 t
    → (s ≡ t → compare_bytes (as' ++ xs) (bs' ++ ys) ≡ then_with o (compare_bytes xs ys))
    → compare_bytes ((head l s ++ as') ++ xs) ((head l t ++ bs') ++ ys)
      ≡ then_with (then_with (compare s t) o) (compare_bytes xs ys)
same_label l s t as' bs' xs ys o hs ht contents =
    rw (append_assoc (head l s), append_assoc (head l t))
      (compare-head l l s t (as' ++ xs) (bs' ++ ys) hs ht
        ∙ ap (λ p. then_with p (then_with (compare s t) (compare_bytes (as' ++ xs) (bs' ++ ys))))
            (compare_self l)
        ∙ go (compare s t) refl
        ∙ sym (then_with_assoc (compare s t) o _))
  where
    go :
        (p : Ordering)
        → compare s t ≡ p
        → then_with p (compare_bytes (as' ++ xs) (bs' ++ ys))
          ≡ then_with p (then_with o (compare_bytes xs ys))
    go Ordering.lt e = refl
    go Ordering.eq e = contents (compare-eq s t e)
    go Ordering.gt e = refl

compare_down : (m n : ℕ) → compare m n ≡ reverse_ordering (compare n m)
compare_down m n = ground arith

regroup :
    (a b c d : Ordering)
    → then_with a (then_with b (then_with c d)) ≡ then_with (then_with (then_with a b) c) d
regroup Ordering.lt b c d = refl
regroup Ordering.gt b c d = refl
regroup Ordering.eq b c d = sym (then_with_assoc b c d)

then_with-eq : (o : Ordering) → then_with o Ordering.eq ≡ o
then_with-eq Ordering.lt = refl
then_with-eq Ordering.eq = refl
then_with-eq Ordering.gt = refl

mutual
  unfolding IsCanonical encoding cmp

  agree :
      (a b : Value) (xs ys : List ℕ)
      → IsCanonical a
      → IsCanonical b
      → compare_bytes (encoding a ++ xs) (encoding b ++ ys)
        ≡ then_with (cmp a b) (compare_bytes xs ys)
  agree (unsigned m) (unsigned n) xs ys ca cb = compare-head 0 0 m n xs ys ca cb
  agree (negative (pos m)) b xs ys ca cb = absurd ca
  agree (negative (negsuc m)) (negative (pos n)) xs ys ca cb = absurd cb
  agree (negative (negsuc m)) (negative (negsuc n)) xs ys ca cb =
      compare-head 1 1 m n xs ys ca cb
      ∙ ap (λ o. then_with o (compare_bytes xs ys)) (compare_down m n)
  agree (byte_string as') (byte_string bs') xs ys ca cb =
      same_label 2 _ _ as' bs' xs ys (compare_bytes as' bs') ca.1 cb.1
        (compare_bytes-append as' bs' xs ys)
  agree (text_string as') (text_string bs') xs ys ca cb =
      same_label 3 _ _ as' bs' xs ys (compare_bytes as' bs') ca.1 cb.1
        (compare_bytes-append as' bs' xs ys)
  agree (array vs) (array ws) xs ys ca cb =
      same_label 4 _ _ _ _ xs ys (cmp_values vs ws) ca.0 cb.0 (agree_values vs ws xs ys ca.1 cb.1)
  agree (map es) (map fs) xs ys ca cb =
      same_label 5 _ _ _ _ xs ys (cmp_entries es fs) ca.0 cb.0 (agree_entries es fs xs ys ca.2 cb.2)
  agree (tag t v) (tag u w) xs ys ca cb =
      same_label 6 t u _ _ xs ys (cmp v w) ca.0 cb.0 (λ _. agree v w xs ys ca.1 cb.1)
  agree (simple s) (simple t) xs ys ca cb =
      compare-head 7 7 _ _ xs ys (discriminant-IsU64 s) (discriminant-IsU64 t)
  agree a b xs ys ca cb = other_label a b xs ys ca cb (λ e. cc)

  agree_values :
      (vs ws : Values) (xs ys : List ℕ)
      → AreCanonical vs
      → AreCanonical ws
      → count_values vs ≡ count_values ws
      → compare_bytes (encoding_values vs ++ xs) (encoding_values ws ++ ys)
        ≡ then_with (cmp_values vs ws) (compare_bytes xs ys)
  agree_values no_values no_values xs ys cv cw e = refl
  agree_values no_values (value w ws) xs ys cv cw e = absurd (omega arith)
  agree_values (value v vs) no_values xs ys cv cw e = absurd (omega arith)
  agree_values (value v vs) (value w ws) xs ys cv cw e =
      rw (append_assoc (encoding v), append_assoc (encoding w))
        (agree v w (encoding_values vs ++ xs) (encoding_values ws ++ ys) cv.0 cw.0
          ∙ ap (then_with (cmp v w)) (agree_values vs ws xs ys cv.1 cw.1 (omega arith))
          ∙ sym (then_with_assoc (cmp v w) (cmp_values vs ws) _))

  agree_entries :
      (es fs : Entries) (xs ys : List ℕ)
      → HaveCanonical es
      → HaveCanonical fs
      → count_entries es ≡ count_entries fs
      → compare_bytes (encoding_entries es ++ xs) (encoding_entries fs ++ ys)
        ≡ then_with (cmp_entries es fs) (compare_bytes xs ys)
  agree_entries no_entries no_entries xs ys ce cf e = refl
  agree_entries no_entries (entry l w fs) xs ys ce cf e = absurd (omega arith)
  agree_entries (entry k v es) no_entries xs ys ce cf e = absurd (omega arith)
  agree_entries (entry k v es) (entry l w fs) xs ys ce cf e =
      rw (append_assoc (encoding k), append_assoc (encoding l))
        (agree k l _ _ ce.0 cf.0
          ∙ ap (then_with (cmp k l)) (
              rw (append_assoc (encoding v), append_assoc (encoding w))
                (agree v w (encoding_entries es ++ xs) (encoding_entries fs ++ ys) ce.1 cf.1
                  ∙ ap (then_with (cmp v w)) (agree_entries es fs xs ys ce.2 cf.2 (omega arith))))
          ∙ regroup (cmp k l) (cmp v w) (cmp_entries es fs) (compare_bytes xs ys))

-- Whatever follows the encodings counts only if the values are equal.
pub compare-encoding_append :
    (a b : Value) (xs ys : List ℕ)
    → IsCanonical a
    → IsCanonical b
    → compare_bytes (encoding a ++ xs) (encoding b ++ ys)
      ≡ then_with (cmp a b) (compare_bytes xs ys)
compare-encoding_append = agree

-- Comparing two canonical values gives what comparing their encodings byte by byte gives: the order
-- by which the decoder checks the keys of a map is the order by which the encoder sorts them.
pub compare-encoding :
    (a b : Value)
    → IsCanonical a
    → IsCanonical b
    → compare_bytes (encoding a) (encoding b) ≡ cmp a b
unfolding compare_bytes
compare-encoding a b ca cb =
    rw (append-nil, append-nil, then_with-eq (cmp a b)) at (agree a b [] [] ca cb)
