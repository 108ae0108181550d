-- ===== src/Writer/Normal.antt =====
-- `Writer::encode_cbor` of value/src/writer.rs on values whose maps have their entries in any order.
use oasis_cbor.Prelude.{
  ℕ, suc, ℤ, ◌≡◌, refl, sym, ap, ◌∙◌, Option, List, [], ◌∷◌, ◌++◌, append_assoc, append-nil, length,
  inl, inr, arith,
}
use oasis_cbor.Value.{
  Value, Values, Entries, unsigned, negative, byte_string, text_string, array, map, tag, simple,
  no_values, value, no_entries, entry, count_values, count_entries,
}
use oasis_cbor.Nesting.{nested, Within, Within-is_exhausted, Within-nested, Within-le}
use oasis_cbor.Encoding.Head.{head}
use oasis_cbor.Encoding.Canonical.{
  encoding, encoding_values, encoding_entries, depth, depth_values, depth_entries, IsCanonical,
  AreCanonical, HaveCanonical, IsSorted,
}
use oasis_cbor.Encoding.Normal.{
  normalize, normalize_values, normalize_entries, count_values-normalize_values,
  insert_key-HaveCanonical,
}
use oasis_cbor.Writer.{
  done, Encoded, sort_by_key, write_entries, write_map, keys, encode_cbor, encode_values,
  encode_keys, write_nested,
}
use oasis_cbor.Writer.Head.{start_item-head}
use oasis_cbor.Writer.Sorting.{IsIncreasing}
use oasis_cbor.Writer.Distinct.{write_map_cases}
use oasis_cbor.Writer.Matching.{HasKey, Match, compare-HasKey, insert_by_key-Match}
use oasis_cbor.Writer.Canonical.{started, write_nested-encoding}

-- What is kept for an entry: its encoded key, and a call that appends its encoded value.
abbrev Keeps : Encoded → Value → Value → Type 0
Keeps a k v = HasKey a k × ((buf : List ℕ) → a.1 buf ≡ done (buf ++ encoding v))

Match-IsIncreasing :
    (l : List Encoded) (es : Entries) → Match Keeps l es → IsSorted es → IsIncreasing l
Match-IsIncreasing [] es m s = tt
Match-IsIncreasing (a ∷ l) no_entries m s = absurd m
Match-IsIncreasing (a ∷ []) (entry k v es) m s = (tt, tt)
Match-IsIncreasing (a ∷ b ∷ l) (entry k v no_entries) m s = absurd m.1
Match-IsIncreasing (a ∷ b ∷ l) (entry k v (entry k' w es)) m s = (
  compare-HasKey a b k k' m.0.0 m.1.0.0 ∙ s.0,
  Match-IsIncreasing (b ∷ l) (entry k' w es) m.1 s.1,
)

Match-length : (l : List Encoded) (es : Entries) → Match Keeps l es → length l ≡ count_entries es
Match-length [] no_entries m = refl
Match-length [] (entry k v es) m = absurd m
Match-length (a ∷ l) no_entries m = absurd m
Match-length (a ∷ l) (entry k v es) m = ap suc (Match-length l es m.1)

Match-write_entries :
    (l : List Encoded) (es : Entries) (buf : List ℕ)
    → Match Keeps l es
    → write_entries l buf ≡ done (buf ++ encoding_entries es)
unfolding write_entries encoding
Match-write_entries [] no_entries buf m = ap done (sym (append-nil buf))
Match-write_entries [] (entry k v es) buf m = absurd m
Match-write_entries (a ∷ l) no_entries buf m = absurd m
Match-write_entries ((key, write_value) ∷ l) (entry k v es) buf m =
    rw (m.0.0.0, m.0.1 (buf ++ encoding k))
      (Match-write_entries l es ((buf ++ encoding k) ++ encoding v) m.1
        ∙ ap done
            (append_assoc (buf ++ encoding k) (encoding v) _ ∙ append_assoc buf (encoding k) _))

-- The arm for maps, where the sorted entries are those of a canonical map.
write_map-Match :
    (l : List Encoded) (es : Entries) (buf : List ℕ)
    → Match Keeps (sort_by_key l) es
    → IsSorted es
    → write_map 5 l buf ≡ done (buf ++ (head 5 (count_entries es) ++ encoding_entries es))
write_map-Match l es buf m s = elim (write_map_cases 5 l buf) [
  | inl (inc, e) ↦
      e
      ∙ rw
          (
            Match-length (sort_by_key l) es m,
            start_item-head 5 (count_entries es) buf (omega arith),
          )
          (Match-write_entries (sort_by_key l) es _ m
            ∙ ap done (append_assoc buf (head 5 (count_entries es)) _))
  | inr (not_inc, e) ↦ absurd (not_inc (Match-IsIncreasing (sort_by_key l) es m s))
]

mutual
  unfolding encode_cbor normalize encoding IsCanonical depth sort_by_key write_nested

  writes :
      (v : Value) (d : Option ℤ) (buf : List ℕ)
      → IsCanonical (normalize v)
      → Within d (depth v)
      → encode_cbor v d buf ≡ done (buf ++ encoding (normalize v))
  writes (unsigned n) d buf c w = write_nested-encoding (unsigned n) buf d c w
  writes (negative z) d buf c w = write_nested-encoding (negative z) buf d c w
  writes (byte_string bs) d buf c w = write_nested-encoding (byte_string bs) buf d c w
  writes (text_string bs) d buf c w = write_nested-encoding (text_string bs) buf d c w
  writes (array vs) d buf c w =
      started d _ 4 (count_values vs) buf (encode_values vs (nested d)) (omega arith) w
      ∙ writes_values vs d (buf ++ head 4 (count_values vs)) c.1 w
      ∙ ap done (append_assoc buf (head 4 (count_values vs)) _)
      ∙ rw (count_values-normalize_values vs) refl
  writes (map es) d buf c w =
      let (l, encoded, m) = writes_keys es d c.2 w in
      rw (Within-is_exhausted d _ w, encoded) (write_map-Match l (normalize_entries es) buf m c.1)
  writes (tag t v) d buf c w =
      started d _ 6 t buf (encode_cbor v (nested d)) (omega arith) w
      ∙ writes v (nested d) (buf ++ head 6 t) c.1 (Within-nested d (depth v) w)
      ∙ ap done (append_assoc buf (head 6 t) _)
  writes (simple s) d buf c w = write_nested-encoding (simple s) buf d c w

  writes_values :
      (vs : Values) (d : Option ℤ) (buf : List ℕ)
      → AreCanonical (normalize_values vs)
      → Within d (depth_values vs)
      → encode_values vs (nested d) buf ≡ done (buf ++ encoding_values (normalize_values vs))
  writes_values no_values d buf c w = ap done (sym (append-nil buf))
  writes_values (value v vs) d buf c w =
      rw (writes v (nested d) buf c.0 (Within-nested d _ (Within-le d _ _ (omega arith) w))) (
        writes_values vs d (buf ++ encoding (normalize v)) c.1 (Within-le d _ _ (omega arith) w)
        ∙ ap done (append_assoc buf (encoding (normalize v)) _))

  writes_keys :
      (es : Entries) (d : Option ℤ)
      → HaveCanonical (normalize_entries es)
      → Within d (depth_entries es)
      → (l : List Encoded) × (encode_keys es (nested d) ≡ keys l)
        × Match Keeps (sort_by_key l) (normalize_entries es)
  writes_keys no_entries d c w = ([], refl, tt)
  writes_keys (entry k v es) d c w =
      let (ck, cv, rest) =
        insert_key-HaveCanonical (normalize k) (normalize v) (normalize_entries es) c in
      let wk = Within-nested d _ (Within-le d (suc (depth k)) _ (omega arith) w) in
      let wv = Within-nested d _ (Within-le d (suc (depth v)) _ (omega arith) w) in
      let (l, encoded, m) = writes_keys es d rest (Within-le d _ _ (omega arith) w) in
      (
        (encoding (normalize k), encode_cbor v (nested d)) ∷ l,
        rw (writes k (nested d) [] ck wk, encoded) refl,
        insert_by_key-Match Keeps (λ a k v h. h.0) _ (sort_by_key l) (normalize k) (normalize v)
            (normalize_entries es) ((refl, ck), λ buf. writes v (nested d) buf cv wv) m,
      )

-- A value that is canonical once the entries of its maps are sorted, nested no deeper than the limit,
-- is appended to the vector as the canonical encoding of the sorted value, and no error is returned.
pub write_nested-normalize :
    (v : Value) (buf : List ℕ) (d : Option ℤ)
    → IsCanonical (normalize v)
    → Within d (depth v)
    → write_nested v buf d ≡ done (buf ++ encoding (normalize v))
unfolding write_nested
write_nested-normalize v buf d c w = writes v d buf c w
