-- ===== src/Writer/Canonical.antt =====
-- `Writer::encode_cbor` of value/src/writer.rs on canonical values.
use oasis_cbor.Prelude.{
  ℕ, zero, suc, ℤ, pos, negsuc, ◌<◌, ◌≡◌, refl, sym, ap, ◌∙◌, Option, List, [], ◌∷◌, ◌++◌,
  append_assoc, append-nil, length, if◌then◌else◌, arith,
}
use native.Mathlib.Nat.{mod-eq_of_lt}
use oasis_cbor.Value.{
  Value, Values, Entries, unsigned, negative, byte_string, text_string, array, map, tag, simple,
  no_values, value, no_entries, entry, discriminant, count_values, count_entries,
}
use oasis_cbor.Nesting.{is_exhausted, nested, Within, Within-is_exhausted, Within-nested, Within-le}
use oasis_cbor.Encoding.Head.{head}
use oasis_cbor.Encoding.Canonical.{
  encoding, encoding_values, encoding_entries, depth, depth_values, depth_entries, IsCanonical,
  AreCanonical, HaveCanonical, IsSorted,
}
use oasis_cbor.Encoding.Ordered.{compare-encoding}
use oasis_cbor.Writer.{
  Written, done, failed, too_much_nesting, Encoded, start_item, write_entries, write_map, keys,
  encode_cbor, encode_values, encode_keys, write_nested,
}
use oasis_cbor.Writer.Head.{start_item-head}
use oasis_cbor.Writer.Sorting.{IsIncreasing, sort_by_key_increasing, dedup_by_key_increasing}

-- The entries with their keys encoded.
abbrev encoded : Entries → Option ℤ → List Encoded
encoded no_entries d = []
encoded (entry k v es) d = (encoding k, encode_cbor v d) ∷ encoded es d

length-encoded : (es : Entries) (d : Option ℤ) → length (encoded es d) ≡ count_entries es
length-encoded no_entries d = refl
length-encoded (entry k v es) d = ap suc (length-encoded es d)

encoded-IsIncreasing :
    (es : Entries) (d : Option ℤ) → IsSorted es → HaveCanonical es → IsIncreasing (encoded es d)
unfolding IsCanonical
encoded-IsIncreasing no_entries d s c = tt
encoded-IsIncreasing (entry k v no_entries) d s c = (tt, tt)
encoded-IsIncreasing (entry k v (entry l w es)) d s c =
    (compare-encoding k l c.0 c.2.0 ∙ s.0, encoded-IsIncreasing (entry l w es) d s.1 c.2)

write_map_increasing :
    (l : List Encoded) (buf : List ℕ)
    → IsIncreasing l
    → write_map 5 l buf ≡ write_entries l (buf ++ head 5 (length l))
unfolding write_map
write_map_increasing l buf h =
    rw (sort_by_key_increasing l h, dedup_by_key_increasing l h)
      (rw (start_item-head 5 (length l) buf (omega arith)) (ground arith))

-- The guard passes, and the head goes out.
pub started :
    (d : Option ℤ) (k l s : ℕ) (buf : List ℕ) (next : List ℕ → Written)
    → l < 8
    → Within d k
    → (if is_exhausted d then failed too_much_nesting buf else next (start_item l s buf))
      ≡ next (buf ++ head l s)
started d k l s buf next h w = rw (Within-is_exhausted d k w, start_item-head l s buf h)

mutual
  unfolding encode_cbor write_entries encoding IsCanonical depth

  writes :
      (v : Value) (d : Option ℤ) (buf : List ℕ)
      → IsCanonical v
      → Within d (depth v)
      → encode_cbor v d buf ≡ done (buf ++ encoding v)
  writes (unsigned n) d buf c w = started d 0 0 n buf done (omega arith) w
  writes (negative (pos n)) d buf c w = absurd c
  writes (negative (negsuc zero)) d buf c w = started d 0 1 0 buf done (omega arith) w
  writes (negative (negsuc (suc n))) d buf c w =
      rw (mod-eq_of_lt c) (started d 0 1 (suc n) buf done (omega arith) w)
  writes (byte_string bs) d buf c w =
      started d 0 2 (length bs) buf (λ b. done (b ++ bs)) (omega arith) w
      ∙ ap done (append_assoc buf (head 2 (length bs)) bs)
  writes (text_string bs) d buf c w =
      started d 0 3 (length bs) buf (λ b. done (b ++ bs)) (omega arith) w
      ∙ ap done (append_assoc buf (head 3 (length bs)) bs)
  writes (array vs) d buf c w =
      started d _ 4 (count_values vs) buf (encode_values vs (nested d)) (omega arith) w
      ∙ writes_values vs d (buf ++ head 4 (count_values vs)) c.1 w
      ∙ ap done (append_assoc buf (head 4 (count_values vs)) _)
  writes (map es) d buf c w =
      rw (Within-is_exhausted d _ w, writes_keys es d c.2 w)
        (write_map_increasing (encoded es (nested d)) buf
            (encoded-IsIncreasing es (nested d) c.1 c.2)
          ∙ rw (length-encoded es (nested d)) (
              writes_entries es d (buf ++ head 5 (count_entries es)) c.2 w
              ∙ ap done (append_assoc buf (head 5 (count_entries es)) _)))
  writes (tag t v) d buf c w =
      started d _ 6 t buf (encode_cbor v (nested d)) (omega arith) w
      ∙ writes v (nested d) (buf ++ head 6 t) c.1 (Within-nested d (depth v) w)
      ∙ ap done (append_assoc buf (head 6 t) _)
  writes (simple s) d buf c w = started d 0 7 (discriminant s) buf done (omega arith) w

  writes_values :
      (vs : Values) (d : Option ℤ) (buf : List ℕ)
      → AreCanonical vs
      → Within d (depth_values vs)
      → encode_values vs (nested d) buf ≡ done (buf ++ encoding_values vs)
  writes_values no_values d buf c w = ap done (sym (append-nil buf))
  writes_values (value v vs) d buf c w =
      rw (writes v (nested d) buf c.0 (Within-nested d _ (Within-le d _ _ (omega arith) w))) (
        writes_values vs d (buf ++ encoding v) c.1 (Within-le d _ _ (omega arith) w)
        ∙ ap done (append_assoc buf (encoding v) _))

  writes_keys :
      (es : Entries) (d : Option ℤ)
      → HaveCanonical es
      → Within d (depth_entries es)
      → encode_keys es (nested d) ≡ keys (encoded es (nested d))
  writes_keys no_entries d c w = refl
  writes_keys (entry k v es) d c w = rw (
    writes k (nested d) [] c.0 (Within-nested d _ (Within-le d _ _ (omega arith) w)),
    writes_keys es d c.2 (Within-le d _ _ (omega arith) w),
  )

  writes_entries :
      (es : Entries) (d : Option ℤ) (buf : List ℕ)
      → HaveCanonical es
      → Within d (depth_entries es)
      → write_entries (encoded es (nested d)) buf ≡ done (buf ++ encoding_entries es)
  writes_entries no_entries d buf c w = ap done (sym (append-nil buf))
  writes_entries (entry k v es) d buf c w =
      rw
        (writes v (nested d) (buf ++ encoding k) c.1
          (Within-nested d _ (Within-le d _ _ (omega arith) w)))
        (writes_entries es d _ c.2 (Within-le d _ _ (omega arith) w)
          ∙ ap done
              (append_assoc (buf ++ encoding k) (encoding v) _ ∙ append_assoc buf (encoding k) _))

-- A canonical value nested no deeper than the limit is appended to the vector as its canonical
-- encoding, and no error is returned.
pub write_nested-encoding :
    (v : Value) (buf : List ℕ) (d : Option ℤ)
    → IsCanonical v
    → Within d (depth v)
    → write_nested v buf d ≡ done (buf ++ encoding v)
unfolding write_nested
write_nested-encoding v buf d c w = writes v d buf c w
