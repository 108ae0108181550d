-- ===== src/Writer/Accepted.antt =====
-- `Writer::encode_cbor` of value/src/writer.rs on values with lengths and numbers in range: which of
-- them are written, and which are errors.
use oasis_cbor.Prelude.{
  ℕ, ℤ, pos, negsuc, ◌≡◌, ◌↔◌, refl, sym, ◌∙◌, true, false, Option, none, some, List, [], ◌∷◌, ◌++◌,
  length, All, inl, inr, if◌then◌else◌,
}
use oasis_cbor.Value.{
  Value, Values, Entries, unsigned, negative, byte_string, text_string, array, map, tag, simple,
  no_values, value, no_entries, entry, count_values, count_entries,
}
use oasis_cbor.Nesting.{is_exhausted, nested, Within, Within-zero, Within-suc, Within-max}
use oasis_cbor.Encoding.Bytes.{IsByte}
use oasis_cbor.Encoding.Head.{IsU64}
use oasis_cbor.Encoding.Utf8.{is_utf8}
use oasis_cbor.Encoding.Canonical.{
  encoding, depth, depth_values, depth_entries, IsCanonical, AreCanonical, HaveCanonical, IsSorted,
}
use oasis_cbor.Encoding.Normal.{
  normalize, normalize_values, normalize_entries, depth-normalize, count_values-normalize_values,
  count_entries-normalize_entries, depth_entries-normalize_entries,
}
use oasis_cbor.Writer.{
  Written, done, failed, and_then, too_much_nesting, Encoded, start_item, sort_by_key,
  write_entries, write_map, Keys, keys, key_failed, add_key, finish_map, encode_cbor, encode_values,
  encode_keys, write_nested,
}
use oasis_cbor.Writer.Sorting.{IsIncreasing}
use oasis_cbor.Writer.Distinct.{write_map_cases}
use oasis_cbor.Writer.Matching.{HasKey, Match, compare-HasKey, insert_by_key-Match}
use oasis_cbor.Writer.Normal.{write_nested-normalize}

-- Lengths and numbers of 64 bits, bytes and valid text: what the Rust types have, but that a
-- `Negative` is negative, and not below -2^64. The entries of a map are in any order.
unfoldable mutual
  pub IsBounded : Value → Type 0
  IsBounded (unsigned n) = IsU64 n
  IsBounded (negative (pos n)) = ⊥
  IsBounded (negative (negsuc n)) = IsU64 n
  IsBounded (byte_string bs) = All IsByte bs × IsU64 (length bs)
  IsBounded (text_string bs) = All IsByte bs × IsU64 (length bs) × (is_utf8 bs ≡ true)
  IsBounded (array vs) = IsU64 (count_values vs) × AreBounded vs
  IsBounded (map es) = IsU64 (count_entries es) × HaveBounded es
  IsBounded (tag t v) = IsU64 t × IsBounded v
  IsBounded (simple s) = Unit {0}

  pub AreBounded : Values → Type 0
  AreBounded no_values = Unit {0}
  AreBounded (value v vs) = IsBounded v × AreBounded vs

  pub HaveBounded : Entries → Type 0
  HaveBounded no_entries = Unit {0}
  HaveBounded (entry k v es) = IsBounded k × IsBounded v × HaveBounded es

-- A call behind the guard, and one behind a `?`.
guard_passed :
    (d : Option ℤ) (w : Written) (buf out : List ℕ)
    → (if is_exhausted d then failed too_much_nesting buf else w) ≡ done out
    → (is_exhausted d ≡ false) × (w ≡ done out)
guard_passed none w buf out h = (refl, h)
guard_passed (some (pos n)) w buf out h = (refl, h)
guard_passed (some (negsuc n)) w buf out h = cc

and_then-done :
    (w : Written) (next : List ℕ → Written) (out : List ℕ)
    → and_then w next ≡ done out
    → (b : List ℕ) × (w ≡ done b) × (next b ≡ done out)
and_then-done (done b) next out h = (b, refl, h)
and_then-done (failed e b) next out h = cc

add_key-keys :
    (w : Written) (write_value : List ℕ → Written) (rest : Keys) (l : List Encoded)
    → add_key w write_value rest ≡ keys l
    → (key : List ℕ) × (others : List Encoded) × (w ≡ done key)
      × (rest ≡ keys others)
      × (l ≡ (key, write_value) ∷ others)
add_key-keys (done key) write_value (keys others) l h = (key, others, refl, refl, cc)
add_key-keys (done key) write_value (key_failed e) l h = cc
add_key-keys (failed e b) write_value rest l h = cc

finish_map-done :
    (ks : Keys) (buf out : List ℕ)
    → finish_map 5 ks buf ≡ done out
    → (l : List Encoded) × (ks ≡ keys l) × (write_map 5 l buf ≡ done out)
finish_map-done (keys l) buf out h = (l, refl, h)
finish_map-done (key_failed e) buf out h = cc

write_map-done :
    (l : List Encoded) (buf out : List ℕ)
    → write_map 5 l buf ≡ done out
    → IsIncreasing (sort_by_key l)
      × (write_entries (sort_by_key l) (start_item 5 (length (sort_by_key l)) buf) ≡ done out)
write_map-done l buf out h = elim (write_map_cases 5 l buf) [
  | inl (inc, e) ↦ (inc, sym e ∙ h)
  | inr (_, e) ↦ cc (e, h)
]

-- An entry whose key is encoded, and of whose value nothing is known until it is.
abbrev Awaits : Option ℤ → Encoded → Value → Value → Type 0
Awaits d a k v =
    HasKey a k
    × Within (nested d) (depth k)
    × ((buf out : List ℕ) → a.1 buf ≡ done out → IsCanonical v × Within (nested d) (depth v))

Match-IsSorted :
    (d : Option ℤ) (l : List Encoded) (es : Entries)
    → Match (Awaits d) l es
    → IsIncreasing l
    → IsSorted es
Match-IsSorted d l no_entries m inc = tt
Match-IsSorted d [] (entry k v es) m inc = absurd m
Match-IsSorted d (a ∷ []) (entry k v no_entries) m inc = (tt, tt)
Match-IsSorted d (a ∷ b ∷ l) (entry k v no_entries) m inc = absurd m.1
Match-IsSorted d (a ∷ []) (entry k v (entry k' w es)) m inc = absurd m.1
Match-IsSorted d (a ∷ b ∷ l) (entry k v (entry k' w es)) m inc = (
  sym (compare-HasKey a b k k' m.0.0 m.1.0.0) ∙ inc.0,
  Match-IsSorted d (b ∷ l) (entry k' w es) m.1 inc.1,
)

write_entries-done :
    (d : Option ℤ) (l : List Encoded) (es : Entries) (buf out : List ℕ)
    → is_exhausted d ≡ false
    → Match (Awaits d) l es
    → write_entries l buf ≡ done out
    → HaveCanonical es × Within d (depth_entries es)
unfolding write_entries IsCanonical depth
write_entries-done d [] no_entries buf out e m h = (tt, Within-zero d e)
write_entries-done d [] (entry k v es) buf out e m h = absurd m
write_entries-done d (a ∷ l) no_entries buf out e m h = absurd m
write_entries-done d ((key, write_value) ∷ l) (entry k v es) buf out e m h =
    let (b, first, rest) = and_then-done (write_value (buf ++ key)) (write_entries l) out h in
    let (cv, wv) = m.0.2 (buf ++ key) b first in
    let (c, w) = write_entries-done d l es b out e m.1 rest in
    (
      (m.0.0.1, cv, c),
      Within-max d _ _ (Within-suc d (depth k) e m.0.1)
          (Within-max d _ _ (Within-suc d (depth v) e wv) w),
    )

mutual
  unfolding encode_cbor normalize IsCanonical IsBounded depth sort_by_key write_nested

  accepted :
      (v : Value) (d : Option ℤ) (buf out : List ℕ)
      → IsBounded v
      → encode_cbor v d buf ≡ done out
      → IsCanonical (normalize v) × Within d (depth v)
  accepted (unsigned n) d buf out b h =
      let (e, _) = guard_passed d _ buf out h in (b, Within-zero d e)
  accepted (negative (pos n)) d buf out b h = absurd b
  accepted (negative (negsuc n)) d buf out b h =
      let (e, _) = guard_passed d _ buf out h in (b, Within-zero d e)
  accepted (byte_string bs) d buf out b h =
      let (e, _) = guard_passed d _ buf out h in (b, Within-zero d e)
  accepted (text_string bs) d buf out b h =
      let (e, _) = guard_passed d _ buf out h in (b, Within-zero d e)
  accepted (array vs) d buf out b h =
      let (e, written) = guard_passed d _ buf out h in
      let (c, w) = accepted_values vs d _ out e b.1 written in
      ((rw (count_values-normalize_values vs) b.0, c), w)
  accepted (map es) d buf out b h =
      let (e, written) = guard_passed d _ buf out h in
      let (l, encoded, finished) = finish_map-done (encode_keys es (nested d)) buf out written in
      let m = accepted_keys es d l b.1 encoded in
      let (inc, entries) = write_map-done l buf out finished in
      let (c, w) = write_entries-done d (sort_by_key l) (normalize_entries es) _ out e m entries in
      (
        (
          rw (count_entries-normalize_entries es) b.0,
          Match-IsSorted d (sort_by_key l) (normalize_entries es) m inc,
          c,
        ),
        rw (← depth_entries-normalize_entries es) w,
      )
  accepted (tag t v) d buf out b h =
      let (e, written) = guard_passed d _ buf out h in
      let (c, w) = accepted v (nested d) _ out b.1 written in ((b.0, c), Within-suc d (depth v) e w)
  accepted (simple s) d buf out b h =
      let (e, _) = guard_passed d _ buf out h in (tt, Within-zero d e)

  accepted_values :
      (vs : Values) (d : Option ℤ) (buf out : List ℕ)
      → is_exhausted d ≡ false
      → AreBounded vs
      → encode_values vs (nested d) buf ≡ done out
      → AreCanonical (normalize_values vs) × Within d (depth_values vs)
  accepted_values no_values d buf out e b h = (tt, Within-zero d e)
  accepted_values (value v vs) d buf out e b h =
      let (mid, first, rest) =
        and_then-done (encode_cbor v (nested d) buf) (encode_values vs (nested d)) out h in
      let (cv, wv) = accepted v (nested d) buf mid b.0 first in
      let (c, w) = accepted_values vs d mid out e b.1 rest in
      ((cv, c), Within-max d _ _ (Within-suc d (depth v) e wv) w)

  accepted_keys :
      (es : Entries) (d : Option ℤ) (l : List Encoded)
      → HaveBounded es
      → encode_keys es (nested d) ≡ keys l
      → Match (Awaits d) (sort_by_key l) (normalize_entries es)
  accepted_keys no_entries d l b h = let e : [] ≡ l = cc in rw (← e) tt
  accepted_keys (entry k v es) d l b h =
      let (key, others, first, rest, same) =
        add_key-keys (encode_cbor k (nested d) []) (encode_cbor v (nested d))
          (encode_keys es (nested d)) l h in
      let (ck, wk) = accepted k (nested d) [] key b.0 first in
      let key_bytes : key ≡ encoding (normalize k) =
        cc (first, write_nested-normalize k [] (nested d) ck wk) in
      rw same (
        insert_by_key-Match (Awaits d) (λ a k v h. h.0) (key, encode_cbor v (nested d))
          (sort_by_key others) (normalize k) (normalize v) (normalize_entries es)
          (
            (key_bytes, ck),
            rw (depth-normalize k) wk,
            λ buf out later.
                let (cv, wv) = accepted v (nested d) buf out b.1 later in
                (cv, rw (depth-normalize v) wv),
          )
          (accepted_keys es d others b.2 rest))

-- A value with its lengths and numbers in range is written without an error exactly when sorting the
-- entries of its maps makes it canonical, and it is nested no deeper than the limit; the bytes
-- appended are then the canonical encoding of the sorted value.
pub write_nested_iff :
    (v : Value) (buf out : List ℕ) (d : Option ℤ)
    → IsBounded v
    → (write_nested v buf d ≡ done out)
      ↔ (IsCanonical (normalize v) × Within d (depth v) × (out ≡ buf ++ encoding (normalize v)))
unfolding write_nested
write_nested_iff v buf out d b = (
  λ h. let (c, w) = accepted v d buf out b h in (c, w, cc (h, write_nested-normalize v buf d c w)),
  λ (c, w, e). rw e (write_nested-normalize v buf d c w),
)
