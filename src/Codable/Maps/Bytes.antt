-- ===== src/Codable/Maps/Bytes.antt =====
-- A BTreeMap through src/lib.rs: `to_vec`, then `from_slice`.
use oasis_cbor.Prelude.{
  ℕ, ◌≤◌, ◌≡◌, refl, sym, ap, ◌∙◌, subst, List, [], ◌∷◌, ◌++◌, length, All, Ordering,
}
use oasis_cbor.Value.{Entries, map, count_entries}
use oasis_cbor.Encoding.Head.{IsU64}
use oasis_cbor.Encoding.Canonical.{depth, IsSorted, IsCanonical}
use oasis_cbor.Encoding.Normal.{
  normalize, normalize_entries, normalize-IsCanonical, count_entries-normalize_entries,
}
use oasis_cbor.Encode.{collect_entries, encode_map}
use oasis_cbor.Decode.{ok, try_from_cbor_value_default}
use oasis_cbor.Decode.Containers.{decode_btree_map}
use oasis_cbor.Decode.Containers.Ordered.{IsOrder}
use oasis_cbor.Decode.Containers.Shuffled.{
  IsShuffle, IsAscending, AllAbove-AllApart, AllApart-IsShuffle,
}
use oasis_cbor.Codable.{Codable, default-is_null}
use oasis_cbor.Codable.Maps.{IsValidPair, btree_map_trip}
use oasis_cbor.Codable.Maps.Sorted.{
  insert_key-IsSorted, insert_key-entries_of, entries_of-HaveCanonical, entries_of-KeysApart,
}
use oasis_cbor.Api.{to_vec, from_slice, from_slice-to_vec-normalize}

All-middle :
    {A : Type 0} (P : A → Type 0) (x : A) (front back : List A)
    → P x
    → All P (front ++ back)
    → All P (front ++ (x ∷ back))
All-middle P x [] back p h = (p, h)
All-middle P x (y ∷ front) back p h = (h.0, All-middle P x front back p h.1)

All-IsShuffle : {A : Type 0} (P : A → Type 0) (l l' : List A) → IsShuffle l l' → All P l → All P l'
All-IsShuffle P [] l' s h = rw s tt
All-IsShuffle P (x ∷ l) l' (front, back, e, s) h =
    rw e (All-middle P x front back h.0 (All-IsShuffle P l (front ++ back) s h.1))

module _ {K V : Type 0} (ck : Codable K) (cv : Codable V) (order : K → K → Ordering)
    (laws : IsOrder order) where
  abbrev entries_of : List (K × V) → Entries
  entries_of pairs = collect_entries ck.encoder cv.encoder pairs

  -- The writer's order of the entries.
  in_writer_order :
      (items : List (K × V))
      → IsAscending order items
      → All (IsValidPair ck cv) items
      → (m : List (K × V)) × IsShuffle items m
        × (normalize_entries (entries_of items) ≡ entries_of m)
        × IsSorted (entries_of m)
  unfolding collect_entries normalize
  in_writer_order [] asc h = ([], refl, refl, tt)
  in_writer_order ((k, v) ∷ rest) asc h =
      let (m, s, e, sorted) = in_writer_order rest asc.1 h.1 in
      let (front, back, split, put) = insert_key-entries_of ck cv order laws k v m in
      let valid = All-IsShuffle (IsValidPair ck cv) rest m s h.1 in
      let apart = AllApart-IsShuffle order k rest m s (AllAbove-AllApart order k rest asc.0) in
      (
        front ++ ((k, v) ∷ back),
        (front, back, refl, subst (IsShuffle rest) split s),
        rw
            (
              normalize-IsCanonical _ (ck.canonical k h.0.0),
              normalize-IsCanonical _ (cv.canonical v h.0.1),
              e,
            )
            put,
        subst IsSorted put (
            insert_key-IsSorted (ck.encoder.into_cbor_value k) (cv.encoder.into_cbor_value v)
              (entries_of m) (ck.canonical k h.0.0)
              (entries_of-HaveCanonical ck cv order laws m valid)
              (entries_of-KeysApart ck cv order laws k m h.0.0 valid apart) sorted),
      )

  count-entries_of : (items : List (K × V)) → count_entries (entries_of items) ≡ length items
  unfolding collect_entries
  count-entries_of [] = refl
  count-entries_of ((k, v) ∷ items) = rw (count-entries_of items) refl

  -- A BTreeMap with valid keys and values of types with round trips is encoded by `to_vec` without a panic, and
  -- `from_slice` decodes the bytes to it: if the order of the keys has the laws of `Ord`, the map has
  -- fewer than 2^64 pairs, and it is nested at most 64 deep.
  pub from_slice-encode_map :
      (items : List (K × V))
      → IsAscending order items
      → All (IsValidPair ck cv) items
      → IsU64 (length items)
      → depth ((encode_map ck.encoder cv.encoder).into_cbor_value items) ≤ 64
      → (cbor : List ℕ) × (to_vec (encode_map ck.encoder cv.encoder) items ≡ ok cbor)
        × (from_slice (decode_btree_map order ck.decoder cv.decoder) cbor ≡ ok items)
  unfolding normalize IsCanonical
  from_slice-encode_map items asc h few shallow =
      let (m, s, e, sorted) = in_writer_order items asc h in
      let valid = All-IsShuffle (IsValidPair ck cv) items m s h in
      let small : IsU64 (count_entries (entries_of m)) =
        subst (λ es. IsU64 (count_entries es)) e
          (rw (count_entries-normalize_entries (entries_of items), count-entries_of items) few) in
      let canonical : IsCanonical (map (entries_of m)) =
        (small, sorted, entries_of-HaveCanonical ck cv order laws m valid) in
      let (cbor, encoded, decoded) =
        from_slice-to_vec-normalize (encode_map ck.encoder cv.encoder)
          (decode_btree_map order ck.decoder cv.decoder) items
          (subst (λ es. IsCanonical (map es)) (sym e) canonical) shallow in
      (
        cbor,
        encoded,
        decoded
            ∙ ap
                (λ es.
                  try_from_cbor_value_default (decode_btree_map order ck.decoder cv.decoder)
                    (map es))
                e
            ∙ default-is_null (decode_btree_map order ck.decoder cv.decoder) (map (entries_of m))
                refl
            ∙ btree_map_trip ck cv order items m laws asc s valid,
      )
