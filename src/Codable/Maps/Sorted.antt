-- ===== src/Codable/Maps/Sorted.antt =====
-- A BTreeMap on its way through bytes: src/encode.rs gives its entries in the order of the keys,
-- value/src/writer.rs puts them in the order of the encoded keys, and src/decode.rs collects them.
use oasis_cbor.Prelude.{
  Ordering-cases, ◌≡◌, ◌≢◌, refl, sym, ap, ◌∙◌, List, [], ◌∷◌, ◌++◌, All, Ordering,
  reverse_ordering, inl, inr,
}
use oasis_cbor.Value.{Value, Entries, no_entries, entry}
use oasis_cbor.Value.Order.{cmp}
use oasis_cbor.Encoding.Canonical.{IsBelow, IsSorted, IsCanonical, HaveCanonical}
use oasis_cbor.Encoding.Total.{cmp_flip}
use oasis_cbor.Encoding.Normal.{insert_key}
use oasis_cbor.Encode.{collect_entries}
use oasis_cbor.Decode.Containers.Ordered.{IsOrder}
use oasis_cbor.Decode.Containers.Shuffled.{AllApart}
use oasis_cbor.Codec.{cmp-eq_iff}
use oasis_cbor.Codable.{Codable}
use oasis_cbor.Codable.Maps.{IsValidPair}

abbrev KeysApart : Value → Entries → Type 0
KeysApart k no_entries = Unit {0}
KeysApart k (entry l w es) = (cmp k l ≢ Ordering.eq) × KeysApart k es

insert_key-IsBelow_first :
    (l k v : Value) (es : Entries)
    → cmp l k ≡ Ordering.lt
    → IsBelow l es
    → IsBelow l (insert_key k v es)
unfolding insert_key
insert_key-IsBelow_first l k v no_entries e h = e
insert_key-IsBelow_first l k v (entry m w es) e h = elim (Ordering-cases (cmp k m)) [
  | inl o ↦ rw (o, insert_key) e
  | inr (inl o) ↦ rw (o, insert_key) e
  | inr (inr o) ↦ rw (o, insert_key) h
]

pub insert_key-IsSorted :
    (k v : Value) (es : Entries)
    → IsCanonical k
    → HaveCanonical es
    → KeysApart k es
    → IsSorted es
    → IsSorted (insert_key k v es)
unfolding insert_key IsCanonical
insert_key-IsSorted k v no_entries ck c apart s = (tt, tt)
insert_key-IsSorted k v (entry l w es) ck c apart s =
    let later = insert_key-IsSorted k v es ck c.2 apart.1 s.1 in
    elim (Ordering-cases (cmp k l)) [
      | inl o ↦ rw (o, insert_key) (o, s)
      | inr (inl o) ↦ absurd (apart.0 o)
      | inr (inr o) ↦
          rw (o, insert_key)
            (
              insert_key-IsBelow_first l k v es (cmp_flip k l ck c.0 ∙ ap reverse_ordering o) s.0,
              later,
            )
    ]

module _ {K V : Type 0} (ck : Codable K) (cv : Codable V) (order : K → K → Ordering)
    (laws : IsOrder order) where
  abbrev entries_of : List (K × V) → Entries
  entries_of pairs = collect_entries ck.encoder cv.encoder pairs

  pub entries_of-HaveCanonical :
      (pairs : List (K × V)) → All (IsValidPair ck cv) pairs → HaveCanonical (entries_of pairs)
  unfolding collect_entries IsCanonical
  entries_of-HaveCanonical [] h = tt
  entries_of-HaveCanonical ((k, v) ∷ pairs) h =
      (ck.canonical k h.0.0, cv.canonical v h.0.1, entries_of-HaveCanonical pairs h.1)

  order_self : (k : K) → order k k ≡ Ordering.eq
  order_self k = elim (Ordering-cases (order k k)) [
    | inl e ↦ cc (e, laws.flip k k ∙ ap reverse_ordering e)
    | inr (inl e) ↦ e
    | inr (inr e) ↦ cc (e, laws.flip k k ∙ ap reverse_ordering e)
  ]

  -- Different keys are encoded as different values.
  encoded_apart :
      (k l : K)
      → ck.IsValid k
      → ck.IsValid l
      → order k l ≢ Ordering.eq
      → cmp (ck.encoder.into_cbor_value k) (ck.encoder.into_cbor_value l) ≢ Ordering.eq
  encoded_apart k l hk hl apart e =
      let one = (cmp-eq_iff _ _ (ck.canonical k hk) (ck.canonical l hl)).0.0 e in
      let same : k ≡ l =
        cc (ck.round_trip k hk, ck.round_trip l hl, ap ck.decoder.try_from_cbor_value one) in
      apart (ap (order k) (sym same) ∙ order_self k)

  pub entries_of-KeysApart :
      (k : K) (pairs : List (K × V))
      → ck.IsValid k
      → All (IsValidPair ck cv) pairs
      → AllApart order k pairs
      → KeysApart (ck.encoder.into_cbor_value k) (entries_of pairs)
  unfolding collect_entries
  entries_of-KeysApart k [] hk h apart = tt
  entries_of-KeysApart k ((l, w) ∷ pairs) hk h apart =
      (encoded_apart k l hk h.0.0 apart.0, entries_of-KeysApart k pairs hk h.1 apart.1)

  -- A pair is put somewhere among the others.
  pub insert_key-entries_of :
      (k : K) (v : V) (pairs : List (K × V))
      → (front back : List (K × V)) × (pairs ≡ front ++ back)
        × (insert_key
              (ck.encoder.into_cbor_value k)
              (cv.encoder.into_cbor_value v)
              (entries_of pairs)
            ≡ entries_of (front ++ ((k, v) ∷ back)))
  unfolding insert_key collect_entries
  insert_key-entries_of k v [] = ([], [], refl, refl)
  insert_key-entries_of k v ((l, w) ∷ pairs) =
      let (front, back, split, put) = insert_key-entries_of k v pairs in
      elim (Ordering-cases (cmp (ck.encoder.into_cbor_value k) (ck.encoder.into_cbor_value l))) [
        | inl o ↦ ([], (l, w) ∷ pairs, refl, rw (o, insert_key) refl)
        | inr (inl o) ↦ ([], (l, w) ∷ pairs, refl, rw (o, insert_key) refl)
        | inr (inr o) ↦ (
          (l, w) ∷ front,
          back,
          ap (◌∷◌ (l, w)) split,
          rw (o, insert_key)
              (ap (entry (ck.encoder.into_cbor_value l) (cv.encoder.into_cbor_value w)) put),
        )
      ]
