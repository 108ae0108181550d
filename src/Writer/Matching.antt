-- ===== src/Writer/Matching.antt =====
-- The entries of a map as value/src/writer.rs keeps them, beside the entries with their keys in order.
use oasis_cbor.Prelude.{◌≡◌, refl, ap₂, ◌∙◌, List, [], ◌∷◌, Ordering}
use oasis_cbor.Value.{Value, Entries, no_entries, entry}
use oasis_cbor.Value.Order.{cmp, compare_bytes}
use oasis_cbor.Encoding.Canonical.{encoding, IsCanonical}
use oasis_cbor.Encoding.Ordered.{compare-encoding}
use oasis_cbor.Encoding.Normal.{insert_key}
use oasis_cbor.Writer.{Encoded, insert_by_key}

abbrev pub HasKey : Encoded → Value → Type 0
HasKey a k = (a.0 ≡ encoding k) × IsCanonical k

-- The kept entries stand one by one in the relation to the entries.
abbrev pub Match : (Encoded → Value → Value → Type 0) → List Encoded → Entries → Type 0
Match R [] no_entries = Unit {0}
Match R [] (entry k v es) = ⊥
Match R (a ∷ l) no_entries = ⊥
Match R (a ∷ l) (entry k v es) = R a k v × Match R l es

-- The bytes of two keys compare as the keys do.
pub compare-HasKey :
    (a b : Encoded) (k l : Value) → HasKey a k → HasKey b l → compare_bytes a.0 b.0 ≡ cmp k l
compare-HasKey a b k l h g = ap₂ compare_bytes h.0 g.0 ∙ compare-encoding k l h.1 g.1

module _ (R : Encoded → Value → Value → Type 0)
    (keyed : (a : Encoded) (k v : Value) → R a k v → HasKey a k) where
  pub insert_by_key-Match :
      (a : Encoded) (l : List Encoded) (k v : Value) (es : Entries)
      → R a k v
      → Match R l es
      → Match R (insert_by_key a l) (insert_key k v es)
  unfolding insert_by_key insert_key
  insert_by_key-Match a [] k v no_entries h m = (h, tt)
  insert_by_key-Match a [] k v (entry l' w es) h m = absurd m
  insert_by_key-Match a (b ∷ rest) k v no_entries h m = absurd m
  insert_by_key-Match a (b ∷ rest) k v (entry l w es) h m =
      go (cmp k l) refl (compare-HasKey a b k l (keyed a k v h) (keyed b l w m.0))
        (insert_by_key-Match a rest k v es h m.1)
    where
      go :
          (o : Ordering)
          → cmp k l ≡ o
          → compare_bytes a.0 b.0 ≡ cmp k l
          → Match R (insert_by_key a rest) (insert_key k v es)
          → Match R (insert_by_key a (b ∷ rest)) (insert_key k v (entry l w es))
      go Ordering.lt e same later = rw (same ∙ e, insert_by_key) (rw (e, insert_key) (h, m))
      go Ordering.eq e same later = rw (same ∙ e, insert_by_key) (rw (e, insert_key) (h, m))
      go Ordering.gt e same later = rw (same ∙ e, insert_by_key) (rw (e, insert_key) (m.0, later))
