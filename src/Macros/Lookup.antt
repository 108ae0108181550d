-- ===== src/Macros/Lookup.antt =====
-- value/src/macros.rs: the single scan of `destructure_cbor_map!` beside a search of the whole map for
-- each key.
use oasis_cbor.Prelude.{
  Ordering-cases, ◌≡◌, inl, inr, refl, true, Option, none, some, List, [], ◌∷◌, Ordering,
  reverse_ordering, ap, ap₂, ◌∙◌, Bool, false, ◌&&◌, sym, All,
}
use oasis_cbor.Value.{Value, Entries, no_entries, entry}
use oasis_cbor.Value.Order.{cmp}
use oasis_cbor.Encoding.Canonical.{IsCanonical, HaveCanonical, IsBelow, IsSorted}
use oasis_cbor.Encoding.Total.{cmp_trans, cmp_flip, cmp-eq_lt}
use oasis_cbor.Macros.{peek_value, destructure_cbor_map, is_less, assert_sorted_keys}

-- The value at the first key that is equal to the needle.
unfoldable pub lookup : Value → Entries → Option Value
lookup needle no_entries = none
lookup needle (entry k v es) = elim (cmp k needle) [ Ordering.eq ↦ some v | _ ↦ lookup needle es ]

unfoldable pub lookup_all : List Value → Entries → List (Option Value)
lookup_all [] es = []
lookup_all (key ∷ keys) es = lookup key es ∷ lookup_all keys es

-- Every key of the map is above the needle.
abbrev AllAbove : Value → Entries → Type 0
AllAbove needle no_entries = Unit {0}
AllAbove needle (entry k v es) = (cmp needle k ≡ Ordering.lt) × AllAbove needle es

sorted-AllAbove :
    (needle : Value) (es : Entries)
    → IsCanonical needle
    → HaveCanonical es
    → IsBelow needle es
    → IsSorted es
    → AllAbove needle es
unfolding IsCanonical
sorted-AllAbove needle no_entries cn ce below sorted = tt
sorted-AllAbove needle (entry k v es) cn ce below sorted =
    (below, sorted-AllAbove needle es cn ce.2 (below_trans es ce sorted) sorted.1)
  where
    below_trans :
        (es : Entries) → HaveCanonical (entry k v es) → IsSorted (entry k v es) → IsBelow needle es
    below_trans no_entries ce sorted = tt
    below_trans (entry l w fs) ce sorted = cmp_trans needle k l cn ce.0 ce.2.0 below sorted.0

cmp_above :
    (needle k : Value)
    → IsCanonical needle
    → IsCanonical k
    → cmp needle k ≡ Ordering.lt
    → cmp k needle ≡ Ordering.gt
cmp_above needle k cn ck h = cmp_flip needle k cn ck ∙ ap reverse_ordering h

cmp_below :
    (needle k : Value)
    → IsCanonical needle
    → IsCanonical k
    → cmp k needle ≡ Ordering.gt
    → cmp needle k ≡ Ordering.lt
cmp_below needle k cn ck h = cmp_flip k needle ck cn ∙ ap reverse_ordering h

lookup_above :
    (needle : Value) (es : Entries)
    → IsCanonical needle
    → HaveCanonical es
    → AllAbove needle es
    → lookup needle es ≡ none
unfolding lookup IsCanonical
lookup_above needle no_entries cn ce h = refl
lookup_above needle (entry k v es) cn ce h =
    rw (cmp_above needle k cn ce.0 h.0, lookup) (lookup_above needle es cn ce.2 h.1)

lookup_gt :
    (needle k v : Value) (es : Entries)
    → IsCanonical needle
    → HaveCanonical (entry k v es)
    → IsSorted (entry k v es)
    → cmp k needle ≡ Ordering.gt
    → lookup needle (entry k v es) ≡ none
unfolding HaveCanonical
lookup_gt needle k v es cn ce sorted e =
    lookup_above needle (entry k v es) cn ce
      (sorted-AllAbove needle (entry k v es) cn ce (cmp_below needle k cn ce.0 e) sorted)

peek_value-lookup :
    (needle : Value) (es : Entries)
    → IsCanonical needle
    → HaveCanonical es
    → IsSorted es
    → (peek_value needle es).0 ≡ lookup needle es
unfolding IsCanonical peek_value lookup
peek_value-lookup needle no_entries cn ce sorted = refl
peek_value-lookup needle (entry k v es) cn ce sorted =
    let rest = peek_value-lookup needle es cn ce.2 sorted.1 in
    elim (Ordering-cases (cmp k needle)) [
      | inl e ↦ rw (e, peek_value, lookup) rest
      | inr (inl e) ↦ rw (e, peek_value, lookup) refl
      | inr (inr e) ↦ rw (lookup_gt needle k v es cn ce sorted e) (rw (e, peek_value) refl)
    ]

lookup_lt :
    (needle k v : Value) (es : Entries)
    → cmp k needle ≡ Ordering.lt
    → lookup needle (entry k v es) ≡ lookup needle es
unfolding lookup
lookup_lt needle k v es e = rw (e, lookup) refl

-- A later key is looked up in what is left as it is in the whole map.
lookup-peek_value :
    (needle key : Value) (es : Entries)
    → IsCanonical needle
    → IsCanonical key
    → HaveCanonical es
    → cmp needle key ≡ Ordering.lt
    → lookup key (peek_value needle es).1 ≡ lookup key es
unfolding IsCanonical peek_value lookup
lookup-peek_value needle key no_entries cn ck ce h = refl
lookup-peek_value needle key (entry k v es) cn ck ce h =
    let rest = lookup-peek_value needle key es cn ck ce.2 h in
    elim (Ordering-cases (cmp k needle)) [
      | inl e ↦
          rw (e, peek_value)
            (rest ∙ sym (lookup_lt key k v es (cmp_trans k needle key ce.0 cn ck e h)))
      | inr (inl e) ↦
          rw (e, peek_value) (sym (lookup_lt key k v es (cmp-eq_lt k needle key ce.0 cn ck e h)))
      | inr (inr e) ↦ rw (e, peek_value) refl
    ]

peek_value-HaveCanonical :
    (needle : Value) (es : Entries) → HaveCanonical es → HaveCanonical (peek_value needle es).1
unfolding IsCanonical peek_value
peek_value-HaveCanonical needle no_entries ce = tt
peek_value-HaveCanonical needle (entry k v es) ce =
    let rest = peek_value-HaveCanonical needle es ce.2 in
    elim (Ordering-cases (cmp k needle)) [
      | inl e ↦ rw (e, peek_value) rest
      | inr (inl e) ↦ rw (e, peek_value) ce.2
      | inr (inr e) ↦ rw (e, peek_value) ce
    ]

peek_value-IsSorted :
    (needle : Value) (es : Entries) → IsSorted es → IsSorted (peek_value needle es).1
unfolding peek_value
peek_value-IsSorted needle no_entries sorted = tt
peek_value-IsSorted needle (entry k v es) sorted =
    let rest = peek_value-IsSorted needle es sorted.1 in
    elim (Ordering-cases (cmp k needle)) [
      | inl e ↦ rw (e, peek_value) rest
      | inr (inl e) ↦ rw (e, peek_value) sorted.1
      | inr (inr e) ↦ rw (e, peek_value) sorted
    ]

is_less→lt : (o : Ordering) → is_less o ≡ true → o ≡ Ordering.lt
is_less→lt Ordering.lt h = refl
is_less→lt Ordering.eq h = cc
is_less→lt Ordering.gt h = cc

-- The needle is below every key.
abbrev IsBefore : Value → List Value → Type 0
IsBefore needle keys = All (λ key. cmp needle key ≡ Ordering.lt) keys

both-true : (a b : Bool) → (a && b) ≡ true → (a ≡ true) × (b ≡ true)
both-true true true h = (refl, refl)
both-true true false h = cc
both-true false b h = cc

All-IsBefore :
    (needle key : Value) (keys : List Value)
    → IsCanonical needle
    → IsCanonical key
    → All IsCanonical keys
    → cmp needle key ≡ Ordering.lt
    → IsBefore key keys
    → IsBefore needle keys
All-IsBefore needle key [] cn ck c h before = tt
All-IsBefore needle key (next ∷ keys) cn ck c h before = (
  cmp_trans needle key next cn ck c.0 h before.0,
  All-IsBefore needle key keys cn ck c.1 h before.1,
)

assert_sorted_keys→IsBefore :
    (needle : Value) (keys : List Value)
    → All IsCanonical (needle ∷ keys)
    → assert_sorted_keys (needle ∷ keys) ≡ true
    → IsBefore needle keys × (assert_sorted_keys keys ≡ true)
unfolding assert_sorted_keys
assert_sorted_keys→IsBefore needle [] c h = (tt, refl)
assert_sorted_keys→IsBefore needle (key ∷ keys) c h =
    let (first, others) = both-true (is_less (cmp needle key)) _ h in
    let (before, sorted) = assert_sorted_keys→IsBefore key keys c.1 others in
    let below = is_less→lt (cmp needle key) first in
    ((below, All-IsBefore needle key keys c.0 c.1.0 c.1.1 below before), others)

lookup_all-peek_value :
    (needle : Value) (keys : List Value) (es : Entries)
    → All IsCanonical (needle ∷ keys)
    → HaveCanonical es
    → IsBefore needle keys
    → lookup_all keys (peek_value needle es).1 ≡ lookup_all keys es
unfolding lookup_all
lookup_all-peek_value needle [] es c ce h = refl
lookup_all-peek_value needle (key ∷ keys) es c ce h =
    ap₂ (λ x y. x ∷ y) (lookup-peek_value needle key es c.0 c.1.0 ce h.0)
      (lookup_all-peek_value needle keys es (c.0, c.1.1) ce h.1)

-- On a map with canonical entries in strictly increasing order of keys, and canonical keys for
-- which `assert_sorted_keys!` holds, `destructure_cbor_map!` binds each variable to what a search of
-- the whole map for its key finds.
pub destructure_cbor_map-lookup_all :
    (keys : List Value) (es : Entries)
    → All IsCanonical keys
    → assert_sorted_keys keys ≡ true
    → HaveCanonical es
    → IsSorted es
    → destructure_cbor_map keys es ≡ lookup_all keys es
unfolding destructure_cbor_map lookup_all
destructure_cbor_map-lookup_all [] es c h ce sorted = refl
destructure_cbor_map-lookup_all (key ∷ keys) es c h ce sorted =
    let (before, others) = assert_sorted_keys→IsBefore key keys c h in
    let rest =
      destructure_cbor_map-lookup_all keys (peek_value key es).1 c.1 others
        (peek_value-HaveCanonical key es ce) (peek_value-IsSorted key es sorted) in
    ap₂ (λ x y. x ∷ y) (peek_value-lookup key es c.0 ce sorted)
      (rest ∙ lookup_all-peek_value key keys es c ce before)
