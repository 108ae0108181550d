-- ===== src/Encoding/Normal.antt =====
-- The value that the encoder of value/src/writer.rs is to write for a value whose maps have their
-- entries in any order: the entries of every map in the order of their keys.
use oasis_cbor.Prelude.{suc, max, ◌≡◌, refl, ap, ap₂, ◌∙◌, Ordering, arith}
use oasis_cbor.Value.{
  Value, Values, Entries, unsigned, negative, byte_string, text_string, array, map, tag, simple,
  no_values, value, no_entries, entry, count_values, count_entries,
}
use oasis_cbor.Value.Order.{cmp}
use oasis_cbor.Encoding.Canonical.{
  depth, depth_values, depth_entries, IsBelow, IsSorted, IsCanonical, AreCanonical, HaveCanonical,
}

-- Before the first entry whose key is not below `k`.
unfoldable pub insert_key : Value → Value → Entries → Entries
insert_key k v no_entries = entry k v no_entries
insert_key k v (entry l w es) = elim (cmp k l) [
  | Ordering.gt ↦ entry l w (insert_key k v es)
  | _ ↦ entry k v (entry l w es)
]

unfoldable mutual
  pub normalize : Value → Value
  normalize (array vs) = array (normalize_values vs)
  normalize (map es) = map (normalize_entries es)
  normalize (tag t v) = tag t (normalize v)
  normalize v = v

  pub normalize_values : Values → Values
  normalize_values no_values = no_values
  normalize_values (value v vs) = value (normalize v) (normalize_values vs)

  pub normalize_entries : Entries → Entries
  normalize_entries no_entries = no_entries
  normalize_entries (entry k v es) = insert_key (normalize k) (normalize v) (normalize_entries es)

insert_key-depth_entries :
    (k v : Value) (es : Entries)
    → depth_entries (insert_key k v es)
      ≡ max (suc (depth k)) (max (suc (depth v)) (depth_entries es))
unfolding insert_key depth
insert_key-depth_entries k v no_entries = refl
insert_key-depth_entries k v (entry l w es) = go (cmp k l) refl (insert_key-depth_entries k v es)
  where
    go :
        (o : Ordering)
        → cmp k l ≡ o
        → depth_entries (insert_key k v es)
          ≡ max (suc (depth k)) (max (suc (depth v)) (depth_entries es))
        → depth_entries (insert_key k v (entry l w es))
          ≡ max (suc (depth k)) (max (suc (depth v)) (depth_entries (entry l w es)))
    go Ordering.lt e later = rw (e, insert_key) refl
    go Ordering.eq e later = rw (e, insert_key) refl
    go Ordering.gt e later = rw (e, insert_key) (omega arith)

mutual
  unfolding normalize depth

  pub depth-normalize : (v : Value) → depth (normalize v) ≡ depth v
  depth-normalize (unsigned n) = refl
  depth-normalize (negative z) = refl
  depth-normalize (byte_string bs) = refl
  depth-normalize (text_string bs) = refl
  depth-normalize (array vs) = depth_values-normalize_values vs
  depth-normalize (map es) = depth_entries-normalize_entries es
  depth-normalize (tag t v) = ap suc (depth-normalize v)
  depth-normalize (simple s) = refl

  depth_values-normalize_values :
      (vs : Values) → depth_values (normalize_values vs) ≡ depth_values vs
  depth_values-normalize_values no_values = refl
  depth_values-normalize_values (value v vs) =
      rw (depth-normalize v, depth_values-normalize_values vs) refl

  pub depth_entries-normalize_entries :
      (es : Entries) → depth_entries (normalize_entries es) ≡ depth_entries es
  depth_entries-normalize_entries no_entries = refl
  depth_entries-normalize_entries (entry k v es) =
      insert_key-depth_entries (normalize k) (normalize v) (normalize_entries es)
      ∙ rw (depth-normalize k, depth-normalize v, depth_entries-normalize_entries es) refl

pub count_values-normalize_values :
    (vs : Values) → count_values (normalize_values vs) ≡ count_values vs
unfolding normalize
count_values-normalize_values no_values = refl
count_values-normalize_values (value v vs) = ap suc (count_values-normalize_values vs)

pub insert_key-HaveCanonical :
    (k v : Value) (es : Entries)
    → HaveCanonical (insert_key k v es)
    → IsCanonical k × IsCanonical v × HaveCanonical es
unfolding insert_key IsCanonical
insert_key-HaveCanonical k v no_entries c = c
insert_key-HaveCanonical k v (entry l w es) c =
    go (cmp k l) refl c (insert_key-HaveCanonical k v es)
  where
    go :
        (o : Ordering)
        → cmp k l ≡ o
        → HaveCanonical (insert_key k v (entry l w es))
        → (HaveCanonical (insert_key k v es) → IsCanonical k × IsCanonical v × HaveCanonical es)
        → IsCanonical k × IsCanonical v × HaveCanonical (entry l w es)
    go Ordering.lt e c later = rw (e, insert_key) at c
    go Ordering.eq e c later = rw (e, insert_key) at c
    go Ordering.gt e c later =
        let (cl, cw, rest) = rw (e, insert_key) at c in
        let (ck, cv, left) = later rest in (ck, cv, (cl, cw, left))

-- A canonical value is written as it is.
insert_key-IsBelow : (k v : Value) (es : Entries) → IsBelow k es → insert_key k v es ≡ entry k v es
unfolding insert_key
insert_key-IsBelow k v no_entries h = refl
insert_key-IsBelow k v (entry l w es) h = rw (h, insert_key) refl

mutual
  unfolding normalize IsCanonical

  pub normalize-IsCanonical : (v : Value) → IsCanonical v → normalize v ≡ v
  normalize-IsCanonical (unsigned n) c = refl
  normalize-IsCanonical (negative z) c = refl
  normalize-IsCanonical (byte_string bs) c = refl
  normalize-IsCanonical (text_string bs) c = refl
  normalize-IsCanonical (array vs) c = ap array (normalize_values-AreCanonical vs c.1)
  normalize-IsCanonical (map es) c = ap map (normalize_entries-IsSorted es c.1 c.2)
  normalize-IsCanonical (tag t v) c = ap (tag t) (normalize-IsCanonical v c.1)
  normalize-IsCanonical (simple s) c = refl

  normalize_values-AreCanonical : (vs : Values) → AreCanonical vs → normalize_values vs ≡ vs
  normalize_values-AreCanonical no_values c = refl
  normalize_values-AreCanonical (value v vs) c =
      ap₂ value (normalize-IsCanonical v c.0) (normalize_values-AreCanonical vs c.1)

  normalize_entries-IsSorted :
      (es : Entries) → IsSorted es → HaveCanonical es → normalize_entries es ≡ es
  normalize_entries-IsSorted no_entries s c = refl
  normalize_entries-IsSorted (entry k v es) s c =
      rw
        (
          normalize-IsCanonical k c.0,
          normalize-IsCanonical v c.1,
          normalize_entries-IsSorted es s.1 c.2,
        )
        (insert_key-IsBelow k v es s.0)

insert_key-count_entries :
    (k v : Value) (es : Entries) → count_entries (insert_key k v es) ≡ suc (count_entries es)
unfolding insert_key
insert_key-count_entries k v no_entries = refl
insert_key-count_entries k v (entry l w es) = go (cmp k l) refl (insert_key-count_entries k v es)
  where
    go :
        (o : Ordering)
        → cmp k l ≡ o
        → count_entries (insert_key k v es) ≡ suc (count_entries es)
        → count_entries (insert_key k v (entry l w es)) ≡ suc (suc (count_entries es))
    go Ordering.lt e later = rw (e, insert_key) refl
    go Ordering.eq e later = rw (e, insert_key) refl
    go Ordering.gt e later = rw (e, insert_key) (ap suc later)

pub count_entries-normalize_entries :
    (es : Entries) → count_entries (normalize_entries es) ≡ count_entries es
unfolding normalize
count_entries-normalize_entries no_entries = refl
count_entries-normalize_entries (entry k v es) =
    insert_key-count_entries (normalize k) (normalize v) (normalize_entries es)
    ∙ ap suc (count_entries-normalize_entries es)
