-- ===== src/Decode/Containers.antt =====
-- src/decode.rs, the impls for maps and sets: the items are decoded, then collected into the
-- container. A container is the list of its items as it iterates over them.
pub mod Ordered
pub mod Shuffled
use oasis_cbor.Prelude.{List, [], ◌∷◌, Ordering}
use oasis_cbor.Value.{Value, map}
use oasis_cbor.Decode.{
  Result, ok, err, unexpected_type, ◌>>=◌, Decode, collect_pairs, vec_from_value,
}

module _ {ℓ κ} {K : Type ℓ} {V : Type κ} where
  -- A pair that is collected into a `BTreeMap`: the keys stay in order, and of pairs with equal keys the
  -- last one is kept.
  unfoldable pub insert_ordered : (K → K → Ordering) → K → V → List (K × V) → List (K × V)
  insert_ordered order k v [] = (k, v) ∷ []
  insert_ordered order k v ((l, w) ∷ rest) = elim (order k l) [
    | Ordering.lt ↦ (k, v) ∷ (l, w) ∷ rest
    | Ordering.eq ↦ (k, v) ∷ rest
    | Ordering.gt ↦ (l, w) ∷ insert_ordered order k v rest
  ]

  -- `collect()` into a `BTreeMap`, the first item first.
  unfoldable pub collect_ordered : (K → K → Ordering) → List (K × V) → List (K × V) → List (K × V)
  collect_ordered order kept [] = kept
  collect_ordered order kept ((k, v) ∷ rest) =
      collect_ordered order (insert_ordered order k v kept) rest

  unfoldable pub map_from_value :
      (List (K × V) → List (K × V)) → Decode K → Decode V → Value → Result (List (K × V))
  map_from_value collect dk dv (map es) = do pairs ← collect_pairs dk dv es; ok (collect pairs)
  map_from_value collect dk dv v = err unexpected_type

  abbrev pub decode_btree_map : (K → K → Ordering) → Decode K → Decode V → Decode (List (K × V))
  decode_btree_map order dk dv = record {
    try_default = ok [];
    try_from_cbor_value = map_from_value (collect_ordered order []) dk dv;
  }

  -- `collect` makes a `HashMap` of the pairs and iterates over it.
  abbrev pub decode_hash_map :
      (List (K × V) → List (K × V)) → Decode K → Decode V → Decode (List (K × V))
  decode_hash_map collect dk dv = record {
    try_default = ok [];
    try_from_cbor_value = map_from_value collect dk dv;
  }

module _ {ℓ} {A : Type ℓ} where
  -- A value that is collected into a `BTreeSet`: of equal values the last one is kept.
  unfoldable pub insert_item : (A → A → Ordering) → A → List A → List A
  insert_item order a [] = a ∷ []
  insert_item order a (b ∷ rest) = elim (order a b) [
    | Ordering.lt ↦ a ∷ b ∷ rest
    | Ordering.eq ↦ a ∷ rest
    | Ordering.gt ↦ b ∷ insert_item order a rest
  ]

  unfoldable pub collect_items_ordered : (A → A → Ordering) → List A → List A → List A
  collect_items_ordered order kept [] = kept
  collect_items_ordered order kept (a ∷ rest) =
      collect_items_ordered order (insert_item order a kept) rest

  -- Collecting into the set sees the items up to the first error, which is then the result.
  unfoldable pub set_from_value : (List A → List A) → Decode A → Value → Result (List A)
  set_from_value collect d v = do items ← vec_from_value d v; ok (collect items)

  abbrev pub decode_btree_set : (A → A → Ordering) → Decode A → Decode (List A)
  decode_btree_set order d = record {
    try_default = ok [];
    try_from_cbor_value = set_from_value (collect_items_ordered order []) d;
  }

  -- `collect` makes a `HashSet` of the items and iterates over it.
  abbrev pub decode_hash_set : (List A → List A) → Decode A → Decode (List A)
  decode_hash_set collect d = record {
    try_default = ok [];
    try_from_cbor_value = set_from_value collect d;
  }
