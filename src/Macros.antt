-- ===== src/Macros.antt =====
-- The functions behind the macros that take maps apart: `destructure_cbor_map!` and
-- `assert_sorted_keys!` of value/src/macros.rs, and the strict step of src/macros.rs that the derived
-- decoders use. A peekable iterator over a map is the entries that are left; the keys that a macro
-- is called with are a list of CBOR values.
pub mod Lookup
use oasis_cbor.Prelude.{Bool, true, ◌&&◌, Option, none, some, List, [], ◌∷◌, Ordering}
use oasis_cbor.Value.{Value, Entries, no_entries, entry}
use oasis_cbor.Value.Order.{cmp}
use oasis_cbor.Decode.{Result, ok, err, unknown_field, ◌>>=◌}

-- `destructure_cbor_map_peek_value`: what it returns, and the iterator it leaves.
unfoldable pub peek_value : Value → Entries → Option Value × Entries
peek_value needle no_entries = (none, no_entries)
peek_value needle (entry k v es) = elim (cmp k needle) [
  | Ordering.lt ↦ peek_value needle es
  | Ordering.eq ↦ (some v, es)
  | Ordering.gt ↦ (none, entry k v es)
]

-- `destructure_cbor_map!`: one call for each key, on one iterator.
unfoldable pub destructure_cbor_map : List Value → Entries → List (Option Value)
destructure_cbor_map [] es = []
destructure_cbor_map (key ∷ keys) es =
    let (found, rest) = peek_value key es in found ∷ destructure_cbor_map keys rest

-- `assert_sorted_keys!`: whether the assertions hold.
abbrev pub is_less : Ordering → Bool
is_less Ordering.lt = true
is_less _ = Bool.false

unfoldable pub assert_sorted_keys : List Value → Bool
assert_sorted_keys [] = true
assert_sorted_keys (key ∷ []) = true
assert_sorted_keys (key ∷ (next ∷ keys)) =
    is_less (cmp key next) && assert_sorted_keys (next ∷ keys)

-- `destructure_cbor_map_peek_value_strict`
unfoldable pub peek_value_strict : Value → Entries → Result (Option Value × Entries)
peek_value_strict needle no_entries = ok (none, no_entries)
peek_value_strict needle (entry k v es) = elim (cmp k needle) [
  | Ordering.lt ↦ err unknown_field
  | Ordering.eq ↦ ok (some v, es)
  | Ordering.gt ↦ ok (none, entry k v es)
]
