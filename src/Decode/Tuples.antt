-- ===== src/Decode/Tuples.antt =====
-- src/decode.rs, the impls for tuples: what they accept.
use oasis_cbor.Prelude.{◌≤◌, ◌≡◌, refl, List, [], ◌∷◌, length, arith}
use oasis_cbor.Value.{
  Value, Values, unsigned, negative, byte_string, text_string, array, map, tag, simple, no_values,
  value, count_values,
}
use oasis_cbor.Encode.{Tuple}
use oasis_cbor.Decode.Outcome.{bind-ok}
use oasis_cbor.Decode.{ok, Decoders, remove_all, tuple_from_value}

remove_all-length :
    (types : List (Type 0)) (ds : Decoders types) (vs : Values) (a : Tuple types)
    → remove_all types ds vs ≡ ok a
    → length types ≤ count_values vs
unfolding remove_all
remove_all-length [] ds vs a h = omega arith
remove_all-length (A ∷ types) ds no_values a h = cc
remove_all-length (A ∷ types) ds (value v vs) a h =
    let (first, _, others) = bind-ok (ds.0.try_from_cbor_value v) _ a h in
    let (rest, e, _) = bind-ok (remove_all types ds.1 vs) _ a others in
    let bound = remove_all-length types ds.1 vs rest e in omega arith

-- A tuple is decoded from nothing but an array with at least as many items as it has components.
pub tuple_from_value-length :
    (types : List (Type 0)) (ds : Decoders types) (v : Value) (a : Tuple types)
    → tuple_from_value types ds v ≡ ok a
    → (vs : Values) × (v ≡ array vs) × (length types ≤ count_values vs)
unfolding tuple_from_value
tuple_from_value-length types ds (array vs) a h = (vs, refl, remove_all-length types ds vs a h)
tuple_from_value-length types ds (unsigned n) a h = cc
tuple_from_value-length types ds (negative z) a h = cc
tuple_from_value-length types ds (byte_string bs) a h = cc
tuple_from_value-length types ds (text_string bs) a h = cc
tuple_from_value-length types ds (map es) a h = cc
tuple_from_value-length types ds (tag t v) a h = cc
tuple_from_value-length types ds (simple s) a h = cc
