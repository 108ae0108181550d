-- ===== src/Codable/Maps.antt =====
-- src/encode.rs and src/decode.rs, the impls for BTreeMap: the map is the list of its pairs by keys.
pub mod Bytes
pub mod Sorted
use oasis_cbor.Prelude.{◌≡◌, refl, ap, List, [], ◌∷◌, All, Ordering}
use oasis_cbor.Encode.{collect_entries, encode_map}
use oasis_cbor.Decode.{ok, collect_pairs}
use oasis_cbor.Decode.Containers.{collect_ordered, map_from_value}
use oasis_cbor.Decode.Containers.Ordered.{IsOrder}
use oasis_cbor.Decode.Containers.Shuffled.{IsShuffle, IsAscending, collect_ordered-IsShuffle}
use oasis_cbor.Codable.{Codable}

module _ {K V : Type 0} (ck : Codable K) (cv : Codable V) where
  abbrev pub IsValidPair : K × V → Type 0
  IsValidPair p = ck.IsValid p.0 × cv.IsValid p.1

  collect_pairs-collect_entries :
      (pairs : List (K × V))
      → All IsValidPair pairs
      → collect_pairs ck.decoder cv.decoder (collect_entries ck.encoder cv.encoder pairs) ≡ ok pairs
  unfolding collect_pairs collect_entries
  collect_pairs-collect_entries [] h = refl
  collect_pairs-collect_entries ((k, v) ∷ pairs) h =
      rw (ck.round_trip k h.0.0, cv.round_trip v h.0.1, collect_pairs-collect_entries pairs h.1)
        refl

  -- A BTreeMap with valid keys and values of types with round trips is decoded from the CBOR map of its
  -- entries, in whatever order they stand there, if the order of the keys has the laws of `Ord`.
  pub btree_map_trip :
      (order : K → K → Ordering) (items entries : List (K × V))
      → IsOrder order
      → IsAscending order items
      → IsShuffle items entries
      → All IsValidPair entries
      → map_from_value
          (collect_ordered order [])
          ck.decoder
          cv.decoder
          ((encode_map ck.encoder cv.encoder).into_cbor_value entries)
        ≡ ok items
  unfolding map_from_value
  btree_map_trip order items entries laws asc shuffled h =
      rw (collect_pairs-collect_entries entries h)
        (ap ok (collect_ordered-IsShuffle order laws items entries asc shuffled))
