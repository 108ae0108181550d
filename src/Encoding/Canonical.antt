-- ===== src/Encoding/Canonical.antt =====
-- The canonical encoding, the nesting depth, and the canonical values, of which value/src/reader.rs and
-- value/src/writer.rs are to be the decoder and the encoder.
use oasis_cbor.Prelude.{ℕ, suc, pos, negsuc, max, true, ◌≡◌, List, [], ◌++◌, length, All, Ordering}
use oasis_cbor.Value.{
  Value, Values, Entries, unsigned, negative, byte_string, text_string, array, map, tag, simple,
  no_values, value, no_entries, entry, discriminant, count_values, count_entries,
}
use oasis_cbor.Value.Order.{cmp}
use oasis_cbor.Encoding.Bytes.{IsByte}
use oasis_cbor.Encoding.Head.{IsU64, head}
use oasis_cbor.Encoding.Utf8.{is_utf8}

unfoldable mutual
  pub encoding : Value → List ℕ
  encoding (unsigned n) = head 0 n
  encoding (negative (pos n)) = []
  encoding (negative (negsuc n)) = head 1 n
  encoding (byte_string bs) = head 2 (length bs) ++ bs
  encoding (text_string bs) = head 3 (length bs) ++ bs
  encoding (array vs) = head 4 (count_values vs) ++ encoding_values vs
  encoding (map es) = head 5 (count_entries es) ++ encoding_entries es
  encoding (tag t v) = head 6 t ++ encoding v
  encoding (simple s) = head 7 (discriminant s)

  pub encoding_values : Values → List ℕ
  encoding_values no_values = []
  encoding_values (value v vs) = encoding v ++ encoding_values vs

  pub encoding_entries : Entries → List ℕ
  encoding_entries no_entries = []
  encoding_entries (entry k v es) = encoding k ++ (encoding v ++ encoding_entries es)

-- The number of arrays, maps and tags around the deepest data item.
unfoldable mutual
  pub depth : Value → ℕ
  depth (array vs) = depth_values vs
  depth (map es) = depth_entries es
  depth (tag t v) = suc (depth v)
  depth _ = 0

  pub depth_values : Values → ℕ
  depth_values no_values = 0
  depth_values (value v vs) = max (suc (depth v)) (depth_values vs)

  pub depth_entries : Entries → ℕ
  depth_entries no_entries = 0
  depth_entries (entry k v es) = max (suc (depth k)) (max (suc (depth v)) (depth_entries es))

-- `k` is below the first key.
abbrev pub IsBelow : Value → Entries → Type 0
IsBelow k no_entries = Unit {0}
IsBelow k (entry l v es) = cmp k l ≡ Ordering.lt

-- The keys are strictly increasing.
abbrev pub IsSorted : Entries → Type 0
IsSorted no_entries = Unit {0}
IsSorted (entry k v es) = IsBelow k es × IsSorted es

unfoldable mutual
  pub IsCanonical : Value → Type 0
  IsCanonical (unsigned n) = IsU64 n
  IsCanonical (negative (pos n)) = ⊥
  IsCanonical (negative (negsuc n)) = IsU64 n
  IsCanonical (byte_string bs) = All IsByte bs × IsU64 (length bs)
  IsCanonical (text_string bs) = All IsByte bs × IsU64 (length bs) × (is_utf8 bs ≡ true)
  IsCanonical (array vs) = IsU64 (count_values vs) × AreCanonical vs
  IsCanonical (map es) = IsU64 (count_entries es) × IsSorted es × HaveCanonical es
  IsCanonical (tag t v) = IsU64 t × IsCanonical v
  IsCanonical (simple s) = Unit {0}

  pub AreCanonical : Values → Type 0
  AreCanonical no_values = Unit {0}
  AreCanonical (value v vs) = IsCanonical v × AreCanonical vs

  pub HaveCanonical : Entries → Type 0
  HaveCanonical no_entries = Unit {0}
  HaveCanonical (entry k v es) = IsCanonical k × IsCanonical v × HaveCanonical es
