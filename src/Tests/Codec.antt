-- ===== src/Tests/Codec.antt =====
-- Test vectors of writer.rs and reader.rs in value/src, and the theorems about them at such inputs.
use oasis_cbor.Prelude.{
  ℕ, List, [], ◌∷◌, ◌++◌, ◌≡◌, ◌≢◌, ◌↔◌, ◌⊎◌, ◌≤◌, length, refl, none, some, pos, negsuc, true, All,
  arith,
}
use oasis_cbor.Value.{
  Value, simple, true_value, from_integer, unsigned, negative, text_string, array, map, no_values,
  value, no_entries, entry,
}
use oasis_cbor.Value.Order.{compare_bytes, cmp}
use oasis_cbor.Nesting.{Within}
use oasis_cbor.Encoding.Bytes.{IsByte, big_endian}
use oasis_cbor.Encoding.Head.{head, width}
use oasis_cbor.Encoding.Utf8.{is_utf8}
use oasis_cbor.Encoding.Canonical.{encoding, depth, IsCanonical}
use oasis_cbor.Encoding.Ordered.{compare-encoding}
use oasis_cbor.Writer.{
  Written, Encoded, sort_by_key, write_map, write_entries, write, write_nested, start_item, done,
  failed, duplicate_map_key,
}
use oasis_cbor.Writer.Head.{start_item-head}
use oasis_cbor.Writer.Sorting.{IsIncreasing}
use oasis_cbor.Writer.Distinct.{write_map_cases}
use oasis_cbor.Writer.Canonical.{write_nested-encoding}
use oasis_cbor.Reader.{
  read_item, read_bytes, read_variadic_length_integer, read_size, is_non_minimal, read_content,
  decode_to_simple_value, over, read, read_nested, read_nested_non_strict,
  decode_complete_data_item, ok, err, out_of_fuel, DecoderError,
}
use oasis_cbor.Reader.Complete.{decode-encoding}
use oasis_cbor.Reader.Sound.{decode_complete_data_item_cases}
use oasis_cbor.Writer.Accepted.{IsBounded, write_nested_iff}
use oasis_cbor.Writer.Appends.{after, write_nested-Extends}
use oasis_cbor.Writer.Normal.{write_nested-normalize}
use oasis_cbor.Encoding.Normal.{normalize, insert_key}
use oasis_cbor.Codec.Truncated.{read_nested-incomplete_cbor_data}
use oasis_cbor.Codec.{
  read_nested_iff, read_nested-write_nested, write_nested-read_nested, read_nested-ne_out_of_fuel,
  read_nested_non_strict-read_nested,
}

-- {1: "b", "key": [1000, -100]}
abbrev sample_bytes : List ℕ
sample_bytes =
    0xa2 ∷ 0x01 ∷ 0x61 ∷ 0x62 ∷ 0x63 ∷ 0x6b ∷ 0x65 ∷ 0x79 ∷ 0x82 ∷ 0x19 ∷ 0x03 ∷ 0xe8 ∷ 0x38 ∷ 0x63
    ∷ []

abbrev key_text : Value
key_text = text_string (0x6b ∷ 0x65 ∷ 0x79 ∷ [])

abbrev numbers : Value
numbers = array (value (unsigned 1000) (value (negative (negsuc 99)) no_values))

abbrev sample : Value
sample = map (entry (unsigned 1) (text_string (0x62 ∷ [])) (entry key_text numbers no_entries))

abbrev unsorted : Value
unsorted = map (entry key_text numbers (entry (unsigned 1) (text_string (0x62 ∷ [])) no_entries))

write-sample : write sample [] ≡ done sample_bytes
unfolding write
write-sample = refl

write-unsorted : write unsorted [] ≡ done sample_bytes
unfolding write
write-unsorted = refl

write_duplicate :
    write (map (entry (unsigned 1) numbers (entry (unsigned 1) numbers no_entries))) (7 ∷ [])
    ≡ failed duplicate_map_key (7 ∷ [])
unfolding write
write_duplicate = refl

read-sample : read sample_bytes ≡ ok sample
unfolding read
read-sample = refl

read_non_minimal : read (0x18 ∷ 0x17 ∷ []) ≡ err DecoderError.non_minimal_cbor_encoding
unfolding read
read_non_minimal = refl

read_huge_array :
    read (0x9b ∷ 0xff ∷ 0xff ∷ 0xff ∷ 0xff ∷ 0xff ∷ 0xff ∷ 0xff ∷ 0xff ∷ 0x17 ∷ [])
    ≡ err DecoderError.incomplete_cbor_data
unfolding read
read_huge_array = refl

read_out_of_order : read (0xa2 ∷ 0x02 ∷ 0x00 ∷ 0x01 ∷ 0x00 ∷ []) ≡ err DecoderError.out_of_order_key
unfolding read
read_out_of_order = refl

read_float : read (0xf9 ∷ 0x3c ∷ 0x00 ∷ []) ≡ err DecoderError.unsupported_floating_point_value
unfolding read
read_float = refl

sample_bytes-IsByte : All IsByte sample_bytes
sample_bytes-IsByte = omega arith

sample-IsCanonical : IsCanonical sample
unfolding IsCanonical is_utf8 cmp
sample-IsCanonical = (
  omega arith,
  (refl, (tt, tt)),
  (
    omega arith,
    (omega arith, omega arith, refl),
    ((omega arith, omega arith, refl), (omega arith, (omega arith, (omega arith, tt))), tt),
  ),
)

sample-Within : Within (some (pos 2)) (depth sample)
unfolding depth
sample-Within = omega arith

start_item-head_example : start_item 4 1000 (7 ∷ []) ≡ (7 ∷ []) ++ head 4 1000
start_item-head_example = start_item-head 4 1000 (7 ∷ []) (omega arith)

key_text-IsCanonical : IsCanonical key_text
unfolding IsCanonical is_utf8
key_text-IsCanonical = (omega arith, omega arith, refl)

compare-encoding_example : compare_bytes (encoding sample) (encoding key_text) ≡ cmp sample key_text
compare-encoding_example = compare-encoding sample key_text sample-IsCanonical key_text-IsCanonical

sample_written : write_nested sample (7 ∷ []) (some (pos 2)) ≡ done ((7 ∷ []) ++ encoding sample)
sample_written =
    write_nested-encoding sample (7 ∷ []) (some (pos 2)) sample-IsCanonical sample-Within

decode-encoding_example :
    decode_complete_data_item 20 (some (pos 2)) (over true (encoding sample ++ (9 ∷ [])))
    ≡ ok (sample, over true (9 ∷ []))
decode-encoding_example =
    decode-encoding sample 20 (some (pos 2)) true (9 ∷ []) sample-IsCanonical sample-Within
      (unfold encoding head big_endian width in omega arith)

read_nested_iff_example : (read_nested sample_bytes (some (pos 127)) ≡ ok sample) ↔ (
    IsCanonical sample × Within (some (pos 127)) (depth sample) × (sample_bytes ≡ encoding sample))
read_nested_iff_example = read_nested_iff sample_bytes (some (pos 127)) sample sample_bytes-IsByte

read_nested-write_nested_example :
    (cbor : List ℕ) × (write_nested sample [] (some (pos 2)) ≡ done cbor)
    × (read_nested cbor (some (pos 2)) ≡ ok sample)
read_nested-write_nested_example =
    read_nested-write_nested sample (some (pos 2)) sample-IsCanonical sample-Within

read_nested-sample : read_nested sample_bytes (some (pos 127)) ≡ ok sample
unfolding read
read_nested-sample = refl

write_nested-read_nested_example : write_nested sample [] (some (pos 127)) ≡ done sample_bytes
write_nested-read_nested_example =
    write_nested-read_nested sample_bytes (some (pos 127)) sample sample_bytes-IsByte
      read_nested-sample

read_nested-ne_out_of_fuel_example :
    (read_nested sample_bytes none ≢ out_of_fuel)
    × (read_nested_non_strict sample_bytes none ≢ out_of_fuel)
read_nested-ne_out_of_fuel_example =
    read_nested-ne_out_of_fuel sample_bytes none sample_bytes-IsByte

read_nested_non_strict-read_nested_example :
    read_nested_non_strict (sample_bytes ++ (9 ∷ [])) (some (pos 127)) ≡ ok sample
read_nested_non_strict-read_nested_example =
    read_nested_non_strict-read_nested sample_bytes (9 ∷ []) (some (pos 127)) sample
      sample_bytes-IsByte read_nested-sample

abbrev write_zero : List ℕ → Written
write_zero buf = done (buf ++ (0 ∷ []))

abbrev swapped : List Encoded
swapped = (0x02 ∷ [], write_zero) ∷ ((0x01 ∷ [], write_zero) ∷ [])

write_map_cases_example :
    (IsIncreasing (sort_by_key swapped)
      × (write_map 5 swapped []
          ≡ write_entries (sort_by_key swapped) (start_item 5 (length (sort_by_key swapped)) [])))
    ⊎ (¬ IsIncreasing (sort_by_key swapped)
        × (write_map 5 swapped [] ≡ failed duplicate_map_key []))
write_map_cases_example = write_map_cases 5 swapped []

-- What `unsorted` is once its entries are sorted.
unsorted-IsCanonical : IsCanonical (normalize unsorted)
unfolding IsCanonical is_utf8 cmp normalize insert_key
unsorted-IsCanonical = (
  omega arith,
  (refl, (tt, tt)),
  (
    omega arith,
    (omega arith, omega arith, refl),
    ((omega arith, omega arith, refl), (omega arith, (omega arith, (omega arith, tt))), tt),
  ),
)

sorted_written :
    write_nested unsorted (7 ∷ []) (some (pos 2)) ≡ done ((7 ∷ []) ++ encoding (normalize unsorted))
unfolding depth
sorted_written =
    write_nested-normalize unsorted (7 ∷ []) (some (pos 2)) unsorted-IsCanonical (omega arith)

-- The Boolean `true`, and a byte behind it.
decode_complete_data_item_cases_example :
    (front : List ℕ) × ((0xf5 ∷ 0x09 ∷ []) ≡ front ++ (0x09 ∷ []))
    × (1 ≤ length front)
    × All IsByte (0x09 ∷ [])
    × (true ≡ true)
unfolding decode_complete_data_item read_item read_bytes read_variadic_length_integer read_size
    is_non_minimal read_content decode_to_simple_value from_integer
decode_complete_data_item_cases_example =
    decode_complete_data_item_cases 3 none (over true (0xf5 ∷ 0x09 ∷ [])) (over true (0x09 ∷ []))
      (simple true_value) (omega arith) (omega arith) refl

unsorted-IsBounded : IsBounded unsorted
unfolding IsBounded is_utf8
unsorted-IsBounded = (
  omega arith,
  (
    (omega arith, omega arith, refl),
    (omega arith, (omega arith, (omega arith, tt))),
    (omega arith, (omega arith, omega arith, refl), tt),
  ),
)

write_nested_iff_example : (write_nested unsorted [] (some (pos 2)) ≡ done sample_bytes) ↔ (
    IsCanonical (normalize unsorted)
    × Within (some (pos 2)) (depth unsorted)
    × (sample_bytes ≡ [] ++ encoding (normalize unsorted)))
write_nested_iff_example =
    write_nested_iff unsorted [] sample_bytes (some (pos 2)) unsorted-IsBounded

-- A map with a duplicate key.
write_nested-Extends_example :
    (more : List ℕ) × (after (
        write_nested
          (map (entry (unsigned 1) numbers (entry (unsigned 1) numbers no_entries)))
          (7 ∷ [])
          none)
      ≡ (7 ∷ []) ++ more)
write_nested-Extends_example =
    write_nested-Extends (map (entry (unsigned 1) numbers (entry (unsigned 1) numbers no_entries)))
      (7 ∷ []) none

-- The first bytes of the sample, up to its key of text, and the bytes behind the next one.
abbrev sample_start : List ℕ
sample_start = 0xa2 ∷ 0x01 ∷ 0x61 ∷ 0x62 ∷ 0x63 ∷ 0x6b ∷ []

abbrev sample_end : List ℕ
sample_end = 0x79 ∷ 0x82 ∷ 0x19 ∷ 0x03 ∷ 0xe8 ∷ 0x38 ∷ 0x63 ∷ []

read_nested-incomplete_cbor_data_example :
    (read_nested sample_start (some (pos 127)) ≡ err DecoderError.incomplete_cbor_data)
    × (read_nested_non_strict sample_start (some (pos 127)) ≡ err DecoderError.incomplete_cbor_data)
read_nested-incomplete_cbor_data_example =
    read_nested-incomplete_cbor_data sample_start sample_end 0x65 (some (pos 127)) sample
      sample_bytes-IsByte read_nested-sample
