-- ===== src/Writer.antt =====
-- value/src/writer.rs. The writer's only state is the vector that it appends to.
pub mod Head
pub mod Sorting
pub mod Canonical
pub mod Distinct
pub mod Accepted
pub mod Appends
pub mod Matching
pub mod Normal
use oasis_cbor.Prelude.{
  ℕ, zero, suc, ℤ, pos, negsuc, ◌+◌, ◌*◌, ◌/◌, ◌%◌, ◌^◌, Bool, true, false, Option, none, some,
  List, [], ◌∷◌, ◌++◌, length, ltb, ◌==◌, if◌then◌else◌, neg, add_one, as_u64, bit_or, Ordering,
}
use oasis_cbor.Value.{
  Value, Values, Entries, unsigned, negative, byte_string, text_string, array, map, tag, simple,
  no_values, value, no_entries, entry, type_label, discriminant, count_values, major_type_bit_shift,
  additional_information_1_byte, additional_information_2_bytes, additional_information_4_bytes,
  additional_information_8_bytes,
}
use oasis_cbor.Value.Order.{compare_bytes}
use oasis_cbor.Nesting.{is_exhausted, nested}

pub data EncoderError : Type 0 where
  too_much_nesting duplicate_map_key : EncoderError

-- The vector after a call, and whether the call returned an error.
pub data Written : Type 0 where
  done : List ℕ → Written
  failed : EncoderError → List ℕ → Written

-- `?`: go on with the vector, or return the error with the vector as it is.
abbrev pub and_then : Written → (List ℕ → Written) → Written
and_then (done buf) next = next buf
and_then (failed e buf) next = failed e buf

-- `for i in (0..shift).rev() { push((size >> (i * 8)) as u8) }`
unfoldable pub push_size : ℕ → ℕ → List ℕ → List ℕ
push_size zero size buf = buf
push_size (suc i) size buf = push_size i size (buf ++ (size / 2 ^ (i * 8) % 256 ∷ []))

-- The first byte before the major type is put in, and the number of bytes that follow.
unfoldable pub size_class : ℕ → ℕ × ℕ
size_class size =
    if ltb size 24
    then (size % 256, 0)
    else if ltb size 0x100
    then (additional_information_1_byte, 1)
    else if ltb size 0x10000
    then (additional_information_2_bytes, 2)
    else if ltb size 0x1_0000_0000
    then (additional_information_4_bytes, 4)
    else (additional_information_8_bytes, 8)

unfoldable pub start_item : ℕ → ℕ → List ℕ → List ℕ
start_item label size buf =
    let (first_byte, shift) = size_class size in
    push_size shift size (buf ++ (bit_or first_byte (label * 2 ^ major_type_bit_shift % 256) ∷ []))

-- An entry whose key is encoded. The value is kept as the call that will encode it.
abbrev pub Encoded : Type 0
Encoded = List ℕ × (List ℕ → Written)

-- `sort_by(|a, b| a.0.cmp(&b.0))`: the library's sort is stable.
unfoldable pub insert_by_key : Encoded → List Encoded → List Encoded
insert_by_key a [] = a ∷ []
insert_by_key a (b ∷ rest) = elim (compare_bytes a.0 b.0) [
  | Ordering.gt ↦ b ∷ insert_by_key a rest
  | _ ↦ a ∷ b ∷ rest
]

unfoldable pub sort_by_key : List Encoded → List Encoded
sort_by_key [] = []
sort_by_key (a ∷ rest) = insert_by_key a (sort_by_key rest)

-- `a.0.eq(&b.0)`
unfoldable pub eq_bytes : List ℕ → List ℕ → Bool
eq_bytes [] [] = true
eq_bytes [] (y ∷ ys) = false
eq_bytes (x ∷ xs) [] = false
eq_bytes (x ∷ xs) (y ∷ ys) = if x == y then eq_bytes xs ys else false

-- `dedup_by(|a, b| a.0.eq(&b.0))`: of neighbours with one key the first stays.
unfoldable pub dedup_after : Encoded → List Encoded → List Encoded
dedup_after a [] = []
dedup_after a (b ∷ rest) = elim (eq_bytes a.0 b.0) [
  | true ↦ dedup_after a rest
  | false ↦ b ∷ dedup_after b rest
]

unfoldable pub dedup_by_key : List Encoded → List Encoded
dedup_by_key [] = []
dedup_by_key (a ∷ rest) = a ∷ dedup_after a rest

-- The loop over the sorted entries.
unfoldable pub write_entries : List Encoded → List ℕ → Written
write_entries [] buf = done buf
write_entries ((encoded_key, write_value) ∷ rest) buf =
    and_then (write_value (buf ++ encoded_key)) (write_entries rest)

-- The arm for maps, once all keys are encoded.
unfoldable pub write_map : ℕ → List Encoded → List ℕ → Written
write_map label encoded buf =
    let sorted = sort_by_key encoded in
    let kept = dedup_by_key sorted in
    let written = write_entries kept (start_item label (length sorted) buf) in
    if length sorted == length kept then written else failed duplicate_map_key buf

-- The keys of a map encoded one after the other, up to the first error.
pub data Keys : Type 0 where
  keys : List Encoded → Keys
  key_failed : EncoderError → Keys

abbrev pub add_key : Written → (List ℕ → Written) → Keys → Keys
add_key (done key) write_value (keys rest) = keys ((key, write_value) ∷ rest)
add_key (done key) write_value (key_failed e) = key_failed e
add_key (failed e key) write_value rest = key_failed e

abbrev pub finish_map : ℕ → Keys → List ℕ → Written
finish_map label (keys encoded) buf = write_map label encoded buf
finish_map label (key_failed e) buf = failed e buf

unfoldable mutual
  pub encode_cbor : Value → Option ℤ → List ℕ → Written
  encode_cbor (unsigned n) d buf =
      if is_exhausted d
      then failed too_much_nesting buf
      else done (start_item (type_label (unsigned n)) n buf)
  encode_cbor (negative z) d buf =
      if is_exhausted d
      then failed too_much_nesting buf
      else done (start_item (type_label (negative z)) (as_u64 (neg (add_one z))) buf)
  encode_cbor (byte_string bs) d buf =
      if is_exhausted d
      then failed too_much_nesting buf
      else done (start_item (type_label (byte_string bs)) (length bs) buf ++ bs)
  encode_cbor (text_string bs) d buf =
      if is_exhausted d
      then failed too_much_nesting buf
      else done (start_item (type_label (text_string bs)) (length bs) buf ++ bs)
  encode_cbor (array vs) d buf =
      let written =
        encode_values vs (nested d) (start_item (type_label (array vs)) (count_values vs) buf) in
      if is_exhausted d then failed too_much_nesting buf else written
  encode_cbor (map es) d buf =
      let written = finish_map (type_label (map es)) (encode_keys es (nested d)) buf in
      if is_exhausted d then failed too_much_nesting buf else written
  encode_cbor (tag t v) d buf =
      let written = encode_cbor v (nested d) (start_item (type_label (tag t v)) t buf) in
      if is_exhausted d then failed too_much_nesting buf else written
  encode_cbor (simple s) d buf =
      if is_exhausted d
      then failed too_much_nesting buf
      else done (start_item (type_label (simple s)) (discriminant s) buf)

  -- The loop over an array, with the depth of its elements.
  pub encode_values : Values → Option ℤ → List ℕ → Written
  encode_values no_values d buf = done buf
  encode_values (value v vs) d buf = and_then (encode_cbor v d buf) (encode_values vs d)

  pub encode_keys : Entries → Option ℤ → Keys
  encode_keys no_entries d = keys []
  encode_keys (entry k v es) d = add_key (encode_cbor k d []) (encode_cbor v d) (encode_keys es d)

unfoldable pub write_nested : Value → List ℕ → Option ℤ → Written
write_nested v encoded_cbor max_nest = encode_cbor v max_nest encoded_cbor

-- `Some(i8::MAX)`
unfoldable pub write : Value → List ℕ → Written
unfolding size_class push_size start_item compare_bytes insert_by_key sort_by_key eq_bytes
    dedup_after dedup_by_key write_entries write_map encode_cbor write_nested
write v encoded_cbor = write_nested v encoded_cbor (some (pos 127))
