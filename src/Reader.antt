-- ===== src/Reader.antt =====
-- value/src/reader.rs. A method of `Reader` that changes it returns the new reader with its result.
pub mod Outcome
pub mod Size
pub mod Item
pub mod Complete
pub mod Prefix
pub mod Loops
pub mod Contents
pub mod Sound
pub mod Truncated
use oasis_cbor.Prelude.{
  ℕ, zero, suc, ℤ, pos, negsuc, ◌+◌, ◌*◌, ◌/◌, ◌%◌, ◌^◌, Bool, true, false, not, ◌&&◌, ◌||◌, Option,
  none, some, List, [], ◌∷◌, ◌++◌, length, take, drop, ltb, leb, ◌==◌, if◌then◌else◌, neg, sub_one,
  bit_and, Ordering,
}
use mathlib.Core.List.{foldl}
use oasis_cbor.Value.{
  SimpleValue, Value, Values, Entries, unsigned, negative, byte_string, text_string, array, map,
  tag, simple, no_values, value, no_entries, entry, undefined, from_integer, major_type_bit_shift,
  additional_information_mask, additional_information_max_int, additional_information_1_byte,
  additional_information_2_bytes, additional_information_4_bytes, additional_information_8_bytes,
}
use oasis_cbor.Value.Order.{cmp}
use oasis_cbor.Encoding.Utf8.{is_utf8}
use oasis_cbor.Nesting.{is_exhausted, nested}

pub data DecoderError : Type 0 where
  unsupported_major_type unknown_additional_info incomplete_cbor_data : DecoderError
  too_much_nesting invalid_utf8 extraneous_data out_of_order_key : DecoderError
  non_minimal_cbor_encoding unsupported_simple_value : DecoderError
  unsupported_floating_point_value : DecoderError

-- `out_of_fuel` has no counterpart in the program: the recursion of the model was cut off.
pub data Result {ℓ} (A : Type ℓ) : Type ℓ where
  ok : A → Result A
  err : DecoderError → Result A
  out_of_fuel : Result A

infixl 5 ◌>>=◌
abbrev pub ◌>>=◌ {ℓ κ} : {A : Type ℓ} {B : Type κ} → Result A → (A → Result B) → Result B
ok a >>= f = f a
err e >>= f = err e
out_of_fuel >>= f = out_of_fuel

pub record Reader : Type 0 where
  pub non_strict : Bool
  pub remaining_cbor : List ℕ

abbrev pub over : Bool → List ℕ → Reader
over non_strict cbor = record { non_strict = non_strict; remaining_cbor = cbor }

abbrev pub new : List ℕ → Reader
new cbor = over false cbor

abbrev pub new_non_strict : List ℕ → Reader
new_non_strict cbor = over true cbor

-- `None` leaves the reader as it is.
unfoldable pub read_bytes : ℕ → Reader → Option (List ℕ × Reader)
read_bytes num_bytes r =
    if ltb (length r.remaining_cbor) num_bytes
    then none
    else some (
      take num_bytes r.remaining_cbor,
      record r { remaining_cbor = drop num_bytes r.remaining_cbor },
    )

-- `size_value <<= 8; size_value += *byte as u64`
abbrev pub shift_in : ℕ → ℕ → ℕ
shift_in size byte = size * 256 % 2 ^ 64 + byte

-- `num >> 1` and `1u64 << (8 * …)` of the source are at the few values of `num` without overflow.
unfoldable pub is_non_minimal : ℕ → ℕ → Bool
is_non_minimal num size = (num == 1 && ltb size 24) || ltb size (2 ^ (8 * (num / 2)))

unfoldable pub read_size : ℕ → Reader → Result (ℕ × Reader)
read_size num r = elim (read_bytes num r) [
  | none ↦ err incomplete_cbor_data
  | some (bytes, r') ↦
      let size = foldl shift_in 0 bytes in
      if is_non_minimal num size && not r'.non_strict
      then err non_minimal_cbor_encoding
      else ok (size, r')
]

unfoldable pub read_variadic_length_integer : ℕ → Reader → Result (ℕ × Reader)
read_variadic_length_integer additional_info r =
    if leb additional_info additional_information_max_int
    then ok (additional_info, r)
    else if additional_info == additional_information_1_byte
    then read_size 1 r
    else if additional_info == additional_information_2_bytes
    then read_size 2 r
    else if additional_info == additional_information_4_bytes
    then read_size 4 r
    else if additional_info == additional_information_8_bytes
    then read_size 8 r
    else err unknown_additional_info

unfoldable pub decode_value_to_unsigned : ℕ → Result Value
decode_value_to_unsigned size = ok (unsigned size)

-- `-(size_value as i128) - 1`
unfoldable pub decode_value_to_negative : ℕ → Result Value
decode_value_to_negative size = ok (negative (sub_one (neg (pos size))))

unfoldable pub read_byte_string_content : ℕ → Reader → Result (Value × Reader)
read_byte_string_content size r = elim (read_bytes size r) [
  | none ↦ err incomplete_cbor_data
  | some (bytes, r') ↦ ok (byte_string bytes, r')
]

unfoldable pub read_text_string_content : ℕ → Reader → Result (Value × Reader)
read_text_string_content size r = elim (read_bytes size r) [
  | none ↦ err incomplete_cbor_data
  | some (bytes, r') ↦ if is_utf8 bytes then ok (text_string bytes, r') else err invalid_utf8
]

unfoldable pub decode_to_simple_value : ℕ → ℕ → Reader → Result Value
decode_to_simple_value size additional_info r =
    if ltb additional_information_max_int additional_info
      && (not (additional_info == additional_information_1_byte) && not r.non_strict)
    then err unsupported_floating_point_value
    else elim (from_integer size) [
      | some s ↦ ok (simple s)
      | none ↦ if r.non_strict then ok (simple undefined) else err unsupported_simple_value
    ]

-- The call `self.decode_complete_data_item(remaining_depth.map(|d| d - 1))`.
abbrev pub Decoder : Type 0
Decoder = Reader → Result (Value × Reader)

-- The loop over an array's elements. What is pushed behind the elements read so far is the rest.
unfoldable pub read_elements : Decoder → ℕ → Reader → Result (Values × Reader)
read_elements decode zero r = ok (no_values, r)
read_elements decode (suc n) r = do
  (v, r₁) ← decode r
  (vs, r₂) ← read_elements decode n r₁
  ok (value v vs, r₂)

-- `last_item.0 >= key`, where there is a last item.
unfoldable pub is_out_of_order : Option Value → Value → Bool
is_out_of_order none key = false
is_out_of_order (some last_key) key = elim (cmp last_key key) [ Ordering.lt ↦ false | _ ↦ true ]

-- The loop over a map's entries; `last` is the key pushed last.
unfoldable pub read_entries : Decoder → ℕ → Option Value → Reader → Result (Entries × Reader)
read_entries decode zero last r = ok (no_entries, r)
read_entries decode (suc n) last r = do
  (key, r₁) ← decode r
  (v, r₂) ←
      if is_out_of_order last key && not r₁.non_strict then err out_of_order_key else decode r₁
  (es, r₃) ← read_entries decode n (some key) r₂
  ok (entry key v es, r₃)

unfoldable pub read_array_content : Decoder → ℕ → Reader → Result (Value × Reader)
read_array_content decode size r = do (vs, r') ← read_elements decode size r; ok (array vs, r')

unfoldable pub read_map_content : Decoder → ℕ → Reader → Result (Value × Reader)
read_map_content decode size r = do (es, r') ← read_entries decode size none r; ok (map es, r')

unfoldable pub read_tagged_content : Decoder → ℕ → Reader → Result (Value × Reader)
read_tagged_content decode tag_value r = do (v, r') ← decode r; ok (tag tag_value v, r')

-- A method on `&self` leaves the reader as it is.
abbrev pub keep : Result Value → Reader → Result (Value × Reader)
keep result r = do v ← result; ok (v, r)

-- The arms of the match on the major type.
unfoldable pub read_content : Decoder → ℕ → ℕ → ℕ → Reader → Result (Value × Reader)
read_content decode major_type additional_info size r =
    if major_type == 0
    then keep (decode_value_to_unsigned size) r
    else if major_type == 1
    then keep (decode_value_to_negative size) r
    else if major_type == 2
    then read_byte_string_content size r
    else if major_type == 3
    then read_text_string_content size r
    else if major_type == 4
    then read_array_content decode size r
    else if major_type == 5
    then read_map_content decode size r
    else if major_type == 6
    then read_tagged_content decode size r
    else if major_type == 7
    then keep (decode_to_simple_value size additional_info r) r
    else err unsupported_major_type

-- The first byte split, and the size read.
unfoldable pub read_item : Decoder → Reader → Result (Value × Reader)
read_item decode r = elim (read_bytes 1 r) [
  | some (first_byte ∷ [], r₁) ↦ do
    let major_type = first_byte / 2 ^ major_type_bit_shift
    let additional_info = bit_and first_byte additional_information_mask
    (size, r₂) ← read_variadic_length_integer additional_info r₁
    read_content decode major_type additional_info size r₂
  | _ ↦ err incomplete_cbor_data
]

-- Each level of nesting takes a byte at least, so fuel above the number of bytes is enough.
unfoldable pub decode_complete_data_item : ℕ → Option ℤ → Reader → Result (Value × Reader)
decode_complete_data_item zero remaining_depth r = out_of_fuel
decode_complete_data_item (suc fuel) remaining_depth r =
    let item = read_item (decode_complete_data_item fuel (nested remaining_depth)) r in
    if is_exhausted remaining_depth then err too_much_nesting else item

abbrev pub enough_fuel : List ℕ → ℕ
enough_fuel cbor = suc (length cbor)

unfoldable pub read_nested : List ℕ → Option ℤ → Result Value
read_nested encoded_cbor max_nest = do
  (v, r) ← decode_complete_data_item (enough_fuel encoded_cbor) max_nest (new encoded_cbor)
  elim r.remaining_cbor [ [] ↦ ok v | _ ↦ err extraneous_data ]

unfoldable pub read_nested_non_strict : List ℕ → Option ℤ → Result Value
read_nested_non_strict encoded_cbor max_nest = do
  (v, r) ←
      decode_complete_data_item (enough_fuel encoded_cbor) max_nest (new_non_strict encoded_cbor)
  ok v

-- `Some(i8::MAX)`
unfoldable pub read : List ℕ → Result Value
unfolding read_bytes is_non_minimal read_size read_variadic_length_integer decode_value_to_unsigned
    decode_value_to_negative read_byte_string_content is_utf8 read_text_string_content from_integer
    decode_to_simple_value read_elements cmp is_out_of_order read_entries read_array_content
    read_map_content read_tagged_content read_content read_item decode_complete_data_item
    read_nested
read encoded_cbor = read_nested encoded_cbor (some (pos 127))
