-- ===== src/Serde/Failure.antt =====
-- src/serde/error.rs: what the message of an `invalid_type` error says, as data in place of its text.
use oasis_cbor.Prelude.{
  ℕ, ℤ, pos, negsuc, ◌-◌, ◌^◌, Bool, true, false, List, ltb, as_u64, if◌then◌else◌,
}
use oasis_cbor.Value.{
  Value, unsigned, negative, byte_string, text_string, array, map, tag, simple, null_value,
  undefined, true_value, false_value,
}

-- `n as i64`: the lowest 64 bits, signed.
unfoldable pub as_i64 : ℤ → ℤ
as_i64 z = let low = as_u64 z in if ltb low (2 ^ 63) then pos low else negsuc (2 ^ 64 - 1 - low)

-- serde's `Unexpected`, with the texts that are given to its `Other` as constructors.
pub data Unexpected : Type 0 where
  unsigned_found : ℕ → Unexpected
  signed_found : ℤ → Unexpected
  bytes_found str_found : List ℕ → Unexpected
  seq_found map_found tag_found null_found undefined_found : Unexpected
  bool_found : Bool → Unexpected

unfoldable pub unexpected : Value → Unexpected
unexpected (unsigned n) = unsigned_found n
unexpected (negative n) = signed_found (as_i64 n)
unexpected (byte_string s) = bytes_found s
unexpected (text_string s) = str_found s
unexpected (array items) = seq_found
unexpected (map pairs) = map_found
unexpected (tag t v) = tag_found
unexpected (simple false_value) = bool_found false
unexpected (simple true_value) = bool_found true
unexpected (simple null_value) = null_found
unexpected (simple undefined) = undefined_found

pub data Expected : Type 0 where
  array_expected map_expected null_expected string_or_map_expected : Expected

-- The argument of `Error::UnsupportedType`.
pub data Unsupported : Type 0 where
  f32_type f64_type cbor_tag : Unsupported

-- The argument of `Error::Other`: what is said of the value where there is one, and else which text.
-- `custom` has a text of the type's own. `serialize_i128` is not overridden by the serializer, and
-- serde's documentation has it that it is then an error. `cut_off` has no counterpart in the program.
pub data Message : Type 0 where
  invalid_type : Unexpected → Expected → Message
  custom : List ℕ → Message
  unexpected_end_of_map i128_is_not_supported cut_off : Message
