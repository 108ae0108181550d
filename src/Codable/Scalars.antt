-- ===== src/Codable/Scalars.antt =====
-- src/encode.rs and src/decode.rs, the impls for integers, Booleans, strings, byte strings, characters and
-- the unit type.
use oasis_cbor.Prelude.{
  ℕ, ◌<◌, ◌≤◌, ◌^◌, ℤ, pos, negsuc, ◌≡◌, refl, ◌∙◌, Bool, true, false, List, length, All, arith,
}
use Prim.Native.Nat.{◌%◌}
use native.Mathlib.Nat.{pow-le-pow_right}
use oasis_cbor.Value.{integer, unsigned, text_string, byte_string}
use oasis_cbor.Encoding.Bytes.{IsByte}
use oasis_cbor.Encoding.Head.{IsU64}
use oasis_cbor.Encoding.Utf8.{is_utf8}
use oasis_cbor.Encoding.Canonical.{IsCanonical}
use oasis_cbor.Encode.{
  is_null, encode_uint, encode_int, encode_bool, encode_string, encode_bytes, encode_char,
  encode_unit,
}
use oasis_cbor.Decode.{
  ok, try_from_cbor_value_default, decode_uint, uint_from_value, decode_int, int_from_value,
  decode_bool, bool_from_value, decode_string, string_from_value, decode_bytes, bytes_from_value,
  decode_char, is_char, char_from_value, decode_unit, unit_from_value,
}
use oasis_cbor.Codable.{Codable, default-is_null}

-- The values of an unsigned type of `bits` bits, and of a signed one with `bits` bits beside the sign.
abbrev pub IsUint : ℕ → ℕ → Type 0
IsUint bits n = n < 2 ^ bits

abbrev pub IsInt : ℕ → ℤ → Type 0
IsInt bits (pos n) = n < 2 ^ bits
IsInt bits (negsuc n) = n < 2 ^ bits

pow64-≤ : (bits : ℕ) → bits ≤ 64 → 2 ^ bits ≤ 2 ^ 64
pow64-≤ bits wide = pow-le-pow_right (omega arith) wide

pub uint-IsCanonical :
    (bits n : ℕ) → bits ≤ 64 → IsUint bits n → IsCanonical (encode_uint.into_cbor_value n)
unfolding IsCanonical
uint-IsCanonical bits n wide h = let top = pow64-≤ bits wide in omega arith

pub uint_trip :
    (bits n : ℕ) → IsUint bits n → uint_from_value bits (encode_uint.into_cbor_value n) ≡ ok n
unfolding uint_from_value
uint_trip bits n h = ground arith

pub pow63-≤ : (bits : ℕ) → bits ≤ 63 → 2 ^ bits ≤ 2 ^ 63
pow63-≤ bits wide = pow-le-pow_right (omega arith) wide

pub int-IsCanonical :
    (bits : ℕ) (z : ℤ) → bits ≤ 63 → IsInt bits z → IsCanonical (encode_int.into_cbor_value z)
unfolding IsCanonical integer
int-IsCanonical bits (pos n) wide h = let top = pow63-≤ bits wide in omega arith
int-IsCanonical bits (negsuc n) wide h = let top = pow63-≤ bits wide in omega arith

-- A signed integer that fits `bits` bits beside the sign, at most 63, is decoded by the decoder of
-- that width from the value that it is encoded as.
pub int_trip :
    (bits : ℕ) (z : ℤ)
    → bits ≤ 63
    → IsInt bits z
    → int_from_value bits (encode_int.into_cbor_value z) ≡ ok z
unfolding int_from_value integer
int_trip bits (pos n) wide h =
    let top = pow63-≤ bits wide in
    let small : n % 2 ^ 64 ≡ n = omega arith in rw small (ground arith)
int_trip bits (negsuc n) wide h = ground arith

pub bool_trip : (b : Bool) → bool_from_value (encode_bool.into_cbor_value b) ≡ ok b
unfolding bool_from_value
bool_trip true = refl
bool_trip false = refl

pub bool-IsCanonical : (b : Bool) → IsCanonical (encode_bool.into_cbor_value b)
unfolding IsCanonical
bool-IsCanonical true = tt
bool-IsCanonical false = tt

pub bool-is_null : (b : Bool) → is_null (encode_bool.into_cbor_value b) ≡ false
bool-is_null true = refl
bool-is_null false = refl

pub integer-is_null : (z : ℤ) → is_null (integer z) ≡ false
unfolding integer
integer-is_null (pos n) = refl
integer-is_null (negsuc n) = refl

pub char-IsCanonical : (c : ℕ) → is_char c ≡ true → IsCanonical (encode_char.into_cbor_value c)
unfolding IsCanonical is_char
char-IsCanonical c h = ground arith

pub char_trip : (c : ℕ) → is_char c ≡ true → char_from_value (encode_char.into_cbor_value c) ≡ ok c
unfolding char_from_value is_char
char_trip c h = ground arith

abbrev pub codable_uint : (bits : ℕ) → bits ≤ 64 → Codable ℕ
codable_uint bits wide = record {
  encoder = encode_uint;
  decoder = decode_uint bits;
  IsValid = IsUint bits;
  canonical = λ n h. uint-IsCanonical bits n wide h;
  round_trip = λ n h. uint_trip bits n h;
  default_trip = λ n h. default-is_null (decode_uint bits) (unsigned n) refl ∙ uint_trip bits n h;
}

abbrev pub codable_int : (bits : ℕ) → bits ≤ 63 → Codable ℤ
codable_int bits wide = record {
  encoder = encode_int;
  decoder = decode_int bits;
  IsValid = IsInt bits;
  canonical = λ z h. int-IsCanonical bits z wide h;
  round_trip = λ z h. int_trip bits z wide h;
  default_trip = λ z h.
      default-is_null (decode_int bits) (integer z) (integer-is_null z) ∙ int_trip bits z wide h;
}

abbrev pub codable_bool : Codable Bool
codable_bool = record {
  encoder = encode_bool;
  decoder = decode_bool;
  IsValid = λ b. Unit {0};
  canonical = λ b h. bool-IsCanonical b;
  round_trip = λ b h. bool_trip b;
  default_trip = λ b h.
      default-is_null decode_bool (encode_bool.into_cbor_value b) (bool-is_null b) ∙ bool_trip b;
}

-- A `char` is a code point that is no surrogate.
abbrev pub codable_char : Codable ℕ
codable_char = record {
  encoder = encode_char;
  decoder = decode_char;
  IsValid = λ c. is_char c ≡ true;
  canonical = λ c h. char-IsCanonical c h;
  round_trip = λ c h. char_trip c h;
  default_trip = λ c h. default-is_null decode_char (unsigned c) refl ∙ char_trip c h;
}

-- A `String` is valid UTF-8.
abbrev pub IsString : List ℕ → Type 0
IsString bs = All IsByte bs × IsU64 (length bs) × (is_utf8 bs ≡ true)

pub string-IsCanonical :
    (bs : List ℕ) → IsString bs → IsCanonical (encode_string.into_cbor_value bs)
unfolding IsCanonical
string-IsCanonical bs h = h

pub string_trip : (bs : List ℕ) → string_from_value (encode_string.into_cbor_value bs) ≡ ok bs
unfolding string_from_value
string_trip bs = refl

abbrev pub codable_string : Codable (List ℕ)
codable_string = record {
  encoder = encode_string;
  decoder = decode_string;
  IsValid = IsString;
  canonical = λ bs h. string-IsCanonical bs h;
  round_trip = λ bs h. string_trip bs;
  default_trip = λ bs h. default-is_null decode_string (text_string bs) refl ∙ string_trip bs;
}

abbrev pub IsBytes : List ℕ → Type 0
IsBytes bs = All IsByte bs × IsU64 (length bs)

pub bytes-IsCanonical : (bs : List ℕ) → IsBytes bs → IsCanonical (encode_bytes.into_cbor_value bs)
unfolding IsCanonical
bytes-IsCanonical bs h = h

pub bytes_trip : (bs : List ℕ) → bytes_from_value (encode_bytes.into_cbor_value bs) ≡ ok bs
unfolding bytes_from_value
bytes_trip bs = refl

abbrev pub codable_bytes : Codable (List ℕ)
codable_bytes = record {
  encoder = encode_bytes;
  decoder = decode_bytes;
  IsValid = IsBytes;
  canonical = λ bs h. bytes-IsCanonical bs h;
  round_trip = λ bs h. bytes_trip bs;
  default_trip = λ bs h. default-is_null decode_bytes (byte_string bs) refl ∙ bytes_trip bs;
}

pub unit-IsCanonical : IsCanonical (encode_unit.into_cbor_value tt)
unfolding IsCanonical
unit-IsCanonical = tt

pub unit_trip : unit_from_value (encode_unit.into_cbor_value tt) ≡ ok tt
unfolding unit_from_value
unit_trip = refl

pub unit_default_trip :
    try_from_cbor_value_default decode_unit (encode_unit.into_cbor_value tt) ≡ ok tt
unfolding try_from_cbor_value_default
unit_default_trip = refl

abbrev pub codable_unit : Codable (Unit {0})
codable_unit = record {
  encoder = encode_unit;
  decoder = decode_unit;
  IsValid = λ u. Unit {0};
  canonical = λ u h. unit-IsCanonical;
  round_trip = λ u h. unit_trip;
  default_trip = λ u h. unit_default_trip;
}
