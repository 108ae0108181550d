-- ===== src/Decode.antt =====
-- src/decode.rs: how CBOR values become Rust values. A `Decode T` is the `impl Decode for T`.
pub mod Range
pub mod Containers
pub mod Outcome
pub mod Tuples
use oasis_cbor.Prelude.{
  ℕ, zero, suc, ℤ, pos, negsuc, ◌+◌, ◌-◌, ◌*◌, ◌^◌, Bool, true, false, ◌&&◌, ◌||◌, Option, none,
  some, List, [], ◌∷◌, ◌++◌, length, leb, ltb, ◌==◌, if◌then◌else◌, Ordering,
}
use mathlib.Core.List.{foldl}
use oasis_cbor.Value.{
  Value, Values, Entries, unsigned, negative, byte_string, text_string, array, map, simple,
  no_values, value, no_entries, entry, null_value, true_value, false_value, undefined,
}
use oasis_cbor.Encode.{Tuple}

pub data DecodeError : Type 0 where
  parsing_failed unexpected_type missing_field unknown_field unexpected_integer_size : DecodeError

-- `panicked` is a panic, which is no `Result` of the source.
pub data Result {ℓ} (A : Type ℓ) : Type ℓ where
  ok : A → Result A
  err : DecodeError → Result A
  panicked : Result A

infixl 5 ◌>>=◌
abbrev pub ◌>>=◌ {ℓ κ} : {A : Type ℓ} {B : Type κ} → Result A → (A → Result B) → Result B
ok a >>= f = f a
err e >>= f = err e
panicked >>= f = panicked

pub record Decode {ℓ} (A : Type ℓ) : Type ℓ where
  pub try_default : Result A
  pub try_from_cbor_value : Value → Result A

-- `Box<T>`, where a box is its content.
abbrev pub decode_box {ℓ} : {A : Type ℓ} → Decode A → Decode A
decode_box d = record {
  try_default = d.try_default >>= λ v. ok v;
  try_from_cbor_value = λ x. d.try_from_cbor_value x >>= λ v. ok v;
}

-- An explicit null or undefined asks for the default.
unfoldable pub try_from_cbor_value_default {ℓ} : {A : Type ℓ} → Decode A → Value → Result A
try_from_cbor_value_default d (simple null_value) = d.try_default
try_from_cbor_value_default d (simple undefined) = d.try_default
try_from_cbor_value_default d v = d.try_from_cbor_value v

-- `try_into` an unsigned type of `bits` bits.
abbrev pub uint_from : ℕ → ℕ → Result ℕ
uint_from bits n = if ltb n (2 ^ bits) then ok n else err unexpected_integer_size

-- `try_into` a signed type of `bits + 1` bits.
abbrev pub int_from : ℕ → ℤ → Result ℤ
int_from bits (pos n) = if ltb n (2 ^ bits) then ok (pos n) else err unexpected_integer_size
int_from bits (negsuc n) = if ltb n (2 ^ bits) then ok (negsuc n) else err unexpected_integer_size

unfoldable pub uint_from_value : ℕ → Value → Result ℕ
uint_from_value bits (unsigned n) = uint_from bits n
uint_from_value bits v = err unexpected_type

-- `impl_uint!`, for `u8`, `u16`, `u32` and `u64`.
abbrev pub decode_uint : ℕ → Decode ℕ
decode_uint bits = record { try_default = ok 0; try_from_cbor_value = uint_from_value bits }

unfoldable pub int_from_value : ℕ → Value → Result ℤ
int_from_value bits (unsigned n) = int_from bits (pos n)
int_from_value bits (negative z) = int_from bits z
int_from_value bits v = err unexpected_type

-- `impl_int!`: `bits` is 7, 15, 31 or 63, the bits without the sign.
abbrev pub decode_int : ℕ → Decode ℤ
decode_int bits = record { try_default = ok (pos 0); try_from_cbor_value = int_from_value bits }

abbrev pub zeros : ℕ → List ℕ
zeros zero = []
zeros (suc n) = 0 ∷ zeros n

unfoldable pub from_be_bytes : List ℕ → ℕ
from_be_bytes = foldl (λ acc byte. acc * 256 + byte) 0

unfoldable pub u128_from_value : Value → Result ℕ
u128_from_value (byte_string bs) =
    if ltb 16 (length bs)
    then err unexpected_integer_size
    else ok (from_be_bytes (zeros (16 - length bs) ++ bs))
u128_from_value v = err unexpected_type

abbrev pub decode_u128 : Decode ℕ
decode_u128 = record { try_default = ok 0; try_from_cbor_value = u128_from_value }

unfoldable pub bool_from_value : Value → Result Bool
bool_from_value (simple false_value) = ok false
bool_from_value (simple true_value) = ok true
bool_from_value v = err unexpected_type

abbrev pub decode_bool : Decode Bool
decode_bool = record { try_default = ok false; try_from_cbor_value = bool_from_value }

unfoldable pub string_from_value : Value → Result (List ℕ)
string_from_value (text_string bs) = ok bs
string_from_value v = err unexpected_type

abbrev pub decode_string : Decode (List ℕ)
decode_string = record { try_default = ok []; try_from_cbor_value = string_from_value }

-- `char::from_u32`: the code points that are no surrogates.
unfoldable pub is_char : ℕ → Bool
is_char n = ltb n 0xd800 || (leb 0xe000 n && ltb n 0x11_0000)

unfoldable pub char_from_value : Value → Result ℕ
char_from_value (unsigned n) =
    if leb n 0xffff_ffff
    then (if is_char n then ok n else err unexpected_type)
    else err unexpected_type
char_from_value v = err unexpected_type

abbrev pub decode_char : Decode ℕ
decode_char = record { try_default = ok 0; try_from_cbor_value = char_from_value }

-- `into_iter().map(T::try_from_cbor_value).collect()`: the first error ends it.
unfoldable pub collect_items {ℓ} : {A : Type ℓ} → Decode A → Values → Result (List A)
collect_items d no_values = ok []
collect_items d (value v vs) = do
  a ← d.try_from_cbor_value v
  rest ← collect_items d vs
  ok (a ∷ rest)

unfoldable pub vec_from_value {ℓ} : {A : Type ℓ} → Decode A → Value → Result (List A)
vec_from_value d (array vs) = collect_items d vs
vec_from_value d v = err unexpected_type

abbrev pub decode_vec {ℓ} : {A : Type ℓ} → Decode A → Decode (List A)
decode_vec d = record { try_default = ok []; try_from_cbor_value = vec_from_value d }

unfoldable pub bytes_from_value : Value → Result (List ℕ)
bytes_from_value (byte_string bs) = ok bs
bytes_from_value v = err unexpected_type

-- `Vec<u8>`, with the default of `Vec<T>`.
abbrev pub decode_bytes : Decode (List ℕ)
decode_bytes = record { try_default = ok []; try_from_cbor_value = bytes_from_value }

-- `try_into().map_err(…)` into an array of `count` items.
abbrev pub fixed_from {ℓ} : {A : Type ℓ} → ℕ → List A → Result (List A)
fixed_from count items = if length items == count then ok items else err unexpected_type

abbrev pub decode_fixed {ℓ} : {A : Type ℓ} → ℕ → Decode A → Decode (List A)
decode_fixed count d = record {
  try_default = err missing_field;
  try_from_cbor_value = λ v. vec_from_value d v >>= fixed_from count;
}

abbrev pub decode_fixed_bytes : ℕ → Decode (List ℕ)
decode_fixed_bytes count = record {
  try_default = ok (zeros count);
  try_from_cbor_value = λ v. bytes_from_value v >>= fixed_from count;
}

unfoldable pub option_from_value {ℓ} : {A : Type ℓ} → Decode A → Value → Result (Option A)
option_from_value d (simple null_value) = ok none
option_from_value d v = d.try_from_cbor_value v >>= λ a. ok (some a)

abbrev pub decode_option {ℓ} : {A : Type ℓ} → Decode A → Decode (Option A)
decode_option d = record { try_default = ok none; try_from_cbor_value = option_from_value d }

abbrev pub decode_value : Decode Value
decode_value = record { try_default = ok (simple null_value); try_from_cbor_value = ok }

unfoldable pub unit_from_value : Value → Result (Unit {0})
unit_from_value (simple null_value) = ok tt
unit_from_value (simple undefined) = ok tt
unit_from_value v = err unexpected_type

abbrev pub decode_unit : Decode (Unit {0})
decode_unit = record { try_default = ok tt; try_from_cbor_value = unit_from_value }

unfoldable pub collect_pairs {ℓ κ} :
    {K : Type ℓ} {V : Type κ} → Decode K → Decode V → Entries → Result (List (K × V))
collect_pairs dk dv no_entries = ok []
collect_pairs dk dv (entry k v es) = do
  a ← dk.try_from_cbor_value k
  b ← dv.try_from_cbor_value v
  rest ← collect_pairs dk dv es
  ok ((a, b) ∷ rest)

-- A tuple of any arity: its types, and an impl for each.
abbrev pub Decoders : List (Type 0) → Type 0
Decoders [] = Unit {0}
Decoders (A ∷ types) = Decode A × Decoders types

-- `Tuple::try_default()?, …`
unfoldable pub default_all : (types : List (Type 0)) → Decoders types → Result (Tuple types)
default_all [] ds = ok tt
default_all (A ∷ types) ds = do a ← ds.0.try_default; rest ← default_all types ds.1; ok (a, rest)

-- `Tuple::try_from_cbor_value(values.remove(0))?, …`: `remove` panics on an empty vector.
unfoldable pub remove_all : (types : List (Type 0)) → Decoders types → Values → Result (Tuple types)
remove_all [] ds vs = ok tt
remove_all (A ∷ types) ds no_values = panicked
remove_all (A ∷ types) ds (value v vs) = do
  a ← ds.0.try_from_cbor_value v
  rest ← remove_all types ds.1 vs
  ok (a, rest)

unfoldable pub tuple_from_value :
    (types : List (Type 0)) → Decoders types → Value → Result (Tuple types)
tuple_from_value types ds (array vs) = remove_all types ds vs
tuple_from_value types ds v = err unexpected_type

abbrev pub decode_tuple : (types : List (Type 0)) → Decoders types → Decode (Tuple types)
decode_tuple types ds = record {
  try_default = default_all types ds;
  try_from_cbor_value = tuple_from_value types ds;
}
