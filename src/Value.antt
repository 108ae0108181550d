-- ===== src/Value.antt =====
-- The CBOR data model of value/src/values.rs: the enums, the constants and the constructors' helpers.
-- A `Vec<Value>` and a `Vec<(Value, Value)>` inside a value are the types `Values` and `Entries`;
-- a `String` is the list of its UTF-8 bytes.
pub mod Order
pub mod Convert
use oasis_cbor.Prelude.{
  ℕ, zero, suc, ℤ, pos, negsuc, ◌*◌, ◌%◌, ◌^◌, Bool, true, false, Option, none, some, List, ◌==◌,
  if◌then◌else◌, as_u64,
}

pub data SimpleValue : Type 0 where
  false_value true_value null_value undefined : SimpleValue

mutual
  pub data Value : Type 0 where
    unsigned : ℕ → Value
    negative : ℤ → Value
    byte_string : List ℕ → Value
    text_string : List ℕ → Value
    array : Values → Value
    map : Entries → Value
    tag : ℕ → Value → Value
    simple : SimpleValue → Value

  pub data Values : Type 0 where
    no_values : Values
    value : Value → Values → Values

  pub data Entries : Type 0 where
    no_entries : Entries
    entry : Value → Value → Entries → Entries

abbrev pub major_type_bit_shift : ℕ
major_type_bit_shift = 5

abbrev pub additional_information_mask : ℕ
additional_information_mask = 0x1f

abbrev pub additional_information_max_int : ℕ
additional_information_max_int = 23

abbrev pub additional_information_1_byte : ℕ
additional_information_1_byte = 24

abbrev pub additional_information_2_bytes : ℕ
additional_information_2_bytes = 25

abbrev pub additional_information_4_bytes : ℕ
additional_information_4_bytes = 26

abbrev pub additional_information_8_bytes : ℕ
additional_information_8_bytes = 27

-- `Value::integer`: the argument is an `i64`.
unfoldable pub integer : ℤ → Value
integer (pos n) = unsigned (as_u64 (pos n))
integer (negsuc n) = negative (negsuc n)

unfoldable pub bool_value : Bool → Value
bool_value b = if b then simple true_value else simple false_value

abbrev pub type_label : Value → ℕ
type_label (unsigned n) = 0
type_label (negative z) = 1
type_label (byte_string bs) = 2
type_label (text_string bs) = 3
type_label (array vs) = 4
type_label (map es) = 5
type_label (tag t v) = 6
type_label (simple s) = 7

-- `simple_value as u64`
abbrev pub discriminant : SimpleValue → ℕ
discriminant false_value = 20
discriminant true_value = 21
discriminant null_value = 22
discriminant undefined = 23

-- `SimpleValue::from_integer`
unfoldable pub from_integer : ℕ → Option SimpleValue
from_integer n =
    if n == 20
    then some false_value
    else if n == 21
    then some true_value
    else if n == 22
    then some null_value
    else if n == 23
    then some undefined
    else none

-- `Vec::len` of the two kinds of children.
abbrev pub count_values : Values → ℕ
count_values no_values = 0
count_values (value v vs) = suc (count_values vs)

abbrev pub count_entries : Entries → ℕ
count_entries no_entries = 0
count_entries (entry k v es) = suc (count_entries es)
