-- ===== src/Value/Convert.antt =====
-- The impls of `From` for `Value` and of `IntoCborValue` in value/src/values.rs, and the macros of
-- value/src/macros.rs that build values: those for maps, for arrays and for one value.
use oasis_cbor.Prelude.{ℕ, ℤ, Bool, Option, none, some, List, [], ◌∷◌}
use oasis_cbor.Value.{
  Value, Values, Entries, unsigned, byte_string, text_string, array, map, no_values, value,
  no_entries, entry, tag, simple, true_value, false_value, null_value, undefined, integer,
  bool_value,
}

-- The types that a `Value` is made from: those with an impl of `From`.
pub data Source : Type 0 where
  from_u64 : ℕ → Source
  from_i64 from_i32 : ℤ → Source
  from_bytes from_text : List ℕ → Source
  from_values : Values → Source
  from_entries : Entries → Source
  from_bool : Bool → Source

-- `Value::from`, which `into_cbor_value` is.
unfoldable pub from : Source → Value
from (from_u64 n) = unsigned n
from (from_i64 z) = integer z
from (from_i32 z) = integer z
from (from_bytes bs) = byte_string bs
from (from_text bs) = text_string bs
from (from_values vs) = array vs
from (from_entries es) = map es
from (from_bool b) = bool_value b

-- What a macro may be given as a value: a type with an impl of `From`, or an option of one.
pub data OptionalSource : Type 0 where
  present : Source → OptionalSource
  optional : Option Source → OptionalSource

unfoldable pub into_cbor_value_option : OptionalSource → Option Value
into_cbor_value_option (present s) = some (from s)
into_cbor_value_option (optional none) = none
into_cbor_value_option (optional (some s)) = some (from s)

-- The entries that `cbor_map!` and `cbor_map_options!` push.
unfoldable pub pushed : List (Source × Source) → Entries
pushed [] = no_entries
pushed ((k, v) ∷ rest) = entry (from k) (from v) (pushed rest)

unfoldable pub pushed_options : List (Source × OptionalSource) → Entries
pushed_options [] = no_entries
pushed_options ((k, v) ∷ rest) =
    let later = pushed_options rest in
    elim (into_cbor_value_option v) [ none ↦ later | some val ↦ entry (from k) val later ]

unfoldable pub cbor_map : List (Source × Source) → Value
cbor_map pairs = map (pushed pairs)

unfoldable pub cbor_map_options : List (Source × OptionalSource) → Value
cbor_map_options pairs = map (pushed_options pairs)

-- `cbor_array!` and `cbor_array_vec!`
unfoldable pub items : List Source → Values
items [] = no_values
items (s ∷ rest) = value (from s) (items rest)

unfoldable pub cbor_array : List Source → Value
cbor_array sources = array (items sources)

-- The macros for one value each.
abbrev pub cbor_true : Value
cbor_true = simple true_value

abbrev pub cbor_false : Value
cbor_false = simple false_value

abbrev pub cbor_null : Value
cbor_null = simple null_value

abbrev pub cbor_undefined : Value
cbor_undefined = simple undefined

abbrev pub cbor_bool : Bool → Value
cbor_bool x = bool_value x

abbrev pub cbor_unsigned : ℕ → Value
cbor_unsigned x = unsigned x

abbrev pub cbor_int : ℤ → Value
cbor_int x = integer x

abbrev pub cbor_text : List ℕ → Value
cbor_text x = text_string x

-- `cbor_bytes!` and `cbor_bytes_lit!`
abbrev pub cbor_bytes : List ℕ → Value
cbor_bytes x = byte_string x

abbrev pub cbor_tagged : ℕ → Value → Value
cbor_tagged t x = tag t x
