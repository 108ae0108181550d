-- ===== src/Encode.antt =====
-- src/encode.rs: how Rust values become CBOR values. An `Encode T` is the `impl Encode for T`; the
-- impls for references only pass on to the type behind them, and are that type's.
use oasis_cbor.Prelude.{
  ℕ, zero, suc, ℤ, pos, negsuc, ◌/◌, ◌^◌, Bool, true, false, not, ◌&&◌, Option, none, some, List,
  [], ◌∷◌, ltb, ◌==◌, if◌then◌else◌, drop,
}
use oasis_cbor.Value.{
  Value, Values, Entries, unsigned, byte_string, text_string, array, map, simple, no_values, value,
  no_entries, entry, null_value, true_value, false_value, undefined, integer,
}
use oasis_cbor.Encoding.Bytes.{big_endian}

pub record Encode {ℓ} (A : Type ℓ) : Type ℓ where
  pub is_empty : A → Bool
  pub into_cbor_value : A → Value
  pub into_optional_cbor_value : A → Option Value

-- The trait's own `into_optional_cbor_value`, for an impl of the two other methods.
abbrev pub optional_by {ℓ} : {A : Type ℓ} → (A → Bool) → (A → Value) → A → Option Value
optional_by is_empty into_cbor_value a = if is_empty a then none else some (into_cbor_value a)

abbrev pub encode_by {ℓ} : {A : Type ℓ} → (A → Bool) → (A → Value) → Encode A
encode_by is_empty into_cbor_value = record {
  is_empty = is_empty;
  into_cbor_value = into_cbor_value;
  into_optional_cbor_value = optional_by is_empty into_cbor_value;
}

-- `EncodeAsMap::into_cbor_map`
unfoldable pub into_cbor_map {ℓ} : {A : Type ℓ} → Encode A → A → Entries
into_cbor_map e a = elim (e.into_cbor_value a) [ map es ↦ es | _ ↦ no_entries ]

-- `EncodeAsMap::into_cbor_value_map`
abbrev pub into_cbor_value_map {ℓ} : {A : Type ℓ} → Encode A → A → Value
into_cbor_value_map e a = e.into_cbor_value a

abbrev pub list_is_empty {ℓ} : {A : Type ℓ} → List A → Bool
list_is_empty [] = true
list_is_empty (x ∷ xs) = false

-- `into_iter().map(…).collect()` into the items of an array or a map.
unfoldable pub collect_values {ℓ} : {A : Type ℓ} → Encode A → List A → Values
collect_values e [] = no_values
collect_values e (a ∷ rest) = value (e.into_cbor_value a) (collect_values e rest)

unfoldable pub collect_entries {ℓ κ} :
    {K : Type ℓ} {V : Type κ} → Encode K → Encode V → List (K × V) → Entries
collect_entries ek ev [] = no_entries
collect_entries ek ev ((k, v) ∷ rest) =
    entry (ek.into_cbor_value k) (ev.into_cbor_value v) (collect_entries ek ev rest)

-- `impl_uint!`: the unsigned types up to `u64`.
abbrev pub encode_uint : Encode ℕ
encode_uint = encode_by (λ n. n == 0) unsigned

abbrev pub is_zero : ℤ → Bool
is_zero (pos n) = n == 0
is_zero (negsuc n) = false

-- `impl_int!`: the signed types up to `i64`.
abbrev pub encode_int : Encode ℤ
encode_int = encode_by is_zero integer

-- The zero bits above the highest one, of `bits` bits.
unfoldable pub leading_zeros : ℕ → ℕ → ℕ
leading_zeros zero n = 0
leading_zeros (suc bits) n =
    let more = leading_zeros bits n in if ltb n (2 ^ bits) then suc more else 0

-- `self.to_be_bytes()[self.leading_zeros() as usize / 8..].to_vec()`
unfoldable pub u128_bytes : ℕ → List ℕ
u128_bytes n = drop (leading_zeros 128 n / 8) (big_endian 16 n)

abbrev pub encode_u128 : Encode ℕ
encode_u128 = encode_by (λ n. n == 0) (λ n. byte_string (u128_bytes n))

abbrev pub encode_bool : Encode Bool
encode_bool = encode_by not (λ b. if b then simple true_value else simple false_value)

-- `String` and `&str`.
abbrev pub encode_string : Encode (List ℕ)
encode_string = encode_by list_is_empty text_string

-- A `char` is its code point.
abbrev pub encode_char : Encode ℕ
encode_char = encode_by (λ c. c == 0) unsigned

abbrev pub encode_vec {ℓ} : {A : Type ℓ} → Encode A → Encode (List A)
encode_vec e = encode_by list_is_empty (λ items. array (collect_values e items))

-- `BTreeSet<T>` and `HashSet<T>`, by their iteration.
abbrev pub encode_btree_set {ℓ} : {A : Type ℓ} → Encode A → Encode (List A)
encode_btree_set e = encode_by list_is_empty (λ items. array (collect_values e items))

abbrev pub encode_hash_set {ℓ} : {A : Type ℓ} → Encode A → Encode (List A)
encode_hash_set e = encode_by list_is_empty (λ items. array (collect_values e items))

abbrev pub encode_bytes : Encode (List ℕ)
encode_bytes = encode_by list_is_empty byte_string

-- `[T; N]` and `[u8; N]` keep the trait's `is_empty`.
abbrev pub encode_fixed {ℓ} : {A : Type ℓ} → Encode A → Encode (List A)
encode_fixed e = encode_by (λ _. false) (λ items. array (collect_values e items))

abbrev pub encode_fixed_bytes : Encode (List ℕ)
encode_fixed_bytes = encode_by (λ _. false) byte_string

abbrev pub is_none {ℓ} : {A : Type ℓ} → Option A → Bool
is_none none = true
is_none (some a) = false

abbrev pub encode_some {ℓ} : {A : Type ℓ} → Encode A → Option A → Value
encode_some e none = simple null_value
encode_some e (some a) = e.into_cbor_value a

abbrev pub encode_option {ℓ} : {A : Type ℓ} → Encode A → Encode (Option A)
encode_option e = encode_by is_none (encode_some e)

abbrev pub is_null : Value → Bool
is_null (simple null_value) = true
is_null (simple undefined) = true
is_null _ = false

abbrev pub encode_value : Encode Value
encode_value = encode_by is_null (λ v. v)

-- `BTreeMap<K, V>`, by its iteration.
abbrev pub encode_map {ℓ κ} :
    {K : Type ℓ} {V : Type κ} → Encode K → Encode V → Encode (List (K × V))
encode_map ek ev = encode_by list_is_empty (λ items. map (collect_entries ek ev items))

abbrev pub encode_hash_map {ℓ κ} :
    {K : Type ℓ} {V : Type κ} → Encode K → Encode V → Encode (List (K × V))
encode_hash_map ek ev = encode_by list_is_empty (λ items. map (collect_entries ek ev items))

-- `Box<T>`: the trait's own `into_optional_cbor_value` on the methods of `T`.
abbrev pub encode_box {ℓ} : {A : Type ℓ} → Encode A → Encode A
encode_box e = encode_by e.is_empty e.into_cbor_value

abbrev pub encode_unit : Encode (Unit {0})
encode_unit = encode_by (λ _. true) (λ _. simple null_value)

-- A tuple of any arity: its types, and an impl for each.
abbrev pub Tuple : List (Type 0) → Type 0
Tuple [] = Unit {0}
Tuple (A ∷ types) = A × Tuple types

abbrev pub Encoders : List (Type 0) → Type 0
Encoders [] = Unit {0}
Encoders (A ∷ types) = Encode A × Encoders types

unfoldable pub push_all : (types : List (Type 0)) → Encoders types → Tuple types → Values
push_all [] es a = no_values
push_all (A ∷ types) es a = value (es.0.into_cbor_value a.0) (push_all types es.1 a.1)

-- `Tuple.is_empty() & …`
unfoldable pub all_empty : (types : List (Type 0)) → Encoders types → Tuple types → Bool
all_empty [] es a = true
all_empty (A ∷ types) es a = es.0.is_empty a.0 && all_empty types es.1 a.1

abbrev pub encode_tuple : (types : List (Type 0)) → Encoders types → Encode (Tuple types)
encode_tuple types es = encode_by (all_empty types es) (λ a. array (push_all types es a))
