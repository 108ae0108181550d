-- ===== src/Derive/Bytes.antt =====
-- A derived struct in the form of a map through src/lib.rs: `to_vec`, then `from_slice`.
use oasis_cbor.Prelude.{
  Ordering-cases, ℕ, suc, ◌≤◌, ◌≡◌, refl, sym, ap, ◌∙◌, Bool, false, some, List, then_with, inl,
  inr, Bool-cases, arith,
}
use mathlib.Core.Option.{some-injective}
use oasis_cbor.Value.{Value, Entries, map, no_entries, entry, count_entries}
use oasis_cbor.Value.Order.{cmp}
use oasis_cbor.Encoding.Head.{IsU64}
use oasis_cbor.Encoding.Canonical.{depth, IsCanonical}
use oasis_cbor.Encoding.Normal.{normalize, normalize_entries}
use oasis_cbor.Encode.{Encode, Tuple}
use oasis_cbor.Decode.{Decode, ok, try_from_cbor_value_default}
use oasis_cbor.Codable.{default-is_null}
use oasis_cbor.Api.{to_vec, from_slice, from_slice-to_vec-normalize}
use oasis_cbor.Derive.Declaration.{Fields, Attributes, validate, count, named_style}
use oasis_cbor.Derive.Encoder.{encode_form, encode_as, encode_map, encode_struct}
use oasis_cbor.Derive.Decoder.{struct_from_value, decode_form, decode_as, decode_struct}
use oasis_cbor.Derive.Decoder.Sorting.{insert_entry, sort_entries, sort_fields}
use oasis_cbor.Derive.Arranged.{
  HasCanonicalKey, HaveCanonicalKeys, AreDistinct, sort_fields-AllFields, sort_fields-AreIncreasing,
}
use oasis_cbor.Derive.Pushed.{
  AllValues, pushed_entries, push_entries-pushed_entries, sort_fields-field_pushed,
}
use oasis_cbor.Derive.RoundTrip.{KeepsAfter, struct_from_value-pushed_entries}
use oasis_cbor.Derive.Normal.{
  HasCanonicalValue, normalize_entries-pushed_entries, sort_entries-IsSorted,
  pushed_entries-IsSorted, pushed_entries-HaveCanonical, count_entries-pushed_entries,
}

count_entries-insert_entry :
    (k v : Value) (es : Entries) → count_entries (insert_entry k v es) ≡ suc (count_entries es)
unfolding insert_entry
count_entries-insert_entry k v no_entries = refl
count_entries-insert_entry k v (entry l w es) =
    let later = count_entries-insert_entry k v es in
    elim (Ordering-cases (then_with (cmp k l) (cmp v w))) [
      | inl e ↦ rw (e, insert_entry) refl
      | inr (inl e) ↦ rw (e, insert_entry) refl
      | inr (inr e) ↦ rw (e, insert_entry) (ap suc later)
    ]

count_entries-sort_entries : (es : Entries) → count_entries (sort_entries es) ≡ count_entries es
unfolding sort_entries
count_entries-sort_entries no_entries = refl
count_entries-sort_entries (entry k v es) =
    count_entries-insert_entry k v (sort_entries es) ∙ ap suc (count_entries-sort_entries es)

module _ (types : List (Type 0)) (fs : Fields types) (a : Tuple types)
    (keys : HaveCanonicalKeys types fs) (distinct : AreDistinct types fs) where
  abbrev written : Entries
  written = sort_entries (pushed_entries normalize types fs a)

  normalize-encode_map : normalize ((encode_map types fs).into_cbor_value a) ≡ map written
  unfolding normalize
  normalize-encode_map = ap map (
      ap normalize_entries (push_entries-pushed_entries types fs a)
      ∙ normalize_entries-pushed_entries types fs a keys distinct)

  written-IsCanonical :
      IsU64 (count types) → AllValues HasCanonicalValue types fs a → IsCanonical (map written)
  unfolding IsCanonical
  written-IsCanonical few values =
      let (b, _, entries, h) =
        sort_fields-field_pushed normalize HasCanonicalValue types fs a keys distinct values in
      let bound = count_entries-pushed_entries normalize types fs a in
      let same = count_entries-sort_entries (pushed_entries normalize types fs a) in
      (
        omega arith,
        rw (← entries) (
            pushed_entries-IsSorted normalize (sort_fields types fs).types
              (sort_fields types fs).fields b (sort_fields-AreIncreasing types fs keys distinct)),
        rw (← entries) (
            pushed_entries-HaveCanonical (sort_fields types fs).types (sort_fields types fs).fields
              b (sort_fields-AllFields HasCanonicalKey types fs keys) h),
      )

  struct_from_value-written :
      (allow_unknown : Bool)
      → IsU64 (count types)
      → AllValues HasCanonicalValue types fs a
      → AllValues (KeepsAfter normalize) types fs a
      → struct_from_value types fs allow_unknown (map written) ≡ ok a
  unfolding struct_from_value IsCanonical
  struct_from_value-written allow_unknown few values keeps =
      rw (sort_entries-IsSorted written ((written-IsCanonical few values).1))
        (struct_from_value-pushed_entries normalize types fs a allow_unknown keys distinct keeps)

-- A value of a derived struct with named fields is encoded by `to_vec` without a panic, and
-- `from_slice` decodes the bytes to it: if the struct derives both impls and is neither transparent
-- nor an array, its fields are fewer than 2^64 and have distinct, canonical keys, what they push is
-- canonical once its maps are sorted, they keep their values through that sorting, and the whole is
-- nested at most 64 deep.
pub from_slice-encode_struct :
    (attributes : Attributes) (types : List (Type 0)) (fs : Fields types) (default a : Tuple types)
    (e : Encode (Tuple types)) (d : Decode (Tuple types))
    → attributes.transparent ≡ false
    → attributes.as_array ≡ false
    → HaveCanonicalKeys types fs
    → AreDistinct types fs
    → IsU64 (count types)
    → AllValues HasCanonicalValue types fs a
    → AllValues (KeepsAfter normalize) types fs a
    → depth (e.into_cbor_value a) ≤ 64
    → encode_struct named_style attributes types fs ≡ some e
    → decode_struct named_style attributes types fs default ≡ some d
    → (cbor : List ℕ) × (to_vec e a ≡ ok cbor) × (from_slice d cbor ≡ ok a)
unfolding encode_struct encode_form encode_as decode_struct decode_form decode_as
from_slice-encode_struct attributes types fs default a e d t arr keys distinct few values keeps
      shallow he hd =
    elim (Bool-cases (validate attributes)) [
      | inl b ↦
          let encoder = some-injective (encode_map types fs) e (rw (b, t, arr) at he) in
          let decoder = some-injective _ d (rw (b, t, arr) at hd) in
          let normal =
            ap (λ x. normalize (x.into_cbor_value a)) (sym encoder)
            ∙ normalize-encode_map types fs a keys distinct in
          let (cbor, encoded, decoded) =
            from_slice-to_vec-normalize e d a
              (rw normal (written-IsCanonical types fs a keys distinct few values)) shallow in
          (
            cbor,
            encoded,
            decoded
                ∙ ap (try_from_cbor_value_default d) normal
                ∙ default-is_null d (map (written types fs a keys distinct)) refl
                ∙ ap (λ x. x.try_from_cbor_value (map (written types fs a keys distinct)))
                    (sym decoder)
                ∙ struct_from_value-written types fs a keys distinct attributes.allow_unknown few
                    values keeps,
          )
      | inr b ↦ let none_encoded = rw b at he in cc
    ]
