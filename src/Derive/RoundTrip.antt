-- ===== src/Derive/RoundTrip.antt =====
-- The derived impls of a struct together: derive/src/encode.rs, then derive/src/decode.rs.
use oasis_cbor.Prelude.{
  ◌≡◌, refl, ap, ◌∙◌, Bool, true, false, Option, none, some, List, [], ◌∷◌, Ordering,
  reverse_ordering,
}
use oasis_cbor.Value.{map, Value, Entries, no_values, value, no_entries, entry}
use oasis_cbor.Value.Order.{cmp}
use oasis_cbor.Encoding.Canonical.{IsCanonical}
use oasis_cbor.Encoding.Total.{cmp_refl, cmp_flip}
use oasis_cbor.Encode.{Tuple}
use oasis_cbor.Decode.{ok}
use oasis_cbor.Macros.{peek_value_strict}
use oasis_cbor.Derive.Declaration.{Field, Fields, field_key}
use oasis_cbor.Derive.Encoder.{
  field_value, optional_value, push_some, push_values, encode_map, encode_array,
}
use oasis_cbor.Derive.Decoder.{
  decode_field, decode_items, decode_entries, value_or_null, all_values_taken, all_entries_taken,
  array_from_value, struct_from_value,
}
use oasis_cbor.Derive.Decoder.Sorting.{sort_fields}
use oasis_cbor.Derive.Arranged.{
  AllFields, HasCanonicalKey, HaveCanonicalKeys, IsAfter, AreIncreasing, AreDistinct,
  sort_fields-AllFields, sort_fields-AreIncreasing,
}
use oasis_cbor.Derive.Pushed.{
  AllValues, post_option, field_pushed, field_pushed_skipped, field_pushed_kept, pushed_entries,
  push_entries-pushed_entries, sort_fields-field_pushed,
}

-- A field keeps its value: a skipped one has the default, and any other is decoded from what becomes
-- of what it pushes, or from null where it pushes nothing.
abbrev pub KeepsUnless : {A : Type 0} → Bool → (Value → Value) → Field A → A → Type 0
KeepsUnless true post f a = f.default ≡ a
KeepsUnless false post f a =
    decode_field f (value_or_null (post_option post (optional_value f a))) ≡ ok a

abbrev pub KeepsAfter : (Value → Value) → (A : Type 0) → Field A → A → Type 0
KeepsAfter post A f a = KeepsUnless f.skip post f a

-- Of what it pushes itself.
abbrev pub Keeps : (A : Type 0) → Field A → A → Type 0
Keeps = KeepsAfter (λ v. v)

-- The first key is past `k`.
abbrev IsPast : Value → Entries → Type 0
IsPast k no_entries = Unit {0}
IsPast k (entry l w es) = cmp l k ≡ Ordering.gt

push_some-IsPast :
    (k l : Value) (o : Option Value) (es : Entries)
    → cmp l k ≡ Ordering.gt
    → IsPast k es
    → IsPast k (push_some l o es)
push_some-IsPast k l none es h past = past
push_some-IsPast k l (some v) es h past = h

pushed_entries-IsPast :
    (post : Value → Value) (k : Value) (types : List (Type 0)) (fs : Fields types) (a : Tuple types)
    → IsCanonical k
    → HaveCanonicalKeys types fs
    → AllFields (IsAfter k) types fs
    → IsPast k (pushed_entries post types fs a)
unfolding pushed_entries
pushed_entries-IsPast post k [] fs a ck c h = tt
pushed_entries-IsPast post k (A ∷ types) fs a ck c h =
    push_some-IsPast k (field_key fs.0) (field_pushed post fs.0 a.0)
      (pushed_entries post types fs.1 a.1)
      (cmp_flip k (field_key fs.0) ck c.0 ∙ ap reverse_ordering h.0)
      (pushed_entries-IsPast post k types fs.1 a.1 ck c.1 h.1)

peek_value_strict-push_some :
    (k : Value) (o : Option Value) (es : Entries)
    → IsCanonical k
    → IsPast k es
    → peek_value_strict k (push_some k o es) ≡ ok (o, es)
unfolding peek_value_strict
peek_value_strict-push_some k none no_entries ck past = refl
peek_value_strict-push_some k none (entry l w es) ck past = rw (past, peek_value_strict) refl
peek_value_strict-push_some k (some v) es ck past = rw (cmp_refl k ck, peek_value_strict) refl

-- The entries of a value whose fields are sorted are decoded to it, with nothing left.
decode_entries-pushed_entries :
    (post : Value → Value) (types : List (Type 0)) (fs : Fields types) (a : Tuple types)
    → HaveCanonicalKeys types fs
    → AreIncreasing types fs
    → AllValues (KeepsAfter post) types fs a
    → decode_entries types fs (pushed_entries post types fs a) ≡ ok (a, no_entries)
unfolding decode_entries pushed_entries
decode_entries-pushed_entries post [] fs a c inc h = refl
decode_entries-pushed_entries post (A ∷ types) fs a c inc h =
    let rest = decode_entries-pushed_entries post types fs.1 a.1 c.1 inc.1 h.1 in
    let past = pushed_entries-IsPast post (field_key fs.0) types fs.1 a.1 c.0 c.1 inc.0 in
    go fs.0.skip refl h.0 rest past
  where
    go :
        (b : Bool)
        → fs.0.skip ≡ b
        → KeepsUnless b post fs.0 a.0
        → decode_entries types fs.1 (pushed_entries post types fs.1 a.1) ≡ ok (a.1, no_entries)
        → IsPast (field_key fs.0) (pushed_entries post types fs.1 a.1)
        → decode_entries (A ∷ types) fs (
            push_some
              (field_key fs.0)
              (field_pushed post fs.0 a.0)
              (pushed_entries post types fs.1 a.1))
          ≡ ok (a, no_entries)
    go true e k rest past =
        rw (field_pushed_skipped post fs.0 a.0 e) (rw (e, decode_entries) (rw (rest, k) refl))
    go false e k rest past = rw (field_pushed_kept post fs.0 a.0 e) (
        rw (e, decode_entries)
          (rw
            (peek_value_strict-push_some (field_key fs.0)
              (post_option post (optional_value fs.0 a.0)) _ c.0 past)
            (rw (k, rest) refl)))

-- A struct is decoded from the map of its entries, whatever becomes of their values, if the fields
-- keep their values through that.
pub struct_from_value-pushed_entries :
    (post : Value → Value) (types : List (Type 0)) (fs : Fields types) (a : Tuple types)
    (allow_unknown : Bool)
    → HaveCanonicalKeys types fs
    → AreDistinct types fs
    → AllValues (KeepsAfter post) types fs a
    → struct_from_value types fs allow_unknown (map (pushed_entries post types fs a)) ≡ ok a
unfolding struct_from_value
struct_from_value-pushed_entries post types fs a allow_unknown c apart h =
    let (b, same, entries, keeps) =
      sort_fields-field_pushed post (KeepsAfter post) types fs a c apart h in
    let decoded =
      decode_entries-pushed_entries post (sort_fields types fs).types (sort_fields types fs).fields
        b (sort_fields-AllFields HasCanonicalKey types fs c)
        (sort_fields-AreIncreasing types fs c apart) keeps in
    rw (← entries) (rw decoded (rw (taken allow_unknown b) (ap ok same)))
  where
    taken :
        (allow_unknown : Bool) (b : Tuple (sort_fields types fs).types)
        → all_entries_taken allow_unknown (b, no_entries) ≡ ok b
    taken true b = refl
    taken false b = refl

-- A struct in the form of a map, whose fields have distinct keys and keep their values, is decoded
-- from the map that it is encoded as, in whatever order its fields are declared, and with unknown
-- fields allowed or not.
pub struct_from_value-encode_map :
    (types : List (Type 0)) (fs : Fields types) (a : Tuple types) (allow_unknown : Bool)
    → HaveCanonicalKeys types fs
    → AreDistinct types fs
    → AllValues Keeps types fs a
    → struct_from_value types fs allow_unknown ((encode_map types fs).into_cbor_value a) ≡ ok a
struct_from_value-encode_map types fs a allow_unknown c apart h =
    rw (push_entries-pushed_entries types fs a)
      (struct_from_value-pushed_entries (λ v. v) types fs a allow_unknown c apart h)

-- A field of an array keeps its value: a skipped one has the default, and any other is decoded from
-- what it is encoded as.
abbrev pub KeepsItemUnless : {A : Type 0} → Bool → Field A → A → Type 0
KeepsItemUnless true f a = f.default ≡ a
KeepsItemUnless false f a = decode_field f (field_value f a) ≡ ok a

abbrev pub KeepsItem : (A : Type 0) → Field A → A → Type 0
KeepsItem A f a = KeepsItemUnless f.skip f a

push_values_kept :
    (A : Type 0) (types : List (Type 0)) (fs : Fields (A ∷ types)) (a : Tuple (A ∷ types))
    → fs.0.skip ≡ false
    → push_values (A ∷ types) fs a ≡ value (field_value fs.0 a.0) (push_values types fs.1 a.1)
unfolding push_values
push_values_kept A types fs a e = rw e refl

push_values_skipped :
    (A : Type 0) (types : List (Type 0)) (fs : Fields (A ∷ types)) (a : Tuple (A ∷ types))
    → fs.0.skip ≡ true
    → push_values (A ∷ types) fs a ≡ push_values types fs.1 a.1
unfolding push_values
push_values_skipped A types fs a e = rw e refl

decode_items-push_values :
    (types : List (Type 0)) (fs : Fields types) (a : Tuple types)
    → AllValues KeepsItem types fs a
    → decode_items types fs (push_values types fs a) ≡ ok (a, no_values)
unfolding decode_items
decode_items-push_values [] fs a h = unfold push_values in refl
decode_items-push_values (A ∷ types) fs a h =
    go fs.0.skip refl h.0 (decode_items-push_values types fs.1 a.1 h.1)
  where
    go :
        (b : Bool)
        → fs.0.skip ≡ b
        → KeepsItemUnless b fs.0 a.0
        → decode_items types fs.1 (push_values types fs.1 a.1) ≡ ok (a.1, no_values)
        → decode_items (A ∷ types) fs (push_values (A ∷ types) fs a) ≡ ok (a, no_values)
    go true e k rest =
        rw (push_values_skipped A types fs a e) (rw (e, decode_items) (rw (rest, k) refl))
    go false e k rest =
        rw (push_values_kept A types fs a e) (rw (e, decode_items) (rw (k, rest) refl))

-- A struct in the form of an array, whose fields keep their values, is decoded from the array that
-- it is encoded as.
pub array_from_value-encode_array :
    (types : List (Type 0)) (fs : Fields types) (a : Tuple types) (allow_unknown : Bool)
    → AllValues KeepsItem types fs a
    → array_from_value types fs allow_unknown ((encode_array types fs).into_cbor_value a) ≡ ok a
unfolding array_from_value
array_from_value-encode_array types fs a allow_unknown h =
    rw (decode_items-push_values types fs a h) (taken allow_unknown)
  where
    taken : (allow_unknown : Bool) → all_values_taken allow_unknown (a, no_values) ≡ ok a
    taken true = refl
    taken false = refl
