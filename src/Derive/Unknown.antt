-- ===== src/Derive/Unknown.antt =====
-- The unknown fields of a derived struct in derive/src/decode.rs.
pub mod Known
use oasis_cbor.Prelude.{
  Ordering-cases, ◌≡◌, ◌⊎◌, inl, inr, refl, ap, subst, ◌∙◌, Bool, true, false, Option, List, [],
  ◌∷◌, Ordering, then_with,
}
use oasis_cbor.Value.{
  Value, Entries, unsigned, negative, byte_string, text_string, array, map, tag, simple, no_entries,
  entry,
}
use oasis_cbor.Value.Order.{cmp}
use oasis_cbor.Encode.{Tuple}
use oasis_cbor.Decode.{ok, err, ◌>>=◌, unknown_field}
use oasis_cbor.Decode.Outcome.{bind-ok}
use oasis_cbor.Macros.{peek_value_strict}
use oasis_cbor.Derive.Declaration.{Field, Fields, field_key}
use oasis_cbor.Derive.Decoder.{
  decode_field, decode_entries, value_or_null, all_entries_taken, struct_from_value,
}
use oasis_cbor.Derive.Decoder.Sorting.{insert_entry, sort_entries, insert_field, sort_fields}
use oasis_cbor.Derive.Arranged.{AllFields, IsAfter, sort_fields-AllFields}
use oasis_cbor.Derive.Unknown.Known.{
  IsKnown, AllKnown, AllKnown-cons, sort_entries-AllKnown, sort_fields-AllKnown,
}

-- After a field is taken off, what was there is known if the rest is.
peek_value_strict-AllKnown :
    (A : Type 0) (types : List (Type 0)) (fs : Fields (A ∷ types)) (es : Entries)
    (found : Option Value) (others : Entries)
    → peek_value_strict (field_key fs.0) es ≡ ok (found, others)
    → AllKnown types fs.1 others
    → AllKnown (A ∷ types) fs es
unfolding peek_value_strict
peek_value_strict-AllKnown A types fs no_entries found others e h = tt
peek_value_strict-AllKnown A types fs (entry k v es) found others e h =
    elim (Ordering-cases (cmp k (field_key fs.0))) [
      | inl o ↦ (let same = rw (o, peek_value_strict) at e in cc)
      | inr (inl o) ↦
          let same = rw (o, peek_value_strict) at e in
          let taken : others ≡ es = cc in
          (inl o, AllKnown-cons A types fs es (subst (AllKnown types fs.1) taken h))
      | inr (inr o) ↦
          let same = rw (o, peek_value_strict) at e in
          let kept : others ≡ entry k v es = cc in
          AllKnown-cons A types fs (entry k v es) (subst (AllKnown types fs.1) kept h)
    ]

decode_entries-AllKnown :
    (types : List (Type 0)) (fs : Fields types) (es : Entries) (a : Tuple types)
    → decode_entries types fs es ≡ ok (a, no_entries)
    → AllKnown types fs es
unfolding decode_entries
decode_entries-AllKnown [] fs no_entries a h = tt
decode_entries-AllKnown [] fs (entry k v es) a h = cc
decode_entries-AllKnown (A ∷ types) fs es a h =
    go fs.0.skip refl (λ es a. decode_entries-AllKnown types fs.1 es a)
  where
    go :
        (b : Bool)
        → fs.0.skip ≡ b
        → ((es : Entries) (a : Tuple types)
            → decode_entries types fs.1 es ≡ ok (a, no_entries)
            → AllKnown types fs.1 es)
        → AllKnown (A ∷ types) fs es
    go true e later =
        let ((rest, left), first, second) =
          bind-ok (decode_entries types fs.1 es) _ _ (rw (e, decode_entries) at h) in
        let none_left : left ≡ no_entries = cc in
        AllKnown-cons A types fs es (later es rest (first ∙ ap (λ l. ok (rest, l)) none_left))
    go false e later =
        let ((found, others), peeked, then_decoded) =
          bind-ok (peek_value_strict (field_key fs.0) es) _ _ (rw (e, decode_entries) at h) in
        let (first, _, then_rest) =
          bind-ok (decode_field fs.0 (value_or_null found)) _ _ then_decoded in
        let ((rest, left), decoded, returned) =
          bind-ok (decode_entries types fs.1 others) _ _ then_rest in
        let none_left : left ≡ no_entries = cc in
        peek_value_strict-AllKnown A types fs es found others peeked
          (later others rest (decoded ∙ ap (λ l. ok (rest, l)) none_left))

all_entries_taken-ok :
    {A : Type 0} (a b : A) (left : Entries)
    → all_entries_taken false (a, left) ≡ ok b
    → left ≡ no_entries
all_entries_taken-ok a b no_entries h = refl
all_entries_taken-ok a b (entry k v left) h = cc

-- Without `allow_unknown`, a struct in the form of a map is decoded from nothing but a map, and every
-- key of that map is the key of one of its fields.
pub struct_from_value-AllKnown :
    (types : List (Type 0)) (fs : Fields types) (v : Value) (a : Tuple types)
    → struct_from_value types fs false v ≡ ok a
    → (es : Entries) × (v ≡ map es) × AllKnown types fs es
unfolding struct_from_value
struct_from_value-AllKnown types fs (map es) a h =
    let (b, taken, _) =
      bind-ok
        (decode_entries (sort_fields types fs).types (sort_fields types fs).fields (sort_entries es)
          >>= all_entries_taken false)
        _ a h in
    let ((c, left), decoded, all) =
      bind-ok
        (decode_entries (sort_fields types fs).types (sort_fields types fs).fields
          (sort_entries es))
        _ b taken in
    let none_left = all_entries_taken-ok c b left all in
    (
      es,
      refl,
      sort_entries-AllKnown types fs es (
          sort_fields-AllKnown types fs (sort_entries es) (
            decode_entries-AllKnown (sort_fields types fs).types (sort_fields types fs).fields
              (sort_entries es) c (decoded ∙ ap (λ l. ok (c, l)) none_left))),
    )
struct_from_value-AllKnown types fs (unsigned n) a h = cc
struct_from_value-AllKnown types fs (negative z) a h = cc
struct_from_value-AllKnown types fs (byte_string bs) a h = cc
struct_from_value-AllKnown types fs (text_string bs) a h = cc
struct_from_value-AllKnown types fs (array vs) a h = cc
struct_from_value-AllKnown types fs (tag t v) a h = cc
struct_from_value-AllKnown types fs (simple s) a h = cc

-- A field that is decoded, with a key above `k`.
abbrev pub IsRead : Value → (A : Type 0) → Field A → Type 0
IsRead k A f = (f.skip ≡ false) × IsAfter k A f

decode_entries-unknown_field :
    (A : Type 0) (types : List (Type 0)) (fs : Fields (A ∷ types)) (k v : Value) (es : Entries)
    → IsRead k A fs.0
    → decode_entries (A ∷ types) fs (entry k v es) ≡ err unknown_field
unfolding decode_entries peek_value_strict
decode_entries-unknown_field A types fs k v es (kept, below) =
    rw (kept, decode_entries) (rw (below, peek_value_strict) refl)

insert_field-unknown_field :
    {A : Type 0} (f : Field A) (types : List (Type 0)) (fs : Fields types) (k v : Value)
    (es : Entries)
    → IsRead k A f
    → AllFields (IsRead k) types fs
    → decode_entries (insert_field f types fs).types (insert_field f types fs).fields (entry k v es)
      ≡ err unknown_field
unfolding insert_field
insert_field-unknown_field {A} f [] fs k v es h hs =
    decode_entries-unknown_field A [] (f, fs) k v es h
insert_field-unknown_field {A} f (B ∷ types) fs k v es h hs =
    elim (Ordering-cases (cmp (field_key f) (field_key fs.0))) [
      | inl o ↦ rw (o, insert_field) (decode_entries-unknown_field A (B ∷ types) (f, fs) k v es h)
      | inr (inl o) ↦
          rw (o, insert_field) (decode_entries-unknown_field A (B ∷ types) (f, fs) k v es h)
      | inr (inr o) ↦ rw (o, insert_field) (decode_entries-unknown_field B _ _ k v es hs.0)
    ]

-- For a struct in the form of a map with at least one field, and none of its fields skipped: a map
-- whose one key is below the keys of all fields is an error for an unknown field, with unknown fields
-- allowed too.
pub struct_from_value-unknown_field :
    (A : Type 0) (types : List (Type 0)) (fs : Fields (A ∷ types)) (allow_unknown : Bool)
    (k v : Value)
    → AllFields (IsRead k) (A ∷ types) fs
    → struct_from_value (A ∷ types) fs allow_unknown (map (entry k v no_entries))
      ≡ err unknown_field
unfolding struct_from_value sort_fields sort_entries insert_entry
struct_from_value-unknown_field A types fs allow_unknown k v h =
    rw
      (insert_field-unknown_field fs.0 (sort_fields types fs.1).types
        (sort_fields types fs.1).fields k v no_entries h.0
        (sort_fields-AllFields (IsRead k) types fs.1 h.1))
      refl
