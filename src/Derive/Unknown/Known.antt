-- ===== src/Derive/Unknown/Known.antt =====
-- The keys of a map that the fields of a derived struct know, and the sorting of both in
-- derive/src/decode.rs.
use oasis_cbor.Prelude.{Ordering-cases, ◌≡◌, ◌⊎◌, inl, inr, List, [], ◌∷◌, Ordering, then_with}
use oasis_cbor.Value.{Value, Entries, no_entries, entry}
use oasis_cbor.Value.Order.{cmp}
use oasis_cbor.Derive.Declaration.{Field, Fields, field_key}
use oasis_cbor.Derive.Decoder.Sorting.{insert_entry, sort_entries, insert_field, sort_fields}

-- Some field has the key.
abbrev pub IsKnown : Value → (types : List (Type 0)) → Fields types → Type 0
IsKnown k [] fs = ⊥
IsKnown k (A ∷ types) fs = (cmp k (field_key fs.0) ≡ Ordering.eq) ⊎ IsKnown k types fs.1

abbrev pub AllKnown : (types : List (Type 0)) → Fields types → Entries → Type 0
AllKnown types fs no_entries = Unit {0}
AllKnown types fs (entry k v es) = IsKnown k types fs × AllKnown types fs es

pub AllKnown-cons :
    (A : Type 0) (types : List (Type 0)) (fs : Fields (A ∷ types)) (es : Entries)
    → AllKnown types fs.1 es
    → AllKnown (A ∷ types) fs es
AllKnown-cons A types fs no_entries h = tt
AllKnown-cons A types fs (entry k v es) h = (inr h.0, AllKnown-cons A types fs es h.1)

insert_entry-AllKnown :
    (types : List (Type 0)) (fs : Fields types) (k v : Value) (es : Entries)
    → AllKnown types fs (insert_entry k v es)
    → AllKnown types fs (entry k v es)
unfolding insert_entry
insert_entry-AllKnown types fs k v no_entries h = h
insert_entry-AllKnown types fs k v (entry l w es) h =
    elim (Ordering-cases (then_with (cmp k l) (cmp v w))) [
      | inl o ↦ rw (o, insert_entry) at h
      | inr (inl o) ↦ rw (o, insert_entry) at h
      | inr (inr o) ↦
          let h' = rw (o, insert_entry) at h in
          let rest = insert_entry-AllKnown types fs k v es h'.1 in (rest.0, (h'.0, rest.1))
    ]

pub sort_entries-AllKnown :
    (types : List (Type 0)) (fs : Fields types) (es : Entries)
    → AllKnown types fs (sort_entries es)
    → AllKnown types fs es
unfolding sort_entries
sort_entries-AllKnown types fs no_entries h = tt
sort_entries-AllKnown types fs (entry k v es) h =
    let first = insert_entry-AllKnown types fs k v (sort_entries es) h in
    (first.0, sort_entries-AllKnown types fs es first.1)

insert_field-IsKnown :
    {A : Type 0} (k : Value) (f : Field A) (types : List (Type 0)) (fs : Fields types)
    → IsKnown k (insert_field f types fs).types (insert_field f types fs).fields
    → IsKnown k (A ∷ types) (f, fs)
unfolding insert_field
insert_field-IsKnown k f [] fs h = h
insert_field-IsKnown k f (B ∷ types) fs h =
    elim (Ordering-cases (cmp (field_key f) (field_key fs.0))) [
      | inl o ↦ rw (o, insert_field) at h
      | inr (inl o) ↦ rw (o, insert_field) at h
      | inr (inr o) ↦ go (rw (o, insert_field) at h) (insert_field-IsKnown k f types fs.1)
    ]
  where
    go :
        (cmp k (field_key fs.0) ≡ Ordering.eq)
          ⊎ IsKnown k (insert_field f types fs.1).types (insert_field f types fs.1).fields
        → (IsKnown k (insert_field f types fs.1).types (insert_field f types fs.1).fields
            → (cmp k (field_key f) ≡ Ordering.eq) ⊎ IsKnown k types fs.1)
        → (cmp k (field_key f) ≡ Ordering.eq)
          ⊎ ((cmp k (field_key fs.0) ≡ Ordering.eq) ⊎ IsKnown k types fs.1)
    go (inl e) later = inr (inl e)
    go (inr h) later = elim (later h) [ inl e ↦ inl e | inr known ↦ inr (inr known) ]

sort_fields-IsKnown :
    (k : Value) (types : List (Type 0)) (fs : Fields types)
    → IsKnown k (sort_fields types fs).types (sort_fields types fs).fields
    → IsKnown k types fs
unfolding sort_fields
sort_fields-IsKnown k [] fs h = h
sort_fields-IsKnown k (A ∷ types) fs h =
    elim (insert_field-IsKnown k fs.0 (sort_fields types fs.1).types (sort_fields types fs.1).fields
      h) [ inl e ↦ inl e | inr known ↦ inr (sort_fields-IsKnown k types fs.1 known) ]

pub sort_fields-AllKnown :
    (types : List (Type 0)) (fs : Fields types) (es : Entries)
    → AllKnown (sort_fields types fs).types (sort_fields types fs).fields es
    → AllKnown types fs es
sort_fields-AllKnown types fs no_entries h = tt
sort_fields-AllKnown types fs (entry k v es) h =
    (sort_fields-IsKnown k types fs h.0, sort_fields-AllKnown types fs es h.1)
