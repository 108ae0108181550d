-- ===== src/Serde/Calls.antt =====
-- src/serde/ser.rs: a type's calls of the serializers with a state, in the order of its contents, beside
-- the function `serialize`, which has no state.
use oasis_cbor.Prelude.{some, List, ℕ, ◌≡◌, refl, ap, ◌∙◌}
use oasis_cbor.Value.{Value, Values, Entries, map, no_values, no_entries}
use oasis_cbor.Serde.{
  Result, ok, err, ◌>>=◌, Datum, Data, Pairs, Fields, seq, tuple, tuple_struct, tuple_variant,
  map_of, struct, struct_variant, serialize_str, serialize, serialize_elements, serialize_pairs,
  serialize_fields,
}
use oasis_cbor.Serde.Serializers.{
  drive, drive_fields, drive_pairs, push_item, push_pair, serialize_element, end_seq,
  serialize_tuple_field, end_tuple_struct, serialize_variant_item, end_tuple_variant,
  serialize_field, end_struct, serialize_variant_field, end_struct_variant, end_map,
}
use oasis_cbor.Serde.Serializers.Joined.{
  join, join_entries, drive-join, drive_fields-join, drive_pairs-join, called,
}
use oasis_cbor.Serde.Serializers.{
  ended, empty_seq, empty_tuple_struct, empty_tuple_variant, empty_map, empty_struct,
  empty_struct_variant,
}

ended-called : (r : Result Entries) → ended (called r) ≡ some (r >>= λ es. ok (map es))
unfolding end_map
ended-called (ok es) = refl
ended-called (err e) = refl

bind-ok :
    {A B C : Type 0} (r : Result A) (f : A → B) (g : B → C)
    → (r >>= (λ a. ok (f a)) >>= λ b. ok (g b)) ≡ (r >>= λ a. ok (g (f a)))
bind-ok (ok a) f g = refl
bind-ok (err e) f g = refl

driven_items :
    {S : Type 0} (make : Values → S) (step : Datum → S → Result S) (end : S → Value)
    (pushes : (v : Datum) (xs : Values)
      → step v (make xs) ≡ (serialize v >>= λ x. ok (make (push_item xs x))))
    (items : Data)
    → (drive step items (make no_values) >>= λ s. ok (end s))
      ≡ (serialize_elements items >>= λ xs. ok (end (make xs)))
unfolding join
driven_items make step end pushes items =
    ap (λ r. r >>= λ s. ok (end s)) (drive-join make step pushes items no_values)
    ∙ bind-ok (serialize_elements items) make end

driven_fields :
    {S : Type 0} (make : Entries → S) (step : List ℕ → Datum → S → Result S) (end : S → Value)
    (pushes : (key : List ℕ) (v : Datum) (es : Entries)
      → step key v (make es)
        ≡ (serialize v >>= λ y. ok (make (push_pair es (serialize_str key) y))))
    (fields : Fields)
    → (drive_fields step fields (make no_entries) >>= λ s. ok (end s))
      ≡ (serialize_fields fields >>= λ es. ok (end (make es)))
unfolding join_entries
driven_fields make step end pushes fields =
    ap (λ r. r >>= λ s. ok (end s)) (drive_fields-join make step pushes fields no_entries)
    ∙ bind-ok (serialize_fields fields) make end

-- The calls for the contents, in order, and then `end` come to what `serialize` gives, in each
-- serializer with a state: a value, or the first error. The serializer for maps does not panic.
pub serialize-drive :
    (items : Data) (pairs : Pairs) (fields : Fields) (name : List ℕ)
    → ((drive serialize_element items empty_seq >>= λ s. ok (end_seq s)) ≡ serialize (seq items))
      × ((drive serialize_element items empty_seq >>= λ s. ok (end_seq s))
          ≡ serialize (tuple items))
      × ((drive serialize_tuple_field items empty_tuple_struct >>= λ s. ok (end_tuple_struct s))
          ≡ serialize (tuple_struct items))
      × ((drive serialize_variant_item items (empty_tuple_variant name) >>= λ s.
            ok (end_tuple_variant s))
          ≡ serialize (tuple_variant name items))
      × (ended (drive_pairs pairs empty_map) ≡ some (serialize (map_of pairs)))
      × ((drive_fields serialize_field fields empty_struct >>= λ s. ok (end_struct s))
          ≡ serialize (struct fields))
      × ((drive_fields serialize_variant_field fields (empty_struct_variant name) >>= λ s.
            ok (end_struct_variant s))
          ≡ serialize (struct_variant name fields))
unfolding serialize serialize_element serialize_tuple_field serialize_variant_item serialize_field
    serialize_variant_field end_seq end_tuple_struct end_tuple_variant end_struct end_struct_variant
    join_entries
serialize-drive items pairs fields name = (
  driven_items (λ xs. record { items = xs }) serialize_element end_seq (λ v xs. refl) items,
  driven_items (λ xs. record { items = xs }) serialize_element end_seq (λ v xs. refl) items,
  driven_items (λ xs. record { fields = xs }) serialize_tuple_field end_tuple_struct (λ v xs. refl)
      items,
  driven_items (λ xs. record { variant = name; fields = xs }) serialize_variant_item
      end_tuple_variant (λ v xs. refl) items,
  ap ended (drive_pairs-join pairs no_entries)
      ∙ ended-called _
      ∙ ap some (bind-ok (serialize_pairs pairs) (λ es. es) map),
  driven_fields (λ es. record { fields = es }) serialize_field end_struct (λ key v es. refl) fields,
  driven_fields (λ es. record { variant = name; fields = es }) serialize_variant_field
      end_struct_variant (λ key v es. refl) fields,
)
