-- ===== src/Derive/Decoder/Sorting.antt =====
-- The two sorts of derive/src/decode.rs: the entries of a map by `Ord for (Value, Value)`, when a
-- value is decoded, and the fields of the struct by their keys, when the macro runs. Both are stable.
use oasis_cbor.Prelude.{List, [], ◌∷◌, Ordering, then_with}
use oasis_cbor.Value.{Value, Entries, no_entries, entry}
use oasis_cbor.Value.Order.{cmp}
use oasis_cbor.Encode.{Tuple}
use oasis_cbor.Derive.Declaration.{Field, Fields, field_key}

unfoldable pub insert_entry : Value → Value → Entries → Entries
insert_entry k v no_entries = entry k v no_entries
insert_entry k v (entry l w es) = elim (then_with (cmp k l) (cmp v w)) [
  | Ordering.gt ↦ entry l w (insert_entry k v es)
  | _ ↦ entry k v (entry l w es)
]

-- `map.sort()`
unfoldable pub sort_entries : Entries → Entries
sort_entries no_entries = no_entries
sort_entries (entry k v es) = insert_entry k v (sort_entries es)

-- Fields in another order, and how a value of them is a `T`.
pub record Arranged (T : Type 0) : Type 1 where
  pub types : List (Type 0)
  pub fields : Fields types
  pub back : Tuple types → T

abbrev pub put_first :
    {A : Type 0} (f : Field A) (types : List (Type 0)) → Fields types → Arranged (A × Tuple types)
put_first {A} f types fs = record { types = A ∷ types; fields = (f, fs); back = λ a. a }

abbrev pub put_later :
    {A B : Type 0} (g : Field B) (types : List (Type 0))
    → Arranged (A × Tuple types)
    → Arranged (A × Tuple (B ∷ types))
put_later {B = B} g types later = record {
  types = B ∷ later.types;
  fields = (g, later.fields);
  back = λ b. ((later.back b.1).0, (b.0, (later.back b.1).1));
}

unfoldable pub insert_field :
    {A : Type 0} (f : Field A) (types : List (Type 0)) → Fields types → Arranged (A × Tuple types)
insert_field f [] fs = put_first f [] fs
insert_field f (B ∷ types) fs = elim (cmp (field_key f) (field_key fs.0)) [
  | Ordering.gt ↦ put_later fs.0 types (insert_field f types fs.1)
  | _ ↦ put_first f (B ∷ types) fs
]

-- `fields.sort_by(…)`
unfoldable pub sort_fields : (types : List (Type 0)) → Fields types → Arranged (Tuple types)
sort_fields [] fs = record { types = []; fields = fs; back = λ a. a }
sort_fields (A ∷ types) fs =
    let rest = sort_fields types fs.1 in
    let all = insert_field fs.0 rest.types rest.fields in
    record {
      types = all.types;
      fields = all.fields;
      back = λ a. ((all.back a).0, rest.back (all.back a).1);
    }
