-- ===== src/Serde/Serializers/Joined.antt =====
-- src/serde/ser.rs: what the calls of a serializer push, behind what it had.
use oasis_cbor.Prelude.{none, List, ℕ, ◌≡◌, ◌⊎◌, inl, inr, refl, sym, ap, ◌∙◌}
use oasis_cbor.Value.{Value, Values, Entries, no_values, value, no_entries, entry}
use oasis_cbor.Serde.{
  Error, Result, ok, err, ◌>>=◌, Datum, Data, Pairs, Fields, no_data, datum, no_pairs, pair,
  no_fields, field, serialize_str, serialize, serialize_elements, serialize_pairs, serialize_fields,
}
use oasis_cbor.Serde.Serializers.{
  drive, drive_fields, drive_pairs, push_item, push_pair, MapSerializer, Called, returned, failed,
  serialize_key, serialize_value, and_call,
}

Result-cases : {A : Type 0} (r : Result A) → ((a : A) × (r ≡ ok a)) ⊎ ((e : Error) × (r ≡ err e))
Result-cases (ok a) = inl (a, refl)
Result-cases (err e) = inr (e, refl)

unfoldable pub join : Values → Values → Values
join no_values ys = ys
join (value x xs) ys = value x (join xs ys)

unfoldable pub join_entries : Entries → Entries → Entries
join_entries no_entries ds = ds
join_entries (entry k v es) ds = entry k v (join_entries es ds)

join-nil : (xs : Values) → join xs no_values ≡ xs
unfolding join
join-nil no_values = refl
join-nil (value x xs) = ap (value x) (join-nil xs)

join_entries-nil : (es : Entries) → join_entries es no_entries ≡ es
unfolding join_entries
join_entries-nil no_entries = refl
join_entries-nil (entry k v es) = ap (entry k v) (join_entries-nil es)

join-push_item :
    (xs : Values) (x : Value) (ys : Values) → join (push_item xs x) ys ≡ join xs (value x ys)
unfolding join push_item
join-push_item no_values x ys = refl
join-push_item (value v xs) x ys = ap (value v) (join-push_item xs x ys)

join_entries-push_pair :
    (es : Entries) (x y : Value) (ds : Entries)
    → join_entries (push_pair es x y) ds ≡ join_entries es (entry x y ds)
unfolding join_entries push_pair
join_entries-push_pair no_entries x y ds = refl
join_entries-push_pair (entry k v es) x y ds = ap (entry k v) (join_entries-push_pair es x y ds)

-- A method that pushes what the item becomes.
module _ {S : Type 0} (make : Values → S) (step : Datum → S → Result S)
    (pushes : (v : Datum) (xs : Values)
      → step v (make xs) ≡ (serialize v >>= λ x. ok (make (push_item xs x)))) where
  pub drive-join :
      (items : Data) (xs : Values)
      → drive step items (make xs) ≡ (serialize_elements items >>= λ ys. ok (make (join xs ys)))
  unfolding drive serialize
  drive-join no_data xs = ap (λ zs. ok (make zs)) (sym (join-nil xs))
  drive-join (datum v rest) xs = elim (Result-cases (serialize v)) [
    | inl (x, e) ↦
        rw (pushes v xs, e) (drive-join rest (push_item xs x) ∙ pushed x (serialize_elements rest))
    | inr (f, e) ↦ rw (pushes v xs, e) refl
  ]
    where
      pushed :
          (x : Value) (r : Result Values)
          → (r >>= λ ys. ok (make (join (push_item xs x) ys)))
            ≡ (r >>= (λ ys. ok (value x ys)) >>= λ ys. ok (make (join xs ys)))
      pushed x (ok ys) = ap (λ zs. ok (make zs)) (join-push_item xs x ys)
      pushed x (err f) = refl

module _ {S : Type 0} (make : Entries → S) (step : List ℕ → Datum → S → Result S)
    (pushes : (key : List ℕ) (v : Datum) (es : Entries)
      → step key v (make es)
        ≡ (serialize v >>= λ y. ok (make (push_pair es (serialize_str key) y)))) where
  pub drive_fields-join :
      (fields : Fields) (es : Entries)
      → drive_fields step fields (make es)
        ≡ (serialize_fields fields >>= λ ds. ok (make (join_entries es ds)))
  unfolding drive_fields serialize
  drive_fields-join no_fields es = ap (λ ds. ok (make ds)) (sym (join_entries-nil es))
  drive_fields-join (field key v rest) es = elim (Result-cases (serialize v)) [
    | inl (y, e) ↦
        rw (pushes key v es, e)
          (drive_fields-join rest (push_pair es (serialize_str key) y)
            ∙ pushed y (serialize_fields rest))
    | inr (f, e) ↦ rw (pushes key v es, e) refl
  ]
    where
      pushed :
          (y : Value) (r : Result Entries)
          → (r >>= λ ds. ok (make (join_entries (push_pair es (serialize_str key) y) ds))) ≡ (
              r >>= (λ ds. ok (entry (serialize_str key) y ds)) >>= λ ds.
              ok (make (join_entries es ds)))
      pushed y (ok ds) =
          ap (λ zs. ok (make zs)) (join_entries-push_pair es (serialize_str key) y ds)
      pushed y (err f) = refl

-- A state between two entries.
abbrev pub between : Entries → MapSerializer
between es = record { key = none; items = es }

abbrev entered : Result Entries → (MapSerializer → Called) → Called
entered (ok es) next = next (between es)
entered (err e) next = failed e

-- What the two calls of an entry come to.
abbrev opened : Datum → Datum → Entries → (MapSerializer → Called) → Called
opened k v es next = entered (serialize k >>= λ x. serialize v >>= λ y. ok (push_pair es x y)) next

abbrev pub called : Result Entries → Called
called (ok es) = returned (between es)
called (err e) = failed e

-- A call of `serialize_key` and one of `serialize_value`, on a state between two entries.
entry-called :
    (k v : Datum) (es : Entries) (next : MapSerializer → Called)
    → and_call (serialize_key k (between es)) (λ s. and_call (serialize_value v s) next)
      ≡ opened k v es next
unfolding serialize_key serialize_value
entry-called k v es next = elim (Result-cases (serialize k)) [
  | inr (f, e) ↦ rw (e, serialize_key) refl
  | inl (x, e) ↦ elim (Result-cases (serialize v)) [
    | inr (f, e') ↦ rw (e, serialize_key) (rw (e', serialize_value) refl)
    | inl (y, e') ↦ rw (e, serialize_key) (rw (e', serialize_value) refl)
  ]
]

pub drive_pairs-join :
    (pairs : Pairs) (es : Entries)
    → drive_pairs pairs (between es)
      ≡ called (serialize_pairs pairs >>= λ ds. ok (join_entries es ds))
unfolding drive_pairs serialize
drive_pairs-join no_pairs es = ap (λ ds. returned (between ds)) (sym (join_entries-nil es))
drive_pairs-join (pair k v rest) es =
    entry-called k v es (drive_pairs rest) ∙ elim (Result-cases (serialize k)) [
      | inr (f, e) ↦ rw e refl
      | inl (x, e) ↦ elim (Result-cases (serialize v)) [
        | inr (f, e') ↦ rw (e, e') refl
        | inl (y, e') ↦
            rw (e, e')
              (drive_pairs-join rest (push_pair es x y) ∙ pushed x y (serialize_pairs rest))
      ]
    ]
  where
    pushed :
        (x y : Value) (r : Result Entries)
        → called (r >>= λ ds. ok (join_entries (push_pair es x y) ds))
          ≡ called (r >>= (λ ds. ok (entry x y ds)) >>= λ ds. ok (join_entries es ds))
    pushed x y (ok ds) = ap (λ zs. returned (between zs)) (join_entries-push_pair es x y ds)
    pushed x y (err f) = refl
