-- ===== src/Derive/Pushed.antt =====
-- derive/src/encode.rs beside derive/src/decode.rs: how sorting the entries that a value pushes and
-- sorting its fields compare.
use oasis_cbor.Prelude.{
  Ordering-cases, ◌≡◌, inl, inr, refl, sym, ap, ◌∙◌, true, false, Option, none, some, List, [], ◌∷◌,
  Ordering, Bool-cases, if◌then◌else◌,
}
use oasis_cbor.Value.{Value, Entries, no_entries, entry}
use oasis_cbor.Value.Order.{cmp}
use oasis_cbor.Encoding.Canonical.{IsCanonical, IsBelow}
use oasis_cbor.Encode.{Tuple}
use oasis_cbor.Derive.Declaration.{Field, Fields, field_key}
use oasis_cbor.Derive.Encoder.{optional_value, push_some, push_entries}
use oasis_cbor.Derive.Decoder.Sorting.{insert_entry, sort_entries, insert_field, sort_fields}
use oasis_cbor.Derive.Arranged.{
  AllFields, HasCanonicalKey, HaveCanonicalKeys, IsAfter, IsApart, AreIncreasing, AreDistinct,
  AllFields-IsAfter_trans, sort_fields-AllFields, sort_fields-AreIncreasing,
}

abbrev pub AllValues :
    ((A : Type 0) → Field A → A → Type 0)
    → (types : List (Type 0)) → Fields types
    → Tuple types
    → Type 0
AllValues P [] fs a = Unit {0}
AllValues P (A ∷ types) fs a = P A fs.0 a.0 × AllValues P types fs.1 a.1

abbrev pub post_option : (Value → Value) → Option Value → Option Value
post_option post none = none
post_option post (some v) = some (post v)

-- What a field pushes, if anything, and what becomes of it on the way to the decoder.
unfoldable pub field_pushed : {A : Type 0} → (Value → Value) → Field A → A → Option Value
field_pushed post f a = if f.skip then none else post_option post (optional_value f a)

pub field_pushed_skipped :
    {A : Type 0} (post : Value → Value) (f : Field A) (a : A)
    → f.skip ≡ true
    → field_pushed post f a ≡ none
unfolding field_pushed
field_pushed_skipped post f a e = rw e refl

pub field_pushed_kept :
    {A : Type 0} (post : Value → Value) (f : Field A) (a : A)
    → f.skip ≡ false
    → field_pushed post f a ≡ post_option post (optional_value f a)
unfolding field_pushed
field_pushed_kept post f a e = rw e refl

unfoldable pub pushed_entries :
    (Value → Value) → (types : List (Type 0)) → Fields types → Tuple types → Entries
pushed_entries post [] fs a = no_entries
pushed_entries post (A ∷ types) fs a =
    push_some (field_key fs.0) (field_pushed post fs.0 a.0) (pushed_entries post types fs.1 a.1)

post_option_same : (o : Option Value) → post_option (λ v. v) o ≡ o
post_option_same none = refl
post_option_same (some v) = refl

pub push_entries-pushed_entries :
    (types : List (Type 0)) (fs : Fields types) (a : Tuple types)
    → push_entries types fs a ≡ pushed_entries (λ v. v) types fs a
unfolding push_entries field_pushed pushed_entries
push_entries-pushed_entries [] fs a = refl
push_entries-pushed_entries (A ∷ types) fs a =
    let rest = push_entries-pushed_entries types fs.1 a.1 in
    elim (Bool-cases fs.0.skip) [
      | inl e ↦ rw e rest
      | inr e ↦ rw (post_option_same (optional_value fs.0 a.0), rest) (rw e refl)
    ]

abbrev pub insert_some : Value → Option Value → Entries → Entries
insert_some k none es = es
insert_some k (some v) es = insert_entry k v es

pub sort_entries-push_some :
    (k : Value) (o : Option Value) (es : Entries)
    → sort_entries (push_some k o es) ≡ insert_some k o (sort_entries es)
unfolding sort_entries
sort_entries-push_some k none es = refl
sort_entries-push_some k (some v) es = refl

insert_some-IsBelow :
    (k : Value) (o : Option Value) (es : Entries)
    → IsBelow k es
    → push_some k o es ≡ insert_some k o es
unfolding insert_entry
insert_some-IsBelow k none es h = refl
insert_some-IsBelow k (some v) no_entries h = refl
insert_some-IsBelow k (some v) (entry l w es) h = rw (h, insert_entry) refl

insert_some-push_some :
    (k l : Value) (o p : Option Value) (es : Entries)
    → cmp k l ≡ Ordering.gt
    → push_some l p (insert_some k o es) ≡ insert_some k o (push_some l p es)
unfolding insert_entry
insert_some-push_some k l none p es h = refl
insert_some-push_some k l (some v) none es h = refl
insert_some-push_some k l (some v) (some w) es h = rw (h, insert_entry) refl

push_some-IsBelow :
    (k l : Value) (o : Option Value) (es : Entries)
    → cmp k l ≡ Ordering.lt
    → IsBelow k es
    → IsBelow k (push_some l o es)
push_some-IsBelow k l none es h below = below
push_some-IsBelow k l (some v) es h below = h

pub pushed_entries-IsBelow :
    (post : Value → Value) (k : Value) (types : List (Type 0)) (fs : Fields types) (a : Tuple types)
    → AllFields (IsAfter k) types fs
    → IsBelow k (pushed_entries post types fs a)
unfolding pushed_entries
pushed_entries-IsBelow post k [] fs a h = tt
pushed_entries-IsBelow post k (A ∷ types) fs a h =
    push_some-IsBelow k (field_key fs.0) (field_pushed post fs.0 a.0)
      (pushed_entries post types fs.1 a.1) h.0 (pushed_entries-IsBelow post k types fs.1 a.1 h.1)

module _ (post : Value → Value) (P : (A : Type 0) → Field A → A → Type 0) where
  -- A value of the fields with one more among them.
  insert_field-field_pushed :
      {A : Type 0} (f : Field A) (types : List (Type 0)) (fs : Fields types) (a : A)
      (rest : Tuple types)
      → IsCanonical (field_key f)
      → HaveCanonicalKeys types fs
      → AllFields (IsApart (field_key f)) types fs
      → AreIncreasing types fs
      → P A f a
      → AllValues P types fs rest
      → (b : Tuple (insert_field f types fs).types) × ((insert_field f types fs).back b ≡ (a, rest))
        × (pushed_entries post (insert_field f types fs).types (insert_field f types fs).fields b
            ≡ insert_some (field_key f) (field_pushed post f a) (pushed_entries post types fs rest))
        × AllValues P (insert_field f types fs).types (insert_field f types fs).fields b
  unfolding insert_field pushed_entries
  insert_field-field_pushed f [] fs a rest cf c apart inc h k = (
    (a, tt),
    refl,
    insert_some-IsBelow (field_key f) (field_pushed post f a) _
        (pushed_entries-IsBelow post (field_key f) [] fs rest tt),
    (h, tt),
  )
  insert_field-field_pushed f (B ∷ types) fs a rest cf c apart inc h k =
      let later = insert_field-field_pushed f types fs.1 a rest.1 cf c.1 apart.1 inc.1 h k.1 in
      elim (Ordering-cases (cmp (field_key f) (field_key fs.0))) [
        | inl e ↦
            rw (e, insert_field)
              (
                (a, rest),
                refl,
                insert_some-IsBelow (field_key f) (field_pushed post f a) _ (
                    pushed_entries-IsBelow post (field_key f) (B ∷ types) fs rest (
                      e,
                      AllFields-IsAfter_trans (field_key f) (field_key fs.0) types fs.1 cf c.0 c.1 e
                          inc.0,
                    )),
                (h, k),
              )
        | inr (inl e) ↦ absurd (apart.0 e)
        | inr (inr e) ↦
            rw (e, insert_field)
              (
                (rest.0, later.0),
                ap (λ r. (r.0, (rest.0, r.1))) later.1,
                ap (push_some (field_key fs.0) (field_pushed post fs.0 rest.0)) later.2
                    ∙ insert_some-push_some (field_key f) (field_key fs.0) (field_pushed post f a)
                        (field_pushed post fs.0 rest.0) _ e,
                (k.0, later.3),
              )
      ]

  -- A value of the sorted fields that stands for the value, and pushes its entries sorted.
  pub sort_fields-field_pushed :
      (types : List (Type 0)) (fs : Fields types) (a : Tuple types)
      → HaveCanonicalKeys types fs
      → AreDistinct types fs
      → AllValues P types fs a
      → (b : Tuple (sort_fields types fs).types) × ((sort_fields types fs).back b ≡ a)
        × (pushed_entries post (sort_fields types fs).types (sort_fields types fs).fields b
            ≡ sort_entries (pushed_entries post types fs a))
        × AllValues P (sort_fields types fs).types (sort_fields types fs).fields b
  unfolding sort_fields pushed_entries
  sort_fields-field_pushed [] fs a c apart h =
      (tt, refl, unfold pushed_entries sort_entries in refl, tt)
  sort_fields-field_pushed (A ∷ types) fs a c apart h =
      let rest = sort_fields-field_pushed types fs.1 a.1 c.1 apart.1 h.1 in
      let all =
        insert_field-field_pushed fs.0 _ _ a.0 rest.0 c.0
          (sort_fields-AllFields HasCanonicalKey types fs.1 c.1)
          (sort_fields-AllFields (IsApart (field_key fs.0)) types fs.1 apart.0)
          (sort_fields-AreIncreasing types fs.1 c.1 apart.1) h.0 rest.3 in
      (
        all.0,
        ap (λ r. (r.0, (sort_fields types fs.1).back r.1)) all.1 ∙ ap (λ r. (a.0, r)) rest.1,
        all.2
            ∙ ap (insert_some (field_key fs.0) (field_pushed post fs.0 a.0)) rest.2
            ∙ sym (sort_entries-push_some (field_key fs.0) (field_pushed post fs.0 a.0) _),
        all.3,
      )
