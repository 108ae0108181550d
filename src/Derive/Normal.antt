-- ===== src/Derive/Normal.antt =====
-- A derived struct in the form of a map on its way through bytes: derive/src/encode.rs, then the
-- sorting of value/src/writer.rs, then derive/src/decode.rs.
use oasis_cbor.Prelude.{
  Ordering-cases, suc, ◌≤◌, ◌≡◌, ◌≢◌, inl, inr, refl, ap, Bool, true, false, Option, none, some,
  List, [], ◌∷◌, Ordering, arith,
}
use oasis_cbor.Value.{Value, Entries, no_entries, entry, count_entries}
use oasis_cbor.Value.Order.{cmp}
use oasis_cbor.Encoding.Canonical.{IsCanonical, HaveCanonical, IsBelow, IsSorted}
use oasis_cbor.Encoding.Normal.{insert_key, normalize, normalize_entries, normalize-IsCanonical}
use oasis_cbor.Encode.{Tuple}
use oasis_cbor.Derive.Declaration.{Field, Fields, field_key, count}
use oasis_cbor.Derive.Encoder.{optional_value, push_some}
use oasis_cbor.Derive.Decoder.Sorting.{insert_entry, sort_entries, sort_fields}
use oasis_cbor.Derive.Arranged.{
  AllFields, HaveCanonicalKeys, IsApart, AreIncreasing, AreDistinct, sort_fields-AllFields,
}
use oasis_cbor.Derive.Pushed.{
  AllValues, post_option, field_pushed, field_pushed_skipped, field_pushed_kept, pushed_entries,
  pushed_entries-IsBelow, insert_some, sort_entries-push_some, sort_fields-field_pushed,
}

insert_key-push_some :
    (k v l : Value) (o : Option Value) (es : Entries)
    → cmp k l ≢ Ordering.eq
    → insert_key k v es ≡ insert_entry k v es
    → insert_key k v (push_some l o es) ≡ insert_entry k v (push_some l o es)
unfolding insert_key insert_entry
insert_key-push_some k v l none es apart h = h
insert_key-push_some k v l (some w) es apart h = elim (Ordering-cases (cmp k l)) [
  | inl e ↦ rw (e, insert_key) (rw (e, insert_entry) refl)
  | inr (inl e) ↦ absurd (apart e)
  | inr (inr e) ↦ rw (e, insert_key) (rw (e, insert_entry) (ap (entry l w) h))
]

-- A key that is none of the fields' goes to one place among their entries.
insert_key-pushed_entries :
    (post : Value → Value) (k v : Value) (types : List (Type 0)) (fs : Fields types)
    (a : Tuple types)
    → AllFields (IsApart k) types fs
    → insert_key k v (pushed_entries post types fs a)
      ≡ insert_entry k v (pushed_entries post types fs a)
unfolding pushed_entries
insert_key-pushed_entries post k v [] fs a h = unfold insert_key insert_entry in refl
insert_key-pushed_entries post k v (A ∷ types) fs a h =
    insert_key-push_some k v (field_key fs.0) (field_pushed post fs.0 a.0)
      (pushed_entries post types fs.1 a.1) h.0
      (insert_key-pushed_entries post k v types fs.1 a.1 h.1)

normalize_entries-push_some :
    (k : Value) (o : Option Value) (es sorted : Entries)
    → IsCanonical k
    → normalize_entries es ≡ sorted
    → ((v : Value) → insert_key k v sorted ≡ insert_entry k v sorted)
    → normalize_entries (push_some k (post_option (λ v. v) o) es)
      ≡ insert_some k (post_option normalize o) sorted
unfolding normalize
normalize_entries-push_some k none es sorted c h place = h
normalize_entries-push_some k (some v) es sorted c h place =
    rw (normalize-IsCanonical k c, h) (place (normalize v))

abbrev IsAny : (A : Type 0) → Field A → A → Type 0
IsAny A f a = Unit {0}

AllValues-IsAny :
    (types : List (Type 0)) (fs : Fields types) (a : Tuple types) → AllValues IsAny types fs a
AllValues-IsAny [] fs a = tt
AllValues-IsAny (A ∷ types) fs a = (tt, AllValues-IsAny types fs.1 a.1)

insert_key-sort_entries :
    (post : Value → Value) (k v : Value) (types : List (Type 0)) (fs : Fields types)
    (a : Tuple types)
    → HaveCanonicalKeys types fs
    → AreDistinct types fs
    → AllFields (IsApart k) types fs
    → insert_key k v (sort_entries (pushed_entries post types fs a))
      ≡ insert_entry k v (sort_entries (pushed_entries post types fs a))
insert_key-sort_entries post k v types fs a c distinct apart =
    let (b, _, entries, _) =
      sort_fields-field_pushed post IsAny types fs a c distinct (AllValues-IsAny types fs a) in
    rw (← entries) (
      insert_key-pushed_entries post k v (sort_fields types fs).types (sort_fields types fs).fields
        b (sort_fields-AllFields (IsApart k) types fs apart))

-- The writer's sorting is the decoder's.
pub normalize_entries-pushed_entries :
    (types : List (Type 0)) (fs : Fields types) (a : Tuple types)
    → HaveCanonicalKeys types fs
    → AreDistinct types fs
    → normalize_entries (pushed_entries (λ v. v) types fs a)
      ≡ sort_entries (pushed_entries normalize types fs a)
unfolding pushed_entries
normalize_entries-pushed_entries [] fs a c apart = unfold normalize sort_entries in refl
normalize_entries-pushed_entries (A ∷ types) fs a c apart =
    go fs.0.skip refl (normalize_entries-pushed_entries types fs.1 a.1 c.1 apart.1)
  where
    go :
        (b : Bool)
        → fs.0.skip ≡ b
        → normalize_entries (pushed_entries (λ v. v) types fs.1 a.1)
          ≡ sort_entries (pushed_entries normalize types fs.1 a.1)
        → normalize_entries (
            push_some
              (field_key fs.0)
              (field_pushed (λ v. v) fs.0 a.0)
              (pushed_entries (λ v. v) types fs.1 a.1))
          ≡ sort_entries (
              push_some
                (field_key fs.0)
                (field_pushed normalize fs.0 a.0)
                (pushed_entries normalize types fs.1 a.1))
    go true e rest =
        rw (field_pushed_skipped (λ v. v) fs.0 a.0 e, field_pushed_skipped normalize fs.0 a.0 e)
          rest
    go false e rest =
        rw (field_pushed_kept (λ v. v) fs.0 a.0 e, field_pushed_kept normalize fs.0 a.0 e)
          (rw
            (sort_entries-push_some (field_key fs.0)
              (post_option normalize (optional_value fs.0 a.0))
              (pushed_entries normalize types fs.1 a.1))
            (normalize_entries-push_some (field_key fs.0) (optional_value fs.0 a.0) _ _ c.0 rest
              λ v.
                insert_key-sort_entries normalize (field_key fs.0) v types fs.1 a.1 c.1 apart.1
                  apart.0))

-- Sorted entries stay as they are.
pub sort_entries-IsSorted : (es : Entries) → IsSorted es → sort_entries es ≡ es
unfolding sort_entries insert_entry
sort_entries-IsSorted no_entries s = refl
sort_entries-IsSorted (entry k v no_entries) s = refl
sort_entries-IsSorted (entry k v (entry l w es)) s =
    rw (sort_entries-IsSorted (entry l w es) s.1) (rw (s.0, insert_entry) refl)

push_some-IsSorted :
    (k : Value) (o : Option Value) (es : Entries)
    → IsBelow k es
    → IsSorted es
    → IsSorted (push_some k o es)
push_some-IsSorted k none es below s = s
push_some-IsSorted k (some v) es below s = (below, s)

pub pushed_entries-IsSorted :
    (post : Value → Value) (types : List (Type 0)) (fs : Fields types) (a : Tuple types)
    → AreIncreasing types fs
    → IsSorted (pushed_entries post types fs a)
unfolding pushed_entries
pushed_entries-IsSorted post [] fs a inc = tt
pushed_entries-IsSorted post (A ∷ types) fs a inc =
    push_some-IsSorted (field_key fs.0) (field_pushed post fs.0 a.0) _
      (pushed_entries-IsBelow post (field_key fs.0) types fs.1 a.1 inc.0)
      (pushed_entries-IsSorted post types fs.1 a.1 inc.1)

abbrev IsCanonicalOption : Option Value → Type 0
IsCanonicalOption none = Unit {0}
IsCanonicalOption (some v) = IsCanonical v

-- What the field pushes is canonical once its maps are sorted.
abbrev pub HasCanonicalValue : (A : Type 0) → Field A → A → Type 0
HasCanonicalValue A f a = IsCanonicalOption (field_pushed normalize f a)

push_some-HaveCanonical :
    (k : Value) (o : Option Value) (es : Entries)
    → IsCanonical k
    → IsCanonicalOption o
    → HaveCanonical es
    → HaveCanonical (push_some k o es)
unfolding IsCanonical
push_some-HaveCanonical k none es ck co c = c
push_some-HaveCanonical k (some v) es ck co c = (ck, co, c)

pub pushed_entries-HaveCanonical :
    (types : List (Type 0)) (fs : Fields types) (a : Tuple types)
    → HaveCanonicalKeys types fs
    → AllValues HasCanonicalValue types fs a
    → HaveCanonical (pushed_entries normalize types fs a)
unfolding pushed_entries IsCanonical
pushed_entries-HaveCanonical [] fs a c h = tt
pushed_entries-HaveCanonical (A ∷ types) fs a c h =
    push_some-HaveCanonical (field_key fs.0) (field_pushed normalize fs.0 a.0) _ c.0 h.0
      (pushed_entries-HaveCanonical types fs.1 a.1 c.1 h.1)

count_entries-push_some :
    (k : Value) (o : Option Value) (es : Entries)
    → count_entries (push_some k o es) ≤ suc (count_entries es)
count_entries-push_some k none es = omega arith
count_entries-push_some k (some v) es = omega arith

pub count_entries-pushed_entries :
    (post : Value → Value) (types : List (Type 0)) (fs : Fields types) (a : Tuple types)
    → count_entries (pushed_entries post types fs a) ≤ count types
unfolding pushed_entries
count_entries-pushed_entries post [] fs a = omega arith
count_entries-pushed_entries post (A ∷ types) fs a =
    let rest = count_entries-pushed_entries post types fs.1 a.1 in
    let first =
      count_entries-push_some (field_key fs.0) (field_pushed post fs.0 a.0)
        (pushed_entries post types fs.1 a.1) in
    omega arith
