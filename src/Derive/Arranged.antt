-- ===== src/Derive/Arranged.antt =====
-- derive/src/decode.rs: what sorting does with the fields of a struct, and with the entries that a
-- value of it pushes in derive/src/encode.rs.
use oasis_cbor.Prelude.{
  Ordering-cases, ◌≡◌, ◌≢◌, inl, inr, ap, ◌∙◌, List, [], ◌∷◌, Ordering, reverse_ordering,
}
use oasis_cbor.Value.{Value}
use oasis_cbor.Value.Order.{cmp}
use oasis_cbor.Encoding.Canonical.{IsCanonical}
use oasis_cbor.Encoding.Total.{cmp_trans, cmp_flip}
use oasis_cbor.Derive.Declaration.{Field, Fields, field_key}
use oasis_cbor.Derive.Decoder.Sorting.{insert_field, sort_fields}

abbrev pub AllFields :
    ((A : Type 0) → Field A → Type 0) → (types : List (Type 0)) → Fields types → Type 0
AllFields P [] fs = Unit {0}
AllFields P (A ∷ types) fs = P A fs.0 × AllFields P types fs.1

abbrev pub HasCanonicalKey : (A : Type 0) → Field A → Type 0
HasCanonicalKey A f = IsCanonical (field_key f)

-- The key `k` is below that of the field, or just another one.
abbrev pub IsAfter : Value → (A : Type 0) → Field A → Type 0
IsAfter k A f = cmp k (field_key f) ≡ Ordering.lt

abbrev pub IsApart : Value → (A : Type 0) → Field A → Type 0
IsApart k A f = cmp k (field_key f) ≢ Ordering.eq

abbrev pub HaveCanonicalKeys : (types : List (Type 0)) → Fields types → Type 0
HaveCanonicalKeys = AllFields HasCanonicalKey

abbrev pub AreIncreasing : (types : List (Type 0)) → Fields types → Type 0
AreIncreasing [] fs = Unit {0}
AreIncreasing (A ∷ types) fs =
    AllFields (IsAfter (field_key fs.0)) types fs.1 × AreIncreasing types fs.1

abbrev pub AreDistinct : (types : List (Type 0)) → Fields types → Type 0
AreDistinct [] fs = Unit {0}
AreDistinct (A ∷ types) fs =
    AllFields (IsApart (field_key fs.0)) types fs.1 × AreDistinct types fs.1

insert_field-AllFields :
    {A : Type 0} (P : (A : Type 0) → Field A → Type 0) (f : Field A) (types : List (Type 0))
    (fs : Fields types)
    → P A f
    → AllFields P types fs
    → AllFields P (insert_field f types fs).types (insert_field f types fs).fields
unfolding insert_field
insert_field-AllFields P f [] fs h k = (h, tt)
insert_field-AllFields P f (B ∷ types) fs h k =
    let later = insert_field-AllFields P f types fs.1 h k.1 in
    elim (Ordering-cases (cmp (field_key f) (field_key fs.0))) [
      | inl e ↦ rw (e, insert_field) (h, k)
      | inr (inl e) ↦ rw (e, insert_field) (h, k)
      | inr (inr e) ↦ rw (e, insert_field) (k.0, later)
    ]

pub sort_fields-AllFields :
    (P : (A : Type 0) → Field A → Type 0) (types : List (Type 0)) (fs : Fields types)
    → AllFields P types fs
    → AllFields P (sort_fields types fs).types (sort_fields types fs).fields
unfolding sort_fields
sort_fields-AllFields P [] fs h = tt
sort_fields-AllFields P (A ∷ types) fs h =
    insert_field-AllFields P fs.0 _ _ h.0 (sort_fields-AllFields P types fs.1 h.1)

pub AllFields-IsAfter_trans :
    (k l : Value) (types : List (Type 0)) (fs : Fields types)
    → IsCanonical k
    → IsCanonical l
    → HaveCanonicalKeys types fs
    → cmp k l ≡ Ordering.lt
    → AllFields (IsAfter l) types fs
    → AllFields (IsAfter k) types fs
AllFields-IsAfter_trans k l [] fs ck cl c h after = tt
AllFields-IsAfter_trans k l (A ∷ types) fs ck cl c h after = (
  cmp_trans k l (field_key fs.0) ck cl c.0 h after.0,
  AllFields-IsAfter_trans k l types fs.1 ck cl c.1 h after.1,
)

cmp_gt :
    (k l : Value) → IsCanonical k → IsCanonical l → cmp k l ≡ Ordering.gt → cmp l k ≡ Ordering.lt
cmp_gt k l ck cl h = cmp_flip k l ck cl ∙ ap reverse_ordering h

insert_field-AreIncreasing :
    {A : Type 0} (f : Field A) (types : List (Type 0)) (fs : Fields types)
    → IsCanonical (field_key f)
    → HaveCanonicalKeys types fs
    → AllFields (IsApart (field_key f)) types fs
    → AreIncreasing types fs
    → AreIncreasing (insert_field f types fs).types (insert_field f types fs).fields
unfolding insert_field
insert_field-AreIncreasing f [] fs cf c apart inc = (tt, tt)
insert_field-AreIncreasing f (B ∷ types) fs cf c apart inc =
    let later = insert_field-AreIncreasing f types fs.1 cf c.1 apart.1 inc.1 in
    elim (Ordering-cases (cmp (field_key f) (field_key fs.0))) [
      | inl e ↦
          rw (e, insert_field)
            (
              (
                e,
                AllFields-IsAfter_trans (field_key f) (field_key fs.0) types fs.1 cf c.0 c.1 e
                    inc.0,
              ),
              inc,
            )
      | inr (inl e) ↦ absurd (apart.0 e)
      | inr (inr e) ↦
          rw (e, insert_field)
            (
              insert_field-AllFields (IsAfter (field_key fs.0)) f types fs.1
                  (cmp_gt (field_key f) (field_key fs.0) cf c.0 e) inc.0,
              later,
            )
    ]

pub sort_fields-AreIncreasing :
    (types : List (Type 0)) (fs : Fields types)
    → HaveCanonicalKeys types fs
    → AreDistinct types fs
    → AreIncreasing (sort_fields types fs).types (sort_fields types fs).fields
unfolding sort_fields
sort_fields-AreIncreasing [] fs c apart = tt
sort_fields-AreIncreasing (A ∷ types) fs c apart =
    insert_field-AreIncreasing fs.0 _ _ c.0 (sort_fields-AllFields HasCanonicalKey types fs.1 c.1)
      (sort_fields-AllFields (IsApart (field_key fs.0)) types fs.1 apart.0)
      (sort_fields-AreIncreasing types fs.1 c.1 apart.1)
