-- ===== src/Derive/Enum/Selectors.antt =====
-- The tag of an internally tagged enum, as derive/src/encode.rs puts it into a map and
-- derive/src/decode.rs takes it out and tests it.
use oasis_cbor.Prelude.{
  ◌≡◌, inl, inr, refl, Bool, true, false, not, ◌&&◌, ◌||◌, none, some, List, [], ◌∷◌, Option-cases,
}
use oasis_cbor.Value.{Value, Entries, map, simple, no_entries, entry, undefined}
use oasis_cbor.Value.Order.{cmp, eq}
use oasis_cbor.Encoding.Canonical.{IsCanonical}
use oasis_cbor.Encode.{Tuple}
use oasis_cbor.Decode.{ok}
use oasis_cbor.Derive.Declaration.{Key, to_cbor_key, is_unit}
use oasis_cbor.Derive.Enum.{
  Variant, Variants, Sum, variant_key, is_unit_variant, variant_value, push_last, is_arrayed,
}
use oasis_cbor.Derive.Enum.Decoder.{variant_from_value, matches, take_tag}
use oasis_cbor.Derive.Enum.Regular.{AllVariants, or-true}

-- No key of the map is the tag.
abbrev pub Lacks : Value → Entries → Type 0
Lacks k no_entries = Unit {0}
Lacks k (entry l v es) = (eq l k ≡ false) × Lacks k es

pub take_tag-push_last :
    (k v : Value) (es : Entries)
    → eq k k ≡ true
    → Lacks k es
    → take_tag k (push_last es k v) ≡ (some v, es)
unfolding take_tag push_last
take_tag-push_last k v no_entries e h = rw (e, take_tag) refl
take_tag-push_last k v (entry l w es) e h =
    let rest = take_tag-push_last k v es e h.1 in rw (h.0, take_tag) (rw rest refl)

pub take_tag-Lacks : (k : Value) (es : Entries) → Lacks k es → take_tag k es ≡ (none, es)
unfolding take_tag
take_tag-Lacks k no_entries h = refl
take_tag-Lacks k (entry l w es) h =
    let rest = take_tag-Lacks k es h.1 in rw (h.0, take_tag) (rw rest refl)

to_cbor_key-ne_undefined :
    (k : Key)
    → (eq (to_cbor_key k) (simple undefined) ≡ false)
      × (eq (simple undefined) (to_cbor_key k) ≡ false)
unfolding to_cbor_key eq cmp
to_cbor_key-ne_undefined (Key.string bs) = (refl, refl)
to_cbor_key-ne_undefined (Key.integer n) = (refl, refl)

variant_key-ne_undefined :
    {types : List (Type 0)} (v : Variant types)
    → (eq (variant_key v) (simple undefined) ≡ false)
      × (eq (simple undefined) (variant_key v) ≡ false)
unfolding variant_key eq cmp
variant_key-ne_undefined v = elim (Option-cases v.rename) [
  | inl e ↦ rw e (refl, refl)
  | inr (key, e) ↦ rw e (to_cbor_key-ne_undefined key)
]

-- A variant that is neither skipped nor embedded, and whose fields are not in the form of an array.
pub record IsTaggable (types : List (Type 0)) (v : Variant types) : Type 0 where
  pub kept : v.skip ≡ false
  pub own : v.embed ≡ false
  pub named : is_arrayed v ≡ false
  pub key : IsCanonical (variant_key v)

-- `w` has another key, and only one of them is the fallback.
abbrev pub IsOther :
    {types : List (Type 0)} → Variant types → (others : List (Type 0)) → Variant others → Type 0
IsOther v others w =
    (eq (variant_key w) (variant_key v) ≡ false) × ((w.missing && v.missing) ≡ false)

abbrev pub AreTaggable : (kinds : List (List (Type 0))) → Variants kinds → Type 0
AreTaggable [] vs = Unit {0}
AreTaggable (types ∷ kinds) vs =
    IsTaggable types vs.0 × AllVariants (IsOther vs.0) kinds vs.1 × AreTaggable kinds vs.1

-- The fields of the value's variant are encoded as a map without the tag, and decoded from it.
abbrev pub KeepsMap : Value → {types : List (Type 0)} → Variant types → Tuple types → Type 0
KeepsMap k {types} v a =
    (es : Entries) × (variant_value types v a ≡ some (map es))
    × Lacks k es
    × (variant_from_value types v (map es) ≡ ok a)

abbrev pub KeepsMaps : Value → (kinds : List (List (Type 0))) → Variants kinds → Sum kinds → Type 0
KeepsMaps k [] vs s = ⊥
KeepsMaps k (types ∷ kinds) vs (inl a) = KeepsMap k vs.0 a
KeepsMaps k (types ∷ kinds) vs (inr b) = KeepsMaps k kinds vs.1 b

-- What stands beside the tag when the value is decoded.
abbrev select : Bool → Value → Value
select true k = simple undefined
select false k = k

abbrev pub selector : {types : List (Type 0)} → Variant types → Value
selector v = select v.missing (variant_key v)

abbrev pub chosen_selector : (kinds : List (List (Type 0))) → Variants kinds → Sum kinds → Value
chosen_selector [] vs s = absurd s
chosen_selector (types ∷ kinds) vs (inl a) = selector vs.0
chosen_selector (types ∷ kinds) vs (inr b) = chosen_selector kinds vs.1 b

pub matches-select_self :
    (missing : Bool) (k : Value)
    → eq k k ≡ true
    → (eq (select missing k) k || (missing && eq (select missing k) (simple undefined))) ≡ true
matches-select_self true k e = unfold eq cmp in or-true (eq (simple undefined) k)
matches-select_self false k e = rw e refl

matches-select :
    (missing others_missing : Bool) (k l : Value)
    → eq l k ≡ false
    → (others_missing && missing) ≡ false
    → eq (simple undefined) k ≡ false
    → eq l (simple undefined) ≡ false
    → (eq (select others_missing l) k
        || (missing && eq (select others_missing l) (simple undefined)))
      ≡ false
matches-select true true k l e m ek el = cc
matches-select false true k l e m ek el = rw ek refl
matches-select true false k l e m ek el = rw (e, el) refl
matches-select false false k l e m ek el = rw e refl

pub chosen_selector-IsOther :
    {others : List (Type 0)} (v : Variant others) (kinds : List (List (Type 0)))
    (vs : Variants kinds) (s : Sum kinds)
    → AllVariants (IsOther v) kinds vs
    → matches v (chosen_selector kinds vs s) ≡ false
chosen_selector-IsOther v [] vs s h = absurd s
chosen_selector-IsOther v (types ∷ kinds) vs (inl a) h =
    matches-select v.missing vs.0.missing (variant_key v) (variant_key vs.0) h.0.0 h.0.1
      ((variant_key-ne_undefined v).1) ((variant_key-ne_undefined vs.0).0)
chosen_selector-IsOther v (types ∷ kinds) vs (inr b) h = chosen_selector-IsOther v kinds vs.1 b h.1

pub tagged-is_unit_variant :
    {types : List (Type 0)} (label : Key) (v : Variant types)
    → is_unit_variant (some label) v ≡ false
unfolding is_unit_variant
tagged-is_unit_variant label v = go (is_unit v.style) v.as_struct
  where
    go : (a b : Bool) → (a && (not b && false)) ≡ false
    go true true = refl
    go true false = refl
    go false b = refl
