-- ===== src/Derive/Enum/Regular.antt =====
-- The variants of an enum with the variants' keys outside, as derive/src/decode.rs tells them apart:
-- what its sequences of tests come to.
use oasis_cbor.Prelude.{
  ◌≡◌, inl, inr, refl, ap, Bool, true, false, not, ◌&&◌, ◌||◌, Option, none, some, List, [], ◌∷◌,
  is_equal, Bool-cases,
}
use oasis_cbor.Value.{Value, unsigned, negative, byte_string, text_string, array, map, simple}
use oasis_cbor.Value.Order.{eq}
use oasis_cbor.Encoding.Canonical.{IsCanonical}
use oasis_cbor.Encoding.Total.{cmp_refl}
use oasis_cbor.Encode.{Tuple}
use oasis_cbor.Decode.{ok}
use oasis_cbor.Derive.Declaration.{Key}
use oasis_cbor.Derive.Enum.{
  Variant, Variants, Sum, variant_key, is_unit_variant, unit_value, variant_value,
}
use oasis_cbor.Derive.Enum.Decoder.{
  variant_from_value, unit_decoders, is_non_unit, matches, non_unit_decoders, plain_from_value,
  shape_from_value,
}

abbrev pub is_map : Value → Bool
is_map (map es) = true
is_map _ = false

-- None of the special attributes, and a key and a unit form that can be told from other values.
pub record IsRegular (types : List (Type 0)) (v : Variant types) : Type 0 where
  pub kept : v.skip ≡ false
  pub own : v.embed ≡ false
  pub keyed : v.missing ≡ false
  pub key : IsCanonical (variant_key v)
  pub unit : IsCanonical (unit_value v)
  pub no_map : is_map (unit_value v) ≡ false

-- The key and the unit form of `w` are others.
abbrev pub IsApart :
    {types : List (Type 0)} → Variant types → (others : List (Type 0)) → Variant others → Type 0
IsApart v others w =
    (eq (variant_key w) (variant_key v) ≡ false) × (eq (unit_value w) (unit_value v) ≡ false)

abbrev pub AllVariants :
    ((types : List (Type 0)) → Variant types → Type 0)
    → (kinds : List (List (Type 0))) → Variants kinds
    → Type 0
AllVariants P [] vs = Unit {0}
AllVariants P (types ∷ kinds) vs = P types vs.0 × AllVariants P kinds vs.1

abbrev pub AreRegular : (kinds : List (List (Type 0))) → Variants kinds → Type 0
AreRegular [] vs = Unit {0}
AreRegular (types ∷ kinds) vs =
    IsRegular types vs.0 × AllVariants (IsApart vs.0) kinds vs.1 × AreRegular kinds vs.1

abbrev pub HasNone : List (Type 0) → Type 0
HasNone [] = Unit {0}
HasNone (A ∷ types) = ⊥

-- A unit variant has no fields, and the fields of any other are decoded from what `post` makes of the
-- value that they are encoded as.
abbrev pub KeepsIf :
    (Value → Value) → {types : List (Type 0)} → Bool → Variant types → Tuple types → Type 0
KeepsIf post {types} true v a = HasNone types
KeepsIf post {types} false v a =
    (inner : Value) × (variant_value types v a ≡ some inner)
    × (variant_from_value types v (post inner) ≡ ok a)

abbrev pub KeepsSum :
    (Value → Value) → (kinds : List (List (Type 0))) → Variants kinds → Sum kinds → Type 0
KeepsSum post [] vs s = ⊥
KeepsSum post (types ∷ kinds) vs (inl a) = KeepsIf post (is_unit_variant none vs.0) vs.0 a
KeepsSum post (types ∷ kinds) vs (inr b) = KeepsSum post kinds vs.1 b

-- The key and the unit form of the variant that a value is of.
abbrev pub chosen_key : (kinds : List (List (Type 0))) → Variants kinds → Sum kinds → Value
chosen_key [] vs s = absurd s
chosen_key (types ∷ kinds) vs (inl a) = variant_key vs.0
chosen_key (types ∷ kinds) vs (inr b) = chosen_key kinds vs.1 b

abbrev pub chosen_unit : (kinds : List (List (Type 0))) → Variants kinds → Sum kinds → Value
chosen_unit [] vs s = absurd s
chosen_unit (types ∷ kinds) vs (inl a) = unit_value vs.0
chosen_unit (types ∷ kinds) vs (inr b) = chosen_unit kinds vs.1 b

pub chosen-IsApart :
    {others : List (Type 0)} (v : Variant others) (kinds : List (List (Type 0)))
    (vs : Variants kinds) (s : Sum kinds)
    → AllVariants (IsApart v) kinds vs
    → (eq (chosen_key kinds vs s) (variant_key v) ≡ false)
      × (eq (chosen_unit kinds vs s) (unit_value v) ≡ false)
chosen-IsApart v [] vs s h = absurd s
chosen-IsApart v (types ∷ kinds) vs (inl a) h = h.0
chosen-IsApart v (types ∷ kinds) vs (inr b) h = chosen-IsApart v kinds vs.1 b h.1

pub chosen_unit-is_map :
    (kinds : List (List (Type 0))) (vs : Variants kinds) (s : Sum kinds)
    → AreRegular kinds vs
    → is_map (chosen_unit kinds vs s) ≡ false
chosen_unit-is_map [] vs s h = absurd s
chosen_unit-is_map (types ∷ kinds) vs (inl a) h = h.0.no_map
chosen_unit-is_map (types ∷ kinds) vs (inr b) h = chosen_unit-is_map kinds vs.1 b h.2

pub eq_self : (v : Value) → IsCanonical v → eq v v ≡ true
unfolding eq
eq_self v c = ap is_equal (cmp_refl v c)

pub is_non_unit_lem :
    (label : Option Key) (types : List (Type 0)) (v : Variant types)
    → v.skip ≡ false
    → v.embed ≡ false
    → is_unit_variant label v ≡ false
    → is_non_unit label v ≡ true
unfolding is_non_unit
is_non_unit_lem label types v kept own e = rw (e, kept, own) refl

pub unit_decoders-first :
    (kinds : List (List (Type 0))) (vs : Variants ([] ∷ kinds))
    → IsRegular [] vs.0
    → is_unit_variant none vs.0 ≡ true
    → unit_decoders none ([] ∷ kinds) vs (unit_value vs.0) ≡ some (ok (inl tt))
unfolding unit_decoders
unit_decoders-first kinds vs h e = rw (e, eq_self (unit_value vs.0) h.unit, h.kept, h.own) refl

pub unit_decoders-later :
    (types : List (Type 0)) (kinds : List (List (Type 0))) (vs : Variants (types ∷ kinds))
    (v : Value) (s : Sum kinds)
    → eq v (unit_value vs.0) ≡ false
    → unit_decoders none kinds vs.1 v ≡ some (ok s)
    → unit_decoders none (types ∷ kinds) vs v ≡ some (ok (inr s))
unfolding unit_decoders
unit_decoders-later [] kinds vs v s e h =
    elim (Bool-cases (is_unit_variant none vs.0 && (not vs.0.skip && not vs.0.embed))) [
      | inl b ↦ rw (b, e, h) refl
      | inr b ↦ rw (b, h) refl
    ]
unit_decoders-later (A ∷ types) kinds vs v s e h = rw h refl

pub non_unit_decoders-first :
    (label : Option Key) (types : List (Type 0)) (kinds : List (List (Type 0)))
    (vs : Variants (types ∷ kinds)) (a : Tuple types) (key inner : Value)
    → is_non_unit label vs.0 ≡ true
    → matches vs.0 key ≡ true
    → variant_from_value types vs.0 inner ≡ ok a
    → non_unit_decoders label (types ∷ kinds) vs key inner ≡ some (ok (inl a))
unfolding non_unit_decoders
non_unit_decoders-first label types kinds vs a key inner e m f = rw (e, m, f) refl

pub non_unit_decoders-later :
    (label : Option Key) (types : List (Type 0)) (kinds : List (List (Type 0)))
    (vs : Variants (types ∷ kinds)) (key inner : Value) (s : Sum kinds)
    → matches vs.0 key ≡ false
    → non_unit_decoders label kinds vs.1 key inner ≡ some (ok s)
    → non_unit_decoders label (types ∷ kinds) vs key inner ≡ some (ok (inr s))
unfolding non_unit_decoders
non_unit_decoders-later label types kinds vs key inner s m h =
    elim (Bool-cases (is_non_unit label vs.0)) [
      | inl b ↦ rw (b, m, h) refl
      | inr b ↦ rw (b, h) refl
    ]

pub or-true : (b : Bool) → (b || true) ≡ true
or-true true = refl
or-true false = refl

pub shape_from_value-plain :
    (kinds : List (List (Type 0))) (vs : Variants kinds) (v : Value)
    → is_map v ≡ false
    → shape_from_value kinds vs v ≡ plain_from_value kinds vs v
unfolding shape_from_value
shape_from_value-plain kinds vs (map es) h = cc
shape_from_value-plain kinds vs (unsigned n) h = refl
shape_from_value-plain kinds vs (negative z) h = refl
shape_from_value-plain kinds vs (byte_string bs) h = refl
shape_from_value-plain kinds vs (text_string bs) h = refl
shape_from_value-plain kinds vs (array items) h = refl
shape_from_value-plain kinds vs (Value.tag t v) h = refl
shape_from_value-plain kinds vs (simple x) h = refl
