-- ===== src/Derive/Enum/RoundTrip.antt =====
-- The derived impls of an enum with the variants' keys outside: derive/src/encode.rs, then
-- derive/src/decode.rs.
use oasis_cbor.Prelude.{
  ◌≡◌, ◌⊎◌, inl, inr, refl, ◌∙◌, Bool, true, false, none, some, List, [], ◌∷◌, Bool-cases,
}
use oasis_cbor.Value.{Value, map, no_entries, entry}
use oasis_cbor.Encode.{Tuple}
use oasis_cbor.Decode.{ok}
use oasis_cbor.Derive.Declaration.{Attributes}
use oasis_cbor.Derive.Enum.{
  Variant, Variants, Sum, variant_key, is_unit_variant, unit_value, variant_value, encode_variant,
  encode_enum, gives, wrap,
}
use oasis_cbor.Derive.Enum.Decoder.{
  unit_decoders, is_non_unit, non_unit_decoders, has_non_unit, plain_from_value, shape_from_value,
  enum_from_value,
}
use oasis_cbor.Derive.Enum.Regular.{
  is_map, AreRegular, KeepsIf, KeepsSum, chosen_key, chosen_unit, chosen-IsApart,
  chosen_unit-is_map, eq_self, is_non_unit_lem, unit_decoders-first, unit_decoders-later,
  non_unit_decoders-first, non_unit_decoders-later, or-true, shape_from_value-plain, IsRegular,
}

-- `post` is what becomes of a variant's contents on the way to the decoder.
module _ (post : Value → Value) (attributes : Attributes) (untagged : attributes.untagged ≡ false)
    (no_tag : attributes.tag ≡ none) where
  -- What a value is encoded as, and what the decoders of its kind of variant make of it.
  abbrev Chosen : (kinds : List (List (Type 0))) → Variants kinds → Sum kinds → Type 0
  Chosen kinds vs s =
      ((encode_enum attributes kinds vs s ≡ gives (chosen_unit kinds vs s))
        × (unit_decoders none kinds vs (chosen_unit kinds vs s) ≡ some (ok s)))
      ⊎ ((inner : Value) × (encode_enum attributes kinds vs s
            ≡ gives (map (entry (chosen_key kinds vs s) inner no_entries)))
          × (non_unit_decoders none kinds vs (chosen_key kinds vs s) (post inner) ≡ some (ok s))
          × (has_non_unit none kinds vs ≡ true))

  encode_unit_variant :
      (types : List (Type 0)) (v : Variant types) (a : Tuple types)
      → IsRegular types v
      → is_unit_variant none v ≡ true
      → encode_variant attributes types v a ≡ gives (unit_value v)
  unfolding encode_variant
  encode_unit_variant types v a h e = rw (no_tag, e, h.kept, h.own) refl

  encode_other_variant :
      (types : List (Type 0)) (v : Variant types) (a : Tuple types) (inner : Value)
      → IsRegular types v
      → is_unit_variant none v ≡ false
      → variant_value types v a ≡ some inner
      → encode_variant attributes types v a ≡ gives (map (entry (variant_key v) inner no_entries))
  unfolding encode_variant wrap
  encode_other_variant types v a inner h e f =
      rw (no_tag, e, f, h.kept, h.own, untagged, h.keyed) refl

  first_variant :
      (types : List (Type 0)) (kinds : List (List (Type 0))) (vs : Variants (types ∷ kinds))
      (a : Tuple types) (b : Bool)
      → is_unit_variant none vs.0 ≡ b
      → IsRegular types vs.0
      → KeepsIf post b vs.0 a
      → Chosen (types ∷ kinds) vs (inl a)
  unfolding encode_enum has_non_unit
  first_variant [] kinds vs a true e h k =
      inl (encode_unit_variant [] vs.0 a h e, unit_decoders-first kinds vs h e)
  first_variant (A ∷ types) kinds vs a true e h k = absurd k
  first_variant types kinds vs a false e h (inner, encoded, decoded) =
      let non_unit = is_non_unit_lem none types vs.0 h.kept h.own e in
      inr (
        inner,
        encode_other_variant types vs.0 a inner h e encoded,
        non_unit_decoders-first none types kinds vs a (variant_key vs.0) (post inner) non_unit
            (rw (eq_self (variant_key vs.0) h.key) refl) decoded,
        rw non_unit refl,
      )

  chosen :
      (kinds : List (List (Type 0))) (vs : Variants kinds) (s : Sum kinds)
      → AreRegular kinds vs
      → KeepsSum post kinds vs s
      → Chosen kinds vs s
  unfolding encode_enum has_non_unit
  chosen [] vs s h k = absurd s
  chosen (types ∷ kinds) vs (inl a) h k = first_variant types kinds vs a _ refl h.0 k
  chosen (types ∷ kinds) vs (inr s) h k =
      let apart = chosen-IsApart vs.0 kinds vs.1 s h.1 in
      elim (chosen kinds vs.1 s h.2 k) [
        | inl (encoded, decoded) ↦
            inl (encoded, unit_decoders-later types kinds vs _ s apart.1 decoded)
        | inr (inner, encoded, decoded, some_non_unit) ↦ inr (
          inner,
          encoded,
          non_unit_decoders-later none types kinds vs _ (post inner) s
              (rw (apart.0, h.0.keyed) refl) decoded,
          rw some_non_unit (or-true (is_non_unit none vs.0)),
        )
      ]

  plain :
      (kinds : List (List (Type 0))) (vs : Variants kinds) (v : Value) (s : Sum kinds)
      → is_map v ≡ false
      → unit_decoders none kinds vs v ≡ some (ok s)
      → enum_from_value attributes.tag kinds vs v ≡ ok s
  unfolding enum_from_value plain_from_value
  plain kinds vs v s m decoded =
      let direct : plain_from_value kinds vs v ≡ ok s = rw decoded refl in
      elim (Bool-cases (has_non_unit none kinds vs)) [
        | inl b ↦ rw (no_tag, b) (shape_from_value-plain kinds vs v m ∙ direct)
        | inr b ↦ rw (no_tag, b) direct
      ]

  -- What a value is encoded as, and what is decoded from that with the contents changed.
  abbrev pub Kept : (kinds : List (List (Type 0))) → Variants kinds → Sum kinds → Type 0
  Kept kinds vs s =
      ((encode_enum attributes kinds vs s ≡ gives (chosen_unit kinds vs s))
        × (enum_from_value attributes.tag kinds vs (chosen_unit kinds vs s) ≡ ok s))
      ⊎ ((inner : Value) × (encode_enum attributes kinds vs s
            ≡ gives (map (entry (chosen_key kinds vs s) inner no_entries)))
          × (enum_from_value attributes.tag kinds vs
                (map (entry (chosen_key kinds vs s) (post inner) no_entries))
              ≡ ok s))

  pub KeepsSum-Kept :
      (kinds : List (List (Type 0))) (vs : Variants kinds) (s : Sum kinds)
      → AreRegular kinds vs
      → KeepsSum post kinds vs s
      → Kept kinds vs s
  unfolding enum_from_value plain_from_value
  KeepsSum-Kept kinds vs s h k = elim (chosen kinds vs s h k) [
    | inl (encoded, decoded) ↦
        inl (encoded, plain kinds vs _ s (chosen_unit-is_map kinds vs s h) decoded)
    | inr (inner, encoded, decoded, some_non_unit) ↦
        inr
          (inner, encoded, rw (no_tag, some_non_unit) (unfold shape_from_value in rw decoded refl))
  ]

-- A value of a derived enum with the variants' keys outside is encoded, and decoded from what it is
-- encoded as: if no variant is skipped, embedded or a fallback, the keys and the forms of unit
-- variants are canonical and distinct, no unit form is a map, and the fields of the value's variant
-- are decoded from what they are encoded as.
pub enum_from_value-encode_enum :
    (attributes : Attributes)
    → attributes.untagged ≡ false
    → attributes.tag ≡ none
    → (kinds : List (List (Type 0))) (vs : Variants kinds) (s : Sum kinds) → AreRegular kinds vs
    → KeepsSum (λ v. v) kinds vs s
    → (x : Value) × (encode_enum attributes kinds vs s ≡ gives x)
      × (enum_from_value attributes.tag kinds vs x ≡ ok s)
enum_from_value-encode_enum attributes untagged no_tag kinds vs s h k =
    elim (KeepsSum-Kept (λ v. v) attributes untagged no_tag kinds vs s h k) [
      | inl (encoded, decoded) ↦ (chosen_unit kinds vs s, encoded, decoded)
      | inr (inner, encoded, decoded) ↦
          (map (entry (chosen_key kinds vs s) inner no_entries), encoded, decoded)
    ]
