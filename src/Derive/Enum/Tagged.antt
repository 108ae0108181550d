-- ===== src/Derive/Enum/Tagged.antt =====
-- The derived impls of an internally tagged enum: derive/src/encode.rs, then derive/src/decode.rs.
use oasis_cbor.Prelude.{
  ◌≡◌, inl, inr, refl, ◌∙◌, Bool, true, false, Option, none, some, List, [], ◌∷◌,
}
use oasis_cbor.Value.{Value, Entries, map}
use oasis_cbor.Value.Order.{eq}
use oasis_cbor.Encoding.Canonical.{IsCanonical}
use oasis_cbor.Encode.{Tuple}
use oasis_cbor.Decode.{ok}
use oasis_cbor.Derive.Declaration.{Key, to_cbor_key, Attributes}
use oasis_cbor.Derive.Enum.{
  Variant, Variants, Sum, variant_key, variant_value, push_last, wrap, and_wrap, encode_variant,
  encode_enum, gives,
}
use oasis_cbor.Derive.Enum.Decoder.{
  value_or_undefined, non_unit_decoders, take_tag, tagged_from_value, enum_from_value,
}
use oasis_cbor.Derive.Enum.Regular.{
  eq_self, is_non_unit_lem, non_unit_decoders-first, non_unit_decoders-later,
}
use oasis_cbor.Derive.Enum.Selectors.{
  take_tag-push_last, take_tag-Lacks, AreTaggable, KeepsMap, KeepsMaps, selector, chosen_selector,
  matches-select_self, chosen_selector-IsOther, tagged-is_unit_variant, IsTaggable,
}

module _ (attributes : Attributes) (label : Key) (untagged : attributes.untagged ≡ false)
    (tagged : attributes.tag ≡ some label) where
  -- The value is encoded as a map with the tag, if its variant is not the fallback, from which the tag
  -- is taken out again.
  abbrev Chosen : (kinds : List (List (Type 0))) → Variants kinds → Sum kinds → Type 0
  Chosen kinds vs s =
      (es left : Entries) × (found : Option Value) × (encode_enum attributes kinds vs s
        ≡ gives (map es))
      × (take_tag (to_cbor_key label) es ≡ (found, left))
      × (value_or_undefined found ≡ chosen_selector kinds vs s)
      × (non_unit_decoders (some label) kinds vs (chosen_selector kinds vs s) (map left)
          ≡ some (ok s))

  encode_variant-and_wrap :
      (types : List (Type 0)) (v : Variant types) (a : Tuple types)
      → IsTaggable types v
      → encode_variant attributes types v a ≡ and_wrap attributes v (variant_value types v a)
  unfolding encode_variant
  encode_variant-and_wrap types v a h =
      rw (tagged, tagged-is_unit_variant label v, h.named, h.kept, h.own) refl

  encode_fallback :
      (types : List (Type 0)) (v : Variant types) (a : Tuple types) (es : Entries)
      → IsTaggable types v
      → variant_value types v a ≡ some (map es)
      → v.missing ≡ true
      → encode_variant attributes types v a ≡ gives (map es)
  unfolding wrap
  encode_fallback types v a es h encoded e =
      encode_variant-and_wrap types v a h ∙ rw (encoded, untagged, e) refl

  encode_tagged :
      (types : List (Type 0)) (v : Variant types) (a : Tuple types) (es : Entries)
      → IsTaggable types v
      → variant_value types v a ≡ some (map es)
      → v.missing ≡ false
      → encode_variant attributes types v a
        ≡ gives (map (push_last es (to_cbor_key label) (variant_key v)))
  unfolding wrap variant_key
  encode_tagged types v a es h encoded e =
      encode_variant-and_wrap types v a h ∙ rw (encoded, untagged, e, tagged) refl

  first_variant :
      (types : List (Type 0)) (kinds : List (List (Type 0))) (vs : Variants (types ∷ kinds))
      (a : Tuple types)
      → eq (to_cbor_key label) (to_cbor_key label) ≡ true
      → IsTaggable types vs.0
      → KeepsMap (to_cbor_key label) vs.0 a
      → Chosen (types ∷ kinds) vs (inl a)
  unfolding encode_enum
  first_variant types kinds vs a same h (es, encoded, lacks, decoded) = go vs.0.missing refl (
      non_unit_decoders-first (some label) types kinds vs a (selector vs.0) (map es)
        (is_non_unit_lem (some label) types vs.0 h.kept h.own (tagged-is_unit_variant label vs.0))
        (matches-select_self vs.0.missing (variant_key vs.0) (eq_self (variant_key vs.0) h.key))
        decoded)
    where
      go :
          (b : Bool)
          → vs.0.missing ≡ b
          → non_unit_decoders (some label) (types ∷ kinds) vs (selector vs.0) (map es)
            ≡ some (ok (inl a))
          → Chosen (types ∷ kinds) vs (inl a)
      go true e matched = (
        es,
        es,
        none,
        encode_fallback types vs.0 a es h encoded e,
        take_tag-Lacks (to_cbor_key label) es lacks,
        rw e refl,
        matched,
      )
      go false e matched = (
        push_last es (to_cbor_key label) (variant_key vs.0),
        es,
        some (variant_key vs.0),
        encode_tagged types vs.0 a es h encoded e,
        take_tag-push_last (to_cbor_key label) (variant_key vs.0) es same lacks,
        rw e refl,
        matched,
      )

  chosen :
      (kinds : List (List (Type 0))) (vs : Variants kinds) (s : Sum kinds)
      → eq (to_cbor_key label) (to_cbor_key label) ≡ true
      → AreTaggable kinds vs
      → KeepsMaps (to_cbor_key label) kinds vs s
      → Chosen kinds vs s
  unfolding encode_enum
  chosen [] vs s same h k = absurd s
  chosen (types ∷ kinds) vs (inl a) same h k = first_variant types kinds vs a same h.0 k
  chosen (types ∷ kinds) vs (inr s) same h k =
      let (es, left, found, encoded, taken, selected, decoded) = chosen kinds vs.1 s same h.2 k in
      (
        es,
        left,
        found,
        encoded,
        taken,
        selected,
        non_unit_decoders-later (some label) types kinds vs (chosen_selector kinds vs.1 s)
            (map left) s (chosen_selector-IsOther vs.0 kinds vs.1 s h.1) decoded,
      )

  -- A value of a derived internally tagged enum is encoded as a map, and decoded from it: if no variant
  -- is skipped, embedded or in the form of an array, the keys are canonical and distinct, at most one
  -- variant is the fallback for a missing tag, and the fields of the value's variant are encoded as a
  -- map without the tag and decoded from it.
  pub enum_from_value-encode_tagged :
      (kinds : List (List (Type 0))) (vs : Variants kinds) (s : Sum kinds)
      → IsCanonical (to_cbor_key label)
      → AreTaggable kinds vs
      → KeepsMaps (to_cbor_key label) kinds vs s
      → (es : Entries) × (encode_enum attributes kinds vs s ≡ gives (map es))
        × (enum_from_value attributes.tag kinds vs (map es) ≡ ok s)
  unfolding enum_from_value tagged_from_value
  enum_from_value-encode_tagged kinds vs s c h k =
      let (es, left, found, encoded, taken, selected, decoded) =
        chosen kinds vs s (eq_self (to_cbor_key label) c) h k in
      (es, encoded, rw tagged (rw (taken, selected, decoded) refl))
