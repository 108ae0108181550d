-- ===== src/Codable/Containers.antt =====
-- src/encode.rs and src/decode.rs, the impls for vectors, options and tuples.
use oasis_cbor.Prelude.{◌≡◌, refl, ◌∙◌, false, Option, none, some, List, [], ◌∷◌, length, All}
use oasis_cbor.Value.{
  Value, unsigned, negative, byte_string, text_string, tag, false_value, true_value, array, map,
  simple, null_value, undefined, count_values,
}
use oasis_cbor.Encoding.Head.{IsU64}
use oasis_cbor.Encoding.Canonical.{IsCanonical, AreCanonical}
use oasis_cbor.Encode.{
  is_null, collect_values, encode_vec, encode_option, encode_tuple, Tuple, Encoders, push_all,
}
use oasis_cbor.Decode.{
  Decode, ok, ◌>>=◌, try_from_cbor_value_default, collect_items, vec_from_value, decode_vec,
  option_from_value, decode_option, Decoders, remove_all, tuple_from_value, decode_tuple,
}
use oasis_cbor.Codable.{Codable, default-is_null}

some-option_from_value {ℓ} :
    {A : Type ℓ} (d : Decode A) (v : Value)
    → is_null v ≡ false
    → option_from_value d v ≡ (d.try_from_cbor_value v >>= λ a. ok (some a))
unfolding option_from_value
some-option_from_value d (unsigned n) h = refl
some-option_from_value d (negative z) h = refl
some-option_from_value d (byte_string bs) h = refl
some-option_from_value d (text_string bs) h = refl
some-option_from_value d (array vs) h = refl
some-option_from_value d (map es) h = refl
some-option_from_value d (tag t v) h = refl
some-option_from_value d (simple false_value) h = refl
some-option_from_value d (simple true_value) h = refl
some-option_from_value d (simple null_value) h = cc
some-option_from_value d (simple undefined) h = refl

module _ {A : Type 0} (c : Codable A) where
  collect_values-AreCanonical :
      (items : List A) → All c.IsValid items → AreCanonical (collect_values c.encoder items)
  unfolding collect_values IsCanonical
  collect_values-AreCanonical [] h = tt
  collect_values-AreCanonical (a ∷ items) h =
      (c.canonical a h.0, collect_values-AreCanonical items h.1)

  count-collect_values :
      (items : List A) → count_values (collect_values c.encoder items) ≡ length items
  unfolding collect_values
  count-collect_values [] = refl
  count-collect_values (a ∷ items) = rw (count-collect_values items) refl

  collect_items-collect_values :
      (items : List A)
      → All c.IsValid items
      → collect_items c.decoder (collect_values c.encoder items) ≡ ok items
  unfolding collect_values collect_items
  collect_items-collect_values [] h = refl
  collect_items-collect_values (a ∷ items) h =
      rw (c.round_trip a h.0, collect_items-collect_values items h.1) refl

  pub vec-IsCanonical :
      (items : List A)
      → All c.IsValid items
      → IsU64 (length items)
      → IsCanonical ((encode_vec c.encoder).into_cbor_value items)
  unfolding IsCanonical
  vec-IsCanonical items h small =
      (rw (count-collect_values items) small, collect_values-AreCanonical items h)

  pub vec_trip :
      (items : List A)
      → All c.IsValid items
      → vec_from_value c.decoder ((encode_vec c.encoder).into_cbor_value items) ≡ ok items
  unfolding vec_from_value
  vec_trip items h = collect_items-collect_values items h

  -- An option whose inner value is not itself encoded as null.
  abbrev pub IsValidOption : Option A → Type 0
  IsValidOption none = Unit {0}
  IsValidOption (some a) = c.IsValid a × (is_null (c.encoder.into_cbor_value a) ≡ false)

  pub option-IsCanonical :
      (o : Option A) → IsValidOption o → IsCanonical ((encode_option c.encoder).into_cbor_value o)
  unfolding IsCanonical
  option-IsCanonical none h = tt
  option-IsCanonical (some a) h = c.canonical a h.0

  pub option_trip :
      (o : Option A)
      → IsValidOption o
      → option_from_value c.decoder ((encode_option c.encoder).into_cbor_value o) ≡ ok o
  unfolding option_from_value
  option_trip none h = refl
  option_trip (some a) h =
      some-option_from_value c.decoder (c.encoder.into_cbor_value a) h.1
      ∙ rw (c.round_trip a h.0) refl

  pub option_default_trip :
      (o : Option A)
      → IsValidOption o
      → try_from_cbor_value_default
          (decode_option c.decoder)
          ((encode_option c.encoder).into_cbor_value o)
        ≡ ok o
  unfolding try_from_cbor_value_default
  option_default_trip none h = refl
  option_default_trip (some a) h =
      default-is_null (decode_option c.decoder) (c.encoder.into_cbor_value a) h.1
      ∙ option_trip (some a) h

abbrev pub codable_vec : {A : Type 0} → Codable A → Codable (List A)
codable_vec c = record {
  encoder = encode_vec c.encoder;
  decoder = decode_vec c.decoder;
  IsValid = λ items. All c.IsValid items × IsU64 (length items);
  canonical = λ items h. vec-IsCanonical c items h.0 h.1;
  round_trip = λ items h. vec_trip c items h.0;
  default_trip = λ items h.
      default-is_null (decode_vec c.decoder) (array (collect_values c.encoder items)) refl
      ∙ vec_trip c items h.0;
}

abbrev pub codable_option : {A : Type 0} → Codable A → Codable (Option A)
codable_option c = record {
  encoder = encode_option c.encoder;
  decoder = decode_option c.decoder;
  IsValid = IsValidOption c;
  canonical = option-IsCanonical c;
  round_trip = option_trip c;
  default_trip = option_default_trip c;
}

abbrev pub Codables : List (Type 0) → Type 1
Codables [] = Unit {1}
Codables (A ∷ types) = Codable A × Codables types

abbrev pub encoders : (types : List (Type 0)) → Codables types → Encoders types
encoders [] cs = tt
encoders (A ∷ types) cs = (cs.0.encoder, encoders types cs.1)

abbrev pub decoders : (types : List (Type 0)) → Codables types → Decoders types
decoders [] cs = tt
decoders (A ∷ types) cs = (cs.0.decoder, decoders types cs.1)

abbrev pub AllValid : (types : List (Type 0)) → Codables types → Tuple types → Type 0
AllValid [] cs a = Unit {0}
AllValid (A ∷ types) cs a = cs.0.IsValid a.0 × AllValid types cs.1 a.1

push_all-AreCanonical :
    (types : List (Type 0)) (cs : Codables types) (a : Tuple types)
    → AllValid types cs a
    → AreCanonical (push_all types (encoders types cs) a)
unfolding push_all IsCanonical
push_all-AreCanonical [] cs a h = tt
push_all-AreCanonical (A ∷ types) cs a h =
    (cs.0.canonical a.0 h.0, push_all-AreCanonical types cs.1 a.1 h.1)

count-push_all :
    (types : List (Type 0)) (es : Encoders types) (a : Tuple types)
    → count_values (push_all types es a) ≡ length types
unfolding push_all
count-push_all [] es a = refl
count-push_all (A ∷ types) es a = rw (count-push_all types es.1 a.1) refl

remove_all-push_all :
    (types : List (Type 0)) (cs : Codables types) (a : Tuple types)
    → AllValid types cs a
    → remove_all types (decoders types cs) (push_all types (encoders types cs) a) ≡ ok a
unfolding push_all remove_all
remove_all-push_all [] cs a h = refl
remove_all-push_all (A ∷ types) cs a h =
    rw (cs.0.round_trip a.0 h.0, remove_all-push_all types cs.1 a.1 h.1) refl

pub tuple-IsCanonical :
    (types : List (Type 0)) (cs : Codables types) (a : Tuple types)
    → IsU64 (length types)
    → AllValid types cs a
    → IsCanonical ((encode_tuple types (encoders types cs)).into_cbor_value a)
unfolding IsCanonical
tuple-IsCanonical types cs a small h =
    (rw (count-push_all types (encoders types cs) a) small, push_all-AreCanonical types cs a h)

-- A tuple of any arity, each component valid for a type with a round trip, is decoded from the
-- array that it is encoded as.
pub tuple_trip :
    (types : List (Type 0)) (cs : Codables types) (a : Tuple types)
    → AllValid types cs a
    → tuple_from_value types
        (decoders types cs)
        ((encode_tuple types (encoders types cs)).into_cbor_value a)
      ≡ ok a
unfolding tuple_from_value
tuple_trip types cs a h = remove_all-push_all types cs a h

abbrev pub codable_tuple :
    (types : List (Type 0)) → Codables types → IsU64 (length types) → Codable (Tuple types)
codable_tuple types cs small = record {
  encoder = encode_tuple types (encoders types cs);
  decoder = decode_tuple types (decoders types cs);
  IsValid = AllValid types cs;
  canonical = λ a h. tuple-IsCanonical types cs a small h;
  round_trip = λ a h. tuple_trip types cs a h;
  default_trip = λ a h.
      default-is_null (decode_tuple types (decoders types cs))
        (array (push_all types (encoders types cs) a)) refl
      ∙ tuple_trip types cs a h;
}
