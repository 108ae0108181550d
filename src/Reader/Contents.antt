-- ===== src/Reader/Contents.antt =====
-- What each kind of content takes off the input.
use oasis_cbor.Prelude.{
  ℕ, ℤ, ◌<◌, ◌≡◌, refl, sym, ap, ap₂, ◌∙◌, inl, inr, subst, false, not, ◌&&◌, Option, none, List,
  [], ◌++◌, append-nil, length, All, All-append_left, ltb, ◌==◌, Option-cases, arith,
}
use oasis_cbor.Value.{Value, from_integer}
use oasis_cbor.Nesting.{is_exhausted, nested, Within, Within-zero, Within-suc}
use oasis_cbor.Encoding.Bytes.{IsByte}
use oasis_cbor.Encoding.Head.{IsU64, head, info}
use oasis_cbor.Encoding.Utf8.{is_utf8}
use oasis_cbor.Encoding.Canonical.{encoding, depth, IsCanonical}
use oasis_cbor.Reader.{
  Reader, Decoder, read_bytes, read_content, read_byte_string_content, read_text_string_content,
  read_array_content, read_map_content, read_tagged_content, decode_value_to_unsigned,
  decode_value_to_negative, decode_to_simple_value,
}
use oasis_cbor.Reader.Outcome.{
  Meets, returns, raises, Meets-if, Meets-bind, Took, Took-map, Took-any,
}
use oasis_cbor.Reader.Prefix.{read_bytes-Took}
use oasis_cbor.Reader.Item.{decoded_negative, from_integer→discriminant}
use oasis_cbor.Reader.Loops.{Decodes, read_elements-Meets, read_entries-Meets}

-- Behind a head with the label `l` and the size `s`.
abbrev pub ContentRead : Option ℤ → ℕ → ℕ → Value → List ℕ → Type 0
ContentRead d l s v body = (head l s ++ body ≡ encoding v) × IsCanonical v × Within d (depth v)

-- The bytes of a string are those in front, and the size is their number.
string_front :
    (l s : ℕ) (r r' : Reader) {read : List ℕ} (front : List ℕ)
    → All IsByte r.remaining_cbor
    → IsU64 s
    → r.remaining_cbor ≡ front ++ r'.remaining_cbor
    → read ≡ front
    → length front ≡ s
    → (head l s ++ front ≡ head l (length read) ++ read) × All IsByte read × IsU64 (length read)
string_front l s r r' {read} front bytes fits input same count =
    let size : length read ≡ s = ap length same ∙ count in
    (
      ap₂ (λ n body. head l n ++ body) (sym size) (sym same),
      subst (All IsByte) (sym same)
          (All-append_left IsByte front r'.remaining_cbor (subst (All IsByte) input bytes)),
      subst IsU64 (sym size) fits,
    )

nothing_behind :
    (d : Option ℤ) (l s : ℕ) (r : Reader) (v : Value)
    → (r.non_strict ≡ false → (head l s ≡ encoding v) × IsCanonical v × Within d (depth v))
    → Took 0 r (ContentRead d l s) v r
nothing_behind d l s r v h = record {
  front = [];
  input = refl;
  enough = omega arith;
  mode = refl;
  strict = λ e. let (same, c, w) = h e in (append-nil (head l s) ∙ same, c, w);
}

module _ (f : ℕ) (d : Option ℤ) (decode : Decoder) (decodes : Decodes f (nested d) decode)
    (open_limit : is_exhausted d ≡ false) (i s : ℕ) (r : Reader)
    (bytes : All IsByte r.remaining_cbor) (fuel : length r.remaining_cbor < f)
    (sized : r.non_strict ≡ false → (i ≡ info s) × IsU64 s) where
  pub unsigned-Meets :
      Meets (λ p. Took 0 r (ContentRead d 0 s) p.0 p.1) (read_content decode 0 i s r)
  unfolding read_content decode_value_to_unsigned encoding IsCanonical depth
  unsigned-Meets =
      returns (nothing_behind d 0 s r _ λ e. (refl, (sized e).1, Within-zero d open_limit))

  pub negative-Meets :
      Meets (λ p. Took 0 r (ContentRead d 1 s) p.0 p.1) (read_content decode 1 i s r)
  unfolding read_content decode_value_to_negative encoding IsCanonical depth
  negative-Meets =
      rw (decoded_negative s)
        (returns (nothing_behind d 1 s r _ λ e. (refl, (sized e).1, Within-zero d open_limit)))

  pub bytes-Meets : Meets (λ p. Took 0 r (ContentRead d 2 s) p.0 p.1) (read_content decode 2 i s r)
  unfolding read_content read_byte_string_content encoding IsCanonical depth
  bytes-Meets = elim (Option-cases (read_bytes s r)) [
    | inl e ↦ rw (e, read_byte_string_content) (raises _)
    | inr ((read, r'), e) ↦
        rw (e, read_byte_string_content)
          (returns (
            Took-any (
              Took-map (read_bytes-Took s r e) λ front input strict (same, count).
                let (same_text, all, size) =
                  string_front 2 s r r' front bytes (sized strict).1 input same count in
                (same_text, (all, size), Within-zero d open_limit))))
  ]

  pub text-Meets : Meets (λ p. Took 0 r (ContentRead d 3 s) p.0 p.1) (read_content decode 3 i s r)
  unfolding read_content read_text_string_content encoding IsCanonical depth
  text-Meets = elim (Option-cases (read_bytes s r)) [
    | inl e ↦ rw (e, read_text_string_content) (raises _)
    | inr ((read, r'), e) ↦
        rw (e, read_text_string_content)
          (Meets-if (is_utf8 read)
            (λ valid. returns (
              Took-any (
                Took-map (read_bytes-Took s r e) λ front input strict (same, count).
                  let (same_text, all, size) =
                    string_front 3 s r r' front bytes (sized strict).1 input same count in
                  (same_text, (all, size, valid), Within-zero d open_limit))))
            (λ _. raises _))
  ]

  pub array-Meets : Meets (λ p. Took 0 r (ContentRead d 4 s) p.0 p.1) (read_content decode 4 i s r)
  unfolding read_content read_array_content encoding IsCanonical depth
  array-Meets =
      Meets-bind (read_elements-Meets f d decode decodes open_limit s r bytes fuel) λ (vs, r') t.
        returns (
          Took-map t λ front _ strict (same, count, cs, w). (
            ap₂ (λ n body. head 4 n ++ body) (sym count) same,
            (subst IsU64 (sym count) (sized strict).1, cs),
            w,
          ))

  pub map-Meets : Meets (λ p. Took 0 r (ContentRead d 5 s) p.0 p.1) (read_content decode 5 i s r)
  unfolding read_content read_map_content encoding IsCanonical depth
  map-Meets =
      Meets-bind (read_entries-Meets f d decode decodes open_limit s none r bytes fuel)
        λ (es, r') t. returns (
          Took-map t λ front _ strict (same, count, cs, sorted, above, w). (
            ap₂ (λ n body. head 5 n ++ body) (sym count) same,
            (subst IsU64 (sym count) (sized strict).1, sorted, cs),
            w,
          ))

  pub tag-Meets : Meets (λ p. Took 0 r (ContentRead d 6 s) p.0 p.1) (read_content decode 6 i s r)
  unfolding read_content read_tagged_content encoding IsCanonical depth
  tag-Meets = Meets-bind (decodes r bytes fuel) λ (v, r') t. returns (
      Took-any (
        Took-map t λ front _ strict (same, c, w). (
          ap (λ body. head 6 s ++ body) same,
          ((sized strict).1, c),
          Within-suc d (depth v) open_limit w,
        )))

  pub simple-Meets : Meets (λ p. Took 0 r (ContentRead d 7 s) p.0 p.1) (read_content decode 7 i s r)
  unfolding read_content decode_to_simple_value encoding IsCanonical depth
  simple-Meets =
      Meets-bind {P = λ v. Took 0 r (ContentRead d 7 s) v r}
        (Meets-if (ltb 23 i && (not (i == 24) && not r.non_strict)) (λ _. raises _)
          λ _. elim (Option-cases (from_integer s)) [
            | inl e ↦ rw e (
                Meets-if r.non_strict (λ lax. returns (nothing_behind d 7 s r _ λ strict. cc))
                  (λ _. raises _))
            | inr (v, e) ↦ rw e (
                returns (
                  nothing_behind d 7 s r _ λ _.
                    (ap (head 7) (from_integer→discriminant s v e), tt, Within-zero d open_limit)))
          ])
        (λ v t. returns t)
