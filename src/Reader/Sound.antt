-- ===== src/Reader/Sound.antt =====
-- value/src/reader.rs on arbitrary bytes: what strict mode accepts, and the fuel and the bytes that an
-- item takes in both modes.
use oasis_cbor.Prelude.{
  ℕ, zero, suc, ℤ, ◌/◌, ◌^◌, ◌<◌, ◌≤◌, ◌≡◌, sym, ap₂, ◌∙◌, inl, inr, subst, false, Option, List, [],
  ◌∷◌, ◌++◌, length, All, Option-cases, bit_and, arith,
}
use oasis_cbor.Nesting.{is_exhausted, nested}
use oasis_cbor.Encoding.Bytes.{IsByte, big_endian}
use oasis_cbor.Encoding.Head.{IsU64, head, info, width}
use oasis_cbor.Value.{Value}
use oasis_cbor.Writer.Head.{mask_info}
use oasis_cbor.Reader.{
  read_variadic_length_integer, Reader, Decoder, ok, ◌>>=◌, read_bytes, read_content, read_item,
  decode_complete_data_item,
}
use oasis_cbor.Reader.Outcome.{
  Meets, raises, Meets-ok, Meets-if, Meets-bind, Meets-map, Took, Took-map, Took-Both, Took-IsByte,
  Took-length,
}
use oasis_cbor.Reader.Prefix.{IsFront, read_bytes-Took, read_bytes_front, read_variadic-Meets}
use oasis_cbor.Reader.Loops.{Decodes, ItemRead}
use oasis_cbor.Reader.Contents.{
  ContentRead, unsigned-Meets, negative-Meets, bytes-Meets, text-Meets, array-Meets, map-Meets,
  tag-Meets, simple-Meets,
}

module _ (f : ℕ) (d : Option ℤ) (decode : Decoder) (decodes : Decodes f (nested d) decode)
    (open_limit : is_exhausted d ≡ false) where
  content-Meets :
      (label i s : ℕ) (r : Reader)
      → label < 8
      → All IsByte r.remaining_cbor
      → length r.remaining_cbor < f
      → (r.non_strict ≡ false → (i ≡ info s) × IsU64 s)
      → Meets (λ p. Took 0 r (ContentRead d label s) p.0 p.1) (read_content decode label i s r)
  content-Meets zero i s r h = unsigned-Meets f d decode decodes open_limit i s r
  content-Meets (suc zero) i s r h = negative-Meets f d decode decodes open_limit i s r
  content-Meets (suc (suc zero)) i s r h = bytes-Meets f d decode decodes open_limit i s r
  content-Meets (suc (suc (suc zero))) i s r h = text-Meets f d decode decodes open_limit i s r
  content-Meets (suc (suc (suc (suc zero)))) i s r h =
      array-Meets f d decode decodes open_limit i s r
  content-Meets (suc (suc (suc (suc (suc zero))))) i s r h =
      map-Meets f d decode decodes open_limit i s r
  content-Meets (suc (suc (suc (suc (suc (suc zero)))))) i s r h =
      tag-Meets f d decode decodes open_limit i s r
  content-Meets (suc (suc (suc (suc (suc (suc (suc zero))))))) i s r h =
      simple-Meets f d decode decodes open_limit i s r
  content-Meets (suc (suc (suc (suc (suc (suc (suc (suc n)))))))) i s r h = absurd (omega arith)

  first_byte :
      (x s : ℕ) (front body : List ℕ)
      → x < 256
      → front ≡ big_endian (width s) s
      → bit_and x 0x1f ≡ info s
      → (x ∷ []) ++ (front ++ body) ≡ head (x / 2 ^ 5) s ++ body
  unfolding head
  first_byte x s front body h same low =
      ap₂ (λ b bs. b ∷ (bs ++ body)) (omega (arith, mask_info x h)) same

  behind_first :
      (x : ℕ) (r r₁ : Reader)
      → All IsByte r.remaining_cbor
      → length r.remaining_cbor < suc f
      → r.remaining_cbor ≡ (x ∷ []) ++ r₁.remaining_cbor
      → Took 1 r (IsFront 1) (x ∷ []) r₁
      → Meets
          (λ p. Took 1 r (ItemRead d) p.0 p.1)
          (read_variadic_length_integer (bit_and x 0x1f) r₁ >>= λ (s, r₂).
            read_content decode (x / 2 ^ 5) (bit_and x 0x1f) s r₂)
  behind_first x r r₁ bytes fuel input t =
      let byte : x < 256 = (subst (All IsByte) input bytes).0 in
      Meets-bind (read_variadic-Meets (bit_and x 0x1f) r₁ (Took-IsByte t bytes)) λ (s, r₂) u.
        Meets-map
          (content-Meets (x / 2 ^ 5) (bit_and x 0x1f) s r₂ (omega arith)
            (Took-IsByte u (Took-IsByte t bytes)) (omega (arith, Took-length t, Took-length u))
            (λ e. let (same, low, fits) = u.strict (sym u.mode ∙ e) in (low, fits)))
          λ (v, r₃) w.
            Took-map (Took-Both t (Took-Both u w))
              λ front _ _
                  (xs, yzs, e, (one, count), (ys, zs, e', (same, low, fits), (whole, c, within))).
                (e ∙ ap₂ ◌++◌ (sym one) e' ∙ first_byte x s ys zs byte same low ∙ whole, c, within)

  read_item-Meets :
      (r : Reader)
      → All IsByte r.remaining_cbor
      → length r.remaining_cbor < suc f
      → Meets (λ p. Took 1 r (ItemRead d) p.0 p.1) (read_item decode r)
  unfolding read_item
  read_item-Meets r bytes fuel = elim (Option-cases (read_bytes 1 r)) [
    | inl e ↦ rw (e, read_item) (raises _)
    | inr (([], r₁), e) ↦ rw (e, read_item) (raises _)
    | inr ((x ∷ [], r₁), e) ↦
        rw (e, read_item)
          (behind_first x r r₁ bytes fuel (read_bytes_front 1 r e) (read_bytes-Took 1 r e))
    | inr ((x ∷ y ∷ more, r₁), e) ↦ rw (e, read_item) (raises _)
  ]

pub decode-Meets :
    (f : ℕ) (d : Option ℤ) (r : Reader)
    → All IsByte r.remaining_cbor
    → length r.remaining_cbor < f
    → Meets (λ p. Took 1 r (ItemRead d) p.0 p.1) (decode_complete_data_item f d r)
unfolding decode_complete_data_item
decode-Meets zero d r bytes fuel = absurd (omega arith)
decode-Meets (suc f) d r bytes fuel =
    Meets-if (is_exhausted d) (λ _. raises _)
      λ open_limit.
        read_item-Meets f d (decode_complete_data_item f (nested d)) (decode-Meets f (nested d))
          open_limit r bytes fuel

-- Decoding one data item from any bytes, in either mode: what it leaves is the end of the input, at
-- least one byte shorter, it is bytes again, and the mode is the one it was.
pub decode_complete_data_item_cases :
    (f : ℕ) (d : Option ℤ) (r r' : Reader) (v : Value)
    → All IsByte r.remaining_cbor
    → length r.remaining_cbor < f
    → decode_complete_data_item f d r ≡ ok (v, r')
    → (front : List ℕ) × (r.remaining_cbor ≡ front ++ r'.remaining_cbor)
      × (1 ≤ length front)
      × All IsByte r'.remaining_cbor
      × (r'.non_strict ≡ r.non_strict)
decode_complete_data_item_cases f d r r' v bytes fuel h =
    let t = Meets-ok (decode-Meets f d r bytes fuel) h in
    (t.front, t.input, t.enough, Took-IsByte t bytes, t.mode)
