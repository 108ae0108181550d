-- ===== src/Reader/Truncated.antt =====
-- value/src/reader.rs on the beginning of an input: what it does there, it does on the whole input, but
-- where it runs out of bytes.
use oasis_cbor.Prelude.{
  ℕ, zero, suc, ℤ, ◌/◌, ◌^◌, ◌≤◌, ◌≡◌, refl, Bool, true, false, not, ◌&&◌, Option, none, some, List,
  [], ◌∷◌, ◌++◌, length, length-append, take, drop, leb, ◌==◌, if◌then◌else◌, bit_and, inl, inr,
  Option-cases, arith,
}
use mathlib.Core.List.{foldl}
use oasis_cbor.Value.{Value}
use oasis_cbor.Encoding.Utf8.{is_utf8}
use oasis_cbor.Nesting.{is_exhausted, nested}
use oasis_cbor.Reader.{
  Reader, Result, ok, err, out_of_fuel, ◌>>=◌, DecoderError, incomplete_cbor_data, over, Decoder,
  keep, shift_in, is_non_minimal, read_bytes, read_size, read_variadic_length_integer,
  decode_value_to_unsigned, decode_value_to_negative, read_byte_string_content,
  read_text_string_content, decode_to_simple_value, read_elements, is_out_of_order, read_entries,
  read_array_content, read_map_content, read_tagged_content, read_content, read_item,
  decode_complete_data_item,
}

-- The reader with more bytes behind its input.
abbrev pub longer : List ℕ → Reader → Reader
longer more r = over r.non_strict (r.remaining_cbor ++ more)

-- The result on the beginning of an input, and the result on the whole.
pub data Continues {ℓ} {A : Type ℓ} (more : List ℕ)
    : Result (A × Reader) → Result (A × Reader) → Type ℓ where
  goes_on : (a : A) (r : Reader) → Continues more (ok (a, r)) (ok (a, longer more r))
  fails : (e : DecoderError) → Continues more (err e) (err e)
  cut_off : (x : Result (A × Reader)) → Continues more (err incomplete_cbor_data) x
  no_fuel : (x : Result (A × Reader)) → Continues more out_of_fuel x

module _ {ℓ} {A : Type ℓ} {more : List ℕ} where
  Continues-if :
      (b : Bool) {x x' y y' : Result (A × Reader)}
      → Continues more x x'
      → Continues more y y'
      → Continues more (if b then x else y) (if b then x' else y')
  Continues-if true hx hy = hx
  Continues-if false hx hy = hy

  Continues-bind {κ} :
      {B : Type κ} {x x' : Result (A × Reader)} (f g : A × Reader → Result (B × Reader))
      → Continues more x x'
      → ((a : A) (r : Reader) → Continues more (f (a, r)) (g (a, longer more r)))
      → Continues more (x >>= f) (x' >>= g)
  Continues-bind f g (goes_on a r) next = next a r
  Continues-bind f g (fails e) next = fails e
  Continues-bind f g (cut_off x) next = cut_off _
  Continues-bind f g (no_fuel x) next = no_fuel _

Continues-keep :
    {more : List ℕ} (x : Result Value) (r : Reader)
    → Continues more (keep x r) (keep x (longer more r))
Continues-keep (ok v) r = goes_on v r
Continues-keep (err e) r = fails e
Continues-keep out_of_fuel r = no_fuel _

take-longer : (n : ℕ) (xs ys : List ℕ) → n ≤ length xs → take n (xs ++ ys) ≡ take n xs
take-longer zero xs ys h = refl
take-longer (suc n) [] ys h = absurd (omega arith)
take-longer (suc n) (x ∷ xs) ys h = rw (take-longer n xs ys (omega arith)) refl

drop-longer : (n : ℕ) (xs ys : List ℕ) → n ≤ length xs → drop n (xs ++ ys) ≡ drop n xs ++ ys
drop-longer zero xs ys h = refl
drop-longer (suc n) [] ys h = absurd (omega arith)
drop-longer (suc n) (x ∷ xs) ys h = drop-longer n xs ys (omega arith)

-- Bytes that are there are the same on the whole input.
read_bytes-longer :
    (n : ℕ) (r : Reader) (more : List ℕ) {bytes : List ℕ} {r' : Reader}
    → read_bytes n r ≡ some (bytes, r')
    → read_bytes n (longer more r) ≡ some (bytes, longer more r')
unfolding read_bytes
read_bytes-longer n r more h = ground (
  arith,
  length-append r.remaining_cbor more,
  take-longer n r.remaining_cbor more,
  drop-longer n r.remaining_cbor more,
)

read_size-Continues :
    (n : ℕ) (r : Reader) (more : List ℕ)
    → Continues more (read_size n r) (read_size n (longer more r))
unfolding read_size
read_size-Continues n r more = elim (Option-cases (read_bytes n r)) [
  | inl e ↦ rw (e, read_size) (cut_off _)
  | inr ((bytes, r'), e) ↦
      let e' = read_bytes-longer n r more e in
      rw (e, e', read_size)
        (Continues-if (is_non_minimal n (foldl shift_in 0 bytes) && not r'.non_strict) (fails _)
          (goes_on _ r'))
]

read_variadic-Continues :
    (i : ℕ) (r : Reader) (more : List ℕ)
    → Continues more
        (read_variadic_length_integer i r)
        (read_variadic_length_integer i (longer more r))
unfolding read_variadic_length_integer
read_variadic-Continues i r more = Continues-if (leb i 23) (goes_on i r) (
    Continues-if (i == 24) (read_size-Continues 1 r more) (
      Continues-if (i == 25) (read_size-Continues 2 r more) (
        Continues-if (i == 26) (read_size-Continues 4 r more)
          (Continues-if (i == 27) (read_size-Continues 8 r more) (fails _)))))

byte_string-Continues :
    (n : ℕ) (r : Reader) (more : List ℕ)
    → Continues more (read_byte_string_content n r) (read_byte_string_content n (longer more r))
unfolding read_byte_string_content
byte_string-Continues n r more = elim (Option-cases (read_bytes n r)) [
  | inl e ↦ rw (e, read_byte_string_content) (cut_off _)
  | inr ((bytes, r'), e) ↦
      let e' = read_bytes-longer n r more e in rw (e, e', read_byte_string_content) (goes_on _ r')
]

text_string-Continues :
    (n : ℕ) (r : Reader) (more : List ℕ)
    → Continues more (read_text_string_content n r) (read_text_string_content n (longer more r))
unfolding read_text_string_content
text_string-Continues n r more = elim (Option-cases (read_bytes n r)) [
  | inl e ↦ rw (e, read_text_string_content) (cut_off _)
  | inr ((bytes, r'), e) ↦
      let e' = read_bytes-longer n r more e in
      rw (e, e', read_text_string_content) (Continues-if (is_utf8 bytes) (goes_on _ r') (fails _))
]

-- Two decoders of the items inside, for the beginning and for the whole input.
module _ (more : List ℕ) (decode decode' : Decoder)
    (inside : (r : Reader) → Continues more (decode r) (decode' (longer more r))) where
  elements-Continues :
      (n : ℕ) (r : Reader)
      → Continues more (read_elements decode n r) (read_elements decode' n (longer more r))
  unfolding read_elements
  elements-Continues zero r = goes_on _ r
  elements-Continues (suc n) r =
      Continues-bind _ _ (inside r)
        λ v r₁. Continues-bind _ _ (elements-Continues n r₁) λ vs r₂. goes_on _ r₂

  entries-Continues :
      (n : ℕ) (last : Option Value) (r : Reader)
      → Continues more (read_entries decode n last r) (read_entries decode' n last (longer more r))
  unfolding read_entries
  entries-Continues zero last r = goes_on _ r
  entries-Continues (suc n) last r = Continues-bind _ _ (inside r) λ key r₁.
      Continues-bind _ _
        (Continues-if (is_out_of_order last key && not r₁.non_strict) (fails _) (inside r₁))
        λ v r₂. Continues-bind _ _ (entries-Continues n (some key) r₂) λ es r₃. goes_on _ r₃

  content-Continues :
      (major_type i size : ℕ) (r : Reader)
      → Continues more
          (read_content decode major_type i size r)
          (read_content decode' major_type i size (longer more r))
  unfolding read_content read_array_content read_map_content read_tagged_content
      decode_to_simple_value
  content-Continues major_type i size r =
      Continues-if (major_type == 0) (Continues-keep (decode_value_to_unsigned size) r) (
        Continues-if (major_type == 1) (Continues-keep (decode_value_to_negative size) r) (
          Continues-if (major_type == 2) (byte_string-Continues size r more) (
            Continues-if (major_type == 3) (text_string-Continues size r more) (
              Continues-if (major_type == 4)
                (Continues-bind _ _ (elements-Continues size r) λ vs r'. goes_on _ r')
                (Continues-if (major_type == 5)
                  (Continues-bind _ _ (entries-Continues size none r) λ es r'. goes_on _ r')
                  (Continues-if (major_type == 6)
                    (Continues-bind _ _ (inside r) λ v r'. goes_on _ r')
                    (Continues-if (major_type == 7)
                      (Continues-keep (decode_to_simple_value size i r) r) (fails _))))))))

  item-Continues :
      (r : Reader) → Continues more (read_item decode r) (read_item decode' (longer more r))
  unfolding read_item
  item-Continues r = elim (Option-cases (read_bytes 1 r)) [
    | inl e ↦ rw (e, read_item) (cut_off _)
    | inr (([], r₁), e) ↦ rw (e, read_item) (cut_off _)
    | inr ((x ∷ [], r₁), e) ↦
        let e' = read_bytes-longer 1 r more e in
        rw (e, e', read_item)
          (Continues-bind _ _ (read_variadic-Continues (bit_and x 0x1f) r₁ more)
            λ s r₂. content-Continues (x / 2 ^ 5) (bit_and x 0x1f) s r₂)
    | inr ((x ∷ y ∷ rest, r₁), e) ↦ rw (e, read_item) (cut_off _)
  ]

pub decode-Continues :
    (f f' : ℕ) (d : Option ℤ) (r : Reader) (more : List ℕ)
    → f ≤ f'
    → Continues more
        (decode_complete_data_item f d r)
        (decode_complete_data_item f' d (longer more r))
unfolding decode_complete_data_item
decode-Continues zero f' d r more h = no_fuel _
decode-Continues (suc f) zero d r more h = absurd (omega arith)
decode-Continues (suc f) (suc f') d r more h = Continues-if (is_exhausted d) (fails _) (
    item-Continues more (decode_complete_data_item f (nested d))
      (decode_complete_data_item f' (nested d))
      (λ r₁. decode-Continues f f' (nested d) r₁ more (omega arith)) r)
