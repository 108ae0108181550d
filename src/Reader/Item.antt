-- ===== src/Reader/Item.antt =====
-- A head in front of the input: the first byte is taken apart, and its size read.
use oasis_cbor.Prelude.{
  ℕ, zero, suc, pred, ℤ, pos, negsuc, ◌+◌, ◌*◌, ◌/◌, ◌^◌, ◌<◌, ◌≡◌, refl, ap, Bool, true, false,
  Option, some, List, [], ◌∷◌, ◌++◌, length, bit_and, neg, sub_one, arith,
}
use oasis_cbor.Nesting.{is_exhausted, nested}
use oasis_cbor.Value.{
  SimpleValue, unsigned, negative, byte_string, text_string, simple, discriminant, from_integer,
}
use oasis_cbor.Encoding.Bytes.{big_endian}
use oasis_cbor.Encoding.Head.{IsU64, head, info, width, info-lt}
use oasis_cbor.Writer.Head.{mask_info}
use oasis_cbor.Encoding.Utf8.{is_utf8}
use oasis_cbor.Reader.{
  decode_value_to_unsigned, decode_value_to_negative, read_byte_string_content,
  read_text_string_content, decode_to_simple_value, over, ok, Decoder, read_bytes, read_content,
  read_item, decode_complete_data_item,
}
use oasis_cbor.Reader.Size.{read_bytes-append, read_variadic-info}

first_byte :
    (l s : ℕ) → l < 8 → ((l * 32 + info s) / 2 ^ 5 ≡ l) × (bit_and (l * 32 + info s) 0x1f ≡ info s)
first_byte l s h = (
  omega (arith, info-lt s),
  omega (arith, info-lt s, mask_info (l * 32 + info s) (omega (arith, info-lt s))),
)

read_one :
    (mode : Bool) (b : ℕ) (rest : List ℕ)
    → read_bytes 1 (over mode (b ∷ rest)) ≡ some (b ∷ [], over mode rest)
unfolding read_bytes
read_one mode b rest = ground arith

pub read_item-head :
    (decode : Decoder) (l s : ℕ) (mode : Bool) (rest : List ℕ)
    → l < 8
    → IsU64 s
    → read_item decode (over mode (head l s ++ rest))
      ≡ read_content decode l (info s) s (over mode rest)
unfolding read_item head
read_item-head decode l s mode rest hl hs =
    let (label, low) = first_byte l s hl in
    rw (read_one mode (l * 32 + info s) (big_endian (width s) s ++ rest), read_item)
      (rw (label, low) (rw (read_variadic-info s mode rest hs)))

pub decode-head :
    (f : ℕ) (d : Option ℤ) (l s : ℕ) (mode : Bool) (rest : List ℕ)
    → 0 < f
    → is_exhausted d ≡ false
    → l < 8
    → IsU64 s
    → decode_complete_data_item f d (over mode (head l s ++ rest))
      ≡ read_content (decode_complete_data_item (pred f) (nested d)) l (info s) s (over mode rest)
unfolding decode_complete_data_item
decode-head zero d l s mode rest hf e hl hs = absurd (omega arith)
decode-head (suc f) d l s mode rest hf e hl hs =
    rw e (read_item-head (decode_complete_data_item f (nested d)) l s mode rest hl hs)

pub decoded_negative : (s : ℕ) → sub_one (neg (pos s)) ≡ negsuc s
decoded_negative zero = refl
decoded_negative (suc n) = refl

pub from_integer-discriminant : (s : SimpleValue) → from_integer (discriminant s) ≡ some s
unfolding from_integer
from_integer-discriminant SimpleValue.false_value = refl
from_integer-discriminant _ = refl

pub from_integer→discriminant :
    (n : ℕ) (s : SimpleValue) → from_integer n ≡ some s → n ≡ discriminant s
unfolding from_integer
from_integer→discriminant n SimpleValue.false_value h = ground arith
from_integer→discriminant n _ h = ground arith

-- The contents that have no items inside them.
module _ (decode : Decoder) (i : ℕ) (mode : Bool) (rest : List ℕ) where
  pub content_unsigned :
      (n : ℕ) → read_content decode 0 i n (over mode rest) ≡ ok (unsigned n, over mode rest)
  unfolding read_content decode_value_to_unsigned
  content_unsigned n = refl

  pub content_negative :
      (n : ℕ)
      → read_content decode 1 i n (over mode rest) ≡ ok (negative (negsuc n), over mode rest)
  unfolding read_content decode_value_to_negative
  content_negative n = ap (λ z. ok (negative z, over mode rest)) (decoded_negative n)

  pub content_bytes :
      (bytes : List ℕ)
      → read_content decode 2 i (length bytes) (over mode (bytes ++ rest))
        ≡ ok (byte_string bytes, over mode rest)
  unfolding read_content read_byte_string_content
  content_bytes bytes = rw (read_bytes-append mode bytes rest, read_byte_string_content)

  pub content_text :
      (bytes : List ℕ)
      → is_utf8 bytes ≡ true
      → read_content decode 3 i (length bytes) (over mode (bytes ++ rest))
        ≡ ok (text_string bytes, over mode rest)
  unfolding read_content read_text_string_content
  content_text bytes h = rw (read_bytes-append mode bytes rest, read_text_string_content) (rw h)

pub content_simple :
    (decode : Decoder) (mode : Bool) (rest : List ℕ) (s : SimpleValue)
    → read_content decode 7 (info (discriminant s)) (discriminant s) (over mode rest)
      ≡ ok (simple s, over mode rest)
unfolding read_content decode_to_simple_value info from_integer
content_simple decode mode rest SimpleValue.false_value = refl
content_simple decode mode rest _ = refl
