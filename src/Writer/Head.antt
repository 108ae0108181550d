-- ===== src/Writer/Head.antt =====
-- `Writer::start_item` of value/src/writer.rs beside the head that Encoding/Head describes.
use oasis_cbor.Prelude.{
  ℕ, zero, suc, ◌+◌, ◌*◌, ◌/◌, ◌%◌, ◌^◌, ◌<◌, ◌≡◌, refl, sym, ap, ◌∙◌, Bool, true, false, List, [],
  ◌∷◌, ◌++◌, append_assoc, append-nil, subst₂, bit_and, bit_or, ◌==◌, if◌then◌else◌, ==_iff, arith,
}
use oasis_cbor.Encoding.Bytes.{big_endian}
use oasis_cbor.Encoding.Head.{head, info, width, info-lt}
use oasis_cbor.Writer.{push_size, size_class, start_item}
use native.Mathlib.Nat.{div-div-eq-div-mul}
use native.Mathlib.Numerals.{towards_suc}

-- A test that every byte passes, by evaluation.
every : (ℕ → Bool) → ℕ → Bool
every test zero = true
every test (suc bound) = if test bound then every test bound else false

every→test : (test : ℕ → Bool) (bound n : ℕ) → n < bound → every test bound ≡ true → test n ≡ true
unfolding every
every→test test zero n below passed = absurd (omega arith)
every→test test (suc bound) n below passed = ground (arith, every→test test bound n)

low_bits_table : every (λ b. bit_and b 0x1f == b % 32) 256 ≡ true
unfolding every
low_bits_table = refl

-- The mask of the additional information.
pub mask_info : (b : ℕ) → b < 256 → bit_and b 0x1f ≡ b % 32
mask_info b below = (==_iff _ _).0 (every→test _ 256 b below low_bits_table)

label_table : every (λ b. bit_or (b % 32) (b / 32 * 2 ^ 5 % 256) == b) 256 ≡ true
unfolding every
label_table = refl

-- The major type above the additional information.
put_label : (label i : ℕ) → label < 8 → i < 28 → bit_or i (label * 2 ^ 5 % 256) ≡ label * 32 + i
put_label label i hl hi =
    let b = label * 32 + i in
    let low : b % 32 ≡ i = omega arith in
    let high : b / 32 ≡ label = omega arith in
    (==_iff _ _).0 (
      subst₂ (λ x y. (bit_or x (y * 2 ^ 5 % 256) == b) ≡ true) low high
        (every→test (λ b. bit_or (b % 32) (b / 32 * 2 ^ 5 % 256) == b) 256 b (omega arith)
          label_table))

next_power : (m : ℕ) → 2 ^ (suc m * 8) ≡ 256 * 2 ^ (m * 8)
next_power m = ap (◌^◌ 2) (multiple m) ∙ eight (m * 8)
  where
    multiple : (m : ℕ) → suc m * 8 ≡ m * 8 + 8
    multiple m = omega arith

    eight : (k : ℕ) → 2 ^ (k + 8) ≡ 256 * 2 ^ k
    eight k = simp towards_suc (omega arith)

byte_above : (m s : ℕ) → s / 256 / 2 ^ (m * 8) ≡ s / 2 ^ (suc m * 8)
byte_above m s = div-div-eq-div-mul s 256 (2 ^ (m * 8)) ∙ ap (λ d. s / d) (sym (next_power m))

big_endian_first : (n s : ℕ) → big_endian (suc n) s ≡ (s / 2 ^ (n * 8) % 256) ∷ big_endian n s
unfolding big_endian
big_endian_first zero s = ap (λ b. b ∷ []) (omega arith)
big_endian_first (suc n) s =
    rw (ap (λ bs. bs ++ (s % 256 ∷ [])) (big_endian_first n (s / 256)))
      (ap (λ b. b % 256 ∷ big_endian (suc n) s) (byte_above n s))

push_size-big_endian : (n s : ℕ) (buf : List ℕ) → push_size n s buf ≡ buf ++ big_endian n s
unfolding push_size
push_size-big_endian zero s buf = sym (unfold big_endian in append-nil buf)
push_size-big_endian (suc n) s buf =
    push_size-big_endian n s _ ∙ append_assoc buf _ _ ∙ ap (◌++◌ buf) (sym (big_endian_first n s))

size_class_lem : (s : ℕ) → size_class s ≡ (info s, width s)
unfolding size_class info width
size_class_lem s = ground arith

-- On every major type and every `u64` the head is appended, in the fewest bytes.
pub start_item-head :
    (label s : ℕ) (buf : List ℕ) → label < 8 → start_item label s buf ≡ buf ++ head label s
unfolding start_item head
start_item-head label s buf h = rw size_class_lem (
    push_size-big_endian (width s) s _
    ∙ append_assoc buf _ _
    ∙ ap (λ b. buf ++ b ∷ big_endian (width s) s) (put_label label (info s) h (info-lt s)))
