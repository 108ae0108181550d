-- ===== src/Codec/Truncated.antt =====
-- value/src/reader.rs on an encoding whose end is missing.
use oasis_cbor.Prelude.{
  ℕ, ℤ, ◌≡◌, ◌≢◌, refl, Bool, true, false, Option, List, [], ◌∷◌, ◌++◌, append-nil, length-append,
  All, All-append_left, arith,
}
use oasis_cbor.Value.{Value}
use oasis_cbor.Nesting.{Within}
use oasis_cbor.Encoding.Bytes.{IsByte}
use oasis_cbor.Encoding.Canonical.{encoding, depth, IsCanonical}
use oasis_cbor.Reader.{
  Reader, Result, ok, err, out_of_fuel, incomplete_cbor_data, over, enough_fuel, read_nested,
  read_nested_non_strict, decode_complete_data_item,
}
use oasis_cbor.Reader.Outcome.{Meets-ne_out_of_fuel}
use oasis_cbor.Reader.Complete.{decode-encoding}
use oasis_cbor.Reader.Sound.{decode-Meets}
use oasis_cbor.Reader.Truncated.{Continues, goes_on, fails, cut_off, no_fuel, decode-Continues}
use oasis_cbor.Codec.{read_nested_iff}

append-ne-nil : (xs : List ℕ) (b : ℕ) (rest : List ℕ) → xs ++ b ∷ rest ≢ []
append-ne-nil [] b rest = cc
append-ne-nil (x ∷ xs) b rest = cc

-- A run that would need nothing behind its input, but for a byte that is there.
stopped :
    {mode : Bool} {b : ℕ} {rest : List ℕ} {v : Value} {x y : Result (Value × Reader)}
    → Continues (b ∷ rest) x y
    → y ≡ ok (v, over mode [])
    → x ≢ out_of_fuel
    → x ≡ err incomplete_cbor_data
stopped {b} {rest} (goes_on a r) e fuel = absurd (append-ne-nil r.remaining_cbor b rest cc)
stopped (fails x) e fuel = cc
stopped (cut_off x) e fuel = refl
stopped (no_fuel x) e fuel = absurd (fuel refl)

read_whole :
    (mode : Bool) (d : Option ℤ) (cbor : List ℕ) (v : Value)
    → IsCanonical v
    → Within d (depth v)
    → cbor ≡ encoding v
    → decode_complete_data_item (enough_fuel cbor) d (over mode cbor) ≡ ok (v, over mode [])
read_whole mode d cbor v c w same =
    let whole = decode-encoding v (enough_fuel (encoding v)) d mode [] c w (omega arith) in
    rw same (rw (append-nil (encoding v)) at whole)

decode_stopped :
    (mode : Bool) (d : Option ℤ) (cbor rest : List ℕ) (b : ℕ) (v : Value)
    → All IsByte (cbor ++ b ∷ rest)
    → read_nested (cbor ++ b ∷ rest) d ≡ ok v
    → decode_complete_data_item (enough_fuel cbor) d (over mode cbor) ≡ err incomplete_cbor_data
decode_stopped mode d cbor rest b v bytes e =
    let whole = cbor ++ b ∷ rest in
    let (c, w, same) = (read_nested_iff whole d v bytes).0 e in
    stopped
      (decode-Continues (enough_fuel cbor) (enough_fuel whole) d (over mode cbor) (b ∷ rest)
        (omega (arith, length-append cbor (b ∷ rest))))
      (read_whole mode d whole v c w same)
      (Meets-ne_out_of_fuel (
        decode-Meets (enough_fuel cbor) d (over mode cbor)
          (All-append_left IsByte cbor (b ∷ rest) bytes) (omega arith)))

-- A list of bytes from which bytes are missing at the end, so that the strict decoder would accept the
-- whole list, is an error for incomplete data in both modes.
pub read_nested-incomplete_cbor_data :
    (cbor rest : List ℕ) (b : ℕ) (d : Option ℤ) (v : Value)
    → All IsByte (cbor ++ b ∷ rest)
    → read_nested (cbor ++ b ∷ rest) d ≡ ok v
    → (read_nested cbor d ≡ err incomplete_cbor_data)
      × (read_nested_non_strict cbor d ≡ err incomplete_cbor_data)
unfolding read_nested read_nested_non_strict
read_nested-incomplete_cbor_data cbor rest b d v bytes e = (
  rw (decode_stopped false d cbor rest b v bytes e) refl,
  rw (decode_stopped true d cbor rest b v bytes e) refl,
)
