-- ===== src/Codec.antt =====
-- The two entry points of value/src together: `write_nested` of writer.rs and `read_nested` and
-- `read_nested_non_strict` of reader.rs.
pub mod Truncated
use oasis_cbor.Prelude.{
  ℕ, ℤ, ◌≡◌, ◌≢◌, ◌↔◌, refl, sym, ap, ◌∙◌, true, false, Option, none, Ordering, reverse_ordering,
  List, [], ◌∷◌, ◌++◌, append-nil, length-append, All, arith,
}
use oasis_cbor.Value.{Value}
use oasis_cbor.Value.Order.{cmp}
use oasis_cbor.Nesting.{Within}
use oasis_cbor.Encoding.Bytes.{IsByte}
use oasis_cbor.Encoding.Canonical.{encoding, depth, IsCanonical}
use oasis_cbor.Encoding.Total.{cmp-eq, cmp_refl, cmp_flip}
use oasis_cbor.Writer.{done, write_nested}
use oasis_cbor.Writer.Canonical.{write_nested-encoding}
use oasis_cbor.Reader.{
  Reader, over, ok, err, out_of_fuel, extraneous_data, enough_fuel, read_nested,
  read_nested_non_strict,
}
use oasis_cbor.Reader.Outcome.{
  Meets, returns, raises, Meets-ok, Meets-bind, Meets-ne_out_of_fuel, Took,
}
use oasis_cbor.Reader.Complete.{decode-encoding}
use oasis_cbor.Reader.Sound.{decode-Meets}

pub read_nested-encoding :
    (v : Value) (d : Option ℤ)
    → IsCanonical v
    → Within d (depth v)
    → read_nested (encoding v) d ≡ ok v
unfolding read_nested
read_nested-encoding v d c w =
    let whole = decode-encoding v (enough_fuel (encoding v)) d false [] c w (omega arith) in
    rw (rw (append-nil (encoding v)) at whole)

-- No two canonical values have one encoding.
encoding-injective : (a b : Value) → IsCanonical a → IsCanonical b → encoding a ≡ encoding b → a ≡ b
encoding-injective a b ca cb e =
    let first = read_nested-encoding a none ca tt in
    let second = read_nested-encoding b none cb tt in
    cc (first, second, ap (λ cbor. read_nested cbor none) e)

-- Strict decoding, in one statement.
pub read_nested-Meets :
    (cbor : List ℕ) (d : Option ℤ)
    → All IsByte cbor
    → Meets (λ v. (cbor ≡ encoding v) × IsCanonical v × Within d (depth v)) (read_nested cbor d)
unfolding read_nested
read_nested-Meets cbor d bytes =
    Meets-bind (decode-Meets (enough_fuel cbor) d (over false cbor) bytes (omega arith))
      λ (v, r) t. finished v r t
  where
    finished :
        (v : Value) (r : Reader)
        → Took 1
            (over false cbor)
            (λ v front. (front ≡ encoding v) × IsCanonical v × Within d (depth v))
            v
            r
        → Meets
            (λ v. (cbor ≡ encoding v) × IsCanonical v × Within d (depth v))
            (elim r.remaining_cbor [ [] ↦ ok v | _ ↦ err extraneous_data ])
    finished v r t = go r.remaining_cbor t.input
      where
        go :
            (rest : List ℕ)
            → cbor ≡ t.front ++ rest
            → Meets
                (λ v. (cbor ≡ encoding v) × IsCanonical v × Within d (depth v))
                (elim rest [ [] ↦ ok v | _ ↦ err extraneous_data ])
        go [] e = let (same, c, w) = t.strict refl in returns (e ∙ append-nil t.front ∙ same, c, w)
        go (x ∷ rest) e = raises extraneous_data

-- The strict decoder accepts a list of bytes and returns `v` exactly when the list is the canonical
-- encoding of `v`, `v` is canonical, and it is nested no deeper than the limit.
pub read_nested_iff :
    (cbor : List ℕ) (d : Option ℤ) (v : Value)
    → All IsByte cbor
    → (read_nested cbor d ≡ ok v) ↔ (IsCanonical v × Within d (depth v) × (cbor ≡ encoding v))
read_nested_iff cbor d v bytes = (
  λ e. let (same, c, w) = Meets-ok (read_nested-Meets cbor d bytes) e in (c, w, same),
  λ (c, w, same). rw same (read_nested-encoding v d c w),
)

-- Encoding a canonical value nested no deeper than the limit succeeds, and strict decoding of the
-- bytes written, under the same limit, gives the value back.
pub read_nested-write_nested :
    (v : Value) (d : Option ℤ)
    → IsCanonical v
    → Within d (depth v)
    → (cbor : List ℕ) × (write_nested v [] d ≡ done cbor) × (read_nested cbor d ≡ ok v)
read_nested-write_nested v d c w =
    (encoding v, write_nested-encoding v [] d c w, read_nested-encoding v d c w)

-- A list of bytes that the strict decoder accepts is what the encoder writes, under the same limit,
-- for the value returned.
pub write_nested-read_nested :
    (cbor : List ℕ) (d : Option ℤ) (v : Value)
    → All IsByte cbor
    → read_nested cbor d ≡ ok v
    → write_nested v [] d ≡ done cbor
write_nested-read_nested cbor d v bytes e =
    let (same, c, w) = Meets-ok (read_nested-Meets cbor d bytes) e in
    rw same (write_nested-encoding v [] d c w)

-- On every list of bytes and every limit both decoders end within the model's fuel: they return a
-- value or one of the source's errors.
pub read_nested-ne_out_of_fuel :
    (cbor : List ℕ) (d : Option ℤ)
    → All IsByte cbor
    → (read_nested cbor d ≢ out_of_fuel) × (read_nested_non_strict cbor d ≢ out_of_fuel)
unfolding read_nested_non_strict
read_nested-ne_out_of_fuel cbor d bytes = (
  Meets-ne_out_of_fuel (read_nested-Meets cbor d bytes),
  Meets-ne_out_of_fuel {P = λ v. Unit {0}} (
      Meets-bind (decode-Meets (enough_fuel cbor) d (over true cbor) bytes (omega arith))
        λ p t. returns tt),
)

pub read_nested_non_strict-encoding :
    (v : Value) (rest : List ℕ) (d : Option ℤ)
    → IsCanonical v
    → Within d (depth v)
    → read_nested_non_strict (encoding v ++ rest) d ≡ ok v
unfolding read_nested_non_strict
read_nested_non_strict-encoding v rest d c w = rw (
    decode-encoding v (enough_fuel (encoding v ++ rest)) d true rest c w
      (omega (arith, length-append (encoding v) rest)))

-- What the strict decoder accepts, the non-strict one accepts with any bytes behind it, and returns
-- the same value.
pub read_nested_non_strict-read_nested :
    (cbor rest : List ℕ) (d : Option ℤ) (v : Value)
    → All IsByte cbor
    → read_nested cbor d ≡ ok v
    → read_nested_non_strict (cbor ++ rest) d ≡ ok v
read_nested_non_strict-read_nested cbor rest d v bytes e =
    let (same, c, w) = Meets-ok (read_nested-Meets cbor d bytes) e in
    rw same (read_nested_non_strict-encoding v rest d c w)

-- Two canonical values are equal in the order exactly when they are the same value, and swapping
-- them reverses the order's answer.
pub cmp-eq_iff :
    (a b : Value)
    → IsCanonical a
    → IsCanonical b
    → ((cmp a b ≡ Ordering.eq) ↔ (a ≡ b)) × (cmp b a ≡ reverse_ordering (cmp a b))
cmp-eq_iff a b ca cb = (
  (λ h. encoding-injective a b ca cb (cmp-eq a b ca cb h), λ e. ap (cmp a) (sym e) ∙ cmp_refl a ca),
  cmp_flip a b ca cb,
)
