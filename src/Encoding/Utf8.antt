-- ===== src/Encoding/Utf8.antt =====
-- Which byte lists `core::str::from_utf8` accepts: the well-formed sequences of the Unicode
-- standard, with no overlong form, no surrogate and nothing above U+10FFFF.
use oasis_cbor.Prelude.{
  ℕ, zero, suc, Bool, true, false, ◌&&◌, Option, none, some, List, [], ◌∷◌, leb, ltb, if◌then◌else◌,
}

-- After a first byte: how many bytes follow, and the range of the next one.
leading : ℕ → Option (ℕ × ℕ × ℕ)
leading b =
    if ltb b 0x80
    then some (0, 0, 0)
    else if ltb b 0xc2
    then none
    else if ltb b 0xe0
    then some (1, 0x80, 0xbf)
    else if ltb b 0xe1
    then some (2, 0xa0, 0xbf)
    else if ltb b 0xed
    then some (2, 0x80, 0xbf)
    else if ltb b 0xee
    then some (2, 0x80, 0x9f)
    else if ltb b 0xf0
    then some (2, 0x80, 0xbf)
    else if ltb b 0xf1
    then some (3, 0x90, 0xbf)
    else if ltb b 0xf4
    then some (3, 0x80, 0xbf)
    else if ltb b 0xf5
    then some (3, 0x80, 0x8f)
    else none

-- `pending` bytes of a character are still to come, the next one between `low` and `high`.
scan : ℕ → ℕ → ℕ → List ℕ → Bool
unfolding leading
scan zero low high [] = true
scan (suc pending) low high [] = false
scan zero low high (b ∷ bs) = elim (leading b) [
  | none ↦ false
  | some (pending, low', high') ↦ scan pending low' high' bs
]
scan (suc pending) low high (b ∷ bs) = leb low b && leb b high && scan pending 0x80 0xbf bs

unfoldable pub is_utf8 : List ℕ → Bool
unfolding scan
is_utf8 = scan 0 0 0
