-- ===== src/Nesting.antt =====
-- The nesting limit, an `Option<i8>`: what reader.rs and writer.rs of value/src compute with it.
use oasis_cbor.Prelude.{
  ℕ, zero, suc, ℤ, pos, negsuc, ◌≤◌, ◌≡◌, refl, Bool, true, false, max, Option, none, some, sub_one,
  arith,
}

-- `remaining_depth.map_or(false, |d| d < 0)`
abbrev pub is_exhausted : Option ℤ → Bool
is_exhausted none = false
is_exhausted (some (pos n)) = false
is_exhausted (some (negsuc n)) = true

-- `remaining_depth.map(|d| d - 1)`, which is reached only where `d` is not negative.
abbrev pub nested : Option ℤ → Option ℤ
nested none = none
nested (some d) = some (sub_one d)

-- A nesting limit lets `k` levels through.
abbrev pub Within : Option ℤ → ℕ → Type 0
Within none k = Unit {0}
Within (some (pos n)) k = k ≤ n
Within (some (negsuc n)) k = ⊥

pub Within-is_exhausted : (d : Option ℤ) (k : ℕ) → Within d k → is_exhausted d ≡ false
Within-is_exhausted none k h = refl
Within-is_exhausted (some (pos n)) k h = refl
Within-is_exhausted (some (negsuc n)) k h = absurd h

pub Within-zero : (d : Option ℤ) → is_exhausted d ≡ false → Within d 0
Within-zero none h = tt
Within-zero (some (pos n)) h = omega arith
Within-zero (some (negsuc n)) h = cc

pub Within-nested : (d : Option ℤ) (k : ℕ) → Within d (suc k) → Within (nested d) k
Within-nested none k h = tt
Within-nested (some (pos zero)) k h = absurd (omega arith)
Within-nested (some (pos (suc n))) k h = omega arith
Within-nested (some (negsuc n)) k h = h

pub Within-suc :
    (d : Option ℤ) (k : ℕ) → is_exhausted d ≡ false → Within (nested d) k → Within d (suc k)
Within-suc none k e h = tt
Within-suc (some (pos zero)) k e h = absurd h
Within-suc (some (pos (suc n))) k e h = omega arith
Within-suc (some (negsuc n)) k e h = absurd h

pub Within-le : (d : Option ℤ) (j k : ℕ) → j ≤ k → Within d k → Within d j
Within-le none j k le h = tt
Within-le (some (pos n)) j k le h = omega arith
Within-le (some (negsuc n)) j k le h = h

pub Within-max : (d : Option ℤ) (j k : ℕ) → Within d j → Within d k → Within d (max j k)
Within-max none j k g h = tt
Within-max (some (pos n)) j k g h = omega arith
Within-max (some (negsuc n)) j k g h = h
