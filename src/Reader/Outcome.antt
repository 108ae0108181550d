-- ===== src/Reader/Outcome.antt =====
-- Postconditions on a run of the decoder: it kept within its fuel, and `P` holds of its value.
use oasis_cbor.Prelude.{
  ℕ, ◌≡◌, ◌≢◌, refl, sym, ap, ◌∙◌, subst, Bool, true, false, if◌then◌else◌, List, [], ◌++◌,
  append_assoc, ◌⊎◌, inl, inr, length, length-append, All, All-append_right, ◌≤◌, ◌+◌, arith,
}
use oasis_cbor.Encoding.Bytes.{IsByte}
use oasis_cbor.Reader.{Reader, Result, ok, err, out_of_fuel, ◌>>=◌, DecoderError}

pub data Meets {ℓ κ} {A : Type ℓ} (P : A → Type κ) : Result A → Type (ℓ ⊔ κ) where
  returns : {a : A} → P a → Meets P (ok a)
  raises : (e : DecoderError) → Meets P (err e)

module _ {ℓ κ} {A : Type ℓ} {P : A → Type κ} where
  pub Meets-ok : {r : Result A} {a : A} → Meets P r → r ≡ ok a → P a
  Meets-ok (returns h) e = subst P (cc) h
  Meets-ok (raises x) e = cc

  pub Meets-ne_out_of_fuel : {r : Result A} → Meets P r → r ≢ out_of_fuel
  Meets-ne_out_of_fuel (returns h) = cc
  Meets-ne_out_of_fuel (raises x) = cc

  pub Meets-cases :
      {r : Result A} → Meets P r → ((a : A) × P a × (r ≡ ok a)) ⊎ ((e : DecoderError) × (r ≡ err e))
  Meets-cases (returns {a} h) = inl (a, h, refl)
  Meets-cases (raises e) = inr (e, refl)

  pub Meets-if :
      (b : Bool) {x y : Result A}
      → (b ≡ true → Meets P x)
      → (b ≡ false → Meets P y)
      → Meets P (if b then x else y)
  Meets-if true hx hy = hx refl
  Meets-if false hx hy = hy refl

  pub Meets-bind {ℓ' κ'} :
      {B : Type ℓ'} {Q : B → Type κ'} {r : Result A} {f : A → Result B}
      → Meets P r
      → ((a : A) → P a → Meets Q (f a))
      → Meets Q (r >>= f)
  Meets-bind (returns {a} h) next = next a h
  Meets-bind (raises e) next = raises e

pub Meets-map {ℓ κ μ} :
    {A : Type ℓ} {P : A → Type κ} {Q : A → Type μ} {r : Result A}
    → Meets P r
    → ((a : A) → P a → Q a)
    → Meets Q r
Meets-map (returns {a} h) change = returns (change a h)
Meets-map (raises e) change = raises e

-- Two parts, one after the other.
abbrev pub Both {ℓ κ} :
    {A : Type ℓ} {B : Type κ}
    → (A → List ℕ → Type 0)
    → (B → List ℕ → Type 0)
    → A × B
    → List ℕ
    → Type 0
Both P Q p front = (xs : List ℕ) × (ys : List ℕ) × (front ≡ xs ++ ys) × P p.0 xs × Q p.1 ys

-- A step took `front`, at least `least` bytes, off the input; in strict mode `P` holds of it.
pub record Took {ℓ} {A : Type ℓ} (least : ℕ) (r : Reader) (P : A → List ℕ → Type 0) (a : A)
    (r' : Reader) : Type 0 where
  pub front : List ℕ
  pub input : r.remaining_cbor ≡ front ++ r'.remaining_cbor
  pub enough : least ≤ length front
  pub mode : r'.non_strict ≡ r.non_strict
  pub strict : r.non_strict ≡ false → P a front

module _ {ℓ} {A : Type ℓ} {least : ℕ} {r r' : Reader} {P : A → List ℕ → Type 0} {a : A}
    (t : Took least r P a r') where
  pub Took-IsByte : All IsByte r.remaining_cbor → All IsByte r'.remaining_cbor
  Took-IsByte h = All-append_right IsByte t.front r'.remaining_cbor (subst (All IsByte) t.input h)

  pub Took-length : least + length r'.remaining_cbor ≤ length r.remaining_cbor
  Took-length = omega (arith, ap length t.input, length-append t.front r'.remaining_cbor, t.enough)

  pub Took-Both {κ} :
      {B : Type κ} {n : ℕ} {r₂ : Reader} {Q : B → List ℕ → Type 0} {b : B}
      → Took n r' Q b r₂
      → Took (least + n) r (Both P Q) (a, b) r₂
  Took-Both {r₂} u = record {
    front = t.front ++ u.front;
    input =
        t.input ∙ ap (◌++◌ t.front) u.input ∙ sym (append_assoc t.front u.front r₂.remaining_cbor);
    enough = omega (arith, length-append t.front u.front, t.enough, u.enough);
    mode = u.mode ∙ t.mode;
    strict = λ e. (t.front, u.front, refl, t.strict e, u.strict (t.mode ∙ e));
  }

  -- Another value, of the same bytes.
  pub Took-map {κ} :
      {B : Type κ} {Q : B → List ℕ → Type 0} {b : B}
      → ((xs : List ℕ)
          → r.remaining_cbor ≡ xs ++ r'.remaining_cbor
          → r.non_strict ≡ false
          → P a xs
          → Q b xs)
      → Took least r Q b r'
  Took-map change = record {
    front = t.front;
    input = t.input;
    enough = t.enough;
    mode = t.mode;
    strict = λ e. change t.front t.input e (t.strict e);
  }

  pub Took-any : Took 0 r P a r'
  Took-any = record {
    front = t.front;
    input = t.input;
    enough = omega arith;
    mode = t.mode;
    strict = t.strict;
  }

pub Took-nothing {ℓ} :
    {A : Type ℓ} {P : A → List ℕ → Type 0} {a : A} (r : Reader) → P a [] → Took 0 r P a r
Took-nothing r h = record {
  front = [];
  input = refl;
  enough = omega arith;
  mode = refl;
  strict = λ _. h;
}
