-- ===== src/Reader/Prefix.antt =====
-- What reading bytes and sizes takes off the input.
use oasis_cbor.Prelude.{
  ℕ, ◌^◌, ◌<◌, ◌≤◌, ◌≡◌, refl, sym, inl, inr, subst, true, false, not, ◌&&◌, some, List, ◌++◌,
  length, take, take-append-drop, length-take, All, All-append_left, leb, ◌==◌, Option-cases, arith,
}
use mathlib.Core.List.{foldl}
use oasis_cbor.Encoding.Bytes.{IsByte, big_endian}
use oasis_cbor.Encoding.Head.{IsU64, width, info}
use oasis_cbor.Reader.{
  Reader, shift_in, read_bytes, is_non_minimal, read_size, read_variadic_length_integer,
}
use oasis_cbor.Reader.Outcome.{
  Meets, returns, raises, Meets-if, Meets-map, Took, Took-map, Took-any, Took-nothing,
}
use oasis_cbor.Reader.Size.{big_endian-foldl}

-- The bytes read are those in front, as many as were asked for.
abbrev pub IsFront : ℕ → List ℕ → List ℕ → Type 0
IsFront n bytes front = (bytes ≡ front) × (length front ≡ n)

pub read_bytes-Took :
    (n : ℕ) (r : Reader) {bytes : List ℕ} {r' : Reader}
    → read_bytes n r ≡ some (bytes, r')
    → Took n r (IsFront n) bytes r'
unfolding read_bytes
read_bytes-Took n r {bytes} {r'} h = record {
  front = take n r.remaining_cbor;
  input = ground (arith, take-append-drop n r.remaining_cbor);
  enough = ground (arith, length-take n r.remaining_cbor);
  mode = ground arith;
  strict = λ _. (ground arith, ground (arith, length-take n r.remaining_cbor));
}

pub read_bytes_front :
    (n : ℕ) (r : Reader) {bytes : List ℕ} {r' : Reader}
    → read_bytes n r ≡ some (bytes, r')
    → r.remaining_cbor ≡ bytes ++ r'.remaining_cbor
unfolding read_bytes
read_bytes_front n r h = ground (arith, take-append-drop n r.remaining_cbor)

abbrev SizeRead : ℕ → ℕ → List ℕ → Type 0
SizeRead n s front = (front ≡ big_endian n s) × (s < 256 ^ n) × (is_non_minimal n s ≡ false)

size_read :
    (n : ℕ) (front : List ℕ)
    → n ≤ 8
    → All IsByte front
    → length front ≡ n
    → is_non_minimal n (foldl shift_in 0 front) ≡ false
    → SizeRead n (foldl shift_in 0 front) front
size_read n front small bytes count minimal =
    let (same, bound) = big_endian-foldl front bytes (omega arith) in
    (
      sym (subst (λ k. big_endian k (foldl shift_in 0 front) ≡ front) count same),
      subst (λ k. foldl shift_in 0 front < 256 ^ k) count bound,
      minimal,
    )

size_taken :
    (n : ℕ) (r : Reader) {read : List ℕ} {r' : Reader}
    → n ≤ 8
    → All IsByte r.remaining_cbor
    → Took n r (IsFront n) read r'
    → (is_non_minimal n (foldl shift_in 0 read) && not r'.non_strict) ≡ false
    → Took 0 r (SizeRead n) (foldl shift_in 0 read) r'
size_taken n r {read} {r'} small bytes t minimal =
    Took-any (Took-map t λ front input strict (same, count). meaning front input strict same count)
  where
    meaning :
        (front : List ℕ)
        → r.remaining_cbor ≡ front ++ r'.remaining_cbor
        → r.non_strict ≡ false
        → read ≡ front
        → length front ≡ n
        → SizeRead n (foldl shift_in 0 read) front
    meaning front input strict same count =
        subst (λ bs. SizeRead n (foldl shift_in 0 bs) front) (sym same)
          (size_read n front small
            (All-append_left IsByte front r'.remaining_cbor (subst (All IsByte) input bytes)) count
            (subst (λ bs. is_non_minimal n (foldl shift_in 0 bs) ≡ false) same
              (ground (arith, t.mode))))

read_size-Meets :
    (n : ℕ) (r : Reader)
    → n ≤ 8
    → All IsByte r.remaining_cbor
    → Meets (λ p. Took 0 r (SizeRead n) p.0 p.1) (read_size n r)
unfolding read_size
read_size-Meets n r small bytes = elim (Option-cases (read_bytes n r)) [
  | inl e ↦ rw (e, read_size) (raises _)
  | inr ((read, r'), e) ↦
      rw (e, read_size)
        (Meets-if (is_non_minimal n (foldl shift_in 0 read) && not r'.non_strict) (λ _. raises _)
          (λ minimal. returns (size_taken n r small bytes (read_bytes-Took n r e) minimal)))
]

-- Behind a first byte with the low bits `i`.
abbrev pub SizeBehind : ℕ → ℕ → List ℕ → Type 0
SizeBehind i s front = (front ≡ big_endian (width s) s) × (i ≡ info s) × IsU64 s

minimal_1 :
    (s : ℕ) → s < 256 ^ 1 → is_non_minimal 1 s ≡ false → (width s ≡ 1) × (24 ≡ info s) × IsU64 s
unfolding width info is_non_minimal
minimal_1 s h m = ground arith

minimal_2 :
    (s : ℕ) → s < 256 ^ 2 → is_non_minimal 2 s ≡ false → (width s ≡ 2) × (25 ≡ info s) × IsU64 s
unfolding width info is_non_minimal
minimal_2 s h m = ground arith

minimal_4 :
    (s : ℕ) → s < 256 ^ 4 → is_non_minimal 4 s ≡ false → (width s ≡ 4) × (26 ≡ info s) × IsU64 s
unfolding width info is_non_minimal
minimal_4 s h m = ground arith

minimal_8 :
    (s : ℕ) → s < 256 ^ 8 → is_non_minimal 8 s ≡ false → (width s ≡ 8) × (27 ≡ info s) × IsU64 s
unfolding width info is_non_minimal
minimal_8 s h m = ground arith

inline_size : (i : ℕ) → leb i 23 ≡ true → (width i ≡ 0) × (i ≡ info i) × IsU64 i
unfolding width info
inline_size i h = ground arith

-- A size of `n` bytes, in terms of its value.
sized :
    (n i : ℕ) (r : Reader)
    → n ≤ 8
    → All IsByte r.remaining_cbor
    → ((s : ℕ) → s < 256 ^ n → is_non_minimal n s ≡ false → (width s ≡ n) × (i ≡ info s) × IsU64 s)
    → Meets (λ p. Took 0 r (SizeBehind i) p.0 p.1) (read_size n r)
sized n i r small bytes minimal = Meets-map (read_size-Meets n r small bytes) λ (s, r') t.
    Took-map t λ front _ _ (same, bound, least).
      let (w, low, fits) = minimal s bound least in (rw w same, low, fits)

pub read_variadic-Meets :
    (i : ℕ) (r : Reader)
    → All IsByte r.remaining_cbor
    → Meets (λ p. Took 0 r (SizeBehind i) p.0 p.1) (read_variadic_length_integer i r)
unfolding read_variadic_length_integer
read_variadic-Meets i r bytes =
    Meets-if (leb i 23)
      (λ e.
        let (w, low, fits) = inline_size i e in
        returns (Took-nothing r (rw w (unfold big_endian in refl), low, fits)))
      λ _.
        Meets-if (i == 24) (λ e. rw (is i 24 e) (sized 1 24 r (omega arith) bytes minimal_1))
          λ _.
            Meets-if (i == 25) (λ e. rw (is i 25 e) (sized 2 25 r (omega arith) bytes minimal_2))
              λ _.
                Meets-if (i == 26)
                  (λ e. rw (is i 26 e) (sized 4 26 r (omega arith) bytes minimal_4))
                  λ _.
                    Meets-if (i == 27)
                      (λ e. rw (is i 27 e) (sized 8 27 r (omega arith) bytes minimal_8))
                      λ _. raises _
  where
    is : (a b : ℕ) → (a == b) ≡ true → a ≡ b
    is a b e = ground arith
