-- ===== src/Reader/Size.antt =====
-- `read_variadic_length_integer` of value/src/reader.rs, on heads and on other bytes in both modes.
use oasis_cbor.Prelude.{
  ℕ, zero, suc, ◌+◌, ◌*◌, ◌/◌, ◌%◌, ◌^◌, ◌<◌, ◌≤◌, ◌≡◌, sym, ap, ap₂, ◌∙◌, inl, inr, subst, Bool,
  false, some, List, [], ◌∷◌, ◌++◌, append_assoc, append-nil, length, length-append,
  take-append_length, drop-append_length, All, ltb, Bool-cases, arith,
}
use mathlib.Core.List.{foldl, foldl-append}
use native.Mathlib.Nat.{add-zero, zero-add, pow-suc, pow-le-pow_right}
use oasis_cbor.Encoding.Bytes.{IsByte, big_endian, length-big_endian}
use oasis_cbor.Encoding.Head.{IsU64, width, info}
use oasis_cbor.Reader.{
  over, ok, shift_in, read_bytes, is_non_minimal, read_size, read_variadic_length_integer,
}

-- Exactly the bytes in front are taken.
pub read_bytes-append :
    (mode : Bool) (bytes rest : List ℕ)
    → read_bytes (length bytes) (over mode (bytes ++ rest)) ≡ some (bytes, over mode rest)
unfolding read_bytes
read_bytes-append mode bytes rest =
    rw (take-append_length bytes rest, drop-append_length bytes rest)
      (ground (arith, length-append bytes rest))

-- Folding the bytes of an integer gives it back.
pub foldl-big_endian : (n s : ℕ) → IsU64 s → s < 256 ^ n → foldl shift_in 0 (big_endian n s) ≡ s
unfolding big_endian
foldl-big_endian zero s h b = omega arith
foldl-big_endian (suc n) s h b =
    foldl-append shift_in 0 (big_endian n (s / 256)) (s % 256 ∷ [])
    ∙ rw (foldl-big_endian n (s / 256) (omega arith) (omega (arith, pow-suc 256 n))) (omega arith)

shift_in-lt :
    (k acc x : ℕ)
    → x < 256
    → acc < 256 ^ k
    → suc k ≤ 8
    → (shift_in acc x ≡ acc * 256 + x) × (shift_in acc x < 256 ^ suc k)
shift_in-lt k acc x hx ha hk =
    let high : 256 ^ suc k ≤ 256 ^ 8 = pow-le-pow_right (omega arith) hk in
    (omega (arith, pow-suc 256 k), omega (arith, pow-suc 256 k))

big_endian-shift_in :
    (k acc x : ℕ)
    → x < 256
    → acc < 256 ^ k
    → suc k ≤ 8
    → big_endian (suc k) (shift_in acc x) ≡ big_endian k acc ++ (x ∷ [])
unfolding big_endian
big_endian-shift_in k acc x hx ha hk =
    rw ((shift_in-lt k acc x hx ha hk).0)
      (ap₂ (λ q b. big_endian k q ++ (b ∷ [])) (omega arith) (omega arith))

next_sum : (k l : ℕ) → k + suc l ≡ suc k + l
next_sum k l = omega arith

-- The bytes folded are those of the result, behind those of the accumulator.
big_endian-foldl_acc :
    (k acc : ℕ) (bytes : List ℕ)
    → All IsByte bytes
    → acc < 256 ^ k
    → k + length bytes ≤ 8
    → (big_endian (k + length bytes) (foldl shift_in acc bytes) ≡ big_endian k acc ++ bytes)
      × (foldl shift_in acc bytes < 256 ^ (k + length bytes))
big_endian-foldl_acc k acc [] h a b = rw (add-zero k) (sym (append-nil (big_endian k acc)), a)
big_endian-foldl_acc k acc (x ∷ bytes) h a b =
    let step = big_endian-shift_in k acc x h.0 a (omega arith) in
    let (same, bound) =
      big_endian-foldl_acc (suc k) (shift_in acc x) bytes h.1
        (shift_in-lt k acc x h.0 a (omega arith)).1 (omega arith) in
    rw (next_sum k (length bytes)) (
      same ∙ ap (λ front. front ++ bytes) step ∙ append_assoc (big_endian k acc) (x ∷ []) bytes,
      bound,
    )

-- The bytes read are the big-endian bytes of the size that they are folded to.
pub big_endian-foldl :
    (bytes : List ℕ)
    → All IsByte bytes
    → length bytes ≤ 8
    → (big_endian (length bytes) (foldl shift_in 0 bytes) ≡ bytes)
      × (foldl shift_in 0 bytes < 256 ^ length bytes)
unfolding big_endian
big_endian-foldl bytes h b =
    let (same, bound) = big_endian-foldl_acc 0 0 bytes h (omega arith) (omega arith) in
    (rw (zero-add) at same, rw (zero-add) at bound)

read_size-big_endian :
    (n s : ℕ) (mode : Bool) (rest : List ℕ)
    → IsU64 s
    → s < 256 ^ n
    → is_non_minimal n s ≡ false
    → read_size n (over mode (big_endian n s ++ rest)) ≡ ok (s, over mode rest)
unfolding read_size
read_size-big_endian n s mode rest h b minimal =
    rw (bytes_read, read_size) (rw (foldl-big_endian n s h b) (rw minimal))
  where
    bytes_read :
        read_bytes n (over mode (big_endian n s ++ rest)) ≡ some (big_endian n s, over mode rest)
    bytes_read =
        subst
          (λ k.
            read_bytes k (over mode (big_endian n s ++ rest))
            ≡ some (big_endian n s, over mode rest))
          (length-big_endian n s) (read_bytes-append mode (big_endian n s) rest)

-- In both modes the size that a head holds is read back, and what follows is left.
pub read_variadic-info :
    (s : ℕ) (mode : Bool) (rest : List ℕ)
    → IsU64 s
    → read_variadic_length_integer (info s) (over mode (big_endian (width s) s ++ rest))
      ≡ ok (s, over mode rest)
unfolding read_variadic_length_integer info width is_non_minimal
read_variadic-info s mode rest h = elim (Bool-cases (ltb s 24)) [
  | inl e ↦ rw e (unfold big_endian in ground arith)
  | inr e ↦ rw e (elim (Bool-cases (ltb s 256)) [
    | inl e₁ ↦ rw e₁ (read_size-big_endian 1 s mode rest h (ground arith) (ground arith))
    | inr e₁ ↦ rw e₁ (elim (Bool-cases (ltb s 65536)) [
      | inl e₂ ↦ rw e₂ (read_size-big_endian 2 s mode rest h (ground arith) (ground arith))
      | inr e₂ ↦ rw e₂ (elim (Bool-cases (ltb s 4294967296)) [
        | inl e₃ ↦ rw e₃ (read_size-big_endian 4 s mode rest h (ground arith) (ground arith))
        | inr e₃ ↦ rw e₃ (read_size-big_endian 8 s mode rest h (ground arith) (ground arith))
      ])
    ])
  ])
]
