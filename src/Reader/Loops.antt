-- ===== src/Reader/Loops.antt =====
-- The loops of value/src/reader.rs over the elements of an array and the entries of a map.
use oasis_cbor.Prelude.{
  ℕ, zero, suc, ℤ, ◌<◌, ◌≡◌, refl, ap, ap₂, ◌∙◌, Bool, true, false, not, ◌&&◌, Option, none, some,
  List, ◌++◌, length, All, if◌then◌else◌, arith,
}
use oasis_cbor.Value.{Value, Values, Entries, no_entries, entry, count_values, count_entries}
use oasis_cbor.Nesting.{is_exhausted, nested, Within, Within-zero, Within-suc, Within-max}
use oasis_cbor.Encoding.Bytes.{IsByte}
use oasis_cbor.Encoding.Utf8.{}
use oasis_cbor.Encoding.Canonical.{
  encoding, encoding_values, encoding_entries, depth, depth_values, depth_entries, IsCanonical,
  AreCanonical, HaveCanonical, IsSorted,
}
use oasis_cbor.Reader.{
  Reader, err, out_of_order_key, Decoder, read_elements, read_entries, is_out_of_order,
}
use oasis_cbor.Reader.Outcome.{
  Meets, returns, raises, Meets-bind, Meets-map, Took, Took-map, Took-any, Took-Both, Took-nothing,
  Took-IsByte, Took-length,
}
use oasis_cbor.Reader.Complete.{Follows}

abbrev pub ItemRead : Option ℤ → Value → List ℕ → Type 0
ItemRead d v front = (front ≡ encoding v) × IsCanonical v × Within d (depth v)

-- A decoder for the items inside one that is nested `d` deep, on inputs shorter than the fuel.
abbrev pub Decodes : ℕ → Option ℤ → Decoder → Type 0
Decodes f d decode =
    (r : Reader)
    → All IsByte r.remaining_cbor
    → length r.remaining_cbor < f
    → Meets (λ p. Took 1 r (ItemRead d) p.0 p.1) (decode r)

abbrev pub ElementsRead : Option ℤ → ℕ → Values → List ℕ → Type 0
ElementsRead d n vs front =
    (front ≡ encoding_values vs)
    × (count_values vs ≡ n)
    × AreCanonical vs
    × Within d (depth_values vs)

abbrev pub EntriesRead : Option ℤ → ℕ → Option Value → Entries → List ℕ → Type 0
EntriesRead d n last es front =
    (front ≡ encoding_entries es)
    × (count_entries es ≡ n)
    × HaveCanonical es
    × IsSorted es
    × Follows last es
    × Within d (depth_entries es)

follows :
    (last : Option Value) (k v : Value) (es : Entries)
    → is_out_of_order last k ≡ false
    → Follows last (entry k v es)
unfolding is_out_of_order
follows none k v es h = tt
follows (some last) k v es h = ground arith

module _ (f : ℕ) (d : Option ℤ) (decode : Decoder) (decodes : Decodes f (nested d) decode)
    (open_limit : is_exhausted d ≡ false) where
  pub read_elements-Meets :
      (n : ℕ) (r : Reader)
      → All IsByte r.remaining_cbor
      → length r.remaining_cbor < f
      → Meets (λ p. Took 0 r (ElementsRead d n) p.0 p.1) (read_elements decode n r)
  unfolding read_elements encoding IsCanonical depth
  read_elements-Meets zero r bytes fuel =
      returns (Took-nothing r (refl, refl, tt, Within-zero d open_limit))
  read_elements-Meets (suc n) r bytes fuel = Meets-bind (decodes r bytes fuel) λ (v, r₁) t.
      Meets-bind (read_elements-Meets n r₁ (Took-IsByte t bytes) (omega (arith, Took-length t)))
        λ (vs, r₂) u. returns (
          Took-map (Took-any (Took-Both t u))
            λ front _ _ (xs, ys, e, (p, c, w), (q, count, cs, ws)). (
              e ∙ ap₂ ◌++◌ p q,
              ap suc count,
              (c, cs),
              Within-max d (suc (depth v)) (depth_values vs) (Within-suc d (depth v) open_limit w)
                  ws,
            ))

  -- The value of an entry, after the test of its key.
  value_read :
      (out_of_order : Bool) (r : Reader)
      → All IsByte r.remaining_cbor
      → length r.remaining_cbor < f
      → Meets
          (λ p. Took 1 r (ItemRead (nested d)) p.0 p.1 × (out_of_order ≡ false))
          (if out_of_order then err out_of_order_key else decode r)
  value_read true r bytes fuel = raises out_of_order_key
  value_read false r bytes fuel = Meets-map (decodes r bytes fuel) λ p t. (t, refl)

  pub read_entries-Meets :
      (n : ℕ) (last : Option Value) (r : Reader)
      → All IsByte r.remaining_cbor
      → length r.remaining_cbor < f
      → Meets (λ p. Took 0 r (EntriesRead d n last) p.0 p.1) (read_entries decode n last r)
  unfolding read_entries encoding IsCanonical depth
  read_entries-Meets zero last r bytes fuel =
      returns (Took-nothing r (refl, refl, tt, tt, nothing last, Within-zero d open_limit))
    where
      nothing : (last : Option Value) → Follows last no_entries
      nothing none = tt
      nothing (some last) = tt
  read_entries-Meets (suc n) last r bytes fuel = Meets-bind (decodes r bytes fuel) λ (k, r₁) t.
      Meets-bind
        (value_read (is_out_of_order last k && not r₁.non_strict) r₁ (Took-IsByte t bytes)
          (omega (arith, Took-length t)))
        λ (v, r₂) (u, in_order).
          Meets-bind
            (read_entries-Meets n (some k) r₂ (Took-IsByte u (Took-IsByte t bytes))
              (omega (arith, Took-length t, Took-length u)))
            λ (es, r₃) w. returns (
              Took-map (Took-any (Took-Both t (Took-Both u w)))
                λ front _ strict
                    (
                      xs,
                      yzs,
                      e,
                      (p, ck, wk),
                      (ys, zs, e', (q, cv, wv), (o, count, cs, sorted, above, ws)),
                    ).
                  (
                    e ∙ ap₂ ◌++◌ p (e' ∙ ap₂ ◌++◌ q o),
                    ap suc count,
                    (ck, cv, cs),
                    (above, sorted),
                    follows last k v es (ground (arith, t.mode)),
                    Within-max d (suc (depth k)) _ (Within-suc d (depth k) open_limit wk)
                        (Within-max d (suc (depth v)) _ (Within-suc d (depth v) open_limit wv) ws),
                  ))
