-- ===== src/Reader/Complete.antt =====
-- value/src/reader.rs in both modes, on a canonical encoding with more bytes behind it.
use oasis_cbor.Prelude.{
  ℕ, pred, ℤ, pos, negsuc, ◌<◌, ◌≤◌, ◌≡◌, refl, ◌∙◌, Bool, false, Option, none, some, List, ◌++◌,
  append_assoc, length, length-append, arith,
}
use oasis_cbor.Value.{
  Value, Values, Entries, unsigned, negative, byte_string, text_string, array, map, tag, simple,
  no_values, value, no_entries, entry, discriminant, count_values, count_entries,
}
use oasis_cbor.Nesting.{nested, Within, Within-is_exhausted, Within-nested, Within-le}
use oasis_cbor.Encoding.Head.{IsU64, head, info, length-head}
use oasis_cbor.Encoding.Canonical.{
  encoding, encoding_values, encoding_entries, depth, depth_values, depth_entries, IsCanonical,
  AreCanonical, HaveCanonical, IsSorted, IsBelow,
}
use oasis_cbor.Encoding.Ordered.{discriminant-IsU64}
use oasis_cbor.Reader.{
  over, ok, Decoder, read_content, read_elements, read_entries, is_out_of_order, read_array_content,
  read_map_content, read_tagged_content, decode_complete_data_item,
}
use oasis_cbor.Reader.Item.{
  decode-head, content_unsigned, content_negative, content_bytes, content_text, content_simple,
}

-- `k` may stand behind the key read last.
abbrev pub Follows : Option Value → Entries → Type 0
Follows none es = Unit {0}
Follows (some last) es = IsBelow last es

in_order :
    (last : Option Value) (k v : Value) (es : Entries)
    → Follows last (entry k v es)
    → is_out_of_order last k ≡ false
unfolding is_out_of_order
in_order none k v es h = refl
in_order (some last) k v es h = rw (h, is_out_of_order)

-- The head of an item in front, and its content behind.
opened :
    (f : ℕ) (d : Option ℤ) (k l s : ℕ) (mode : Bool) (body rest : List ℕ)
    → length (head l s ++ body) ≤ f
    → Within d k
    → l < 8
    → IsU64 s
    → decode_complete_data_item f d (over mode ((head l s ++ body) ++ rest))
      ≡ read_content
          (decode_complete_data_item (pred f) (nested d))
          l
          (info s)
          s
          (over mode (body ++ rest))
opened f d k l s mode body rest hf w hl hs = rw (append_assoc (head l s) body rest) (
    decode-head f d l s mode (body ++ rest)
      (omega (arith, length-append (head l s) body, length-head l s)) (Within-is_exhausted d k w) hl
      hs)

abbrev inner : ℕ → Option ℤ → Decoder
inner f d = decode_complete_data_item (pred f) (nested d)

-- A head takes a byte at least off the fuel.
body_fuel : (l s f : ℕ) (body : List ℕ) → length (head l s ++ body) ≤ f → length body ≤ pred f
body_fuel l s f body h = omega (arith, length-append (head l s) body, length-head l s)

mutual
  unfolding encoding IsCanonical depth read_content read_array_content read_map_content
      read_tagged_content read_elements read_entries

  reads :
      (v : Value) (f : ℕ) (d : Option ℤ) (mode : Bool) (rest : List ℕ)
      → IsCanonical v
      → Within d (depth v)
      → length (encoding v) ≤ f
      → decode_complete_data_item f d (over mode (encoding v ++ rest)) ≡ ok (v, over mode rest)
  reads (unsigned n) f d mode rest c w h =
      decode-head f d 0 n mode rest (omega (arith, length-head 0 n)) (Within-is_exhausted d 0 w)
        (omega arith) c
      ∙ content_unsigned (inner f d) (info n) mode rest n
  reads (negative (pos n)) f d mode rest c w h = absurd c
  reads (negative (negsuc n)) f d mode rest c w h =
      decode-head f d 1 n mode rest (omega (arith, length-head 1 n)) (Within-is_exhausted d 0 w)
        (omega arith) c
      ∙ content_negative (inner f d) (info n) mode rest n
  reads (byte_string bs) f d mode rest c w h =
      opened f d 0 2 (length bs) mode bs rest h w (omega arith) c.1
      ∙ content_bytes (inner f d) (info (length bs)) mode rest bs
  reads (text_string bs) f d mode rest c w h =
      opened f d 0 3 (length bs) mode bs rest h w (omega arith) c.1
      ∙ content_text (inner f d) (info (length bs)) mode rest bs c.2
  reads (array vs) f d mode rest c w h =
      opened f d _ 4 (count_values vs) mode (encoding_values vs) rest h w (omega arith) c.0
      ∙ rw (reads_values vs (pred f) d mode rest c.1 w (body_fuel 4 (count_values vs) f _ h))
  reads (map es) f d mode rest c w h =
      opened f d _ 5 (count_entries es) mode (encoding_entries es) rest h w (omega arith) c.0
      ∙ rw (
          reads_entries es none (pred f) d mode rest c.2 c.1 tt w
            (body_fuel 5 (count_entries es) f _ h))
  reads (tag t v) f d mode rest c w h =
      opened f d _ 6 t mode (encoding v) rest h w (omega arith) c.0
      ∙ rw (
          reads v (pred f) (nested d) mode rest c.1 (Within-nested d (depth v) w)
            (body_fuel 6 t f _ h))
  reads (simple s) f d mode rest c w h =
      decode-head f d 7 (discriminant s) mode rest (omega (arith, length-head 7 (discriminant s)))
        (Within-is_exhausted d 0 w) (omega arith) (discriminant-IsU64 s)
      ∙ content_simple (inner f d) mode rest s

  reads_values :
      (vs : Values) (f : ℕ) (d : Option ℤ) (mode : Bool) (rest : List ℕ)
      → AreCanonical vs
      → Within d (depth_values vs)
      → length (encoding_values vs) ≤ f
      → read_elements
          (decode_complete_data_item f (nested d))
          (count_values vs)
          (over mode (encoding_values vs ++ rest))
        ≡ ok (vs, over mode rest)
  reads_values no_values f d mode rest c w h = refl
  reads_values (value v vs) f d mode rest c w h =
      let lengths = length-append (encoding v) (encoding_values vs) in
      rw (append_assoc (encoding v)) (
        rw
          (reads v f (nested d) mode (encoding_values vs ++ rest) c.0
            (Within-nested d _ (Within-le d _ _ (omega arith) w)) (omega (arith, lengths)))
          (rw (
            reads_values vs f d mode rest c.1 (Within-le d _ _ (omega arith) w)
              (omega (arith, lengths)))))

  reads_entries :
      (es : Entries) (last : Option Value) (f : ℕ) (d : Option ℤ) (mode : Bool) (rest : List ℕ)
      → HaveCanonical es
      → IsSorted es
      → Follows last es
      → Within d (depth_entries es)
      → length (encoding_entries es) ≤ f
      → read_entries
          (decode_complete_data_item f (nested d))
          (count_entries es)
          last
          (over mode (encoding_entries es ++ rest))
        ≡ ok (es, over mode rest)
  reads_entries no_entries last f d mode rest c o b w h = refl
  reads_entries (entry k v es) last f d mode rest c o b w h =
      let lengths = length-append (encoding k) (encoding v ++ encoding_entries es) in
      let lengths' = length-append (encoding v) (encoding_entries es) in
      rw (append_assoc (encoding k)) (
        rw
          (reads k f (nested d) mode ((encoding v ++ encoding_entries es) ++ rest) c.0
            (Within-nested d _ (Within-le d _ _ (omega arith) w)) (omega (arith, lengths)))
          (rw (in_order last k v es b, append_assoc (encoding v))
            (rw
              (reads v f (nested d) mode (encoding_entries es ++ rest) c.1
                (Within-nested d _ (Within-le d _ _ (omega arith) w))
                (omega (arith, lengths, lengths')))
              (rw (
                reads_entries es (some k) f d mode rest c.2 o.1 o.0
                  (Within-le d _ _ (omega arith) w) (omega (arith, lengths, lengths')))))))

-- On any input that begins with the canonical encoding of a value nested within the limit, the
-- decoder returns that value in both modes and leaves the bytes behind it; fuel for each byte of the
-- encoding is enough.
pub decode-encoding :
    (v : Value) (f : ℕ) (d : Option ℤ) (mode : Bool) (rest : List ℕ)
    → IsCanonical v
    → Within d (depth v)
    → length (encoding v) ≤ f
    → decode_complete_data_item f d (over mode (encoding v ++ rest)) ≡ ok (v, over mode rest)
decode-encoding v f d mode rest c w h = reads v f d mode rest c w h
