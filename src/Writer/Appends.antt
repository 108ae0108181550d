-- ===== src/Writer/Appends.antt =====
-- What `Writer::encode_cbor` of value/src/writer.rs does to the vector it is given, on any value.
use oasis_cbor.Prelude.{
  ℕ, ℤ, pos, negsuc, ◌<◌, ◌≡◌, refl, sym, ap, ◌∙◌, Bool, true, false, Option, none, some, List, [],
  ◌∷◌, ◌++◌, append_assoc, append-nil, length, Ordering, Bool-cases, inl, inr, if◌then◌else◌, arith,
  ◌==◌,
}
use oasis_cbor.Value.{
  Value, Values, Entries, unsigned, negative, byte_string, text_string, array, map, tag, simple,
  no_values, value, no_entries, entry, discriminant, count_values,
}
use oasis_cbor.Value.Order.{compare_bytes}
use oasis_cbor.Nesting.{is_exhausted, nested}
use oasis_cbor.Encoding.Head.{head}
use oasis_cbor.Writer.{
  Written, done, failed, and_then, EncoderError, too_much_nesting, duplicate_map_key, Encoded,
  start_item, insert_by_key, sort_by_key, eq_bytes, dedup_after, dedup_by_key, write_entries,
  write_map, Keys, keys, key_failed, add_key, finish_map, encode_cbor, encode_values, encode_keys,
  write_nested,
}
use oasis_cbor.Writer.Head.{start_item-head}

-- The vector after a call, successful or not.
abbrev pub after : Written → List ℕ
after (done buf) = buf
after (failed e buf) = buf

-- The vector begins with what was in it.
abbrev pub Extends : List ℕ → Written → Type 0
Extends buf w = (more : List ℕ) × (after w ≡ buf ++ more)

unchanged : (e : EncoderError) (buf : List ℕ) → Extends buf (failed e buf)
unchanged e buf = ([], sym (append-nil buf))

guarded :
    (d : Option ℤ) (w : Written) (buf : List ℕ)
    → Extends buf w
    → Extends buf (if is_exhausted d then failed too_much_nesting buf else w)
guarded none w buf h = h
guarded (some (pos n)) w buf h = h
guarded (some (negsuc n)) w buf h = unchanged too_much_nesting buf

-- A call behind the head of an item, and one behind another call.
behind_head :
    (l s : ℕ) (buf : List ℕ) (next : List ℕ → Written)
    → l < 8
    → ((b : List ℕ) → Extends b (next b))
    → Extends buf (next (start_item l s buf))
behind_head l s buf next small h =
    let (more, e) = h (start_item l s buf) in
    (
      head l s ++ more,
      e ∙ ap (λ b. b ++ more) (start_item-head l s buf small) ∙ append_assoc buf (head l s) more,
    )

and_then-Extends :
    (w : Written) (next : List ℕ → Written) (buf : List ℕ)
    → Extends buf w
    → ((b : List ℕ) → Extends b (next b))
    → Extends buf (and_then w next)
and_then-Extends (failed e out) next buf (more, same) h = (more, same)
and_then-Extends (done out) next buf (more, same) h =
    let (rest, e) = h out in
    (more ++ rest, e ∙ ap (λ b. b ++ rest) same ∙ append_assoc buf more rest)

appended : (bs b : List ℕ) → Extends b (done (b ++ bs))
appended bs b = (bs, refl)

nothing : (b : List ℕ) → Extends b (done b)
nothing b = ([], sym (append-nil b))

-- The calls that are kept for the values of a map.
abbrev AllExtend : List Encoded → Type 0
AllExtend [] = Unit {0}
AllExtend (a ∷ rest) = ((b : List ℕ) → Extends b (a.1 b)) × AllExtend rest

insert_by_key-AllExtend :
    (a : Encoded) (l : List Encoded)
    → ((b : List ℕ) → Extends b (a.1 b))
    → AllExtend l
    → AllExtend (insert_by_key a l)
unfolding insert_by_key
insert_by_key-AllExtend a [] h k = (h, tt)
insert_by_key-AllExtend a (b ∷ rest) h k =
    go (compare_bytes a.0 b.0) refl (insert_by_key-AllExtend a rest h k.1)
  where
    go :
        (o : Ordering)
        → compare_bytes a.0 b.0 ≡ o
        → AllExtend (insert_by_key a rest)
        → AllExtend (insert_by_key a (b ∷ rest))
    go Ordering.lt e later = rw (e, insert_by_key) (h, k)
    go Ordering.eq e later = rw (e, insert_by_key) (h, k)
    go Ordering.gt e later = rw (e, insert_by_key) (k.0, later)

sort_by_key-AllExtend : (l : List Encoded) → AllExtend l → AllExtend (sort_by_key l)
unfolding sort_by_key
sort_by_key-AllExtend [] h = tt
sort_by_key-AllExtend (a ∷ rest) h =
    insert_by_key-AllExtend a (sort_by_key rest) h.0 (sort_by_key-AllExtend rest h.1)

dedup_after-AllExtend : (a : Encoded) (l : List Encoded) → AllExtend l → AllExtend (dedup_after a l)
unfolding dedup_after
dedup_after-AllExtend a [] h = tt
dedup_after-AllExtend a (b ∷ rest) h =
    go (eq_bytes a.0 b.0) refl (dedup_after-AllExtend a rest h.1) (dedup_after-AllExtend b rest h.1)
  where
    go :
        (t : Bool)
        → eq_bytes a.0 b.0 ≡ t
        → AllExtend (dedup_after a rest)
        → AllExtend (dedup_after b rest)
        → AllExtend (dedup_after a (b ∷ rest))
    go true e same other = rw (e, dedup_after) same
    go false e same other = rw (e, dedup_after) (h.0, other)

dedup_by_key-AllExtend : (l : List Encoded) → AllExtend l → AllExtend (dedup_by_key l)
unfolding dedup_by_key
dedup_by_key-AllExtend [] h = tt
dedup_by_key-AllExtend (a ∷ rest) h = (h.0, dedup_after-AllExtend a rest h.1)

write_entries-Extends :
    (l : List Encoded) → AllExtend l → (buf : List ℕ) → Extends buf (write_entries l buf)
unfolding write_entries
write_entries-Extends [] h buf = nothing buf
write_entries-Extends ((key, write_value) ∷ rest) h buf =
    let (more, e) =
      and_then-Extends (write_value (buf ++ key)) (write_entries rest) (buf ++ key)
        (h.0 (buf ++ key)) (write_entries-Extends rest h.1) in
    (key ++ more, e ∙ append_assoc buf key more)

write_map-Extends :
    (l : List Encoded) (buf : List ℕ) → AllExtend l → Extends buf (write_map 5 l buf)
unfolding write_map
write_map-Extends l buf h =
    elim (Bool-cases (length (sort_by_key l) == length (dedup_by_key (sort_by_key l)))) [
      | inl e ↦ rw e (
          behind_head 5 (length (sort_by_key l)) buf (write_entries (dedup_by_key (sort_by_key l)))
            (omega arith)
            (write_entries-Extends (dedup_by_key (sort_by_key l))
              (dedup_by_key-AllExtend (sort_by_key l) (sort_by_key-AllExtend l h))))
      | inr e ↦ rw e (unchanged duplicate_map_key buf)
    ]

abbrev KeysExtend : Keys → Type 0
KeysExtend (keys l) = AllExtend l
KeysExtend (key_failed e) = Unit {0}

add_key-KeysExtend :
    (w : Written) (write_value : List ℕ → Written) (rest : Keys)
    → ((b : List ℕ) → Extends b (write_value b))
    → KeysExtend rest
    → KeysExtend (add_key w write_value rest)
add_key-KeysExtend (done key) write_value (keys l) h k = (h, k)
add_key-KeysExtend (done key) write_value (key_failed e) h k = tt
add_key-KeysExtend (failed e key) write_value rest h k = tt

finish_map-Extends : (ks : Keys) (buf : List ℕ) → KeysExtend ks → Extends buf (finish_map 5 ks buf)
finish_map-Extends (keys l) buf h = write_map-Extends l buf h
finish_map-Extends (key_failed e) buf h = unchanged e buf

mutual
  unfolding encode_cbor

  appends : (v : Value) (d : Option ℤ) (buf : List ℕ) → Extends buf (encode_cbor v d buf)
  appends (unsigned n) d buf = guarded d _ buf (behind_head 0 n buf done (omega arith) nothing)
  appends (negative z) d buf = guarded d _ buf (behind_head 1 _ buf done (omega arith) nothing)
  appends (byte_string bs) d buf =
      guarded d _ buf
        (behind_head 2 (length bs) buf (λ b. done (b ++ bs)) (omega arith) (appended bs))
  appends (text_string bs) d buf =
      guarded d _ buf
        (behind_head 3 (length bs) buf (λ b. done (b ++ bs)) (omega arith) (appended bs))
  appends (array vs) d buf = guarded d _ buf (
      behind_head 4 (count_values vs) buf (encode_values vs (nested d)) (omega arith)
        (appends_values vs (nested d)))
  appends (map es) d buf = guarded d _ buf (finish_map-Extends _ buf (appends_keys es (nested d)))
  appends (tag t v) d buf =
      guarded d _ buf
        (behind_head 6 t buf (encode_cbor v (nested d)) (omega arith) (appends v (nested d)))
  appends (simple s) d buf =
      guarded d _ buf (behind_head 7 (discriminant s) buf done (omega arith) nothing)

  appends_values :
      (vs : Values) (d : Option ℤ) (buf : List ℕ) → Extends buf (encode_values vs d buf)
  appends_values no_values d buf = nothing buf
  appends_values (value v vs) d buf =
      and_then-Extends (encode_cbor v d buf) (encode_values vs d) buf (appends v d buf)
        (appends_values vs d)

  appends_keys : (es : Entries) (d : Option ℤ) → KeysExtend (encode_keys es d)
  appends_keys no_entries d = tt
  appends_keys (entry k v es) d =
      add_key-KeysExtend (encode_cbor k d []) (encode_cbor v d) (encode_keys es d) (appends v d)
        (appends_keys es d)

-- Whatever the value, the limit and the outcome, the encoder only appends: after the call, also one
-- that returns an error, the vector begins with the bytes that were in it.
pub write_nested-Extends :
    (v : Value) (buf : List ℕ) (d : Option ℤ) → Extends buf (write_nested v buf d)
unfolding write_nested
write_nested-Extends v buf d = appends v d buf
