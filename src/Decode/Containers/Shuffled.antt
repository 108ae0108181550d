-- ===== src/Decode/Containers/Shuffled.antt =====
-- `collect` into a `BTreeMap`, as src/decode.rs uses it, of pairs in any order: the writer puts the
-- entries of a map in the order of their encoded keys, which need not be that of the keys.
use oasis_cbor.Prelude.{◌≡◌, ◌≢◌, refl, sym, ap, ◌∙◌, List, [], ◌∷◌, ◌++◌, Ordering}
use oasis_cbor.Decode.Containers.{insert_ordered, collect_ordered}
use oasis_cbor.Decode.Containers.Ordered.{IsOrder, insert_lt, insert_twice}

-- One list has the items of the other in another order.
abbrev pub IsShuffle : {A : Type 0} → List A → List A → Type 0
IsShuffle [] l' = l' ≡ []
IsShuffle {A} (x ∷ l) l' =
    (front back : List A) × (l' ≡ front ++ (x ∷ back)) × IsShuffle l (front ++ back)

module _ {K V : Type 0} (order : K → K → Ordering) where
  abbrev pub AllAbove : K → List (K × V) → Type 0
  AllAbove k [] = Unit {0}
  AllAbove k ((l, w) ∷ rest) = (order k l ≡ Ordering.lt) × AllAbove k rest

  -- The pairs of an ordered map, as it iterates over them.
  abbrev pub IsAscending : List (K × V) → Type 0
  IsAscending [] = Unit {0}
  IsAscending ((k, v) ∷ rest) = AllAbove k rest × IsAscending rest

  abbrev pub AllApart : K → List (K × V) → Type 0
  AllApart k [] = Unit {0}
  AllApart k ((l, w) ∷ rest) = (order k l ≢ Ordering.eq) × AllApart k rest

  pub AllAbove-AllApart : (k : K) (l : List (K × V)) → AllAbove k l → AllApart k l
  AllAbove-AllApart k [] h = tt
  AllAbove-AllApart k ((l, w) ∷ rest) h = ((λ e. cc (e, h.0)), AllAbove-AllApart k rest h.1)

  AllApart-middle :
      (k l : K) (w : V) (front back : List (K × V))
      → order k l ≢ Ordering.eq
      → AllApart k (front ++ back)
      → AllApart k (front ++ ((l, w) ∷ back))
  AllApart-middle k l w [] back e h = (e, h)
  AllApart-middle k l w (x ∷ front) back e h = (h.0, AllApart-middle k l w front back e h.1)

  pub AllApart-IsShuffle :
      (k : K) (l l' : List (K × V)) → IsShuffle l l' → AllApart k l → AllApart k l'
  AllApart-IsShuffle k [] l' s h = rw s tt
  AllApart-IsShuffle k ((l, w) ∷ rest) l' (front, back, e, s) h =
      rw e (AllApart-middle k l w front back h.0 (AllApart-IsShuffle k rest (front ++ back) s h.1))

  AllApart-front :
      (k : K) (front back : List (K × V)) → AllApart k (front ++ back) → AllApart k front
  AllApart-front k [] back h = tt
  AllApart-front k (x ∷ front) back h = (h.0, AllApart-front k front back h.1)

module _ {K V : Type 0} (order : K → K → Ordering) (laws : IsOrder order) where
  -- A pair may arrive earlier.
  collect_middle :
      (k : K) (v : V) (front back kept : List (K × V))
      → AllApart order k front
      → collect_ordered order kept (front ++ ((k, v) ∷ back))
        ≡ collect_ordered order (insert_ordered order k v kept) (front ++ back)
  unfolding collect_ordered
  collect_middle k v [] back kept h = refl
  collect_middle k v ((l, w) ∷ front) back kept h =
      collect_middle k v front back (insert_ordered order l w kept) h.1
      ∙ ap (λ m. collect_ordered order m (front ++ back)) (insert_twice order laws k l v w kept h.0)

  collect_insert :
      (k : K) (v : V) (l kept : List (K × V))
      → AllApart order k l
      → collect_ordered order (insert_ordered order k v kept) l
        ≡ insert_ordered order k v (collect_ordered order kept l)
  unfolding collect_ordered
  collect_insert k v [] kept h = refl
  collect_insert k v ((l, w) ∷ rest) kept h =
      ap (λ m. collect_ordered order m rest) (sym (insert_twice order laws k l v w kept h.0))
      ∙ collect_insert k v rest (insert_ordered order l w kept) h.1

  collect_shuffled :
      (l l' kept : List (K × V))
      → IsAscending order l
      → IsShuffle l l'
      → collect_ordered order kept l' ≡ collect_ordered order kept l
  unfolding collect_ordered
  collect_shuffled [] l' kept asc s = rw s refl
  collect_shuffled ((k, v) ∷ rest) l' kept asc (front, back, e, s) =
      let apart = AllApart-front order k front back (
        AllApart-IsShuffle order k rest (front ++ back) s (AllAbove-AllApart order k rest asc.0)) in
      ap (collect_ordered order kept) e
      ∙ collect_middle k v front back kept apart
      ∙ collect_shuffled rest (front ++ back) (insert_ordered order k v kept) asc.1 s

  insert_first :
      (k : K) (v : V) (l : List (K × V))
      → AllAbove order k l
      → insert_ordered order k v l ≡ (k, v) ∷ l
  insert_first k v [] h = unfold insert_ordered in refl
  insert_first k v ((l, w) ∷ rest) h = insert_lt order laws k l v w rest h.0

  collect_ascending : (l : List (K × V)) → IsAscending order l → collect_ordered order [] l ≡ l
  unfolding collect_ordered
  collect_ascending [] asc = refl
  collect_ascending ((k, v) ∷ rest) asc =
      collect_insert k v rest [] (AllAbove-AllApart order k rest asc.0)
      ∙ ap (insert_ordered order k v) (collect_ascending rest asc.1)
      ∙ insert_first k v rest asc.0

  pub collect_ordered-IsShuffle :
      (l l' : List (K × V)) → IsAscending order l → IsShuffle l l' → collect_ordered order [] l' ≡ l
  collect_ordered-IsShuffle l l' asc s = collect_shuffled l l' [] asc s ∙ collect_ascending l asc
