-- ===== src/Decode/Containers/Ordered.antt =====
-- Collecting into a `BTreeMap`, as src/decode.rs does: two pairs with different keys in either order.
use oasis_cbor.Prelude.{◌≡◌, ◌≢◌, refl, sym, ap, ◌∙◌, List, [], ◌∷◌, Ordering, reverse_ordering}
use oasis_cbor.Decode.Containers.{insert_ordered}

-- The laws of `Ord` for the keys.
pub record IsOrder {K : Type 0} (order : K → K → Ordering) : Type 0 where
  pub same : (k l : K) → order k l ≡ Ordering.eq → k ≡ l
  pub flip : (k l : K) → order l k ≡ reverse_ordering (order k l)
  pub trans :
      (k l m : K) → order k l ≡ Ordering.lt → order l m ≡ Ordering.lt → order k m ≡ Ordering.lt

module _ {K : Type 0} {order : K → K → Ordering} (laws : IsOrder order) where
  flip_lt : (k l : K) → order k l ≡ Ordering.lt → order l k ≡ Ordering.gt
  flip_lt k l e = laws.flip k l ∙ ap reverse_ordering e

  flip_gt : (k l : K) → order k l ≡ Ordering.gt → order l k ≡ Ordering.lt
  flip_gt k l e = laws.flip k l ∙ ap reverse_ordering e

module _ {K V : Type 0} (order : K → K → Ordering) (laws : IsOrder order) where
  pub insert_lt :
      (a c : K) (x z : V) (rest : List (K × V))
      → order a c ≡ Ordering.lt
      → insert_ordered order a x ((c, z) ∷ rest) ≡ (a, x) ∷ (c, z) ∷ rest
  unfolding insert_ordered
  insert_lt a c x z rest e = rw (e, insert_ordered) refl

  insert_eq :
      (a c : K) (x z : V) (rest : List (K × V))
      → order a c ≡ Ordering.eq
      → insert_ordered order a x ((c, z) ∷ rest) ≡ (a, x) ∷ rest
  unfolding insert_ordered
  insert_eq a c x z rest e = rw (e, insert_ordered) refl

  insert_gt :
      (a c : K) (x z : V) (rest : List (K × V))
      → order a c ≡ Ordering.gt
      → insert_ordered order a x ((c, z) ∷ rest) ≡ (c, z) ∷ insert_ordered order a x rest
  unfolding insert_ordered
  insert_gt a c x z rest e = rw (e, insert_ordered) refl

  abbrev Commutes : K → V → K → V → List (K × V) → Type 0
  Commutes a x b y kept =
      insert_ordered order a x (insert_ordered order b y kept)
      ≡ insert_ordered order b y (insert_ordered order a x kept)

  -- `a` is in front, and `b` is not.
  lt_any :
      (a b c : K) (x y z : V) (rest : List (K × V)) (p : Ordering)
      → order a c ≡ Ordering.lt
      → order b c ≡ p
      → order a b ≡ Ordering.lt
      → Commutes a x b y ((c, z) ∷ rest)
  lt_any a b c x y z rest Ordering.lt ea eb e =
      rw (insert_lt b c y z rest eb, insert_lt a c x z rest ea)
        (insert_lt a b x y ((c, z) ∷ rest) e
          ∙ sym (
              insert_gt b a y x ((c, z) ∷ rest) (flip_lt laws a b e)
              ∙ ap (◌∷◌ (a, x)) (insert_lt b c y z rest eb)))
  lt_any a b c x y z rest Ordering.eq ea eb e =
      rw (insert_eq b c y z rest eb, insert_lt a c x z rest ea)
        (insert_lt a b x y rest e
          ∙ sym (
              insert_gt b a y x ((c, z) ∷ rest) (flip_lt laws a b e)
              ∙ ap (◌∷◌ (a, x)) (insert_eq b c y z rest eb)))
  lt_any a b c x y z rest Ordering.gt ea eb e =
      rw (insert_gt b c y z rest eb, insert_lt a c x z rest ea)
        (insert_lt a c x z (insert_ordered order b y rest) ea
          ∙ sym (
              insert_gt b a y x ((c, z) ∷ rest) (flip_lt laws a b e)
              ∙ ap (◌∷◌ (a, x)) (insert_gt b c y z rest eb)))

  pub insert_twice :
      (a b : K) (x y : V) (kept : List (K × V)) → order a b ≢ Ordering.eq → Commutes a x b y kept
  insert_twice a b x y [] apart = go (order a b) refl
    where
      go : (o : Ordering) → order a b ≡ o → Commutes a x b y []
      go Ordering.lt e =
          unfold insert_ordered in
          insert_lt a b x y [] e ∙ sym (insert_gt b a y x [] (flip_lt laws a b e))
      go Ordering.eq e = absurd (apart e)
      go Ordering.gt e =
          unfold insert_ordered in
          insert_gt a b x y [] e ∙ sym (insert_lt b a y x [] (flip_gt laws a b e))
  insert_twice a b x y ((c, z) ∷ rest) apart =
      go (order a c) (order b c) (order a b) refl refl refl (insert_twice a b x y rest apart)
    where
      go :
          (o p q : Ordering)
          → order a c ≡ o
          → order b c ≡ p
          → order a b ≡ q
          → Commutes a x b y rest
          → Commutes a x b y ((c, z) ∷ rest)
      go Ordering.lt Ordering.lt Ordering.lt ea eb e later = lt_any a b c x y z rest _ ea eb e
      go Ordering.lt Ordering.lt Ordering.eq ea eb e later = absurd (apart e)
      go Ordering.lt Ordering.lt Ordering.gt ea eb e later =
          sym (lt_any b a c y x z rest _ eb ea (flip_gt laws a b e))
      go Ordering.lt Ordering.eq q ea eb e later =
          lt_any a b c x y z rest _ ea eb (rw (laws.same b c eb) ea)
      go Ordering.lt Ordering.gt q ea eb e later =
          lt_any a b c x y z rest _ ea eb (laws.trans a c b ea (flip_gt laws b c eb))
      go Ordering.eq Ordering.lt q ea eb e later =
          sym (lt_any b a c y x z rest _ eb ea (rw (laws.same a c ea) eb))
      go Ordering.eq Ordering.eq q ea eb e later = absurd (apart (rw (laws.same b c eb) ea))
      go Ordering.eq Ordering.gt q ea eb e later =
          rw (insert_gt b c y z rest eb, insert_eq a c x z rest ea)
            (insert_eq a c x z (insert_ordered order b y rest) ea
              ∙ sym (insert_gt b a y x rest (rw (laws.same a c ea) eb)))
      go Ordering.gt Ordering.lt q ea eb e later =
          sym (lt_any b a c y x z rest _ eb ea (laws.trans b c a eb (flip_gt laws a c ea)))
      go Ordering.gt Ordering.eq q ea eb e later =
          rw (insert_eq b c y z rest eb, insert_gt a c x z rest ea)
            (insert_gt a b x y rest (rw (laws.same b c eb) ea)
              ∙ sym (insert_eq b c y z (insert_ordered order a x rest) eb))
      go Ordering.gt Ordering.gt q ea eb e later =
          rw (insert_gt b c y z rest eb, insert_gt a c x z rest ea)
            (insert_gt a c x z (insert_ordered order b y rest) ea
              ∙ ap (◌∷◌ (c, z)) later
              ∙ sym (insert_gt b c y z (insert_ordered order a x rest) eb))
