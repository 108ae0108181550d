-- ===== src/Serde/Accesses.antt =====
-- src/serde/de.rs: the state machine that a map's visitor steps through, a call of `next_key` and one of
-- `next_value` in turn.
use oasis_cbor.Prelude.{◌≡◌, refl, ap, none, some, List, [], ◌∷◌, ◌++◌}
use oasis_cbor.Value.{Value, Entries, no_entries, entry}
use oasis_cbor.Serde.{ok}
use oasis_cbor.Serde.Visits.{next_key, next_value}

-- A round: the access gives a key and its value, and is left in another state.
pub data Round (s : Entries) (pair : Value × Value) (s' : Entries) : Type 0 where
  asked :
      {between : Entries}
      → next_key s ≡ (some pair.0, between)
      → next_value between ≡ ok (pair.1, s')
      → Round s pair s'

-- Rounds one after the other, with what they give.
pub data Rounds : Entries → List (Value × Value) → Entries → Type 0 where
  stopped : {s : Entries} → Rounds s [] s
  round :
      {s s' t : Entries} {pair : Value × Value} {given : List (Value × Value)}
      → Round s pair s'
      → Rounds s' given t
      → Rounds s (pair ∷ given) t

unfoldable pub pairs_of : Entries → List (Value × Value)
pairs_of no_entries = []
pairs_of (entry k v es) = (k, v) ∷ pairs_of es

-- The access gives what is left, and ends there.
pairs_of-Rounds : (s : Entries) → Rounds s (pairs_of s) no_entries
unfolding pairs_of next_key next_value
pairs_of-Rounds no_entries = stopped
pairs_of-Rounds (entry k v es) = round (asked refl refl) (pairs_of-Rounds es)

-- A round takes the first entry that is left.
Round-entry :
    (s : Entries) (pair : Value × Value) (s' : Entries)
    → Round s pair s'
    → s ≡ entry pair.0 pair.1 s'
unfolding next_key next_value
Round-entry no_entries pair s' (asked e e') = cc
Round-entry (entry k v es) pair s' (asked e e') = cc

pairs_left :
    {s t : Entries} {given : List (Value × Value)}
    → Rounds s given t
    → pairs_of s ≡ given ++ pairs_of t
unfolding pairs_of
pairs_left stopped = refl
pairs_left (round {s} {s'} {pair} r rest) =
    rw (Round-entry s pair s' r) (ap (◌∷◌ pair) (pairs_left rest))

-- However many rounds a visitor has gone through, the access can go on to its end, where it has no key,
-- and by then it has given each entry of the map once and in order.
pub pairs_of-next_key :
    (s t : Entries) (given : List (Value × Value))
    → Rounds s given t
    → (rest : List (Value × Value)) × (end : Entries) × Rounds t rest end
      × (next_key end ≡ (none, end))
      × (pairs_of s ≡ given ++ rest)
unfolding next_key
pairs_of-next_key s t given r = (pairs_of t, no_entries, pairs_of-Rounds t, refl, pairs_left r)
