-- ===== src/MachineTraffic/Counters.antt =====
-- The arithmetic of the counters, and one reading of the network cards.
use Prim.Native.Nat.{Ordering}
use Prim.Native.String.{compare as compare_texts}
use yz_agent.Prelude.{
  ℕ, ◌+◌, ◌-◌, String, Bool, true, false, not, ◌||◌, List, [], ◌∷◌, Option, none, some, ltb, leb,
  ◌==◌, string_eq, if◌then◌else◌, lookup,
}
use yz_agent.MachineTraffic.Policy.{Sample, Counter, Reading}

abbrev pub max_bytes : ℕ
max_bytes = 9007199254740991

unfoldable pub add : ℕ → ℕ → ℕ
add a b = if leb max_bytes a || leb (max_bytes - a) b then max_bytes else a + b

unfoldable pub delta : ℕ → ℕ → Bool → ℕ
delta current previous reset = if reset || ltb current previous then current else current - previous

abbrev pub empty_reading : Reading
empty_reading = record { boot = ""; counters = [] }

-- Whether the counter of a card has begun anew since the reading before.
abbrev pub is_reset : Reading → Reading → Counter → Option Counter → Bool
is_reset previous reading c none = true
is_reset previous reading c (some prev) =
    not (reading.boot == previous.boot) || not (c.identity == prev.identity)

abbrev pub prev_rx : Option Counter → ℕ
prev_rx none = 0
prev_rx (some prev) = prev.rx

abbrev pub prev_tx : Option Counter → ℕ
prev_tx none = 0
prev_tx (some prev) = prev.tx

-- What one card adds.
unfoldable pub delta_rx : Reading → Reading → String × Counter → ℕ
unfolding delta
delta_rx previous reading (name, c) =
    let prev = lookup name previous.counters in
    delta c.rx (prev_rx prev) (is_reset previous reading c prev)

unfoldable pub delta_tx : Reading → Reading → String × Counter → ℕ
unfolding delta
delta_tx previous reading (name, c) =
    let prev = lookup name previous.counters in
    delta c.tx (prev_tx prev) (is_reset previous reading c prev)

-- The loop over the cards of a reading; the first reading after a start adds nothing.
unfoldable pub add_cards : Reading → Reading → List (String × Counter) → Sample → Sample
unfolding add delta_rx delta_tx
add_cards previous reading [] s = s
add_cards previous reading (card ∷ cards) s = add_cards previous reading cards (
    if not (previous.boot == "")
    then record s {
      rx = add s.rx (delta_rx previous reading card);
      tx = add s.tx (delta_tx previous reading card);
    }
    else s)

abbrev pub text_lt : String → String → Bool
text_lt a b = elim (compare_texts a b) [ Ordering.lt ↦ true | _ ↦ false ]

unfoldable pub insert_name : String → List String → List String
insert_name a [] = a ∷ []
insert_name a (b ∷ names) = if text_lt b a then b ∷ insert_name a names else a ∷ b ∷ names

-- `slices.Sort(names)`, of the names of the cards.
unfoldable pub sorted_names : List (String × Counter) → List String
unfolding insert_name
sorted_names [] = []
sorted_names ((name, c) ∷ cards) = insert_name name (sorted_names cards)
