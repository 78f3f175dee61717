-- ===== src/MachineTraffic/Sums.antt =====
-- What a reading adds: sums that stop at `max_bytes`, in any order of the cards.
use mathlib.Core.List.{Permᴰ}
use yz_agent.Prelude.{
  ℕ, ◌+◌, ◌-◌, ◌≤◌, ◌≡◌, refl, sym, ◌∙◌, ap, String, true, false, List, [], ◌∷◌, min, ◌==◌,
  string_eq, arith, Bool-cases, inl, inr,
}
use yz_agent.MachineTraffic.Policy.{Sample, Counter, Reading}
use yz_agent.MachineTraffic.Counters.{max_bytes, add, delta, delta_rx, delta_tx, add_cards}

pub add-min : (a b : ℕ) → add a b ≡ min max_bytes (a + b)
unfolding add
add-min a b = ground arith

abbrev pub Card : Type 0
Card = String × Counter

abbrev pub sum_rx : Reading → Reading → List Card → ℕ
sum_rx previous reading [] = 0
sum_rx previous reading (card ∷ cards) =
    delta_rx previous reading card + sum_rx previous reading cards

abbrev pub sum_tx : Reading → Reading → List Card → ℕ
sum_tx previous reading [] = 0
sum_tx previous reading (card ∷ cards) =
    delta_tx previous reading card + sum_tx previous reading cards

-- All that the loop over the cards does to a sample.
abbrev pub counted : Reading → Reading → List Card → Sample → Sample
counted previous reading cards s = record s {
  rx = min max_bytes (s.rx + sum_rx previous reading cards);
  tx = min max_bytes (s.tx + sum_tx previous reading cards);
}

counted-cons :
    (previous reading : Reading) (card : Card) (cards : List Card) (s : Sample)
    → counted previous reading cards (record s {
      rx = add s.rx (delta_rx previous reading card);
      tx = add s.tx (delta_tx previous reading card);
    })
      ≡ counted previous reading (card ∷ cards) s
counted-cons previous reading card cards s = ground (
  arith,
  add-min s.rx (delta_rx previous reading card),
  add-min s.tx (delta_tx previous reading card),
)

counted-nil :
    (previous reading : Reading) (s : Sample)
    → s.rx ≤ max_bytes
    → s.tx ≤ max_bytes
    → counted previous reading [] s ≡ s
counted-nil previous reading s hr ht = ground arith

pub add-le : (a b : ℕ) → add a b ≤ max_bytes
unfolding add
add-le a b = ground arith

-- After the first reading, the loop adds to each counter what all the cards have counted since the
-- reading before, and stops at `max_bytes`.
pub add_cards-counted :
    (previous reading : Reading) (cards : List Card) (s : Sample)
    → (previous.boot == "") ≡ false
    → s.rx ≤ max_bytes
    → s.tx ≤ max_bytes
    → add_cards previous reading cards s ≡ counted previous reading cards s
unfolding add_cards
add_cards-counted previous reading [] s b hr ht = sym (counted-nil previous reading s hr ht)
add_cards-counted previous reading (card ∷ cards) s b hr ht = rw b (
    add_cards-counted previous reading cards _ b (add-le s.rx (delta_rx previous reading card))
      (add-le s.tx (delta_tx previous reading card))
    ∙ counted-cons previous reading card cards s)

-- The first reading after a start is a baseline and adds nothing.
pub add_cards_first :
    (previous reading : Reading) (cards : List Card) (s : Sample)
    → (previous.boot == "") ≡ true
    → add_cards previous reading cards s ≡ s
unfolding add_cards
add_cards_first previous reading [] s b = refl
add_cards_first previous reading (card ∷ cards) s b =
    rw b (add_cards_first previous reading cards s b)

sum_perm :
    (previous reading : Reading) {xs ys : List Card}
    → Permᴰ xs ys
    → (sum_rx previous reading xs ≡ sum_rx previous reading ys)
      × (sum_tx previous reading xs ≡ sum_tx previous reading ys)
sum_perm previous reading Permᴰ.nil = (refl, refl)
sum_perm previous reading (Permᴰ.cons e p) = omega (
  arith,
  ap (delta_rx previous reading) e,
  ap (delta_tx previous reading) e,
  sum_perm previous reading p,
)
sum_perm previous reading (Permᴰ.swap d e) = omega (
  arith,
  ap (delta_rx previous reading) d,
  ap (delta_rx previous reading) e,
  ap (delta_tx previous reading) d,
  ap (delta_tx previous reading) e,
)
sum_perm previous reading (Permᴰ.trans p q) =
    omega (arith, sum_perm previous reading p, sum_perm previous reading q)

-- Go visits the cards of a reading in any order; the sample that comes out is the same.
pub add_cards_perm :
    (previous reading : Reading) {xs ys : List Card} (s : Sample)
    → s.rx ≤ max_bytes
    → s.tx ≤ max_bytes
    → Permᴰ xs ys
    → add_cards previous reading xs s ≡ add_cards previous reading ys s
add_cards_perm previous reading {xs} {ys} s hr ht p = elim (Bool-cases (previous.boot == "")) [
  | inl e ↦ add_cards_first previous reading xs s e ∙ sym (add_cards_first previous reading ys s e)
  | inr e ↦
      let (rx, tx) = sum_perm previous reading p in
      add_cards-counted previous reading xs s e hr ht
      ∙ (rw (rx, tx) refl)
      ∙ sym (add_cards-counted previous reading ys s e hr ht)
]

-- One card of a running system, with the value of its counters at successive readings.
abbrev pub one_card : String → String → String → ℕ × ℕ → Reading
one_card boot name identity (rx, tx) = record {
  boot = boot;
  counters = (name, record { identity = identity; rx = rx; tx = tx }) ∷ [];
}

abbrev pub last_of : ℕ × ℕ → List (ℕ × ℕ) → ℕ × ℕ
last_of v [] = v
last_of v (w ∷ ws) = last_of w ws

-- No counter falls back from a reading to the next.
abbrev pub IsRising : ℕ × ℕ → List (ℕ × ℕ) → Type 0
IsRising v [] = Unit {0}
IsRising v (w ∷ ws) = (v.0 ≤ w.0) × (v.1 ≤ w.1) × IsRising w ws

pub last_of-IsRising :
    (v : ℕ × ℕ) (vs : List (ℕ × ℕ))
    → IsRising v vs
    → (v.0 ≤ (last_of v vs).0) × (v.1 ≤ (last_of v vs).1)
last_of-IsRising v [] h = (omega arith, omega arith)
last_of-IsRising v (w ∷ ws) (a, b, h) = omega (arith, last_of-IsRising w ws h)

module _ (boot name identity : String) (running : (boot == "") ≡ false) where
  abbrev card : ℕ × ℕ → Reading
  card = one_card boot name identity

  pub add_one_card :
      (v w : ℕ × ℕ) (s : Sample)
      → v.0 ≤ w.0
      → v.1 ≤ w.1
      → add_cards (card v) (card w) (card w).counters s
        ≡ record s { rx = add s.rx (w.0 - v.0); tx = add s.tx (w.1 - v.1) }
  unfolding add_cards delta_rx delta_tx delta
  add_one_card v w s a b = ground (
    arith,
    running,
    string_eq.beq_iff boot boot,
    string_eq.beq_iff name name,
    string_eq.beq_iff identity identity,
  )
