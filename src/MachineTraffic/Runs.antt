-- ===== src/MachineTraffic/Runs.antt =====
-- What successive `Tick`s charge.
use yz_agent.Prelude.{
  ℕ, ◌+◌, ◌-◌, ◌≤◌, ◌<◌, ◌≡◌, refl, sym, subst, ap, ◌∙◌, String, Bool, true, false, not, List, [],
  ◌∷◌, Option, some, min, map, ◌==◌, string_eq, nat_eq, arith, unix, All, if◌then◌else◌,
}
use yz_agent.MachineTraffic.Policy.{Sample, Reading, Meter}
use yz_agent.MachineTraffic.Counters.{max_bytes, add, add_cards}
use yz_agent.MachineTraffic.Calendar.{Zones}
use yz_agent.MachineTraffic.Ticks.{tick, tick_loaded, count_reading, count_up, save_sample}
use yz_agent.MachineTraffic.Sums.{
  IsRising, last_of, last_of-IsRising, one_card, add_one_card, add-min, add-le,
}
use yz_agent.MachineTraffic.Lets.{tick_good}

if_not {ℓ} : {A : Type ℓ} (b : Bool) (x y : A) → b ≡ true → (if not b then x else y) ≡ y
if_not true x y h = refl
if_not false x y h = cc

-- A `Tick`: when, whether its state is written, and the value of the counters.
pub record Turn : Type 0 where
  pub now : ℕ
  pub saved : Bool
  pub value : ℕ × ℕ

-- One `Tick` after another, each with the reading of its counters.
unfoldable pub ticks : Zones → (ℕ × ℕ → Reading) → List Turn → Meter → Meter
ticks zones card [] m = m
ticks zones card (t ∷ turns) m =
    ticks zones card turns (tick zones (λ names. some (card t.value)) t.saved t.now m).0

module _ (boot name identity : String) (running : (boot == "") ≡ false) (zones : Zones) where
  abbrev card : ℕ × ℕ → Reading
  card = one_card boot name identity

  -- A loaded meter that counts the card, last read at the value.
  pub record Counts (v : ℕ × ℕ) (m : Meter) : Type 0 where
    pub loaded : m.loaded ≡ true
    pub local : (m.state.policy.mode == "proxy") ≡ false
    pub kept : m.lost ≡ false
    pub previous : m.state.previous ≡ card v
    pub rx : m.state.sample.rx ≤ max_bytes
    pub tx : m.state.sample.tx ≤ max_bytes

  record Charged (v w : ℕ × ℕ) (m n : Meter) : Type 0 where
    policy : n.state.policy ≡ m.state.policy
    loaded : n.loaded ≡ m.loaded
    lost : n.lost ≡ m.lost
    previous : n.state.previous ≡ card w
    rx : n.state.sample.rx ≡ add m.state.sample.rx (w.0 - v.0)
    tx : n.state.sample.tx ≡ add m.state.sample.tx (w.1 - v.1)

  count_reading-Charged :
      (v w : ℕ × ℕ) (m : Meter)
      → m.state.previous ≡ card v
      → v.0 ≤ w.0
      → v.1 ≤ w.1
      → Charged v w m (count_reading (card w) (count_up m))
  count_reading-Charged v w m e a b =
      let s : Sample = record ((count_up m).state.sample) { error = "" } in
      let same : add_cards m.state.previous (card w) (card w).counters s
          ≡ record s { rx = add s.rx (w.0 - v.0); tx = add s.tx (w.1 - v.1) } =
        ap (λ p. add_cards p (card w) (card w).counters s) e
        ∙ add_one_card boot name identity running v w s a b in
      record {
        policy = refl;
        loaded = refl;
        lost = refl;
        previous = refl;
        rx = ap (λ t. t.rx) same;
        tx = ap (λ t. t.tx) same;
      }

  save_sample-Charged :
      (saved : Bool) (v w : ℕ × ℕ) (m n : Meter)
      → Charged v w m n
      → Charged v w m (save_sample saved n)
  save_sample-Charged true v w m n c = record {
    policy = c.policy;
    loaded = c.loaded;
    lost = c.lost;
    previous = c.previous;
    rx = c.rx;
    tx = c.tx;
  }
  save_sample-Charged false v w m n c = record {
    policy = c.policy;
    loaded = c.loaded;
    lost = c.lost;
    previous = c.previous;
    rx = c.rx;
    tx = c.tx;
  }

  tick-loaded :
      (reader : List String → Option Reading) (saved : Bool) (now : ℕ) (m : Meter)
      → m.loaded ≡ true
      → (tick zones reader saved now m).0 ≡ tick_loaded zones reader saved now m
  unfolding tick
  tick-loaded reader saved now m l =
      ap (λ (o : Meter × (Sample × Bool)). o.0) (if_not m.loaded _ _ l)

  tick-Charged :
      (v : ℕ × ℕ) (t : Turn) (m : Meter)
      → Counts v m
      → unix t.now < m.state.policy.period_end
      → v.0 ≤ t.value.0
      → v.1 ≤ t.value.1
      → Charged v t.value m (tick zones (λ names. some (card t.value)) t.saved t.now m).0
  tick-Charged v t m c e a b =
      let reader : List String → Option Reading = λ names. some (card t.value) in
      subst (Charged v t.value m)
        (sym (
          tick-loaded reader t.saved t.now m c.loaded
          ∙ tick_good zones reader t.saved t.now (card t.value) m e c.local c.kept refl running))
        (save_sample-Charged t.saved v t.value m (count_reading (card t.value) (count_up m))
          (count_reading-Charged v t.value m c.previous a b))

  Charged-Counts : (v w : ℕ × ℕ) (m n : Meter) → Counts v m → Charged v w m n → Counts w n
  Charged-Counts v w m n c h = record {
    loaded = h.loaded ∙ c.loaded;
    local = subst (λ p. (p.mode == "proxy") ≡ false) (sym h.policy) c.local;
    kept = h.lost ∙ c.kept;
    previous = h.previous;
    rx = subst (λ x. x ≤ max_bytes) (sym h.rx) (add-le m.state.sample.rx (w.0 - v.0));
    tx = subst (λ x. x ≤ max_bytes) (sym h.tx) (add-le m.state.sample.tx (w.1 - v.1));
  }

  -- Let a meter that counts the cards have read its one card, and let any number of Ticks follow in
  -- the period, written to the disk or not, with counters that do not fall. Then the meter has been
  -- charged exactly what the card counted between the first reading and the last, up to `max_bytes`.
  pub ticks_exact :
      (v : ℕ × ℕ) (turns : List Turn) (m : Meter)
      → Counts v m
      → All (λ t. unix t.now < m.state.policy.period_end) turns
      → IsRising v (map (λ t. t.value) turns)
      → let last = last_of v (map (λ t. t.value) turns) in
        ((ticks zones card turns m).state.sample.rx
          ≡ min max_bytes (m.state.sample.rx + (last.0 - v.0)))
        × ((ticks zones card turns m).state.sample.tx
            ≡ min max_bytes (m.state.sample.tx + (last.1 - v.1)))
  unfolding ticks
  ticks_exact v [] m c e h = omega (arith, c.rx, c.tx)
  ticks_exact v (t ∷ turns) m c (e, es) (a, b, h) =
      let w = t.value in
      let n = (tick zones (λ names. some (card w)) t.saved t.now m).0 in
      let charged = tick-Charged v t m c e a b in
      let early = subst (λ p. All (λ u. unix u.now < p.period_end) turns) (sym charged.policy) es in
      let (rx, tx) = ticks_exact w turns n (Charged-Counts v w m n c charged) early h in
      let rising = last_of-IsRising w (map (λ u. u.value) turns) h in
      let sum_rx = add-min m.state.sample.rx (w.0 - v.0) in
      let sum_tx = add-min m.state.sample.tx (w.1 - v.1) in
      let rx_n = charged.rx in
      let tx_n = charged.tx in
      (omega (arith, rx, rising, sum_rx, rx_n), omega (arith, tx, rising, sum_tx, tx_n))
