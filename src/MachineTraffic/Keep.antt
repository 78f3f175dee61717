-- ===== src/MachineTraffic/Keep.antt =====
-- What has been counted in a period is not lost before its end.
use yz_agent.Prelude.{
  ℕ, ◌≤◌, ◌<◌, ◌≡◌, refl, inl, inr, String, Bool, true, false, not, List, [], ◌∷◌, Option, none,
  some, ltb, ◌==◌, string_eq, nat_eq, arith, ◌∙◌, ◌&&◌, ◌||◌, Bool-cases, unix,
}
use yz_agent.MachineTraffic.Policy.{Policy, Sample, Counter, Reading, Meter}
use yz_agent.MachineTraffic.Counters.{max_bytes, add, add_cards, delta_rx, delta_tx}
use yz_agent.MachineTraffic.Calendar.{Zones}
use yz_agent.MachineTraffic.Sums.{add-min, add-le}
use yz_agent.MachineTraffic.Meter.{
  apply, save, update, merged_period, forward_period, check_mode, check_interfaces, raise_proxy,
  raise_sample, bad_policy, is_some,
}
use yz_agent.MachineTraffic.Ticks.{tick_loaded, observe, count_up, save_sample}
use yz_agent.MachineTraffic.Guard.{roll_before}

abbrev pub IsBounded : Sample → Type 0
IsBounded s = (s.rx ≤ max_bytes) × (s.tx ≤ max_bytes)

pub record Grows (s t : Sample) : Type 0 where
  pub rx : s.rx ≤ t.rx
  pub tx : s.tx ≤ t.tx
  pub period : t.period_start ≡ s.period_start
  pub epoch : t.epoch ≡ s.epoch
  pub bounded : IsBounded t

le-add : (a b : ℕ) → a ≤ max_bytes → a ≤ add a b
le-add a b h = omega (arith, add-min a b)

add_cards-Grows :
    (previous reading : Reading) (cards : List (String × Counter)) (s : Sample)
    → IsBounded s
    → Grows s (add_cards previous reading cards s)
unfolding add_cards
add_cards-Grows previous reading [] s h = record {
  rx = omega arith;
  tx = omega arith;
  period = refl;
  epoch = refl;
  bounded = h;
}
add_cards-Grows previous reading (card ∷ cards) s h = elim (Bool-cases (previous.boot == "")) [
  | inl e ↦ rw e (add_cards-Grows previous reading cards s h)
  | inr e ↦
      let dr = delta_rx previous reading card in
      let dt = delta_tx previous reading card in
      let t : Sample = record s { rx = add s.rx dr; tx = add s.tx dt } in
      let g = add_cards-Grows previous reading cards t (add-le s.rx dr, add-le s.tx dt) in
      rw e (record {
        rx = omega (arith, le-add s.rx dr h.0, g.rx);
        tx = omega (arith, le-add s.tx dt h.1, g.tx);
        period = g.period;
        epoch = g.epoch;
        bounded = g.bounded;
      })
]

observe-Grows :
    (r : Option Reading) (m : Meter)
    → IsBounded m.state.sample
    → Grows m.state.sample (observe r m).state.sample
unfolding observe
observe-Grows none m h = ground arith
observe-Grows (some r) m h =
    let g =
      add_cards-Grows m.state.previous r r.counters (record (m.state.sample) { error = "" }) h in
    ground arith

save_sample-Grows :
    (saved : Bool) (m : Meter) (s : Sample)
    → Grows s m.state.sample
    → Grows s (save_sample saved m).state.sample
save_sample-Grows true m s g = g
save_sample-Grows false m s g = record {
  rx = g.rx;
  tx = g.tx;
  period = g.period;
  epoch = g.epoch;
  bounded = g.bounded;
}

-- Before the end of its period a `Tick` lowers neither counter, whatever the reader returned and
-- whether the state was written or not.
pub tick-Grows :
    (zones : Zones) (reader : List String → Option Reading) (saved : Bool) (now : ℕ) (m : Meter)
    → unix now < m.state.policy.period_end
    → IsBounded m.state.sample
    → Grows m.state.sample (tick_loaded zones reader saved now m).state.sample
unfolding tick_loaded
tick-Grows zones reader saved now m e h =
    let r = reader m.state.policy.interfaces in
    let g = observe-Grows r (count_up m) h in
    rw (roll_before zones now m e) (
      save_sample-Grows saved (observe r (count_up m)) m.state.sample
        (record { rx = g.rx; tx = g.tx; period = g.period; epoch = g.epoch; bounded = g.bounded }))

-- What a policy of the same epoch, of this period or an older one, leaves of the meter.
pub record Holds (m n : Meter) : Type 0 where
  pub rx : m.state.sample.rx ≤ n.state.sample.rx
  pub tx : m.state.sample.tx ≤ n.state.sample.tx
  pub proxy_rx : m.state.policy.proxy_rx ≤ n.state.policy.proxy_rx
  pub proxy_tx : m.state.policy.proxy_tx ≤ n.state.policy.proxy_tx
  pub period : n.state.policy.period_start ≡ m.state.policy.period_start
  pub sample_period : n.state.sample.period_start ≡ m.state.sample.period_start
  pub lost : n.lost ≡ m.lost

record SameCount (m n : Meter) : Type 0 where
  rx : n.state.sample.rx ≡ m.state.sample.rx
  tx : n.state.sample.tx ≡ m.state.sample.tx
  sample_period : n.state.sample.period_start ≡ m.state.sample.period_start
  lost : n.lost ≡ m.lost

checks-SameCount :
    (old p : Policy) (m : Meter) → SameCount m (check_mode old p (check_interfaces old p m))
checks-SameCount old p m = ground arith

merged_period-start :
    (old p : Policy)
    → p.period_start ≤ old.period_start
    → (merged_period old p).period_start ≡ old.period_start
merged_period-start old p h = ground arith

forward_period_same :
    (old p : Policy) (m : Meter) → p.period_start ≡ old.period_start → forward_period old p m ≡ m
forward_period_same old p m h = elim (Bool-cases (ltb old.period_start p.period_start)) [
  | inl e ↦ absurd (ground arith)
  | inr e ↦ rw e
]

raise_proxy-le :
    (old p : Policy)
    → p.period_start ≡ old.period_start
    → (old.proxy_rx ≤ (raise_proxy old p).proxy_rx)
      × (old.proxy_tx ≤ (raise_proxy old p).proxy_tx)
      × ((raise_proxy old p).period_start ≡ old.period_start)
raise_proxy-le old p h = ground arith

raise_sample-le :
    (p : Policy) (s : Sample)
    → (s.rx ≤ (raise_sample p s).rx)
      × (s.tx ≤ (raise_sample p s).tx)
      × ((raise_sample p s).period_start ≡ s.period_start)
raise_sample-le p s = ground arith

update-Holds :
    (p : Policy) (m : Meter)
    → p.period_start ≤ m.state.policy.period_start
    → Holds m (update m.state.policy p m)
unfolding update
update-Holds p m h =
    let old = m.state.policy in
    let q = merged_period old p in
    let start = merged_period-start old p h in
    let checked = check_mode old q (check_interfaces old q m) in
    let c = checks-SameCount old q m in
    let (prx, ptx, ps) = raise_proxy-le old q start in
    let (rx, tx, sp) = raise_sample-le (raise_proxy old q) checked.state.sample in
    rw (forward_period_same old q m start) (record {
      rx = omega (arith, rx, c.rx);
      tx = omega (arith, tx, c.tx);
      proxy_rx = prx;
      proxy_tx = ptx;
      period = ps;
      sample_period = sp ∙ c.sample_period;
      lost = c.lost;
    })

Holds-refl : (m : Meter) → Holds m m
Holds-refl m = record {
  rx = omega arith;
  tx = omega arith;
  proxy_rx = omega arith;
  proxy_tx = omega arith;
  period = refl;
  sample_period = refl;
  lost = refl;
}

-- On a loaded meter, no policy of the same epoch, for a period that starts when this one does or
-- earlier, lowers a counter, moves the start of the period, or clears or sets the mark that the count
-- was lost; one that is refused changes none of these either. The end of the period is not spoken of.
pub apply-Holds :
    (zones : Zones) (saved : Bool) (now : ℕ) (p : Policy) (m : Meter)
    → m.loaded ≡ true
    → p.epoch ≡ m.state.policy.epoch
    → p.period_start ≤ m.state.policy.period_start
    → Holds m (apply zones saved now p m).0
unfolding apply
apply-Holds zones saved now p m l e h =
    let old = m.state.policy in
    let u = update-Holds p m h in
    elim (Bool-cases (bad_policy p)) [
      | inl t ↦ rw t (Holds-refl m)
      | inr t ↦ rw t (elim (Bool-cases (is_some (zones p.timezone))) [
        | inr z ↦ rw z (Holds-refl m)
        | inl z ↦ rw z (elim (Bool-cases (m.loaded && ltb p.revision old.revision)) [
          | inl r ↦ rw r (Holds-refl m)
          | inr r ↦ rw (r, fits) (saved_Holds (update old p m) u)
        ])
      ])
    ]
  where
    saved_Holds : (n : Meter) → Holds m n → Holds m (save saved (record n { confirmed_at = now }))
    saved_Holds n g = record {
      rx = g.rx;
      tx = g.tx;
      proxy_rx = g.proxy_rx;
      proxy_tx = g.proxy_tx;
      period = g.period;
      sample_period = g.sample_period;
      lost = g.lost;
    }

    fits : (not m.loaded || not (p.epoch == m.state.policy.epoch)) ≡ false
    fits = ground arith
