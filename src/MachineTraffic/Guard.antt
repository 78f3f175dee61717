-- ===== src/MachineTraffic/Guard.antt =====
-- When the proxy may run.
use yz_agent.Prelude.{
  ℕ, ◌+◌, ◌<◌, ◌≡◌, ◌≢◌, refl, ◌⊎◌, String, Bool, true, false, ◌||◌, List, Option, none, some, leb,
  ◌==◌, string_eq, nat_eq, arith, inl, inr, unix, Bool-cases, ◌∙◌,
}
use yz_agent.MachineTraffic.Policy.{Policy, Reading, Meter}
use yz_agent.MachineTraffic.Calendar.{Zones}
use yz_agent.MachineTraffic.Ticks.{
  blocked, used, tick, tick_loaded, roll, observe, count_up, save_sample, confirmation_timeout,
  is_empty,
}

-- What a quota asks of the meter before it lets traffic through.
pub record IsMetered (m : Meter) (now : ℕ) : Type 0 where
  pub on_disk : m.write_failed ≡ false
  pub initialized : m.state.sample.initialized ≡ true
  pub no_error : (m.state.sample.error == "") ≡ true
  pub below_limit : used m < m.state.policy.limit
  pub source :
      ((m.state.policy.mode == "proxy") ≡ true)
        × (m.confirmed_at ≢ 0)
        × (now < m.confirmed_at + confirmation_timeout)
      ⊎ ((m.state.policy.mode == "proxy") ≡ false) × (m.lost ≡ false)

-- The proxy runs only under an active policy, and under a quota only with everything in order.
pub unblocked :
    (m : Meter) (now : ℕ)
    → blocked m now ≡ false
    → (m.loaded ≡ true)
      × (m.state.policy.active ≡ true)
      × ((m.state.policy.limit ≡ 0) ⊎ IsMetered m now)
unfolding blocked
unblocked m now h = ground arith

blocked_unsaved :
    (m : Meter) (now : ℕ) → m.state.policy.limit ≢ 0 → blocked (save_sample false m) now ≡ true
unfolding blocked
blocked_unsaved m now z = ground arith

-- What the reader gave is no use: an error, no card, or no boot identity.
abbrev pub read_fails : Option Reading → Bool
read_fails none = true
read_fails (some reading) = is_empty reading.counters || reading.boot == ""

observe-policy : (r : Option Reading) (m : Meter) → (observe r m).state.policy ≡ m.state.policy
unfolding observe
observe-policy none m = ground arith
observe-policy (some r) m = ground arith

observe-loaded : (r : Option Reading) (m : Meter) → (observe r m).loaded ≡ m.loaded
unfolding observe
observe-loaded none m = ground arith
observe-loaded (some r) m = ground arith

-- What a new period leaves of the policy.
record KeepsTerms (p q : Policy) : Type 0 where
  limit : q.limit ≡ p.limit
  mode : q.mode ≡ p.mode
  active : q.active ≡ p.active
  interfaces : q.interfaces ≡ p.interfaces

roll-KeepsTerms :
    (zones : Zones) (now : ℕ) (m : Meter)
    → KeepsTerms m.state.policy (roll zones now m).state.policy
unfolding roll
roll-KeepsTerms zones now m = ground arith

-- A fault that a `Tick` found is in the sample.
observe_fault :
    (r : Option Reading) (m : Meter)
    → (m.state.policy.mode == "proxy") ≡ false
    → (read_fails r ≡ true) ⊎ (m.lost ≡ true)
    → ((observe r m).state.sample.error == "") ≡ false
unfolding observe
observe_fault none m p f = rw p (elim (Bool-cases m.lost) [ inl e ↦ rw e | inr e ↦ rw e ])
observe_fault (some r) m p f = rw p (elim (Bool-cases m.lost) [
  | inl e ↦ rw e
  | inr e ↦
      rw e
        (elim (Bool-cases (read_fails (some r))) [ inl d ↦ rw d | inr d ↦ absurd (ground arith) ])
])

blocked_faulty :
    (saved : Bool) (m : Meter) (now : ℕ)
    → m.state.policy.limit ≢ 0
    → (m.state.sample.error == "") ≡ false
    → blocked (save_sample saved m) now ≡ true
unfolding blocked
blocked_faulty true m now z f = ground arith
blocked_faulty false m now z f = blocked_unsaved m now z

observe_fails :
    (r : Option Reading) (saved : Bool) (now : ℕ) (m : Meter)
    → (m.state.policy.mode == "proxy") ≡ false
    → m.state.policy.limit ≢ 0
    → (read_fails r ≡ true) ⊎ (m.lost ≡ true)
    → blocked (save_sample saved (observe r m)) now ≡ true
observe_fails r saved now m p z f =
    blocked_faulty saved (observe r m) now (rw (observe-policy r m) z) (observe_fault r m p f)

observe-lost : (r : Option Reading) (m : Meter) → (observe r m).lost ≡ m.lost
unfolding observe
observe-lost none m = ground arith
observe-lost (some r) m = ground arith

pub roll_before :
    (zones : Zones) (now : ℕ) (m : Meter)
    → unix now < m.state.policy.period_end
    → roll zones now m ≡ m
unfolding roll
roll_before zones now m h = elim (Bool-cases (leb m.state.policy.period_end (unix now))) [
  | inl e ↦ absurd (ground arith)
  | inr e ↦ rw e
]

save_sample-lost : (saved : Bool) (m : Meter) → (save_sample saved m).lost ≡ m.lost
save_sample-lost true m = refl
save_sample-lost false m = refl

module _ (zones : Zones) (reader : List String → Option Reading) (saved : Bool) (now : ℕ)
    (m : Meter) (limited : m.state.policy.limit ≢ 0) where
  tick-blocked :
      blocked (tick_loaded zones reader saved now m) now ≡ true
      → (tick zones reader saved now m).1.1 ≡ true
  unfolding tick
  tick-blocked h = ground arith

  -- Under a quota, a `Tick` whose state could not be written, or whose cards could not be read in
  -- a mode that counts them, leaves the proxy blocked.
  pub tick_fails_closed :
      (saved ≡ false)
        ⊎ ((m.state.policy.mode == "proxy") ≡ false)
          × (read_fails (reader m.state.policy.interfaces) ≡ true)
      → (tick zones reader saved now m).1.1 ≡ true
  unfolding tick_loaded
  tick_fails_closed (inl unsaved) =
      let k = roll-KeepsTerms zones now m in
      let rolled = count_up (roll zones now m) in
      tick-blocked (
        rw unsaved (
          blocked_unsaved (observe (reader rolled.state.policy.interfaces) rolled) now
            (rw (observe-policy (reader rolled.state.policy.interfaces) rolled, k.limit) limited)))
  tick_fails_closed (inr (p, f)) =
      let k = roll-KeepsTerms zones now m in
      let rolled = count_up (roll zones now m) in
      tick-blocked (
        observe_fails (reader rolled.state.policy.interfaces) saved now rolled (rw k.mode p)
          (rw k.limit limited) (inl (rw k.interfaces f)))

  -- A server whose local count was lost stays blocked, and its count stays lost, at every `Tick`
  -- before the end of the period.
  pub tick_lost :
      m.lost ≡ true
      → (m.state.policy.mode == "proxy") ≡ false
      → unix now < m.state.policy.period_end
      → ((tick zones reader saved now m).1.1 ≡ true)
        × ((tick_loaded zones reader saved now m).lost ≡ true)
  unfolding tick_loaded
  tick_lost l p e =
      let r = reader m.state.policy.interfaces in
      let same = roll_before zones now m e in
      (
        tick-blocked (rw same (observe_fails r saved now (count_up m) p limited (inr l))),
        rw same (save_sample-lost saved (observe r (count_up m)) ∙ observe-lost r (count_up m) ∙ l),
      )
