-- ===== src/MachineTraffic/Lets.antt =====
-- What a `Tick` does whose source can be used, and when it lets the proxy run.
use yz_agent.Prelude.{
  ℕ, ◌+◌, ◌<◌, ◌≡◌, ◌≢◌, ◌⊎◌, refl, sym, subst, ap, ◌∙◌, String, Bool, true, false, not, List, [],
  ◌∷◌, Option, none, some, ◌==◌, string_eq, nat_eq, arith, inl, inr, unix, if◌then◌else◌,
}
use yz_agent.MachineTraffic.Policy.{Sample, Counter, Reading, Meter}
use yz_agent.MachineTraffic.Counters.{add, add_cards, delta_rx, delta_tx}
use yz_agent.MachineTraffic.Calendar.{Zones}
use yz_agent.MachineTraffic.Ticks.{
  tick, tick_loaded, observe, count_reading, count_up, save_sample, blocked, used,
  confirmation_timeout, set_sample,
}
use yz_agent.MachineTraffic.Guard.{roll_before, read_fails}

observe_good :
    (reading : Reading) (m : Meter)
    → (m.state.policy.mode == "proxy") ≡ false
    → m.lost ≡ false
    → read_fails (some reading) ≡ false
    → observe (some reading) m ≡ count_reading reading m
unfolding observe
observe_good reading m p l f = rw (p, l, f) refl

-- A `Tick` in the proxy mode counts nothing.
abbrev proxied : Meter → Meter
proxied m =
    set_sample (record (m.state.sample) { error = ""; initialized = true; interfaces = [] }) m

observe_proxy :
    (found : Option Reading) (m : Meter)
    → (m.state.policy.mode == "proxy") ≡ true
    → observe found m ≡ proxied m
unfolding observe
observe_proxy found m p = rw p refl

pub tick_good :
    (zones : Zones) (reader : List String → Option Reading) (saved : Bool) (now : ℕ)
    (reading : Reading) (m : Meter)
    → unix now < m.state.policy.period_end
    → (m.state.policy.mode == "proxy") ≡ false
    → m.lost ≡ false
    → reader m.state.policy.interfaces ≡ some reading
    → read_fails (some reading) ≡ false
    → tick_loaded zones reader saved now m ≡ save_sample saved (count_reading reading (count_up m))
unfolding tick_loaded
tick_good zones reader saved now reading m e p l found f =
    rw (roll_before zones now m e, found)
      (ap (save_sample saved) (observe_good reading (count_up m) p l f))

tick_proxy :
    (zones : Zones) (reader : List String → Option Reading) (saved : Bool) (now : ℕ) (m : Meter)
    → unix now < m.state.policy.period_end
    → (m.state.policy.mode == "proxy") ≡ true
    → tick_loaded zones reader saved now m ≡ save_sample saved (proxied (count_up m))
unfolding tick_loaded
tick_proxy zones reader saved now m e p =
    rw (roll_before zones now m e)
      (ap (save_sample saved) (observe_proxy (reader m.state.policy.interfaces) (count_up m) p))

add_cards-error :
    (previous reading : Reading) (cards : List (String × Counter)) (s : Sample)
    → (add_cards previous reading cards s).error ≡ s.error
unfolding add_cards
add_cards-error previous reading [] s = refl
add_cards-error previous reading (card ∷ cards) s =
    add_cards-error previous reading cards _ ∙ if_error (not (previous.boot == "")) s
  where
    if_error :
        (b : Bool) (s : Sample)
        → (if b
            then record s {
              rx = add s.rx (delta_rx previous reading card);
              tx = add s.tx (delta_tx previous reading card);
            }
            else s).error
          ≡ s.error
    if_error true s = refl
    if_error false s = refl

-- What lets the source of the counts be used: in the proxy mode a recent confirmation, else a local
-- count that is not lost and cards that can be read.
abbrev pub IsSourced : (List String → Option Reading) → ℕ → Meter → Type 0
IsSourced reader now m =
    (((m.state.policy.mode == "proxy") ≡ true)
      × (m.confirmed_at ≢ 0)
      × (now < m.confirmed_at + confirmation_timeout))
    ⊎ (((m.state.policy.mode == "proxy") ≡ false)
        × (m.lost ≡ false)
        × (read_fails (reader m.state.policy.interfaces) ≡ false))

module _ (zones : Zones) (reader : List String → Option Reading) (now : ℕ) (m : Meter)
    (loaded : m.loaded ≡ true) (active : m.state.policy.active ≡ true)
    (early : unix now < m.state.policy.period_end) where
  counted-unblocked :
      (reading : Reading)
      → (m.state.policy.mode == "proxy") ≡ false
      → m.lost ≡ false
      → used (save_sample true (count_reading reading (count_up m))) < m.state.policy.limit
      → blocked (save_sample true (count_reading reading (count_up m))) now ≡ false
  unfolding blocked
  counted-unblocked reading p l u =
      let clean =
        add_cards-error m.state.previous reading reading.counters
          (record ((count_up m).state.sample) { error = "" }) in
      let empty = (string_eq.beq_iff _ "").1 clean in ground arith

  found-unblocked :
      (found : Option Reading)
      → reader m.state.policy.interfaces ≡ found
      → (m.state.policy.mode == "proxy") ≡ false
      → m.lost ≡ false
      → read_fails found ≡ false
      → used (tick_loaded zones reader true now m) < m.state.policy.limit
      → blocked (tick_loaded zones reader true now m) now ≡ false
  found-unblocked none e p l f u = cc
  found-unblocked (some reading) e p l f u =
      let same = tick_good zones reader true now reading m early p l e f in
      subst (λ n. blocked n now ≡ false) (sym same)
        (counted-unblocked reading p l (subst (λ n. used n < m.state.policy.limit) same u))

  proxied_unblocked :
      (m.state.policy.mode == "proxy") ≡ true
      → m.confirmed_at ≢ 0
      → now < m.confirmed_at + confirmation_timeout
      → used (save_sample true (proxied (count_up m))) < m.state.policy.limit
      → blocked (save_sample true (proxied (count_up m))) now ≡ false
  unfolding blocked
  proxied_unblocked p c t u = ground arith

  tick_lets :
      blocked (tick_loaded zones reader true now m) now ≡ false
      → (tick zones reader true now m).1.1 ≡ false
  unfolding tick
  tick_lets h = ground arith

  -- Under a loaded and active policy, before the end of its period: a Tick whose state is written,
  -- with a source that can be used and with less used than the limit, lets the proxy run.
  pub tick-unblocked :
      IsSourced reader now m
      → used (tick_loaded zones reader true now m) < m.state.policy.limit
      → (tick zones reader true now m).1.1 ≡ false
  tick-unblocked (inl (p, c, t)) u =
      let same = tick_proxy zones reader true now m early p in
      tick_lets (
        subst (λ n. blocked n now ≡ false) (sym same)
          (proxied_unblocked p c t (subst (λ n. used n < m.state.policy.limit) same u)))
  tick-unblocked (inr (p, l, f)) u =
      tick_lets (found-unblocked (reader m.state.policy.interfaces) refl p l f u)
