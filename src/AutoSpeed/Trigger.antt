-- ===== src/AutoSpeed/Trigger.antt =====
-- When a limit begins, how long it lasts, and what a repeated sample does.
use yz_agent.Prelude.{
  unix, second, ℕ, ◌+◌, ◌*◌, ◌≤◌, ◌<◌, ◌≡◌, ◌≢◌, refl, ◌⊎◌, inl, inr, Bool, true, false, [], arith,
  ◌==◌, nat_eq, string_eq, Option, none, some, length,
}
use yz_agent.AutoSpeed.{
  State, Penalty, Rates, no_penalty, rate_of, is_above, forget, window_hits, measure, update_state,
}

-- The state before a sample is read: a gap in the samples has cleared it.
abbrev pub before : Bool → State → State
before gap s = elim gap [ true ↦ forget s | false ↦ s ]

-- Why a limit may begin, in the two modes.
abbrev pub IsDue : ℕ → Rates → Bool → ℕ → State → Type 0
IsDue id rates gap sampled s =
    ((s.config.mode == "continuous") ≡ true)
      × (is_above s.config (rate_of id rates) ≡ true)
      × (gap ≡ false)
      × (s.since ≢ 0)
      × (s.since + s.config.duration * second ≤ sampled)
    ⊎ ((s.config.mode == "continuous") ≡ false)
      × (s.config.hits
          ≤ length (window_hits sampled (is_above s.config (rate_of id rates)) (before gap s)))

abbrev pub limit_from : ℕ → State → Penalty
limit_from now s = record {
  limit = s.config.target;
  until = unix (now + s.config.hold * second);
  rule = s.rule;
}

abbrev pub IsStarted : ℕ → State → State → Type 0
IsStarted now s t = (t.penalty ≡ limit_from now s) × (t.since ≡ 0) × (t.hits ≡ [])

-- The condition of a mode on the state that a sample meets.
abbrev IsMet : ℕ → ℕ × ℕ → State → Type 0
IsMet sampled v s =
    ((s.config.mode == "continuous") ≡ true)
      × (is_above s.config v ≡ true)
      × (s.since ≢ 0)
      × (s.since + s.config.duration * second ≤ sampled)
    ⊎ ((s.config.mode == "continuous") ≡ false)
      × (s.config.hits ≤ length (window_hits sampled (is_above s.config v) s))

measure_starts :
    (sampled now : ℕ) (v : ℕ × ℕ) (s : State)
    → s.penalty ≡ no_penalty
    → ((measure sampled now v s).penalty ≡ no_penalty)
      ⊎ IsStarted now s (measure sampled now v s) × IsMet sampled v s
unfolding measure
measure_starts sampled now v s z = ground arith

-- For a user with no limit, an update either starts the rule's own limit, for which a new sample
-- and the condition of the mode are needed, or leaves him with none.
pub update_state_starts :
    (sample gap : Bool) (rates : Option Rates) (sampled now id : ℕ) (s : State)
    → s.penalty ≡ no_penalty
    → let t = update_state sample gap rates sampled now id s in
      (t.penalty ≡ no_penalty)
      ⊎ ((m : Rates) × (rates ≡ some m)
          × (sample ≡ true)
          × IsStarted now s t
          × IsDue id m gap sampled s)
unfolding update_state
update_state_starts sample gap none sampled now id s z = ground arith
update_state_starts false gap (some m) sampled now id s z = ground arith
update_state_starts true false (some m) sampled now id s z =
    elim (measure_starts sampled now (rate_of id m) s z) [
      | inl e ↦ inl (ground arith)
      | inr (e, d) ↦ inr (m, refl, refl, ground arith, ground arith)
    ]
update_state_starts true true (some m) sampled now id s z =
    elim (measure_starts sampled now (rate_of id m) (forget s) z) [
      | inl e ↦ inl (ground arith)
      | inr (e, d) ↦ inr (m, refl, refl, ground arith, ground arith)
    ]

-- A limit in force is neither renewed nor shortened, and nothing is counted under it; one that has
-- run out is lifted, and the count starts again from nothing.
pub update_state_limited :
    (sample gap : Bool) (rates : Option Rates) (sampled now id : ℕ) (s : State)
    → s.penalty.until ≢ 0
    → let t = update_state sample gap rates sampled now id s in
      ((unix now < s.penalty.until) × (t ≡ s))
      ⊎ ((s.penalty.until ≤ unix now) × (t.penalty ≡ no_penalty) × (t.since ≡ 0) × (t.hits ≡ []))
unfolding update_state
update_state_limited sample gap rates sampled now id s z = ground arith
