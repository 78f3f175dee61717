-- ===== src/AutoSpeed/Invariant.antt =====
-- What holds of every user's state, whatever rules, samples and saved penalties come in.
use yz_agent.Prelude.{
  unix, ℕ, ◌+◌, ◌≤◌, ◌<◌, ◌≡◌, refl, ◌⊎◌, inl, String, Bool, true, List, [], ◌∷◌, arith, nat_eq,
  string_eq, Option, none, some, AllValues,
}
use yz_agent.AutoSpeed.Lists.{sync_rules-AllValues, restore_loop-AllValues}
use yz_agent.AutoSpeed.Runs.{Call, updates, restores, call, run, initial}
use yz_agent.AutoSpeed.{
  Rule, State, Penalty, Manager, Rules, Rates, valid, fresh, rate_of, is_above, forget, continuous,
  windowed, measure, update_state, update_users, is_sample, is_gap, update_manager, snapshot_users,
  may_restore, restore,
}

-- A limit that a user bears is the target of his rule, carries the digest of that rule, and ends
-- no later than the rule's hold from now.
abbrev pub IsHeld : (Rule → String) → ℕ → Rule → Penalty → Type 0
IsHeld fingerprint now r p =
    (p.until ≡ 0)
    ⊎ ((p.limit ≡ r.target) × (p.rule ≡ fingerprint r) × (p.until ≤ unix now + r.hold))

pub record IsSound (fingerprint : Rule → String) (now : ℕ) (s : State) : Type 0 where
  pub config_valid : valid s.config ≡ true
  pub digest : s.rule ≡ fingerprint s.config
  pub held : IsHeld fingerprint now s.config s.penalty

-- What a mode's step leaves alone.
record Keeps (s t : State) : Type 0 where
  config : t.config ≡ s.config
  rule : t.rule ≡ s.rule
  penalty : t.penalty ≡ s.penalty

continuous-Keeps : (sampled : ℕ) (above : Bool) (s : State) → Keeps s (continuous sampled above s).0
unfolding continuous
continuous-Keeps sampled above s = ground arith

windowed-Keeps : (sampled : ℕ) (above : Bool) (s : State) → Keeps s (windowed sampled above s).0
unfolding windowed
windowed-Keeps sampled above s = record { config = refl; rule = refl; penalty = refl }

abbrev rate_of_opt : ℕ → Option Rates → ℕ × ℕ
rate_of_opt id none = (0, 0)
rate_of_opt id (some m) = rate_of id m

module _ (fingerprint : Rule → String) (now : ℕ) where
  fresh-IsSound : (r : Rule) → valid r ≡ true → IsSound fingerprint now (fresh fingerprint r)
  fresh-IsSound r h = record { config_valid = h; digest = refl; held = inl refl }

  -- The body of `measure` keeps all but `since`, `hits` and the penalty.
  measure-IsSound :
      (sampled : ℕ) (v : ℕ × ℕ) (s : State)
      → s.penalty.until ≡ 0
      → IsSound fingerprint now s
      → IsSound fingerprint now (measure sampled now v s)
  unfolding measure
  measure-IsSound sampled v s z h = ground (
    arith,
    continuous-Keeps sampled (is_above s.config v) s,
    windowed-Keeps sampled (is_above s.config v) s,
  )

  update_state-IsSound :
      (sample gap : Bool) (rates : Option Rates) (sampled id : ℕ) (s : State)
      → IsSound fingerprint now s
      → IsSound fingerprint now (update_state sample gap rates sampled now id s)
  unfolding update_state
  update_state-IsSound sample gap rates sampled id s h = ground (
    arith,
    measure-IsSound sampled (rate_of_opt id rates) s,
    measure-IsSound sampled (rate_of_opt id rates) (forget s),
  )

  abbrev pub AllSound : List (ℕ × State) → Type 0
  AllSound = AllValues (IsSound fingerprint now)

  update_users-AllSound :
      (sample gap : Bool) (rates : Option Rates) (sampled : ℕ) (users : List (ℕ × State))
      → AllSound users
      → AllSound (update_users sample gap rates sampled now users)
  unfolding update_users
  update_users-AllSound sample gap rates sampled [] a = tt
  update_users-AllSound sample gap rates sampled ((id, s) ∷ users) (h, a) = (
    update_state-IsSound sample gap rates sampled id s h,
    update_users-AllSound sample gap rates sampled users a,
  )

  restored-IsSound :
      (p : Penalty) (s : State)
      → may_restore now p s ≡ true
      → IsSound fingerprint now s
      → IsSound fingerprint now (record s { penalty = p })
  restored-IsSound p s t h = ground (arith, string_eq.beq_iff p.rule s.rule)

  -- An update keeps every user's rule valid and digested, and every limit within the rule's hold.
  pub update_manager-AllSound :
      (rules : Rules) (rates : Option Rates) (sampled : ℕ) (m : Manager)
      → AllSound m.users
      → AllSound (update_manager fingerprint rules rates sampled now m).users
  unfolding update_manager
  update_manager-AllSound rules rates sampled m a =
      update_users-AllSound (is_sample m.last sampled) (is_gap m.last sampled) rates sampled _
        (sync_rules-AllValues fingerprint (IsSound fingerprint now) fresh-IsSound rules m a)

  -- Restoring any saved limits, forged ones too, keeps them within the rules in force.
  pub restore-AllSound :
      (saved : List (ℕ × Penalty)) (rules : Rules) (m : Manager)
      → AllSound m.users
      → AllSound (restore fingerprint saved rules now m).users
  unfolding restore
  restore-AllSound saved rules m a =
      restore_loop-AllValues (IsSound fingerprint now) now restored-IsSound saved _
        (sync_rules-AllValues fingerprint (IsSound fingerprint now) fresh-IsSound rules m a)

-- A later reading of the clock keeps the states sound.
pub AllSound-mono :
    (fingerprint : Rule → String) (now later : ℕ) (users : List (ℕ × State))
    → now ≤ later
    → AllSound fingerprint now users
    → AllSound fingerprint later users
AllSound-mono fingerprint now later [] h a = tt
AllSound-mono fingerprint now later ((id, s) ∷ users) h (hs, a) =
    (ground arith, AllSound-mono fingerprint now later users h a)

call-AllSound :
    (fingerprint : Rule → String) (now : ℕ) (c : Call) (m : Manager)
    → AllSound fingerprint now m.users
    → AllSound fingerprint now (call fingerprint now c m).users
call-AllSound fingerprint now (updates rules rates sampled) m a =
    update_manager-AllSound fingerprint now rules rates sampled m a
call-AllSound fingerprint now (restores saved rules) m a =
    restore-AllSound fingerprint now saved rules m a

run-AllSound :
    (fingerprint : Rule → String) (now : ℕ) (calls : List (ℕ × Call)) (m : Manager)
    → AllSound fingerprint now m.users
    → AllSound fingerprint (run fingerprint now calls m).0 (run fingerprint now calls m).1.users
unfolding run
run-AllSound fingerprint now [] m a = a
run-AllSound fingerprint now ((wait, c) ∷ calls) m a =
    run-AllSound fingerprint (now + wait) calls (call fingerprint (now + wait) c m) (
      call-AllSound fingerprint (now + wait) c m
        (AllSound-mono fingerprint now (now + wait) m.users (omega arith) a))

-- After any calls, each state holds a valid rule with its digest, and a limit, if there is one, is
-- the rule's own target and ends within the rule's hold of the clock's last reading.
pub run-initial-AllSound :
    (fingerprint : Rule → String) (start : ℕ) (calls : List (ℕ × Call))
    → AllSound fingerprint
        (run fingerprint start calls initial).0
        (run fingerprint start calls initial).1.users
run-initial-AllSound fingerprint start calls = run-AllSound fingerprint start calls initial tt

-- A limit that is handed to the limiter is in force, and below the rate at which it was imposed.
abbrev pub IsEnforceable : ℕ → Penalty → Type 0
IsEnforceable now p = (unix now < p.until) × (p.limit < 100000) × (p.until ≤ unix now + 86400)

held-IsEnforceable :
    (fingerprint : Rule → String) (now : ℕ) (s : State)
    → IsSound fingerprint now s
    → unix now < s.penalty.until
    → IsEnforceable now s.penalty
unfolding valid
held-IsEnforceable fingerprint now s h t = ground arith

pub snapshot-IsEnforceable :
    (fingerprint : Rule → String) (now : ℕ) (users : List (ℕ × State))
    → AllSound fingerprint now users
    → AllValues (IsEnforceable now) (snapshot_users now users)
unfolding snapshot_users
snapshot-IsEnforceable fingerprint now [] a = tt
snapshot-IsEnforceable fingerprint now ((id, s) ∷ users) (h, a) =
    ground (
      arith,
      held-IsEnforceable fingerprint now s h,
      snapshot-IsEnforceable fingerprint now users a,
    )
