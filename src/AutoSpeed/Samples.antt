-- ===== src/AutoSpeed/Samples.antt =====
-- The window mode: which samples are counted, and how many are kept.
use yz_agent.Prelude.{
  unix, second, ℕ, ◌+◌, ◌-◌, ◌*◌, ◌≤◌, ◌<◌, ◌≡◌, inl, inr, Bool, true, false, List, [], ◌∷◌, ◌++◌,
  arith, string_eq, String, nat_eq, Option, none, some, length, AllValues, Bool-cases,
  if◌then◌else◌,
}
use yz_agent.AutoSpeed.Lists.{sync_rules-AllValues, restore_loop-AllValues}
use yz_agent.AutoSpeed.Runs.{Call, updates, restores, call, run, initial}
use yz_agent.AutoSpeed.{
  Rule, State, Manager, Rates, drop_old, is_new_second, window_hits, is_above, forget, measure,
  rate_of, update_state, update_users, is_sample, is_gap, Penalty, fresh, may_restore,
  update_manager, restore, sync_rules,
}

-- The hits ascend by whole seconds from `low` on, and none is later than the last sample.
abbrev pub IsSpread : ℕ → ℕ → List ℕ → Type 0
IsSpread low last [] = Unit {0}
IsSpread low last (h ∷ hits) = (low ≤ unix h) × (h ≤ last) × IsSpread (unix h + 1) last hits

IsSpread-mono :
    (low low' last last' : ℕ) (hits : List ℕ)
    → low' ≤ low
    → last ≤ last'
    → IsSpread low last hits
    → IsSpread low' last' hits
IsSpread-mono low low' last last' [] h k a = tt
IsSpread-mono low low' last last' (x ∷ hits) h k (b, c, a) = (
  omega arith,
  omega arith,
  IsSpread-mono (unix x + 1) (unix x + 1) last last' hits (omega arith) k a,
)

drop_old-IsSpread :
    (low last window sampled : ℕ) (hits : List ℕ)
    → IsSpread low last hits
    → IsSpread low last (drop_old window sampled hits)
drop_old-IsSpread low last window sampled [] a = tt
drop_old-IsSpread low last window sampled (h ∷ hits) (b, c, a) = ground (
  arith,
  drop_old-IsSpread low last window sampled hits,
  IsSpread-mono (unix h + 1) low last last hits,
)

-- A sample of a new second goes behind the hits.
append-IsSpread :
    (low last sampled : ℕ) (hits : List ℕ)
    → low ≤ unix sampled
    → last ≤ sampled
    → IsSpread low last hits
    → is_new_second sampled hits ≡ true
    → IsSpread low sampled (hits ++ sampled ∷ [])
append-IsSpread low last sampled [] l k a n = (l, omega arith, tt)
append-IsSpread low last sampled (h ∷ []) l k (b, c, a) n =
    (b, omega arith, (ground arith, omega arith, tt))
append-IsSpread low last sampled (h ∷ g ∷ hits) l k (b, c, (d, e, a)) n = (
  b,
  omega arith,
  append-IsSpread (unix h + 1) last sampled (g ∷ hits) (omega arith) k (d, e, a) n,
)

window_hits-IsSpread :
    (last sampled : ℕ) (above : Bool) (s : State)
    → last ≤ sampled
    → IsSpread 0 last s.hits
    → IsSpread 0 sampled (window_hits sampled above s)
window_hits-IsSpread last sampled above s k a =
    let kept = drop_old s.config.window sampled s.hits in
    let spread = drop_old-IsSpread 0 last s.config.window sampled s.hits a in
    ground (
      arith,
      append-IsSpread 0 last sampled kept (omega arith) k spread,
      IsSpread-mono 0 0 last sampled kept (omega arith) k spread,
    )

length-IsSpread :
    (low last : ℕ) (hits : List ℕ) → IsSpread low last hits → length hits ≤ unix last + 1 - low
length-IsSpread low last [] a = omega arith
length-IsSpread low last (h ∷ hits) (b, c, a) =
    omega (arith, length-IsSpread (unix h + 1) last hits a)

-- The oldest hit lies within the window.
abbrev IsRecent : ℕ → ℕ → List ℕ → Type 0
IsRecent window sampled [] = Unit {0}
IsRecent window sampled (h ∷ hits) = sampled < h + window * second

drop_old-IsRecent :
    (window sampled : ℕ) (hits : List ℕ) → IsRecent window sampled (drop_old window sampled hits)
drop_old-IsRecent window sampled [] = tt
drop_old-IsRecent window sampled (h ∷ hits) = ground (arith, drop_old-IsRecent window sampled hits)

length-IsRecent :
    (window sampled : ℕ) (hits : List ℕ)
    → IsSpread 0 sampled hits
    → IsRecent window sampled hits
    → length hits ≤ window + 1
length-IsRecent window sampled [] a r = omega arith
length-IsRecent window sampled (h ∷ hits) (b, c, a) r =
    omega (arith, length-IsSpread (unix h + 1) sampled hits a)

length-append_recent :
    (window sampled : ℕ) (hits : List ℕ)
    → IsRecent window sampled hits
    → IsSpread 0 sampled (hits ++ sampled ∷ [])
    → length (hits ++ sampled ∷ []) ≤ window + 1
length-append_recent window sampled [] r a = omega arith
length-append_recent window sampled (h ∷ hits) r a =
    length-IsRecent window sampled (h ∷ (hits ++ sampled ∷ [])) a r

length-window_hits :
    (last sampled : ℕ) (above : Bool) (s : State)
    → last ≤ sampled
    → IsSpread 0 last s.hits
    → length (window_hits sampled above s) ≤ s.config.window + 1
length-window_hits last sampled above s k a =
    let kept = drop_old s.config.window sampled s.hits in
    let recent = drop_old-IsRecent s.config.window sampled s.hits in
    let spread = drop_old-IsSpread 0 last s.config.window sampled s.hits a in
    ground (
      arith,
      length-append_recent s.config.window sampled kept recent,
      append-IsSpread 0 last sampled kept (omega arith) k spread,
      length-IsRecent s.config.window sampled kept
          (IsSpread-mono 0 0 last sampled kept (omega arith) k spread) recent,
    )

-- What the hits of a user are at the time of the last sample. Under a limit they are not read, and
-- they are dropped when it ends.
pub record IsTracked (last : ℕ) (s : State) : Type 0 where
  pub spread : s.penalty.until ≡ 0 → IsSpread 0 last s.hits
  pub bounded : length s.hits ≤ s.config.window + 1

measure-IsTracked :
    (last sampled now : ℕ) (v : ℕ × ℕ) (s : State)
    → last ≤ sampled
    → s.penalty.until ≡ 0
    → IsTracked last s
    → IsTracked sampled (measure sampled now v s)
unfolding measure
measure-IsTracked last sampled now v s k z h = ground (
  arith,
  window_hits-IsSpread last sampled (is_above s.config v) s k (h.spread z),
  length-window_hits last sampled (is_above s.config v) s k (h.spread z),
  IsSpread-mono 0 0 last sampled s.hits (omega arith) k (h.spread z),
)

forget-IsTracked : (last : ℕ) (s : State) → IsTracked last (forget s)
forget-IsTracked last s = record { spread = λ _. tt; bounded = omega arith }

abbrev rate_of_opt : ℕ → Option Rates → ℕ × ℕ
rate_of_opt id none = (0, 0)
rate_of_opt id (some m) = rate_of id m

-- The sample that becomes the last one.
abbrev pub next_last : ℕ → ℕ → ℕ
next_last last sampled = if is_sample last sampled then sampled else last

update_sampled-IsTracked :
    (gap : Bool) (rates : Option Rates) (last sampled now id : ℕ) (s : State)
    → (gap ≡ false → last ≤ sampled)
    → IsTracked last s
    → IsTracked sampled (update_state true gap rates sampled now id s)
unfolding update_state
update_sampled-IsTracked true none last sampled now id s k h = ground arith
update_sampled-IsTracked false none last sampled now id s k h = ground arith
update_sampled-IsTracked true (some m) last sampled now id s k h = ground (
  arith,
  measure-IsTracked sampled sampled now (rate_of id m) (forget s) (omega arith),
  forget-IsTracked sampled s,
)
update_sampled-IsTracked false (some m) last sampled now id s k h =
    ground (arith, measure-IsTracked last sampled now (rate_of id m) s)

update_unsampled-IsTracked :
    (gap : Bool) (rates : Option Rates) (last sampled now id : ℕ) (s : State)
    → IsTracked last s
    → IsTracked last (update_state false gap rates sampled now id s)
unfolding update_state
update_unsampled-IsTracked gap rates last sampled now id s h = ground arith

update_users-IsTracked :
    (rates : Option Rates) (last sampled now : ℕ) (users : List (ℕ × State))
    → AllValues (IsTracked last) users
    → AllValues
        (IsTracked (next_last last sampled))
        (update_users (is_sample last sampled) (is_gap last sampled) rates sampled now users)
unfolding update_users
update_users-IsTracked rates last sampled now [] a = tt
update_users-IsTracked rates last sampled now ((id, s) ∷ users) (h, a) = (
  elim (Bool-cases (is_sample last sampled)) [
    | inl e ↦ rw e (
        update_sampled-IsTracked (is_gap last sampled) rates last sampled now id s (ground arith) h)
    | inr e ↦ rw e (update_unsampled-IsTracked (is_gap last sampled) rates last sampled now id s h)
  ],
  update_users-IsTracked rates last sampled now users a,
)

fresh-IsTracked :
    (fingerprint : Rule → String) (last : ℕ) (r : Rule) → IsTracked last (fresh fingerprint r)
fresh-IsTracked fingerprint last r = record { spread = λ _. tt; bounded = omega arith }

restored-IsTracked :
    (last now : ℕ) (p : Penalty) (s : State)
    → may_restore now p s ≡ true
    → IsTracked last s
    → IsTracked last (record s { penalty = p })
restored-IsTracked last now p s t h = record {
  spread = λ z. absurd (ground arith);
  bounded = h.bounded;
}

call-IsTracked :
    (fingerprint : Rule → String) (now : ℕ) (c : Call) (m : Manager)
    → AllValues (IsTracked m.last) m.users
    → let n = call fingerprint now c m in AllValues (IsTracked n.last) n.users
unfolding update_manager restore sync_rules
call-IsTracked fingerprint now (updates rules rates sampled) m a =
    update_users-IsTracked rates m.last sampled now _ (
      sync_rules-AllValues fingerprint (IsTracked m.last)
        (λ r _. fresh-IsTracked fingerprint m.last r) rules m a)
call-IsTracked fingerprint now (restores saved rules) m a =
    restore_loop-AllValues (IsTracked m.last) now (restored-IsTracked m.last now) saved _ (
      sync_rules-AllValues fingerprint (IsTracked m.last)
        (λ r _. fresh-IsTracked fingerprint m.last r) rules m a)

run-IsTracked :
    (fingerprint : Rule → String) (now : ℕ) (calls : List (ℕ × Call)) (m : Manager)
    → AllValues (IsTracked m.last) m.users
    → let n = (run fingerprint now calls m).1 in AllValues (IsTracked n.last) n.users
unfolding run
run-IsTracked fingerprint now [] m a = a
run-IsTracked fingerprint now ((wait, c) ∷ calls) m a =
    run-IsTracked fingerprint (now + wait) calls (call fingerprint (now + wait) c m)
      (call-IsTracked fingerprint (now + wait) c m a)

-- After any calls, whatever the times of the samples, the hits that a user without a limit has are
-- of different seconds, in order and not later than the last sample, and no user has more of them
-- than the seconds of the window and one.
pub run-initial-IsTracked :
    (fingerprint : Rule → String) (start : ℕ) (calls : List (ℕ × Call))
    → let n = (run fingerprint start calls initial).1 in AllValues (IsTracked n.last) n.users
run-initial-IsTracked fingerprint start calls = run-IsTracked fingerprint start calls initial tt
