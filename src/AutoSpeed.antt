-- ===== src/AutoSpeed.antt =====
-- internal/autospeed/manager.go: the temporary speed limits of a node's users. Times are nanoseconds
-- since the zero `time.Time` of Go, so that 0 is the zero time; no time lies before 1970. A speed is
-- at most 2^53 - 1 bytes per second, as `Rate` returns it, so that the products that the code forms
-- in float64 are exact. The digest of a rule (`Fingerprint`) is a parameter.
pub mod Lists
pub mod Runs
pub mod Invariant
pub mod Trigger
pub mod Samples
pub mod Examples
use yz_agent.Prelude.{
  unix, second, ℕ, ◌+◌, ◌-◌, ◌*◌, ◌/◌, ◌≡◌, String, Bool, true, false, not, ◌&&◌, ◌||◌, List, [],
  ◌∷◌, ◌++◌, ltb, leb, ◌==◌, nat_eq, string_eq, if◌then◌else◌, Option, none, some, lookup, insert,
  erase, length, max,
}

pub record Rule : Type 0 where
  pub enabled : Bool
  pub mode : String
  pub direction : String
  pub threshold : ℕ
  pub target : ℕ
  pub duration : ℕ
  pub window : ℕ
  pub hits : ℕ
  pub hold : ℕ

-- `Valid` of a rule that is not nil.
unfoldable pub valid : Rule → Bool
valid r =
    r.enabled
    && leb 1 r.threshold
    && leb r.threshold 100000
    && leb 1 r.target
    && ltb r.target r.threshold
    && leb 1 r.hold
    && leb r.hold 86400
    && (r.direction == "upload" || r.direction == "download" || r.direction == "max")
    && ((r.mode == "continuous" && leb 3 r.duration && leb r.duration 3600)
        || (r.mode == "window"
            && leb 3 r.window
            && leb r.window 3600
            && leb 1 r.hits
            && leb r.hits r.window))

-- `*r == *q`
unfoldable pub rule_beq : Rule → Rule → Bool
rule_beq r q =
    (if r.enabled then q.enabled else not q.enabled)
    && r.mode == q.mode
    && r.direction == q.direction
    && r.threshold == q.threshold
    && r.target == q.target
    && r.duration == q.duration
    && r.window == q.window
    && r.hits == q.hits
    && r.hold == q.hold

pub record Penalty : Type 0 where
  pub limit : ℕ
  pub until : ℕ
  pub rule : String

abbrev pub no_penalty : Penalty
no_penalty = record { limit = 0; until = 0; rule = "" }

pub record State : Type 0 where
  pub config : Rule
  pub rule : String
  pub since : ℕ
  pub hits : List ℕ
  pub penalty : Penalty

pub record Manager : Type 0 where
  pub users : List (ℕ × State)
  pub last : ℕ

abbrev pub fresh : (Rule → String) → Rule → State
fresh fingerprint r = record {
  config = r;
  rule = fingerprint r;
  since = 0;
  hits = [];
  penalty = no_penalty;
}

abbrev pub has_rule : Rule → Option State → Bool
has_rule r none = false
has_rule r (some s) = rule_beq s.config r

-- A rule in the map: nil, or a pointer to a rule.
abbrev pub Rules : Type 0
Rules = List (ℕ × Option Rule)

abbrev pub rule_of : ℕ → Rules → Option Rule
rule_of id rules = elim (lookup id rules) [ none ↦ none | some r ↦ r ]

abbrev pub drop_unruled : Rules → List (ℕ × State) → List (ℕ × State)
drop_unruled rules [] = []
drop_unruled rules ((id, s) ∷ users) =
    let rest = drop_unruled rules users in
    elim (rule_of id rules) [ none ↦ rest | some r ↦ (id, s) ∷ rest ]

-- The body of the second loop of `syncRules`.
unfoldable pub sync_rule : (Rule → String) → ℕ → Option Rule → List (ℕ × State) → List (ℕ × State)
sync_rule fingerprint id none users = erase id users
sync_rule fingerprint id (some r) users =
    if has_rule r (lookup id users)
    then users
    else if not (valid r)
    then erase id users
    else insert id (fresh fingerprint r) users

unfoldable pub sync_loop : (Rule → String) → Rules → List (ℕ × State) → List (ℕ × State)
unfolding sync_rule
sync_loop fingerprint [] users = users
sync_loop fingerprint ((id, r) ∷ rules) users =
    sync_loop fingerprint rules (sync_rule fingerprint id r users)

unfoldable pub sync_rules : (Rule → String) → Rules → Manager → Manager
unfolding sync_loop
sync_rules fingerprint rules m = record m {
  users = sync_loop fingerprint rules (drop_unruled rules m.users);
}

-- Upload and download, in bytes per second.
abbrev pub Rates : Type 0
Rates = List (ℕ × (ℕ × ℕ))

abbrev pub rate_of : ℕ → Rates → ℕ × ℕ
rate_of id rates = elim (lookup id rates) [ none ↦ (0, 0) | some v ↦ v ]

abbrev pub speed_of : Rule → ℕ × ℕ → ℕ
speed_of r (up, down) =
    if r.direction == "upload" then up else if r.direction == "max" then max up down else down

-- `float64(speed)*8 > float64(r.Threshold)*1e6`
abbrev pub is_above : Rule → ℕ × ℕ → Bool
is_above r v = ltb (r.threshold * 1000000) (speed_of r v * 8)

abbrev pub drop_old : ℕ → ℕ → List ℕ → List ℕ
drop_old window sampled [] = []
drop_old window sampled (h ∷ hits) =
    let rest = drop_old window sampled hits in
    if leb (h + window * second) sampled then rest else h ∷ hits

-- No hit yet, or the last one in another second.
abbrev pub is_new_second : ℕ → List ℕ → Bool
is_new_second sampled [] = true
is_new_second sampled (h ∷ []) = not (unix h == unix sampled)
is_new_second sampled (h ∷ g ∷ hits) = is_new_second sampled (g ∷ hits)

abbrev pub forget : State → State
forget s = record s { since = 0; hits = [] }

-- The continuous mode: the new state, and whether the limit is triggered.
unfoldable pub continuous : ℕ → Bool → State → State × Bool
continuous sampled above s =
    if not above
    then (record s { since = 0 }, false)
    else if s.since == 0
    then (record s { since = sampled }, false)
    else (s, leb (s.since + s.config.duration * second) sampled)

abbrev pub window_hits : ℕ → Bool → State → List ℕ
window_hits sampled above s =
    let kept = drop_old s.config.window sampled s.hits in
    if above && is_new_second sampled kept then kept ++ sampled ∷ [] else kept

unfoldable pub windowed : ℕ → Bool → State → State × Bool
windowed sampled above s =
    let hits = window_hits sampled above s in
    (record s { hits = hits }, leb s.config.hits (length hits))

-- `if trigger { … }`
unfoldable pub punish : ℕ → State × Bool → State
punish now (s, trigger) =
    if trigger
    then record s {
      penalty = record {
        limit = s.config.target;
        until = unix (now + s.config.hold * second);
        rule = s.rule;
      };
      since = 0;
      hits = [];
    }
    else s

unfoldable pub measure : ℕ → ℕ → ℕ × ℕ → State → State
unfolding continuous windowed punish
measure sampled now v s = punish now (
    if s.config.mode == "continuous"
    then continuous sampled (is_above s.config v) s
    else windowed sampled (is_above s.config v) s)

-- The body of the loop of `UpdateSample` over the users.
unfoldable pub update_state : Bool → Bool → Option Rates → ℕ → ℕ → ℕ → State → State
unfolding measure
update_state sample gap rates sampled now id s =
    if ltb (unix now) s.penalty.until
    then s
    else if not (s.penalty.until == 0)
    then record s { penalty = no_penalty; since = 0; hits = [] }
    else if not sample
    then s
    else elim rates [
      | none ↦ forget s
      | some m ↦ measure sampled now (rate_of id m) (if gap then forget s else s)
    ]

unfoldable pub update_users :
    Bool → Bool → Option Rates → ℕ → ℕ → List (ℕ × State) → List (ℕ × State)
unfolding update_state
update_users sample gap rates sampled now [] = []
update_users sample gap rates sampled now ((id, s) ∷ users) =
    (id, update_state sample gap rates sampled now id s)
    ∷ update_users sample gap rates sampled now users

abbrev pub is_sample : ℕ → ℕ → Bool
is_sample last sampled = not (sampled == 0) && not (sampled == last)

abbrev pub is_gap : ℕ → ℕ → Bool
is_gap last sampled = last == 0 || ltb (last + 5 * second) sampled || ltb sampled last

unfoldable pub snapshot_users : ℕ → List (ℕ × State) → List (ℕ × Penalty)
snapshot_users now [] = []
snapshot_users now ((id, s) ∷ users) =
    let rest = snapshot_users now users in
    if ltb (unix now) s.penalty.until then (id, s.penalty) ∷ rest else rest

unfoldable pub snapshot : ℕ → Manager → List (ℕ × Penalty)
unfolding snapshot_users
snapshot now m = snapshot_users now m.users

-- `UpdateSample`, without the snapshot that it returns.
unfoldable pub update_manager : (Rule → String) → Rules → Option Rates → ℕ → ℕ → Manager → Manager
unfolding sync_rules update_users
update_manager fingerprint rules rates sampled now m =
    let synced = sync_rules fingerprint rules m in
    let sample = is_sample m.last sampled in
    record {
      users = update_users sample (is_gap m.last sampled) rates sampled now synced.users;
      last = if sample then sampled else m.last;
    }

unfoldable pub update_sample :
    (Rule → String) → Rules → Option Rates → ℕ → ℕ → Manager → Manager × List (ℕ × Penalty)
unfolding update_manager snapshot
update_sample fingerprint rules rates sampled now m =
    let m' = update_manager fingerprint rules rates sampled now m in (m', snapshot now m')

-- The test of `Restore`.
abbrev pub may_restore : ℕ → Penalty → State → Bool
may_restore now p s =
    p.rule == s.rule
    && p.limit == s.config.target
    && ltb (unix now) p.until
    && leb p.until (unix now + s.config.hold)

unfoldable pub restore_one : ℕ → ℕ → Penalty → List (ℕ × State) → List (ℕ × State)
restore_one now id p users = elim (lookup id users) [
  | none ↦ users
  | some s ↦ if may_restore now p s then insert id (record s { penalty = p }) users else users
]

unfoldable pub restore_loop : ℕ → List (ℕ × Penalty) → List (ℕ × State) → List (ℕ × State)
unfolding restore_one
restore_loop now [] users = users
restore_loop now ((id, p) ∷ saved) users = restore_loop now saved (restore_one now id p users)

unfoldable pub restore : (Rule → String) → List (ℕ × Penalty) → Rules → ℕ → Manager → Manager
unfolding sync_rules restore_loop
restore fingerprint saved rules now m =
    let synced = sync_rules fingerprint rules m in
    record synced { users = restore_loop now saved synced.users }
