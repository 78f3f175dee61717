-- ===== src/Limiter/Reports.antt =====
-- What the statistics of rejections hold, after any calls.
use yz_agent.Prelude.{
  ℕ, ◌≤◌, ◌≡◌, refl, String, Bool, true, false, not, ◌||◌, List, [], ◌∷◌, ◌++◌, ◌==◌, nat_eq,
  string_eq, nat_beq_iff, if◌then◌else◌, Option, none, some, lookup, insert, has_key, any,
  any-append, length, length-append, arith, Option-cases, inl, inr, AllValues, AllValues-insert,
  AllValues-lookup,
}
use yz_agent.Limiter.Bucket.{Rate}
use yz_agent.Limiter.Users.{
  UserSpec, LimitSnapshot, LimitEventStat, Users, Limiter, update_users, rebuild, by_id,
  keep_events, new,
}
use yz_agent.Limiter.Events.{
  Kind, kind_of, count_event, add_ip, report_event, report_known, report_limited_snapshot,
  snapshot_limit_events, stat_or_zero, max_device_event_ips,
}
use yz_agent.Limiter.Speed.{SpeedTracker, sample_known, sample_loop, sample_throttled}

-- No address stands twice.
abbrev pub IsDistinct : List String → Type 0
IsDistinct [] = Unit {0}
IsDistinct (ip ∷ ips) = (any (λ i. i == ip) ips ≡ false) × IsDistinct ips

pub record IsTidy (stat : LimitEventStat) : Type 0 where
  pub few : length stat.device_ips ≤ max_device_event_ips
  pub distinct : IsDistinct stat.device_ips

append-IsDistinct :
    (ip : String) (ips : List String)
    → IsDistinct ips
    → any (λ i. i == ip) ips ≡ false
    → IsDistinct (ips ++ ip ∷ [])
append-IsDistinct ip [] d n = (refl, tt)
append-IsDistinct ip (x ∷ ips) (a, d) n = ground (
  arith,
  any-append (λ i. i == x) ips (ip ∷ []),
  append-IsDistinct ip ips d,
  string_eq.beq_iff x ip,
  string_eq.beq_iff ip x,
)

add_ip-IsDistinct : (ip : String) (ips : List String) → IsDistinct ips → IsDistinct (add_ip ip ips)
unfolding add_ip
add_ip-IsDistinct ip ips d = ground (arith, append-IsDistinct ip ips d)

length-add_ip :
    (ip : String) (ips : List String)
    → length ips ≤ max_device_event_ips
    → length (add_ip ip ips) ≤ max_device_event_ips
unfolding add_ip
length-add_ip ip ips h = ground (arith, length-append ips (ip ∷ []))

count_event-IsTidy :
    (k : Kind) (limit observed : ℕ) (ip : String) (captured : Option LimitSnapshot)
    (stat : LimitEventStat)
    → IsTidy stat
    → IsTidy (count_event k limit observed ip captured stat)
unfolding count_event
count_event-IsTidy Kind.concurrent limit observed ip captured stat h = record {
  few = h.few;
  distinct = h.distinct;
}
count_event-IsTidy Kind.rate limit observed ip captured stat h = record {
  few = h.few;
  distinct = h.distinct;
}
count_event-IsTidy Kind.device limit observed ip captured stat h = record {
  few = length-add_ip ip stat.device_ips h.few;
  distinct = add_ip-IsDistinct ip stat.device_ips h.distinct;
}

-- Every entry is of a known user, and keeps few addresses, each once.
pub record IsConsistent {B : Type 0} (l : Limiter B) : Type 0 where
  pub known : (id : ℕ) → has_key id l.limit_events ≡ true → has_key id l.users ≡ true
  pub tidy : AllValues IsTidy l.limit_events

has_key-keep_events :
    (users : Users) (events : List (ℕ × LimitEventStat)) (id : ℕ)
    → has_key id (keep_events users events) ≡ true
    → has_key id users ≡ true
unfolding keep_events
has_key-keep_events users [] id h = cc
has_key-keep_events users ((j, stat) ∷ events) id h =
    ground (arith, has_key-keep_events users events id, nat_beq_iff j id)

keep_events-IsTidy :
    (users : Users) (events : List (ℕ × LimitEventStat))
    → AllValues IsTidy events
    → AllValues IsTidy (keep_events users events)
unfolding keep_events
keep_events-IsTidy users [] a = tt
keep_events-IsTidy users ((j, stat) ∷ events) (h, a) =
    ground (arith, keep_events-IsTidy users events a)

stat_or_zero-IsTidy :
    (id : ℕ) (events : List (ℕ × LimitEventStat))
    → AllValues IsTidy events
    → IsTidy (stat_or_zero (lookup id events))
stat_or_zero-IsTidy id events a = elim (Option-cases (lookup id events)) [
  | inl e ↦ rw e (record { few = omega arith; distinct = tt })
  | inr (stat, e) ↦ rw e (AllValues-lookup IsTidy id events a e)
]

has_key-insert_known :
    (id j : ℕ) (stat : LimitEventStat) (events : List (ℕ × LimitEventStat))
    → has_key j (insert id stat events) ≡ true
    → ((id == j) || has_key j events) ≡ true
unfolding insert
has_key-insert_known id j stat [] h = ground arith
has_key-insert_known id j stat ((i, s) ∷ events) h = ground (
  arith,
  has_key-insert_known id j stat events,
  nat_beq_iff i id,
  nat_beq_iff i j,
  nat_beq_iff id j,
)

pub has_key-lookup {ℓ} :
    {V : Type ℓ} (id : ℕ) (m : List (ℕ × V)) (v : V) → lookup id m ≡ some v → has_key id m ≡ true
has_key-lookup id [] v h = cc
has_key-lookup id ((j, w) ∷ m) v h = ground (arith, has_key-lookup id m v)

module _ {B : Type 0} where
  -- An entry that is written for a known user.
  write-IsConsistent :
      (l : Limiter B) (id : ℕ) (u : UserSpec) (stat : LimitEventStat) (d c : ℕ)
      → lookup id l.users ≡ some u
      → IsTidy stat
      → IsConsistent l
      → IsConsistent (record l {
        limit_events = insert id stat l.limit_events;
        device_limit_events = d;
        conn_limit_events = c;
      })
  write-IsConsistent l id u stat d c e t h = record {
    known = λ j k. ground (
      arith,
      has_key-insert_known id j stat l.limit_events k,
      h.known j,
      has_key-lookup id l.users u e,
      nat_beq_iff id j,
    );
    tidy = AllValues-insert IsTidy id stat l.limit_events t h.tidy;
  }

  report_event-IsConsistent :
      (k : Kind) (id : ℕ) (u : UserSpec) (limit observed : ℕ) (ip : String)
      (captured : Option LimitSnapshot) (l : Limiter B)
      → lookup id l.users ≡ some u
      → IsConsistent l
      → IsConsistent (report_event id k u limit observed ip captured l)
  unfolding report_event
  report_event-IsConsistent k id u limit observed ip captured l e h =
      write-IsConsistent l id u _ _ _ e
        (count_event-IsTidy k _ observed ip captured _
          (stat_or_zero-IsTidy id l.limit_events h.tidy))
        h

  report_known-IsConsistent :
      (k : Option Kind) (v : Option UserSpec) (id limit observed : ℕ) (ip : String)
      (captured : Option LimitSnapshot) (l : Limiter B)
      → lookup id l.users ≡ v
      → IsConsistent l
      → IsConsistent (report_known id k v limit observed ip captured l)
  report_known-IsConsistent none v id limit observed ip captured l e h = h
  report_known-IsConsistent (some k) none id limit observed ip captured l e h = h
  report_known-IsConsistent (some k) (some u) id limit observed ip captured l e h =
      report_event-IsConsistent k id u limit observed ip captured l e h

  choice-IsConsistent :
      (b : Bool) (l l' : Limiter B)
      → IsConsistent l
      → IsConsistent l'
      → IsConsistent (if b then l else l')
  choice-IsConsistent true l l' h h' = h
  choice-IsConsistent false l l' h h' = h'

  sample_known-IsConsistent :
      (r : Rate B) (at id : ℕ) (b : B) (v : Option UserSpec) (l : Limiter B)
      → lookup id l.users ≡ v
      → IsConsistent l
      → IsConsistent (sample_known r at id b v l)
  sample_known-IsConsistent r at id b none l e h = h
  sample_known-IsConsistent r at id b (some u) l e h =
      let t = stat_or_zero-IsTidy id l.limit_events h.tidy in
      choice-IsConsistent (u.speed_limit == 0 || not (r.in_debt_at at b)) l _ h
        (write-IsConsistent l id u _ _ _ e (record { few = t.few; distinct = t.distinct }) h)

  sample_loop-IsConsistent :
      (r : Rate B) (at : ℕ) (buckets : List (ℕ × B)) (l : Limiter B)
      → IsConsistent l
      → IsConsistent (sample_loop r at buckets l)
  unfolding sample_loop
  sample_loop-IsConsistent r at [] l h = h
  sample_loop-IsConsistent r at ((id, b) ∷ buckets) l h =
      sample_loop-IsConsistent r at buckets (sample_known r at id b (lookup id l.users) l)
        (sample_known-IsConsistent r at id b (lookup id l.users) l refl h)

-- The calls that change the statistics.
pub data Call (B : Type 0) : Type 0 where
  updated : List UserSpec → Call B
  reported : ℕ → String → ℕ → ℕ → String → Option LimitSnapshot → Call B
  sampled : ℕ → SpeedTracker B → Call B
  taken : Call B

module _ {B : Type 0} (r : Rate B) where
  abbrev pub step : Call B → Limiter B → Limiter B
  step (Call.updated us) l = (update_users r us l).0
  step (Call.reported id kind limit observed ip captured) l =
      report_limited_snapshot id kind limit observed ip captured l
  step (Call.sampled at t) l = sample_throttled r at t l
  step Call.taken l = (snapshot_limit_events l).0

  unfoldable pub run : List (Call B) → Limiter B → Limiter B
  run [] l = l
  run (call ∷ calls) l = run calls (step call l)

  update_users-IsConsistent :
      (us : List UserSpec) (l : Limiter B) → IsConsistent l → IsConsistent (update_users r us l).0
  unfolding update_users rebuild
  update_users-IsConsistent us l h = record {
    known = has_key-keep_events (by_id us []) l.limit_events;
    tidy = keep_events-IsTidy (by_id us []) l.limit_events h.tidy;
  }

  step-IsConsistent : (call : Call B) (l : Limiter B) → IsConsistent l → IsConsistent (step call l)
  unfolding sample_throttled snapshot_limit_events report_limited_snapshot
  step-IsConsistent (Call.updated us) l h = update_users-IsConsistent us l h
  step-IsConsistent (Call.reported id kind limit observed ip captured) l h =
      report_known-IsConsistent (kind_of kind) (lookup id l.users) id limit observed ip captured l
        refl h
  step-IsConsistent (Call.sampled at t) l h =
      choice-IsConsistent (not t.has_limits) l (sample_loop r at t.buckets l) h
        (sample_loop-IsConsistent r at t.buckets l h)
  step-IsConsistent Call.taken l h = record { known = λ id e. cc; tidy = tt }

  run-IsConsistent :
      (calls : List (Call B)) (l : Limiter B) → IsConsistent l → IsConsistent (run calls l)
  unfolding run
  run-IsConsistent [] l h = h
  run-IsConsistent (call ∷ calls) l h =
      run-IsConsistent calls (step call l) (step-IsConsistent call l h)

  -- After any refreshes, reports, samplings and snapshots, every entry of the statistics is of a known
  -- user, and keeps at most five addresses, none of them twice.
  pub run-new-IsConsistent : (calls : List (Call B)) → IsConsistent (run calls new)
  run-new-IsConsistent calls = run-IsConsistent calls new (record { known = λ id e. cc; tidy = tt })
