-- ===== src/Limiter/Speed.antt =====
-- `SpeedTracker`. A bucket that two holders share is one entry of the map of the buckets; the users
-- of the limiter are an argument of the methods that read them.
use yz_agent.Prelude.{
  ℕ, ◌+◌, ◌*◌, ◌/◌, ◌^◌, String, Bool, false, not, ◌&&◌, ◌||◌, List, [], ◌∷◌, ◌==◌, nat_eq,
  string_eq, ltb, if◌then◌else◌, Option, none, some, lookup, insert, unix,
}
use yz_agent.Limiter.Bucket.{Rate, retune}
use yz_agent.Limiter.Users.{UserSpec, Users, Limiter}
use yz_agent.Limiter.Events.{count_up, stat_or_zero}

pub record SpeedTracker (B : Type 0) : Type 0 where
  pub temporary : List (ℕ × ℕ)
  pub buckets : List (ℕ × B)
  pub uuid_map : List (String × ℕ)
  pub has_limits : Bool

abbrev pub new_speed_tracker : {B : Type 0} → SpeedTracker B
new_speed_tracker = record { temporary = []; buckets = []; uuid_map = []; has_limits = false }

abbrev pub unlimited_bytes_per_sec : ℕ
unlimited_bytes_per_sec = 2 ^ 50

abbrev pub unlimited_burst : ℕ
unlimited_burst = 2 ^ 30

abbrev pub least_burst : ℕ
least_burst = 64 * 1024

-- The rate and the burst of a bucket. The products fit an int for speeds below 2 ^ 40 Mbps.
unfoldable pub speed_settings : ℕ → ℕ × ℕ
speed_settings speed_limit =
    if speed_limit == 0
    then (unlimited_bytes_per_sec, unlimited_burst)
    else let bytes_per_sec = speed_limit * 1000000 / 8 in
      let burst = if ltb bytes_per_sec least_burst then least_burst else bytes_per_sec in
      let cap4s = bytes_per_sec * 4 in
      (bytes_per_sec, if ltb least_burst cap4s && ltb cap4s burst then cap4s else burst)

abbrev pub number_or_zero : Option ℕ → ℕ
number_or_zero none = 0
number_or_zero (some n) = n

unfoldable pub effective : List (ℕ × ℕ) → ℕ → ℕ → ℕ
effective temporary id base =
    let limit = number_or_zero (lookup id temporary) in
    if ltb 0 limit && (base == 0 || ltb limit base) then limit else base

unfoldable pub uuid_map_of : Users → List (String × ℕ)
uuid_map_of [] = []
uuid_map_of ((id, u) ∷ users) =
    let rest = uuid_map_of users in if u.uuid == "" then rest else insert u.uuid u.id rest

unfoldable pub any_limited : List (ℕ × ℕ) → Users → Bool
unfolding effective
any_limited temporary [] = false
any_limited temporary ((id, u) ∷ users) =
    ltb 0 (effective temporary u.id u.speed_limit) || any_limited temporary users

module _ {B : Type 0} (r : Rate B) where
  abbrev pub tuned : ℕ → B → B
  tuned speed b = let (limit, burst) = speed_settings speed in retune r limit burst b

  -- The buckets of the users that remain, each changed in place.
  unfoldable pub tune_all : List (ℕ × ℕ) → Users → List (ℕ × B) → List (ℕ × B)
  unfolding effective speed_settings
  tune_all temporary users [] = []
  tune_all temporary users ((id, b) ∷ buckets) =
      let rest = tune_all temporary users buckets in
      elim (lookup id users) [
        | none ↦ rest
        | some u ↦ (id, tuned (effective temporary id u.speed_limit) b) ∷ rest
      ]

  unfoldable pub update_buckets : Users → SpeedTracker B → SpeedTracker B
  unfolding tune_all uuid_map_of any_limited
  update_buckets users t = record t {
    buckets = tune_all t.temporary users t.buckets;
    uuid_map = uuid_map_of users;
    has_limits = any_limited t.temporary users;
  }

  abbrev pub made : ℕ → B
  made speed = let (limit, burst) = speed_settings speed in r.new_limiter limit burst

  -- `limiterFor` of a user that the maps know: his bucket, made where there is none, and whether he
  -- is limited now.
  unfoldable pub limiter_of : ℕ → UserSpec → SpeedTracker B → SpeedTracker B × B × Bool
  unfolding effective speed_settings
  limiter_of uid u t =
      let speed = effective t.temporary uid u.speed_limit in
      elim (lookup uid t.buckets) [
        | none ↦ (record t { buckets = insert uid (made speed) t.buckets }, made speed, ltb 0 speed)
        | some b ↦ (t, b, ltb 0 speed)
      ]

  unfoldable pub limiter_for : Users → String → SpeedTracker B → SpeedTracker B × Option (B × Bool)
  unfolding limiter_of
  limiter_for users uuid t = elim (lookup uuid t.uuid_map) [
    | none ↦ (t, none)
    | some uid ↦ elim (lookup uid users) [
      | none ↦ (t, none)
      | some u ↦ let (t', b, limited) = limiter_of uid u t in (t', some (b, limited))
    ]
  ]

  abbrev pub if_limited : Option (B × Bool) → Option B
  if_limited none = none
  if_limited (some (b, limited)) = if limited then some b else none

  abbrev pub the_bucket : Option (B × Bool) → Option B
  the_bucket none = none
  the_bucket (some (b, limited)) = some b

  unfoldable pub get_limiter : Users → String → SpeedTracker B → SpeedTracker B × Option B
  unfolding limiter_for
  get_limiter users uuid t = let (t', found) = limiter_for users uuid t in (t', if_limited found)

  unfoldable pub get_stable_limiter : Users → String → SpeedTracker B → SpeedTracker B × Option B
  unfolding limiter_for
  get_stable_limiter users uuid t =
      let (t', found) = limiter_for users uuid t in (t', the_bucket found)

  abbrev pub positive : List (ℕ × ℕ) → List (ℕ × ℕ)
  positive [] = []
  positive ((id, limit) ∷ limits) =
      let rest = positive limits in if ltb 0 limit then (id, limit) ∷ rest else rest

  unfoldable pub set_temporary : List (ℕ × ℕ) → Users → SpeedTracker B → SpeedTracker B
  unfolding update_buckets
  set_temporary limits users t = update_buckets users (record t { temporary = positive limits })

  -- A bucket in debt is an event of its user.
  abbrev pub sample_known : ℕ → ℕ → B → Option UserSpec → Limiter B → Limiter B
  sample_known at id b none l = l
  sample_known at id b (some u) l =
      let stat = stat_or_zero (lookup id l.limit_events) in
      if u.speed_limit == 0 || not (r.in_debt_at at b) then l else record l {
        limit_events =
            insert id
              (record stat {
                speed_hits = count_up stat.speed_hits;
                speed_limit = u.speed_limit;
                speed_last = unix at;
                speed_first = if stat.speed_first == 0 then unix at else stat.speed_first;
              })
              l.limit_events;
      }

  -- The loop of `SampleThrottled`.
  unfoldable pub sample_loop : ℕ → List (ℕ × B) → Limiter B → Limiter B
  sample_loop at [] l = l
  sample_loop at ((id, b) ∷ buckets) l =
      sample_loop at buckets (sample_known at id b (lookup id l.users) l)

  unfoldable pub sample_throttled : ℕ → SpeedTracker B → Limiter B → Limiter B
  unfolding sample_loop
  sample_throttled at t l = if not t.has_limits then l else sample_loop at t.buckets l

abbrev pub limited_users : Users → {B : Type 0} → List (ℕ × B) → ℕ
limited_users users [] = 0
limited_users users ((id, b) ∷ buckets) =
    (elim (lookup id users) [ none ↦ 0 | some u ↦ if ltb 0 u.speed_limit then 1 else 0 ])
    + limited_users users buckets

unfoldable pub limited_user_count : {B : Type 0} → Users → SpeedTracker B → ℕ
limited_user_count users t = limited_users users t.buckets
