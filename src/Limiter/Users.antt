-- ===== src/Limiter/Users.antt =====
-- `Limiter` with its users, and the index of their limits.
use yz_agent.Prelude.{
  ℕ, String, Bool, true, false, not, ◌&&◌, List, [], ◌∷◌, ◌==◌, nat_eq, string_eq, ltb,
  if◌then◌else◌, Option, none, some, lookup, insert, has_key,
}
use yz_agent.Limiter.Bucket.{Rate, retune}

-- The fields of `model.UserSpec` that the limiter reads.
pub record UserSpec : Type 0 where
  pub id : ℕ
  pub uuid : String
  pub speed_limit : ℕ
  pub device_limit : ℕ
  pub conn_limit : ℕ
  pub conn_rate_limit : ℕ

pub record ConnLimitSpec : Type 0 where
  pub max_conn : ℕ
  pub rate_per_sec : ℕ

pub record LimitSnapshot : Type 0 where
  pub occurred_at : ℕ
  pub source_ip : String
  pub active_ips : List String
  pub active_total : ℕ
  pub active_known : Bool
  pub limit : ℕ
  pub observed : ℕ

pub record LimitEventStat : Type 0 where
  pub speed_hits : ℕ
  pub speed_limit : ℕ
  pub speed_first : ℕ
  pub speed_last : ℕ
  pub conn_hits : ℕ
  pub rate_hits : ℕ
  pub conn_limit : ℕ
  pub rate_limit : ℕ
  pub peak_conn : ℕ
  pub device_hits : ℕ
  pub device_limit : ℕ
  pub peak_devices : ℕ
  pub device_ips : List String
  pub conn_snapshot : Option LimitSnapshot
  pub rate_snapshot : Option LimitSnapshot
  pub device_snapshot : Option LimitSnapshot

abbrev pub Users : Type 0
Users = List (ℕ × UserSpec)

pub record Limiter (B : Type 0) : Type 0 where
  pub users : Users
  pub uuid_device_limit : List (String × ℕ)
  pub conn_limits : List (ℕ × ConnLimitSpec)
  pub conn_rate_buckets : List (ℕ × B)
  pub has_conn_limits : Bool
  pub limit_events : List (ℕ × LimitEventStat)
  pub device_limit_events : ℕ
  pub conn_limit_events : ℕ

abbrev pub new : {B : Type 0} → Limiter B
new = record {
  users = [];
  uuid_device_limit = [];
  conn_limits = [];
  conn_rate_buckets = [];
  has_conn_limits = false;
  limit_events = [];
  device_limit_events = 0;
  conn_limit_events = 0;
}

abbrev pub is_empty {ℓ} : {A : Type ℓ} → List A → Bool
is_empty [] = true
is_empty (x ∷ xs) = false

-- `newUsers[u.ID] = u`, for each user of the list.
unfoldable pub by_id : List UserSpec → Users → Users
by_id [] m = m
by_id (u ∷ us) m = by_id us (insert u.id u m)

unfoldable pub removed_ids : Users → Users → List ℕ
removed_ids [] new_users = []
removed_ids ((id, u) ∷ old) new_users =
    let rest = removed_ids old new_users in if has_key id new_users then rest else id ∷ rest

unfoldable pub device_index : Users → List (String × ℕ)
device_index [] = []
device_index ((id, u) ∷ users) =
    let rest = device_index users in
    if ltb 0 u.device_limit then insert u.uuid u.device_limit rest else rest

abbrev pub conn_spec : UserSpec → ConnLimitSpec
conn_spec u = record { max_conn = u.conn_limit; rate_per_sec = u.conn_rate_limit }

-- The loop of `rebuildConnLimitsLocked`, its part for `limits`.
unfoldable pub conn_limits_of : Users → List (ℕ × ConnLimitSpec)
conn_limits_of [] = []
conn_limits_of ((id, u) ∷ users) =
    let rest = conn_limits_of users in
    if u.conn_limit == 0 && u.conn_rate_limit == 0 then rest else (id, conn_spec u) ∷ rest

module _ {B : Type 0} (r : Rate B) where
  -- A bucket that is there is changed in place; only a user without one gets a full one.
  abbrev pub bucket_for : ℕ → Option B → B
  bucket_for rate none = r.new_limiter rate rate
  bucket_for rate (some b) = retune r rate rate b

  -- Its part for `buckets`.
  unfoldable pub buckets_of : List (ℕ × B) → Users → List (ℕ × B)
  buckets_of old [] = []
  buckets_of old ((id, u) ∷ users) =
      let rest = buckets_of old users in
      if u.conn_rate_limit == 0
      then rest
      else (id, bucket_for u.conn_rate_limit (lookup id old)) ∷ rest

unfoldable pub keep_events : Users → List (ℕ × LimitEventStat) → List (ℕ × LimitEventStat)
keep_events users [] = []
keep_events users ((id, stat) ∷ events) =
    let rest = keep_events users events in if has_key id users then (id, stat) ∷ rest else rest

module _ {B : Type 0} (r : Rate B) where
  unfoldable pub rebuild : Users → Limiter B → Limiter B
  unfolding conn_limits_of buckets_of keep_events
  rebuild users l = record l {
    conn_limits = conn_limits_of users;
    conn_rate_buckets = buckets_of r l.conn_rate_buckets users;
    has_conn_limits = not (is_empty (conn_limits_of users));
    limit_events = keep_events users l.limit_events;
  }

  unfoldable pub update_users : List UserSpec → Limiter B → Limiter B × List ℕ
  unfolding by_id removed_ids device_index rebuild
  update_users us l =
      let users = by_id us [] in
      (
        rebuild users (record l { users = users; uuid_device_limit = device_index users }),
        removed_ids l.users users,
      )

  unfoldable pub max_conn_by_user_id : Limiter B → ℕ → Option ℕ
  max_conn_by_user_id l id =
      if not l.has_conn_limits then none else elim (lookup id l.conn_limits) [
        | none ↦ none
        | some spec ↦ if spec.max_conn == 0 then none else some spec.max_conn
      ]

  -- Whether a connection is let in, and the limiter with the token taken.
  unfoldable pub allow_new_conn : ℕ → ℕ → Limiter B → Limiter B × Bool
  allow_new_conn now id l =
      if not l.has_conn_limits then (l, true) else elim (lookup id l.conn_rate_buckets) [
        | none ↦ (l, true)
        | some b ↦
            let (b', allowed) = r.allow now b in
            (record l { conn_rate_buckets = insert id b' l.conn_rate_buckets }, allowed)
      ]

unfoldable pub get_device_limit_by_uuid : {B : Type 0} → Limiter B → String → Option ℕ
get_device_limit_by_uuid l uuid = lookup uuid l.uuid_device_limit
