-- ===== src/Limiter/SpeedSync.antt =====
-- What the buckets of the speed limits are set to.
use yz_agent.Prelude.{
  ℕ, ◌*◌, ◌/◌, ◌≤◌, ◌≡◌, refl, String, Bool, true, false, List, [], ◌∷◌, ◌==◌, nat_eq, nat_beq_iff,
  if◌then◌else◌, Option, none, some, lookup, arith, inl, inr, min, ◌⊎◌,
}
use yz_agent.Limiter.Bucket.{Rate}
use yz_agent.Limiter.Users.{UserSpec, Users}
use yz_agent.Limiter.Speed.{
  SpeedTracker, speed_settings, effective, number_or_zero, tuned, tune_all, update_buckets,
  limiter_for, get_limiter, get_stable_limiter, if_limited, the_bucket,
}

eighth : (s : ℕ) → s * 1000000 / 8 ≡ 125000 * s
eighth s = omega arith

-- A limit of s Mbps is a rate of 125000 s bytes a second, and one second of it is the burst: neither
-- bound on the burst ever applies.
pub speed_settings_limited : (s : ℕ) → 1 ≤ s → speed_settings s ≡ (125000 * s, 125000 * s)
unfolding speed_settings
speed_settings_limited s h = rw (eighth s) (ground arith)

-- The smaller of two limits, where 0 is none.
abbrev pub smaller : ℕ → ℕ → ℕ
smaller a b = if a == 0 then b else if b == 0 then a else min a b

-- Of a user's own limit and his temporary one, the smaller of those that are set is in force, and
-- none only if neither is set.
pub effective-smaller :
    (temporary : List (ℕ × ℕ)) (id base : ℕ)
    → effective temporary id base ≡ smaller (number_or_zero (lookup id temporary)) base
unfolding effective
effective-smaller temporary id base =
    ground (arith, nat_beq_iff base 0, nat_beq_iff (number_or_zero (lookup id temporary)) 0)

module _ {B : Type 0} (r : Rate B) where
  abbrev pub tuned_for : List (ℕ × ℕ) → ℕ → Option UserSpec → Option B → Option B
  tuned_for temporary id none b = none
  tuned_for temporary id (some u) none = none
  tuned_for temporary id (some u) (some b) = some (tuned r (effective temporary id u.speed_limit) b)

  lookup-tune_all :
      (temporary : List (ℕ × ℕ)) (users : Users) (id : ℕ) (buckets : List (ℕ × B))
      → lookup id (tune_all r temporary users buckets)
        ≡ tuned_for temporary id (lookup id users) (lookup id buckets)
  unfolding tune_all
  lookup-tune_all temporary users id [] = ground arith
  lookup-tune_all temporary users id ((j, b) ∷ buckets) =
      ground (arith, lookup-tune_all temporary users id buckets, nat_beq_iff j id)

  -- A refresh of the users drops the buckets of those who are gone, and changes every other bucket in
  -- place, the same one as before, to the limit that is in force.
  pub buckets-update_buckets :
      (users : Users) (t : SpeedTracker B) (id : ℕ)
      → lookup id (update_buckets r users t).buckets
        ≡ tuned_for t.temporary id (lookup id users) (lookup id t.buckets)
  unfolding update_buckets
  buckets-update_buckets users t id = lookup-tune_all t.temporary users id t.buckets

  if_limited-the_bucket :
      (found : Option (B × Bool))
      → (if_limited r found ≡ none) ⊎ (if_limited r found ≡ the_bucket r found)
  if_limited-the_bucket none = inl refl
  if_limited-the_bucket (some (b, true)) = inr refl
  if_limited-the_bucket (some (b, false)) = inl refl

  -- `GetLimiter` and `GetStableLimiter` leave the same tracker, and if the former gives a bucket it is
  -- the one that the latter gives.
  pub get_limiter-stable :
      (users : Users) (uuid : String) (t : SpeedTracker B)
      → ((get_limiter r users uuid t).0 ≡ (get_stable_limiter r users uuid t).0)
        × (((get_limiter r users uuid t).1 ≡ none)
            ⊎ ((get_limiter r users uuid t).1 ≡ (get_stable_limiter r users uuid t).1))
  unfolding get_limiter get_stable_limiter
  get_limiter-stable users uuid t = (refl, if_limited-the_bucket (limiter_for r users uuid t).1)
