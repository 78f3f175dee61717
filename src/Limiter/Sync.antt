-- ===== src/Limiter/Sync.antt =====
-- What a refresh of the users leaves in the indexes that the hot paths read.
use yz_agent.Prelude.{
  ℕ, ◌≡◌, refl, true, false, not, ◌&&◌, List, [], ◌∷◌, ◌==◌, nat_eq, nat_beq_iff, if◌then◌else◌,
  Option, none, some, lookup, insert, has_key, IsMap, insert-IsMap, any, arith,
}
use yz_agent.Limiter.Bucket.{Rate}
use yz_agent.Limiter.Users.{
  UserSpec, ConnLimitSpec, Users, Limiter, is_empty, by_id, removed_ids, conn_spec, conn_limits_of,
  buckets_of, update_users, max_conn_by_user_id,
}

pub lookup_missing {ℓ} :
    {V : Type ℓ} (id : ℕ) (m : List (ℕ × V)) → has_key id m ≡ false → lookup id m ≡ none
lookup_missing id [] h = refl
lookup_missing id ((j, v) ∷ m) h = ground (arith, lookup_missing id m)

by_id-IsMap : (us : List UserSpec) (m : Users) → IsMap m → IsMap (by_id us m)
unfolding by_id
by_id-IsMap [] m h = h
by_id-IsMap (u ∷ us) m h = by_id-IsMap us (insert u.id u m) (insert-IsMap u.id u m h)

abbrev pub limits_of : Option UserSpec → Option ConnLimitSpec
limits_of none = none
limits_of (some u) =
    if u.conn_limit == 0 && u.conn_rate_limit == 0 then none else some (conn_spec u)

lookup-conn_limits_of :
    (id : ℕ) (users : Users)
    → IsMap users
    → lookup id (conn_limits_of users) ≡ limits_of (lookup id users)
unfolding conn_limits_of
lookup-conn_limits_of id [] h = refl
lookup-conn_limits_of id ((j, u) ∷ users) (a, h) =
    ground (arith, lookup-conn_limits_of id users h, lookup_missing id users, nat_beq_iff j id)

module _ {B : Type 0} (r : Rate B) where
  -- The bucket that settings ask for: nobody without a rate has one, a new one is full, and one that
  -- is there is tuned.
  abbrev pub bucket_of : Option B → Option UserSpec → Option B
  bucket_of old none = none
  bucket_of none (some u) =
      let rate = u.conn_rate_limit in if rate == 0 then none else some (r.new_limiter rate rate)
  bucket_of (some b) (some u) =
      let rate = u.conn_rate_limit in
      if rate == 0 then none else some (r.set_burst rate (r.set_limit rate b))

  lookup-buckets_of :
      (old : List (ℕ × B)) (id : ℕ) (users : Users)
      → IsMap users
      → lookup id (buckets_of r old users) ≡ bucket_of (lookup id old) (lookup id users)
  unfolding buckets_of
  lookup-buckets_of old id [] h = refl
  lookup-buckets_of old id ((j, u) ∷ users) (a, h) =
      ground (arith, lookup-buckets_of old id users h, lookup_missing id users, nat_beq_iff j id)

  -- What the limits of a user say, read off the list of users itself.
  abbrev pub max_conn_of : Option UserSpec → Option ℕ
  max_conn_of none = none
  max_conn_of (some u) = if u.conn_limit == 0 then none else some u.conn_limit

  empty-lookup : (id : ℕ) (m : List (ℕ × ConnLimitSpec)) → is_empty m ≡ true → lookup id m ≡ none
  empty-lookup id [] h = refl
  empty-lookup id (x ∷ m) h = cc

  -- After a refresh the index and its lock-free shortcut answer as the user's own settings do.
  pub max_conn-update_users :
      (us : List UserSpec) (l : Limiter B) (id : ℕ)
      → let l' = (update_users r us l).0 in
        max_conn_by_user_id r l' id ≡ max_conn_of (lookup id l'.users)
  unfolding update_users max_conn_by_user_id
  max_conn-update_users us l id =
      let users = by_id us [] in
      let m = by_id-IsMap us [] tt in
      ground (arith, lookup-conn_limits_of id users m, empty-lookup id (conn_limits_of users))

  -- After a refresh a user has a bucket exactly if his rate is limited. It is the bucket that he had,
  -- changed in place, and a new one only if he had none: no refresh fills a bucket up.
  pub buckets-update_users :
      (us : List UserSpec) (l : Limiter B) (id : ℕ)
      → let l' = (update_users r us l).0 in
        lookup id l'.conn_rate_buckets
        ≡ bucket_of (lookup id l.conn_rate_buckets) (lookup id l'.users)
  unfolding update_users
  buckets-update_users us l id =
      lookup-buckets_of l.conn_rate_buckets id (by_id us []) (by_id-IsMap us [] tt)

  any-removed_ids :
      (id : ℕ) (old users : Users)
      → any (λ j. j == id) (removed_ids old users) ≡ (has_key id old && not (has_key id users))
  unfolding removed_ids
  any-removed_ids id [] users = refl
  any-removed_ids id ((j, u) ∷ old) users =
      ground (arith, any-removed_ids id old users, nat_beq_iff j id)

  -- The users that a refresh reports as removed are those that were known before and no longer are.
  pub removed-update_users :
      (us : List UserSpec) (l : Limiter B) (id : ℕ)
      → let (l', removed) = update_users r us l in
        any (λ j. j == id) removed ≡ (has_key id l.users && not (has_key id l'.users))
  unfolding update_users
  removed-update_users us l id = any-removed_ids id l.users (by_id us [])
