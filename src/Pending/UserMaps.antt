-- ===== src/Pending/UserMaps.antt =====
-- The difference of two maps of the traffic of users of relays, entry by entry.
use yz_agent.Prelude.{
  ℕ, ◌≡◌, refl, true, false, [], ◌∷◌, ◌++◌, nat_eq, nat_beq_iff, if◌then◌else◌, has_key, IsMap,
  arith, Bool-cases, inl, inr,
}
use yz_agent.Tracker.State.{NestedTraffic, inner}
use yz_agent.Pending.Delta.{diff_traffic, user_changes, user_removals, diff_users}
use yz_agent.Pending.RoundTrip.{append-IsMap, lookup-append, lookup_missing}

inner-append :
    (uid : ℕ) (xs ys : NestedTraffic)
    → inner uid (xs ++ ys) ≡ (if has_key uid xs then inner uid xs else inner uid ys)
inner-append uid xs ys = ground (arith, lookup-append uid xs ys)

pub inner_missing : (uid : ℕ) (m : NestedTraffic) → has_key uid m ≡ false → inner uid m ≡ []
inner_missing uid m h = ground (arith, lookup_missing uid m h)

has_key-user_changes :
    (before after : NestedTraffic) (uid : ℕ)
    → has_key uid (user_changes before after) ≡ true
    → has_key uid after ≡ true
unfolding user_changes
has_key-user_changes before [] uid h = cc
has_key-user_changes before ((k, v) ∷ after) uid h =
    ground (arith, has_key-user_changes before after uid)

user_changes-IsMap :
    (before after : NestedTraffic) → IsMap after → IsMap (user_changes before after)
unfolding user_changes
user_changes-IsMap before [] h = tt
user_changes-IsMap before ((k, v) ∷ after) (a, h) =
    ground (arith, user_changes-IsMap before after h, has_key-user_changes before after k)

has_key-user_removals :
    (after before : NestedTraffic) (uid : ℕ)
    → has_key uid (user_removals after before) ≡ true
    → (has_key uid before ≡ true) × (has_key uid after ≡ false)
unfolding user_removals
has_key-user_removals after [] uid h = cc
has_key-user_removals after ((k, v) ∷ before) uid h =
    ground (arith, has_key-user_removals after before uid, nat_beq_iff k uid)

user_removals-IsMap :
    (after before : NestedTraffic) → IsMap before → IsMap (user_removals after before)
unfolding user_removals
user_removals-IsMap after [] h = tt
user_removals-IsMap after ((k, v) ∷ before) (a, h) =
    ground (arith, user_removals-IsMap after before h, has_key-user_removals after before k)

pub diff_users-IsMap :
    (before after : NestedTraffic) → IsMap before → IsMap after → IsMap (diff_users before after)
unfolding diff_users
diff_users-IsMap before after hb ha =
    append-IsMap (user_changes before after) (user_removals after before)
      (user_changes-IsMap before after ha) (user_removals-IsMap after before hb)
      (λ j h.
        ground (arith, has_key-user_changes before after j h, has_key-user_removals after before j))

inner-user_changes :
    (before after : NestedTraffic) (uid : ℕ)
    → IsMap after
    → has_key uid after ≡ true
    → inner uid (user_changes before after) ≡ diff_traffic (inner uid before) (inner uid after)
unfolding user_changes
inner-user_changes before [] uid m h = cc
inner-user_changes before ((k, v) ∷ after) uid (a, m) h = ground (
  arith,
  inner-user_changes before after uid m,
  nat_beq_iff k uid,
  inner_missing uid (user_changes before after),
  has_key-user_changes before after uid,
)

inner-user_removals :
    (after before : NestedTraffic) (uid : ℕ)
    → IsMap before
    → has_key uid before ≡ true
    → has_key uid after ≡ false
    → inner uid (user_removals after before) ≡ diff_traffic (inner uid before) []
unfolding user_removals
inner-user_removals after [] uid m h n = cc
inner-user_removals after ((k, v) ∷ before) uid (a, m) h n =
    ground (arith, inner-user_removals after before uid m, nat_beq_iff k uid)

diff_traffic_nil : diff_traffic [] [] ≡ []
unfolding diff_traffic
diff_traffic_nil = refl

pub inner-diff_users :
    (before after : NestedTraffic) (uid : ℕ)
    → IsMap before
    → IsMap after
    → inner uid (diff_users before after) ≡ diff_traffic (inner uid before) (inner uid after)
unfolding diff_users
inner-diff_users before after uid mb ma = elim (Bool-cases (has_key uid after)) [
  | inl h ↦ ground (
    arith,
    inner-append uid (user_changes before after) (user_removals after before),
    inner-user_changes before after uid ma h,
    inner_missing uid (user_changes before after),
    inner_missing uid (user_removals after before),
    has_key-user_removals after before uid,
  )
  | inr n ↦ elim (Bool-cases (has_key uid before)) [
    | inl h ↦ ground (
      arith,
      inner-append uid (user_changes before after) (user_removals after before),
      inner-user_removals after before uid mb h n,
      has_key-user_changes before after uid,
      inner_missing uid after n,
    )
    | inr h ↦ ground (
      arith,
      inner-append uid (user_changes before after) (user_removals after before),
      inner_missing uid (user_removals after before),
      has_key-user_removals after before uid,
      has_key-user_changes before after uid,
      inner_missing uid after n,
      inner_missing uid before h,
      diff_traffic_nil,
    )
  ]
]
