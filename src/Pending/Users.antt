-- ===== src/Pending/Users.antt =====
-- The same for the traffic of the users of relays, and for a whole state.
use yz_agent.Prelude.{
  ℕ, ◌≡◌, refl, sym, ap, ◌∙◌, subst, true, [], ◌∷◌, ◌==◌, nat_eq, nat_beq_iff, if◌then◌else◌, some,
  lookup, lookup-insert, lookup-erase, has_key, IsMap, AllValues, AllValues-lookup, arith,
  Bool-cases, Option-cases, inl, inr,
}
use yz_agent.Tracker.Word.{Pair, zero_pair, IsCounter}
use yz_agent.Tracker.Book.{Traffic, get}
use yz_agent.Tracker.State.{NestedTraffic, inner}
use yz_agent.Pending.Delta.{
  PendingTraffic, sub_pair, diff_traffic, diff_users, diff_pending, put_user, apply_users,
  apply_pending,
}
use yz_agent.Pending.RoundTrip.{get-IsCounter, get-diff_traffic, apply_delta-diff_traffic}
use yz_agent.Pending.UserMaps.{diff_users-IsMap, inner-diff_users, inner_missing}

-- Two states with the same traffic: an entry of zero is as good as none.
abbrev pub SameTraffic : Traffic → Traffic → Type 0
SameTraffic a b = (j : ℕ) → get j a ≡ get j b

abbrev pub SameUsers : NestedTraffic → NestedTraffic → Type 0
SameUsers a b = (uid j : ℕ) → get j (inner uid a) ≡ get j (inner uid b)

inner-put_user :
    (uid k : ℕ) (nodes : Traffic) (m : NestedTraffic)
    → inner k (put_user uid nodes m) ≡ (if uid == k then nodes else inner k m)
inner-put_user uid k [] m = ground (arith, lookup-erase uid k m)
inner-put_user uid k (x ∷ nodes) m = ground (arith, lookup-insert uid k (x ∷ nodes) m)

-- The users of a state: no user twice, and for each a map of counters.
pub record IsUsers (m : NestedTraffic) : Type 0 where
  pub map : IsMap m
  pub nodes : AllValues IsMap m
  pub counters : AllValues (AllValues IsCounter) m

inner-All :
    (P : Traffic → Type 0) (uid : ℕ) (m : NestedTraffic) → P [] → AllValues P m → P (inner uid m)
inner-All P uid m e a = elim (Option-cases (lookup uid m)) [
  | inl none_here ↦ subst P (sym (ground (arith, none_here))) e
  | inr (nodes, found) ↦
      let same : inner uid m ≡ nodes = ground (arith, found) in
      subst P (sym same) (AllValues-lookup P uid m a found)
]

inner-IsMap : (uid : ℕ) (m : NestedTraffic) → AllValues IsMap m → IsMap (inner uid m)
inner-IsMap uid m a = inner-All IsMap uid m tt a

inner-IsCounter :
    (uid : ℕ) (m : NestedTraffic)
    → AllValues (AllValues IsCounter) m
    → AllValues IsCounter (inner uid m)
inner-IsCounter uid m a = inner-All (AllValues IsCounter) uid m tt a

module _ (before after : NestedTraffic) (vb : IsUsers before) (va : IsUsers after) where
  -- For any delta whose users are as those of the difference.
  apply_users_lem :
      (base delta : NestedTraffic)
      → IsMap delta
      → ((uid : ℕ)
          → has_key uid delta ≡ true
          → inner uid delta ≡ diff_traffic (inner uid before) (inner uid after))
      → ((uid j : ℕ)
          → get j (inner uid base)
            ≡ (if has_key uid delta then get j (inner uid before) else get j (inner uid after)))
      → (r : NestedTraffic) × (apply_users base delta ≡ some r) × SameUsers r after
  unfolding apply_users
  apply_users_lem base [] m d h = (base, refl, λ uid j. h uid j)
  apply_users_lem base ((uid, values) ∷ delta) (a, m) d h =
      let here : values ≡ diff_traffic (inner uid before) (inner uid after) =
        ground (arith, d uid, nat_beq_iff uid uid) in
      let (nodes, done, same) =
        apply_delta-diff_traffic (inner uid base) (inner uid before) (inner uid after)
          (inner-IsMap uid before vb.nodes) (inner-IsMap uid after va.nodes)
          (inner-IsCounter uid before vb.counters) (inner-IsCounter uid after va.counters)
          (λ j. ground (arith, h uid j, nat_beq_iff uid uid)) in
      let (r, rest, right) =
        apply_users_lem (put_user uid nodes base) delta m
          (λ k e. ground (arith, d k, nat_beq_iff uid k))
          (λ k j.
            ground (arith, h k j, same j, inner-put_user uid k nodes base, nat_beq_iff uid k)) in
      (r, rw (here, done) rest, right)

sub_pair_zero : (a b : Pair) → IsCounter a → IsCounter b → sub_pair a b ≡ zero_pair → a ≡ b
unfolding sub_pair
sub_pair_zero a b ha hb h = ground arith

pub apply_users-diff_users :
    (base before after : NestedTraffic)
    → IsUsers before
    → IsUsers after
    → SameUsers base before
    → (r : NestedTraffic) × (apply_users base (diff_users before after) ≡ some r)
      × SameUsers r after
apply_users-diff_users base before after vb va same =
    let delta = diff_users before after in
    let at = λ (uid : ℕ). inner-diff_users before after uid vb.map va.map in
    apply_users_lem before after vb va base delta (diff_users-IsMap before after vb.map va.map)
      (λ uid h. at uid)
      (λ uid j. elim (Bool-cases (has_key uid delta)) [
        | inl h ↦ rw h (same uid j)
        | inr h ↦
            let ca = get-IsCounter j (inner uid after) (inner-IsCounter uid after va.counters) in
            let cb = get-IsCounter j (inner uid before) (inner-IsCounter uid before vb.counters) in
            let empty : diff_traffic (inner uid before) (inner uid after) ≡ [] =
              sym (at uid) ∙ inner_missing uid delta h in
            let zero : sub_pair (get j (inner uid after)) (get j (inner uid before)) ≡ zero_pair =
              sym (
                get-diff_traffic (inner uid before) (inner uid after) j
                  (inner-IsMap uid before vb.nodes) (inner-IsMap uid after va.nodes) cb ca)
              ∙ ap (get j) empty in
            rw h (
              same uid j
              ∙ sym (sub_pair_zero (get j (inner uid after)) (get j (inner uid before)) ca cb zero))
      ])

-- A state that Go maps of counters can hold.
pub record IsPending (p : PendingTraffic) : Type 0 where
  pub traffic_map : IsMap p.traffic
  pub traffic : AllValues IsCounter p.traffic
  pub relay_map : IsMap p.relay
  pub relay : AllValues IsCounter p.relay
  pub users : IsUsers p.relay_user

pub record SamePending (p q : PendingTraffic) : Type 0 where
  pub traffic : SameTraffic p.traffic q.traffic
  pub relay : SameTraffic p.relay q.relay
  pub users : SameUsers p.relay_user q.relay_user

-- On a state with the traffic of `before`, the difference of two states of counters is replayed without
-- error, and leaves the traffic of `after`: of each user, each relay, and each user of each relay.
pub apply_pending-diff_pending :
    (base before after : PendingTraffic)
    → IsPending before
    → IsPending after
    → SamePending base before
    → (r : PendingTraffic) × (apply_pending base (diff_pending before after) ≡ some r)
      × SamePending r after
unfolding apply_pending diff_pending
apply_pending-diff_pending base before after vb va same =
    let (t, te, ts) =
      apply_delta-diff_traffic base.traffic before.traffic after.traffic vb.traffic_map
        va.traffic_map vb.traffic va.traffic same.traffic in
    let (x, xe, xs) =
      apply_delta-diff_traffic base.relay before.relay after.relay vb.relay_map va.relay_map
        vb.relay va.relay same.relay in
    let (u, ue, us) =
      apply_users-diff_users base.relay_user before.relay_user after.relay_user vb.users va.users
        same.users in
    (
      record { traffic = t; relay = x; relay_user = u },
      rw (te, xe, ue) refl,
      record { traffic = ts; relay = xs; users = us },
    )
