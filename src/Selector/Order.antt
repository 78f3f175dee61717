-- ===== src/Selector/Order.antt =====
-- The choice among the sorted targets.
use yz_agent.Prelude.{
  ℕ, ◌<◌, ◌≡◌, refl, true, false, ◌||◌, List, [], ◌∷◌, length, All, leb, ◌==◌, nat_eq, nat_beq_iff,
  Option, none, some, arith, Bool-cases, inl, inr, ◌-◌,
}
use yz_agent.Selector.{
  Target, Selector, before, insert_target, sort_targets, update, skips, group, eligible, nth, turn,
}

abbrev pub IsSorted : List Target → Type 0
IsSorted [] = Unit {0}
IsSorted (t ∷ targets) = All (λ u. leb t.priority u.priority ≡ true) targets × IsSorted targets

pub All-insert_target :
    (P : Target → Type 0) (a : Target) (targets : List Target)
    → P a
    → All P targets
    → All P (insert_target a targets)
unfolding insert_target
All-insert_target P a [] p h = (p, tt)
All-insert_target P a (b ∷ targets) p (q, h) = elim (Bool-cases (before b a)) [
  | inl e ↦ rw e (q, All-insert_target P a targets p h)
  | inr e ↦ rw e (p, (q, h))
]

All-le :
    (a b : Target) (targets : List Target)
    → leb a.priority b.priority ≡ true
    → All (λ u. leb b.priority u.priority ≡ true) targets
    → All (λ u. leb a.priority u.priority ≡ true) targets
All-le a b [] e h = tt
All-le a b (u ∷ targets) e (p, h) = (ground (arith, e, p), All-le a b targets e h)

insert_target-IsSorted :
    (a : Target) (targets : List Target) → IsSorted targets → IsSorted (insert_target a targets)
unfolding insert_target
insert_target-IsSorted a [] h = (tt, tt)
insert_target-IsSorted a (b ∷ targets) (p, h) = elim (Bool-cases (before b a)) [
  | inl e ↦ rw e (
    All-insert_target (λ u. leb b.priority u.priority ≡ true) a targets (ground (arith, e)) p,
    insert_target-IsSorted a targets h,
  )
  | inr e ↦
      let le : leb a.priority b.priority ≡ true = ground (arith, e) in
      rw e ((le, All-le a b targets le p), (p, h))
]

sort_targets-IsSorted : (targets : List Target) → IsSorted (sort_targets targets)
unfolding sort_targets
sort_targets-IsSorted [] = tt
sort_targets-IsSorted (t ∷ targets) =
    insert_target-IsSorted t (sort_targets targets) (sort_targets-IsSorted targets)

pub update-IsSorted :
    (targets : List Target) (s s' : Selector) → update targets s ≡ some s' → IsSorted s'.targets
unfolding update
update-IsSorted targets s s' h =
    let same : s'.targets ≡ sort_targets targets = ground (arith, h) in
    rw same (sort_targets-IsSorted targets)

-- It may be picked, and no other that may be has a higher priority, which is a smaller number.
abbrev pub IsBest : List ℕ → List Target → Target → Type 0
IsBest excluded targets t =
    (skips excluded t ≡ false)
    × All (λ u. (skips excluded u || leb t.priority u.priority) ≡ true) targets

abbrev pub IsChoice : List ℕ → List Target → Option Target → Type 0
IsChoice excluded targets none = All (λ u. skips excluded u ≡ true) targets
IsChoice excluded targets (some t) = IsBest excluded targets t

module _ (excluded : List ℕ) where
  abbrev IsOf : ℕ → Target → Type 0
  IsOf priority t = (skips excluded t ≡ false) × (t.priority ≡ priority)

  group-IsOf :
      (priority : ℕ) (targets : List Target) → All (IsOf priority) (group excluded priority targets)
  unfolding group
  group-IsOf priority [] = tt
  group-IsOf priority (t ∷ targets) = elim (Bool-cases (skips excluded t)) [
    | inl e ↦ rw e (group-IsOf priority targets)
    | inr e ↦ elim (Bool-cases (t.priority == priority)) [
      | inl same ↦
          rw (e, same) ((e, (nat_beq_iff t.priority priority).0 same), group-IsOf priority targets)
      | inr other ↦ rw (e, other) tt
    ]
  ]

  later-IsBest :
      (t : Target) (targets : List Target)
      → All (λ u. leb t.priority u.priority ≡ true) targets
      → All (λ u. (skips excluded u || leb t.priority u.priority) ≡ true) targets
  later-IsBest t [] h = tt
  later-IsBest t (u ∷ targets) (p, h) = (ground (arith, p), later-IsBest t targets h)

  same-IsBest :
      (t : Target) (all targets : List Target)
      → All (λ u. (skips excluded u || leb t.priority u.priority) ≡ true) all
      → All (IsOf t.priority) targets
      → All (IsBest excluded all) targets
  same-IsBest t all [] h g = tt
  same-IsBest t all (u ∷ targets) h ((e, p), g) = ((e, rw p h), same-IsBest t all targets h g)

  skipped-IsBest :
      (t : Target) (all targets : List Target)
      → skips excluded t ≡ true
      → All (IsBest excluded all) targets
      → All (IsBest excluded (t ∷ all)) targets
  skipped-IsBest t all [] e h = tt
  skipped-IsBest t all (u ∷ targets) e ((p, q), h) =
      ((p, (ground (arith, e), q)), skipped-IsBest t all targets e h)

  pub eligible-IsBest :
      (targets : List Target)
      → IsSorted targets
      → All (IsBest excluded targets) (eligible excluded targets)
  unfolding eligible
  eligible-IsBest [] h = tt
  eligible-IsBest (t ∷ targets) (p, h) = elim (Bool-cases (skips excluded t)) [
    | inl e ↦
        rw e (skipped-IsBest t targets (eligible excluded targets) e (eligible-IsBest targets h))
    | inr e ↦
        let least : All (λ u. (skips excluded u || leb t.priority u.priority) ≡ true)
            (t ∷ targets) =
          (ground arith, later-IsBest t targets p) in
        rw e (
          (e, least),
          same-IsBest t (t ∷ targets) (group excluded t.priority targets) least
              (group-IsOf t.priority targets),
        )
  ]

  pub eligible_none :
      (targets : List Target)
      → eligible excluded targets ≡ []
      → All (λ u. skips excluded u ≡ true) targets
  unfolding eligible
  eligible_none [] h = tt
  eligible_none (t ∷ targets) h = elim (Bool-cases (skips excluded t)) [
    | inl e ↦ (e, eligible_none targets (ground (arith, e, h)))
    | inr e ↦ absurd (ground (arith, e, h))
  ]

  nth-IsChoice :
      (targets found : List Target) (n : ℕ)
      → n < length found
      → All (IsBest excluded targets) found
      → IsChoice excluded targets (nth found n)
  nth-IsChoice targets [] n l h = absurd (omega (arith, l))
  nth-IsChoice targets (t ∷ found) n l (p, h) = elim (Bool-cases (n == 0)) [
    | inl e ↦ rw e p
    | inr e ↦ rw e (nth-IsChoice targets found (n - 1) (ground (arith, l, e, nat_beq_iff n 0)) h)
  ]

  pub turn-IsChoice :
      (targets found : List Target) (s : Selector)
      → (found ≡ [] → All (λ u. skips excluded u ≡ true) targets)
      → All (IsBest excluded targets) found
      → IsChoice excluded targets (turn found s).1
  turn-IsChoice targets [] s z h = z refl
  turn-IsChoice targets (t ∷ found) s z h = nth-IsChoice targets (t ∷ found) _ (omega arith) h
