-- ===== src/Selector/Picked.antt =====
-- The target that is picked is one of those of the last update.
use yz_agent.Prelude.{
  ℕ, ◌≡◌, ◌⊎◌, refl, sym, subst, true, false, ◌||◌, List, [], ◌∷◌, All, leb, ◌==◌, nat_eq, Option,
  none, some, arith, Bool-cases, inl, inr, ◌-◌,
}
use yz_agent.Selector.{
  Target, Selector, before, insert_target, sort_targets, update, skips, group, eligible, nth, turn,
  pick,
}
use yz_agent.Selector.Order.{
  All-insert_target, IsChoice, eligible-IsBest, eligible_none, turn-IsChoice, update-IsSorted,
}

-- One of a list.
abbrev pub IsIn : Target → List Target → Type 0
IsIn t [] = true ≡ false
IsIn t (u ∷ targets) = (t ≡ u) ⊎ IsIn t targets

All-IsIn :
    (u : Target) (all targets : List Target)
    → All (λ t. IsIn t all) targets
    → All (λ t. IsIn t (u ∷ all)) targets
All-IsIn u all [] h = tt
All-IsIn u all (t ∷ targets) (p, h) = (inr p, All-IsIn u all targets h)

-- The sorted targets are among the given ones.
sort_targets-IsIn : (targets : List Target) → All (λ t. IsIn t targets) (sort_targets targets)
unfolding sort_targets
sort_targets-IsIn [] = tt
sort_targets-IsIn (t ∷ targets) =
    All-insert_target (λ u. IsIn u (t ∷ targets)) t (sort_targets targets) (inl refl)
      (All-IsIn t targets (sort_targets targets) (sort_targets-IsIn targets))

-- What holds of all sorted targets holds of all given ones.
insert_target-All :
    (P : Target → Type 0) (a : Target) (targets : List Target)
    → All P (insert_target a targets)
    → P a × All P targets
unfolding insert_target
insert_target-All P a [] h = h
insert_target-All P a (b ∷ targets) h = elim (Bool-cases (before b a)) [
  | inl e ↦
      let split : P b × All P (insert_target a targets) = rw e at h in
      let (p, q) = insert_target-All P a targets split.1 in (p, (split.0, q))
  | inr e ↦ let same : P a × (P b × All P targets) = rw e at h in same
]

sort_targets-All :
    (P : Target → Type 0) (targets : List Target) → All P (sort_targets targets) → All P targets
unfolding sort_targets
sort_targets-All P [] h = tt
sort_targets-All P (t ∷ targets) h =
    let (p, q) = insert_target-All P t (sort_targets targets) h in (p, sort_targets-All P targets q)

module _ (P : Target → Type 0) (excluded : List ℕ) where
  group-All :
      (priority : ℕ) (targets : List Target)
      → All P targets
      → All P (group excluded priority targets)
  unfolding group
  group-All priority [] h = tt
  group-All priority (t ∷ targets) (p, h) = elim (Bool-cases (skips excluded t)) [
    | inl e ↦ rw e (group-All priority targets h)
    | inr e ↦ elim (Bool-cases (t.priority == priority)) [
      | inl same ↦ rw (e, same) (p, group-All priority targets h)
      | inr other ↦ rw (e, other) tt
    ]
  ]

  eligible-All : (targets : List Target) → All P targets → All P (eligible excluded targets)
  unfolding eligible
  eligible-All [] h = tt
  eligible-All (t ∷ targets) (p, h) = elim (Bool-cases (skips excluded t)) [
    | inl e ↦ rw e (eligible-All targets h)
    | inr e ↦ rw e (p, group-All t.priority targets h)
  ]

-- A property of the target, if there is one.
abbrev OnSome : (Target → Type 0) → Option Target → Type 0
OnSome P none = Unit
OnSome P (some t) = P t

nth-All :
    (P : Target → Type 0) (targets : List Target) (n : ℕ) → All P targets → OnSome P (nth targets n)
nth-All P [] n h = tt
nth-All P (t ∷ targets) n (p, h) = elim (Bool-cases (n == 0)) [
  | inl e ↦ rw e p
  | inr e ↦ rw e (nth-All P targets (n - 1) h)
]

turn-All :
    (P : Target → Type 0) (found : List Target) (s : Selector)
    → All P found
    → OnSome P (turn found s).1
turn-All P [] s h = tt
turn-All P (t ∷ found) s h = nth-All P (t ∷ found) _ h

-- The target is one of those given, and the choice among them; or there is none to choose.
abbrev pub IsPicked : List ℕ → List Target → Option Target → Type 0
IsPicked excluded targets none = IsChoice excluded targets none
IsPicked excluded targets (some t) = IsIn t targets × IsChoice excluded targets (some t)

sorted-IsPicked :
    (excluded : List ℕ) (targets : List Target) (found : Option Target)
    → OnSome (λ t. IsIn t targets) found
    → IsChoice excluded (sort_targets targets) found
    → IsPicked excluded targets found
sorted-IsPicked excluded targets none m h = sort_targets-All _ targets h
sorted-IsPicked excluded targets (some t) m (free, best) = (
  m,
  (
    free,
    sort_targets-All (λ u. (skips excluded u || leb t.priority u.priority) ≡ true) targets best,
  ),
)

update-targets :
    (targets : List Target) (s s' : Selector)
    → update targets s ≡ some s'
    → s'.targets ≡ sort_targets targets
unfolding update
update-targets targets s s' h = ground (arith, h)

-- After an update that is accepted, Pick gives one of the targets of the update that is online and not
-- excluded, of the highest priority of all of them that are, whatever the cursors; and none only if
-- none of them is.
pub pick-IsPicked :
    (targets : List Target) (s s' : Selector) (excluded : List ℕ)
    → update targets s ≡ some s'
    → IsPicked excluded targets (pick excluded s').1
unfolding pick
pick-IsPicked targets s s' excluded h =
    let same = update-targets targets s s' h in
    let choice =
      turn-IsChoice excluded s'.targets (eligible excluded s'.targets) s'
        (eligible_none excluded s'.targets)
        (eligible-IsBest excluded s'.targets (update-IsSorted targets s s' h)) in
    let members =
      eligible-All (λ t. IsIn t targets) excluded s'.targets
        (subst (All (λ t. IsIn t targets)) (sym same) (sort_targets-IsIn targets)) in
    sorted-IsPicked excluded targets (turn (eligible excluded s'.targets) s').1
      (turn-All (λ t. IsIn t targets) (eligible excluded s'.targets) s' members)
      (subst (λ l. IsChoice excluded l (turn (eligible excluded s'.targets) s').1) same choice)
