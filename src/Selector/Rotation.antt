-- ===== src/Selector/Rotation.antt =====
-- The round robin within one priority.
use yz_agent.Prelude.{
  ℕ, zero, suc, ◌+◌, ◌%◌, ◌^◌, ◌<◌, ◌≡◌, refl, ap, ◌∙◌, List, ◌∷◌, length, nat_eq, nat_beq_iff,
  lookup, lookup-insert, arith,
}
use yz_agent.Selector.{Target, Selector, eligible, nth, pick, number_or_zero}

unfoldable pub picks : ℕ → List ℕ → Selector → Selector
unfolding pick
picks zero excluded s = s
picks (suc n) excluded s = picks n excluded (pick excluded s).0

abbrev pub cursor : ℕ → Selector → ℕ
cursor priority s = number_or_zero (lookup priority s.cursors)

pick_state :
    (excluded : List ℕ) (s : Selector) (t : Target) (found : List Target)
    → eligible excluded s.targets ≡ t ∷ found
    → ((pick excluded s).0.targets ≡ s.targets)
      × (cursor t.priority (pick excluded s).0 ≡ (cursor t.priority s + 1) % 2 ^ 64)
      × ((pick excluded s).1 ≡ nth (t ∷ found) (cursor t.priority s % length (t ∷ found)))
unfolding pick
pick_state excluded s t found h = rw h (
  refl,
  ground (
    arith,
    lookup-insert t.priority t.priority ((cursor t.priority s + 1) % 2 ^ 64) s.cursors,
    nat_beq_iff t.priority t.priority,
  ),
  refl,
)

-- While the same targets can be picked, the n-th Pick from now gives the one that stands n places on in
-- their circle, the cursor being a 64-bit number that wraps around.
pub pick-picks :
    (n : ℕ) (excluded : List ℕ) (s : Selector) (t : Target) (found : List Target)
    → eligible excluded s.targets ≡ t ∷ found
    → cursor t.priority s < 2 ^ 64
    → (pick excluded (picks n excluded s)).1
      ≡ nth (t ∷ found) ((cursor t.priority s + n) % 2 ^ 64 % length (t ∷ found))
unfolding picks
pick-picks zero excluded s t found h l =
    let (same, next, picked) = pick_state excluded s t found h in
    let small : cursor t.priority s ≡ (cursor t.priority s + 0) % 2 ^ 64 = omega (arith, l) in
    picked ∙ ap (λ c. nth (t ∷ found) (c % length (t ∷ found))) small
pick-picks (suc n) excluded s t found h l =
    let (same, next, picked) = pick_state excluded s t found h in
    let s' = (pick excluded s).0 in
    let place : (cursor t.priority s' + n) % 2 ^ 64 ≡ (cursor t.priority s + suc n) % 2 ^ 64 =
      omega (arith, next) in
    pick-picks n excluded s' t found (ap (eligible excluded) same ∙ h) (omega (arith, next))
    ∙ ap (λ c. nth (t ∷ found) (c % length (t ∷ found))) place
