-- ===== src/Prelude/Dict.antt =====
-- A Go map as an association list. Go iterates in no fixed order: each loop of the program over a
-- map treats its entries independently, so that the order of the list stands for any order.
use mathlib.Core.Path.{◌≡◌, refl, subst}
use mathlib.Core.Logic.{inl, inr}
use mathlib.Core.Bool.{Bool, true, false}
use mathlib.Core.Option.{Option, none, some}
use mathlib.Core.List.{List, [], ◌∷◌}
use native.Mathlib.Omega.{arith}
use yz_agent.Prelude.Tests.{Eq, ◌==◌, if◌then◌else◌, Bool-cases}

module _ {ℓ} {K : Type 0} ⦃e : Eq K⦄ {V : Type ℓ} where
  abbrev pub lookup : K → List (K × V) → Option V
  lookup k [] = none
  lookup k ((j, v) ∷ m) = if j == k then some v else lookup k m

  -- `m[k] = v`
  unfoldable pub insert : K → V → List (K × V) → List (K × V)
  insert k v [] = (k, v) ∷ []
  insert k v ((j, w) ∷ m) = if j == k then (k, v) ∷ m else (j, w) ∷ insert k v m

  -- `delete(m, k)`
  unfoldable pub erase : K → List (K × V) → List (K × V)
  erase k [] = []
  erase k ((j, w) ∷ m) = let rest = erase k m in if j == k then rest else (j, w) ∷ rest

  -- `_, ok := m[k]`
  abbrev pub has_key : K → List (K × V) → Bool
  has_key k [] = false
  has_key k ((j, v) ∷ m) = if j == k then true else has_key k m

  pub lookup-insert :
      (k j : K) (v : V) (m : List (K × V))
      → lookup j (insert k v m) ≡ (if k == j then some v else lookup j m)
  unfolding insert
  lookup-insert k j v [] = refl
  lookup-insert k j v ((i, w) ∷ m) =
      ground (arith, e.beq_iff k j, e.beq_iff i k, e.beq_iff i j, lookup-insert k j v m)

  pub lookup-erase :
      (k j : K) (m : List (K × V)) → lookup j (erase k m) ≡ (if k == j then none else lookup j m)
  unfolding erase
  lookup-erase k j [] = ground arith
  lookup-erase k j ((i, w) ∷ m) =
      ground (arith, e.beq_iff k j, e.beq_iff i k, e.beq_iff i j, lookup-erase k j m)

-- A property of every value of a map.
module _ {ℓ κ} {K : Type 0} {V : Type ℓ} where
  abbrev pub AllValues : (V → Type κ) → List (K × V) → Type κ
  AllValues P [] = Unit
  AllValues P ((k, v) ∷ m) = P v × AllValues P m

module _ {ℓ κ} {K : Type 0} ⦃e : Eq K⦄ {V : Type ℓ} (P : V → Type κ) where
  pub AllValues-insert :
      (k : K) (v : V) (m : List (K × V)) → P v → AllValues P m → AllValues P (insert k v m)
  unfolding insert
  AllValues-insert k v [] h a = (h, tt)
  AllValues-insert k v ((j, w) ∷ m) h (hw, a) = elim (Bool-cases (j == k)) [
    | inl same ↦ rw same (h, a)
    | inr other ↦ rw other (hw, AllValues-insert k v m h a)
  ]

  pub AllValues-erase : (k : K) (m : List (K × V)) → AllValues P m → AllValues P (erase k m)
  unfolding erase
  AllValues-erase k [] a = tt
  AllValues-erase k ((j, w) ∷ m) (hw, a) = elim (Bool-cases (j == k)) [
    | inl same ↦ rw same (AllValues-erase k m a)
    | inr other ↦ rw other (hw, AllValues-erase k m a)
  ]

  pub AllValues-lookup :
      (k : K) (m : List (K × V)) {v : V} → AllValues P m → lookup k m ≡ some v → P v
  AllValues-lookup k [] a h = cc
  AllValues-lookup k ((j, w) ∷ m) {v} (hw, a) h = elim (Bool-cases (j == k)) [
    | inl same ↦ let found : some w ≡ some v = rw same at h in subst P (cc) hw
    | inr other ↦ AllValues-lookup k m a (rw other at h)
  ]

-- No key stands twice: what a list is that holds a Go map.
module _ {ℓ} {K : Type 0} ⦃e : Eq K⦄ {V : Type ℓ} where
  abbrev pub IsMap : List (K × V) → Type 0
  IsMap [] = Unit {0}
  IsMap ((k, v) ∷ m) = (has_key k m ≡ false) × IsMap m

  has_key-insert :
      (k j : K) (v : V) (m : List (K × V))
      → has_key j (insert k v m) ≡ (if k == j then true else has_key j m)
  unfolding insert
  has_key-insert k j v [] = refl
  has_key-insert k j v ((i, w) ∷ m) =
      ground (arith, e.beq_iff k j, e.beq_iff i k, e.beq_iff i j, has_key-insert k j v m)

  pub insert-IsMap : (k : K) (v : V) (m : List (K × V)) → IsMap m → IsMap (insert k v m)
  unfolding insert
  insert-IsMap k v [] h = (refl, tt)
  insert-IsMap k v ((j, w) ∷ m) (a, h) =
      ground (arith, e.beq_iff j k, e.beq_iff k j, has_key-insert k j v m, insert-IsMap k v m h)
