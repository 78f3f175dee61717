-- ===== src/Firewall/Parts.antt =====
-- Plans that have a union have one too when some of them are left out.
use yz_agent.Prelude.{
  String, Bool, false, List, [], ◌∷◌, ◌++◌, any, select, ◌≡◌, refl, if_intro, Eq, ◌==◌, string_eq,
  erase, arith,
}
use yz_agent.Firewall.Rule.{Rule}
use yz_agent.Firewall.Node.{Plan}
use yz_agent.Firewall.Combine.{
  clashes, any_clash, any_share, plans_share, claims_of, all_claims, combined, Rules, combine_plans,
}
use yz_agent.Firewall.Targets.{combine_plans-combined, combine_plans-passed}

-- The first list is the second with some members left out.
pub data IsPart {ℓ} {A : Type ℓ} : List A → List A → Type ℓ where
  all_left : IsPart [] []
  left_out : {x : A} {xs ys : List A} → IsPart xs ys → IsPart xs (x ∷ ys)
  kept : {x : A} {xs ys : List A} → IsPart xs ys → IsPart (x ∷ xs) (x ∷ ys)

module _ {ℓ} {A : Type ℓ} where
  pub IsPart-refl : (xs : List A) → IsPart xs xs
  IsPart-refl [] = all_left
  IsPart-refl (x ∷ xs) = kept (IsPart-refl xs)

  IsPart-append : (zs : List A) {xs ys : List A} → IsPart xs ys → IsPart (zs ++ xs) (zs ++ ys)
  IsPart-append [] h = h
  IsPart-append (z ∷ zs) h = kept (IsPart-append zs h)

  IsPart-before : (zs : List A) {xs ys : List A} → IsPart xs ys → IsPart xs (zs ++ ys)
  IsPart-before [] h = h
  IsPart-before (z ∷ zs) h = left_out (IsPart-before zs h)

  pub select-IsPart : (test : A → Bool) (xs : List A) → IsPart (select test xs) xs
  select-IsPart test [] = all_left
  select-IsPart test (x ∷ xs) =
      if_intro (λ ys. IsPart ys (x ∷ xs)) (test x) (x ∷ select test xs) (select test xs)
        (λ yes. kept (select-IsPart test xs)) (λ no. left_out (select-IsPart test xs))

  any-IsPart :
      (test : A → Bool) {xs ys : List A} → IsPart xs ys → any test ys ≡ false → any test xs ≡ false
  any-IsPart test all_left h = refl
  any-IsPart test (left_out p) h = any-IsPart test p (ground arith)
  any-IsPart test (kept p) h = ground (arith, any-IsPart test p)

  pub erase-IsPart : {K : Type 0} ⦃e : Eq K⦄ (k : K) (m : List (K × A)) → IsPart (erase k m) m
  unfolding erase
  erase-IsPart k [] = all_left
  erase-IsPart k ((j, w) ∷ m) =
      if_intro (λ ys. IsPart ys ((j, w) ∷ m)) (j == k) (erase k m) ((j, w) ∷ erase k m)
        (λ same. left_out (erase-IsPart k m)) (λ other. kept (erase-IsPart k m))

any_share-IsPart :
    {plans more : List (String × Plan)}
    → IsPart plans more
    → any_share more ≡ false
    → any_share plans ≡ false
unfolding any_share
any_share-IsPart all_left h = refl
any_share-IsPart (left_out p) h = any_share-IsPart p (ground arith)
any_share-IsPart (kept {x = (owner, left)} p) h =
    ground (arith, any-IsPart (λ q. plans_share left q.1) p, any_share-IsPart p)

any_clash-IsPart :
    {claims more : List Rule}
    → IsPart claims more
    → any_clash more ≡ false
    → any_clash claims ≡ false
unfolding any_clash
any_clash-IsPart all_left h = refl
any_clash-IsPart (left_out p) h = any_clash-IsPart p (ground arith)
any_clash-IsPart (kept {x = a} p) h = ground (arith, any-IsPart (clashes a) p, any_clash-IsPart p)

all_claims-IsPart :
    {plans more : List (String × Plan)}
    → IsPart plans more
    → IsPart (all_claims plans) (all_claims more)
unfolding all_claims
all_claims-IsPart all_left = all_left
all_claims-IsPart (left_out {x = (owner, left)} p) =
    IsPart-before (claims_of left) (all_claims-IsPart p)
all_claims-IsPart (kept {x = (owner, left)} p) =
    IsPart-append (claims_of left) (all_claims-IsPart p)

-- The plans have a union.
abbrev pub IsCombinable : List (String × Plan) → Type 0
IsCombinable plans = (rules : Rules) × (combine_plans plans ≡ combined rules)

pub IsCombinable-IsPart :
    {plans more : List (String × Plan)} → IsPart plans more → IsCombinable more → IsCombinable plans
IsCombinable-IsPart {plans = plans} {more = more} part (rules, h) =
    let passed = combine_plans-combined more rules h in
    combine_plans-passed plans (any_share-IsPart part passed.0)
      (any_clash-IsPart (all_claims-IsPart part) passed.1)
