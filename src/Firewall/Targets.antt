-- ===== src/Firewall/Targets.antt =====
-- What a union of plans promises of the redirections: the test for conflicts in `combinePlans`.
use yz_agent.Prelude.{
  ℕ, String, Bool, true, false, ◌||◌, List, [], ◌∷◌, map, any, any-append, ◌≡◌, refl, sym, subst,
  ap, ◌∙◌, ◌==◌, nat_eq, string_eq, Bool-cases, inl, inr, select, arith,
}
use yz_agent.PortSet.{contains}
use yz_agent.Firewall.Rule.{Rule, same_address}
use yz_agent.Firewall.Node.{Plan}
use yz_agent.Firewall.Combine.{
  GroupKey, group_of, group_eq, clashes, any_clash, any_share, claim_of, claims_of, all_claims,
  all_redirects, all_allows, combined, shared_port, clashing, Rules, combine_plans, merge_rules,
}
use yz_agent.Firewall.Covers.{matches, opens, opens-merge_rules}

-- Two rules on one port that do not clash have one target.
clashes-target :
    (a b : Rule) (port : ℕ)
    → clashes a b ≡ false
    → contains a.ports port ≡ true
    → contains b.ports port ≡ true
    → (a.family == b.family) ≡ true
    → same_address a.address b.address ≡ true
    → a.target ≡ b.target
clashes-target a b port h ha hb f s = ground (arith, nat_eq.beq_iff a.target b.target)

same_text_comm : (a b : String) → (a == b) ≡ true → (b == a) ≡ true
same_text_comm a b h = (string_eq.beq_iff b a).1 (sym ((string_eq.beq_iff a b).0 h))

same_address_comm : (a b : String) → same_address a b ≡ true → same_address b a ≡ true
same_address_comm a b h = ground (arith, same_text_comm a b)

-- What is known of two rules of a list without clashes, whichever stands first.
module _ (T : Type 0) (P Q : Rule → Bool) (both : (a : Rule) → P a ≡ true → Q a ≡ true → T)
    (pq : (a b : Rule) → P a ≡ true → Q b ≡ true → clashes a b ≡ false → T)
    (qp : (a b : Rule) → Q a ≡ true → P b ≡ true → clashes a b ≡ false → T) where
  any-elim :
      (test : Rule → Bool) (R : Rule → Bool) (claims : List Rule)
      → any R claims ≡ true
      → any test claims ≡ false
      → ((b : Rule) → R b ≡ true → test b ≡ false → T)
      → T
  any-elim test R [] h n f = cc
  any-elim test R (b ∷ claims) h n f = elim (Bool-cases (R b)) [
    | inl here ↦ f b here (ground arith)
    | inr there ↦ any-elim test R claims (ground arith) (ground arith) f
  ]

  pub any_clash-pair :
      (claims : List Rule)
      → any_clash claims ≡ false
      → any P claims ≡ true
      → any Q claims ≡ true
      → T
  unfolding any_clash
  any_clash-pair [] n p q = cc
  any_clash-pair (a ∷ claims) n p q =
      let fresh : any (clashes a) claims ≡ false = ground arith in
      elim (Bool-cases (P a)) [
        | inl pa ↦ elim (Bool-cases (Q a)) [
          | inl qa ↦ both a pa qa
          | inr nq ↦ any-elim (clashes a) Q claims (ground arith) fresh (λ b. pq a b pa)
        ]
        | inr np ↦ elim (Bool-cases (Q a)) [
          | inl qa ↦ any-elim (clashes a) P claims (ground arith) fresh (λ b. qp a b qa)
          | inr nq ↦ any_clash-pair claims (ground arith) (ground arith) (ground arith)
        ]
      ]

-- What the rules of a group have in common with its key.
matches-group :
    (key : GroupKey) (port : ℕ) (r : Rule) → matches key port r ≡ true → group_of r ≡ key
matches-group key port r h =
    let same : (group_of r == key) ≡ true = ground arith in
    (group_eq.beq_iff (group_of r) key).0 same

matches-contains :
    (key : GroupKey) (port : ℕ) (r : Rule)
    → matches key port r ≡ true
    → contains r.ports port ≡ true
matches-contains key port r h = ground arith

-- Two rules of one port that are for the keys `mine` and `other`.
matches-target :
    (mine other : GroupKey) (port : ℕ) (a b : Rule)
    → mine.family ≡ other.family
    → same_address mine.address other.address ≡ true
    → matches mine port a ≡ true
    → matches other port b ≡ true
    → clashes a b ≡ false
    → mine.target ≡ other.target
matches-target mine other port a b f s ha hb n =
    let ga = matches-group mine port a ha in
    let gb = matches-group other port b hb in
    let families : a.family ≡ b.family =
      ap (λ k. k.family) ga ∙ (f ∙ sym (ap (λ k. k.family) gb)) in
    let addresses : same_address a.address b.address ≡ true =
      subst (λ x. same_address x.address b.address ≡ true) (sym ga)
        (subst (λ x. same_address mine.address x.address ≡ true) (sym gb) s) in
    sym (ap (λ k. k.target) ga)
    ∙ (clashes-target a b port n (matches-contains mine port a ha)
          (matches-contains other port b hb) ((nat_eq.beq_iff a.family b.family).1 families)
          addresses
        ∙ ap (λ k. k.target) gb)

one_target :
    (claims : List Rule) (mine other : GroupKey) (port : ℕ)
    → any_clash claims ≡ false
    → mine.family ≡ other.family
    → same_address mine.address other.address ≡ true
    → opens claims mine port ≡ true
    → opens claims other port ≡ true
    → mine.target ≡ other.target
one_target claims mine other port n f s m o =
    any_clash-pair (mine.target ≡ other.target) (matches mine port) (matches other port)
      (λ a ha hb.
        ap (λ k. k.target) (sym (matches-group mine port a ha) ∙ matches-group other port a hb))
      (λ a b ha hb. matches-target mine other port a b f s ha hb)
      (λ a b hb ha h. sym (
        matches-target other mine port a b (sym f) (same_address_comm mine.address other.address s)
          hb ha h))
      claims n m o

or_right : (a b : Bool) → b ≡ true → (a || b) ≡ true
or_right a b h = ground arith

-- Every redirection is a claim.
opens-claims :
    (plans : List (String × Plan)) (key : GroupKey) (port : ℕ)
    → opens (all_redirects plans) key port ≡ true
    → opens (all_claims plans) key port ≡ true
unfolding all_redirects all_claims
opens-claims [] key port h = h
opens-claims ((owner, p) ∷ plans) key port h = ground (
  arith,
  any-append (matches key port) p.redirects (all_redirects plans),
  any-append (matches key port) (claims_of p) (all_claims plans),
  any-append (matches key port) (map claim_of (select (λ r. r.protocol == "udp") p.listeners))
      p.redirects,
  opens-claims plans key port,
)

-- What a union of plans has passed.
pub combine_plans-combined :
    (plans : List (String × Plan)) (rules : Rules)
    → combine_plans plans ≡ combined rules
    → (any_share plans ≡ false)
      × (any_clash (all_claims plans) ≡ false)
      × (rules ≡ record {
        allows = merge_rules (all_allows plans);
        redirects = merge_rules (all_redirects plans);
      })
unfolding combine_plans
combine_plans-combined plans rules h = elim (Bool-cases (any_share plans)) [
  | inl shared ↦ let bad : shared_port ≡ combined rules = rw shared at h in cc
  | inr apart ↦ elim (Bool-cases (any_clash (all_claims plans))) [
    | inl clash ↦ let bad : clashing ≡ combined rules = rw (apart, clash) at h in cc
    | inr quiet ↦
        let made : combined (record {
          allows = merge_rules (all_allows plans);
          redirects = merge_rules (all_redirects plans);
        })
            ≡ combined rules =
          rw (apart, quiet) at h in
        (apart, quiet, cc)
  ]
]

-- The other way round: plans that pass the two tests have a union.
pub combine_plans-passed :
    (plans : List (String × Plan))
    → any_share plans ≡ false
    → any_clash (all_claims plans) ≡ false
    → (rules : Rules) × (combine_plans plans ≡ combined rules)
unfolding combine_plans
combine_plans-passed plans apart quiet = (
  record { allows = merge_rules (all_allows plans); redirects = merge_rules (all_redirects plans) },
  rw (apart, quiet) refl,
)

-- The rules of a union open for the listeners, and redirect, exactly what the plans say.
pub combine_plans-opens :
    (plans : List (String × Plan)) (rules : Rules) (key : GroupKey) (port : ℕ)
    → combine_plans plans ≡ combined rules
    → (opens rules.allows key port ≡ opens (all_allows plans) key port)
      × (opens rules.redirects key port ≡ opens (all_redirects plans) key port)
combine_plans-opens plans rules key port h =
    let made = (combine_plans-combined plans rules h).2 in
    (
      ap (λ r. opens r.allows key port) made ∙ opens-merge_rules (all_allows plans) key port,
      ap (λ r. opens r.redirects key port) made ∙ opens-merge_rules (all_redirects plans) key port,
    )

-- In a union of plans, let a redirection take a port, and let a UDP listener or a redirection of any
-- plan claim the same port for the same family and for an address that may be the same. Then both
-- lead to one target.
pub combine_plans-one_target :
    (plans : List (String × Plan)) (rules : Rules) (mine other : GroupKey) (port : ℕ)
    → combine_plans plans ≡ combined rules
    → opens (all_claims plans) mine port ≡ true
    → opens rules.redirects other port ≡ true
    → mine.family ≡ other.family
    → same_address mine.address other.address ≡ true
    → mine.target ≡ other.target
combine_plans-one_target plans rules mine other port h m o f s =
    one_target (all_claims plans) mine other port (combine_plans-combined plans rules h).1 f s m
      (opens-claims plans other port (sym (combine_plans-opens plans rules other port h).1 ∙ o))
