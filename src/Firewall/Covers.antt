-- ===== src/Firewall/Covers.antt =====
-- Which ports a list of rules opens, before and after it is merged.
use yz_agent.Prelude.{
  ℕ, ◌≡◌, refl, subst, ap, ◌∙◌, Bool, false, ◌&&◌, ◌||◌, List, [], ◌∷◌, map, any, any-append, ◌==◌,
  Option, none, some, Bool-cases, inl, inr, lookup, insert, lookup-insert, has_key, IsMap,
  insert-IsMap, if_intro, codes_before, arith,
}
use yz_agent.PortSet.{Range, contains, covers, merge}
use yz_agent.PortSet.Cover.{covers-merge}
use yz_agent.Firewall.Rule.{Rule, rule_text}
use yz_agent.Firewall.Combine.{
  GroupKey, group_of, group_eq, Group, joined, group_rules, with_ports, merged_groups, insert_rule,
  sort_rules, merge_rules,
}

or_comm : (a b : Bool) → (a || b) ≡ (b || a)
or_comm a b = ground arith

or_swap : (a b c : Bool) → (a || (b || c)) ≡ ((b || a) || c)
or_swap a b c = ground arith

and_or : (a b c : Bool) → ((a && b) || (a && c)) ≡ (a && (b || c))
and_or a b c = ground arith

-- A rule for the traffic of a group that takes a port of it.
abbrev pub matches : GroupKey → ℕ → Rule → Bool
matches key port r = (group_of r == key) && contains r.ports port

abbrev pub opens : List Rule → GroupKey → ℕ → Bool
opens rules key port = any (matches key port) rules

abbrev group_covers : Option Group → ℕ → Bool
group_covers none port = false
group_covers (some g) port = covers g.ports port

abbrev covered : GroupKey → ℕ → List (GroupKey × Group) → Bool
covered key port groups = group_covers (lookup key groups) port

-- Each group has a rule of its key.
abbrev IsKeyed : List (GroupKey × Group) → Type 0
IsKeyed [] = Unit {0}
IsKeyed ((key, g) ∷ groups) = (group_of g.rule ≡ key) × IsKeyed groups

joined-covers :
    (r : Rule) (found : Option Group) (port : ℕ)
    → covers (joined r found).ports port ≡ (group_covers found port || contains r.ports port)
joined-covers r none port = ground arith
joined-covers r (some g) port =
    any-append (λ s. contains s port) g.ports (r.ports ∷ []) ∙ ground arith

covered-insert :
    (r : Rule) (key : GroupKey) (port : ℕ) (groups : List (GroupKey × Group))
    → covered key port (insert (group_of r) (joined r (lookup (group_of r) groups)) groups)
      ≡ (matches key port r || covered key port groups)
covered-insert r key port groups = elim (Bool-cases (group_of r == key)) [
  | inl same ↦
      let at_key : lookup (group_of r) groups ≡ lookup key groups =
        ap (λ k. lookup k groups) ((group_eq.beq_iff (group_of r) key).0 same) in
      rw (lookup-insert (group_of r) key (joined r (lookup (group_of r) groups)) groups, same)
        (joined-covers r (lookup (group_of r) groups) port
          ∙ ap (λ o. group_covers o port || contains r.ports port) at_key
          ∙ or_comm (group_covers (lookup key groups) port) (contains r.ports port))
  | inr other ↦
      rw (lookup-insert (group_of r) key (joined r (lookup (group_of r) groups)) groups, other) refl
]

covered-group_rules :
    (rules : List Rule) (groups : List (GroupKey × Group)) (key : GroupKey) (port : ℕ)
    → covered key port (group_rules rules groups)
      ≡ (opens rules key port || covered key port groups)
unfolding group_rules
covered-group_rules [] groups key port = refl
covered-group_rules (r ∷ rules) groups key port =
    let next = insert (group_of r) (joined r (lookup (group_of r) groups)) groups in
    covered-group_rules rules next key port
    ∙ ap (λ b. opens rules key port || b) (covered-insert r key port groups)
    ∙ or_swap (opens rules key port) (matches key port r) (covered key port groups)

group_rules-IsMap :
    (rules : List Rule) (groups : List (GroupKey × Group))
    → IsMap groups
    → IsMap (group_rules rules groups)
unfolding group_rules
group_rules-IsMap [] groups h = h
group_rules-IsMap (r ∷ rules) groups h =
    group_rules-IsMap rules (insert (group_of r) (joined r (lookup (group_of r) groups)) groups)
      (insert-IsMap (group_of r) (joined r (lookup (group_of r) groups)) groups h)

abbrev HasKey : GroupKey → Option Group → Type 0
HasKey key none = Unit {0}
HasKey key (some g) = group_of g.rule ≡ key

lookup-IsKeyed :
    (key : GroupKey) (groups : List (GroupKey × Group))
    → IsKeyed groups
    → HasKey key (lookup key groups)
lookup-IsKeyed key [] h = tt
lookup-IsKeyed key ((k, g) ∷ groups) (hk, h) =
    if_intro (HasKey key) (k == key) (some g) (lookup key groups)
      (λ same. hk ∙ (group_eq.beq_iff k key).0 same) (λ other. lookup-IsKeyed key groups h)

joined-HasKey :
    (r : Rule) (found : Option Group)
    → HasKey (group_of r) found
    → group_of (joined r found).rule ≡ group_of r
joined-HasKey r none h = refl
joined-HasKey r (some g) h = h

insert-IsKeyed :
    (key : GroupKey) (g : Group) (groups : List (GroupKey × Group))
    → group_of g.rule ≡ key
    → IsKeyed groups
    → IsKeyed (insert key g groups)
unfolding insert
insert-IsKeyed key g [] hk h = (hk, tt)
insert-IsKeyed key g ((j, w) ∷ groups) hk (hj, h) =
    if_intro IsKeyed (j == key) ((key, g) ∷ groups) ((j, w) ∷ insert key g groups) (λ same. (hk, h))
      (λ other. (hj, insert-IsKeyed key g groups hk h))

group_rules-IsKeyed :
    (rules : List Rule) (groups : List (GroupKey × Group))
    → IsKeyed groups
    → IsKeyed (group_rules rules groups)
unfolding group_rules
group_rules-IsKeyed [] groups h = h
group_rules-IsKeyed (r ∷ rules) groups h =
    let found = lookup (group_of r) groups in
    group_rules-IsKeyed rules (insert (group_of r) (joined r found) groups) (
      insert-IsKeyed (group_of r) (joined r found) groups
        (joined-HasKey r found (lookup-IsKeyed (group_of r) groups h)) h)

-- The rules made of a group open the ports of its ranges, for its key.
opens-with_ports :
    (r : Rule) (ranges : List Range) (key : GroupKey) (port : ℕ)
    → opens (map (with_ports r) ranges) key port ≡ ((group_of r == key) && covers ranges port)
opens-with_ports r [] key port = ground arith
opens-with_ports r (s ∷ ranges) key port =
    ap (λ b. matches key port (with_ports r s) || b) (opens-with_ports r ranges key port)
    ∙ and_or (group_of r == key) (contains s port) (covers ranges port)

opens-group :
    (g : Group) (key : GroupKey) (port : ℕ)
    → opens (map (with_ports g.rule) (merge g.ports)) key port
      ≡ ((group_of g.rule == key) && covers g.ports port)
opens-group g key port =
    opens-with_ports g.rule (merge g.ports) key port
    ∙ ap (λ b. (group_of g.rule == key) && b) (covers-merge g.ports port)

covered_missing :
    (key : GroupKey) (groups : List (GroupKey × Group)) (port : ℕ)
    → has_key key groups ≡ false
    → covered key port groups ≡ false
covered_missing key [] port h = refl
covered_missing key ((k, g) ∷ groups) port h = ground (arith, covered_missing key groups port)

covered_cons :
    (k key : GroupKey) (g : Group) (groups : List (GroupKey × Group)) (port : ℕ)
    → has_key k groups ≡ false
    → (((k == key) && covers g.ports port) || covered key port groups)
      ≡ covered key port ((k, g) ∷ groups)
covered_cons k key g groups port fresh = elim (Bool-cases (k == key)) [
  | inl same ↦
      let absent : has_key key groups ≡ false =
        subst (λ j. has_key j groups ≡ false) ((group_eq.beq_iff k key).0 same) fresh in
      rw (same, covered_missing key groups port absent) (or_comm (covers g.ports port) false)
  | inr other ↦ rw other refl
]

opens-merged_groups :
    (groups : List (GroupKey × Group)) (key : GroupKey) (port : ℕ)
    → IsMap groups
    → IsKeyed groups
    → opens (merged_groups groups) key port ≡ covered key port groups
unfolding merged_groups
opens-merged_groups [] key port m h = refl
opens-merged_groups ((k, g) ∷ groups) key port (fresh, m) (hk, h) =
    any-append (matches key port) (map (with_ports g.rule) (merge g.ports)) (merged_groups groups)
    ∙ (ap (λ b. b || opens (merged_groups groups) key port) (opens-group g key port)
        ∙ (ap (λ b. ((group_of g.rule == key) && covers g.ports port) || b)
              (opens-merged_groups groups key port m h)
            ∙ (ap (λ j. ((j == key) && covers g.ports port) || covered key port groups) hk
                ∙ covered_cons k key g groups port fresh)))

any-insert_rule :
    (p : Rule → Bool) (r : Rule) (rest : List Rule)
    → any p (insert_rule r rest) ≡ (p r || any p rest)
unfolding insert_rule
any-insert_rule p r [] = refl
any-insert_rule p r (s ∷ rest) =
    if_intro (λ xs. any p xs ≡ (p r || (p s || any p rest)))
      (codes_before (rule_text s) (rule_text r)) (s ∷ insert_rule r rest) (r ∷ s ∷ rest)
      (λ before. ground (arith, any-insert_rule p r rest)) (λ after. refl)

any-sort_rules : (p : Rule → Bool) (rules : List Rule) → any p (sort_rules rules) ≡ any p rules
unfolding sort_rules
any-sort_rules p [] = refl
any-sort_rules p (r ∷ rest) =
    any-insert_rule p r (sort_rules rest) ∙ ap (λ b. p r || b) (any-sort_rules p rest)

-- Merging a list of rules changes neither which ports are open for an address, a protocol, a source
-- and a target, nor where they lead.
pub opens-merge_rules :
    (rules : List Rule) (key : GroupKey) (port : ℕ)
    → opens (merge_rules rules) key port ≡ opens rules key port
unfolding merge_rules
opens-merge_rules rules key port =
    let groups = group_rules rules [] in
    any-sort_rules (matches key port) (merged_groups groups)
    ∙ (opens-merged_groups groups key port (group_rules-IsMap rules [] tt)
          (group_rules-IsKeyed rules [] tt)
        ∙ (covered-group_rules rules [] key port ∙ or_comm (opens rules key port) false))
