-- ===== src/AutoSpeed/Lists.antt =====
-- A property of every state survives the matching of rules and the restoring of limits.
use yz_agent.Prelude.{
  ℕ, ◌≡◌, String, true, List, [], ◌∷◌, arith, nat_eq, inl, inr, Option, none, some, lookup,
  AllValues, AllValues-insert, AllValues-erase, AllValues-lookup, Option-cases,
}
use yz_agent.AutoSpeed.{
  Rule, State, Penalty, Manager, Rules, valid, fresh, drop_unruled, sync_rule, sync_loop,
  sync_rules, may_restore, restore_one, restore_loop,
}

module _ (fingerprint : Rule → String) (P : State → Type 0)
    (made : (r : Rule) → valid r ≡ true → P (fresh fingerprint r)) where
  drop_unruled-AllValues :
      (rules : Rules) (users : List (ℕ × State))
      → AllValues P users
      → AllValues P (drop_unruled rules users)
  drop_unruled-AllValues rules [] a = tt
  drop_unruled-AllValues rules ((id, s) ∷ users) (h, a) =
      ground (arith, drop_unruled-AllValues rules users a)

  sync_rule-AllValues :
      (id : ℕ) (r : Option Rule) (users : List (ℕ × State))
      → AllValues P users
      → AllValues P (sync_rule fingerprint id r users)
  unfolding sync_rule
  sync_rule-AllValues id none users a = AllValues-erase P id users a
  sync_rule-AllValues id (some r) users a = ground (
    arith,
    made r,
    AllValues-erase P id users a,
    AllValues-insert P id (fresh fingerprint r) users,
  )

  sync_loop-AllValues :
      (rules : Rules) (users : List (ℕ × State))
      → AllValues P users
      → AllValues P (sync_loop fingerprint rules users)
  unfolding sync_loop
  sync_loop-AllValues [] users a = a
  sync_loop-AllValues ((id, r) ∷ rules) users a =
      sync_loop-AllValues rules (sync_rule fingerprint id r users)
        (sync_rule-AllValues id r users a)

  pub sync_rules-AllValues :
      (rules : Rules) (m : Manager)
      → AllValues P m.users
      → AllValues P (sync_rules fingerprint rules m).users
  unfolding sync_rules
  sync_rules-AllValues rules m a =
      sync_loop-AllValues rules (drop_unruled rules m.users)
        (drop_unruled-AllValues rules m.users a)

module _ (P : State → Type 0) (now : ℕ)
    (kept : (p : Penalty) (s : State)
      → may_restore now p s ≡ true
      → P s
      → P (record s { penalty = p })) where
  restore_one-AllValues :
      (id : ℕ) (p : Penalty) (users : List (ℕ × State))
      → AllValues P users
      → AllValues P (restore_one now id p users)
  unfolding restore_one
  restore_one-AllValues id p users a = elim (Option-cases (lookup id users)) [
    | inl e ↦ rw (e, restore_one) a
    | inr (s, e) ↦
        let h = AllValues-lookup P id users a e in
        rw (e, restore_one)
          (ground (arith, kept p s, AllValues-insert P id (record s { penalty = p }) users))
  ]

  pub restore_loop-AllValues :
      (saved : List (ℕ × Penalty)) (users : List (ℕ × State))
      → AllValues P users
      → AllValues P (restore_loop now saved users)
  unfolding restore_loop
  restore_loop-AllValues [] users a = a
  restore_loop-AllValues ((id, p) ∷ saved) users a =
      restore_loop-AllValues saved (restore_one now id p users) (restore_one-AllValues id p users a)
