-- ===== src/Firewall/Recorded.antt =====
-- A rule is made only after it stands on the disk, and what stands there is read back after a restart.
use yz_agent.Prelude.{
  String, Bool, true, false, ◌&&◌, List, [], ◌∷◌, ◌++◌, any, any-append, ◌≡◌, refl, sym, subst, ap,
  ◌∙◌, Bool-cases, inl, inr, ◌⊎◌, nat_eq, string_eq, leb, if_intro, Option, none, some, arith,
}
use yz_agent.Firewall.Rule.{NetIp, Rule}
use yz_agent.Firewall.Owned.{
  ℤ, pos, negsuc, same_int, OwnedRule, SavedState, same_rule, same_owned, all_true, valid_owned,
  valid_source_state, valid_state, load_state,
}
use yz_agent.Firewall.Saved.{
  Write, not_renamed, unsynced, synced, Records, version_of, versioned, change_owned, has_owned,
  same_ufw, replace_ufw, remember, is_record_of, remove_first, forget,
}

version_of_range : (s : SavedState) → (leb 1 (version_of s) && leb (version_of s) 4) ≡ true
version_of_range s = ground arith

same_int_refl : (a : ℤ) → same_int a a ≡ true
same_int_refl (pos m) = (nat_eq.beq_iff m m).1 refl
same_int_refl (negsuc m) = (nat_eq.beq_iff m m).1 refl

same_rule_refl : (r : Rule) → same_rule r r ≡ true
same_rule_refl r = ground (
  arith,
  nat_eq.beq_iff r.family r.family,
  string_eq.beq_iff r.address r.address,
  string_eq.beq_iff r.source r.source,
  string_eq.beq_iff r.protocol r.protocol,
  nat_eq.beq_iff r.ports.from r.ports.from,
  nat_eq.beq_iff r.ports.to r.ports.to,
  nat_eq.beq_iff r.target r.target,
)

same_owned_refl : (o : OwnedRule) → same_owned o o ≡ true
same_owned_refl o = ground (
  arith,
  string_eq.beq_iff o.backend o.backend,
  string_eq.beq_iff o.zone o.zone,
  same_rule_refl o.rule,
  same_int_refl o.priority,
)

has_owned-replace_ufw :
    (r : OwnedRule) (owned : List OwnedRule)
    → any (λ old. same_ufw old r) owned ≡ true
    → has_owned r (replace_ufw r owned) ≡ true
unfolding has_owned replace_ufw
has_owned-replace_ufw r [] h = cc
has_owned-replace_ufw r (old ∷ owned) h = elim (Bool-cases (same_ufw old r)) [
  | inl same ↦ rw same ground (arith, same_owned_refl r)
  | inr other ↦ rw other ground (arith, has_owned-replace_ufw r owned)
]

has_owned-append : (r : OwnedRule) (owned : List OwnedRule) → has_owned r (owned ++ (r ∷ [])) ≡ true
unfolding has_owned
has_owned-append r owned =
    any-append (λ o. same_owned o r) owned (r ∷ []) ∙ ground (arith, same_owned_refl r)

module _ (test : OwnedRule → Bool) where
  all_true-replace_ufw :
      (r : OwnedRule) (owned : List OwnedRule)
      → test r ≡ true
      → all_true test owned ≡ true
      → all_true test (replace_ufw r owned) ≡ true
  unfolding replace_ufw
  all_true-replace_ufw r [] hr h = refl
  all_true-replace_ufw r (old ∷ owned) hr h = ground (arith, all_true-replace_ufw r owned)

  all_true-append :
      (r : OwnedRule) (owned : List OwnedRule)
      → test r ≡ true
      → all_true test owned ≡ true
      → all_true test (owned ++ (r ∷ [])) ≡ true
  all_true-append r [] hr h = ground arith
  all_true-append r (o ∷ owned) hr h = ground (arith, all_true-append r owned)

  all_true-remove_first :
      (r : OwnedRule) (owned : List OwnedRule)
      → all_true test owned ≡ true
      → all_true test (remove_first r owned) ≡ true
  unfolding remove_first
  all_true-remove_first r [] h = refl
  all_true-remove_first r (o ∷ owned) h = ground (arith, all_true-remove_first r owned)

module _ (ip : NetIp) (source_id scope : String) where
  -- The records in memory are valid, and a restart reads them.
  abbrev pub IsRecorded : Records → Type 0
  IsRecorded b =
      (valid_state ip source_id scope b.state ≡ true)
      × (load_state ip source_id scope b.disk ≡ some b.state)

  valid_state-versioned :
      (s : SavedState) (owned : List OwnedRule)
      → valid_state ip source_id scope s ≡ true
      → all_true (valid_owned ip source_id) owned ≡ true
      → valid_state ip source_id scope (versioned (record s { owned = owned })) ≡ true
  unfolding valid_state valid_source_state
  valid_state-versioned s owned h valid =
      let in_range = version_of_range (record s { owned = owned }) in ground arith

  valid_state-owned :
      (s : SavedState)
      → valid_state ip source_id scope s ≡ true
      → all_true (valid_owned ip source_id) s.owned ≡ true
  unfolding valid_state
  valid_state-owned s h = ground arith

  -- How a change of the records ends.
  abbrev pub Changed : Records → List OwnedRule → Records × Bool → Type 0
  Changed b owned o =
      ((o.1 ≡ true) × IsRecorded o.0 × (o.0.state.owned ≡ owned))
      ⊎ ((o.1 ≡ false) × (o.0.state.owned ≡ b.state.owned))

  change_owned-Changed :
      (owned : List OwnedRule) (w : Write) (b : Records)
      → IsRecorded b
      → all_true (valid_owned ip source_id) owned ≡ true
      → Changed b owned (change_owned owned w b)
  unfolding load_state
  change_owned-Changed owned not_renamed b h valid = inr (refl, refl)
  change_owned-Changed owned unsynced b h valid = inr (refl, refl)
  change_owned-Changed owned synced b h valid =
      let sound = valid_state-versioned b.state owned h.0 valid in
      inl (refl, (sound, rw sound refl), refl)

  -- How `remember` ends.
  abbrev pub Remembered : OwnedRule → Records → Records × Bool → Type 0
  Remembered r b o =
      ((o.1 ≡ true) × IsRecorded o.0 × (has_owned r o.0.state.owned ≡ true))
      ⊎ ((o.1 ≡ false) × (o.0.state.owned ≡ b.state.owned))

  Changed-Remembered :
      (r : OwnedRule) (b : Records) (owned : List OwnedRule) (o : Records × Bool)
      → has_owned r owned ≡ true
      → Changed b owned o
      → Remembered r b o
  Changed-Remembered r b owned o has (inl (good, recorded, same)) =
      inl (good, recorded, subst (λ l. has_owned r l ≡ true) (sym same) has)
  Changed-Remembered r b owned o has (inr failed) = inr failed

  -- On records that a restart would read, `remember` of a valid rule either reports success,
  -- and then the rule is among the records, and a restart would read them with it; or it fails, and
  -- then the rules in memory are as before.
  pub remember-Remembered :
      (r : OwnedRule) (w : Write) (b : Records)
      → IsRecorded b
      → valid_owned ip source_id r ≡ true
      → Remembered r b (remember r w b)
  unfolding remember
  remember-Remembered r w b h valid =
      let owned_valid = valid_state-owned b.state h.0 in
      elim (Bool-cases (has_owned r b.state.owned)) [
        | inl has ↦ rw has (inl (refl, h, has))
        | inr lacks ↦ rw lacks (
            if_intro (Remembered r b) (any (λ old. same_ufw old r) b.state.owned) _ _
              (λ same.
                Changed-Remembered r b (replace_ufw r b.state.owned) _
                  (has_owned-replace_ufw r b.state.owned same)
                  (change_owned-Changed (replace_ufw r b.state.owned) w b h (
                    all_true-replace_ufw (valid_owned ip source_id) r b.state.owned valid
                      owned_valid)))
              (λ other.
                Changed-Remembered r b (b.state.owned ++ (r ∷ [])) _
                  (has_owned-append r b.state.owned)
                  (change_owned-Changed (b.state.owned ++ (r ∷ [])) w b h (
                    all_true-append (valid_owned ip source_id) r b.state.owned valid owned_valid))))
      ]

  -- On records that a restart would read, `forget` of a rule that is there either reports
  -- success, and then they are such records without the first one of the rule; or it fails, and then
  -- the rules in memory are as before.
  pub forget-Changed :
      (r : OwnedRule) (w : Write) (b : Records)
      → IsRecorded b
      → any (is_record_of r) b.state.owned ≡ true
      → Changed b (remove_first r b.state.owned) (forget r w b)
  unfolding forget
  forget-Changed r w b h has = rw has (
      change_owned-Changed (remove_first r b.state.owned) w b h (
        all_true-remove_first (valid_owned ip source_id) r b.state.owned
          (valid_state-owned b.state h.0)))

any-is_record_of :
    (r : OwnedRule) (owned : List OwnedRule)
    → has_owned r owned ≡ true
    → any (is_record_of r) owned ≡ true
unfolding has_owned
any-is_record_of r [] h = h
any-is_record_of r (o ∷ owned) h = ground (arith, any-is_record_of r owned)

-- The rules that stand on the disk.
abbrev pub disk_rules : Option SavedState → List OwnedRule
disk_rules none = []
disk_rules (some s) = s.owned

remember_known :
    (r : OwnedRule) (w : Write) (b : Records)
    → has_owned r b.state.owned ≡ true
    → remember r w b ≡ (b, true)
unfolding remember
remember_known r w b has = rw has refl

forget_unsynced :
    (r : OwnedRule) (b : Records)
    → any (is_record_of r) b.state.owned ≡ true
    → forget r unsynced b ≡ change_owned (remove_first r b.state.owned) unsynced b
unfolding forget
forget_unsynced r b has = rw has refl

-- Let a rule be recorded once, and let `forget` of it fail after the file has been renamed. Then a
-- later `remember` of the rule, however a write would end, reports success, and the rule does not
-- stand on the disk.
pub remember-forget_unsynced :
    (r : OwnedRule) (w : Write) (b : Records)
    → has_owned r b.state.owned ≡ true
    → has_owned r (remove_first r b.state.owned) ≡ false
    → ((remember r w (forget r unsynced b).0).1 ≡ true)
      × (has_owned r (disk_rules (remember r w (forget r unsynced b).0).0.disk) ≡ false)
remember-forget_unsynced r w b has once =
    let left = change_owned (remove_first r b.state.owned) unsynced b in
    let forgot : forget r unsynced b ≡ left =
      forget_unsynced r b (any-is_record_of r b.state.owned has) in
    let known : remember r w (forget r unsynced b).0 ≡ (left.0, true) =
      ap (λ o. remember r w o.0) forgot ∙ remember_known r w left.0 has in
    (ap (λ o. o.1) known, ap (λ o. has_owned r (disk_rules o.0.disk)) known ∙ once)
