-- ===== src/DeviceGate/Revoked.antt =====
-- Retirement and revocation only bring the gate forward.
use yz_agent.Prelude.{
  inl, inr, Option-cases, ℕ, ◌≡◌, refl, String, Bool, true, false, not, ◌&&◌, ◌||◌, List, [], ◌∷◌,
  ◌==◌, nat_eq, string_eq, Option, none, some, lookup, arith,
}
use yz_agent.DeviceGate.Types.{
  SourceKey, Revocation, SourceState, Manager, is_empty, source_of, update_source, key_eq,
}
use yz_agent.DeviceGate.Revoke.{
  retire, retire_unknown, remove_source, key_of, overtaken, valid_lease, record_revoked,
  mark_revoked, close_source, revoke_source, revoke_item, revoke_items, revoke_locked,
  current_records, revoke_permit, revoke_permits, apply_revocations, close_sources, close_all,
}
use yz_agent.DeviceGate.Grows.{
  branch-Grows, choice-Grows, Grows, Grows-refl, Grows-trans, steady-Grows, update-Grows,
  permit-Grows,
}

module _ {bound : ℕ} {same : Bool} where
  pub retire-Grows : (item : Revocation) (m : Manager) → Grows bound same m (retire item m)
  unfolding retire
  retire-Grows item m =
      steady-Grows m (retire item m) (omega arith) (omega arith) refl refl refl (λ h. h)

  pub remove_source-Grows : (s : SourceState) (m : Manager) → Grows bound same m (remove_source s m)
  unfolding remove_source retire
  remove_source-Grows s m =
      steady-Grows m (remove_source s m) (omega arith) (omega arith) refl refl refl (λ h. h)

  pub close_source-Grows :
      (n : ℕ) (s : SourceState) (m : Manager) → Grows bound same m (close_source n s m).0
  unfolding close_source mark_revoked
  close_source-Grows n s m =
      let marked = update_source n mark_revoked m in
      let first : Grows bound same m marked =
        update-Grows n mark_revoked m (λ s h. refl) (λ s h. h) in
      branch-Grows (is_empty s.permits) (Grows-trans first (remove_source-Grows s marked)) first

  retire_unknown-Grows :
      (item : Revocation) (m : Manager) → Grows bound same m (retire_unknown item m)
  retire_unknown-Grows item m = branch-Grows m.lease_cache (retire-Grows item m) (Grows-refl m)

  revoke_source-Grows :
      (item : Revocation) (found : Option (ℕ × SourceState)) (m : Manager)
      → Grows bound same m (revoke_source item found m).0
  unfolding revoke_source
  revoke_source-Grows item none m = retire_unknown-Grows item m
  revoke_source-Grows item (some (n, s)) m =
      choice-Grows (s.lease == item.lease) (close_source n s m) (retire_unknown item m, [])
        (close_source-Grows n s m) (retire_unknown-Grows item m)

  record_revoked-Grows :
      (now sequence : ℕ) (item : Revocation) (m : Manager)
      → Grows bound same m (record_revoked now sequence item m)
  unfolding record_revoked
  record_revoked-Grows now sequence item m =
      steady-Grows m (record_revoked now sequence item m) (omega arith) (omega arith) refl refl refl
        (λ h. h)

  revoke_item-Grows :
      (now sequence : ℕ) (item : Revocation) (m : Manager)
      → Grows bound same m (revoke_item now sequence item m).0
  unfolding revoke_item
  revoke_item-Grows now sequence item m =
      let found = source_of (key_of item) m in
      choice-Grows
        (item.user_id == 0
          || not (valid_lease item.lease)
          || overtaken sequence item found (lookup item.lease m.revoked))
        (m, []) (revoke_source item found (record_revoked now sequence item m)) (Grows-refl m)
        (Grows-trans (record_revoked-Grows now sequence item m)
          (revoke_source-Grows item found (record_revoked now sequence item m)))

  pub revoke_items-Grows :
      (now sequence : ℕ) (items : List Revocation) (m : Manager)
      → Grows bound same m (revoke_items now sequence items m).0
  unfolding revoke_items
  revoke_items-Grows now sequence [] m = Grows-refl m
  revoke_items-Grows now sequence (item ∷ items) m =
      Grows-trans (revoke_item-Grows now sequence item m)
        (revoke_items-Grows now sequence items (revoke_item now sequence item m).0)

  pub revoke_locked-Grows :
      (now : ℕ) (items : List Revocation) (sequence : ℕ) (m : Manager)
      → Grows bound same m (revoke_locked now items sequence m).0
  unfolding revoke_locked
  revoke_locked-Grows now items sequence m =
      let m1 = record m { revoked = current_records now m.revoked } in
      Grows-trans (steady-Grows m m1 (omega arith) (omega arith) refl refl refl (λ h. h))
        (revoke_items-Grows now sequence items m1)

  pub revoke_permit-Grows : (p : ℕ) (m : Manager) → Grows bound same m (revoke_permit p m)
  unfolding revoke_permit
  revoke_permit-Grows p m = elim (Option-cases (lookup p m.permit_heap)) [
    | inl e ↦ rw e (Grows-refl m)
    | inr (q, e) ↦ rw e (
        permit-Grows p (record q { closing = true; bound = false }) m _ (omega arith) (omega arith)
          (λ n l h. let k : some q.source ≡ some n = rw e at h in cc) refl refl refl (λ h. h))
  ]

  pub revoke_permits-Grows : (ps : List ℕ) (m : Manager) → Grows bound same m (revoke_permits ps m)
  unfolding revoke_permits
  revoke_permits-Grows [] m = Grows-refl m
  revoke_permits-Grows (p ∷ ps) m =
      Grows-trans (revoke_permit-Grows p m) (revoke_permits-Grows ps (revoke_permit p m))

  pub apply_revocations-Grows :
      (now : ℕ) (items : List Revocation) (sequence : ℕ) (run : String) (m : Manager)
      → Grows bound same m (apply_revocations now items sequence run m)
  unfolding apply_revocations
  apply_revocations-Grows now items sequence run m =
      let (m1, permits) = revoke_locked now items sequence m in
      branch-Grows (not (run == "") && not (m.run == run)) (Grows-refl m)
        (Grows-trans (revoke_locked-Grows now items sequence m) (revoke_permits-Grows permits m1))

  pub close_sources-Grows :
      (sources : List (SourceKey × ℕ)) (m : Manager)
      → Grows bound same m (close_sources sources m).0
  unfolding close_sources
  close_sources-Grows [] m = Grows-refl m
  close_sources-Grows ((key, n) ∷ rest) m = elim (Option-cases (lookup n m.source_heap)) [
    | inl e ↦ rw e (close_sources-Grows rest m)
    | inr (s, e) ↦
        rw e
          (Grows-trans (close_source-Grows n s m) (close_sources-Grows rest (close_source n s m).0))
  ]

  pub close_all-Grows : (m : Manager) → Grows bound same m (close_all m)
  unfolding close_all
  close_all-Grows m =
      let (m1, permits) = close_sources m.sources m in
      Grows-trans (close_sources-Grows m.sources m) (revoke_permits-Grows permits m1)
