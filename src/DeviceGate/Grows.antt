-- ===== src/DeviceGate/Grows.antt =====
-- What every step keeps: a relation between a state of the gate and a later one.
use yz_agent.Prelude.{
  inl, inr, ℕ, ◌≤◌, ◌<◌, ◌≡◌, refl, sym, subst, String, Bool, true, false, nat_eq, nat_beq_iff,
  if◌then◌else◌, Option, none, some, Option-cases, lookup, insert, lookup-insert, AllValues,
  AllValues-insert, AllValues-lookup, arith,
}
use yz_agent.DeviceGate.Types.{
  SourceKey, SourceState, Permit, Manager, is_revoked, update_source, new_source, empty_source,
  key_eq,
}
use yz_agent.DeviceGate.Lease.{barrier_of}

abbrev pub revoked_at : ℕ → Manager → Bool
revoked_at n m = is_revoked (lookup n m.source_heap)

abbrev pub source_place : Option Permit → Option ℕ
source_place none = none
source_place (some q) = some q.source

abbrev pub owner_of : ℕ → Manager → Option ℕ
owner_of p m = source_place (lookup p m.permit_heap)

abbrev pub Within : ℕ → SourceState → Type 0
Within bound s = s.deadline ≤ bound

-- No barrier is higher than the sequence of the gate.
abbrev pub IsBarred : Manager → Type 0
IsBarred m = (u : ℕ) → barrier_of u m ≤ m.seq

-- Later: `bound` is over every deadline set between, `same` says that no session starts between.
pub record Grows (bound : ℕ) (same : Bool) (m m' : Manager) : Type 0 where
  pub seq : m.seq ≤ m'.seq
  pub next : m.next ≤ m'.next
  pub revoked : (n : ℕ) → n < m.next → revoked_at n m ≡ true → revoked_at n m' ≡ true
  pub owner : (p n : ℕ) → p < m.next → owner_of p m ≡ some n → owner_of p m' ≡ some n
  pub deadlines : AllValues (Within bound) m.source_heap → AllValues (Within bound) m'.source_heap
  pub closing : m.closing ≡ true → m'.closing ≡ true
  pub bars : IsBarred m → IsBarred m'
  pub barriers : same ≡ true → IsBarred m → (u : ℕ) → barrier_of u m ≤ barrier_of u m'

pub update_source_lem :
    (n : ℕ) (f : SourceState → SourceState) (m : Manager)
    → ((update_source n f m).seq ≡ m.seq) × ((update_source n f m).next ≡ m.next)
unfolding update_source
update_source_lem n f m = elim (Option-cases (lookup n m.source_heap)) [
  | inl e ↦ rw e (refl, refl)
  | inr (s, e) ↦ rw e (refl, refl)
]

module _ {bound : ℕ} {same : Bool} where
  pub Grows-refl : (m : Manager) → Grows bound same m m
  Grows-refl m = record {
    seq = omega arith;
    next = omega arith;
    revoked = λ n l h. h;
    owner = λ p n l h. h;
    deadlines = λ h. h;
    closing = λ h. h;
    bars = λ h. h;
    barriers = λ e h u. omega arith;
  }

  pub Grows-trans :
      {a b c : Manager} → Grows bound same a b → Grows bound same b c → Grows bound same a c
  Grows-trans g h = record {
    seq = omega (arith, g.seq, h.seq);
    next = omega (arith, g.next, h.next);
    revoked = λ n l r. h.revoked n (omega (arith, l, g.next)) (g.revoked n l r);
    owner = λ p n l o. h.owner p n (omega (arith, l, g.next)) (g.owner p n l o);
    deadlines = λ d. h.deadlines (g.deadlines d);
    closing = λ c. h.closing (g.closing c);
    bars = λ b. h.bars (g.bars b);
    barriers = λ e b u. omega (arith, g.barriers e b u, h.barriers e (g.bars b) u);
  }

  -- A step that leaves the heaps and the barriers as they are.
  pub steady-Grows :
      (m m' : Manager)
      → m.seq ≤ m'.seq
      → m.next ≤ m'.next
      → m'.source_heap ≡ m.source_heap
      → m'.permit_heap ≡ m.permit_heap
      → m'.permission_barriers ≡ m.permission_barriers
      → (m.closing ≡ true → m'.closing ≡ true)
      → Grows bound same m m'
  steady-Grows m m' q x s p b c = record {
    closing = c;
    seq = q;
    next = x;
    revoked = λ n l h. rw s h;
    owner = λ k n l h. rw p h;
    deadlines = λ h. subst (AllValues (Within bound)) (sym s) h;
    bars = λ h u. rw b (omega (arith, h u, q));
    barriers = λ e h u. rw b (omega arith);
  }

  -- A source put at a place that was free, or that held one no less revoked.
  put-Grows :
      (n : ℕ) (s : SourceState) (m m' : Manager)
      → m.seq ≤ m'.seq
      → m.next ≤ m'.next
      → (n < m.next → revoked_at n m ≡ true → s.revoked ≡ true)
      → (AllValues (Within bound) m.source_heap → s.deadline ≤ bound)
      → m'.source_heap ≡ insert n s m.source_heap
      → m'.permit_heap ≡ m.permit_heap
      → m'.permission_barriers ≡ m.permission_barriers
      → (m.closing ≡ true → m'.closing ≡ true)
      → Grows bound same m m'
  put-Grows n s m m' q x r d h p b c = record {
    closing = c;
    seq = q;
    next = x;
    revoked = λ k l e.
        rw (h, lookup-insert n k s m.source_heap) (ground (arith, nat_beq_iff n k, r, e, l));
    owner = λ k j l e. rw p e;
    deadlines = λ a.
        subst (AllValues (Within bound)) (sym h)
          (AllValues-insert (Within bound) n s m.source_heap (d a) a);
    bars = λ e u. rw b (omega (arith, e u, q));
    barriers = λ e a u. rw b (omega arith);
  }

  pub update-Grows :
      (n : ℕ) (f : SourceState → SourceState) (m : Manager)
      → ((s : SourceState) → s.revoked ≡ true → (f s).revoked ≡ true)
      → ((s : SourceState) → s.deadline ≤ bound → (f s).deadline ≤ bound)
      → Grows bound same m (update_source n f m)
  unfolding update_source
  update-Grows n f m keeps within = elim (Option-cases (lookup n m.source_heap)) [
    | inl e ↦ rw e (Grows-refl m)
    | inr (s, e) ↦ rw e (
        put-Grows n (f s) m _ (omega arith) (omega arith) (λ l r. keeps s (rw e at r))
          (λ a. within s (AllValues-lookup (Within bound) n m.source_heap a e)) refl refl refl
          (λ h. h))
  ]

  pub new_source-Grows :
      (key : SourceKey) (lease : String) (m : Manager) → Grows bound same m (new_source key lease m)
  unfolding new_source
  new_source-Grows key lease m =
      put-Grows m.next (empty_source key m.run lease) m (new_source key lease m) (omega arith)
        (omega arith) (λ l r. absurd (omega (arith, l))) (λ a. omega arith) refl refl refl (λ h. h)

  -- A permit put at a place that was free, or that held one of the same source.
  pub permit-Grows :
      (p : ℕ) (q : Permit) (m m' : Manager)
      → m.seq ≤ m'.seq
      → m.next ≤ m'.next
      → ((n : ℕ) → p < m.next → owner_of p m ≡ some n → q.source ≡ n)
      → m'.source_heap ≡ m.source_heap
      → m'.permit_heap ≡ insert p q m.permit_heap
      → m'.permission_barriers ≡ m.permission_barriers
      → (m.closing ≡ true → m'.closing ≡ true)
      → Grows bound same m m'
  permit-Grows p q m m' e x o s h b c = record {
    closing = c;
    seq = e;
    next = x;
    revoked = λ n l r. rw s r;
    owner = λ k n l r.
        rw (h, lookup-insert p k q m.permit_heap) (ground (arith, nat_beq_iff p k, o n, r, l));
    deadlines = λ a. subst (AllValues (Within bound)) (sym s) a;
    bars = λ a u. rw b (omega (arith, a u, e));
    barriers = λ i a u. rw b (omega arith);
  }

  pub branch-Grows :
      (b : Bool) {m x y : Manager}
      → Grows bound same m x
      → Grows bound same m y
      → Grows bound same m (if b then x else y)
  branch-Grows true g h = g
  branch-Grows false g h = h

  pub choice-Grows {ℓ} :
      {X : Type ℓ} (b : Bool) {m : Manager} (x y : Manager × X)
      → Grows bound same m x.0
      → Grows bound same m y.0
      → Grows bound same m (if b then x else y).0
  choice-Grows true x y g h = g
  choice-Grows false x y g h = h
