-- ===== src/Mailbox/Order.antt =====
-- What the gate lets through.
use yz_agent.Prelude.{
  ◌≡◌, refl, String, Bool, true, false, not, ◌||◌, ◌&&◌, List, [], ◌∷◌, ◌==◌, nat_eq, string_eq,
  leb, if◌then◌else◌, any, arith, Bool-cases, inl, inr,
}
use yz_agent.Mailbox.Gate.{StateVersion, VersionGate, is_retired, accept}

-- The versions that a gate lets through, in order.
unfoldable pub accepted : List StateVersion → VersionGate → List StateVersion
accepted [] g = []
accepted (v ∷ versions) g =
    let rest = accepted versions (accept v g).0 in if (accept v g).1 then v ∷ rest else rest

-- What may come after a version: of its own epoch none that is older, and once another epoch comes, its
-- own never again. Versions without an epoch have no order among themselves.
abbrev pub follows : StateVersion → List StateVersion → Bool
follows v [] = true
follows v (w ∷ later) =
    let rest = follows v later in
    if w.epoch == v.epoch
    then (v.epoch == "" || leb v.sequence w.sequence) && rest
    else not (any (λ x. x.epoch == v.epoch) later)

abbrev pub IsForward : List StateVersion → Type 0
IsForward [] = Unit {0}
IsForward (v ∷ later) = (follows v later ≡ true) × IsForward later

-- An epoch that the gate lets nothing of through any more.
abbrev is_gone : String → VersionGate → Bool
is_gone epoch g = if epoch == "" then not (g.current.epoch == "") else is_retired epoch g

accept-is_gone :
    (epoch : String) (v : StateVersion) (g : VersionGate)
    → is_gone epoch g ≡ true
    → (is_gone epoch (accept v g).0 ≡ true) × (((accept v g).1 && (v.epoch == epoch)) ≡ false)
unfolding accept
accept-is_gone epoch v g h = ground (
  arith,
  string_eq.beq_iff v.epoch epoch,
  string_eq.beq_iff v.epoch "",
  string_eq.beq_iff epoch "",
  string_eq.beq_iff g.current.epoch "",
  string_eq.beq_iff v.epoch g.current.epoch,
)

any-accepted :
    (epoch : String) (versions : List StateVersion) (g : VersionGate)
    → is_gone epoch g ≡ true
    → any (λ x. x.epoch == epoch) (accepted versions g) ≡ false
unfolding accepted
any-accepted epoch [] g h = refl
any-accepted epoch (v ∷ versions) g h =
    let (gone, other) = accept-is_gone epoch v g h in
    ground (arith, any-accepted epoch versions (accept v g).0 gone, other)

-- The gate has let v through, as the last of its epoch's.
record Holds (v : StateVersion) (g : VersionGate) : Type 0 where
  epoch : g.current.epoch ≡ v.epoch
  sequence : (v.epoch == "" || leb v.sequence g.current.sequence) ≡ true

record Outcome (v w : StateVersion) (g : VersionGate) : Type 0 where
  holds : (w.epoch == v.epoch) ≡ true → Holds v (accept w g).0
  stays : (accept w g).1 ≡ false → Holds v (accept w g).0
  order :
      (accept w g).1 ≡ true
      → (w.epoch == v.epoch) ≡ true
      → (v.epoch == "" || leb v.sequence w.sequence) ≡ true
  gone :
      (accept w g).1 ≡ true → (w.epoch == v.epoch) ≡ false → is_gone v.epoch (accept w g).0 ≡ true

accept-Holds : (v w : StateVersion) (g : VersionGate) → Holds v g → Outcome v w g
unfolding accept
accept-Holds v w g h = record {
  holds = λ e. ground (
    arith,
    h.epoch,
    h.sequence,
    e,
    string_eq.beq_iff w.epoch v.epoch,
    string_eq.beq_iff v.epoch "",
    string_eq.beq_iff w.epoch "",
    string_eq.beq_iff g.current.epoch w.epoch,
  );
  stays = λ e. ground (
    arith,
    h.epoch,
    h.sequence,
    e,
    string_eq.beq_iff w.epoch v.epoch,
    string_eq.beq_iff v.epoch "",
    string_eq.beq_iff w.epoch "",
    string_eq.beq_iff g.current.epoch w.epoch,
  );
  order = λ a e. ground (
    arith,
    h.epoch,
    h.sequence,
    a,
    e,
    string_eq.beq_iff w.epoch v.epoch,
    string_eq.beq_iff v.epoch "",
    string_eq.beq_iff w.epoch "",
    string_eq.beq_iff g.current.epoch w.epoch,
  );
  gone = λ a e. ground (
    arith,
    h.epoch,
    h.sequence,
    a,
    e,
    string_eq.beq_iff g.current.epoch v.epoch,
    string_eq.beq_iff g.current.epoch "",
    string_eq.beq_iff w.epoch v.epoch,
    string_eq.beq_iff v.epoch "",
    string_eq.beq_iff w.epoch "",
    string_eq.beq_iff g.current.epoch w.epoch,
  );
}

accept-starts :
    (v : StateVersion) (g : VersionGate) → (accept v g).1 ≡ true → Holds v (accept v g).0
unfolding accept
accept-starts v g a = record {
  epoch = ground (arith, a, string_eq.beq_iff v.epoch "", string_eq.beq_iff g.current.epoch "");
  sequence = ground (arith, a, string_eq.beq_iff v.epoch "", string_eq.beq_iff g.current.epoch "");
}

follows-accepted :
    (v : StateVersion) (versions : List StateVersion) (g : VersionGate)
    → Holds v g
    → follows v (accepted versions g) ≡ true
unfolding accepted
follows-accepted v [] g h = refl
follows-accepted v (w ∷ versions) g h =
    let o = accept-Holds v w g h in
    let g' = (accept w g).0 in
    elim (Bool-cases (accept w g).1) [
      | inr refused ↦ rw refused (follows-accepted v versions g' (o.stays refused))
      | inl let_in ↦ rw let_in (elim (Bool-cases (w.epoch == v.epoch)) [
        | inl same ↦
            ground (arith, same, o.order let_in same, follows-accepted v versions g' (o.holds same))
        | inr other ↦ ground (arith, other, any-accepted v.epoch versions g' (o.gone let_in other))
      ])
    ]

-- Whatever versions arrive, and in whatever order, of those that the gate lets through: one that has
-- an epoch is followed by no older one of its epoch; one without an epoch may be followed by any
-- others without one, since the gate does not put those in order; and once a version of another epoch
-- has followed, nothing of the first one's epoch, or without an epoch if it had none, is let through
-- again.
pub accepted-IsForward :
    (versions : List StateVersion) (g : VersionGate) → IsForward (accepted versions g)
unfolding accepted
accepted-IsForward [] g = tt
accepted-IsForward (v ∷ versions) g =
    let rest = accepted-IsForward versions (accept v g).0 in
    elim (Bool-cases (accept v g).1) [
      | inl let_in ↦
          rw let_in (follows-accepted v versions (accept v g).0 (accept-starts v g let_in), rest)
      | inr refused ↦ rw refused rest
    ]
