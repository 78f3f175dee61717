-- ===== src/Mailbox/Replica.antt =====
-- What a service knows that takes its events from the mailbox, and what one knows that takes each event
-- as it comes.
use yz_agent.Prelude.{
  ◌≡◌, refl, String, Bool, true, false, ◌&&◌, List, [], ◌∷◌, if◌then◌else◌, Option, none, some,
  arith, ap, ◌∙◌, sym,
}
use yz_agent.Mailbox.Gate.{StateVersion, VersionGate, new_gate, accept}
use yz_agent.Mailbox.Members.{UserSpec, apply_user_delta}
use yz_agent.Mailbox.Box.{
  Sync, Event, NodeMailbox, MailboxState, is_some, mark_ready, seed_baseline, pass, store, apply,
  drain_if_ready,
}

pub record Replica (C D S : Type 0) : Type 0 where
  pub config : Option C
  pub users : Option (List (UserSpec S))
  pub devices : Option D
  pub control : VersionGate
  pub device : VersionGate

-- What the service reads.
pub record View (C D S : Type 0) : Type 0 where
  pub config : Option C
  pub users : Option (List (UserSpec S))
  pub devices : Option D
  pub control : StateVersion
  pub device : StateVersion

abbrev pub or_else {ℓ} : {A : Type ℓ} → Option A → Option A → Option A
or_else none old = old
or_else (some x) old = some x

abbrev pub both_or {ℓ κ} : {A : Type ℓ} {B : Type κ} → Option A → Option B → Option A → Option A
both_or (some a) (some b) old = some a
both_or (some a) none old = old
both_or none b old = old

abbrev pub changed :
    {S : Type 0}
    → String
    → List (UserSpec S)
    → Option (List (UserSpec S))
    → Option (List (UserSpec S))
changed action delta none = none
changed action [] (some us) = some us
changed action (d ∷ delta) (some us) = or_else (apply_user_delta action (d ∷ delta) us) (some us)

abbrev pub is_devices : Sync → Bool
is_devices Sync.devices = true
is_devices Sync.snapshot = false
is_devices Sync.config = false
is_devices Sync.users = false
is_devices Sync.user_delta = false
is_devices Sync.other = false

module _ {C D S : Type 0} where
  -- An event that has passed its gate.
  abbrev pub deliver_passed : Sync → Event C D S → Replica C D S → Replica C D S
  deliver_passed Sync.snapshot e r = record r {
    config = both_or e.config e.users r.config;
    users = both_or e.users e.config r.users;
  }
  deliver_passed Sync.config e r = record r { config = or_else e.config r.config }
  deliver_passed Sync.users e r = record r { users = or_else e.users r.users }
  deliver_passed Sync.devices e r = record r { devices = or_else e.device_users r.devices }
  deliver_passed Sync.user_delta e r = record r {
    users = changed e.delta_action e.delta_users r.users;
  }
  deliver_passed Sync.other e r = r

  -- Each event as it comes: it passes the gate of its kind, or it changes nothing.
  unfoldable pub deliver : Event C D S → Replica C D S → Replica C D S
  deliver e r =
      let (gate, ok) = accept e.version (if is_devices e.sync then r.device else r.control) in
      let r' =
        if is_devices e.sync then record r { device = gate } else record r { control = gate } in
      if ok then deliver_passed e.sync e r' else r'

  unfoldable pub deliver_all : List (Event C D S) → Replica C D S → Replica C D S
  unfolding deliver
  deliver_all [] r = r
  deliver_all (e ∷ es) r = deliver_all es (deliver e r)

  abbrev pub replica_of : NodeMailbox C D S → Replica C D S
  replica_of m = record {
    config = m.config;
    users = m.users;
    devices = m.device_users;
    control = m.control_version;
    device = m.device_version;
  }

  -- The service takes over what the state brings.
  abbrev pub take : MailboxState C D S → View C D S → View C D S
  take s v = record {
    config = if s.has_config then s.config else v.config;
    users = if s.has_users then s.users else v.users;
    devices = if s.has_devices then s.device_users else v.devices;
    control = s.control_version;
    device = s.device_version;
  }

  abbrev pub view_of : Replica C D S → View C D S
  view_of r = record {
    config = r.config;
    users = r.users;
    devices = r.devices;
    control = r.control.current;
    device = r.device.current;
  }

  -- The service and its mailbox: what differs is marked.
  pub record Agrees (m : NodeMailbox C D S) (v : View C D S) : Type 0 where
    pub full : m.has_full_user_state ≡ is_some m.users
    pub config : (m.dirty_config && is_some m.config) ≡ false → v.config ≡ m.config
    pub users : m.dirty_users ≡ false → v.users ≡ m.users
    pub devices : (m.dirty_devices && is_some m.device_users) ≡ false → v.devices ≡ m.device_users

  store-Agrees :
      (k : Sync) (e : Event C D S) (m : NodeMailbox C D S) (v : View C D S)
      → Agrees m v
      → Agrees (store k e m) v
  store-Agrees Sync.snapshot e m v h = ground arith
  store-Agrees Sync.config e m v h = ground arith
  store-Agrees Sync.users e m v h = ground arith
  store-Agrees Sync.devices e m v h = ground arith
  store-Agrees Sync.user_delta e m v h = ground arith
  store-Agrees Sync.other e m v h = h

  replica-store :
      (k : Sync) (e : Event C D S) (m : NodeMailbox C D S)
      → m.has_full_user_state ≡ is_some m.users
      → replica_of (store k e m) ≡ deliver_passed k e (replica_of m)
  replica-store Sync.snapshot e m h = ground arith
  replica-store Sync.config e m h = ground arith
  replica-store Sync.users e m h = ground arith
  replica-store Sync.devices e m h = ground arith
  replica-store Sync.user_delta e m h = ground arith
  replica-store Sync.other e m h = refl

  pass-Agrees :
      (k : Sync) (x : StateVersion) (m : NodeMailbox C D S) (v : View C D S)
      → Agrees m v
      → Agrees (pass k x m).0 v
  pass-Agrees k x m v h = ground (arith, h.full, h.config, h.users, h.devices)

  choice-Agrees :
      (b : Bool) (m m' : NodeMailbox C D S) (v : View C D S)
      → Agrees m v
      → Agrees m' v
      → Agrees (if b then m' else m) v
  choice-Agrees true m m' v h h' = h'
  choice-Agrees false m m' v h h' = h

  pub apply-Agrees :
      (e : Event C D S) (m : NodeMailbox C D S) (v : View C D S) → Agrees m v → Agrees (apply e m) v
  unfolding apply
  apply-Agrees e m v h =
      let p = pass-Agrees e.sync e.version m v h in
      let m' = (pass e.sync e.version m).0 in
      choice-Agrees (pass e.sync e.version m).1 m' (store e.sync e m') v p
        (store-Agrees e.sync e m' v p)

  -- The gate that an event passes, and what it leaves of it.
  abbrev gate_of : Sync → Replica C D S → VersionGate
  gate_of k r = if is_devices k then r.device else r.control

  abbrev with_gate : Sync → VersionGate → Replica C D S → Replica C D S
  with_gate k g r = if is_devices k then record r { device = g } else record r { control = g }

  replica-pass :
      (k : Sync) (x : StateVersion) (m : NodeMailbox C D S)
      → let (g, ok) = accept x (gate_of k (replica_of m)) in
        let (m', ok') = pass k x m in
        (replica_of m' ≡ with_gate k g (replica_of m))
        × (ok' ≡ ok)
        × (m'.has_full_user_state ≡ m.has_full_user_state)
        × (m'.users ≡ m.users)
  replica-pass Sync.snapshot x m = (refl, refl, refl, refl)
  replica-pass Sync.config x m = (refl, refl, refl, refl)
  replica-pass Sync.users x m = (refl, refl, refl, refl)
  replica-pass Sync.devices x m = (refl, refl, refl, refl)
  replica-pass Sync.user_delta x m = (refl, refl, refl, refl)
  replica-pass Sync.other x m = (refl, refl, refl, refl)

  replica-choice :
      (b : Bool) (k : Sync) (e : Event C D S) (m : NodeMailbox C D S)
      → m.has_full_user_state ≡ is_some m.users
      → replica_of (if b then store k e m else m)
        ≡ (if b then deliver_passed k e (replica_of m) else replica_of m)
  replica-choice true k e m h = replica-store k e m h
  replica-choice false k e m h = refl

  pub replica-apply :
      (e : Event C D S) (m : NodeMailbox C D S)
      → m.has_full_user_state ≡ is_some m.users
      → replica_of (apply e m) ≡ deliver e (replica_of m)
  unfolding apply deliver
  replica-apply e m h =
      let k = e.sync in
      let m' = (pass k e.version m).0 in
      let (same, ok, full, users) = replica-pass k e.version m in
      replica-choice (pass k e.version m).1 k e m' (full ∙ h ∙ ap is_some (sym users))
      ∙ cc (same, ok)

  pub drain-Agrees :
      (m : NodeMailbox C D S) (v : View C D S)
      → m.ready ≡ true
      → Agrees m v
      → let (m', s) = drain_if_ready m in
        Agrees m' (take s v) × (replica_of m' ≡ replica_of m) × (take s v ≡ view_of (replica_of m))
  unfolding drain_if_ready
  drain-Agrees m v r h = ground (arith, h.full, h.config, h.users, h.devices)

  unfoldable pub apply_all : List (Event C D S) → NodeMailbox C D S → NodeMailbox C D S
  unfolding apply
  apply_all [] m = m
  apply_all (e ∷ es) m = apply_all es (apply e m)

  -- A service with the users and the settings of its start.
  abbrev pub baseline : Option (List (UserSpec S)) → Option C → View C D S
  baseline us c = record {
    config = c;
    users = us;
    devices = none;
    control = new_gate.current;
    device = new_gate.current;
  }

  pub apply_all-Agrees :
      (es : List (Event C D S)) (m : NodeMailbox C D S) (v : View C D S)
      → Agrees m v
      → Agrees (apply_all es m) v
  unfolding apply_all
  apply_all-Agrees [] m v h = h
  apply_all-Agrees (e ∷ es) m v h = apply_all-Agrees es (apply e m) v (apply-Agrees e m v h)

  pub replica-apply_all :
      (es : List (Event C D S)) (m : NodeMailbox C D S) (v : View C D S)
      → Agrees m v
      → replica_of (apply_all es m) ≡ deliver_all es (replica_of m)
  unfolding apply_all deliver_all
  replica-apply_all [] m v h = refl
  replica-apply_all (e ∷ es) m v h =
      replica-apply_all es (apply e m) v (apply-Agrees e m v h)
      ∙ ap (deliver_all es) (replica-apply e m h.full)

  pub seed-Agrees :
      (us : Option (List (UserSpec S))) (c : Option C) (m : NodeMailbox C D S)
      → Agrees m (baseline none none)
      → Agrees (mark_ready (seed_baseline us c m)) (baseline us c)
  unfolding mark_ready seed_baseline
  seed-Agrees us c m h = ground (arith, h.full, h.config, h.users, h.devices)

  -- What was there stays; the baseline fills in the rest.
  abbrev pub fill : Option (List (UserSpec S)) → Option C → Replica C D S → Replica C D S
  fill us c r = record r { config = or_else r.config c; users = or_else r.users us }

  pub replica-seed :
      (us : Option (List (UserSpec S))) (c : Option C) (m : NodeMailbox C D S)
      → m.has_full_user_state ≡ is_some m.users
      → replica_of (mark_ready (seed_baseline us c m)) ≡ fill us c (replica_of m)
  unfolding mark_ready seed_baseline
  replica-seed us c m h = ground (arith, h)
