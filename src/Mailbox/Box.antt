-- ===== src/Mailbox/Box.antt =====
-- `NodeMailbox` with its methods. A pointer or slice that can be nil is an option.
use yz_agent.Prelude.{
  String, Bool, true, false, not, ◌&&◌, List, [], ◌∷◌, if◌then◌else◌, Option, none, some,
}
use yz_agent.Mailbox.Gate.{StateVersion, VersionGate, new_gate, accept}
use yz_agent.Mailbox.Members.{UserSpec, apply_user_delta}

-- The types of events that the mailbox knows; it ignores the others.
pub data Sync : Type 0 where
  snapshot config users devices user_delta other : Sync

pub record Event (C D S : Type 0) : Type 0 where
  pub sync : Sync
  pub version : StateVersion
  pub config : Option C
  pub users : Option (List (UserSpec S))
  pub device_users : Option D
  pub delta_action : String
  pub delta_users : List (UserSpec S)

pub record NodeMailbox (C D S : Type 0) : Type 0 where
  pub ready : Bool
  pub config : Option C
  pub users : Option (List (UserSpec S))
  pub device_users : Option D
  pub dirty_config : Bool
  pub dirty_users : Bool
  pub dirty_devices : Bool
  pub needs_reconcile : Bool
  pub has_full_user_state : Bool
  pub full_snapshot : Bool
  pub control_version : VersionGate
  pub device_version : VersionGate

pub record MailboxState (C D S : Type 0) : Type 0 where
  pub config : Option C
  pub users : Option (List (UserSpec S))
  pub device_users : Option D
  pub has_config : Bool
  pub has_users : Bool
  pub has_devices : Bool
  pub needs_reconcile : Bool
  pub full_snapshot : Bool
  pub control_version : StateVersion
  pub device_version : StateVersion

abbrev pub is_empty {ℓ} : {A : Type ℓ} → List A → Bool
is_empty [] = true
is_empty (x ∷ xs) = false

abbrev pub is_some {ℓ} : {A : Type ℓ} → Option A → Bool
is_some none = false
is_some (some x) = true

abbrev pub or_empty {ℓ} : {A : Type ℓ} → Option (List A) → List A
or_empty none = []
or_empty (some xs) = xs

module _ {C D S : Type 0} where
  abbrev pub new_node_mailbox : NodeMailbox C D S
  new_node_mailbox = record {
    ready = false;
    config = none;
    users = none;
    device_users = none;
    dirty_config = false;
    dirty_users = false;
    dirty_devices = false;
    needs_reconcile = false;
    has_full_user_state = false;
    full_snapshot = false;
    control_version = new_gate;
    device_version = new_gate;
  }

  unfoldable pub mark_ready : NodeMailbox C D S → NodeMailbox C D S
  mark_ready m = record m { ready = true }

  abbrev pub seed_users : Option (List (UserSpec S)) → NodeMailbox C D S → NodeMailbox C D S
  seed_users none m = m
  seed_users (some us) m =
      if m.has_full_user_state then m else record m { users = some us; has_full_user_state = true }

  abbrev pub seed_config : Option C → NodeMailbox C D S → NodeMailbox C D S
  seed_config none m = m
  seed_config (some c) m = if is_some m.config then m else record m { config = some c }

  unfoldable pub seed_baseline :
      Option (List (UserSpec S)) → Option C → NodeMailbox C D S → NodeMailbox C D S
  seed_baseline us c m = seed_config c (seed_users us m)

  -- The gate of the devices is their own.
  abbrev pub pass : Sync → StateVersion → NodeMailbox C D S → NodeMailbox C D S × Bool
  pass Sync.devices v m =
      let (g, ok) = accept v m.device_version in (record m { device_version = g }, ok)
  pass Sync.snapshot v m =
      let (g, ok) = accept v m.control_version in (record m { control_version = g }, ok)
  pass Sync.config v m =
      let (g, ok) = accept v m.control_version in (record m { control_version = g }, ok)
  pass Sync.users v m =
      let (g, ok) = accept v m.control_version in (record m { control_version = g }, ok)
  pass Sync.user_delta v m =
      let (g, ok) = accept v m.control_version in (record m { control_version = g }, ok)
  pass Sync.other v m =
      let (g, ok) = accept v m.control_version in (record m { control_version = g }, ok)

  abbrev pub store_snapshot :
      Option C → Option (List (UserSpec S)) → NodeMailbox C D S → NodeMailbox C D S
  store_snapshot none us m = m
  store_snapshot (some c) none m = m
  store_snapshot (some c) (some us) m = record m {
    config = some c;
    users = some us;
    dirty_config = true;
    dirty_users = true;
    full_snapshot = true;
    has_full_user_state = true;
  }

  abbrev pub store_config : Option C → NodeMailbox C D S → NodeMailbox C D S
  store_config none m = m
  store_config (some c) m = record m { config = some c; dirty_config = true }

  abbrev pub store_users : Option (List (UserSpec S)) → NodeMailbox C D S → NodeMailbox C D S
  store_users none m = m
  store_users (some us) m = record m {
    users = some us;
    dirty_users = true;
    has_full_user_state = true;
  }

  abbrev pub store_devices : Option D → NodeMailbox C D S → NodeMailbox C D S
  store_devices none m = m
  store_devices (some d) m = record m { device_users = some d; dirty_devices = true }

  -- What `applyUserDelta` made of the users; an action that it does not know needs a new snapshot.
  abbrev pub store_changed : Option (List (UserSpec S)) → NodeMailbox C D S → NodeMailbox C D S
  store_changed none m = record m { needs_reconcile = true }
  store_changed (some us) m = record m { users = some us; dirty_users = true }

  abbrev pub store_delta : String → List (UserSpec S) → NodeMailbox C D S → NodeMailbox C D S
  store_delta action delta m =
      if is_empty delta
      then m
      else if not m.has_full_user_state
      then record m { needs_reconcile = true }
      else store_changed (apply_user_delta action delta (or_empty m.users)) m

  abbrev pub store : Sync → Event C D S → NodeMailbox C D S → NodeMailbox C D S
  store Sync.snapshot e m = store_snapshot e.config e.users m
  store Sync.config e m = store_config e.config m
  store Sync.users e m = store_users e.users m
  store Sync.devices e m = store_devices e.device_users m
  store Sync.user_delta e m = store_delta e.delta_action e.delta_users m
  store Sync.other e m = m

  unfoldable pub apply : Event C D S → NodeMailbox C D S → NodeMailbox C D S
  unfolding accept apply_user_delta
  apply e m = let (m', ok) = pass e.sync e.version m in if ok then store e.sync e m' else m'

  abbrev pub no_state : MailboxState C D S
  no_state = record {
    config = none;
    users = none;
    device_users = none;
    has_config = false;
    has_users = false;
    has_devices = false;
    needs_reconcile = false;
    full_snapshot = false;
    control_version = record { epoch = ""; sequence = 0 };
    device_version = record { epoch = ""; sequence = 0 };
  }

  unfoldable pub drain_if_ready : NodeMailbox C D S → NodeMailbox C D S × MailboxState C D S
  drain_if_ready m =
      let sends_config = m.dirty_config && is_some m.config in
      let sends_devices = m.dirty_devices && is_some m.device_users in
      if not m.ready then (m, no_state) else (
        record m {
          full_snapshot = false;
          dirty_config = if sends_config then false else m.dirty_config;
          dirty_users = false;
          dirty_devices = if sends_devices then false else m.dirty_devices;
          needs_reconcile = false;
        },
        record {
          config = if sends_config then m.config else none;
          users = if m.dirty_users then m.users else none;
          device_users = if sends_devices then m.device_users else none;
          has_config = sends_config;
          has_users = m.dirty_users;
          has_devices = sends_devices;
          needs_reconcile = m.needs_reconcile;
          full_snapshot = m.full_snapshot;
          control_version = m.control_version.current;
          device_version = m.device_version.current;
        },
      )
