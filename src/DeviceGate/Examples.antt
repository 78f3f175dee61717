-- ===== src/DeviceGate/Examples.antt =====
-- Tests of the gate, and its theorems at concrete inputs.
use yz_agent.Prelude.{
  none, nat_eq, lookup, ◌≢◌, insert, erase, ℕ, ◌+◌, ◌*◌, ◌≤◌, ◌≡◌, refl, String, Bool, true, false,
  List, [], ◌∷◌, some, arith,
}
use yz_agent.DeviceGate.Types.{
  SourceKey, Revocation, Lease, SourceState, Manager, new_manager, key_eq, source_of, update_source,
  new_source,
}
use yz_agent.DeviceGate.Revoke.{
  lease_grace, valid_lease, remove_source, revoke_items, revoke_locked, revoke_permits,
  apply_revocations,
}
use yz_agent.DeviceGate.Lease.{
  lease_deadline, confirmed_source, confirm_source, install_new, install_at, install, install_all,
}
use yz_agent.DeviceGate.Sync.{
  SyncReply, removed_users, set_users, deadlines_of, accept_locked, accept_known, accept_leases,
}
use yz_agent.DeviceGate.Permits.{permit_locked, valid, granted, acquire, claim, claimed}
use yz_agent.DeviceGate.Session.{begin_start, begin_end, snapshot, confirm_snapshot}
use yz_agent.DeviceGate.Grows.{owner_of}
use yz_agent.DeviceGate.Run.{
  Step, session_started, session_begun, leases_accepted, acquired, users_set, snapshot_taken,
  permit_released, step, run_steps,
}
use yz_agent.DeviceGate.Silent.{silent-Invalid}
use yz_agent.DeviceGate.Barriers.{
  apply_revocations-Invalid, set_users-install, confirm_snapshot-reported,
}
use yz_agent.DeviceGate.Bars.{is_in, reported}
use yz_agent.DeviceGate.Session.{stop_start, answered}
use yz_agent.DeviceGate.Grant.{admit}
use yz_agent.DeviceGate.Stopped.{stop_start-closed}

abbrev identity : String → String
identity s = s

abbrev lease_text : String
lease_text = "0123456789abcdef0123456789abcdef"

abbrev key : SourceKey
key = record { user = 7; ip = "8.8.8.8" }

abbrev lease : Lease
lease = record {
  confirmed_sequence = 1;
  user_id = 7;
  ip = "8.8.8.8";
  lease = lease_text;
  confirmed_at = 1000;
  expires_at = 61000;
}

abbrev reply : SyncReply
reply = record {
  idle = [];
  lease_cache = true;
  server_time = 2000;
  leases = lease ∷ [];
  run = "r1";
  sequence = 1;
  revoked = [];
}

abbrev revocation : Revocation
revocation = record {
  run = "";
  confirmed_sequence = 0;
  user_id = 7;
  ip = "8.8.8.8";
  lease = lease_text;
}

-- A session begins, a snapshot is answered with a lease, and a connection of its source is let in.
abbrev opening : List Step
opening =
    session_started (some "r1")
    ∷ session_begun "r1" (record { version = 1; run = "r1"; lease_cache = 1 })
    ∷ snapshot_taken 10
    ∷ leases_accepted 20 reply 1 10
    ∷ acquired 30 false false key
    ∷ []

abbrev opened : Manager
opened = run_steps identity opening new_manager

valid_at : ℕ → Bool
unfolding run_steps step begin_start begin_end snapshot accept_leases apply_revocations
    revoke_locked revoke_items revoke_permits deadlines_of lease_deadline valid_lease accept_known
    accept_locked install_all install source_of install_at install_new confirm_source new_source
    update_source confirmed_source acquire permit_locked valid insert
valid_at now = valid now 1 opened

test_opened : valid_at 40 ≡ true
unfolding valid_at
test_opened = refl

test_over : valid_at (10 + 59000 * 1000000) ≡ false
unfolding valid_at
test_over = refl

test_last : valid_at (9 + 59000 * 1000000) ≡ true
unfolding valid_at
test_last = refl

-- The source that the connection has.
abbrev source : SourceState
source = record {
  run = "r1";
  lease_sequence = 1;
  key = key;
  lease = lease_text;
  connected = 30;
  sequence = 2;
  revoked = false;
  permits = 1 ∷ [];
  confirmed_at = 1000;
  expires_at = 61000;
  confirmed_sequence = 1;
  omission_sequence = 1;
  deadline = 10 + 59000 * 1000000;
}

opened_source : source_of key opened ≡ some (0, source)
unfolding run_steps step begin_start begin_end snapshot accept_leases apply_revocations
    revoke_locked revoke_items revoke_permits deadlines_of lease_deadline valid_lease accept_known
    accept_locked install_all install source_of install_at install_new confirm_source new_source
    update_source confirmed_source acquire permit_locked valid insert erase
opened_source = refl

opened_places : (opened.next ≡ 2) × (owner_of 1 opened ≡ some 0)
unfolding run_steps step begin_start begin_end snapshot accept_leases apply_revocations
    revoke_locked revoke_items revoke_permits deadlines_of lease_deadline valid_lease accept_known
    accept_locked install_all install source_of install_at install_new confirm_source new_source
    update_source confirmed_source acquire permit_locked valid insert erase
opened_places = (refl, refl)

opened_caches : opened.lease_cache ≡ true
unfolding run_steps step begin_start begin_end snapshot accept_leases apply_revocations
    revoke_locked revoke_items revoke_permits deadlines_of lease_deadline valid_lease accept_known
    accept_locked install_all install source_of install_at install_new confirm_source new_source
    update_source confirmed_source acquire permit_locked valid insert erase
opened_caches = refl

silent-Invalid_example : valid (10 + lease_grace) 1 (run_steps identity opening new_manager) ≡ false
silent-Invalid_example =
    silent-Invalid identity opening 1 (10 + lease_grace) opened_caches (omega arith)

lease_text-valid : valid_lease lease_text ≡ true
unfolding valid_lease
lease_text-valid = refl

-- The lease is confirmed once more after its revocation, and the connection tries again.
apply_revocations-Invalid_example :
    valid 60 1 (
      run_steps identity
        (leases_accepted 50 reply 1 45 ∷ acquired 55 false false key ∷ [])
        (apply_revocations 40 (revocation ∷ []) 0 "" opened))
    ≡ false
apply_revocations-Invalid_example =
    apply_revocations-Invalid identity
      (leases_accepted 50 reply 1 45 ∷ acquired 55 false false key ∷ []) revocation 1 0 40 60 source
      opened opened_source refl (λ h. omega (arith, h)) lease_text-valid opened_places.1
      (omega (arith, opened_places.0)) (omega (arith, opened_places.0))

-- The user is dropped and comes back while an answer is on its way.
abbrev dropped : Manager
dropped =
    run_steps identity (users_set 50 (7 ∷ []) ∷ [])
      (set_users 45 [] (run_steps identity opening new_manager))

opened_users : is_in 7 (removed_users [] opened) ≡ true
unfolding run_steps step begin_start begin_end snapshot accept_leases apply_revocations
    revoke_locked revoke_items revoke_permits deadlines_of lease_deadline valid_lease accept_known
    accept_locked install_all install source_of install_at install_new confirm_source new_source
    update_source confirmed_source acquire permit_locked valid insert erase removed_users
opened_users = refl

opened_sequence : 2 ≤ opened.seq
unfolding run_steps step begin_start begin_end snapshot accept_leases apply_revocations
    revoke_locked revoke_items revoke_permits deadlines_of lease_deadline valid_lease accept_known
    accept_locked install_all install source_of install_at install_new confirm_source new_source
    update_source confirmed_source acquire permit_locked valid insert erase
opened_sequence = omega arith

set_users-install_example : install 60 lease (10 + 59000 * 1000000) 2 dropped ≡ (dropped, false)
set_users-install_example =
    set_users-install identity opening (users_set 50 (7 ∷ []) ∷ []) [] lease 45 60
      (10 + 59000 * 1000000) 2 (refl, tt) opened_users opened_sequence

confirm_snapshot-reported_example :
    reported lease_text (
      confirm_snapshot (snapshot 40 opened).1 0 (
        remove_source source
          (run_steps identity (permit_released 45 1 ∷ []) (snapshot 40 opened).0)))
    ≡ some (record revocation { run = "r1"; confirmed_sequence = 1 })
confirm_snapshot-reported_example =
    confirm_snapshot-reported identity (permit_released 45 1 ∷ []) source 40 0 opened (λ h. cc)

opened_again : (acquire 40 false false key opened).1 ≡ granted 2
unfolding run_steps step begin_start begin_end snapshot accept_leases apply_revocations
    revoke_locked revoke_items revoke_permits deadlines_of lease_deadline valid_lease accept_known
    accept_locked install_all install source_of install_at install_new confirm_source new_source
    update_source confirmed_source acquire permit_locked valid insert erase
opened_again = refl

stop_start-closed_example :
    ((acquire 60 false false key
        (run_steps identity (session_started none ∷ []) (stop_start opened))).1
      ≢ granted 2)
    × (((admit 60 false false
            (λ w. false)
            key
            "r1"
            (answered lease_text)
            (run_steps identity (session_started none ∷ []) (stop_start opened))).1
          ≡ [])
        × (((claim 60 false false false
                (some 2)
                none
                (run_steps identity (session_started none ∷ []) (stop_start opened))).1
              ≢ claimed (some 2) none)
            × (install 60 lease 100 5
                  (run_steps identity (session_started none ∷ []) (stop_start opened))
                ≡ (run_steps identity (session_started none ∷ []) (stop_start opened), false))))
stop_start-closed_example =
    stop_start-closed identity (session_started none ∷ []) 60 false false (λ w. false) key "r1"
      (answered lease_text) 2 lease 100 5 false (some 2) none none opened

opened_place : (lookup key opened.sources ≡ some 0) × (lookup 0 opened.source_heap ≡ some source)
unfolding run_steps step begin_start begin_end snapshot accept_leases apply_revocations
    revoke_locked revoke_items revoke_permits deadlines_of lease_deadline valid_lease accept_known
    accept_locked install_all install source_of install_at install_new confirm_source new_source
    update_source confirmed_source acquire permit_locked valid insert erase
opened_place = (refl, refl)
