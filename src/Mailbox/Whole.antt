-- ===== src/Mailbox/Whole.antt =====
-- What a drained state carries, after any calls of the mailbox.
use yz_agent.Prelude.{
  ◌≡◌, Bool, true, false, not, ◌||◌, ◌&&◌, List, [], ◌∷◌, if◌then◌else◌, Option, arith,
}
use yz_agent.Mailbox.Members.{UserSpec}
use yz_agent.Mailbox.Gate.{StateVersion}
use yz_agent.Mailbox.Box.{
  Sync, Event, NodeMailbox, is_some, new_node_mailbox, mark_ready, seed_baseline, pass, store,
  apply, drain_if_ready,
}

pub data Call (C D S : Type 0) : Type 0 where
  applied : Event C D S → Call C D S
  seeded : Option (List (UserSpec S)) → Option C → Call C D S
  marked : Call C D S
  drained : Call C D S

module _ {C D S : Type 0} where
  abbrev pub step : Call C D S → NodeMailbox C D S → NodeMailbox C D S
  step (Call.applied e) m = apply e m
  step (Call.seeded us c) m = seed_baseline us c m
  step Call.marked m = mark_ready m
  step Call.drained m = (drain_if_ready m).0

  unfoldable pub run : List (Call C D S) → NodeMailbox C D S → NodeMailbox C D S
  run [] m = m
  run (call ∷ calls) m = run calls (step call m)

  -- A full snapshot has settings and users, and both are to be sent; a list of users is known as such.
  record IsWhole (m : NodeMailbox C D S) : Type 0 where
    config : m.full_snapshot ≡ true → (m.dirty_config && is_some m.config) ≡ true
    users : m.full_snapshot ≡ true → (m.dirty_users && is_some m.users) ≡ true

  store-IsWhole :
      (k : Sync) (e : Event C D S) (m : NodeMailbox C D S) → IsWhole m → IsWhole (store k e m)
  store-IsWhole Sync.snapshot e m h = ground (arith, h.config, h.users)
  store-IsWhole Sync.config e m h = ground (arith, h.config, h.users)
  store-IsWhole Sync.users e m h = ground (arith, h.config, h.users)
  store-IsWhole Sync.devices e m h = ground (arith, h.config, h.users)
  store-IsWhole Sync.user_delta e m h = ground (arith, h.config, h.users)
  store-IsWhole Sync.other e m h = h

  pass-IsWhole :
      (k : Sync) (v : StateVersion) (m : NodeMailbox C D S) → IsWhole m → IsWhole (pass k v m).0
  pass-IsWhole k v m h = ground (arith, h.config, h.users)

  choice-IsWhole :
      (b : Bool) (m m' : NodeMailbox C D S) → IsWhole m → IsWhole m' → IsWhole (if b then m' else m)
  choice-IsWhole true m m' h h' = h'
  choice-IsWhole false m m' h h' = h

  step-IsWhole : (call : Call C D S) (m : NodeMailbox C D S) → IsWhole m → IsWhole (step call m)
  unfolding apply seed_baseline mark_ready drain_if_ready
  step-IsWhole (Call.applied e) m h =
      let p = pass-IsWhole e.sync e.version m h in
      let m' = (pass e.sync e.version m).0 in
      choice-IsWhole (pass e.sync e.version m).1 m' (store e.sync e m') p
        (store-IsWhole e.sync e m' p)
  step-IsWhole (Call.seeded us c) m h = ground (arith, h.config, h.users)
  step-IsWhole Call.marked m h = record { config = h.config; users = h.users }
  step-IsWhole Call.drained m h = ground (arith, h.config, h.users)

  run-IsWhole :
      (calls : List (Call C D S)) (m : NodeMailbox C D S) → IsWhole m → IsWhole (run calls m)
  unfolding run
  run-IsWhole [] m h = h
  run-IsWhole (call ∷ calls) m h = run-IsWhole calls (step call m) (step-IsWhole call m h)

  -- After any calls, a drained state that is a full snapshot carries both the settings and the users.
  pub drain-run_whole :
      (calls : List (Call C D S))
      → let s = (drain_if_ready (run calls new_node_mailbox)).1 in
        (not s.full_snapshot || (is_some s.config && is_some s.users)) ≡ true
  unfolding drain_if_ready
  drain-run_whole calls =
      let h = run-IsWhole calls new_node_mailbox (record { config = λ e. cc; users = λ e. cc }) in
      ground (arith, h.config, h.users)
