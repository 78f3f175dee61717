-- ===== src/Mailbox/Coalesce.antt =====
-- A service behind its mailbox, over any sequence of events and drains.
use yz_agent.Prelude.{◌≡◌, refl, true, List, [], ◌∷◌, ◌++◌, Option, none, arith, ap, ◌∙◌}
use yz_agent.Mailbox.Members.{UserSpec}
use yz_agent.Mailbox.Box.{
  Event, NodeMailbox, new_node_mailbox, mark_ready, seed_baseline, store, Sync, pass, apply,
  drain_if_ready,
}
use yz_agent.Mailbox.Replica.{
  View, Agrees, deliver_all, replica_of, replica-apply, apply-Agrees, drain-Agrees, take, view_of,
  apply_all, baseline, apply_all-Agrees, replica-apply_all, seed-Agrees, fill, replica-seed,
}

pub data Action (C D S : Type 0) : Type 0 where
  applied : Event C D S → Action C D S
  drained : Action C D S

pub record World (C D S : Type 0) : Type 0 where
  pub mailbox : NodeMailbox C D S
  pub view : View C D S

module _ {C D S : Type 0} where
  abbrev pub step : Action C D S → World C D S → World C D S
  step (Action.applied e) w = record w { mailbox = apply e w.mailbox }
  step Action.drained w =
      let (m, s) = drain_if_ready w.mailbox in record { mailbox = m; view = take s w.view }

  unfoldable pub run : List (Action C D S) → World C D S → World C D S
  run [] w = w
  run (a ∷ actions) w = run actions (step a w)

  abbrev pub events : List (Action C D S) → List (Event C D S)
  events [] = []
  events (Action.applied e ∷ actions) = e ∷ events actions
  events (Action.drained ∷ actions) = events actions

  -- Events come in before the service is ready; then it seeds the mailbox and marks it ready.
  unfoldable pub begin : List (Event C D S) → Option (List (UserSpec S)) → Option C → World C D S
  begin early us c = record {
    mailbox = mark_ready (seed_baseline us c (apply_all early new_node_mailbox));
    view = baseline us c;
  }

  new-Agrees : Agrees new_node_mailbox (baseline {C = C} {D = D} {S = S} none none)
  new-Agrees = record { full = refl; config = λ h. refl; users = λ h. refl; devices = λ h. refl }

  mark : (m : NodeMailbox C D S) → (mark_ready m).ready ≡ true
  unfolding mark_ready
  mark m = refl

  drain-ready : (m : NodeMailbox C D S) → (drain_if_ready m).0.ready ≡ m.ready
  unfolding drain_if_ready
  drain-ready m = ground arith

  store-ready : (k : Sync) (e : Event C D S) (m : NodeMailbox C D S) → (store k e m).ready ≡ m.ready
  store-ready k e m = ground arith

  pass-ready :
      (k : Sync) (e : Event C D S) (m : NodeMailbox C D S) → (pass k e.version m).0.ready ≡ m.ready
  pass-ready k e m = ground arith

  apply-ready : (e : Event C D S) (m : NodeMailbox C D S) → (apply e m).ready ≡ m.ready
  unfolding apply
  apply-ready e m =
      ground (arith, pass-ready e.sync e m, store-ready e.sync e (pass e.sync e.version m).0)

  run_view :
      (actions : List (Action C D S)) (w : World C D S)
      → w.mailbox.ready ≡ true
      → Agrees w.mailbox w.view
      → (run (actions ++ Action.drained ∷ []) w).view
        ≡ view_of (deliver_all (events actions) (replica_of w.mailbox))
  unfolding run deliver_all
  run_view [] w r h = (drain-Agrees w.mailbox w.view r h).2
  run_view (Action.applied e ∷ actions) w r h =
      run_view actions (step (Action.applied e) w) (apply-ready e w.mailbox ∙ r)
        (apply-Agrees e w.mailbox w.view h)
      ∙ ap (λ x. view_of (deliver_all (events actions) x)) (replica-apply e w.mailbox h.full)
  run_view (Action.drained ∷ actions) w r h =
      let (agrees, same, shown) = drain-Agrees w.mailbox w.view r h in
      run_view actions (step Action.drained w) (drain-ready w.mailbox ∙ r) agrees
      ∙ ap (λ x. view_of (deliver_all (events actions) x)) same

  -- However events and drains alternate, and whatever came in before the service was ready: after a
  -- last drain the service has the settings, users, devices and versions of one that took every event
  -- as it came, on top of the early ones and the baseline that it seeded.
  pub run-deliver_all :
      (early : List (Event C D S)) (us : Option (List (UserSpec S))) (c : Option C)
      (actions : List (Action C D S))
      → (run (actions ++ Action.drained ∷ []) (begin early us c)).view
        ≡ view_of (
            deliver_all
              (events actions)
              (fill us c (deliver_all early (replica_of new_node_mailbox))))
  unfolding begin
  run-deliver_all early us c actions =
      let h = apply_all-Agrees early new_node_mailbox (baseline none none) new-Agrees in
      let m = apply_all early new_node_mailbox in
      run_view actions (begin early us c) (mark (seed_baseline us c m)) (seed-Agrees us c m h)
      ∙ ap (λ x. view_of (deliver_all (events actions) x))
          (replica-seed us c m h.full
            ∙ ap (fill us c)
                (replica-apply_all early new_node_mailbox (baseline none none) new-Agrees))
