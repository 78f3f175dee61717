-- ===== src/Tracker/Relay.antt =====
-- The relays are charged like the users, in books of their own.
use yz_agent.Prelude.{
  ℕ, ◌≡◌, refl, false, [], ◌∷◌, ◌==◌, nat_eq, if◌then◌else◌, insert, lookup-insert, arith,
  AllValues,
}
use yz_agent.Tracker.Word.{IsCounter}
use yz_agent.Tracker.Book.{Traffic, get, process_all}
use yz_agent.Tracker.State.{Tracker, NestedTraffic, inner, user_book, process_relay, process_user}
use yz_agent.Tracker.Charge.{Charged, process_all-Charged}

-- Counters of the relays charge the relays, and leave the books of the users alone.
pub process_relay-Charged :
    (j : ℕ) (cum : Traffic) (t : Tracker)
    → AllValues IsCounter cum
    → IsCounter (get j t.relay.last)
    → Charged j cum t.relay (process_relay cum t).relay
      × ((process_relay cum t).users ≡ t.users)
      × ((process_relay cum t).pending_relay_user ≡ t.pending_relay_user)
unfolding process_relay
process_relay-Charged j [] t a h =
    (unfold process_all in process_all-Charged j [] t.relay a h, refl, refl)
process_relay-Charged j (c ∷ cum) t a h = (process_all-Charged j (c ∷ cum) t.relay a h, refl, refl)

inner-insert :
    (k j : ℕ) (nodes : Traffic) (m : NestedTraffic)
    → inner j (insert k nodes m) ≡ (if k == j then nodes else inner j m)
inner-insert k j nodes m = ground (arith, lookup-insert k j nodes m)

user_book_same :
    (uid : ℕ) (nodes : Traffic) (t : Tracker)
    → user_book uid (process_user uid nodes t) ≡ process_all nodes (user_book uid t)
unfolding process_user
user_book_same uid nodes t =
    let b = process_all nodes (user_book uid t) in
    ground (
      arith,
      inner-insert uid uid b.last t.last_relay_user,
      inner-insert uid uid b.pending t.pending_relay_user,
    )

-- The counters of one user of the relays charge that user node by node; no other user's book
-- changes, and neither the quota of the users nor the relays' own book is touched.
pub process_user-Charged :
    (uid other j : ℕ) (nodes : Traffic) (t : Tracker)
    → AllValues IsCounter nodes
    → IsCounter (get j (user_book uid t).last)
    → (other == uid) ≡ false
    → let t' = process_user uid nodes t in
      Charged j nodes (user_book uid t) (user_book uid t')
      × (user_book other t' ≡ user_book other t)
      × (t'.users ≡ t.users)
      × (t'.relay ≡ t.relay)
process_user-Charged uid other j nodes t a h e =
    let b = process_all nodes (user_book uid t) in
    (
      rw (user_book_same uid nodes t) (process_all-Charged j nodes (user_book uid t) a h),
      (unfold process_user in
          ground (
            arith,
            inner-insert uid other b.last t.last_relay_user,
            inner-insert uid other b.pending t.pending_relay_user,
          )),
      (unfold process_user in refl),
      (unfold process_user in refl),
    )
