-- ===== src/Tracker/Retire.antt =====
-- `RetireConfirmed` of retire.go. The callback that decides which counters the kernel has let go of is
-- a parameter.
use yz_agent.Prelude.{
  ℕ, ◌≡◌, refl, true, false, [], ◌∷◌, nat_eq, nat_beq_iff, if◌then◌else◌, lookup, insert, erase,
  lookup-erase, has_key, arith, none, some, Bool-cases, inl, inr,
}
use yz_agent.Tracker.Word.{Pair}
use yz_agent.Tracker.Book.{Traffic}
use yz_agent.Tracker.State.{Tracker, NestedTraffic, inner, is_empty}

pub record Counters : Type 0 where
  pub users : Traffic
  pub relay : Traffic
  pub relay_users : NestedTraffic

-- The counters that have nothing pending.
unfoldable pub idle : Traffic → Traffic → Traffic
idle pending [] = []
idle pending ((id, v) ∷ last) =
    if has_key id pending then idle pending last else (id, v) ∷ idle pending last

unfoldable pub idle_users : NestedTraffic → NestedTraffic → NestedTraffic
unfolding idle
idle_users pending [] = []
idle_users pending ((uid, nodes) ∷ last) =
    let found = idle (inner uid pending) nodes in
    if is_empty found then idle_users pending last else (uid, found) ∷ idle_users pending last

unfoldable pub candidates : Tracker → Counters
unfolding idle idle_users
candidates t = record {
  users = idle t.users.pending t.users.last;
  relay = idle t.relay.pending t.relay.last;
  relay_users = idle_users t.pending_relay_user t.last_relay_user;
}

unfoldable pub erase_all : Traffic → Traffic → Traffic
erase_all [] m = m
erase_all ((id, v) ∷ removed) m = erase_all removed (erase id m)

abbrev pub put_back : ℕ → Traffic → NestedTraffic → NestedTraffic
put_back uid nodes m = if is_empty nodes then erase uid m else insert uid nodes m

-- `delete(m[uid], id)` for each node, and `delete(m, uid)` when none is left. A user whom the map
-- does not hold has no node to delete from.
unfoldable pub erase_users : NestedTraffic → NestedTraffic → NestedTraffic
unfolding erase_all
erase_users [] m = m
erase_users ((uid, nodes) ∷ removed) m =
    erase_users removed (put_back uid (erase_all nodes (inner uid m)) m)

unfoldable pub retire_confirmed : (Counters → Counters) → Tracker → Tracker
unfolding candidates erase_all erase_users
retire_confirmed retire t =
    let removed = retire (candidates t) in
    record t {
      users = record (t.users) { last = erase_all removed.users t.users.last };
      relay = record (t.relay) { last = erase_all removed.relay t.relay.last };
      last_relay_user = erase_users removed.relay_users t.last_relay_user;
    }

-- A counter that is offered for retirement is one that the tracker holds, with nothing pending.
pub lookup-idle :
    (pending last : Traffic) (id : ℕ) (v : Pair)
    → lookup id (idle pending last) ≡ some v
    → (lookup id last ≡ some v) × (has_key id pending ≡ false)
unfolding idle
lookup-idle pending [] id v h = cc
lookup-idle pending ((j, w) ∷ last) id v h =
    ground (arith, lookup-idle pending last id v, nat_beq_iff j id)

-- Retiring deletes exactly the counters that the callback names.
pub lookup-erase_all :
    (removed m : Traffic) (id : ℕ)
    → lookup id (erase_all removed m) ≡ (if has_key id removed then none else lookup id m)
unfolding erase_all
lookup-erase_all [] m id = refl
lookup-erase_all ((j, v) ∷ removed) m id =
    ground (arith, lookup-erase_all removed (erase j m) id, lookup-erase j id m)

has_key-idle :
    (pending last : Traffic) (id : ℕ)
    → has_key id (idle pending last) ≡ true
    → has_key id pending ≡ false
unfolding idle
has_key-idle pending [] id h = cc
has_key-idle pending ((j, w) ∷ last) id h =
    ground (arith, has_key-idle pending last id, nat_beq_iff j id)

-- What the callback promises: it names only counters that it was offered.
pub record Chooses (retire : Counters → Counters) : Type 0 where
  pub users :
      (c : Counters) (id : ℕ) → has_key id (retire c).users ≡ true → has_key id c.users ≡ true

-- With a callback that names only what it was offered, a user with traffic pending keeps the counter
-- last seen, so that his next reading is not charged from zero; and the pending traffic itself is
-- left alone.
pub retire_keeps_pending :
    (retire : Counters → Counters) (t : Tracker) (id : ℕ)
    → Chooses retire
    → has_key id t.users.pending ≡ true
    → (lookup id (retire_confirmed retire t).users.last ≡ lookup id t.users.last)
      × ((retire_confirmed retire t).users.pending ≡ t.users.pending)
unfolding retire_confirmed candidates
retire_keeps_pending retire t id c p =
    let removed = (retire (candidates t)).users in
    elim (Bool-cases (has_key id removed)) [
      | inl e ↦ absurd (
          ground (arith, c.users (candidates t) id e, has_key-idle t.users.pending t.users.last id))
      | inr e ↦ (ground (arith, lookup-erase_all removed t.users.last id), refl)
    ]
