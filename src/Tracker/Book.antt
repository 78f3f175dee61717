-- ===== src/Tracker/Book.antt =====
-- One pair of maps, the counters last seen and the traffic that is pending, and the loops over them
-- that the users, the relays and the users of relays share.
use yz_agent.Prelude.{
  ℕ, ◌+◌, ◌≡◌, Bool, ◌||◌, List, [], ◌∷◌, ◌==◌, nat_eq, if◌then◌else◌, Option, none, some, lookup,
  insert, lookup-insert, arith,
}
use yz_agent.Tracker.Word.{Pair, zero_pair, add_pair, sub64, is_negative, is_positive}

abbrev pub Traffic : Type 0
Traffic = List (ℕ × Pair)

abbrev pub pair_or_zero : Option Pair → Pair
pair_or_zero none = zero_pair
pair_or_zero (some p) = p

-- `m[id]`, the zero value where there is none.
abbrev pub get : ℕ → Traffic → Pair
get id m = pair_or_zero (lookup id m)

-- The difference of two counters, or the counter itself where it has begun anew.
unfoldable pub delta : ℕ → ℕ → ℕ
unfolding sub64
delta current previous =
    let difference = sub64 current previous in
    if is_negative difference then current else difference

unfoldable pub delta_pair : Pair → Pair → Pair
unfolding delta
delta_pair current previous = record {
  up = delta current.up previous.up;
  down = delta current.down previous.down;
}

pub record Book : Type 0 where
  pub last : Traffic
  pub pending : Traffic

-- `cur := m[id]; cur[0] += …; cur[1] += …; m[id] = cur`
unfoldable pub put : ℕ → Pair → Traffic → Traffic
put id d m = insert id (add_pair (get id m) d) m

abbrev pub counts : Pair → Bool
counts d = is_positive d.up || is_positive d.down

-- The body of the loops of `Process`, `ProcessRelay` and `ProcessRelayUser`, without the revision.
unfoldable pub process_one : ℕ → Pair → Book → Book
process_one id cum b =
    let d = delta_pair cum (get id b.last) in
    record {
      last = insert id cum b.last;
      pending = if counts d then put id d b.pending else b.pending;
    }

unfoldable pub process_all : Traffic → Book → Book
unfolding process_one
process_all [] b = b
process_all ((id, cum) ∷ rest) b = process_all rest (process_one id cum b)

-- How often the loop advances the revision.
unfoldable pub advances : Traffic → Book → ℕ
unfolding process_one
advances [] b = 0
advances ((id, cum) ∷ rest) b =
    (if counts (delta_pair cum (get id b.last)) then 1 else 0)
    + advances rest (process_one id cum b)

-- What the loop of `Process` adds to `cycleOut` and `cycleIn`.
unfoldable pub cycle : Traffic → Book → Pair → Pair
unfolding process_one
cycle [] b sum = sum
cycle ((id, cum) ∷ rest) b sum =
    let d = delta_pair cum (get id b.last) in
    cycle rest (process_one id cum b) (if counts d then add_pair sum d else sum)

-- The loops of the methods that restore a batch.
unfoldable pub restore_all : Traffic → Traffic → Traffic
unfolding put
restore_all [] m = m
restore_all ((id, d) ∷ batch) m = restore_all batch (put id d m)

pub get-insert :
    (k j : ℕ) (v : Pair) (m : Traffic) → get j (insert k v m) ≡ (if k == j then v else get j m)
get-insert k j v m = ground (arith, lookup-insert k j v m)

pub get-put :
    (k j : ℕ) (d : Pair) (m : Traffic)
    → get j (put k d m) ≡ (if k == j then add_pair (get j m) d else get j m)
unfolding put
get-put k j d m = ground (arith, get-insert k j (add_pair (get k m) d) m)
