-- ===== src/Tracker/Ledger.antt =====
-- The traffic of the users between the kernel and the panel: what is pending, what is on its way and
-- what has been delivered add up to what the kernel has counted.
use yz_agent.Prelude.{
  ℕ, ◌≡◌, refl, false, List, [], ◌∷◌, ◌++◌, nat_eq, arith, AllValues, IsMap, insert-IsMap, has_key,
  nat_beq_iff, ap,
}
use yz_agent.Tracker.Word.{Pair, zero_pair, IsCounter}
use yz_agent.Tracker.Book.{
  Traffic, Book, delta_pair, get, put, process_one, process_all, restore_all,
}
use yz_agent.Tracker.State.{
  Tracker, Addresses, PerSecond, new, process, flush_traffic, restore_traffic,
}
use yz_agent.Tracker.Charge.{
  plus, Same, Same-refl, Same-trans, plus-Same, plus_assoc, plus_zero, charges, latest, readings,
  batch_sum, batches_sum, process_all-Charged, restore_all-Same,
}

-- The tracker, the batches that wait for the panel's answer, and those that it has confirmed.
pub record Ledger : Type 0 where
  pub tracker : Tracker
  pub outstanding : List Traffic
  pub delivered : List Traffic

-- The kernel is sampled; a batch is taken; the panel confirms the batch at the head, or refuses it
-- and its traffic is put back.
pub data Event : Type 0 where
  sampled : Traffic → Addresses → ℕ → ℕ → Event
  flushed : Event
  confirmed : Event
  refused : Event

abbrev pub confirm : List Traffic → Ledger → Ledger
confirm [] s = s
confirm (batch ∷ rest) s = record s { outstanding = rest; delivered = batch ∷ s.delivered }

abbrev pub refuse : List Traffic → Ledger → Ledger
refuse [] s = s
refuse (batch ∷ rest) s = record s { outstanding = rest; tracker = restore_traffic batch s.tracker }

unfoldable pub step : PerSecond → Event → Ledger → Ledger
unfolding process flush_traffic restore_traffic
step per_second (sampled cum alive conns now) s = record s {
  tracker = process per_second cum alive conns now s.tracker;
}
step per_second flushed s =
    let (t, batch) = flush_traffic s.tracker in
    record s { tracker = t; outstanding = batch ∷ s.outstanding }
step per_second confirmed s = confirm s.outstanding s
step per_second refused s = refuse s.outstanding s

unfoldable pub run : PerSecond → List Event → Ledger → Ledger
unfolding step
run per_second [] s = s
run per_second (e ∷ es) s = run per_second es (step per_second e s)

abbrev pub total : ℕ → Ledger → Pair
total j s =
    plus (plus (batches_sum j s.delivered) (batches_sum j s.outstanding))
      (get j s.tracker.users.pending)

abbrev pub event_readings : ℕ → Event → List Pair
event_readings j (sampled cum alive conns now) = readings j cum
event_readings j _ = []

-- All that the kernel reported of a user.
abbrev pub history : ℕ → List Event → List Pair
history j [] = []
history j (e ∷ es) = event_readings j e ++ history j es

abbrev pub IsCounted : Event → Type 0
IsCounted (sampled cum alive conns now) = AllValues IsCounter cum
IsCounted _ = Unit {0}

abbrev pub AllCounted : List Event → Type 0
AllCounted [] = Unit {0}
AllCounted (e ∷ es) = IsCounted e × AllCounted es

put-IsMap : (id : ℕ) (d : Pair) (m : Traffic) → IsMap m → IsMap (put id d m)
unfolding put
put-IsMap id d m h = insert-IsMap id _ m h

process_one-IsMap :
    (id : ℕ) (cum : Pair) (b : Book) → IsMap b.pending → IsMap (process_one id cum b).pending
unfolding process_one
process_one-IsMap id cum b h =
    ground (arith, put-IsMap id (delta_pair cum (get id b.last)) b.pending h)

process_all-IsMap : (cum : Traffic) (b : Book) → IsMap b.pending → IsMap (process_all cum b).pending
unfolding process_all
process_all-IsMap [] b h = h
process_all-IsMap ((id, c) ∷ cum) b h =
    process_all-IsMap cum (process_one id c b) (process_one-IsMap id c b h)

restore_all-IsMap : (batch m : Traffic) → IsMap m → IsMap (restore_all batch m)
unfolding restore_all
restore_all-IsMap [] m h = h
restore_all-IsMap ((id, d) ∷ batch) m h = restore_all-IsMap batch (put id d m) (put-IsMap id d m h)

batch_sum_missing : (j : ℕ) (m : Traffic) → has_key j m ≡ false → batch_sum j m ≡ zero_pair
batch_sum_missing j [] h = refl
batch_sum_missing j ((id, d) ∷ m) h = ground (arith, batch_sum_missing j m)

-- A map holds each user once, so that its sum for him is his entry.
batch_sum-get : (j : ℕ) (m : Traffic) → IsMap m → batch_sum j m ≡ get j m
batch_sum-get j [] h = refl
batch_sum-get j ((id, d) ∷ m) (a, h) =
    ground (arith, batch_sum_missing j m, batch_sum-get j m h, nat_beq_iff id j)

charges-append :
    (p : Pair) (xs ys : List Pair)
    → charges p (xs ++ ys) ≡ plus (charges p xs) (charges (latest p xs) ys)
charges-append p [] ys = ground arith
charges-append p (x ∷ xs) ys = ground (arith, charges-append x xs ys)

-- What an event keeps and adds, seen from one user.
record Stepped (j : ℕ) (rs : List Pair) (s t : Ledger) : Type 0 where
  sum : Same (total j t) (plus (total j s) (charges (get j s.tracker.users.last) rs))
  last : get j t.tracker.users.last ≡ latest (get j s.tracker.users.last) rs
  counter : IsCounter (get j t.tracker.users.last)
  is_map : IsMap t.tracker.users.pending

-- Moving traffic from one place to another.
moved :
    (j : ℕ) (s t : Ledger)
    → t.tracker.users.last ≡ s.tracker.users.last
    → IsCounter (get j s.tracker.users.last)
    → IsMap t.tracker.users.pending
    → Same (total j t) (total j s)
    → Stepped j [] s t
moved j s t l h m e = record {
  sum = rw (plus_zero (total j s)) e;
  last = ap (get j) l;
  counter = rw l h;
  is_map = m;
}

sampled-Stepped :
    (per_second : PerSecond) (j : ℕ) (cum : Traffic) (alive : Addresses) (conns now : ℕ)
    (s : Ledger)
    → AllValues IsCounter cum
    → IsCounter (get j s.tracker.users.last)
    → IsMap s.tracker.users.pending
    → Stepped j (readings j cum) s (step per_second (sampled cum alive conns now) s)
unfolding step
sampled-Stepped per_second j cum alive conns now s k h m =
    let c = process_all-Charged j cum s.tracker.users k h in
    let sent = plus (batches_sum j s.delivered) (batches_sum j s.outstanding) in
    record {
      sum =
          rw
            (plus_assoc sent (get j s.tracker.users.pending)
              (charges (get j s.tracker.users.last) (readings j cum)))
            (plus-Same sent sent _ _ (Same-refl sent) c.pending);
      last = c.last;
      counter = c.counter;
      is_map = process_all-IsMap cum s.tracker.users m;
    }

flushed_total :
    (j : ℕ) (m : Traffic) (d o : Pair)
    → IsMap m
    → plus (plus d (plus (batch_sum j m) o)) zero_pair ≡ plus (plus d o) (get j m)
flushed_total j m d o h = ground (arith, batch_sum-get j m h)

confirm-Stepped :
    (j : ℕ) (bs : List Traffic) (s : Ledger)
    → s.outstanding ≡ bs
    → IsCounter (get j s.tracker.users.last)
    → IsMap s.tracker.users.pending
    → Stepped j [] s (confirm bs s)
confirm-Stepped j [] s e h m = moved j s s refl h m (Same-refl (total j s))
confirm-Stepped j (b ∷ bs) s e h m =
    let same : total j (confirm (b ∷ bs) s) ≡ total j s = rw e (ground arith) in
    moved j s (confirm (b ∷ bs) s) refl h m (rw same (Same-refl (total j s)))

refuse-Stepped :
    (j : ℕ) (bs : List Traffic) (s : Ledger)
    → s.outstanding ≡ bs
    → IsCounter (get j s.tracker.users.last)
    → IsMap s.tracker.users.pending
    → Stepped j [] s (refuse bs s)
unfolding restore_traffic
refuse-Stepped j [] s e h m = moved j s s refl h m (Same-refl (total j s))
refuse-Stepped j (b ∷ bs) s e h m =
    let d = batches_sum j s.delivered in
    let o = batches_sum j bs in
    let p = get j s.tracker.users.pending in
    let same : total j s ≡ plus (plus d o) (plus p (batch_sum j b)) = rw e (ground arith) in
    moved j s (refuse (b ∷ bs) s) refl h (restore_all-IsMap b s.tracker.users.pending m) (
      rw same (
        plus-Same (plus d o) (plus d o) _ _ (Same-refl (plus d o))
          (restore_all-Same j b s.tracker.users.pending)))

step-Stepped :
    (per_second : PerSecond) (j : ℕ) (e : Event) (s : Ledger)
    → IsCounted e
    → IsCounter (get j s.tracker.users.last)
    → IsMap s.tracker.users.pending
    → Stepped j (event_readings j e) s (step per_second e s)
unfolding step
step-Stepped per_second j (sampled cum alive conns now) s k h m =
    sampled-Stepped per_second j cum alive conns now s k h m
step-Stepped per_second j flushed s k h m =
    let same =
      flushed_total j s.tracker.users.pending (batches_sum j s.delivered)
        (batches_sum j s.outstanding) m in
    moved j s _ refl h tt (rw same (Same-refl (total j s)))
step-Stepped per_second j confirmed s k h m = confirm-Stepped j s.outstanding s refl h m
step-Stepped per_second j refused s k h m = refuse-Stepped j s.outstanding s refl h m

run-total :
    (per_second : PerSecond) (j : ℕ) (es : List Event) (s : Ledger)
    → AllCounted es
    → IsCounter (get j s.tracker.users.last)
    → IsMap s.tracker.users.pending
    → Same
        (total j (run per_second es s))
        (plus (total j s) (charges (get j s.tracker.users.last) (history j es)))
unfolding run
run-total per_second j [] s k h m = rw (plus_zero (total j s)) (Same-refl (total j s))
run-total per_second j (e ∷ es) s (ke, k) h m =
    let t = step per_second e s in
    let r = step-Stepped per_second j e s ke h m in
    let first = get j s.tracker.users.last in
    let rs = event_readings j e in
    let ih = rw r.last at (run-total per_second j es t k r.counter r.is_map) in
    rw
      (
        charges-append first rs (history j es),
        ← plus_assoc (total j s) (charges first rs) (charges (latest first rs) (history j es)),
      )
      (Same-trans _ _ _ ih (plus-Same _ _ _ _ r.sum (Same-refl _)))

abbrev pub start : ℕ → Ledger
start now = record { tracker = new now; outstanding = []; delivered = [] }

-- Whatever the order of samples, flushes, confirmations and refusals, with counters that an int64
-- holds: what of a user's traffic is delivered, on its way and pending adds up, as an int64 shows
-- it, to what his counters have counted, each fall of a counter being a start from zero. Nothing is
-- lost and nothing is charged twice.
pub run_conserves :
    (per_second : PerSecond) (now j : ℕ) (es : List Event)
    → AllCounted es
    → Same (total j (run per_second es (start now))) (charges zero_pair (history j es))
unfolding new
run_conserves per_second now j es k =
    Same-trans _ _ _ (run-total per_second j es (start now) k (omega arith) tt)
      (record { up = omega arith; down = omega arith })
