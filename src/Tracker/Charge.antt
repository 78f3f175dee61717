-- ===== src/Tracker/Charge.antt =====
-- What a run of counters is worth: the specification of the loops of `Book`.
use yz_agent.Prelude.{
  ℕ, ◌+◌, ◌-◌, ◌%◌, ◌<◌, ◌≡◌, refl, subst, Bool, true, false, List, [], ◌∷◌, ◌==◌, nat_eq, leb,
  if◌then◌else◌, arith, AllValues, insert, nat_beq_iff, Bool-cases, inl, inr, ◌∙◌, sym,
}
use yz_agent.Tracker.Word.{Pair, zero_pair, add_pair, add64, sub64, word, half_word, IsCounter}
use yz_agent.Tracker.Book.{
  Traffic, Book, get, delta, delta_pair, counts, put, process_one, process_all, restore_all,
  get-insert, get-put,
}

-- A sum of traffic without a bound.
abbrev pub plus : Pair → Pair → Pair
plus a b = record { up = a.up + b.up; down = a.down + b.down }

-- The same traffic as an int64 shows it.
pub record Same (a b : Pair) : Type 0 where
  pub up : a.up % word ≡ b.up % word
  pub down : a.down % word ≡ b.down % word

-- What a counter has counted since the reading before; one that has fallen back counts from zero.
abbrev pub since : ℕ → ℕ → ℕ
since previous current = if leb previous current then current - previous else current

abbrev pub charge : Pair → Pair → Pair
charge previous current = record {
  up = since previous.up current.up;
  down = since previous.down current.down;
}

-- The readings of one user, in order.
abbrev pub readings : ℕ → Traffic → List Pair
readings uid [] = []
readings uid ((id, cum) ∷ rest) = if id == uid then cum ∷ readings uid rest else readings uid rest

-- The charge of readings that follow one, and the last of them.
abbrev pub charges : Pair → List Pair → Pair
charges previous [] = zero_pair
charges previous (c ∷ cs) = plus (charge previous c) (charges c cs)

abbrev pub latest : Pair → List Pair → Pair
latest previous [] = previous
latest previous (c ∷ cs) = latest c cs

delta-since :
    (current previous : ℕ)
    → current < half_word
    → previous < half_word
    → delta current previous ≡ since previous current
unfolding delta sub64
delta-since current previous h k = ground arith

delta_pair-charge :
    (current previous : Pair)
    → IsCounter current
    → IsCounter previous
    → delta_pair current previous ≡ charge previous current
unfolding delta_pair
delta_pair-charge current previous h k = ground (
  arith,
  delta-since current.up previous.up h.up k.up,
  delta-since current.down previous.down h.down k.down,
)

-- Traffic that is not entered is none.
skipped-Same : (d p : Pair) → IsCounter d → counts d ≡ false → Same p (plus p d)
skipped-Same d p h k = ground arith

add_pair-Same : (p d : Pair) → Same (add_pair p d) (plus p d)
unfolding add_pair add64
add_pair-Same p d = ground arith

pub Same-trans : (a b c : Pair) → Same a b → Same b c → Same a c
Same-trans a b c h k = record { up = h.up ∙ k.up; down = h.down ∙ k.down }

pub plus-Same : (a b c d : Pair) → Same a b → Same c d → Same (plus a c) (plus b d)
plus-Same a b c d h k = omega (arith, h.up, h.down, k.up, k.down)

charge-IsCounter :
    (previous current : Pair) → IsCounter current → IsCounter (charge previous current)
charge-IsCounter previous current h = ground arith

entered-Same : (p d : Pair) → IsCounter d → Same (if counts d then add_pair p d else p) (plus p d)
entered-Same p d h = elim (Bool-cases (counts d)) [
  | inl e ↦ rw e (add_pair-Same p d)
  | inr e ↦ rw e (skipped-Same d p h e)
]

get-if :
    (c : Bool) (j : ℕ) (m n : Traffic)
    → get j (if c then m else n) ≡ (if c then get j m else get j n)
get-if true j m n = refl
get-if false j m n = refl

process_one_other :
    (id j : ℕ) (cum : Pair) (b : Book)
    → (id == j) ≡ false
    → (get j (process_one id cum b).pending ≡ get j b.pending)
      × (get j (process_one id cum b).last ≡ get j b.last)
unfolding process_one
process_one_other id j cum b e =
    ground
      (arith, get-put id j (delta_pair cum (get id b.last)) b.pending, get-insert id j cum b.last)

get-put_self : (j : ℕ) (d : Pair) (m : Traffic) → get j (put j d m) ≡ add_pair (get j m) d
get-put_self j d m = ground (arith, get-put j j d m)

get-insert_self : (j : ℕ) (v : Pair) (m : Traffic) → get j (insert j v m) ≡ v
get-insert_self j v m = ground (arith, get-insert j j v m)

process_one-Same :
    (j : ℕ) (cum : Pair) (b : Book)
    → IsCounter cum
    → IsCounter (get j b.last)
    → Same
        (get j (process_one j cum b).pending)
        (plus (get j b.pending) (charge (get j b.last) cum))
      × (get j (process_one j cum b).last ≡ cum)
unfolding process_one
process_one-Same j cum b h k =
    let c = charge (get j b.last) cum in
    (
      rw
          (
            delta_pair-charge cum (get j b.last) h k,
            get-if (counts c) j (put j c b.pending) b.pending,
            get-put_self j c b.pending,
          )
          (entered-Same (get j b.pending) c (charge-IsCounter (get j b.last) cum h)),
      get-insert_self j cum b.last,
    )

pub plus_assoc : (a b c : Pair) → plus (plus a b) c ≡ plus a (plus b c)
plus_assoc a b c = ground arith

pub Same-refl : (a : Pair) → Same a a
Same-refl a = record { up = refl; down = refl }

-- What the loop over the counters makes of the book, seen from one user.
pub record Charged (j : ℕ) (cum : Traffic) (b c : Book) : Type 0 where
  pub pending :
      Same (get j c.pending) (plus (get j b.pending) (charges (get j b.last) (readings j cum)))
  pub last : get j c.last ≡ latest (get j b.last) (readings j cum)
  pub counter : IsCounter (get j c.last)

pub plus_zero : (a : Pair) → plus a zero_pair ≡ a
plus_zero a = ground arith

Charged-other :
    (id j : ℕ) (cum : Pair) (rest : Traffic) (b c : Book)
    → (id == j) ≡ false
    → Charged j rest (process_one id cum b) c
    → Charged j ((id, cum) ∷ rest) b c
Charged-other id j cum rest b c e r =
    let (p, l) = process_one_other id j cum b e in
    record {
      pending = rw e (rw (p, l) at r.pending);
      last = rw e (rw l at r.last);
      counter = r.counter;
    }

Charged-same :
    (j : ℕ) (cum : Pair) (rest : Traffic) (b c : Book)
    → IsCounter cum
    → IsCounter (get j b.last)
    → Charged j rest (process_one j cum b) c
    → Charged j ((j, cum) ∷ rest) b c
Charged-same j cum rest b c k h r =
    let (p, l) = process_one-Same j cum b k h in
    let e : (j == j) ≡ true = (nat_beq_iff j j).1 refl in
    let previous = get j b.last in
    let cs = charges cum (readings j rest) in
    let q = rw l at r.pending in
    record {
      pending =
          rw (e, ← plus_assoc (get j b.pending) (charge previous cum) cs)
            (Same-trans _ _ _ q
              (plus-Same _ (plus (get j b.pending) (charge previous cum)) cs cs p (Same-refl cs)));
      last = rw e (rw l at r.last);
      counter = r.counter;
    }

-- The pending traffic of every user grows by his charge, and his last counter is the last read.
pub process_all-Charged :
    (j : ℕ) (cum : Traffic) (b : Book)
    → AllValues IsCounter cum
    → IsCounter (get j b.last)
    → Charged j cum b (process_all cum b)
unfolding process_all
process_all-Charged j [] b a h = record {
  pending = rw (plus_zero (get j b.pending)) (Same-refl (get j b.pending));
  last = refl;
  counter = h;
}
process_all-Charged j ((id, cum) ∷ rest) b (k, a) h = elim (Bool-cases (id == j)) [
  | inl e ↦
      subst (λ i. Charged j ((i, cum) ∷ rest) b (process_all rest (process_one i cum b)))
        (sym ((nat_beq_iff id j).0 e))
        (Charged-same j cum rest b _ k h (
          process_all-Charged j rest (process_one j cum b) a
            (rw ((process_one-Same j cum b k h).1) k)))
  | inr e ↦ Charged-other id j cum rest b _ e (
      process_all-Charged j rest (process_one id cum b) a
        (rw ((process_one_other id j cum b e).1) h))
]

-- What a batch holds of one user, and a list of batches.
abbrev pub batch_sum : ℕ → Traffic → Pair
batch_sum j [] = zero_pair
batch_sum j ((id, d) ∷ batch) = if id == j then plus d (batch_sum j batch) else batch_sum j batch

abbrev pub batches_sum : ℕ → List Traffic → Pair
batches_sum j [] = zero_pair
batches_sum j (batch ∷ rest) = plus (batch_sum j batch) (batches_sum j rest)

-- Restoring a batch adds to the pending traffic of a user what the batch holds of him.
pub restore_all-Same :
    (j : ℕ) (batch m : Traffic)
    → Same (get j (restore_all batch m)) (plus (get j m) (batch_sum j batch))
unfolding restore_all
restore_all-Same j [] m = rw (plus_zero (get j m)) (Same-refl (get j m))
restore_all-Same j ((id, d) ∷ batch) m = elim (Bool-cases (id == j)) [
  | inl e ↦
      let ih = rw (get-put id j d m, e) at (restore_all-Same j batch (put id d m)) in
      rw (e, ← plus_assoc (get j m) d (batch_sum j batch))
        (Same-trans _ _ _ ih
          (plus-Same _ _ (batch_sum j batch) _ (add_pair-Same (get j m) d) (Same-refl _)))
  | inr e ↦ rw e (rw (get-put id j d m, e) at (restore_all-Same j batch (put id d m)))
]
