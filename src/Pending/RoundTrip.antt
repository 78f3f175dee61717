-- ===== src/Pending/RoundTrip.antt =====
-- A difference, replayed, gives the later state back.
use yz_agent.Prelude.{
  ℕ, ◌≡◌, refl, sym, ◌∙◌, true, false, List, [], ◌∷◌, ◌++◌, ◌==◌, nat_eq, nat_beq_iff,
  if◌then◌else◌, none, some, lookup, insert, erase, lookup-erase, has_key, IsMap, subst, AllValues,
  AllValues-lookup, arith, Bool-cases, Option-cases, inl, inr,
}
use yz_agent.Tracker.Word.{Pair, zero_pair, add_pair, IsCounter}
use yz_agent.Tracker.Book.{Traffic, get, get-insert}
use yz_agent.Pending.Delta.{
  same_pair, sub_pair, changes, removals, diff_traffic, apply_one, apply_delta,
}

pub has_key-append {ℓ} :
    {V : Type ℓ} (j : ℕ) (xs ys : List (ℕ × V))
    → has_key j (xs ++ ys) ≡ (if has_key j xs then true else has_key j ys)
has_key-append j [] ys = refl
has_key-append j ((k, v) ∷ xs) ys = ground (arith, has_key-append j xs ys)

pub lookup-append {ℓ} :
    {V : Type ℓ} (j : ℕ) (xs ys : List (ℕ × V))
    → lookup j (xs ++ ys) ≡ (if has_key j xs then lookup j xs else lookup j ys)
lookup-append j [] ys = refl
lookup-append j ((k, v) ∷ xs) ys = ground (arith, lookup-append j xs ys)

pub append-IsMap {ℓ} :
    {V : Type ℓ} (xs ys : List (ℕ × V))
    → IsMap xs
    → IsMap ys
    → ((j : ℕ) → has_key j xs ≡ true → has_key j ys ≡ false)
    → IsMap (xs ++ ys)
append-IsMap [] ys hx hy apart = hy
append-IsMap ((k, v) ∷ xs) ys (a, hx) hy apart = (
  ground (arith, has_key-append k xs ys, apart k, nat_beq_iff k k),
  append-IsMap xs ys hx hy (λ j h. apart j (ground (arith, h))),
)

pub lookup_missing {ℓ} :
    {V : Type ℓ} (j : ℕ) (m : List (ℕ × V)) → has_key j m ≡ false → lookup j m ≡ none
lookup_missing j [] h = refl
lookup_missing j ((k, v) ∷ m) h = ground (arith, lookup_missing j m)

has_key-changes :
    (before after : Traffic) (j : ℕ)
    → has_key j (changes before after) ≡ true
    → has_key j after ≡ true
unfolding changes
has_key-changes before [] j h = cc
has_key-changes before ((k, v) ∷ after) j h = ground (arith, has_key-changes before after j)

changes-IsMap : (before after : Traffic) → IsMap after → IsMap (changes before after)
unfolding changes
changes-IsMap before [] h = tt
changes-IsMap before ((k, v) ∷ after) (a, h) =
    ground (arith, changes-IsMap before after h, has_key-changes before after k)

has_key-removals :
    (after before : Traffic) (j : ℕ)
    → has_key j (removals after before) ≡ true
    → (has_key j before ≡ true) × (has_key j after ≡ false)
unfolding removals
has_key-removals after [] j h = cc
has_key-removals after ((k, v) ∷ before) j h =
    ground (arith, has_key-removals after before j, nat_beq_iff k j)

removals-IsMap : (after before : Traffic) → IsMap before → IsMap (removals after before)
unfolding removals
removals-IsMap after [] h = tt
removals-IsMap after ((k, v) ∷ before) (a, h) =
    ground (arith, removals-IsMap after before h, has_key-removals after before k)

pub diff_traffic-IsMap :
    (before after : Traffic) → IsMap before → IsMap after → IsMap (diff_traffic before after)
unfolding diff_traffic
diff_traffic-IsMap before after hb ha =
    append-IsMap (changes before after) (removals after before) (changes-IsMap before after ha)
      (removals-IsMap after before hb)
      (λ j h. ground (arith, has_key-changes before after j h, has_key-removals after before j))

get-changes :
    (before after : Traffic) (j : ℕ)
    → IsMap after
    → has_key j after ≡ true
    → get j (changes before after) ≡ (
        if same_pair (get j after) (get j before)
        then zero_pair
        else sub_pair (get j after) (get j before))
unfolding changes
get-changes before [] j m h = cc
get-changes before ((k, v) ∷ after) j (a, m) h = ground (
  arith,
  get-changes before after j m,
  nat_beq_iff k j,
  lookup_missing j (changes before after),
  has_key-changes before after j,
)

get-removals :
    (after before : Traffic) (j : ℕ)
    → IsMap before
    → has_key j after ≡ false
    → get j (removals after before) ≡ (
        if same_pair (get j before) zero_pair then zero_pair else sub_pair zero_pair (get j before))
unfolding removals
get-removals after [] j m h = ground arith
get-removals after ((k, v) ∷ before) j (a, m) h = ground (
  arith,
  get-removals after before j m h,
  nat_beq_iff k j,
  lookup_missing j (removals after before),
  lookup_missing j before,
  has_key-removals after before j,
)

pub get-IsCounter : (j : ℕ) (m : Traffic) → AllValues IsCounter m → IsCounter (get j m)
get-IsCounter j m a = elim (Option-cases (lookup j m)) [
  | inl e ↦ rw e (omega arith)
  | inr (v, e) ↦ rw e (AllValues-lookup IsCounter j m a e)
]

sub_pair_same :
    (a b : Pair) → IsCounter a → IsCounter b → same_pair a b ≡ true → sub_pair a b ≡ zero_pair
unfolding sub_pair
sub_pair_same a b ha hb h = ground arith

get-append :
    (j : ℕ) (xs ys : Traffic) → get j (xs ++ ys) ≡ (if has_key j xs then get j xs else get j ys)
get-append j xs ys = ground (arith, lookup-append j xs ys)

pub get-diff_traffic :
    (before after : Traffic) (j : ℕ)
    → IsMap before
    → IsMap after
    → IsCounter (get j before)
    → IsCounter (get j after)
    → get j (diff_traffic before after) ≡ sub_pair (get j after) (get j before)
unfolding diff_traffic
get-diff_traffic before after j mb ma cb ca = elim (Bool-cases (has_key j after)) [
  | inl h ↦ ground (
    arith,
    get-append j (changes before after) (removals after before),
    get-changes before after j ma h,
    lookup_missing j (changes before after),
    lookup_missing j (removals after before),
    has_key-removals after before j,
    sub_pair_same (get j after) (get j before) ca cb,
  )
  | inr h ↦ ground (
    arith,
    get-append j (changes before after) (removals after before),
    get-removals after before j mb h,
    has_key-changes before after j,
    lookup_missing j after h,
    sub_pair_same zero_pair (get j before),
  )
]

-- The sum that a replay makes, entry by entry, and the state that it aims at.
abbrev pub Leads : Traffic → Traffic → Traffic → Type 0
Leads base delta after = (j : ℕ) → add_pair (get j base) (get j delta) ≡ get j after

pub add_pair-sub_pair : (a b : Pair) → IsCounter a → IsCounter b → add_pair b (sub_pair a b) ≡ a
unfolding add_pair sub_pair
add_pair-sub_pair a b ha hb = ground arith

get-erase : (k j : ℕ) (m : Traffic) → get j (erase k m) ≡ (if k == j then zero_pair else get j m)
get-erase k j m = ground (arith, lookup-erase k j m)

-- One entry makes the map right at its id and leaves it elsewhere.
pub apply_one_lem :
    (id : ℕ) (v : Pair) (base : Traffic) (next : Pair)
    → add_pair (get id base) v ≡ next
    → IsCounter next
    → (r : Traffic) × (apply_one id v base ≡ some r)
      × ((j : ℕ) → get j r ≡ (if id == j then next else get j base))
unfolding apply_one
apply_one_lem id v base next e c = elim (Bool-cases (same_pair next zero_pair)) [
  | inl z ↦ (erase id base, ground arith, λ j. ground (arith, get-erase id j base))
  | inr z ↦ (insert id next base, ground arith, λ j. ground (arith, get-insert id j next base))
]

add_pair_zero : (a : Pair) → IsCounter a → add_pair a zero_pair ≡ a
unfolding add_pair
add_pair_zero a h = ground arith

pub apply_delta_lem :
    (base delta after : Traffic)
    → IsMap delta
    → ((j : ℕ) → IsCounter (get j after))
    → ((j : ℕ) → IsCounter (get j base))
    → Leads base delta after
    → (r : Traffic) × (apply_delta base delta ≡ some r) × ((j : ℕ) → get j r ≡ get j after)
unfolding apply_delta
apply_delta_lem base [] after m ca cb h =
    (base, refl, λ j. sym (add_pair_zero (get j base) (cb j)) ∙ h j)
apply_delta_lem base ((id, v) ∷ delta) after (a, m) ca cb h =
    let here : add_pair (get id base) v ≡ get id after = ground (arith, h id, nat_beq_iff id id) in
    let (next, done, same) = apply_one_lem id v base (get id after) here (ca id) in
    let (r, rest, right) =
      apply_delta_lem next delta after m ca
        (λ j. ground (arith, same j, ca j, ca id, cb j, nat_beq_iff id j))
        (λ j. ground (
          arith,
          h j,
          same j,
          nat_beq_iff id j,
          lookup_missing id delta a,
          add_pair_zero (get id after) (ca id),
        )) in
    (r, rw done rest, right)

-- What a difference adds to the state before it is the state after it.
pub apply_delta-diff_traffic :
    (base before after : Traffic)
    → IsMap before
    → IsMap after
    → AllValues IsCounter before
    → AllValues IsCounter after
    → ((j : ℕ) → get j base ≡ get j before)
    → (r : Traffic) × (apply_delta base (diff_traffic before after) ≡ some r)
      × ((j : ℕ) → get j r ≡ get j after)
apply_delta-diff_traffic base before after mb ma cb ca same =
    apply_delta_lem base (diff_traffic before after) after (diff_traffic-IsMap before after mb ma)
      (λ j. get-IsCounter j after ca)
      (λ j. subst IsCounter (sym (same j)) (get-IsCounter j before cb))
      (λ j.
        rw
          (
            same j,
            get-diff_traffic before after j mb ma (get-IsCounter j before cb)
                (get-IsCounter j after ca),
          )
          (add_pair-sub_pair (get j after) (get j before) (get-IsCounter j after ca)
            (get-IsCounter j before cb)))
