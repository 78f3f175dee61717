-- ===== src/PortSet/Print.antt =====
-- `Range.String`, and what `Parse` makes of it.
use yz_agent.Prelude.{
  if_intro, ℕ, zero, suc, ◌+◌, ◌-◌, ◌*◌, ◌/◌, ◌%◌, ◌^◌, ◌≤◌, ◌≡◌, refl, Bool, true, false, not,
  ◌&&◌, ◌||◌, List, [], ◌∷◌, ◌++◌, leb, ltb, ◌==◌, nat_eq, nat_beq_iff, if◌then◌else◌, Bool-cases,
  inl, inr, arith,
}
use yz_agent.PortSet.{Range, valid, merge}
use yz_agent.PortSet.Parse.{
  ok, is_space, trim_left, trim_right, trim_space, split, is_digit, all_digits, value, atoi,
  nonempty_port, parse_port, parse_item, parse_items, parse,
}

-- The digits of a number; n rounds are enough for n.
unfoldable pub digits : ℕ → ℕ → List ℕ
digits zero n = (b'0' + n) ∷ []
digits (suc rounds) n =
    let rest = digits rounds (n / 10) in
    if ltb n 10 then (b'0' + n) ∷ [] else rest ++ ((b'0' + n % 10) ∷ [])

-- `strconv.Itoa`
abbrev pub itoa : ℕ → List ℕ
itoa n = digits n n

-- `Range.String`
unfoldable pub print_range : Range → List ℕ
print_range r = if r.from == r.to then itoa r.from else itoa r.from ++ (b'-' ∷ itoa r.to)

value-append : (k c : ℕ) (s : List ℕ) → value k (s ++ (c ∷ [])) ≡ value k s * 10 + (c - b'0')
value-append k c [] = refl
value-append k c (d ∷ s) = value-append (k * 10 + (d - b'0')) c s

value-digits : (rounds n : ℕ) → n ≤ rounds → value 0 (digits rounds n) ≡ n
unfolding digits
value-digits zero n l = omega (arith, l)
value-digits (suc rounds) n l = elim (Bool-cases (ltb n 10)) [
  | inl e ↦ rw e (omega arith)
  | inr e ↦
      let big : 10 ≤ n = ground (arith, e) in
      rw
        (
          e,
          value-append 0 (b'0' + n % 10) (digits rounds (n / 10)),
          value-digits rounds (n / 10) (omega (arith, l, big)),
        )
        (omega (arith, big))
]

-- A text of other characters than spaces and a separator.
abbrev is_plain : ℕ → ℕ → Bool
is_plain sep c = not (is_space c) && not (c == sep)

abbrev all_plain : ℕ → List ℕ → Bool
all_plain sep [] = true
all_plain sep (c ∷ s) = is_plain sep c && all_plain sep s

all_digits-append :
    (s t : List ℕ) → all_digits s ≡ true → all_digits t ≡ true → all_digits (s ++ t) ≡ true
all_digits-append [] t h k = k
all_digits-append (c ∷ s) t h k = ground (arith, all_digits-append s t, h, k)

all_digits-digits : (rounds n : ℕ) → n ≤ rounds → all_digits (digits rounds n) ≡ true
unfolding digits
all_digits-digits zero n l = ground (arith, l)
all_digits-digits (suc rounds) n l = elim (Bool-cases (ltb n 10)) [
  | inl e ↦ rw e (ground (arith, e))
  | inr e ↦
      let big : 10 ≤ n = ground (arith, e) in
      let last : all_digits ((b'0' + n % 10) ∷ []) ≡ true = ground (arith) in
      rw e (
        all_digits-append (digits rounds (n / 10)) ((b'0' + n % 10) ∷ [])
          (all_digits-digits rounds (n / 10) (omega (arith, l, big))) last)
]

trim_right-plain : (sep : ℕ) (s : List ℕ) → all_plain sep s ≡ true → trim_right s ≡ s
unfolding trim_right
trim_right-plain sep [] h = refl
trim_right-plain sep (c ∷ []) h = ground (arith, h)
trim_right-plain sep (c ∷ d ∷ s) h =
    let ih = trim_right-plain sep (d ∷ s) (ground (arith, h)) in rw ih refl

trim_space-plain : (sep : ℕ) (s : List ℕ) → all_plain sep s ≡ true → trim_space s ≡ s
unfolding trim_space trim_left
trim_space-plain sep [] h = refl
trim_space-plain sep (c ∷ s) h =
    let dark : is_space c ≡ false = ground (arith, h) in rw dark (trim_right-plain sep (c ∷ s) h)

split-plain : (sep : ℕ) (s : List ℕ) → all_plain sep s ≡ true → split sep s ≡ s ∷ []
unfolding split
split-plain sep [] h = refl
split-plain sep (c ∷ s) h =
    let other : (c == sep) ≡ false = ground (arith, h) in
    rw (other, split-plain sep s (ground (arith, h))) refl

split-between :
    (sep : ℕ) (s t : List ℕ) → all_plain sep s ≡ true → split sep (s ++ (sep ∷ t)) ≡ s ∷ split sep t
unfolding split
split-between sep [] t h =
    let same : (sep == sep) ≡ true = ground (arith, nat_beq_iff sep sep) in rw same refl
split-between sep (c ∷ s) t h =
    let other : (c == sep) ≡ false = ground (arith, h) in
    rw (other, split-between sep s t (ground (arith, h))) refl

digits-plain :
    (sep : ℕ) (s : List ℕ) → is_digit sep ≡ false → all_digits s ≡ true → all_plain sep s ≡ true
unfolding is_space
digits-plain sep [] d h = refl
digits-plain sep (c ∷ s) d h = ground (arith, digits-plain sep s d, nat_beq_iff c sep, d, h)

nonempty_port-digits :
    (s : List ℕ) (n : ℕ)
    → all_digits s ≡ true
    → value 0 s ≡ n
    → 1 ≤ n
    → n ≤ 65535
    → nonempty_port s ≡ ok n
unfolding atoi
nonempty_port-digits [] n d v low high = absurd (omega (arith, v, low))
nonempty_port-digits (c ∷ s) n d v low high =
    let small : leb (2 ^ 63) n ≡ false = ground (arith, high) in
    let inside : (ltb n 1 || ltb 65535 n) ≡ false = ground (arith, low, high) in
    rw (d, v, small, inside) refl

itoa-plain : (sep n : ℕ) → is_digit sep ≡ false → all_plain sep (itoa n) ≡ true
itoa-plain sep n d = digits-plain sep (itoa n) d (all_digits-digits n n (omega arith))

parse_port-itoa : (n : ℕ) → 1 ≤ n → n ≤ 65535 → parse_port (itoa n) ≡ ok n
unfolding parse_port
parse_port-itoa n low high = rw (trim_space-plain b',' (itoa n) (itoa-plain b',' n refl)) (
    nonempty_port-digits (itoa n) n (all_digits-digits n n (omega arith))
      (value-digits n n (omega arith)) low high)

all_plain-between :
    (sep c : ℕ) (s t : List ℕ)
    → all_plain sep s ≡ true
    → is_plain sep c ≡ true
    → all_plain sep t ≡ true
    → all_plain sep (s ++ (c ∷ t)) ≡ true
all_plain-between sep c [] t h k l = ground (arith, k, l)
all_plain-between sep c (d ∷ s) t h k l = ground (arith, all_plain-between sep c s t, h, k, l)

print_range-plain : (r : Range) → all_plain b',' (print_range r) ≡ true
unfolding print_range is_space
print_range-plain r =
    if_intro (λ s. all_plain b',' s ≡ true) (r.from == r.to) (itoa r.from)
      (itoa r.from ++ (b'-' ∷ itoa r.to)) (λ e. itoa-plain b',' r.from refl)
      (λ e.
        all_plain-between b',' b'-' (itoa r.from) (itoa r.to) (itoa-plain b',' r.from refl)
          (ground arith) (itoa-plain b',' r.to refl))

range_same : (r : Range) → r.from ≡ r.to → ok (record { from = r.from; to = r.from }) ≡ ok r
range_same r h = λ i. ok (record { from = r.from; to = h i })

parse_item-print :
    (r : Range) → 1 ≤ r.from → r.from ≤ r.to → r.to ≤ 65535 → parse_item (print_range r) ≡ ok r
unfolding print_range parse_item is_space
parse_item-print r low ordered high =
    let first = parse_port-itoa r.from low (omega (arith, ordered, high)) in
    let last = parse_port-itoa r.to (omega (arith, low, ordered)) high in
    let itself : ltb r.from r.from ≡ false = ground arith in
    let forward : ltb r.to r.from ≡ false = ground (arith, ordered) in
    elim (Bool-cases (r.from == r.to)) [
      | inl e ↦
          let same : r.from ≡ r.to = ground (arith, nat_beq_iff r.from r.to, e) in
          rw
            (
              e,
              trim_space-plain b',' (itoa r.from) (itoa-plain b',' r.from refl),
              split-plain b'-' (itoa r.from) (itoa-plain b'-' r.from refl),
              first,
            )
            (rw itself (range_same r same))
      | inr e ↦
          let plain =
            all_plain-between b',' b'-' (itoa r.from) (itoa r.to) (itoa-plain b',' r.from refl)
              (ground arith) (itoa-plain b',' r.to refl) in
          rw
            (
              e,
              trim_space-plain b',' (itoa r.from ++ (b'-' ∷ itoa r.to)) plain,
              split-between b'-' (itoa r.from) (itoa r.to) (itoa-plain b'-' r.from refl),
              split-plain b'-' (itoa r.to) (itoa-plain b'-' r.to refl),
              first,
              last,
              forward,
            )
            refl
    ]

-- A valid range of ports, printed and parsed, comes back alone.
pub parse-print_range : (r : Range) → valid r ≡ true → parse (print_range r) ≡ ok (r ∷ [])
unfolding parse parse_items merge
parse-print_range r h =
    rw
      (
        split-plain b',' (print_range r) (print_range-plain r),
        parse_item-print r (ground (arith, h)) (ground (arith, h)) (ground (arith, h)),
      )
      refl
