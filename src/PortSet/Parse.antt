-- ===== src/PortSet/Parse.antt =====
-- `Parse` and `parsePort`. A text is the list of its code points; `strings.Split`, `TrimSpace` and
-- `strconv.Atoi` are written out as far as they are used.
use yz_agent.Prelude.{
  ℕ, ◌+◌, ◌-◌, ◌*◌, ◌^◌, Bool, true, ◌&&◌, ◌||◌, List, [], ◌∷◌, leb, ltb, ◌==◌, nat_eq,
  if◌then◌else◌, Option, none, some,
}
use yz_agent.PortSet.{Range, merge}

pub data ParseError : Type 0 where
  bad_range empty_item bad_port reversed : ParseError

pub data Result {ℓ} (A : Type ℓ) : Type ℓ where
  ok : A → Result A
  err : ParseError → Result A

infixl 5 ◌>>=◌
abbrev pub ◌>>=◌ {ℓ κ} : {A : Type ℓ} {B : Type κ} → Result A → (A → Result B) → Result B
ok a >>= f = f a
err e >>= f = err e

-- `unicode.IsSpace`
unfoldable pub is_space : ℕ → Bool
is_space c =
    (leb 9 c && leb c 13)
    || c == 32
    || c == 0x85
    || c == 0xa0
    || c == 0x1680
    || (leb 0x2000 c && leb c 0x200a)
    || c == 0x2028
    || c == 0x2029
    || c == 0x202f
    || c == 0x205f
    || c == 0x3000

unfoldable pub trim_left : List ℕ → List ℕ
unfolding is_space
trim_left [] = []
trim_left (c ∷ s) = if is_space c then trim_left s else c ∷ s

abbrev pub put_back : ℕ → List ℕ → List ℕ
put_back c [] = if is_space c then [] else c ∷ []
put_back c (d ∷ s) = c ∷ d ∷ s

unfoldable pub trim_right : List ℕ → List ℕ
trim_right [] = []
trim_right (c ∷ s) = put_back c (trim_right s)

unfoldable pub trim_space : List ℕ → List ℕ
unfolding trim_left trim_right
trim_space s = trim_right (trim_left s)

abbrev pub cons_head : ℕ → List (List ℕ) → List (List ℕ)
cons_head c [] = (c ∷ []) ∷ []
cons_head c (part ∷ parts) = (c ∷ part) ∷ parts

-- `strings.Split` at a separator of one character: always at least one part.
unfoldable pub split : ℕ → List ℕ → List (List ℕ)
split sep [] = [] ∷ []
split sep (c ∷ s) = let rest = split sep s in if c == sep then [] ∷ rest else cons_head c rest

abbrev pub is_digit : ℕ → Bool
is_digit c = leb b'0' c && leb c b'9'

abbrev pub all_digits : List ℕ → Bool
all_digits [] = true
all_digits (c ∷ s) = is_digit c && all_digits s

-- The number that digits spell behind `n`.
abbrev pub value : ℕ → List ℕ → ℕ
value n [] = n
value n (c ∷ s) = value (n * 10 + (c - b'0')) s

-- `strconv.Atoi` of one or more digits, on a 64-bit machine.
unfoldable pub atoi : List ℕ → Option ℕ
atoi s = if leb (2 ^ 63) (value 0 s) then none else some (value 0 s)

abbrev pub in_range : Option ℕ → Result ℕ
in_range none = err bad_port
in_range (some port) = if ltb port 1 || ltb 65535 port then err bad_port else ok port

abbrev pub nonempty_port : List ℕ → Result ℕ
nonempty_port [] = err empty_item
nonempty_port (c ∷ s) = if all_digits (c ∷ s) then in_range (atoi (c ∷ s)) else err bad_port

unfoldable pub parse_port : List ℕ → Result ℕ
unfolding atoi
parse_port raw = nonempty_port (trim_space raw)

abbrev pub make_range : ℕ → ℕ → Result Range
make_range first last =
    if ltb last first then err reversed else ok (record { from = first; to = last })

abbrev pub item_parts : List (List ℕ) → Result Range
item_parts [] = err bad_range
item_parts (a ∷ []) = do first ← parse_port a; make_range first first
item_parts (a ∷ b ∷ []) = do first ← parse_port a; last ← parse_port b; make_range first last
item_parts (a ∷ b ∷ c ∷ rest) = err bad_range

-- One round of the loop of `Parse`.
unfoldable pub parse_item : List ℕ → Result Range
unfolding split trim_space parse_port
parse_item item = item_parts (split b'-' (trim_space item))

unfoldable pub parse_items : List (List ℕ) → Result (List Range)
unfolding parse_item
parse_items [] = ok []
parse_items (item ∷ items) = do range ← parse_item item; rest ← parse_items items; ok (range ∷ rest)

unfoldable pub parse : List ℕ → Result (List Range)
unfolding parse_items
parse raw = do ranges ← parse_items (split b',' raw); ok (merge ranges)
