-- ===== src/Selector/Address.antt =====
-- What `Update` asks of an address: a host that is not empty, and a port from 1 to 65535.
use yz_agent.Prelude.{
  ℕ, Bool, true, false, ◌&&◌, ◌||◌, List, [], ◌∷◌, any, leb, ◌==◌, nat_eq, if◌then◌else◌, Option,
  none, some,
}
use yz_agent.PortSet.Parse.{all_digits, atoi}

unfoldable pub same_address : List ℕ → List ℕ → Bool
same_address [] [] = true
same_address [] (d ∷ b) = false
same_address (c ∷ a) [] = false
same_address (c ∷ a) (d ∷ b) = c == d && same_address a b

abbrev pub has : ℕ → List ℕ → Bool
has c s = any (λ d. d == c) s

abbrev pub cons_first : ℕ → List ℕ × List ℕ → List ℕ × List ℕ
cons_first c (a, b) = (c ∷ a, b)

-- The text before the last colon, and the one behind it.
unfoldable pub last_colon : List ℕ → Option (List ℕ × List ℕ)
last_colon [] = none
last_colon (c ∷ s) = elim (last_colon s) [
  | none ↦ if c == b':' then some ([], s) else none
  | some parts ↦ some (cons_first c parts)
]

-- The host in brackets, when the first closing one ends the text.
unfoldable pub in_brackets : List ℕ → Option (List ℕ)
in_brackets [] = none
in_brackets (c ∷ s) =
    let rest = in_brackets s in
    if c == b']'
    then elim s [ [] ↦ some [] | d ∷ s' ↦ none ]
    else elim rest [ none ↦ none | some host ↦ some (c ∷ host) ]

unfoldable pub host_of : List ℕ → Option (List ℕ)
unfolding in_brackets
host_of [] = some []
host_of (c ∷ s) =
    if c == b'['
    then (if has b'[' s then none else in_brackets s)
    else if has b':' (c ∷ s) || has b'[' (c ∷ s) || has b']' (c ∷ s)
    then none
    else some (c ∷ s)

-- `strconv.Atoi` of a text that may have a sign; the port is to be positive.
abbrev pub is_number : List ℕ → Bool
is_number [] = false
is_number (c ∷ s) =
    all_digits (c ∷ s)
    && elim (atoi (c ∷ s)) [ none ↦ false | some port ↦ leb 1 port && leb port 65535 ]

unfoldable pub is_port : List ℕ → Bool
unfolding atoi
is_port [] = false
is_port (c ∷ s) = if c == b'+' then is_number s else is_number (c ∷ s)

abbrev pub is_host : Option (List ℕ) → Bool
is_host none = false
is_host (some []) = false
is_host (some (c ∷ s)) = true

unfoldable pub is_address : List ℕ → Bool
unfolding last_colon host_of is_port
is_address s = elim (last_colon s) [
  | none ↦ false
  | some parts ↦ is_host (host_of parts.0) && is_port parts.1
]
