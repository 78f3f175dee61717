-- ===== src/Prelude/Text.antt =====
-- Texts: what the program uses of Go's `strings` and `strconv`.
use Prim.Native.Nat.{ℕ}
use Prim.Native.Char.{code}
use Prim.Native.String.{String}
use mathlib.Core.Bool.{Bool, true, false, ◌&&◌, ◌||◌}
use mathlib.Core.List.{List, [], ◌∷◌}
use Prim.Native.Nat.{◌+◌}
use yz_agent.Prelude.Tests.{ltb, leb, nat_beq, if◌then◌else◌}

-- The code points of a text: its bytes, if it is ASCII.
abbrev pub codes : String → List ℕ
codes String.[] = []
codes (String.◌∷◌ first rest) = code first ∷ codes rest

-- A space, for `strings.TrimSpace`.
abbrev pub is_space_code : ℕ → Bool
is_space_code c =
    (leb 9 c && leb c 13)
    || nat_beq c 32
    || nat_beq c 0x85
    || nat_beq c 0xa0
    || nat_beq c 0x1680
    || (leb 0x2000 c && leb c 0x200a)
    || nat_beq c 0x2028
    || nat_beq c 0x2029
    || nat_beq c 0x202f
    || nat_beq c 0x205f
    || nat_beq c 0x3000

module _ (outer : ℕ → Bool) where
  abbrev trim_start : String → String
  trim_start String.[] = String.[]
  trim_start (String.◌∷◌ c s) =
      let rest = trim_start s in if outer (code c) then rest else String.◌∷◌ c s

  abbrev trim_end : String → String
  trim_end String.[] = String.[]
  trim_end (String.◌∷◌ c s) = elim (trim_end s) [
    | String.[] ↦ if outer (code c) then String.[] else String.◌∷◌ c String.[]
    | String.◌∷◌ d t ↦ String.◌∷◌ c (String.◌∷◌ d t)
  ]

  -- `strings.Trim` and its like: the characters that pass the test go, at both ends.
  unfoldable pub trim_text : String → String
  trim_text s = trim_end (trim_start s)

-- `unicode.ToLower`, where its value is an ASCII letter.
abbrev lower_code : ℕ → ℕ
lower_code c =
    if leb b'A' c && leb c b'Z'
    then c + 32
    else if nat_beq c 0x212a
    then b'k'
    else if nat_beq c 0x130
    then b'i'
    else c

-- The least of the letters that `unicode.SimpleFold` takes for one, where one of them is ASCII.
abbrev fold_code : ℕ → ℕ
fold_code c =
    if leb b'A' c && leb c b'Z'
    then c + 32
    else if nat_beq c 0x212a
    then b'k'
    else if nat_beq c 0x17f
    then b's'
    else c

abbrev pub same_codes : List ℕ → List ℕ → Bool
same_codes [] [] = true
same_codes (c ∷ s) (d ∷ t) = nat_beq c d && same_codes s t
same_codes [] (d ∷ t) = false
same_codes (c ∷ s) [] = false

abbrev map_codes : (ℕ → ℕ) → List ℕ → List ℕ
map_codes f [] = []
map_codes f (c ∷ s) = f c ∷ map_codes f s

-- `strings.ToLower(s) == t`, for a text t of lower-case ASCII.
unfoldable pub is_lower_of : String → String → Bool
is_lower_of s t = same_codes (map_codes lower_code (codes s)) (codes t)

-- `strings.EqualFold(s, t)`, for a text t of ASCII.
unfoldable pub equal_fold : String → String → Bool
equal_fold s t = same_codes (map_codes fold_code (codes s)) (map_codes fold_code (codes t))

-- The order of two texts of ASCII.
abbrev pub codes_before : List ℕ → List ℕ → Bool
codes_before s [] = false
codes_before [] (d ∷ t) = true
codes_before (c ∷ s) (d ∷ t) = ltb c d || (nat_beq c d && codes_before s t)
