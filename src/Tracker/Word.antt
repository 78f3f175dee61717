-- ===== src/Tracker/Word.antt =====
-- int64 as a bit pattern, a number below 2^64, with the wrap-around of its sums; and the pair of an
-- upload and a download that the maps of the tracker hold.
use yz_agent.Prelude.{ℕ, ◌+◌, ◌-◌, ◌%◌, ◌^◌, ◌<◌, ◌≡◌, Bool, not, ◌&&◌, leb, nat_beq, arith}

abbrev pub word : ℕ
word = 2 ^ 64

abbrev pub half_word : ℕ
half_word = 2 ^ 63

unfoldable pub add64 : ℕ → ℕ → ℕ
add64 a b = (a + b) % word

unfoldable pub sub64 : ℕ → ℕ → ℕ
sub64 a b = (a + word - b) % word

-- `a < 0`
abbrev pub is_negative : ℕ → Bool
is_negative a = leb half_word a

-- `a > 0`
abbrev pub is_positive : ℕ → Bool
is_positive a = not (is_negative a) && not (nat_beq a 0)

pub record Pair : Type 0 where
  pub up : ℕ
  pub down : ℕ

abbrev pub zero_pair : Pair
zero_pair = record { up = 0; down = 0 }

unfoldable pub add_pair : Pair → Pair → Pair
unfolding add64
add_pair a b = record { up = add64 a.up b.up; down = add64 a.down b.down }

-- A pair of counters that an int64 holds as they are: neither negative.
pub record IsCounter (p : Pair) : Type 0 where
  pub up : p.up < half_word
  pub down : p.down < half_word

pub add_pair_assoc : (a b c : Pair) → add_pair (add_pair a b) c ≡ add_pair a (add_pair b c)
unfolding add_pair
add_pair_assoc a b c = ground arith

pub add_pair_comm : (a b : Pair) → add_pair a b ≡ add_pair b a
unfolding add_pair
add_pair_comm a b = ground arith
