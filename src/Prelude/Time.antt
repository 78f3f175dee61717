-- ===== src/Prelude/Time.antt =====
-- Times of Go's clock: nanoseconds since the zero `time.Time`, so that 0 is the zero time. No time
-- that the program reads from its clock lies before 1970.
use Prim.Native.Nat.{ℕ, ◌-◌, ◌/◌}

abbrev pub second : ℕ
second = 1000000000

-- `time.Time.Unix`
abbrev pub unix : ℕ → ℕ
unix t = t / second - 62135596800
