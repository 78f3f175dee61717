-- ===== src/MachineTraffic/Calendar.antt =====
-- `boundary` and `Period`. The civil calendar of a time zone is a parameter: months are numbered, and
-- `date month day` is the Unix time of the midnight that begins a day.
use yz_agent.Prelude.{
  ℕ, ◌+◌, ◌-◌, ◌≤◌, ◌<◌, ◌≡◌, ◌||◌, Option, none, some, min, ltb, if◌then◌else◌, arith, String,
  Bool-cases, inl, inr,
}

pub record Calendar : Type 0 where
  pub month_of : ℕ → ℕ
  pub days_in : ℕ → ℕ
  pub date : ℕ → ℕ → ℕ

-- `time.LoadLocation`: the calendar of a zone, if the zone is known.
abbrev pub Zones : Type 0
Zones = String → Option Calendar

unfoldable pub boundary : Calendar → ℕ → ℕ → ℕ
boundary c month day = c.date month (min day (c.days_in month))

abbrev pub start_month : Calendar → ℕ → ℕ → ℕ
start_month c now day =
    let month = c.month_of now in if ltb now (boundary c month day) then month - 1 else month

-- `start.Month()` is read off the start itself.
unfoldable pub period_in : Calendar → ℕ → ℕ → ℕ × ℕ
unfolding boundary
period_in c now day =
    let start = boundary c (start_month c now day) day in
    (start, boundary c (c.month_of start + 1) day)

unfoldable pub period : Zones → ℕ → ℕ → String → Option (ℕ × ℕ)
unfolding period_in
period zones now day zone = elim (zones zone) [
  | none ↦ none
  | some c ↦ if ltb day 1 || ltb 31 day then none else some (period_in c now day)
]

-- What a calendar is: days of a month are in order, lie in that month, and every month has a day.
pub record IsCalendar (c : Calendar) : Type 0 where
  pub has_day : (m : ℕ) → 1 ≤ c.days_in m
  pub in_order : (m d d' : ℕ) → d ≤ d' → c.date m d ≤ c.date m d'
  pub month_of-date : (m d : ℕ) → 1 ≤ d → d ≤ c.days_in m → c.month_of (c.date m d) ≡ m
  pub before_next :
      (t d : ℕ) → 1 ≤ d → d ≤ c.days_in (c.month_of t + 1) → t < c.date (c.month_of t + 1) d
  pub after_previous :
      (t d : ℕ)
      → d ≤ c.days_in (c.month_of t - 1)
      → 1 ≤ c.month_of t
      → c.date (c.month_of t - 1) d ≤ t

module _ (c : Calendar) (h : IsCalendar c) where
  month_of-boundary : (m day : ℕ) → 1 ≤ day → c.month_of (boundary c m day) ≡ m
  unfolding boundary
  month_of-boundary m day d =
      h.month_of-date m (min day (c.days_in m)) (omega (arith, h.has_day m)) (omega arith)

  lt-boundary : (now day : ℕ) → 1 ≤ day → now < boundary c (c.month_of now + 1) day
  unfolding boundary
  lt-boundary now day d =
      let next = c.month_of now + 1 in
      h.before_next now (min day (c.days_in next)) (omega (arith, h.has_day next)) (omega arith)

  boundary-le : (now day : ℕ) → 1 ≤ c.month_of now → boundary c (c.month_of now - 1) day ≤ now
  unfolding boundary
  boundary-le now day m =
      h.after_previous now (min day (c.days_in (c.month_of now - 1))) (omega arith) m

  -- For a valid day the period holds the present: it has begun, and it has not ended.
  pub period_in-contains :
      (now day : ℕ)
      → 1 ≤ day
      → 1 ≤ c.month_of now
      → ((period_in c now day).0 ≤ now) × (now < (period_in c now day).1)
  unfolding period_in
  period_in-contains now day d m = elim (Bool-cases (ltb now (boundary c (c.month_of now) day))) [
    | inl e ↦
        let same : c.month_of now - 1 + 1 ≡ c.month_of now = omega arith in
        rw e (
          boundary-le now day m,
          rw (month_of-boundary (c.month_of now - 1) day d, same) (ground arith),
        )
    | inr e ↦
        rw e (ground arith, rw (month_of-boundary (c.month_of now) day d) (lt-boundary now day d))
  ]
