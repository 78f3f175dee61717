-- ===== src/Selector.antt =====
-- internal/balancer/selector.go. An id or a priority that is not positive is written 0, which the code
-- refuses alike. An address is the list of its code points; `net.SplitHostPort` and `strconv.Atoi` are
-- written out as far as they are used. The map of the excluded is the list of its keys.
pub mod Address
pub mod Order
pub mod Picked
pub mod Rotation
pub mod Examples
use yz_agent.Prelude.{
  ℕ, ◌+◌, ◌%◌, ◌^◌, Bool, true, false, not, ◌&&◌, ◌||◌, List, [], ◌∷◌, length, any, ltb, leb, ◌==◌,
  nat_eq, if◌then◌else◌, Option, none, some, lookup, insert, ◌-◌,
}
use yz_agent.Selector.Address.{is_address, same_address}

pub record Target : Type 0 where
  pub id : ℕ
  pub address : List ℕ
  pub priority : ℕ
  pub online : Bool

pub record Selector : Type 0 where
  pub targets : List Target
  pub cursors : List (ℕ × ℕ)

-- The loop of `Update`, with the ids and the addresses that it has seen.
unfoldable pub accepts : List ℕ → List (List ℕ) → List Target → Bool
accepts seen addresses [] = true
accepts seen addresses (t ∷ targets) =
    let rest = accepts (t.id ∷ seen) (t.address ∷ addresses) targets in
    if t.id == 0 || any (λ id. id == t.id) seen || ltb t.priority 1 || ltb 65535 t.priority
    then false
    else if not (is_address t.address) || any (λ a. same_address a t.address) addresses
    then false
    else rest

abbrev pub before : Target → Target → Bool
before a b = if a.priority == b.priority then ltb a.id b.id else ltb a.priority b.priority

unfoldable pub insert_target : Target → List Target → List Target
insert_target a [] = a ∷ []
insert_target a (b ∷ targets) =
    let rest = insert_target a targets in if before b a then b ∷ rest else a ∷ b ∷ targets

unfoldable pub sort_targets : List Target → List Target
unfolding insert_target
sort_targets [] = []
sort_targets (t ∷ targets) = insert_target t (sort_targets targets)

unfoldable pub update : List Target → Selector → Option Selector
unfolding accepts sort_targets
update targets s =
    if accepts [] [] targets then some (record s { targets = sort_targets targets }) else none

unfoldable pub new_selector : List Target → Option Selector
unfolding update
new_selector targets = update targets (record { targets = []; cursors = [] })

abbrev pub skips : List ℕ → Target → Bool
skips excluded t = not t.online || any (λ id. id == t.id) excluded

-- The loop of `Pick` behind the first eligible target, up to one of another priority.
unfoldable pub group : List ℕ → ℕ → List Target → List Target
group excluded priority [] = []
group excluded priority (t ∷ targets) =
    let rest = group excluded priority targets in
    if skips excluded t then rest else if t.priority == priority then t ∷ rest else []

unfoldable pub eligible : List ℕ → List Target → List Target
unfolding group
eligible excluded [] = []
eligible excluded (t ∷ targets) =
    let rest = eligible excluded targets in
    if skips excluded t then rest else t ∷ group excluded t.priority targets

abbrev pub nth : List Target → ℕ → Option Target
nth [] n = none
nth (t ∷ targets) n = if n == 0 then some t else nth targets (n - 1)

abbrev pub number_or_zero : Option ℕ → ℕ
number_or_zero none = 0
number_or_zero (some n) = n

abbrev pub turn : List Target → Selector → Selector × Option Target
turn [] s = (s, none)
turn (t ∷ targets) s =
    let cursor = number_or_zero (lookup t.priority s.cursors) in
    (
      record s { cursors = insert t.priority ((cursor + 1) % 2 ^ 64) s.cursors },
      nth (t ∷ targets) (cursor % length (t ∷ targets)),
    )

unfoldable pub pick : List ℕ → Selector → Selector × Option Target
unfolding eligible
pick excluded s = turn (eligible excluded s.targets) s
