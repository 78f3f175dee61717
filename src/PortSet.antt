-- ===== src/PortSet.antt =====
-- internal/portset/ports.go: ranges of ports, their merging and the removal of a port. Ports are
-- natural numbers. `sort.Slice` is an insertion sort by the first port: the order that it leaves
-- among equal first ports does not show in the merged ranges.
pub mod Parse
pub mod Print
pub mod Cover
pub mod Canonical
pub mod Accept
pub mod Examples
use yz_agent.Prelude.{
  ℕ, zero, suc, ◌+◌, ◌-◌, ◌≤◌, max, ◌≡◌, Bool, true, false, ◌&&◌, List, [], ◌∷◌, ◌++◌, any, leb,
  ltb, if◌then◌else◌, not, arith,
}

pub record Range : Type 0 where
  pub from : ℕ
  pub to : ℕ

abbrev pub contains : Range → ℕ → Bool
contains r port = leb r.from port && leb port r.to

abbrev pub overlaps : Range → Range → Bool
overlaps r other = leb r.from other.to && leb other.from r.to

abbrev pub valid : Range → Bool
valid r = ltb 0 r.from && leb r.from r.to && leb r.to 65535

unfoldable pub insert_by_from : Range → List Range → List Range
insert_by_from r [] = r ∷ []
insert_by_from r (s ∷ rest) = if ltb s.from r.from then s ∷ insert_by_from r rest else r ∷ s ∷ rest

unfoldable pub sort_by_from : List Range → List Range
unfolding insert_by_from
sort_by_from [] = []
sort_by_from (r ∷ rest) = insert_by_from r (sort_by_from rest)

-- The loop of `Merge`: `previous` is the last element of `merged`, which grows at its end.
unfoldable pub merge_loop : Range → List Range → List Range
merge_loop previous [] = previous ∷ []
merge_loop previous (current ∷ rest) =
    let extended = merge_loop (record previous { to = max previous.to current.to }) rest in
    let appended = previous ∷ merge_loop current rest in
    if leb current.from (previous.to + 1) then extended else appended

unfoldable pub merge_sorted : List Range → List Range
unfolding merge_loop
merge_sorted [] = []
merge_sorted (first ∷ rest) = merge_loop first rest

unfoldable pub merge : List Range → List Range
unfolding sort_by_from merge_sorted
merge ranges = merge_sorted (sort_by_from ranges)

-- The parts of one range beside `port`.
unfoldable pub without_one : Range → ℕ → List Range
without_one r port =
    if not (contains r port)
    then r ∷ []
    else (if ltb r.from port then record { from = r.from; to = port - 1 } ∷ [] else [])
      ++ (if ltb port r.to then record { from = port + 1; to = r.to } ∷ [] else [])

unfoldable pub without : List Range → ℕ → List Range
unfolding without_one
without [] port = []
without (r ∷ rest) port = without_one r port ++ without rest port

-- The set of ports that a list of ranges stands for.
abbrev pub covers : List Range → ℕ → Bool
covers ranges port = any (λ r. contains r port) ranges
