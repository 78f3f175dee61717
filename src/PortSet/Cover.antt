-- ===== src/PortSet/Cover.antt =====
-- Merging keeps the set of ports, and removing a port takes out that port alone.
use yz_agent.Prelude.{
  ℕ, ◌+◌, ◌≤◌, max, ◌≡◌, refl, ◌∙◌, ◌&&◌, ◌||◌, List, [], ◌∷◌, any-append, nat_beq, not, arith,
}
use yz_agent.PortSet.{
  Range, contains, insert_by_from, sort_by_from, merge_loop, merge_sorted, merge, without_one,
  without, covers,
}

covers-insert_by_from :
    (r : Range) (rest : List Range) (p : ℕ)
    → covers (insert_by_from r rest) p ≡ (contains r p || covers rest p)
unfolding insert_by_from
covers-insert_by_from r [] p = refl
covers-insert_by_from r (s ∷ rest) p = ground (arith, covers-insert_by_from r rest p)

covers-sort_by_from :
    (ranges : List Range) (p : ℕ) → covers (sort_by_from ranges) p ≡ covers ranges p
unfolding sort_by_from
covers-sort_by_from [] p = refl
covers-sort_by_from (r ∷ rest) p =
    ground (arith, covers-insert_by_from r (sort_by_from rest) p, covers-sort_by_from rest p)

-- Every range of the list starts at `n` or later, and each not before the one ahead of it.
abbrev pub IsAscending : ℕ → List Range → Type 0
IsAscending n [] = Unit {0}
IsAscending n (r ∷ rest) = (n ≤ r.from) × IsAscending r.from rest

insert_by_from-IsAscending :
    (n : ℕ) (r : Range) (rest : List Range)
    → n ≤ r.from
    → IsAscending n rest
    → IsAscending n (insert_by_from r rest)
unfolding insert_by_from
insert_by_from-IsAscending n r [] h a = (h, tt)
insert_by_from-IsAscending n r (s ∷ rest) h a =
    ground (arith, insert_by_from-IsAscending s.from r rest)

pub sort_by_from-IsAscending : (ranges : List Range) → IsAscending 0 (sort_by_from ranges)
unfolding sort_by_from
sort_by_from-IsAscending [] = tt
sort_by_from-IsAscending (r ∷ rest) =
    insert_by_from-IsAscending 0 r (sort_by_from rest) (omega arith) (sort_by_from-IsAscending rest)

pub IsAscending-mono :
    {m n : ℕ} (rest : List Range) → m ≤ n → IsAscending n rest → IsAscending m rest
IsAscending-mono [] h a = tt
IsAscending-mono (r ∷ rest) h a = (omega arith, a.1)

-- Two ranges that touch have the ports of the range that spans them.
contains_joined :
    (r s : Range) (p : ℕ)
    → r.from ≤ s.from
    → s.from ≤ r.to + 1
    → contains (record r { to = max r.to s.to }) p ≡ (contains r p || contains s p)
contains_joined r s p h k = ground arith

covers-merge_loop :
    (previous : Range) (rest : List Range) (p : ℕ)
    → IsAscending previous.from rest
    → covers (merge_loop previous rest) p ≡ (contains previous p || covers rest p)
unfolding merge_loop
covers-merge_loop previous [] p a = refl
covers-merge_loop previous (current ∷ rest) p (h, a) = ground (
  arith,
  contains_joined previous current p,
  covers-merge_loop (record previous { to = max previous.to current.to }) rest p,
  covers-merge_loop current rest p a,
  IsAscending-mono {m = previous.from} {n = current.from} rest,
)

covers-merge_sorted :
    (ranges : List Range) (p : ℕ)
    → IsAscending 0 ranges
    → covers (merge_sorted ranges) p ≡ covers ranges p
unfolding merge_sorted
covers-merge_sorted [] p a = refl
covers-merge_sorted (first ∷ rest) p a = covers-merge_loop first rest p a.1

-- `Merge` changes no port's membership.
pub covers-merge : (ranges : List Range) (p : ℕ) → covers (merge ranges) p ≡ covers ranges p
unfolding merge
covers-merge ranges p =
    covers-merge_sorted (sort_by_from ranges) p (sort_by_from-IsAscending ranges)
    ∙ covers-sort_by_from ranges p

covers-without_one :
    (r : Range) (port p : ℕ)
    → covers (without_one r port) p ≡ (contains r p && not (nat_beq p port))
unfolding without_one
covers-without_one r port p = ground arith

-- `Without` removes the given port from the set, and no other.
pub covers-without :
    (ranges : List Range) (port p : ℕ)
    → covers (without ranges port) p ≡ (covers ranges p && not (nat_beq p port))
unfolding without
covers-without [] port p = refl
covers-without (r ∷ rest) port p =
    any-append (λ s. contains s p) (without_one r port) (without rest port)
    ∙ ground (arith, covers-without_one r port p, covers-without rest port p)
