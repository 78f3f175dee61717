-- ===== src/PortSet/Canonical.antt =====
-- The ranges that `Merge` returns are apart, in order, and a fixed point of it.
use yz_agent.Prelude.{ℕ, ◌+◌, ◌≤◌, max, ◌≡◌, refl, ap, ◌∙◌, List, [], ◌∷◌, arith, All}
use yz_agent.PortSet.{Range, insert_by_from, sort_by_from, merge_loop, merge_sorted, merge}
use yz_agent.PortSet.Cover.{IsAscending, IsAscending-mono, sort_by_from-IsAscending}

-- Each range starts at `n` or later, is not empty, and leaves a free port before the next.
abbrev pub IsApart : ℕ → List Range → Type 0
IsApart n [] = Unit {0}
IsApart n (r ∷ rest) = (n ≤ r.from) × (r.from ≤ r.to) × IsApart (r.to + 2) rest

abbrev pub IsOrdered : Range → Type 0
IsOrdered r = r.from ≤ r.to

insert_by_from-IsOrdered :
    (r : Range) (rest : List Range)
    → IsOrdered r
    → All IsOrdered rest
    → All IsOrdered (insert_by_from r rest)
unfolding insert_by_from
insert_by_from-IsOrdered r [] h a = (h, tt)
insert_by_from-IsOrdered r (s ∷ rest) h a = ground (arith, insert_by_from-IsOrdered r rest h a.1)

sort_by_from-IsOrdered :
    (ranges : List Range) → All IsOrdered ranges → All IsOrdered (sort_by_from ranges)
unfolding sort_by_from
sort_by_from-IsOrdered [] a = tt
sort_by_from-IsOrdered (r ∷ rest) a =
    insert_by_from-IsOrdered r (sort_by_from rest) a.0 (sort_by_from-IsOrdered rest a.1)

merge_loop-IsApart :
    (n : ℕ) (previous : Range) (rest : List Range)
    → n ≤ previous.from
    → IsOrdered previous
    → All IsOrdered rest
    → IsAscending previous.from rest
    → IsApart n (merge_loop previous rest)
unfolding merge_loop
merge_loop-IsApart n previous [] h o all a = (h, o, tt)
merge_loop-IsApart n previous (current ∷ rest) h o (oc, all) (hc, a) = ground (
  arith,
  merge_loop-IsApart n (record previous { to = max previous.to current.to }) rest,
  merge_loop-IsApart (previous.to + 2) current rest,
  IsAscending-mono {m = previous.from} {n = current.from} rest,
)

merge_sorted-IsApart :
    (ranges : List Range)
    → All IsOrdered ranges
    → IsAscending 0 ranges
    → IsApart 0 (merge_sorted ranges)
unfolding merge_sorted
merge_sorted-IsApart [] o a = tt
merge_sorted-IsApart (first ∷ rest) o a = merge_loop-IsApart 0 first rest (omega arith) o.0 o.1 a.1

-- The merged ranges of non-empty ranges are non-empty, ascending, and never touch one another.
pub merge-IsApart : (ranges : List Range) → All IsOrdered ranges → IsApart 0 (merge ranges)
unfolding merge
merge-IsApart ranges o =
    merge_sorted-IsApart (sort_by_from ranges) (sort_by_from-IsOrdered ranges o)
      (sort_by_from-IsAscending ranges)

sort_by_from_apart : (n : ℕ) (ranges : List Range) → IsApart n ranges → sort_by_from ranges ≡ ranges
unfolding sort_by_from
sort_by_from_apart n [] a = refl
sort_by_from_apart n (r ∷ []) a = unfold insert_by_from in refl
sort_by_from_apart n (r ∷ s ∷ rest) (h, o, a) =
    ap (insert_by_from r) (sort_by_from_apart (r.to + 2) (s ∷ rest) a)
    ∙ (unfold insert_by_from in ground arith)

merge_loop_apart :
    (n : ℕ) (r : Range) (rest : List Range) → IsApart n (r ∷ rest) → merge_loop r rest ≡ r ∷ rest
unfolding merge_loop
merge_loop_apart n r [] a = refl
merge_loop_apart n r (s ∷ rest) (h, o, a) = ground (arith, merge_loop_apart (r.to + 2) s rest a)

merge_sorted_apart : (n : ℕ) (ranges : List Range) → IsApart n ranges → merge_sorted ranges ≡ ranges
unfolding merge_sorted
merge_sorted_apart n [] a = refl
merge_sorted_apart n (r ∷ rest) a = merge_loop_apart n r rest a

-- Ranges that are already apart are left as they are.
pub merge_apart : (n : ℕ) (ranges : List Range) → IsApart n ranges → merge ranges ≡ ranges
unfolding merge
merge_apart n ranges a =
    ap merge_sorted (sort_by_from_apart n ranges a) ∙ merge_sorted_apart n ranges a

-- Merging twice is merging once.
pub merge-merge : (ranges : List Range) → All IsOrdered ranges → merge (merge ranges) ≡ merge ranges
merge-merge ranges o = merge_apart 0 (merge ranges) (merge-IsApart ranges o)
