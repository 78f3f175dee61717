-- ===== src/PortSet/Accept.antt =====
-- What `Parse` accepts.
use yz_agent.Prelude.{ℕ, ◌≤◌, max, ◌≡◌, refl, true, List, [], ◌∷◌, arith, All}
use yz_agent.PortSet.{Range, merge, valid, merge_loop, merge_sorted, sort_by_from, insert_by_from}
use yz_agent.PortSet.Parse.{
  Result, ok, err, ◌>>=◌, parse_port, item_parts, parse_item, parse_items, parse, split, trim_space,
}
use yz_agent.PortSet.Canonical.{IsApart, IsOrdered, merge-IsApart}

abbrev pub IsValid : Range → Type 0
IsValid r = valid r ≡ true

parse_port_range : (raw : List ℕ) (n : ℕ) → parse_port raw ≡ ok n → (1 ≤ n) × (n ≤ 65535)
unfolding parse_port
parse_port_range raw n h = ground arith

item_parts-IsValid : (parts : List (List ℕ)) (r : Range) → item_parts parts ≡ ok r → IsValid r
item_parts-IsValid [] r h = cc
item_parts-IsValid (a ∷ []) r h = ground (arith, parse_port_range a r.from)
item_parts-IsValid (a ∷ b ∷ []) r h =
    ground (arith, parse_port_range a r.from, parse_port_range b r.to)
item_parts-IsValid (a ∷ b ∷ c ∷ rest) r h = cc

parse_item-IsValid : (item : List ℕ) (r : Range) → parse_item item ≡ ok r → IsValid r
unfolding parse_item
parse_item-IsValid item r h = item_parts-IsValid (split b'-' (trim_space item)) r h

parse_items-IsValid :
    (items : List (List ℕ)) (rs : List Range) → parse_items items ≡ ok rs → All IsValid rs
unfolding parse_items
parse_items-IsValid [] [] h = tt
parse_items-IsValid [] (r ∷ rs) h = cc
parse_items-IsValid (item ∷ items) [] h = ground arith
parse_items-IsValid (item ∷ items) (r ∷ rs) h =
    ground (arith, parse_item-IsValid item r, parse_items-IsValid items rs)

insert_by_from-IsValid :
    (r : Range) (rest : List Range)
    → IsValid r
    → All IsValid rest
    → All IsValid (insert_by_from r rest)
unfolding insert_by_from
insert_by_from-IsValid r [] h a = (h, tt)
insert_by_from-IsValid r (s ∷ rest) h a = ground (arith, insert_by_from-IsValid r rest h a.1)

sort_by_from-IsValid : (rs : List Range) → All IsValid rs → All IsValid (sort_by_from rs)
unfolding sort_by_from
sort_by_from-IsValid [] a = tt
sort_by_from-IsValid (r ∷ rest) a =
    insert_by_from-IsValid r (sort_by_from rest) a.0 (sort_by_from-IsValid rest a.1)

joined-IsValid : (r s : Range) → IsValid r → IsValid s → IsValid (record r { to = max r.to s.to })
joined-IsValid r s h k = ground arith

merge_loop-IsValid :
    (previous : Range) (rest : List Range)
    → IsValid previous
    → All IsValid rest
    → All IsValid (merge_loop previous rest)
unfolding merge_loop
merge_loop-IsValid previous [] h a = (h, tt)
merge_loop-IsValid previous (current ∷ rest) h (hc, a) = ground (
  arith,
  joined-IsValid previous current h hc,
  merge_loop-IsValid (record previous { to = max previous.to current.to }) rest,
  merge_loop-IsValid current rest hc a,
)

merge_sorted-IsValid : (rs : List Range) → All IsValid rs → All IsValid (merge_sorted rs)
unfolding merge_sorted
merge_sorted-IsValid [] a = tt
merge_sorted-IsValid (r ∷ rest) a = merge_loop-IsValid r rest a.0 a.1

merge-IsValid : (rs : List Range) → All IsValid rs → All IsValid (merge rs)
unfolding merge
merge-IsValid rs a = merge_sorted-IsValid (sort_by_from rs) (sort_by_from-IsValid rs a)

IsValid-IsOrdered : (rs : List Range) → All IsValid rs → All IsOrdered rs
IsValid-IsOrdered [] a = tt
IsValid-IsOrdered (r ∷ rs) (h, a) = (ground arith, IsValid-IsOrdered rs a)

-- Whatever text `Parse` accepts, each range that it returns lies within 1 to 65535 and is not
-- empty, and the ranges ascend with a free port between any two.
pub parse_sound :
    (raw : List ℕ) (rs : List Range) → parse raw ≡ ok rs → All IsValid rs × IsApart 0 rs
unfolding parse
parse_sound raw rs h =
    go (parse_items (split b',' raw)) (λ items e. parse_items-IsValid (split b',' raw) items e) h
  where
    go :
        (m : Result (List Range))
        → ((items : List Range) → m ≡ ok items → All IsValid items)
        → (m >>= λ ranges. ok (merge ranges)) ≡ ok rs
        → All IsValid rs × IsApart 0 rs
    go (ok items) sound e =
        let a = sound items refl in
        let same : merge items ≡ rs = cc in
        rw (← same) (merge-IsValid items a, merge-IsApart items (IsValid-IsOrdered items a))
    go (err x) sound e = cc
