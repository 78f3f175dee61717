-- ===== src/Selector/Examples.antt =====
-- Tests of the selector, and the theorems at concrete inputs.
use yz_agent.Prelude.{ℕ, ◌+◌, ◌%◌, ◌^◌, ◌≡◌, refl, Bool, true, false, List, [], ◌∷◌, some, arith}
use yz_agent.Selector.{Target, Selector, update, new_selector, pick, nth, eligible, accepts}
use yz_agent.Selector.Address.{is_address}
use yz_agent.Selector.Picked.{IsPicked, pick-IsPicked}
use yz_agent.Selector.Rotation.{picks, pick-picks}

-- "a:80", "b:80" and "[::1]:443".
abbrev a80 : List ℕ
a80 = b'a' ∷ b':' ∷ b'8' ∷ b'0' ∷ []

abbrev b80 : List ℕ
b80 = b'b' ∷ b':' ∷ b'8' ∷ b'0' ∷ []

abbrev local : List ℕ
local = b'[' ∷ b':' ∷ b':' ∷ b'1' ∷ b']' ∷ b':' ∷ b'4' ∷ b'4' ∷ b'3' ∷ []

local-is_address : is_address local ≡ true
unfolding is_address yz_agent.PortSet.Parse.atoi
local-is_address = refl

two_colons : is_address (b'a' ∷ b':' ∷ a80) ≡ false
unfolding is_address yz_agent.PortSet.Parse.atoi
two_colons = refl

abbrev target : ℕ → List ℕ → ℕ → Bool → Target
target id address priority online = record {
  id = id;
  address = address;
  priority = priority;
  online = online;
}

abbrev pool : List Target
pool = target 3 local 2 true ∷ target 2 b80 1 true ∷ target 1 a80 1 true ∷ []

abbrev empty : Selector
empty = record { targets = []; cursors = [] }

abbrev ready : Selector
ready = record {
  targets = target 1 a80 1 true ∷ target 2 b80 1 true ∷ target 3 local 2 true ∷ [];
  cursors = [];
}

update-pool : update pool empty ≡ some ready
unfolding update is_address yz_agent.PortSet.Parse.atoi yz_agent.Selector.Address.same_address
update-pool = refl

pick-IsPicked_example : IsPicked (1 ∷ []) pool (pick (1 ∷ []) ready).1
pick-IsPicked_example = pick-IsPicked pool empty ready (1 ∷ []) update-pool

eligible-ready : eligible [] ready.targets ≡ target 1 a80 1 true ∷ target 2 b80 1 true ∷ []
unfolding eligible
eligible-ready = refl

pick-picks_example :
    (pick [] (picks 3 [] ready)).1
    ≡ nth (target 1 a80 1 true ∷ target 2 b80 1 true ∷ []) ((0 + 3) % 2 ^ 64 % 2)
pick-picks_example =
    pick-picks 3 [] ready (target 1 a80 1 true) (target 2 b80 1 true ∷ []) eligible-ready
      (omega arith)
