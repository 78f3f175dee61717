-- ===== src/Pending/Delta.antt =====
-- The difference of two states of the pending traffic, and its replay. A pair of int64 is a pair of bit
-- patterns, as in the tracker, whose maps these are.
use yz_agent.Prelude.{
  ℕ, Bool, not, ◌&&◌, ◌||◌, [], ◌∷◌, ◌++◌, ◌==◌, nat_eq, if◌then◌else◌, Option, none, some, insert,
  erase, has_key,
}
use yz_agent.Tracker.Word.{Pair, zero_pair, add_pair, sub64, is_negative}
use yz_agent.Tracker.Book.{Traffic, get}
use yz_agent.Tracker.State.{NestedTraffic, inner, is_empty}

pub record PendingTraffic : Type 0 where
  pub traffic : Traffic
  pub relay : Traffic
  pub relay_user : NestedTraffic

abbrev pub nothing : PendingTraffic
nothing = record { traffic = []; relay = []; relay_user = [] }

unfoldable pub is_nothing : PendingTraffic → Bool
is_nothing p = is_empty p.traffic && is_empty p.relay && is_empty p.relay_user

abbrev pub same_pair : Pair → Pair → Bool
same_pair a b = a.up == b.up && a.down == b.down

unfoldable pub sub_pair : Pair → Pair → Pair
unfolding sub64
sub_pair a b = record { up = sub64 a.up b.up; down = sub64 a.down b.down }

-- The first loop of `diffTraffic`, over `after`.
unfoldable pub changes : Traffic → Traffic → Traffic
unfolding sub_pair
changes before [] = []
changes before ((id, v) ∷ after) =
    let rest = changes before after in
    let old = get id before in if same_pair v old then rest else (id, sub_pair v old) ∷ rest

-- The second, over `before`.
unfoldable pub removals : Traffic → Traffic → Traffic
unfolding sub_pair
removals after [] = []
removals after ((id, v) ∷ before) =
    let rest = removals after before in
    if not (has_key id after) && not (same_pair v zero_pair)
    then (id, sub_pair zero_pair v) ∷ rest
    else rest

unfoldable pub diff_traffic : Traffic → Traffic → Traffic
unfolding changes removals
diff_traffic before after = changes before after ++ removals after before

-- The loops of `diffPending`.
unfoldable pub user_changes : NestedTraffic → NestedTraffic → NestedTraffic
unfolding diff_traffic
user_changes before [] = []
user_changes before ((uid, nodes) ∷ after) =
    let rest = user_changes before after in
    let diff = diff_traffic (inner uid before) nodes in
    if is_empty diff then rest else (uid, diff) ∷ rest

unfoldable pub user_removals : NestedTraffic → NestedTraffic → NestedTraffic
unfolding diff_traffic
user_removals after [] = []
user_removals after ((uid, nodes) ∷ before) =
    let rest = user_removals after before in
    if has_key uid after then rest else (uid, diff_traffic nodes []) ∷ rest

unfoldable pub diff_users : NestedTraffic → NestedTraffic → NestedTraffic
unfolding user_changes user_removals
diff_users before after = user_changes before after ++ user_removals after before

unfoldable pub diff_pending : PendingTraffic → PendingTraffic → PendingTraffic
unfolding diff_traffic diff_users
diff_pending before after = record {
  traffic = diff_traffic before.traffic after.traffic;
  relay = diff_traffic before.relay after.relay;
  relay_user = diff_users before.relay_user after.relay_user;
}

infixl 5 ◌>>=◌
abbrev pub ◌>>=◌ {ℓ κ} : {A : Type ℓ} {B : Type κ} → Option A → (A → Option B) → Option B
none >>= f = none
some a >>= f = f a

-- The body of the loop of `applyTrafficDelta`; none is its error.
unfoldable pub apply_one : ℕ → Pair → Traffic → Option Traffic
apply_one id v base =
    let next = add_pair (get id base) v in
    if is_negative next.up || is_negative next.down
    then none
    else if same_pair next zero_pair
    then some (erase id base)
    else some (insert id next base)

unfoldable pub apply_delta : Traffic → Traffic → Option Traffic
unfolding apply_one
apply_delta base [] = some base
apply_delta base ((id, v) ∷ delta) = apply_one id v base >>= λ next. apply_delta next delta

abbrev pub put_user : ℕ → Traffic → NestedTraffic → NestedTraffic
put_user uid nodes m = if is_empty nodes then erase uid m else insert uid nodes m

-- The loop of `replayJournal` over the users of a record.
unfoldable pub apply_users : NestedTraffic → NestedTraffic → Option NestedTraffic
unfolding apply_delta
apply_users base [] = some base
apply_users base ((uid, values) ∷ delta) =
    apply_delta (inner uid base) values >>= λ nodes. apply_users (put_user uid nodes base) delta

unfoldable pub apply_pending : PendingTraffic → PendingTraffic → Option PendingTraffic
unfolding apply_delta apply_users
apply_pending base delta = do
  traffic ← apply_delta base.traffic delta.traffic
  relay ← apply_delta base.relay delta.relay
  relay_user ← apply_users base.relay_user delta.relay_user
  some (record { traffic = traffic; relay = relay; relay_user = relay_user })
