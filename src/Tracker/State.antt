-- ===== src/Tracker/State.antt =====
-- `Tracker` and its methods. Sets of addresses are lists; what `deviceip.PublicAddress` makes of an
-- address and the division of `perSecond`, which is done in float64, are parameters.
use yz_agent.Prelude.{
  ℕ, ◌+◌, ◌%◌, Bool, true, false, not, ◌&&◌, String, List, [], ◌∷◌, ◌==◌, nat_eq, string_eq,
  if◌then◌else◌, Option, none, some, lookup, insert, length, any,
}
use yz_agent.Tracker.Word.{zero_pair, word}
use yz_agent.Tracker.Book.{Traffic, Book, process_all, advances, cycle, restore_all}

abbrev pub NestedTraffic : Type 0
NestedTraffic = List (ℕ × Traffic)

abbrev pub Addresses : Type 0
Addresses = List (ℕ × List String)

pub record Live : Type 0 where
  pub alive_ips : Addresses
  pub online : List (ℕ × ℕ)
  pub conn_count : ℕ
  pub in_speed : ℕ
  pub out_speed : ℕ

pub record Connections : Type 0 where
  pub users : List (ℕ × ℕ)
  pub relay : List (ℕ × List (ℕ × ℕ))

pub record Tracker : Type 0 where
  pub revision : ℕ
  pub users : Book
  pub relay : Book
  pub last_relay_user : NestedTraffic
  pub pending_relay_user : NestedTraffic
  pub relay_alive : Option (List (ℕ × Addresses))
  pub connections : Option Connections
  pub live : Live
  pub last_process : ℕ

abbrev pub empty_book : Book
empty_book = record { last = []; pending = [] }

unfoldable pub new : ℕ → Tracker
new now = record {
  revision = 0;
  users = empty_book;
  relay = empty_book;
  last_relay_user = [];
  pending_relay_user = [];
  relay_alive = none;
  connections = none;
  live = record { alive_ips = []; online = []; conn_count = 0; in_speed = 0; out_speed = 0 };
  last_process = now;
}

abbrev pub online_counts : Addresses → List (ℕ × ℕ)
online_counts [] = []
online_counts ((uid, ips) ∷ rest) = (uid, length ips) ∷ online_counts rest

-- `perSecond`, of bytes that are not positive and of the division.
abbrev pub PerSecond : Type 0
PerSecond = ℕ → ℕ → ℕ → ℕ

unfoldable pub process : PerSecond → Traffic → Addresses → ℕ → ℕ → Tracker → Tracker
process per_second cum alive conn_count now t =
    let sums = cycle cum t.users zero_pair in
    record t {
      revision = (t.revision + advances cum t.users) % word;
      users = process_all cum t.users;
      live = record {
        alive_ips = alive;
        online = online_counts alive;
        conn_count = conn_count;
        in_speed = per_second sums.down t.last_process now;
        out_speed = per_second sums.up t.last_process now;
      };
      last_process = now;
    }

abbrev pub advance : Tracker → Tracker
advance t = record t { revision = (t.revision + 1) % word }

-- The flush of one map of pending traffic.
abbrev pub flush_book : Book → Book
flush_book b = record b { pending = [] }

unfoldable pub flush_traffic : Tracker → Tracker × Traffic
flush_traffic t = (advance (record t { users = flush_book t.users }), t.users.pending)

unfoldable pub restore_traffic : Traffic → Tracker → Tracker
restore_traffic batch t =
    advance (record t { users = record (t.users) { pending = restore_all batch t.users.pending } })

abbrev pub is_empty {ℓ} : {A : Type ℓ} → List A → Bool
is_empty [] = true
is_empty (x ∷ xs) = false

unfoldable pub has_traffic : Tracker → Bool
has_traffic t = not (is_empty t.users.pending)

unfoldable pub process_relay : Traffic → Tracker → Tracker
process_relay cum t = if is_empty cum then t else record t {
  revision = (t.revision + advances cum t.relay) % word;
  relay = process_all cum t.relay;
}

abbrev pub or_nil {ℓ} : {A : Type ℓ} → List A → Option (List A)
or_nil xs = if is_empty xs then none else some xs

unfoldable pub flush_relay_traffic : Tracker → Tracker × Option Traffic
flush_relay_traffic t = (advance (record t { relay = flush_book t.relay }), or_nil t.relay.pending)

unfoldable pub restore_relay_traffic : Traffic → Tracker → Tracker
restore_relay_traffic batch t =
    if is_empty batch
    then t
    else advance
        (record t { relay = record (t.relay) { pending = restore_all batch t.relay.pending } })

abbrev pub inner : ℕ → NestedTraffic → Traffic
inner uid m = elim (lookup uid m) [ none ↦ [] | some nodes ↦ nodes ]

-- The book of one user of the relays.
abbrev pub user_book : ℕ → Tracker → Book
user_book uid t = record {
  last = inner uid t.last_relay_user;
  pending = inner uid t.pending_relay_user;
}

unfoldable pub process_user : ℕ → Traffic → Tracker → Tracker
process_user uid nodes t =
    let b = process_all nodes (user_book uid t) in
    record t {
      revision = (t.revision + advances nodes (user_book uid t)) % word;
      last_relay_user = insert uid b.last t.last_relay_user;
      pending_relay_user = insert uid b.pending t.pending_relay_user;
    }

unfoldable pub process_relay_user : NestedTraffic → Tracker → Tracker
unfolding process_user
process_relay_user [] t = t
process_relay_user ((uid, nodes) ∷ rest) t = process_relay_user rest (process_user uid nodes t)

unfoldable pub flush_relay_user_traffic : Tracker → Tracker × Option NestedTraffic
flush_relay_user_traffic t =
    (advance (record t { pending_relay_user = [] }), or_nil t.pending_relay_user)

unfoldable pub restore_users : NestedTraffic → NestedTraffic → NestedTraffic
restore_users [] m = m
restore_users ((uid, nodes) ∷ batch) m =
    restore_users batch (insert uid (restore_all nodes (inner uid m)) m)

unfoldable pub restore_relay_user_traffic : NestedTraffic → Tracker → Tracker
unfolding restore_users
restore_relay_user_traffic batch t =
    if is_empty batch
    then t
    else advance (record t { pending_relay_user = restore_users batch t.pending_relay_user })

abbrev pub drop_empty : NestedTraffic → NestedTraffic
drop_empty [] = []
drop_empty ((uid, nodes) ∷ rest) =
    if is_empty nodes then drop_empty rest else (uid, nodes) ∷ drop_empty rest

unfoldable pub pending_snapshot : Tracker → Option Traffic × Option Traffic × Option NestedTraffic
pending_snapshot t =
    (or_nil t.users.pending, or_nil t.relay.pending, or_nil (drop_empty t.pending_relay_user))

-- The loop over the addresses of one user: public ones, each once.
abbrev pub public_ips : (String → String) → List String → List String → List String
public_ips public seen [] = []
public_ips public seen (ip ∷ ips) =
    let key = public ip in
    let kept = key ∷ public_ips public (key ∷ seen) ips in
    let skipped = public_ips public seen ips in
    if not (key == "") && not (any (λ k. k == key) seen) then kept else skipped

abbrev pub public_devices : (String → String) → Addresses → Addresses
public_devices public [] = []
public_devices public ((uid, ips) ∷ rest) =
    let buf = public_ips public [] ips in
    let others = public_devices public rest in if is_empty buf then others else (uid, buf) ∷ others

unfoldable pub flush_alive_ips : (String → String) → Tracker → Addresses
flush_alive_ips public t = public_devices public t.live.alive_ips

unfoldable pub current_online : Tracker → List (ℕ × ℕ)
current_online t = t.live.online

unfoldable pub process_connection_counts :
    List (ℕ × ℕ) → List (ℕ × List (ℕ × ℕ)) → Tracker → Tracker
process_connection_counts users relay t = record t {
  connections = some (record { users = users; relay = relay });
}

unfoldable pub process_relay_alive : List (ℕ × Addresses) → Tracker → Tracker
process_relay_alive alive t = record t { relay_alive = some alive }

-- Nothing before the first sample.
unfoldable pub current_connection_counts :
    Tracker → Option (List (ℕ × ℕ)) × Option (List (ℕ × List (ℕ × ℕ)))
current_connection_counts t = elim t.connections [
  | none ↦ (none, none)
  | some current ↦ (some current.users, some current.relay)
]

unfoldable pub active_connections : Tracker → ℕ
active_connections t = t.live.conn_count

unfoldable pub inbound_speed : Tracker → ℕ
inbound_speed t = t.live.in_speed

unfoldable pub outbound_speed : Tracker → ℕ
outbound_speed t = t.live.out_speed

-- The nodes with an address, of one user; `sort` is `sort.Strings`.
abbrev pub sorted_nodes : (List String → List String) → Addresses → Addresses
sorted_nodes sort [] = []
sorted_nodes sort ((node_id, ips) ∷ nodes) =
    let rest = sorted_nodes sort nodes in if is_empty ips then rest else (node_id, sort ips) ∷ rest

abbrev pub sorted_users : (List String → List String) → List (ℕ × Addresses) → List (ℕ × Addresses)
sorted_users sort [] = []
sorted_users sort ((uid, nodes) ∷ alive) =
    let found = sorted_nodes sort nodes in
    let rest = sorted_users sort alive in if is_empty found then rest else (uid, found) ∷ rest

abbrev pub alive_or_nil {ℓ} : {A : Type ℓ} → Option (List A) → List A
alive_or_nil none = []
alive_or_nil (some alive) = alive

unfoldable pub relay_user_alive :
    (List String → List String) → Tracker → Option (List (ℕ × Addresses))
relay_user_alive sort t = or_nil (sorted_users sort (alive_or_nil t.relay_alive))
