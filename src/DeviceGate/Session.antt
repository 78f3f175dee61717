-- ===== src/DeviceGate/Session.antt =====
-- The session with the panel: `begin`, `Snapshot`, `confirmSnapshot`, `loseSession`, `Stop` and the two
-- halves of `syncAtLeast`, before and after the call of the panel.
use yz_agent.Prelude.{
  ℕ, ◌+◌, ◌-◌, ◌/◌, max, String, Bool, true, false, not, ◌&&◌, ◌||◌, List, [], ◌∷◌, map, ◌==◌,
  nat_eq, string_eq, leb, ltb, if◌then◌else◌, Option, none, some, select,
}
use Prim.Native.Nat.{Ordering}
use Prim.Native.String.{compare}
use yz_agent.DeviceGate.Types.{
  Revocation, SourceState, RetiredSource, SourceItem, Snapshot, Manager, is_empty,
}
use yz_agent.DeviceGate.Revoke.{apply_revocations, close_all}
use yz_agent.DeviceGate.Lease.{
  GateError, session_lost, snapshot_required, not_ready, invalid, cancelled, transport, sources_in,
}
use yz_agent.DeviceGate.Sync.{SyncReply, accept_leases}

abbrev pub start_run : Option String → Manager → Manager × Option GateError
start_run none m = (m, some transport)
start_run (some run) m =
    (record m { run = run; permission_barriers = []; confirmed = none; base_sequence = 0 }, none)

-- `begin` before its call of the panel, with the run that it would draw.
unfoldable pub begin_start : Option String → Manager → Manager × Option GateError
begin_start fresh m =
    if m.closing || not (is_empty m.sources) || not (is_empty m.flights)
    then (m, some not_ready)
    else if m.run == ""
    then start_run fresh m
    else (record m { confirmed = none; base_sequence = 0 }, none)

pub record BeginReply : Type 0 where
  pub version : ℕ
  pub run : String
  pub lease_cache : ℕ

-- `begin` after its call, with the run it asked for.
unfoldable pub begin_end : String → BeginReply → Manager → Manager × Option GateError
begin_end run reply m =
    if not (reply.version == 1) || not (reply.run == run)
    then (m, some invalid)
    else (record m { ready = not m.closing; lease_cache = reply.lease_cache == 1 }, none)

module _ {A : Type 0} (before : A → A → Bool) where
  abbrev insert_sorted : A → List A → List A
  insert_sorted x [] = x ∷ []
  insert_sorted x (y ∷ ys) = if before y x then y ∷ insert_sorted x ys else x ∷ y ∷ ys

  -- `sort.Slice`
  unfoldable pub sort_by : List A → List A
  sort_by [] = []
  sort_by (x ∷ xs) = insert_sorted x (sort_by xs)

abbrev text_before : String → String → Bool
text_before s t = elim (compare s t) [ Ordering.lt ↦ true | _ ↦ false ]

abbrev source_item : ℕ → SourceState → SourceItem
source_item now s = record {
  user_id = s.key.user;
  ip = s.key.ip;
  lease = s.lease;
  connect_sequence = s.sequence;
  age_ms = (now - s.connected) / 1000000;
}

-- `Snapshot`
unfoldable pub snapshot : ℕ → Manager → Manager × Snapshot
snapshot now m = (
  record m { seq = m.seq + 1 },
  record {
    lease_cache = m.lease_cache;
    unchanged = false;
    base_sequence = 0;
    run = m.run;
    sequence = m.seq + 1;
    pending = sort_by ltb (map (λ f. f.1.sequence) m.flights);
    sources =
        sort_by (λ a b. text_before a.lease b.lease)
          (map (source_item now)
            (select (λ s. not (is_empty s.permits)) (sources_in m.sources m.source_heap)));
    retired = sort_by (λ a b. text_before a.lease b.lease) (map (λ r. r.1.item) m.retired);
  },
)

abbrev pub confirmed_retired : ℕ → ℕ → List (String × RetiredSource) → List (String × RetiredSource)
confirmed_retired sequence user [] = []
confirmed_retired sequence user ((lease, r) ∷ rest) =
    let others = confirmed_retired sequence user rest in
    if leb r.sequence sequence && (user == 0 || r.item.user_id == user)
    then others
    else (lease, r) ∷ others

-- `confirmSnapshot`; user 0 stands for every user.
unfoldable pub confirm_snapshot : Snapshot → ℕ → Manager → Manager
confirm_snapshot snap user m = if not m.ready || not (m.run == snap.run) then m else record m {
  synced = max m.synced snap.sequence;
  retired = confirmed_retired snap.sequence user m.retired;
}

-- `loseSession`
unfoldable pub lose_session : String → Manager → Manager
lose_session run m =
    if m.run == run then close_all (record m { ready = false; run = ""; synced = 0 }) else m

-- `Stop`: the flags, before everything is closed.
unfoldable pub stop_start : Manager → Manager
stop_start m = record m { closing = true; ready = false }

module _ {A : Type 0} (same : A → A → Bool) where
  abbrev same_list : List A → List A → Bool
  same_list [] [] = true
  same_list (x ∷ xs) (y ∷ ys) = same x y && same_list xs ys
  same_list [] (y ∷ ys) = false
  same_list (x ∷ xs) [] = false

abbrev same_item : SourceItem → SourceItem → Bool
same_item a b =
    a.user_id == b.user_id
    && a.ip == b.ip
    && a.lease == b.lease
    && a.connect_sequence == b.connect_sequence

abbrev same_revocation : Revocation → Revocation → Bool
same_revocation a b =
    a.run == b.run
    && a.confirmed_sequence == b.confirmed_sequence
    && a.user_id == b.user_id
    && a.ip == b.ip
    && a.lease == b.lease

-- `sameSnapshot`: the ages of the sources do not count.
unfoldable pub same_snapshot : Option Snapshot → Snapshot → Bool
same_snapshot none current = false
same_snapshot (some previous) current =
    previous.run == current.run
    && same_list (λ a b. a == b) previous.pending current.pending
    && same_list same_revocation previous.retired current.retired
    && same_list same_item previous.sources current.sources

-- `covered` of `syncAtLeast`
unfoldable pub is_covered : ℕ → Manager → Bool
is_covered required m = not (required == 0) && leb required m.synced

-- The snapshot as `syncAtLeast` first sends it, when the panel takes renewals or not.
unfoldable pub wire_of : Bool → Snapshot → Manager → Snapshot
wire_of renewal snap m =
    if renewal && ltb 0 m.base_sequence && same_snapshot m.confirmed snap
    then record {
      lease_cache = snap.lease_cache;
      unchanged = true;
      base_sequence = m.base_sequence;
      run = snap.run;
      sequence = snap.sequence;
      pending = [];
      sources = [];
      retired = [];
    }
    else snap

-- What a call of the panel returns.
pub data Answer (R : Type 0) : Type 0 where
  failed_with : GateError → Answer R
  answered : R → Answer R

abbrev asks_again : {R : Type 0} → Answer R → Bool
asks_again (failed_with snapshot_required) = true
asks_again _ = false

-- The snapshot sent again in full when the panel asks for it.
unfoldable pub wire_again : Snapshot → Snapshot → Answer SyncReply → Snapshot
wire_again snap wire answer = if wire.unchanged && asks_again answer then snap else wire

unfoldable pub note_error : GateError → String → Manager → Manager
note_error session_lost run m = lose_session run m
note_error _ run m = m

abbrev pub forget_base : GateError → Manager → Manager
forget_base session_lost m = record m { confirmed = none; base_sequence = 0 }
forget_base _ m = m

abbrev pub leases_of :
    (String → String) → ℕ → SyncReply → ℕ → Snapshot → Manager → Manager × Option GateError
leases_of public now reply started snap m =
    if snap.lease_cache
    then if reply.lease_cache
      then accept_leases public now reply snap.sequence started m
      else (m, some invalid)
    else (m, none)

abbrev pub sync_confirmed :
    ℕ → Snapshot → Snapshot → SyncReply → Manager × Option GateError → Manager × Option GateError
sync_confirmed now snap wire reply (m, some e) = (m, some e)
sync_confirmed now snap wire reply (m, none) =
    let m1 = record m {
      confirmed = some snap;
      base_sequence = if wire.unchanged then m.base_sequence else snap.sequence;
    } in
    let m2 = confirm_snapshot snap 0 m1 in
    (if snap.lease_cache then m2 else apply_revocations now reply.revoked 0 "" m2, none)

-- `syncAtLeast` after its last call of the panel.
unfoldable pub sync_end :
    (String → String)
    → ℕ
    → ℕ
    → Bool
    → Snapshot
    → Snapshot
    → Answer SyncReply
    → Manager
    → Manager × Option GateError
sync_end public now started ended snap wire (failed_with e) m =
    (forget_base e (note_error e snap.run m), some e)
sync_end public now started ended snap wire (answered reply) m =
    if ended
    then (apply_revocations now reply.revoked snap.sequence snap.run m, some cancelled)
    else if not (reply.run == snap.run) || not (reply.sequence == snap.sequence)
    then (m, some invalid)
    else sync_confirmed now snap wire reply (leases_of public now reply started snap m)
