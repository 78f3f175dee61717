-- ===== src/DeviceGate/Revoke.antt =====
-- Sources retired and revoked: manager.go and lease_cache.go.
use yz_agent.Prelude.{
  ℕ, ◌+◌, ◌*◌, max, String, Bool, true, false, not, ◌&&◌, ◌||◌, List, [], ◌∷◌, ◌++◌, ◌==◌, nat_eq,
  string_eq, leb, ltb, if◌then◌else◌, Option, none, some, lookup, insert, erase, second,
}
use Prim.Native.Char.{code}
use yz_agent.DeviceGate.Types.{
  SourceKey, Revocation, SourceState, Permit, RetiredSource, RevokedLease, Manager, is_empty,
  source_of, update_source, key_eq,
}

abbrev pub lease_grace : ℕ
lease_grace = 3600 * second

abbrev is_hex : ℕ → Bool
is_hex c = (leb b'0' c && leb c b'9') || (leb b'a' c && leb c b'f') || (leb b'A' c && leb c b'F')

abbrev all_hex : String → Bool
all_hex String.[] = true
all_hex (String.◌∷◌ c s) = is_hex (code c) && all_hex s

abbrev size : String → ℕ
size String.[] = 0
size (String.◌∷◌ c s) = size s + 1

-- A text of digits has as many bytes as characters.
unfoldable pub valid_lease : String → Bool
valid_lease s = size s == 32 && all_hex s

-- The run of a record that has none.
abbrev settled : Revocation → String → Option RetiredSource → Revocation
settled item run none = record item { run = run }
settled item run (some previous) = previous.item

abbrev pub identified : Revocation → Manager → Revocation
identified item m =
    if item.run == "" then settled item m.run (lookup item.lease m.retired) else item

unfoldable pub retire : Revocation → Manager → Manager
retire given m =
    let item = identified given m in
    record m {
      seq = m.seq + 1;
      retired = insert item.lease (record { item = item; sequence = m.seq + 1 }) m.retired;
    }

unfoldable pub remove_source : SourceState → Manager → Manager
remove_source s m =
    retire
      (record {
        run = s.run;
        confirmed_sequence = s.lease_sequence;
        user_id = s.key.user;
        ip = s.key.ip;
        lease = s.lease;
      })
      (record m { sources = erase s.key m.sources })

-- `delete(m.revoked, lease)` of the records that are over.
abbrev pub current_records : ℕ → List (String × RevokedLease) → List (String × RevokedLease)
current_records now [] = []
current_records now ((lease, r) ∷ rest) =
    let others = current_records now rest in if ltb r.until now then others else (lease, r) ∷ others

abbrev pub key_of : Revocation → SourceKey
key_of item = record { user = item.user_id; ip = item.ip }

abbrev pub handled : Option RevokedLease → ℕ
handled none = 0
handled (some r) = r.sequence

abbrev seen : ℕ → Option RevokedLease → Bool
seen sequence none = false
seen sequence (some r) = leb sequence r.sequence

abbrev confirmed_later : ℕ → String → Option (ℕ × SourceState) → Bool
confirmed_later sequence lease none = false
confirmed_later sequence lease (some (n, s)) = s.lease == lease && ltb sequence s.confirmed_sequence

-- A revocation that something newer has overtaken.
abbrev pub overtaken : ℕ → Revocation → Option (ℕ × SourceState) → Option RevokedLease → Bool
overtaken sequence item found previous =
    not (sequence == 0) && (seen sequence previous || confirmed_later sequence item.lease found)

unfoldable pub record_revoked : ℕ → ℕ → Revocation → Manager → Manager
record_revoked now sequence item m = record m {
  seq = m.seq + 1;
  revoked =
      insert item.lease
        (record {
          until = now + (lease_grace + 60 * second);
          barrier = m.seq + 1;
          sequence = max sequence (handled (lookup item.lease m.revoked));
        })
        m.revoked;
}

abbrev pub retire_unknown : Revocation → Manager → Manager
retire_unknown item m = if m.lease_cache then retire item m else m

unfoldable pub mark_revoked : SourceState → SourceState
mark_revoked s = record s { revoked = true }

-- The source revoked, and removed when no connection has it.
unfoldable pub close_source : ℕ → SourceState → Manager → Manager × List ℕ
close_source n s m =
    let marked = update_source n mark_revoked m in
    (if is_empty s.permits then remove_source s marked else marked, s.permits)

unfoldable pub revoke_source : Revocation → Option (ℕ × SourceState) → Manager → Manager × List ℕ
revoke_source item none m = (retire_unknown item m, [])
revoke_source item (some (n, s)) m =
    if s.lease == item.lease then close_source n s m else (retire_unknown item m, [])

unfoldable pub revoke_item : ℕ → ℕ → Revocation → Manager → Manager × List ℕ
revoke_item now sequence item m =
    let found = source_of (key_of item) m in
    if item.user_id == 0
      || not (valid_lease item.lease)
      || overtaken sequence item found (lookup item.lease m.revoked)
    then (m, [])
    else revoke_source item found (record_revoked now sequence item m)

unfoldable pub revoke_items : ℕ → ℕ → List Revocation → Manager → Manager × List ℕ
revoke_items now sequence [] m = (m, [])
revoke_items now sequence (item ∷ items) m =
    let (m1, permits) = revoke_item now sequence item m in
    let (m2, others) = revoke_items now sequence items m1 in (m2, permits ++ others)

-- `revokeLocked`: the permits are to be closed when the lock is free.
unfoldable pub revoke_locked : ℕ → List Revocation → ℕ → Manager → Manager × List ℕ
revoke_locked now items sequence m =
    revoke_items now sequence items (record m { revoked = current_records now m.revoked })

-- `Permit.revoke`; its own closing is called when it is bound.
abbrev closed : ℕ → Option Permit → Manager → Manager
closed p none m = m
closed p (some q) m = record m {
  permit_heap = insert p (record q { closing = true; bound = false }) m.permit_heap;
}

unfoldable pub revoke_permit : ℕ → Manager → Manager
revoke_permit p m = closed p (lookup p m.permit_heap) m

unfoldable pub revoke_permits : List ℕ → Manager → Manager
revoke_permits [] m = m
revoke_permits (p ∷ ps) m = revoke_permits ps (revoke_permit p m)

-- `applyRevocations`
unfoldable pub apply_revocations : ℕ → List Revocation → ℕ → String → Manager → Manager
apply_revocations now items sequence run m =
    if not (run == "") && not (m.run == run)
    then m
    else let (m1, permits) = revoke_locked now items sequence m in revoke_permits permits m1

abbrev pub close_at : ℕ → Option SourceState → Manager → Manager × List ℕ
close_at n none m = (m, [])
close_at n (some s) m = close_source n s m

unfoldable pub close_sources : List (SourceKey × ℕ) → Manager → Manager × List ℕ
close_sources [] m = (m, [])
close_sources ((key, n) ∷ rest) m =
    let (m1, permits) = close_at n (lookup n m.source_heap) m in
    let (m2, others) = close_sources rest m1 in (m2, permits ++ others)

-- `closeAll`
unfoldable pub close_all : Manager → Manager
close_all m = let (m1, permits) = close_sources m.sources m in revoke_permits permits m1
