-- ===== src/DeviceGate/Types.antt =====
-- The state of the gate.
use yz_agent.Prelude.{
  ℕ, ◌+◌, ◌≡◌, ◌↔◌, ap, any, String, Bool, true, false, not, ◌&&◌, List, [], ◌∷◌, ◌==◌, Eq, nat_eq,
  string_eq, Option, none, some, lookup, insert, arith,
}

pub record SourceKey : Type 0 where
  pub user : ℕ
  pub ip : String

abbrev pub same_key : SourceKey → SourceKey → Bool
same_key a b = a.user == b.user && a.ip == b.ip

key_eta : (a b : SourceKey) → a.user ≡ b.user → a.ip ≡ b.ip → a ≡ b
key_eta a b h k = λ i. record { user = h i; ip = k i }

pub same_key_iff : (a b : SourceKey) → (same_key a b ≡ true) ↔ (a ≡ b)
same_key_iff a b = (
  λ h.
      key_eta a b (ground (arith, nat_eq.beq_iff a.user b.user, h))
        (ground (arith, string_eq.beq_iff a.ip b.ip, h)),
  λ h. ground (
    arith,
    nat_eq.beq_iff a.user b.user,
    string_eq.beq_iff a.ip b.ip,
    ap (λ k. k.user) h,
    ap (λ k. k.ip) h,
  ),
)

instance abbrev pub key_eq : Eq SourceKey
key_eq = record { beq = same_key; beq_iff = same_key_iff }

pub record Revocation : Type 0 where
  pub run : String
  pub confirmed_sequence : ℕ
  pub user_id : ℕ
  pub ip : String
  pub lease : String

pub record Lease : Type 0 where
  pub confirmed_sequence : ℕ
  pub user_id : ℕ
  pub ip : String
  pub lease : String
  pub confirmed_at : ℕ
  pub expires_at : ℕ

-- `permits` holds the places of the permits.
pub record SourceState : Type 0 where
  pub run : String
  pub lease_sequence : ℕ
  pub key : SourceKey
  pub lease : String
  pub connected : ℕ
  pub sequence : ℕ
  pub revoked : Bool
  pub permits : List ℕ
  pub confirmed_at : ℕ
  pub expires_at : ℕ
  pub confirmed_sequence : ℕ
  pub omission_sequence : ℕ
  pub deadline : ℕ

pub record Permit : Type 0 where
  pub source : ℕ
  pub closing : Bool
  pub bound : Bool
  pub released : Bool

pub record Flight : Type 0 where
  pub sequence : ℕ
  pub waiters : List ℕ
  pub abandoned : Bool

pub record RetiredSource : Type 0 where
  pub item : Revocation
  pub sequence : ℕ

pub record RevokedLease : Type 0 where
  pub until : ℕ
  pub barrier : ℕ
  pub sequence : ℕ

-- `Source` of a snapshot.
pub record SourceItem : Type 0 where
  pub user_id : ℕ
  pub ip : String
  pub lease : String
  pub connect_sequence : ℕ
  pub age_ms : ℕ

pub record Snapshot : Type 0 where
  pub lease_cache : Bool
  pub unchanged : Bool
  pub base_sequence : ℕ
  pub run : String
  pub sequence : ℕ
  pub pending : List ℕ
  pub sources : List SourceItem
  pub retired : List Revocation

-- `next` is the next free place of the heaps of sources and of permits.
pub record Manager : Type 0 where
  pub run : String
  pub ready : Bool
  pub lease_cache : Bool
  pub users : Option (List ℕ)
  pub permission_barriers : List (ℕ × ℕ)
  pub closing : Bool
  pub seq : ℕ
  pub synced : ℕ
  pub confirmed : Option Snapshot
  pub base_sequence : ℕ
  pub sources : List (SourceKey × ℕ)
  pub flights : List (SourceKey × Flight)
  pub revoked : List (String × RevokedLease)
  pub retired : List (String × RetiredSource)
  pub next : ℕ
  pub source_heap : List (ℕ × SourceState)
  pub permit_heap : List (ℕ × Permit)

-- `New`
abbrev pub new_manager : Manager
new_manager = record {
  run = "";
  ready = false;
  lease_cache = false;
  users = none;
  permission_barriers = [];
  closing = false;
  seq = 0;
  synced = 0;
  confirmed = none;
  base_sequence = 0;
  sources = [];
  flights = [];
  revoked = [];
  retired = [];
  next = 0;
  source_heap = [];
  permit_heap = [];
}

abbrev pub number_or_zero : Option ℕ → ℕ
number_or_zero none = 0
number_or_zero (some n) = n

abbrev pub is_empty {ℓ} : {A : Type ℓ} → List A → Bool
is_empty [] = true
is_empty (x ∷ xs) = false

-- A test on the source of a place, false when there is none.
abbrev pub is_revoked : Option SourceState → Bool
is_revoked none = false
is_revoked (some s) = s.revoked

abbrev placed : ℕ → Option SourceState → Option (ℕ × SourceState)
placed n none = none
placed n (some s) = some (n, s)

abbrev pub source_in : Option ℕ → List (ℕ × SourceState) → Option (ℕ × SourceState)
source_in none heap = none
source_in (some n) heap = placed n (lookup n heap)

-- `m.sources[key]`, with its place.
unfoldable pub source_of : SourceKey → Manager → Option (ℕ × SourceState)
source_of key m = source_in (lookup key m.sources) m.source_heap

abbrev change : ℕ → (SourceState → SourceState) → Option SourceState → Manager → Manager
change n f none m = m
change n f (some s) m = record m { source_heap = insert n (f s) m.source_heap }

-- A source changed in place.
unfoldable pub update_source : ℕ → (SourceState → SourceState) → Manager → Manager
update_source n f m = change n f (lookup n m.source_heap) m

abbrev pub empty_source : SourceKey → String → String → SourceState
empty_source key run lease = record {
  run = run;
  lease_sequence = 0;
  key = key;
  lease = lease;
  connected = 0;
  sequence = 0;
  revoked = false;
  permits = [];
  confirmed_at = 0;
  expires_at = 0;
  confirmed_sequence = 0;
  omission_sequence = 0;
  deadline = 0;
}

-- A new source of the session, at the place `next`.
unfoldable pub new_source : SourceKey → String → Manager → Manager
new_source key lease m = record m {
  next = m.next + 1;
  source_heap = insert m.next (empty_source key m.run lease) m.source_heap;
  sources = insert key m.next m.sources;
}

-- `m.users != nil && !m.users[user]`
abbrev pub lacks : ℕ → Option (List ℕ) → Bool
lacks user none = false
lacks user (some ids) = not (any (λ i. i == user) ids)
