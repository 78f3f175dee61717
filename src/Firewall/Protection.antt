-- ===== src/Firewall/Protection.antt =====
-- The state of the manager that all nodes share, and the rules it protects: manager.go and
-- recovery.go. The back end that writes the rules to
-- the system is an interface, as in the source; each of its calls ends in a new state of its own and
-- in whether the call succeeded. A nil map of the source is an empty list where the two are not told
-- apart.
use yz_agent.Prelude.{
  String, Bool, true, false, not, ◌||◌, List, [], ◌∷◌, ◌++◌, any, select, ◌==◌, string_eq,
  if◌then◌else◌, Option, none, some, insert, erase, has_key,
}
use Prim.Native.String.{◌++◌ as text_append}
use yz_agent.Firewall.Rule.{Rule, overlaps}
use yz_agent.Firewall.Node.{PlanError, Plan}

abbrev pub Plans : Type 0
Plans = List (String × Plan)

pub data Failure : Type 0 where
  stopped disabled needs_linux no_redirects not_released backend_failed : Failure
  port_shared ports_clash : Failure
  bad_plan : PlanError → Failure

-- `systemBackend`, as far as the manager sets it; `state` is the rest.
pub record Backend (S : Type 0) : Type 0 where
  pub state : S
  pub active : Plans
  pub recovering : Bool
  pub protected : List Rule

-- `reconciler` and `sourceReconciler`, with `prepareSourceTools` and the test of what is left to
-- clean up.
pub record System (S : Type 0) : Type 0 where
  pub prepare_source_tools : Backend S → Plans → S × Bool
  pub apply_sources : Backend S → Plans → S × Bool
  pub apply_rules : Backend S → List Rule → List Rule → S × Bool
  pub close : Backend S → S × Bool
  pub holds_rules : S → Bool

pub record Manager (S : Type 0) : Type 0 where
  pub plans : Plans
  pub backend : Option (Backend S)
  pub enabled : Bool
  pub linux : Bool
  pub closed : Bool
  pub last_err : Option Failure
  pub confirm : Plans
  pub discovery : List (String × Bool)
  pub expected : Option (List (String × Bool))

abbrev pub is_none {ℓ} : {A : Type ℓ} → Option A → Bool
is_none none = true
is_none (some a) = false

abbrev pub is_empty {ℓ} : {A : Type ℓ} → List A → Bool
is_empty [] = true
is_empty (x ∷ xs) = false

abbrev unseen : Option (List (String × Bool)) → Bool
unseen none = false
unseen (some owners) = any (λ e. not e.1) owners

abbrev pub held_listeners : Plans → List Rule
held_listeners [] = []
held_listeners ((owner, p) ∷ plans) = p.listeners ++ held_listeners plans

-- `keepOwned`
abbrev pub keep_owned : {S : Type 0} → Backend S → Rule → Bool
keep_owned b rule = b.recovering || any (λ scope. overlaps scope rule) b.protected

abbrev pub ready_plans : Plans → Plans
ready_plans plans = select (λ p. p.1.ready) plans

abbrev see_owner : String → Option (List (String × Bool)) → Option (List (String × Bool))
see_owner owner none = none
see_owner owner (some owners) = some (insert owner true owners)

abbrev pub pending_key : String → String
pending_key key = text_append "pending:" key

-- The plans that wait for a confirmation, of other owners, under keys of their own.
abbrev pub add_pending : String → Plans → Plans → Plans
add_pending owner [] candidate = candidate
add_pending owner ((key, held) ∷ confirm) candidate =
    let next = if key == owner then candidate else insert (pending_key key) held candidate in
    add_pending owner confirm next

abbrev pub drop_pending : Plans → Plans → Plans
drop_pending [] candidate = candidate
drop_pending ((key, held) ∷ confirm) candidate =
    drop_pending confirm (erase (pending_key key) candidate)

abbrev listed : List String → List (String × Bool) → List (String × Bool)
listed [] found = found
listed (i ∷ instances) found = listed instances (insert i true found)

-- The owner of a node, by the instance and the text of the node's number.
abbrev node_owner : String → String → String
node_owner instance_name id = text_append instance_name (text_append "/node/" id)

abbrev expect_all : String → List String → List (String × Bool) → List (String × Bool)
expect_all instance_name [] owners = owners
expect_all instance_name (id ∷ ids) owners =
    let owner = node_owner instance_name id in
    expect_all instance_name ids
      (if has_key owner owners then owners else insert owner false owners)

abbrev owners_of : Option (List (String × Bool)) → List (String × Bool)
owners_of none = []
owners_of (some owners) = owners

module _ {S : Type 0} where
  abbrev pub candidate_plans : Manager S → String → Plan → Plans
  candidate_plans m owner plan = add_pending owner m.confirm (insert owner plan m.plans)

  abbrev pub protect : Manager S → Backend S → Backend S
  protect m b = record b {
    recovering = not (is_empty m.discovery) || unseen m.expected;
    protected = held_listeners m.confirm;
  }

  abbrev pub protect_backend : Manager S → Option (Backend S) → Option (Backend S)
  protect_backend m none = none
  protect_backend m (some b) = some (protect m b)

  -- `updateProtection`
  unfoldable pub update_protection : Manager S → Manager S
  update_protection m = record m { backend = protect_backend m m.backend }

  -- `confirmPlan`
  abbrev pub confirm_plan : String → Plan → Manager S → Manager S
  confirm_plan owner plan m = record m { confirm = insert owner plan m.confirm }

  abbrev pub expecting : String → Manager S → Manager S
  expecting owner m = record m { expected = see_owner owner m.expected }

  -- `BeginDiscovery`
  unfoldable pub begin_discovery : List String → Manager S → Manager S
  begin_discovery instances m =
      update_protection (record m { discovery = listed instances []; expected = some [] })

  -- `ExpectNodes`
  unfoldable pub expect_nodes : String → List String → Manager S → Manager S
  expect_nodes instance_name ids m = update_protection (record m {
    expected = some (expect_all instance_name ids (owners_of m.expected));
    discovery = erase instance_name m.discovery;
  })
