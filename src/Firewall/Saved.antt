-- ===== src/Firewall/Saved.antt =====
-- How the back end writes its records: `save`, `hasOwned`, `remember` and `forget` of state.go.
use yz_agent.Prelude.{
  ℕ, Bool, true, false, not, ◌&&◌, ◌||◌, List, [], ◌∷◌, ◌++◌, any, length, ◌==◌, string_eq, nat_eq,
  if◌then◌else◌, Option, some,
}
use yz_agent.Firewall.Owned.{pos, same_int, OwnedRule, SavedState, same_rule, same_owned}

-- How a write of the file ends: an error before the rename, one of the directory's sync after it, or
-- none.
pub data Write : Type 0 where
  not_renamed unsynced synced : Write

-- The records in memory and those on the disk.
pub record Records : Type 0 where
  pub state : SavedState
  pub disk : Option SavedState

abbrev pub version_of : SavedState → ℕ
version_of s =
    if any (λ o. not (same_int o.priority (pos 0))) s.owned
    then 4
    else if not (s.source_driver == "")
        || not (length s.source_plans == 0)
        || not (length s.source_sets == 0)
    then 3
    else if any (λ o. not (o.rule.source == "")) s.owned
    then 2
    else 1

abbrev pub versioned : SavedState → SavedState
versioned s = record s { version = version_of s }

-- `save`, with whether it reports success.
abbrev pub save_records : Write → Records → Records × Bool
save_records not_renamed b = (record b { state = versioned b.state }, false)
save_records unsynced b =
    (record { state = versioned b.state; disk = some (versioned b.state) }, false)
save_records synced b =
    (record { state = versioned b.state; disk = some (versioned b.state) }, true)

abbrev pub with_owned : List OwnedRule → Records → Records
with_owned owned b = record b { state = record b.state { owned = owned } }

abbrev pub undone : List OwnedRule → Records × Bool → Records × Bool
undone previous (b, true) = (b, true)
undone previous (b, false) = (with_owned previous b, false)

-- The records with others, written, and put back if that fails.
abbrev pub change_owned : List OwnedRule → Write → Records → Records × Bool
change_owned owned w b = undone b.state.owned (save_records w (with_owned owned b))

-- `hasOwned`
unfoldable pub has_owned : OwnedRule → List OwnedRule → Bool
has_owned r owned = any (λ o. same_owned o r) owned

-- Two records of UFW for one rule.
abbrev pub same_ufw : OwnedRule → OwnedRule → Bool
same_ufw old r = old.backend == "ufw" && r.backend == "ufw" && same_rule old.rule r.rule

unfoldable pub replace_ufw : OwnedRule → List OwnedRule → List OwnedRule
replace_ufw r [] = []
replace_ufw r (old ∷ owned) = if same_ufw old r then r ∷ owned else old ∷ replace_ufw r owned

-- `remember`
unfoldable pub remember : OwnedRule → Write → Records → Records × Bool
remember r w b =
    if has_owned r b.state.owned
    then (b, true)
    else if any (λ old. same_ufw old r) b.state.owned
    then change_owned (replace_ufw r b.state.owned) w b
    else change_owned (b.state.owned ++ (r ∷ [])) w b

abbrev pub is_record_of : OwnedRule → OwnedRule → Bool
is_record_of r o = same_owned o r || same_ufw o r

unfoldable pub remove_first : OwnedRule → List OwnedRule → List OwnedRule
remove_first r [] = []
remove_first r (o ∷ owned) = if is_record_of r o then owned else o ∷ remove_first r owned

-- `forget`
unfoldable pub forget : OwnedRule → Write → Records → Records × Bool
forget r w b =
    if any (is_record_of r) b.state.owned
    then change_owned (remove_first r b.state.owned) w b
    else (b, true)
