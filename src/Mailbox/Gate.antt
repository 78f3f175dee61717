-- ===== src/Mailbox/Gate.antt =====
-- `VersionGate` of internal/panel/version.go. The retired epochs, a map to true, are a list.
use yz_agent.Prelude.{
  ℕ, String, Bool, true, false, ◌||◌, List, [], ◌∷◌, ◌==◌, nat_eq, string_eq, ltb, if◌then◌else◌,
  any,
}

pub record StateVersion : Type 0 where
  pub epoch : String
  pub sequence : ℕ

pub record VersionGate : Type 0 where
  pub current : StateVersion
  pub retired : List String

abbrev pub new_gate : VersionGate
new_gate = record { current = record { epoch = ""; sequence = 0 }; retired = [] }

abbrev pub is_retired : String → VersionGate → Bool
is_retired epoch g = any (λ e. e == epoch) g.retired

-- The version is taken over, and the epoch before it is retired when it is another one.
abbrev pub switch_to : StateVersion → VersionGate → VersionGate
switch_to version g = record {
  current = version;
  retired =
      if version.epoch == g.current.epoch || g.current.epoch == ""
      then g.retired
      else g.current.epoch ∷ g.retired;
}

unfoldable pub accept : StateVersion → VersionGate → VersionGate × Bool
accept version g =
    if version.epoch == ""
    then (g, g.current.epoch == "")
    else if version.sequence == 0 || is_retired version.epoch g
    then (g, false)
    else if version.epoch == g.current.epoch
    then if ltb version.sequence g.current.sequence then (g, false) else (switch_to version g, true)
    else (switch_to version g, true)
