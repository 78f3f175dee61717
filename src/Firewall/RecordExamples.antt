-- ===== src/Firewall/RecordExamples.antt =====
-- Tests of the records of the rules, and the theorems at concrete inputs.
use yz_agent.Prelude.{true, false, [], ◌∷◌, ◌≡◌, refl, none}
use yz_agent.Firewall.Rule.{valid_rule}
use yz_agent.Firewall.Owned.{
  pos, negsuc, OwnedRule, initial_state, valid_zone, valid_source_state, valid_owned, valid_state,
  load_state,
}
use yz_agent.Firewall.Saved.{
  Records, unsynced, synced, has_owned, replace_ufw, remember, remove_first, forget,
}
use yz_agent.Firewall.Recorded.{
  IsRecorded, Remembered, remember-Remembered, disk_rules, remember-forget_unsynced,
}
use yz_agent.Firewall.Examples.{plain_ip, rule_at}

abbrev first_rule : OwnedRule
first_rule = record { backend = "ufw"; zone = ""; rule = rule_at "" 5 9 0; priority = pos 0 }

abbrev managed_rule : OwnedRule
managed_rule = record first_rule { priority = negsuc 0 }

abbrev no_records : Records
no_records = record { state = initial_state "s"; disk = none }

no_records-IsRecorded : IsRecorded plain_ip "id" "s" no_records
unfolding valid_state valid_source_state load_state
no_records-IsRecorded = (refl, refl)

abbrev one_record : Records
one_record = (remember first_rule synced no_records).0

remember_managed : (remember managed_rule synced one_record).0.state.owned ≡ managed_rule ∷ []
unfolding remember has_owned replace_ufw
remember_managed = refl

remember_managed-version : (remember managed_rule synced one_record).0.state.version ≡ 4
unfolding remember has_owned replace_ufw
remember_managed-version = refl

first_rule-valid : valid_owned plain_ip "id" first_rule ≡ true
unfolding valid_owned valid_rule valid_zone
first_rule-valid = refl

remember-Remembered_example :
    Remembered plain_ip "id" "s" first_rule no_records (remember first_rule synced no_records)
remember-Remembered_example =
    remember-Remembered plain_ip "id" "s" first_rule synced no_records no_records-IsRecorded
      first_rule-valid

one_record-has : has_owned first_rule one_record.state.owned ≡ true
unfolding remember has_owned
one_record-has = refl

one_record-once : has_owned first_rule (remove_first first_rule one_record.state.owned) ≡ false
unfolding remember has_owned remove_first
one_record-once = refl

remember-forget_unsynced_example :
    ((remember first_rule synced (forget first_rule unsynced one_record).0).1 ≡ true)
    × (has_owned first_rule
          (disk_rules (remember first_rule synced (forget first_rule unsynced one_record).0).0.disk)
        ≡ false)
remember-forget_unsynced_example =
    remember-forget_unsynced first_rule synced one_record one_record-has one_record-once
