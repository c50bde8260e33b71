-- ===== src/Monitor/Tests/Shared.antt =====
-- Runs of the scheduler's methods and of the alert, and their theorems at these inputs.
use clashpulse.Base.{ℕ, ◌*◌, ◌≡◌, refl, String, true, false, List, [], ◌∷◌}
use clashpulse.Base.Assoc.{get, put}
use clashpulse.Monitor.Model.{Sample, Outcome, GroupState, AlertState, second}
use clashpulse.Monitor.Policy.{default_policy}
use clashpulse.Monitor.Alert.{update_latency_alert}
use clashpulse.Monitor.Alert.Laws.{Transitions, update_latency_alert-Transitions}
use clashpulse.Monitor.Scheduler.{
  Shared, new_shared, set_groups, report_dial_failure, find_group, is_probed, check_group, is_white,
}
use clashpulse.Monitor.Scheduler.Groups.{SetGroupsContract, set_groups-contract}
use clashpulse.Monitor.Scheduler.Dial.{
  DialContract, report_dial_failure-contract, SpacedFrom, forced_times, forced_times-spaced,
}

abbrev work_group : GroupState
work_group = record {
  group = "work";
  selected = "a";
  proxies = "a" ∷ "b" ∷ [];
  probe_enabled = true;
  automation_enabled = false;
  manual_override = false;
  switch_in_flight = false;
  last_switch_at = 0;
}

set_groups-contract_example :
    SetGroupsContract new_shared (work_group ∷ []) (set_groups new_shared (work_group ∷ []))
set_groups-contract_example = set_groups-contract new_shared (work_group ∷ [])

abbrev ready : Shared
ready = (set_groups new_shared (work_group ∷ [])).0

report_dial_failure-contract_example :
    DialContract default_policy ready "work"
      (100 * second)
      (report_dial_failure default_policy ready "work" (100 * second))
report_dial_failure-contract_example =
    report_dial_failure-contract default_policy ready "work" (100 * second)

-- Six failed dials within half a minute, and one of another group between them.
abbrev dials : List (String × ℕ)
dials =
    ("work", 100 * second)
    ∷ ("work", 101 * second)
    ∷ ("home", 103 * second)
    ∷ ("work", 105 * second)
    ∷ ("work", 110 * second)
    ∷ ("work", 117 * second)
    ∷ ("work", 125 * second)
    ∷ []

forced_times-spaced_example :
    SpacedFrom (get 0 "work" ready.last_dial_probe) (forced_times default_policy ready "work" dials)
forced_times-spaced_example = forced_times-spaced default_policy ready "work" dials

forced_twice : forced_times default_policy ready "work" dials ≡ 101 * second ∷ 117 * second ∷ []
unfolding forced_times report_dial_failure new_shared set_groups find_group get put is_probed
    check_group is_white
forced_twice = refl

abbrev slow : String → Sample
slow proxy = record {
  group = "work";
  proxy = proxy;
  url = default_policy.test_url;
  finished_at = 1;
  latency = 400_000_000;
  outcome = Outcome.success;
}

abbrev calm : AlertState
calm = record { high_latency = false }

update_latency_alert-Transitions_example :
    Transitions default_policy work_group
      (slow "a" ∷ slow "b" ∷ [])
      calm
      (update_latency_alert default_policy work_group (slow "a" ∷ slow "b" ∷ []) calm)
update_latency_alert-Transitions_example =
    update_latency_alert-Transitions default_policy work_group (slow "a" ∷ slow "b" ∷ []) calm
