-- ===== src/Monitor/Alert.antt =====
-- monitor/policy.go: `UpdateLatencyAlert`.
pub mod Laws
use mathlib.Core.List.{head?}
use clashpulse.Base.{
  ℕ, String, Bool, true, false, not, ◌&&◌, List, [], ◌∷◌, ◌++◌, Option, none, some, if◌then◌else◌,
  leb, ltb, is_empty,
}
use clashpulse.Monitor.Model.{Sample, GroupState, AlertState, AlertTransition, AlertEvent}
use clashpulse.Monitor.Policy.{Policy}
use clashpulse.Monitor.Window.{sample_failed, recent}
use clashpulse.Monitor.Decide.{group_samples, of_proxy}

answer_of : Option Sample → Option Sample
answer_of none = none
answer_of (some s) = if sample_failed s then none else some s

-- The proxy's newest sample, where there is one and it succeeded.
unfoldable pub newest_answer : List Sample → String → Option Sample
unfolding answer_of
newest_answer samples proxy = answer_of (head? (recent (of_proxy proxy samples) 1))

-- The variables of the loop over the group's proxies.
pub record Scan : Type 0 where
  pub latest : List Sample
  pub all_high : Bool
  pub any_recovered : Bool
  pub complete : Bool

unfoldable pub scan_one : ℕ → Option Sample → Scan → Scan
scan_one threshold none s = record s { complete = false }
scan_one threshold (some sample) s =
    let seen = record s { latest = s.latest ++ sample ∷ [] } in
    if leb sample.latency threshold
    then record seen { all_high = false; any_recovered = true }
    else seen

unfoldable pub scan : ℕ → (String → Option Sample) → List String → Scan → Scan
scan threshold answer [] s = s
scan threshold answer (p ∷ ps) s = scan threshold answer ps (scan_one threshold (answer p) s)

abbrev pub scan_start : Scan
scan_start = record { latest = []; all_high = true; any_recovered = false; complete = true }

unfoldable pub alert_step : AlertState → AlertEvent → Scan → AlertState × AlertEvent
alert_step previous event s =
    let event' = record event { evidence = s.latest } in
    if previous.high_latency && s.any_recovered
    then (record { high_latency = false }, record event' { transition = AlertTransition.recovered })
    else if s.complete && s.all_high && not previous.high_latency
    then (
      record { high_latency = true },
      record event' { transition = AlertTransition.high_latency },
    )
    else (previous, event')

unfoldable pub update_latency_alert :
    Policy → GroupState → List Sample → AlertState → AlertState × AlertEvent
unfolding alert_step
update_latency_alert policy state samples previous =
    let event : AlertEvent = record {
      transition = AlertTransition.no_change;
      group = state.group;
      threshold = policy.latency_alert_threshold;
      evidence = [];
    } in
    if is_empty state.proxies
    then (previous, event)
    else alert_step previous event (
        scan policy.latency_alert_threshold (newest_answer (group_samples policy state samples))
          state.proxies scan_start)
