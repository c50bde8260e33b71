-- ===== src/Monitor/Decide.antt =====
-- monitor/policy.go: `guard`, `Decide` and the ranking of candidates. The map from a proxy to its
-- samples is the function `of_proxy`; the name "" that stands for no best candidate is `none`.
pub mod Order
pub mod Best
pub mod Sound
pub mod Stable
use mathlib.Core.List.{reverse}
use clashpulse.Base.{
  ℕ, zero, suc, ◌+◌, ◌-◌, String, Bool, true, false, not, ◌&&◌, ◌||◌, List, [], ◌∷◌, Option, none,
  some, if◌then◌else◌, ltb, leb, ◌==◌, ◌=s◌, is_blank, text_lt, length, drop, keep, last?, is_empty,
}
use clashpulse.Monitor.Model.{Sample, Stability, Reason, Decision, GroupState}
use clashpulse.Monitor.Policy.{Policy, is_below, switch_lowest_latency}
use clashpulse.Monitor.Window.{sample_failed, unhealthy, recent, measure_stability}

-- Why no switch may happen now; `none` is the source's "".
unfoldable pub guard : Policy → GroupState → ℕ → Option Reason
guard policy state now =
    if state.manual_override
    then some Reason.manual_override
    else if not state.automation_enabled
    then some Reason.automation_disabled
    else if state.switch_in_flight
    then some Reason.switch_in_flight
    else if ltb now state.last_switch_at
        || not (state.last_switch_at == 0) && is_below (now - state.last_switch_at) policy.cooldown
    then some Reason.cooldown_active
    else none

-- The samples that `Decide` and `UpdateLatencyAlert` look at.
unfoldable pub is_relevant : Policy → GroupState → Sample → Bool
is_relevant policy state s =
    s.group =s state.group
    && not (is_blank s.proxy)
    && (is_blank policy.test_url || s.url =s policy.test_url)

unfoldable pub group_samples : Policy → GroupState → List Sample → List Sample
unfolding is_relevant
group_samples policy state = keep (is_relevant policy state)

-- `byProxy[proxy]`
unfoldable pub of_proxy : String → List Sample → List Sample
of_proxy proxy = keep (λ s. s.proxy =s proxy)

-- `recent(byProxy[proxy], policy.WindowSize)`
unfoldable pub window_of : Policy → List Sample → String → List Sample
unfolding of_proxy
window_of policy samples proxy = recent (of_proxy proxy samples) policy.window_size

last_failed : Option Sample → Bool
last_failed none = true
last_failed (some s) = sample_failed s

-- The newest sample of the window exists and succeeded.
unfoldable pub answers : List Sample → Bool
unfolding last_failed
answers window = not (last_failed (last? window))

-- The newest sample of the window exists and failed.
unfoldable pub fails_last : List Sample → Bool
unfolding last_failed
fails_last window = not (is_empty window) && last_failed (last? window)

all_fail : Policy → List Sample → List String → Bool
all_fail policy samples [] = true
all_fail policy samples (p ∷ ps) =
    if fails_last (window_of policy samples p) then all_fail policy samples ps else false

unfoldable pub all_candidates_failed : Policy → List String → List Sample → Bool
unfolding all_fail
all_candidates_failed policy proxies samples =
    if is_empty proxies then false else all_fail policy samples proxies

-- The loop from the newest sample back, which stops at a healthy one or at `limit`.
unfoldable pub bad_streak : ℕ → ℕ → List Sample → ℕ
bad_streak threshold zero newest_first = 0
bad_streak threshold (suc limit) [] = 0
bad_streak threshold (suc limit) (s ∷ older) =
    let rest = bad_streak threshold limit older in if unhealthy s threshold then suc rest else 0

-- What the selected node's window says: too little, nothing wrong, or the samples to compare with
-- and whether the node is merely unstable.
pub data Verdict : Type 0 where
  undecided healthy : Verdict
  compare_with : List Sample → Bool → Verdict

assess_failover : Policy → List Sample → ℕ → Stability → Verdict
assess_failover policy window bad selected =
    if ltb (length window) policy.consecutive_bad_samples
      && ltb selected.failures policy.max_failures
    then Verdict.undecided
    else if leb policy.consecutive_bad_samples bad
    then Verdict.compare_with (drop (length window - bad) window) false
    else if leb policy.max_failures selected.failures
    then Verdict.compare_with window true
    else Verdict.healthy

unfoldable pub assess : Policy → List Sample → Verdict
unfolding assess_failover
assess policy window =
    if policy.switch_policy =s switch_lowest_latency
    then (if ltb (length window) policy.min_candidate_samples
        then Verdict.undecided
        else Verdict.compare_with window false)
    else assess_failover policy window
        (bad_streak policy.threshold policy.consecutive_bad_samples (reverse window))
        (measure_stability window 0)

-- Fewer failures first, then the lower median, then the lower jitter, then the name.
unfoldable pub steadier : Stability → String → Stability → String → Bool
steadier a a_name b b_name =
    if not (a.failures == b.failures)
    then ltb a.failures b.failures
    else if not (a.median == b.median)
    then ltb a.median b.median
    else if not (a.jitter == b.jitter)
    then ltb a.jitter b.jitter
    else text_lt a_name b_name

-- What a replacement is measured against.
pub record Baseline : Type 0 where
  pub selected : Stability
  pub baseline : Stability
  pub unstable : Bool

abbrev pub is_offline : Baseline → Bool
is_offline b = b.baseline.failures == b.baseline.samples

-- `baseline.Median-stats.Median < policy.MinImprovement`, without the sign.
abbrev lacks_improvement : Policy → Baseline → Stability → Bool
lacks_improvement policy b stats = ltb b.baseline.median (stats.median + policy.min_improvement)

-- The `continue`s of the candidate loop: whether a measured candidate is passed over.
unfoldable pub passed_over : Policy → Baseline → Stability → Bool
passed_over policy b stats =
    if ltb (stats.samples - stats.failures) policy.min_candidate_samples
    then true
    else if is_offline b
    then false
    else if b.unstable
    then leb b.selected.failures stats.failures || ltb policy.threshold stats.median
    else leb policy.max_failures stats.failures || lacks_improvement policy b stats

-- The candidate's statistics where the loop reaches the comparison with the best one.
unfoldable pub candidate_stats :
    Policy → GroupState → List Sample → Baseline → String → Option Stability
candidate_stats policy state samples b proxy =
    if proxy =s state.selected
    then none
    else if not (answers (window_of policy samples proxy))
    then none
    else if passed_over policy b (measure_stability (window_of policy samples proxy) 0)
    then none
    else some (measure_stability (window_of policy samples proxy) 0)

pub record Named : Type 0 where
  pub name : String
  pub stats : Stability

unfoldable pub better : String → Option Stability → Option Named → Option Named
better proxy none best = best
better proxy (some stats) none = some (record { name = proxy; stats = stats })
better proxy (some stats) (some best) =
    if steadier stats proxy best.stats best.name
    then some (record { name = proxy; stats = stats })
    else some best

-- The loop over the group's proxies.
unfoldable pub best_from : (String → Option Stability) → List String → Option Named → Option Named
unfolding better
best_from stats [] best = best
best_from stats (p ∷ ps) best = best_from stats ps (better p (stats p) best)

unfoldable pub new_decision : GroupState → List Sample → Decision
new_decision state evidence = record {
  switch = false;
  lower_latency = false;
  group = state.group;
  old = state.selected;
  new = "";
  reason = Reason.insufficient_samples;
  evidence = evidence;
  streams = [];
}

abbrev pub because : Decision → Reason → Decision
because d r = record d { reason = r }

abbrev pub baseline_of : List Sample → List Sample → Bool → Baseline
baseline_of window comparable unstable = record {
  selected = measure_stability window 0;
  baseline = measure_stability comparable 0;
  unstable = unstable;
}

unfoldable pub finish : Policy → Decision → List Sample → Baseline → Option Named → Decision
finish policy d comparable b none = because d Reason.no_better_candidate
finish policy d comparable b (some best) = record d {
  switch = true;
  lower_latency =
      not (is_offline b)
      && not b.unstable
      && leb policy.min_candidate_samples (b.baseline.samples - b.baseline.failures)
      && answers comparable;
  new = best.name;
  reason = Reason.switch_candidate;
}

unfoldable pub conclude :
    Policy → GroupState → List Sample → Decision → List Sample → Verdict → Decision
unfolding finish
conclude policy state samples d window Verdict.undecided = d
conclude policy state samples d window Verdict.healthy = because d Reason.selected_healthy
conclude policy state samples d window (Verdict.compare_with comparable unstable) =
    let b = baseline_of window comparable unstable in
    finish policy d comparable b
      (best_from (candidate_stats policy state samples b) state.proxies none)

unfoldable pub decide_unguarded : Policy → GroupState → List Sample → Decision → Decision
unfolding conclude
decide_unguarded policy state samples d =
    if is_blank state.selected || is_empty state.proxies
    then d
    else if all_candidates_failed policy state.proxies samples
    then because d Reason.all_candidates_failed
    else let window = window_of policy samples state.selected in
      conclude policy state samples d window (assess policy window)

unfoldable pub decide_with : Policy → GroupState → List Sample → Decision → Option Reason → Decision
decide_with policy state samples d (some reason) = because d reason
decide_with policy state samples d none = decide_unguarded policy state samples d

unfoldable pub decide : Policy → GroupState → List Sample → ℕ → Decision
unfolding decide_with new_decision
decide policy state samples now =
    let relevant = group_samples policy state samples in
    decide_with policy state relevant (new_decision state relevant) (guard policy state now)
