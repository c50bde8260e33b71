-- ===== src/Monitor/Steady.antt =====
-- monitor/steady.go: the `steady_stream` policy. `sort.Slice` is outside the repository; where its
-- order is not a strict weak order its result is open, so it is the argument `sorter`.
pub mod Laws
use mathlib.Core.List.{head?}
use clashpulse.Base.{
  ℕ, ◌+◌, ◌-◌, ◌/◌, suc, String, Bool, true, false, not, ◌&&◌, ◌||◌, List, [], ◌∷◌, ◌++◌, Option,
  none, some, if◌then◌else◌, leb, ltb, ◌==◌, ◌=s◌, is_blank, is_empty, length, get_or, keep, last?,
  contains, text_lt, In, ◌≡◌,
}
use clashpulse.Base.Sort.{sort_on}
use clashpulse.Monitor.Model.{
  Sample, StreamSample, StreamStability, completed, throughput, Reason, Decision, GroupState,
}
use clashpulse.Monitor.Policy.{Policy}
use clashpulse.Monitor.Window.{newest, recent, measure_stability}
use clashpulse.Monitor.Decide.{guard, because, new_decision}

unfoldable pub recent_streams : List StreamSample → ℕ → List StreamSample
recent_streams samples limit = newest limit (sort_on (λ s. s.finished_at) samples)

unfoldable pub completed_count : List StreamSample → ℕ
completed_count [] = 0
completed_count (s ∷ ss) = if completed s then suc (completed_count ss) else completed_count ss

unfoldable pub rates : List StreamSample → List ℕ
rates [] = []
rates (s ∷ ss) = if completed s then throughput s ∷ rates ss else rates ss

unfoldable pub measure_streams : String → List StreamSample → ℕ → StreamStability
unfolding completed_count rates
measure_streams proxy samples window_size =
    let window = recent_streams samples window_size in
    record {
      proxy = proxy;
      samples = length window;
      completed = completed_count window;
      median_throughput =
          if is_empty (rates window)
          then 0
          else get_or (sort_on (λ v. v) (rates window)) (length (rates window) / 2) 0;
    }

abbrev pub interrupted : StreamStability → ℕ
interrupted s = s.samples - s.completed

last_completed : Option StreamSample → Bool
last_completed none = false
last_completed (some s) = completed s

-- The newest pull of the window exists and completed.
unfoldable pub completes : List StreamSample → Bool
unfolding last_completed
completes window = last_completed (last? window)

-- `windows[proxy]`: the map has an entry for each proxy of the group, and no other.
unfoldable pub stream_window :
    Policy → GroupState → (String → List StreamSample) → String → List StreamSample
stream_window policy state streams proxy =
    if contains proxy state.proxies then recent_streams (streams proxy) policy.window_size else []

unfoldable pub measured_count : (String → List StreamSample) → List String → ℕ
measured_count window [] = 0
measured_count window (p ∷ ps) =
    if is_empty (window p) then measured_count window ps else suc (measured_count window ps)

unfoldable pub none_complete : (String → List StreamSample) → List String → Bool
none_complete window [] = true
none_complete window (p ∷ ps) = if completes (window p) then false else none_complete window ps

-- `latencyByProxy[proxy]`, which is 0 for a proxy with no sample.
unfoldable pub latency_of : Policy → GroupState → List Sample → String → ℕ
latency_of policy state latency proxy =
    let own = keep (λ s. s.group =s state.group && s.proxy =s proxy) latency in
    (measure_stability (recent own policy.window_size) 0).median

pub record Candidate : Type 0 where
  pub name : String
  pub stats : StreamStability

-- The order in which candidates are ranked.
unfoldable pub ranks_before : (String → ℕ) → Candidate → Candidate → Bool
ranks_before latency a b =
    if not (interrupted a.stats == interrupted b.stats)
    then ltb (interrupted a.stats) (interrupted b.stats)
    else if not (a.stats.median_throughput == b.stats.median_throughput)
    then ltb b.stats.median_throughput a.stats.median_throughput
    else if not (latency a.name == latency b.name)
        && ltb 0 (latency a.name)
        && ltb 0 (latency b.name)
    then ltb (latency a.name) (latency b.name)
    else text_lt a.name b.name

unfoldable pub is_eligible : Policy → String → ℕ → String → List StreamSample → Bool
is_eligible policy selected limit proxy window =
    let stats = measure_streams proxy window 0 in
    not (proxy =s selected || is_empty window || not (completes window))
    && not (ltb stats.completed policy.min_candidate_samples || leb limit (interrupted stats))

unfoldable pub eligible :
    Policy → String → ℕ → (String → List StreamSample) → List String → List Candidate
eligible policy selected limit window [] = []
eligible policy selected limit window (p ∷ ps) =
    let rest = eligible policy selected limit window ps in
    if is_eligible policy selected limit p (window p)
    then record { name = p; stats = measure_streams p (window p) 0 } ∷ rest
    else rest

-- What is asked of `sort.Slice`: it rearranges, so it adds and loses nothing.
pub record Sorter : Type 1 where
  pub sort : {A : Type 0} → (A → A → Bool) → List A → List A
  pub sort-In :
      {A : Type 0} (less : A → A → Bool) (a : A) (xs : List A) → In a (sort less xs) → In a xs
  pub In-sort :
      {A : Type 0} (less : A → A → Bool) (a : A) (xs : List A) → In a xs → In a (sort less xs)

unfoldable pub steady_switch :
    GroupState → List Sample → (String → List StreamSample) → Decision → Option Candidate → Decision
steady_switch state latency window d none = because d Reason.no_better_candidate
steady_switch state latency window d (some best) = record d {
  switch = true;
  new = best.name;
  reason = Reason.steadier_stream;
  streams = window state.selected ++ window best.name;
  evidence =
      keep (λ s. s.group =s state.group && (s.proxy =s state.selected || s.proxy =s best.name))
        latency;
}

unfoldable pub steady_with :
    Sorter
    → Policy
    → GroupState
    → List Sample
    → (String → List StreamSample)
    → Decision
    → Option Reason
    → Decision
unfolding steady_switch
steady_with sorter policy state latency window d (some reason) = because d reason
steady_with sorter policy state latency window d none =
    let selected = measure_streams state.selected (window state.selected) 0 in
    if is_blank state.selected || is_empty state.proxies
    then d
    else if ltb 1 (measured_count window state.proxies) && none_complete window state.proxies
    then because d Reason.all_candidates_failed
    else if ltb (interrupted selected) policy.max_failures
    then (if ltb 0 selected.samples then because d Reason.selected_streams_healthy else d)
    else steady_switch state latency window d (
        head? (
          sorter.sort (ranks_before (latency_of policy state latency))
            (eligible policy state.selected (interrupted selected) window state.proxies)))

unfoldable pub decide_steady :
    Sorter → Policy → GroupState → List Sample → (String → List StreamSample) → ℕ → Decision
unfolding steady_with new_decision
decide_steady sorter policy state latency streams now =
    steady_with sorter policy state latency (stream_window policy state streams)
      (new_decision state []) (guard policy state now)
