-- ===== src/Monitor/Window.antt =====
-- monitor/policy.go: the window of recent probes and its summary.
pub mod Median
pub mod Laws
use mathlib.Core.List.{reverse}
use clashpulse.Base.{
  ℕ, zero, suc, ◌+◌, ◌-◌, ◌*◌, ◌/◌, ◌%◌, ◌≡◌, refl, Bool, true, false, not, ◌&&◌, ◌||◌, List, [],
  ◌∷◌, map, if◌then◌else◌, ltb, ◌==◌, length, get_or, drop, keep, last?, Option, none, some,
}
use clashpulse.Base.Sort.{sort_on}
use clashpulse.Monitor.Model.{Outcome, Sample, Stability}

abbrev is_success : Outcome → Bool
is_success Outcome.success = true
is_success _ = false

abbrev pub sample_failed : Sample → Bool
sample_failed s = not (is_success s.outcome) || s.latency == 0

abbrev pub unhealthy : Sample → ℕ → Bool
unhealthy s threshold = sample_failed s || ltb threshold s.latency

-- `ordered[len(ordered)-limit:]` where a limit is given and exceeded.
abbrev pub newest {ℓ} : {A : Type ℓ} → ℕ → List A → List A
newest limit xs = if ltb 0 limit && ltb limit (length xs) then drop (length xs - limit) xs else xs

unfoldable pub recent : List Sample → ℕ → List Sample
recent samples limit = newest limit (sort_on (λ s. s.finished_at) samples)

-- The source's index is in range, since the values are not empty.
unfoldable pub median : List ℕ → ℕ
median values =
    let sorted = sort_on (λ v. v) values in
    let middle = length values / 2 in
    if length values % 2 == 1
    then get_or sorted middle 0
    else get_or sorted (middle - 1) 0 + (get_or sorted middle 0 - get_or sorted (middle - 1) 0) / 2

-- `(a - b).Abs()`
abbrev pub distance : ℕ → ℕ → ℕ
distance a b = if ltb a b then b - a else a - b

unfoldable pub failed_count : List Sample → ℕ
failed_count [] = 0
failed_count (s ∷ ss) = if sample_failed s then suc (failed_count ss) else failed_count ss

unfoldable pub latencies : List Sample → List ℕ
latencies [] = []
latencies (s ∷ ss) = if sample_failed s then latencies ss else s.latency ∷ latencies ss

-- The summary of a window, whose two loops are `failed_count` and `latencies`.
unfoldable pub summarize : List Sample → Stability
unfolding failed_count latencies
summarize window =
    let values = latencies window in
    if length values == 0
    then record { samples = length window; failures = failed_count window; median = 0; jitter = 0 }
    else record {
      samples = length window;
      failures = failed_count window;
      median = median values;
      jitter = median (map (λ v. distance v (median values)) values);
    }

unfoldable pub measure_stability : List Sample → ℕ → Stability
measure_stability samples window_size = summarize (recent samples window_size)
