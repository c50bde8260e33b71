-- ===== src/Monitor/Policy.antt =====
-- monitor/policy.go: the policy and its validation. `net/url` is outside the repository: its parser
-- is the argument `parse`. Counts and durations that are only tested against a positive bound are
-- ℕ, since a negative value acts as 0 there; the cooldown and the jitter are signed.
pub mod Valid
use Prim.Native.String.{len}
use clashpulse.Base.{
  ℕ, ◌*◌, String, Bool, true, false, not, ◌&&◌, ◌||◌, List, [], ◌∷◌, Option, none, some,
  if◌then◌else◌, ltb, leb, ◌==◌, ◌=s◌, is_blank, contains, codes,
}
use clashpulse.Monitor.Model.{second}

-- `negsuc n` is -(n + 1).
pub data ℤ : Type 0 where
  pos : ℕ → ℤ
  negsuc : ℕ → ℤ

abbrev pub is_negative : ℤ → Bool
is_negative (pos n) = false
is_negative (negsuc n) = true

-- `n < z` and `z >= n` for a count `n`.
abbrev pub is_below : ℕ → ℤ → Bool
is_below n (pos m) = ltb n m
is_below n (negsuc m) = false

abbrev pub reaches : ℤ → ℕ → Bool
reaches (pos m) n = leb n m
reaches (negsuc m) n = false

abbrev pub switch_failover : String
switch_failover = "failover"

abbrev pub switch_lowest_latency : String
switch_lowest_latency = "lowest_latency"

abbrev pub switch_steady_stream : String
switch_steady_stream = "steady_stream"

abbrev pub switch_policies : List String
switch_policies = switch_lowest_latency ∷ switch_failover ∷ switch_steady_stream ∷ []

abbrev pub minute : ℕ
minute = 60 * second

abbrev pub min_stream_interval : ℕ
min_stream_interval = 4 * minute

abbrev pub max_stream_interval : ℕ
max_stream_interval = 24 * 60 * minute

abbrev pub stream_candidates : ℕ
stream_candidates = 3

abbrev pub stream_pull_cap : ℕ
stream_pull_cap = 8

abbrev pub default_stream_url : String
default_stream_url = "https://speed.cloudflare.com/__down?bytes=262144"

-- core.MonitorWindowMin
abbrev pub monitor_window_min : ℕ
monitor_window_min = 2

pub record Policy : Type 0 where
  pub test_url : String
  pub switch_policy : String
  pub interval : ℕ
  pub timeout : ℕ
  pub concurrency : ℕ
  pub threshold : ℕ
  pub latency_alert_threshold : ℕ
  pub window_size : ℕ
  pub min_candidate_samples : ℕ
  pub consecutive_bad_samples : ℕ
  pub max_failures : ℕ
  pub min_improvement : ℕ
  pub cooldown : ℤ
  pub jitter : ℤ
  pub stream_url : String
  pub stream_interval : ℕ

abbrev pub default_policy : Policy
default_policy = record {
  test_url = "http://cp.cloudflare.com/generate_204";
  switch_policy = switch_lowest_latency;
  interval = minute;
  timeout = 5 * second;
  concurrency = 3;
  threshold = 800_000_000;
  latency_alert_threshold = 250_000_000;
  window_size = 5;
  min_candidate_samples = 3;
  consecutive_bad_samples = 3;
  max_failures = 2;
  min_improvement = 100_000_000;
  cooldown = pos (5 * minute);
  jitter = pos (10 * second);
  stream_url = default_stream_url;
  stream_interval = 5 * minute;
}

-- The fields of `net/url.URL` that the checks read.
pub record Url : Type 0 where
  pub scheme : String
  pub host : String
  pub has_user : Bool
  pub fragment : String
  pub opaque : String

-- `strings.ContainsAny(s, "\x00\r\n#")`
any_forbidden : List ℕ → Bool
any_forbidden [] = false
any_forbidden (c ∷ cs) = c == 0 || c == 13 || c == 10 || c == 35 || any_forbidden cs

unfoldable pub has_forbidden : String → Bool
unfolding any_forbidden
has_forbidden s = any_forbidden (codes s)

pub data PolicyError : Type 0 where
  bad_test_url bad_switch_policy bad_stream_url bad_stream_interval bad_interval : PolicyError
  bad_timeout bad_concurrency bad_thresholds bad_unhealthy_count bad_candidate_count : PolicyError
  bad_max_failures bad_min_improvement bad_cooldown_or_jitter : PolicyError

abbrev pub valid_policy_name : String → Bool
valid_policy_name name = contains name switch_policies

-- A row of guards `if bad { return err }`: the first that holds decides.
abbrev pub first_error {ℓ} : {E : Type ℓ} → List (Bool × E) → Option E
first_error [] = none
first_error ((bad, e) ∷ rest) = if bad then some e else first_error rest

module _ (parse : String → Option Url) where
  unfoldable pub test_url_ok : String → Bool
  test_url_ok raw = elim (parse raw) [
    | none ↦ false
    | some u ↦ not (
        has_forbidden raw
        || not (u.scheme =s "http") && not (u.scheme =s "https")
        || is_blank u.host
        || u.has_user
        || not (is_blank u.fragment)
        || not (is_blank u.opaque))
  ]

  -- ValidStreamURL
  unfoldable pub stream_url_ok : String → Bool
  stream_url_ok raw = elim (parse raw) [
    | none ↦ false
    | some u ↦ not (
        ltb 2048 (len raw)
        || has_forbidden raw
        || not (u.scheme =s "https")
        || is_blank u.host
        || u.has_user
        || not (is_blank u.opaque))
  ]

  -- The checks in the source's order, each with the error that it returns.
  abbrev pub checks : Policy → List (Bool × PolicyError)
  checks p =
      (not (test_url_ok p.test_url), bad_test_url)
      ∷ (not (valid_policy_name p.switch_policy), bad_switch_policy)
      ∷ (
        p.switch_policy =s switch_steady_stream && not (stream_url_ok p.stream_url),
        bad_stream_url,
      )
      ∷ (
        p.switch_policy =s switch_steady_stream
            && (ltb p.stream_interval min_stream_interval
                || ltb max_stream_interval p.stream_interval),
        bad_stream_interval,
      )
      ∷ (p.interval == 0, bad_interval)
      ∷ (p.timeout == 0 || ltb p.interval p.timeout, bad_timeout)
      ∷ (ltb p.concurrency 1 || ltb 64 p.concurrency, bad_concurrency)
      ∷ (p.threshold == 0 || p.latency_alert_threshold == 0, bad_thresholds)
      ∷ (
        ltb p.window_size monitor_window_min
            || ltb p.consecutive_bad_samples 1
            || ltb p.window_size p.consecutive_bad_samples,
        bad_unhealthy_count,
      )
      ∷ (
        ltb p.min_candidate_samples monitor_window_min || ltb p.window_size p.min_candidate_samples,
        bad_candidate_count,
      )
      ∷ (ltb p.max_failures 1 || ltb p.window_size p.max_failures, bad_max_failures)
      ∷ (p.min_improvement == 0, bad_min_improvement)
      ∷ (
        is_negative p.cooldown || is_negative p.jitter || reaches p.jitter p.interval,
        bad_cooldown_or_jitter,
      )
      ∷ []

  -- `none` is the source's nil error.
  unfoldable pub validate : Policy → Option PolicyError
  validate p = first_error (checks p)
