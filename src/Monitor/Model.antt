-- ===== src/Monitor/Model.antt =====
-- monitor/model.go: the data of the monitor. Times are nanoseconds on one clock and 0 is the zero
-- `time.Time`; durations are nanoseconds.
use clashpulse.Base.{ℕ, ◌*◌, ◌/◌, String, Bool, List, if◌then◌else◌, ◌==◌, true, false}

pub data Outcome : Type 0 where
  error success timeout : Outcome

pub record Sample : Type 0 where
  pub group : String
  pub proxy : String
  pub url : String
  pub finished_at : ℕ
  pub latency : ℕ
  pub outcome : Outcome

pub data StreamOutcome : Type 0 where
  success reset stall truncated tls timeout error : StreamOutcome

pub record StreamSample : Type 0 where
  pub proxy : String
  pub url : String
  pub finished_at : ℕ
  pub bytes : ℕ
  pub first_byte : ℕ
  pub duration : ℕ
  pub outcome : StreamOutcome

abbrev is_stream_success : StreamOutcome → Bool
is_stream_success StreamOutcome.success = true
is_stream_success _ = false

abbrev pub completed : StreamSample → Bool
completed s = is_stream_success s.outcome

-- Nanoseconds in a second.
abbrev pub second : ℕ
second = 1_000_000_000

-- Bytes per second. The source divides in float64 and cuts the fraction off; this is the exact
-- quotient, cut off.
unfoldable pub throughput : StreamSample → ℕ
throughput s = if s.duration == 0 then 0 else s.bytes * second / s.duration

pub record StreamStability : Type 0 where
  pub proxy : String
  pub samples : ℕ
  pub completed : ℕ
  pub median_throughput : ℕ

-- The `Reason…` texts of policy.go.
pub data Reason : Type 0 where
  manual_override automation_disabled switch_in_flight cooldown_active : Reason
  all_candidates_failed insufficient_samples selected_healthy no_better_candidate : Reason
  switch_candidate steadier_stream selected_streams_healthy : Reason

pub record Decision : Type 0 where
  pub switch : Bool
  pub lower_latency : Bool
  pub group : String
  pub old : String
  pub new : String
  pub reason : Reason
  pub evidence : List Sample
  pub streams : List StreamSample

pub record GroupState : Type 0 where
  pub group : String
  pub selected : String
  pub proxies : List String
  pub probe_enabled : Bool
  pub automation_enabled : Bool
  pub manual_override : Bool
  pub switch_in_flight : Bool
  pub last_switch_at : ℕ

pub record AlertState : Type 0 where
  pub high_latency : Bool

pub data AlertTransition : Type 0 where
  no_change high_latency recovered : AlertTransition

pub record AlertEvent : Type 0 where
  pub transition : AlertTransition
  pub group : String
  pub threshold : ℕ
  pub evidence : List Sample

-- policy.go: the summary of one proxy's recent probes.
pub record Stability : Type 0 where
  pub samples : ℕ
  pub failures : ℕ
  pub median : ℕ
  pub jitter : ℕ

pub record ProxyStability : Type 0 where
  pub group : String
  pub proxy : String
  pub stability : Stability

pub record Batch : Type 0 where
  pub finished_at : ℕ
  pub samples : List Sample
  pub streams : List StreamSample
  pub decisions : List Decision
  pub alerts : List AlertEvent
  pub stability : List ProxyStability
  pub stream_stability : List StreamStability
