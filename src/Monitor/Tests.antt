-- ===== src/Monitor/Tests.antt =====
-- Runs of the monitor on concrete inputs, and each theorem at an input where its hypotheses hold.
mod Streams
mod Shared
mod Rounds
use clashpulse.Base.{
  ℕ, zero, suc, ◌+◌, ◌*◌, ◌≤◌, ◌<◌, ◌≡◌, ◌≢◌, refl, ◌↔◌, ◌⊎◌, inl, inr, String, Bool, true, false,
  List, [], ◌∷◌, ◌++◌, Option, none, some, arith, In, eq_iff, Bool-cases, ◌=s◌, =s→eq, ap, sym, ◌∙◌,
  contains, text_lt, length, get_elem?, ltb, ◌&&◌,
}
use clashpulse.Base.Sort.{sort_on, IsSortedOn}
use clashpulse.Base.Assoc.{get, lookup, put}
use clashpulse.Monitor.Model.{
  Sample, StreamSample, StreamStability, Outcome, StreamOutcome, Stability, Decision, GroupState,
  AlertState, second, throughput,
}
use clashpulse.Monitor.Window.{
  recent, median, failed_count, latencies, summarize, measure_stability, sample_failed,
}
use clashpulse.Monitor.Window.Laws.{Summarizes, measure_stability-Summarizes}
use clashpulse.Monitor.Policy.{
  Policy, Url, default_policy, validate, has_forbidden, test_url_ok, stream_url_ok,
  switch_lowest_latency, pos, checks,
}
use clashpulse.Monitor.Policy.Valid.{IsValid, validate_iff}
use clashpulse.Monitor.Decide.{
  guard, is_relevant, group_samples, of_proxy, window_of, answers, fails_last,
  all_candidates_failed, bad_streak, assess, steadier, passed_over, candidate_stats, better,
  best_from, new_decision, finish, conclude, decide_unguarded, decide_with, decide,
}
use clashpulse.Monitor.Decide.Sound.{Justified, decide-Justified}
use clashpulse.Monitor.Decide.Stable.{decide_no_swap_back, decide_order, without_evidence}

abbrev pub probe : String → ℕ → ℕ → Sample
probe proxy millis at = record {
  group = "auto";
  proxy = proxy;
  url = default_policy.test_url;
  finished_at = at;
  latency = millis * 1_000_000;
  outcome = Outcome.success;
}

abbrev pub auto_group : String → GroupState
auto_group selected = record {
  group = "auto";
  selected = selected;
  proxies = "a" ∷ "b" ∷ "c" ∷ [];
  probe_enabled = true;
  automation_enabled = true;
  manual_override = false;
  switch_in_flight = false;
  last_switch_at = 0;
}

-- `b` is 200 ms faster than `a`.
abbrev probes : List Sample
probes =
    probe "a" 300 1
    ∷ probe "b" 100 2
    ∷ probe "a" 300 3
    ∷ probe "b" 100 4
    ∷ probe "a" 310 5
    ∷ probe "b" 110 6
    ∷ probe "b" 90 7
    ∷ []

-- The same probes, one proxy after the other.
abbrev probes_by_proxy : List Sample
probes_by_proxy =
    probe "b" 100 2
    ∷ probe "b" 100 4
    ∷ probe "b" 110 6
    ∷ probe "b" 90 7
    ∷ probe "a" 300 1
    ∷ probe "a" 300 3
    ∷ probe "a" 310 5
    ∷ []

abbrev move : Decision
move = decide default_policy (auto_group "a") probes 100

move_switches : move.switch ≡ true
unfolding decide guard is_relevant group_samples of_proxy window_of answers fails_last
    all_candidates_failed assess steadier passed_over candidate_stats best_from finish conclude
    decide_unguarded decide_with recent median summarize sort_on measure_stability
move_switches = refl

decide-Justified_example : Justified default_policy (auto_group "a") probes 100 move
decide-Justified_example = decide-Justified default_policy (auto_group "a") probes 100 move_switches

-- `c` is 200 ms faster than `b`, which is 200 ms faster than `a`.
abbrev three_speeds : List Sample
three_speeds =
    probe "a" 500 1
    ∷ probe "a" 500 2
    ∷ probe "a" 500 3
    ∷ probe "b" 300 1
    ∷ probe "b" 300 2
    ∷ probe "b" 300 3
    ∷ probe "c" 100 1
    ∷ probe "c" 100 2
    ∷ probe "c" 100 3
    ∷ []

abbrev without_c : GroupState
without_c = record (auto_group "a") { proxies = "a" ∷ "b" ∷ [] }

moves_to_b :
    ((decide default_policy without_c three_speeds 100).switch ≡ true)
    × ("b" ≡ (decide default_policy without_c three_speeds 100).new)
unfolding decide guard is_relevant group_samples of_proxy window_of answers fails_last
    all_candidates_failed assess steadier passed_over candidate_stats best_from finish conclude
    decide_unguarded decide_with recent median summarize sort_on measure_stability
moves_to_b = (refl, refl)

moves_on_from_b : (decide default_policy (auto_group "b") three_speeds 200).switch ≡ true
unfolding decide guard is_relevant group_samples of_proxy window_of answers fails_last
    all_candidates_failed assess steadier passed_over candidate_stats best_from finish conclude
    decide_unguarded decide_with recent median summarize sort_on measure_stability
moves_on_from_b = refl

a_answers :
    answers (window_of default_policy (group_samples default_policy without_c three_speeds) "a")
    ≡ true
unfolding answers window_of group_samples recent sort_on
a_answers = refl

decide_no_swap_back_example : (decide default_policy (auto_group "b") three_speeds 200).new ≢ "a"
decide_no_swap_back_example =
    decide_no_swap_back default_policy without_c (auto_group "b") three_speeds 100 200 refl
      (omega arith) moves_to_b.0 a_answers refl moves_to_b.1 moves_on_from_b

same_by_proxy :
    (p : String)
    → of_proxy p (group_samples default_policy (auto_group "a") probes)
      ≡ of_proxy p (group_samples default_policy (auto_group "a") probes_by_proxy)
unfolding of_proxy group_samples
same_by_proxy p = elim (Bool-cases ("a" =s p)) [
  | inl a ↦ elim (Bool-cases ("b" =s p)) [
    | inl b ↦ absurd (two_names (=s→eq "a" p a) (=s→eq "b" p b))
    | inr n ↦ rw (a, n)
  ]
  | inr m ↦ elim (Bool-cases ("b" =s p)) [ inl b ↦ rw (m, b) | inr n ↦ rw (m, n) ]
]
  where
    two_names : "a" ≡ p → "b" ≡ p → ⊥
    two_names e f = ground (arith, ap (λ s. s =s "a") (e ∙ sym f))

decide_order_example :
    without_evidence (decide default_policy (auto_group "a") probes 100)
    ≡ without_evidence (decide default_policy (auto_group "a") probes_by_proxy 100)
decide_order_example =
    decide_order default_policy (auto_group "a") probes probes_by_proxy 100 same_by_proxy

-- A parser that knows the default test URL alone.
abbrev parse_default : String → Option Url
parse_default raw = some (record {
  scheme = "http";
  host = "cp.cloudflare.com";
  has_user = false;
  fragment = "";
  opaque = "";
})

validate_iff_example :
    (validate parse_default default_policy ≡ none) ↔ IsValid parse_default default_policy
validate_iff_example = validate_iff parse_default default_policy

default_accepted : validate parse_default default_policy ≡ none
unfolding validate has_forbidden test_url_ok
default_accepted = refl

measure_stability-Summarizes_example :
    Summarizes
      (probe "a" 300 1 ∷ probe "a" 100 2 ∷ [])
      1
      (measure_stability (probe "a" 300 1 ∷ probe "a" 100 2 ∷ []) 1)
measure_stability-Summarizes_example =
    measure_stability-Summarizes (probe "a" 300 1 ∷ probe "a" 100 2 ∷ []) 1 (omega arith)
