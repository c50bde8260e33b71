-- ===== src/Monitor/Tests/Streams.antt =====
-- Runs of the steady policy and of the stream rounds, and their theorems at these inputs.
use clashpulse.Base.{
  ℕ, ◌≡◌, refl, ap, ◌⊎◌, inl, inr, String, Bool, true, false, List, [], ◌∷◌, none, arith, In,
  text_lt, if◌then◌else◌, ◌=s◌,
}
use clashpulse.Base.Sort.{sort_on}
use clashpulse.Monitor.Model.{Sample, StreamSample, Outcome, StreamOutcome, GroupState}
use clashpulse.Monitor.Policy.{Policy, default_policy, switch_steady_stream}
use clashpulse.Monitor.Window.{recent, median, summarize, measure_stability}
use clashpulse.Monitor.Decide.{guard, answers}
use clashpulse.Monitor.Steady.{
  recent_streams, measure_streams, interrupted, completes, stream_window, measured_count,
  none_complete, latency_of, Candidate, ranks_before, is_eligible, eligible, Sorter, steady_with,
  decide_steady,
}
use clashpulse.Monitor.Steady.Laws.{
  SteadyJustified, Proven, decide_steady-justified, decide_steady_switches, ranks_before_cycle,
}
use clashpulse.Monitor.Streams.{
  prune_streams, add_selected, candidate_lists, fastest_of, stream_targets,
}
use clashpulse.Monitor.Streams.Targets.{
  IsRound, stream_targets-IsRound, stream_targets-selected, stream_targets-rotates,
}
use clashpulse.Monitor.Streams.Prune.{Pruned, prune_streams-Pruned}

-- An insertion sort for any order, as one `sort.Slice`.
insert_by : {A : Type 0} → (A → A → Bool) → A → List A → List A
insert_by less x [] = x ∷ []
insert_by less x (y ∷ ys) = if less y x then y ∷ insert_by less x ys else x ∷ y ∷ ys

pub sort_by : {A : Type 0} → (A → A → Bool) → List A → List A
sort_by less [] = []
sort_by less (x ∷ xs) = insert_by less x (sort_by less xs)

insert_by-In :
    {A : Type 0} (less : A → A → Bool) (a x : A) (ys : List A)
    → In a (insert_by less x ys)
    → (a ≡ x) ⊎ In a ys
unfolding insert_by
insert_by-In less a x [] m = m
insert_by-In less a x (y ∷ ys) m = ground (arith, insert_by-In less a x ys)

In-insert_by :
    {A : Type 0} (less : A → A → Bool) (a x : A) (ys : List A)
    → (a ≡ x) ⊎ In a ys
    → In a (insert_by less x ys)
unfolding insert_by
In-insert_by less a x [] m = m
In-insert_by less a x (y ∷ ys) m = ground (arith, In-insert_by less a x ys)

pub sort_by-In :
    {A : Type 0} (less : A → A → Bool) (a : A) (xs : List A) → In a (sort_by less xs) → In a xs
unfolding sort_by
sort_by-In less a [] m = m
sort_by-In less a (x ∷ xs) m = elim (insert_by-In less a x (sort_by less xs) m) [
  | inl e ↦ inl e
  | inr h ↦ inr (sort_by-In less a xs h)
]

pub In-sort_by :
    {A : Type 0} (less : A → A → Bool) (a : A) (xs : List A) → In a xs → In a (sort_by less xs)
unfolding sort_by
In-sort_by less a [] m = m
In-sort_by less a (x ∷ xs) (inl e) = In-insert_by less a x (sort_by less xs) (inl e)
In-sort_by less a (x ∷ xs) (inr m) =
    In-insert_by less a x (sort_by less xs) (inr (In-sort_by less a xs m))

abbrev pub insertion_sorter : Sorter
insertion_sorter = record {
  sort = λ {A} less xs. sort_by less xs;
  sort-In = λ {A} less a xs. sort_by-In less a xs;
  In-sort = λ {A} less a xs. In-sort_by less a xs;
}

abbrev pull : String → StreamOutcome → ℕ → StreamSample
pull proxy outcome at = record {
  proxy = proxy;
  url = default_policy.stream_url;
  finished_at = at;
  bytes = 262144;
  first_byte = 1;
  duration = 500_000_000;
  outcome = outcome;
}

abbrev pulls : String → List StreamSample
pulls name =
    if name =s "a"
    then pull "a" StreamOutcome.success 1
      ∷ pull "a" StreamOutcome.reset 2
      ∷ pull "a" StreamOutcome.stall 3
      ∷ []
    else if name =s "b"
    then pull "b" StreamOutcome.success 1
      ∷ pull "b" StreamOutcome.success 2
      ∷ pull "b" StreamOutcome.success 3
      ∷ []
    else []

abbrev steady_policy : Policy
steady_policy = record default_policy { switch_policy = switch_steady_stream }

abbrev streaming : String → GroupState
streaming selected = record {
  group = "auto";
  selected = selected;
  proxies = "a" ∷ "b" ∷ "c" ∷ [];
  probe_enabled = true;
  automation_enabled = true;
  manual_override = false;
  switch_in_flight = false;
  last_switch_at = 0;
}

leaves_a : (decide_steady insertion_sorter steady_policy (streaming "a") [] pulls 100).switch ≡ true
unfolding decide_steady guard stream_window recent_streams measure_streams completes measured_count
    none_complete is_eligible eligible steady_with sort_on sort_by insert_by ranks_before latency_of
leaves_a = refl

decide_steady-justified_example :
    (guard steady_policy (streaming "a") 100 ≡ none)
    × SteadyJustified steady_policy
        (streaming "a")
        (stream_window steady_policy (streaming "a") pulls)
        (decide_steady insertion_sorter steady_policy (streaming "a") [] pulls 100)
decide_steady-justified_example =
    decide_steady-justified insertion_sorter steady_policy (streaming "a") [] pulls 100 leaves_a

b-Proven :
    Proven steady_policy "a"
      (interrupted (measure_streams "a" (stream_window steady_policy (streaming "a") pulls "a") 0))
      "b"
      (stream_window steady_policy (streaming "a") pulls "b")
unfolding measure_streams stream_window recent_streams completes sort_on
b-Proven = record {
  other = λ e. ground (arith, ap (λ s. s =s "a") e);
  completing = refl;
  enough = omega arith;
  fewer = omega arith;
}

decide_steady_switches_example :
    (decide_steady insertion_sorter steady_policy (streaming "a") [] pulls 100).switch ≡ true
unfolding guard measured_count none_complete completes stream_window recent_streams sort_on
    measure_streams
decide_steady_switches_example =
    decide_steady_switches insertion_sorter steady_policy (streaming "a") [] pulls 100 "b" refl
      (λ e. ground (arith, ap (λ s. s =s "a") e)) refl (omega arith) (inr (inl refl)) b-Proven

abbrev alike : String → Candidate
alike name = record {
  name = name;
  stats = record { proxy = name; samples = 3; completed = 3; median_throughput = 500 };
}

-- `b` has no measured latency.
abbrev half_measured : String → ℕ
half_measured name = if name =s "c" then 10 else if name =s "a" then 20 else 0

ranks_before_cycle_example :
    (ranks_before half_measured (alike "c") (alike "a") ≡ true)
    × (ranks_before half_measured (alike "a") (alike "b") ≡ true)
    × (ranks_before half_measured (alike "b") (alike "c") ≡ true)
unfolding text_lt
ranks_before_cycle_example =
    ranks_before_cycle half_measured (alike "c") (alike "b") (alike "a") refl refl refl refl refl
      (omega arith) (omega arith) refl refl

abbrev no_probes : String → String → List Sample
no_probes group proxy = []

abbrev everyone : String → Bool
everyone name = true

abbrev quick_c : String → String → List Sample
quick_c group proxy =
    if proxy =s "c"
    then record {
      group = group;
      proxy = proxy;
      url = "";
      finished_at = 1;
      latency = 5;
      outcome = Outcome.success;
    }
      ∷ []
    else []

stream_targets-IsRound_example :
    IsRound everyone (stream_targets (streaming "a" ∷ []) quick_c everyone 5 0)
stream_targets-IsRound_example = stream_targets-IsRound (streaming "a" ∷ []) quick_c everyone 5 0

round_of_two : stream_targets (streaming "a" ∷ []) quick_c everyone 5 7 ≡ "a" ∷ "c" ∷ []
unfolding stream_targets fastest_of answers recent sort_on measure_stability summarize median
round_of_two = refl

stream_targets-selected_example :
    In "a" (stream_targets (streaming "a" ∷ []) no_probes everyone 5 3)
stream_targets-selected_example =
    stream_targets-selected (streaming "a" ∷ []) no_probes everyone 5 3 (streaming "a")
      (omega arith) (inl refl) refl refl

stream_targets-rotates_example : In "c" (stream_targets (streaming "a" ∷ []) quick_c everyone 5 7)
unfolding candidate_lists fastest_of answers recent sort_on measure_stability summarize median
    add_selected
stream_targets-rotates_example =
    stream_targets-rotates (streaming "a" ∷ []) quick_c everyone 5 7
      (record { proxy = "c"; median = 5 }) [] refl refl (omega arith)

prune_streams-Pruned_example : Pruned (pulls "a") 2 5 (prune_streams (pulls "a") 2 5)
prune_streams-Pruned_example = prune_streams-Pruned (pulls "a") 2 5 (omega arith)
