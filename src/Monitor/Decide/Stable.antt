-- ===== src/Monitor/Decide/Stable.antt =====
-- What a decision does not depend on, and that two decisions over the same samples do not undo
-- each other.
use mathlib.Core.Path.{fun_ext, subst}
use clashpulse.Base.{
  ℕ, ◌+◌, ◌≤◌, ◌<◌, ◌≡◌, ◌≢◌, refl, ap, String, Bool, true, false, List, [], ◌∷◌, Option, none,
  some, arith, eq→=s, last?, In-last?,
}
use clashpulse.Base.Sort.{sort_on-In}
use clashpulse.Monitor.Model.{Sample, Stability, Reason, Decision, GroupState}
use clashpulse.Monitor.Policy.{Policy, switch_lowest_latency}
use clashpulse.Monitor.Window.{measure_stability, summarize, recent}
use clashpulse.Monitor.Window.Laws.{failed_count-lt_of_answer}
use clashpulse.Monitor.Decide.{
  guard, group_samples, of_proxy, window_of, answers, Verdict, assess, candidate_stats, Named,
  new_decision, baseline_of, finish, conclude, all_fail, all_candidates_failed, decide_unguarded,
  decide_with, decide, Baseline,
}
use clashpulse.Monitor.Decide.Sound.{Justified, decide-Justified}

-- A window whose newest sample succeeded is not one of failures only.
pub answers-online :
    (window : List Sample)
    → answers window ≡ true
    → (measure_stability window 0).failures < (measure_stability window 0).samples
unfolding answers measure_stability summarize recent
answers-online window h = elim_last (last? window) refl (ground arith)
  where
    elim_last :
        (o : Option Sample)
        → last? window ≡ o
        → answers window ≡ true
        → (measure_stability window 0).failures < (measure_stability window 0).samples
    elim_last none e k = absurd (ground arith)
    elim_last (some a) e k = ground (
      arith,
      failed_count-lt_of_answer a (recent window 0) (sort_on-In _ a window (In-last? a window e)),
    )

assess_lowest_latency :
    (policy : Policy) (window c : List Sample) (u : Bool)
    → policy.switch_policy ≡ switch_lowest_latency
    → assess policy window ≡ Verdict.compare_with c u
    → (c ≡ window) × (u ≡ false)
unfolding assess
assess_lowest_latency policy window c u e h =
    ground (arith, eq→=s policy.switch_policy switch_lowest_latency e)

window_same :
    (policy : Policy) (state next : GroupState) (samples : List Sample) (p : String)
    → next.group ≡ state.group
    → window_of policy (group_samples policy next samples) p
      ≡ window_of policy (group_samples policy state samples) p
unfolding group_samples
window_same policy state next samples p e = rw e refl

-- The newest window of a proxy in the group, summarized.
abbrev pub stats_of : Policy → GroupState → List Sample → String → Stability
stats_of policy state samples p =
    measure_stability (window_of policy (group_samples policy state samples) p) 0

-- Under `lowest_latency` a switch from a node that answers gains the improvement asked for.
pub switch_improves :
    (policy : Policy) (state : GroupState) (samples : List Sample) (now : ℕ) (d : Decision)
    → policy.switch_policy ≡ switch_lowest_latency
    → answers (window_of policy (group_samples policy state samples) state.selected) ≡ true
    → Justified policy state samples now d
    → (stats_of policy state samples d.new).median + policy.min_improvement
      ≤ (stats_of policy state samples state.selected).median
switch_improves policy state samples now d lowest online j = gained (
    assess_lowest_latency policy
      (window_of policy (group_samples policy state samples) state.selected) j.comparable j.unstable
      lowest j.verdict)
  where
    gained :
        (j.comparable ≡ window_of policy (group_samples policy state samples) state.selected)
          × (j.unstable ≡ false)
        → (stats_of policy state samples d.new).median + policy.min_improvement
          ≤ (stats_of policy state samples state.selected).median
    gained (e, u) =
        let alive =
          answers-online (window_of policy (group_samples policy state samples) state.selected)
            online in
        let gain = j.qualifies.improves (rw e (λ q. omega arith)) u in
        subst
          (λ c.
            (stats_of policy state samples d.new).median + policy.min_improvement
            ≤ (measure_stability c 0).median)
          e gain.1

-- Under `lowest_latency` with a positive improvement, after a switch from a node whose newest probe
-- succeeded, a decision for the new node over the same samples never goes back to the old one.
pub decide_no_swap_back :
    (policy : Policy) (state next : GroupState) (samples : List Sample) (now later : ℕ)
    → policy.switch_policy ≡ switch_lowest_latency
    → 0 < policy.min_improvement
    → (decide policy state samples now).switch ≡ true
    → answers (window_of policy (group_samples policy state samples) state.selected) ≡ true
    → next.group ≡ state.group
    → next.selected ≡ (decide policy state samples now).new
    → (decide policy next samples later).switch ≡ true
    → (decide policy next samples later).new ≢ state.selected
decide_no_swap_back policy state next samples now later lowest gain h online same moved back home =
    let j = decide-Justified policy state samples now h in
    let k = decide-Justified policy next samples later back in
    let here : answers (window_of policy (group_samples policy next samples) next.selected) ≡ true =
      rw (window_same policy state next samples next.selected same, moved) j.answered in
    let out =
      switch_improves policy state samples now (decide policy state samples now) lowest online j in
    let return =
      switch_improves policy next samples later (decide policy next samples later) lowest here k in
    omega (
      arith,
      out,
      rw (stats_same (decide policy next samples later).new, stats_same next.selected, home, moved)
          at return,
    )
  where
    stats_same : (p : String) → stats_of policy next samples p ≡ stats_of policy state samples p
    stats_same p = ap (λ w. measure_stability w 0) (window_same policy state next samples p same)

-- The part of a decision that acts; the evidence only documents it.
abbrev pub without_evidence : Decision → Decision
without_evidence d = record d { evidence = [] }

module _ (policy : Policy) (state : GroupState) (xs ys : List Sample)
    (same : (p : String) → window_of policy xs p ≡ window_of policy ys p) where
  all_fail_same : (ps : List String) → all_fail policy xs ps ≡ all_fail policy ys ps
  unfolding all_fail
  all_fail_same [] = refl
  all_fail_same (p ∷ ps) = rw (same p, all_fail_same ps)

  candidate_stats_same :
      (b : Baseline) → candidate_stats policy state xs b ≡ candidate_stats policy state ys b
  unfolding candidate_stats
  candidate_stats_same b = fun_ext λ p. rw (same p)

  finish_same :
      (d e : Decision) (c : List Sample) (b : Baseline) (o : Option Named)
      → without_evidence d ≡ without_evidence e
      → without_evidence (finish policy d c b o) ≡ without_evidence (finish policy e c b o)
  unfolding finish
  finish_same d e c b none h = ground arith
  finish_same d e c b (some n) h = ground arith

  conclude_same :
      (d e : Decision) (w : List Sample) (v : Verdict)
      → without_evidence d ≡ without_evidence e
      → without_evidence (conclude policy state xs d w v)
        ≡ without_evidence (conclude policy state ys e w v)
  unfolding conclude
  conclude_same d e w Verdict.undecided h = h
  conclude_same d e w Verdict.healthy h = ground arith
  conclude_same d e w (Verdict.compare_with c u) h =
      rw (candidate_stats_same (baseline_of w c u)) (finish_same d e c (baseline_of w c u) _ h)

  unguarded_same :
      (d e : Decision)
      → without_evidence d ≡ without_evidence e
      → without_evidence (decide_unguarded policy state xs d)
        ≡ without_evidence (decide_unguarded policy state ys e)
  unfolding decide_unguarded all_candidates_failed
  unguarded_same d e h =
      rw (all_fail_same state.proxies, same state.selected)
        (ground (
          arith,
          conclude_same d e (window_of policy ys state.selected)
              (assess policy (window_of policy ys state.selected)) h,
        ))

  decide_with_same :
      (d e : Decision) (o : Option Reason)
      → without_evidence d ≡ without_evidence e
      → without_evidence (decide_with policy state xs d o)
        ≡ without_evidence (decide_with policy state ys e o)
  unfolding decide_with
  decide_with_same d e (some r) h = ground arith
  decide_with_same d e none h = unguarded_same d e h

-- If two lists of samples agree on each proxy's subsequence within the group, the decisions agree in
-- everything but the evidence.
pub decide_order :
    (policy : Policy) (state : GroupState) (xs ys : List Sample) (now : ℕ)
    → ((p : String)
        → of_proxy p (group_samples policy state xs) ≡ of_proxy p (group_samples policy state ys))
    → without_evidence (decide policy state xs now) ≡ without_evidence (decide policy state ys now)
unfolding decide window_of new_decision
decide_order policy state xs ys now same =
    decide_with_same policy state (group_samples policy state xs) (group_samples policy state ys)
      (λ p. ap (λ w. recent w policy.window_size) (same p)) _ _ (guard policy state now) refl
