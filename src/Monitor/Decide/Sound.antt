-- ===== src/Monitor/Decide/Sound.antt =====
-- When `decide` switches, and to what.
use clashpulse.Base.{
  ℕ, ◌+◌, ◌-◌, ◌≤◌, ◌<◌, ◌≡◌, ◌≢◌, refl, String, Bool, true, false, ◌||◌, List, Option, none, some,
  arith, In, is_blank, is_empty, if◌then◌else◌, eq→=s,
}
use clashpulse.Monitor.Model.{Sample, Stability, Reason, Decision, GroupState}
use clashpulse.Monitor.Policy.{Policy}
use clashpulse.Monitor.Window.{measure_stability}
use clashpulse.Monitor.Decide.{
  guard, group_samples, window_of, answers, Verdict, assess, steadier, Baseline, passed_over,
  candidate_stats, Named, best_from, new_decision, because, baseline_of, finish, conclude,
  all_candidates_failed, decide_unguarded, decide_with, decide,
}
use clashpulse.Monitor.Decide.Best.{best_from-best, Unbeaten}

-- The stages of a decision that ends in a switch.
pub record Switching (policy : Policy) (state : GroupState) (rel : List Sample) (d out : Decision)
    : Type 0 where
  pub comparable : List Sample
  pub unstable : Bool
  pub best : Named
  pub verdict :
      assess policy (window_of policy rel state.selected) ≡ Verdict.compare_with comparable unstable
  pub chosen :
      best_from
        (candidate_stats policy state rel
          (baseline_of (window_of policy rel state.selected) comparable unstable))
        state.proxies
        none
      ≡ some best
  pub result :
      out
      ≡ finish policy d comparable
          (baseline_of (window_of policy rel state.selected) comparable unstable)
          (some best)

module _ (policy : Policy) (state : GroupState) (rel : List Sample) (d : Decision)
    (off : d.switch ≡ false) where
  abbrev base_at : List Sample → Bool → Baseline
  base_at c u = baseline_of (window_of policy rel state.selected) c u

  abbrev best_at : List Sample → Bool → Option Named
  best_at c u = best_from (candidate_stats policy state rel (base_at c u)) state.proxies none

  finish_switches :
      (c : List Sample) (u : Bool) (o : Option Named)
      → best_at c u ≡ o
      → assess policy (window_of policy rel state.selected) ≡ Verdict.compare_with c u
      → (finish policy d c (base_at c u) o).switch ≡ true
      → Switching policy state rel d (finish policy d c (base_at c u) o)
  unfolding finish
  finish_switches c u none e v h = cc off
  finish_switches c u (some best) e v h = record {
    comparable = c;
    unstable = u;
    best = best;
    verdict = v;
    chosen = e;
    result = refl;
  }

  conclude_switches :
      (v : Verdict)
      → assess policy (window_of policy rel state.selected) ≡ v
      → (conclude policy state rel d (window_of policy rel state.selected) v).switch ≡ true
      → Switching policy state rel d
          (conclude policy state rel d (window_of policy rel state.selected) v)
  unfolding conclude
  conclude_switches Verdict.undecided e h = cc off
  conclude_switches Verdict.healthy e h = cc off
  conclude_switches (Verdict.compare_with c u) e h = finish_switches c u (best_at c u) refl e h

  past_guards :
      (b c : Bool) (r : Reason) (out : Decision)
      → (out.switch ≡ true → Switching policy state rel d out)
      → (if b then d else if c then because d r else out).switch ≡ true
      → Switching policy state rel d (if b then d else if c then because d r else out)
  past_guards true c r out k h = cc off
  past_guards false true r out k h = cc off
  past_guards false false r out k h = k h

  unguarded_switches :
      (decide_unguarded policy state rel d).switch ≡ true
      → Switching policy state rel d (decide_unguarded policy state rel d)
  unfolding decide_unguarded
  unguarded_switches =
      past_guards (is_blank state.selected || is_empty state.proxies)
        (all_candidates_failed policy state.proxies rel) Reason.all_candidates_failed
        (conclude policy state rel d (window_of policy rel state.selected)
          (assess policy (window_of policy rel state.selected)))
        (conclude_switches _ refl)

  decide_with_switches :
      (o : Option Reason)
      → (decide_with policy state rel d o).switch ≡ true
      → (o ≡ none) × Switching policy state rel d (decide_with policy state rel d o)
  unfolding decide_with
  decide_with_switches (some r) h = cc off
  decide_with_switches none h = (refl, unguarded_switches h)

module _ (policy : Policy) (state : GroupState) (samples : List Sample) (now : ℕ) where
  abbrev pub relevant : List Sample
  relevant = group_samples policy state samples

  pub decide_switches :
      (decide policy state samples now).switch ≡ true
      → (guard policy state now ≡ none)
        × Switching policy state relevant
            (new_decision state relevant)
            (decide policy state samples now)
  unfolding decide
  decide_switches h =
      decide_with_switches policy state relevant (new_decision state relevant)
        (unfold new_decision in refl) (guard policy state now) h

-- What a candidate must show, by the state of the node that it replaces: more than enough answers,
-- and, unless that node is offline, fewer failures at a tolerable latency where the node is
-- unstable, or a tolerable number of failures and an improvement where it is not.
pub record Qualifies (policy : Policy) (b : Baseline) (stats : Stability) : Type 0 where
  pub proven : policy.min_candidate_samples ≤ stats.samples - stats.failures
  pub steadier_than_unstable :
      b.baseline.failures ≢ b.baseline.samples
      → b.unstable ≡ true
      → (stats.failures < b.selected.failures) × (stats.median ≤ policy.threshold)
  pub improves :
      b.baseline.failures ≢ b.baseline.samples
      → b.unstable ≡ false
      → (stats.failures < policy.max_failures)
        × (stats.median + policy.min_improvement ≤ b.baseline.median)

passed_over-Qualifies :
    (policy : Policy) (b : Baseline) (stats : Stability)
    → passed_over policy b stats ≡ false
    → Qualifies policy b stats
unfolding passed_over
passed_over-Qualifies policy b stats h = record {
  proven = ground arith;
  steadier_than_unstable = λ n u. ground arith;
  improves = λ n u. ground arith;
}

-- The reading of `candidate_stats` for a candidate that is measured.
pub candidate_stats-some :
    (policy : Policy) (state : GroupState) (rel : List Sample) (b : Baseline) (p : String)
    (s : Stability)
    → candidate_stats policy state rel b p ≡ some s
    → (p ≢ state.selected)
      × (answers (window_of policy rel p) ≡ true)
      × (s ≡ measure_stability (window_of policy rel p) 0)
      × Qualifies policy b s
unfolding candidate_stats
candidate_stats-some policy state rel b p s h = (
  λ e. ground (arith, eq→=s p state.selected e),
  ground arith,
  ground arith,
  passed_over-Qualifies policy b s (ground arith),
)

-- Why a switch is justified.
pub record Justified (policy : Policy) (state : GroupState) (samples : List Sample) (now : ℕ)
    (d : Decision) : Type 0 where
  pub unguarded : guard policy state now ≡ none
  pub from : d.old ≡ state.selected
  pub reason : d.reason ≡ Reason.switch_candidate
  pub member : In d.new state.proxies
  pub other : d.new ≢ state.selected
  pub answered : answers (window_of policy (group_samples policy state samples) d.new) ≡ true
  pub comparable : List Sample
  pub unstable : Bool
  pub verdict :
      assess policy (window_of policy (group_samples policy state samples) state.selected)
      ≡ Verdict.compare_with comparable unstable
  pub qualifies :
      Qualifies policy
        (baseline_of
          (window_of policy (group_samples policy state samples) state.selected)
          comparable
          unstable)
        (measure_stability (window_of policy (group_samples policy state samples) d.new) 0)
  pub unbeaten :
      (c : String) (s : Stability)
      → In c state.proxies
      → candidate_stats policy state
          (group_samples policy state samples)
          (baseline_of
            (window_of policy (group_samples policy state samples) state.selected)
            comparable
            unstable)
          c
        ≡ some s
      → steadier s c
          (measure_stability (window_of policy (group_samples policy state samples) d.new) 0)
          d.new
        ≡ false

-- Where `decide` switches, no guard holds, the new node is another member of the group, its newest
-- probe succeeded, it shows what a candidate must show against the assessed baseline, and no
-- candidate that the loop measures is steadier.
pub decide-Justified :
    (policy : Policy) (state : GroupState) (samples : List Sample) (now : ℕ)
    → (decide policy state samples now).switch ≡ true
    → Justified policy state samples now (decide policy state samples now)
decide-Justified policy state samples now h = justify (decide_switches policy state samples now h)
  where
    justify :
        (guard policy state now ≡ none)
          × Switching policy state
              (relevant policy state samples now)
              (new_decision state (relevant policy state samples now))
              (decide policy state samples now)
        → Justified policy state samples now (decide policy state samples now)
    justify (free, w) = rw w.result (
        unfold finish new_decision in
        record {
          unguarded = free;
          from = refl;
          reason = refl;
          member = chosen.0.0;
          other = measured.0;
          answered = measured.1;
          comparable = w.comparable;
          unstable = w.unstable;
          verdict = w.verdict;
          qualifies = rw (← measured.2) measured.3;
          unbeaten = rw (← measured.2) chosen.1;
        })
      where
        stats : String → Option Stability
        stats = candidate_stats policy state (group_samples policy state samples) (
            baseline_of (window_of policy (group_samples policy state samples) state.selected)
              w.comparable w.unstable)

        chosen :
            (In w.best.name state.proxies × (stats w.best.name ≡ some w.best.stats))
            × Unbeaten stats w.best state.proxies
        chosen = best_from-best stats state.proxies w.best w.chosen

        measured :
            (w.best.name ≢ state.selected)
            × (answers (window_of policy (group_samples policy state samples) w.best.name) ≡ true)
            × (w.best.stats
                ≡ measure_stability
                    (window_of policy (group_samples policy state samples) w.best.name)
                    0)
            × Qualifies policy
                (baseline_of
                  (window_of policy (group_samples policy state samples) state.selected)
                  w.comparable
                  w.unstable)
                w.best.stats
        measured = candidate_stats-some _ _ _ _ _ _ chosen.0.1
