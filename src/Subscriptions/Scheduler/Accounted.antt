-- ===== src/Subscriptions/Scheduler/Accounted.antt =====
-- subscriptions/scheduler.go: every run of `run` and its workers keeps the jobs in flight accounted.
use mathlib.Core.Path.{subst}
use mathlib.Core.Option.{some-injective}
use clashpulse.Base.{
  ℕ, ◌≤◌, ◌≡◌, refl, String, List, [], ◌∷◌, Option, some, ltb, length, arith, Bool-cases,
  Option-cases, inl, inr, All,
}
use clashpulse.Subscriptions.Due.{id_count, occurs}
use clashpulse.Subscriptions.Scheduler.{
  Run, Event, round, timer, receive, wake, take, report, Phase, head, waiting, step, run, step_loop,
  step_waiting, is_past, new_run, worker_count, max_refresh_workers, pick,
}
use clashpulse.Subscriptions.Scheduler.Flight.{
  IsAccounted, in_flight, refreshes, resources, resources_in_flight, dispatch-IsAccounted,
  take_from-IsAccounted, receive_from-IsAccounted, report_picked-IsAccounted, to_head-IsAccounted,
  pick-IsPick,
}

-- No identifier stands twice in the records that a round reads: they are the keys of a Go map.
unfoldable pub HasDistinctIds : Event → Type 0
HasDistinctIds (round first after) = (x : String) → id_count x first.records ≤ 1
HasDistinctIds e = Unit

module _ (workers : ℕ) where
  step_waiting-IsAccounted :
      (d : Option ℕ) (e : Event) (s t : Run)
      → IsAccounted workers s
      → step_waiting d e s ≡ some t
      → IsAccounted workers t
  unfolding step_waiting
  step_waiting-IsAccounted d (round f a) s t h g = cc
  step_waiting-IsAccounted d take s t h g = cc
  step_waiting-IsAccounted d (report n) s t h g = cc
  step_waiting-IsAccounted d wake s t h g =
      subst (IsAccounted workers) (some-injective _ _ g) (to_head-IsAccounted workers s h)
  step_waiting-IsAccounted d receive s t h g =
      receive_from-IsAccounted workers s.completed s t refl h g
  step_waiting-IsAccounted d (timer now) s t h g = elim (Bool-cases (is_past now d)) [
    | inl p ↦
        subst (IsAccounted workers) (some-injective _ _ (rw p at g))
          (to_head-IsAccounted workers s h)
    | inr q ↦ cc (rw q at g)
  ]

  step_loop-IsAccounted :
      (p : Phase) (e : Event) (s t : Run)
      → HasDistinctIds e
      → IsAccounted workers s
      → step_loop workers p e s ≡ some t
      → IsAccounted workers t
  unfolding step_loop HasDistinctIds
  step_loop-IsAccounted (waiting d) e s t m h g = step_waiting-IsAccounted d e s t h g
  step_loop-IsAccounted head (round f a) s t m h g =
      subst (IsAccounted workers) (some-injective _ _ g) (dispatch-IsAccounted workers f a s m h)
  step_loop-IsAccounted head (timer now) s t m h g = cc
  step_loop-IsAccounted head receive s t m h g = cc
  step_loop-IsAccounted head wake s t m h g = cc
  step_loop-IsAccounted head take s t m h g = cc
  step_loop-IsAccounted head (report n) s t m h g = cc

  pub step-IsAccounted :
      (e : Event) (s t : Run)
      → HasDistinctIds e
      → IsAccounted workers s
      → step workers e s ≡ some t
      → IsAccounted workers t
  unfolding step
  step-IsAccounted (round f a) s t m h g = step_loop-IsAccounted s.phase (round f a) s t m h g
  step-IsAccounted (timer now) s t m h g = step_loop-IsAccounted s.phase (timer now) s t m h g
  step-IsAccounted receive s t m h g = step_loop-IsAccounted s.phase receive s t m h g
  step-IsAccounted wake s t m h g = step_loop-IsAccounted s.phase wake s t m h g
  step-IsAccounted take s t m h g = elim (Bool-cases (ltb (length s.running) workers)) [
    | inl p ↦ take_from-IsAccounted workers s.jobs s t refl p h (rw p at g)
    | inr q ↦ cc (rw q at g)
  ]
  step-IsAccounted (report n) s t m h g = elim (Bool-cases (ltb (length s.completed) workers)) [
    | inl p ↦
        report_picked-IsAccounted workers (pick n s.running) s t (pick-IsPick workers n s.running) p
          h (rw p at g)
    | inr q ↦ cc (rw q at g)
  ]

  run_from-IsAccounted :
      (es : List Event) (s t : Run)
      → All HasDistinctIds es
      → IsAccounted workers s
      → run workers es s ≡ some t
      → IsAccounted workers t
  unfolding run
  run_from-IsAccounted [] s t m h g = subst (IsAccounted workers) (some-injective _ _ g) h
  run_from-IsAccounted (e ∷ es) s t m h g = elim (Option-cases (step workers e s)) [
    | inl n ↦ cc (rw (run, n) at g)
    | inr (u, k) ↦
        run_from-IsAccounted es u t m.1 (step-IsAccounted e s u m.0 h k) (rw (run, k) at g)
  ]

  new_run-IsAccounted : IsAccounted workers new_run
  unfolding new_run in_flight refreshes resources resources_in_flight occurs
  new_run-IsAccounted = record {
    tracked = λ x. refl;
    once = λ x. omega arith;
    resource_tracked = refl;
    queued = omega arith;
    held = omega arith;
    reported = omega arith;
  }

worker_count_le : (n : ℕ) → worker_count n ≤ max_refresh_workers
unfolding worker_count
worker_count_le n = ground arith

-- However the rounds of `run`, the cases of its selects and the steps of its workers follow each
-- other, and whatever the rounds read (records without a repeated identifier): a subscription has at
-- most one job in flight and is pending exactly while it has one, the resources likewise, and no more
-- than `MaxRefreshWorkers` jobs are worked on at once.
pub run-IsAccounted :
    (workers : ℕ) (es : List Event) (s : Run)
    → All HasDistinctIds es
    → run (worker_count workers) es new_run ≡ some s
    → IsAccounted (worker_count workers) s × (length s.running ≤ max_refresh_workers)
run-IsAccounted workers es s m g =
    let h =
      run_from-IsAccounted (worker_count workers) es new_run s m
        (new_run-IsAccounted (worker_count workers)) g in
    (h, omega (arith, h.held, worker_count_le workers))
