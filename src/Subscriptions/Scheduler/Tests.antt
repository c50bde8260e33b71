-- ===== src/Subscriptions/Scheduler/Tests.antt =====
-- The scheduler on concrete records, and an instance of each theorem.
use mathlib.Core.Path.{subst}
use clashpulse.Base.{
  ℕ, ◌≡◌, ◌≤◌, refl, String, true, false, List, [], ◌∷◌, none, some, arith, length, sym, =s→eq,
  ◌=s◌, Bool-cases, inl, inr,
}
use clashpulse.Subscriptions.Due.{
  Subscribed, due_ids, next_due, is_due, is_considered, due_at, insert_id, id_count, IsDue,
  IsEarliest, next_due-IsEarliest,
}
use clashpulse.Subscriptions.Scheduler.{
  Run, refresh, Reading, round, receive, take, report, head, waiting, new_run, run, step, dispatch,
  step_loop, step_waiting, send_due, send_resource, arm, soonest, complete, remove, take_from,
  receive_from, pick, report_picked, is_past, worker_count, max_refresh_workers,
}
use clashpulse.Subscriptions.Scheduler.Flight.{IsAccounted}
use clashpulse.Subscriptions.Scheduler.Accounted.{run-IsAccounted, HasDistinctIds}
use clashpulse.Subscriptions.Scheduler.Progress.{
  IsNearer, waiting_progresses, CanWork, dispatch_sends, IsSent, steps_left,
}
use clashpulse.Base.{text_lt}

-- One that was never checked, one that is due at 160, and one that is off.
abbrev fresh_one : Subscribed
fresh_one = record { id = "b"; enabled = true; checked_at = 0; refresh_interval = 60 }

abbrev checked_one : Subscribed
checked_one = record { id = "a"; enabled = true; checked_at = 100; refresh_interval = 60 }

abbrev disabled_one : Subscribed
disabled_one = record { id = "c"; enabled = false; checked_at = 0; refresh_interval = 60 }

abbrev three : List Subscribed
three = fresh_one ∷ checked_one ∷ disabled_one ∷ []

due_early : due_ids 150 [] three ≡ "b" ∷ []
unfolding due_ids is_due is_considered due_at insert_id
due_early = refl

due_late : due_ids 170 [] three ≡ "a" ∷ "b" ∷ []
unfolding due_ids is_due is_considered due_at insert_id text_lt
due_late = refl

next_after : next_due 150 ("b" ∷ []) three ≡ some 160
unfolding next_due is_considered due_at
next_after = refl

abbrev reading : ℕ → Reading
reading now = record { now = now; records = three; resource_next = none }

-- One worker: both are due, one is queued, and the loop waits with no timer set.
abbrev one_queued : Run
one_queued = record {
  phase = waiting none;
  pending = "a" ∷ [];
  resource_pending = false;
  jobs = refresh "a" ∷ [];
  running = [];
  completed = [];
}

queue_full : run (worker_count 1) (round (reading 170) (reading 170) ∷ []) new_run ≡ some one_queued
unfolding run step step_loop dispatch send_due send_resource arm is_past soonest due_ids is_due
    is_considered due_at insert_id text_lt new_run worker_count
queue_full = refl

-- Its job is worked on and reported; the next round queues the other one.
first_done :
    run
      (worker_count 1)
      (round (reading 170) (reading 170) ∷ take ∷ report 0 ∷ receive ∷ [])
      new_run
    ≡ some (record {
      phase = head;
      pending = [];
      resource_pending = false;
      jobs = [];
      running = [];
      completed = [];
    })
unfolding run step step_loop step_waiting dispatch send_due send_resource arm is_past soonest
    due_ids is_due is_considered due_at insert_id text_lt new_run worker_count take_from pick
    report_picked receive_from complete remove
first_done = refl

reading-distinct : (x : String) → id_count x three ≤ 1
unfolding id_count
reading-distinct x = elim (Bool-cases (x =s "b")) [
  | inl t ↦ subst (λ z. id_count z three ≤ 1) (sym (=s→eq x "b" t)) (omega arith)
  | inr f ↦ elim (Bool-cases (x =s "a")) [
    | inl t ↦ subst (λ z. id_count z three ≤ 1) (sym (=s→eq x "a" t)) (omega arith)
    | inr g ↦ ground (arith, f, g)
  ]
]

run-IsAccounted_example :
    IsAccounted (worker_count 1) one_queued × (length one_queued.running ≤ max_refresh_workers)
unfolding HasDistinctIds
run-IsAccounted_example =
    run-IsAccounted 1 (round (reading 170) (reading 170) ∷ []) one_queued (reading-distinct, tt)
      queue_full

waiting_progresses_example :
    CanWork 1 one_queued
    × IsNearer one_queued (step 1 take one_queued)
    × IsNearer one_queued (step 1 receive one_queued)
    × ((n : ℕ) → IsNearer one_queued (step 1 (report n) one_queued))
unfolding steps_left
waiting_progresses_example = waiting_progresses 1 one_queued none (omega arith) refl (omega arith)

dispatch_sends_example : IsSent 1 "b" (dispatch 1 (reading 170) (reading 170) new_run)
unfolding IsDue
dispatch_sends_example =
    dispatch_sends 1 (reading 170) (reading 170) new_run fresh_one (inl refl) (refl, inl refl)

next_due-IsEarliest_example : IsEarliest 150 ("b" ∷ []) three (next_due 150 ("b" ∷ []) three)
next_due-IsEarliest_example = next_due-IsEarliest 150 ("b" ∷ []) three
