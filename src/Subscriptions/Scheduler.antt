-- ===== src/Subscriptions/Scheduler.antt =====
-- subscriptions/scheduler.go: the goroutine `run` and its workers. The local variables of `run`, the
-- two channels and the jobs that the workers hold are the record `Run`; an `Event` is one step of the
-- goroutine or of a worker, and `step` is `none` where that step cannot be taken. What happens after
-- the context is cancelled is not modelled.
pub mod Flight
mod Tests
pub mod Accounted
pub mod Progress
use clashpulse.Base.{
  ℕ, zero, suc, ◌+◌, ◌≡◌, String, Bool, true, false, not, ◌&&◌, ◌||◌, List, [], ◌∷◌, ◌++◌, Option,
  none, some, if◌then◌else◌, ltb, leb, ◌==◌, ◌=s◌, contains, length, keep,
}
use clashpulse.Subscriptions.Due.{Subscribed, due_ids, next_due, earliest, id_count}

abbrev pub max_refresh_workers : ℕ
max_refresh_workers = 8

-- The size that `NewScheduler` selects; a negative one acts as 0.
unfoldable pub worker_count : ℕ → ℕ
worker_count workers =
    let positive = if workers == 0 then 1 else workers in
    if ltb max_refresh_workers positive then max_refresh_workers else positive

-- A job, and what its worker reports when it is done.
pub data Job : Type 0 where
  refresh : String → Job
  resource : Job

-- Where the goroutine is: at the head of its loop, or in one of its two selects, which waits for the
-- timer where that is set.
pub data Phase : Type 0 where
  head : Phase
  waiting : Option ℕ → Phase

pub record Run : Type 0 where
  pub phase : Phase
  pub pending : List String
  pub resource_pending : Bool
  pub jobs : List Job
  pub running : List Job
  pub completed : List Job

unfoldable pub new_run : Run
new_run = record {
  phase = head;
  pending = [];
  resource_pending = false;
  jobs = [];
  running = [];
  completed = [];
}

-- What the goroutine reads: the clock, the records and the time that `resourceNext` returns, which is
-- `none` where it returns zero or no callback is configured.
pub record Reading : Type 0 where
  pub now : ℕ
  pub records : List Subscribed
  pub resource_next : Option ℕ

-- The loop over the due identifiers; the channel holds `workers` jobs. The result is `blocked`.
unfoldable pub send_due : ℕ → List String → Bool → Run → Run × Bool
send_due workers [] blocked s = (s, blocked)
send_due workers (id ∷ ids) blocked s =
    if ltb (length s.jobs) workers
    then send_due workers ids blocked
        (record s { jobs = s.jobs ++ refresh id ∷ []; pending = id ∷ s.pending })
    else send_due workers ids true s

-- `externalNext`
abbrev pub external_next : Run → Reading → Option ℕ
external_next s r = if s.resource_pending then none else r.resource_next

pub is_past : ℕ → Option ℕ → Bool
is_past now none = false
is_past now (some t) = leb t now

unfoldable pub send_resource : ℕ → Bool → Bool → Run → Run × Bool
send_resource workers due blocked s =
    if not s.resource_pending && due
    then (if ltb (length s.jobs) workers
        then (record s { jobs = s.jobs ++ resource ∷ []; resource_pending = true }, blocked)
        else (s, true))
    else (s, blocked)

soonest : Option ℕ → Option ℕ → Option ℕ
soonest next none = next
soonest next (some external) = some (earliest external next)

-- From the sends to the select: `after` is read once the jobs are sent, for the timer.
unfoldable pub arm : Reading → Run × Bool → Run
unfolding soonest
arm after (s, true) = record s { phase = waiting none }
arm after (s, false) = record s {
  phase = waiting (soonest (next_due after.now s.pending after.records) (external_next s after));
}

-- One round of the loop up to its select.
unfoldable pub dispatch : ℕ → Reading → Reading → Run → Run
unfolding is_past send_due send_resource arm
dispatch workers first after s =
    let sent = send_due workers (due_ids first.now s.pending first.records) false s in
    arm after (send_resource workers (is_past first.now (external_next s first)) sent.1 sent.0)

-- `delete(pending, id)`
unfoldable pub remove : String → List String → List String
remove id = keep (λ p. not (p =s id))

-- The closure `complete`.
unfoldable pub complete : Job → Run → Run
unfolding remove
complete resource s = record s { resource_pending = false }
complete (refresh id) s = record s { pending = remove id s.pending }

pub data Event : Type 0 where
  -- The goroutine: a round of the loop, and the cases of its select.
  round : Reading → Reading → Event
  timer : ℕ → Event
  receive wake : Event
  -- A worker takes a job, and reports the job that it holds after so many others.
  take : Event
  report : ℕ → Event

pub receive_from : List Job → Run → Option Run
unfolding complete
receive_from [] s = none
receive_from (j ∷ js) s = some (complete j (record s { completed = js; phase = head }))

pub take_from : List Job → Run → Option Run
take_from [] s = none
take_from (j ∷ js) s = some (record s { jobs = js; running = s.running ++ j ∷ [] })

-- The job at a position, and the jobs without it.
pub pick : ℕ → List Job → Option (Job × List Job)
pick n [] = none
pick zero (j ∷ js) = some (j, js)
pick (suc n) (j ∷ js) = elim (pick n js) [ none ↦ none | some (k, rest) ↦ some (k, j ∷ rest) ]

pub report_picked : Option (Job × List Job) → Run → Option Run
report_picked none s = none
report_picked (some (j, js)) s = some (record s { running = js; completed = s.completed ++ j ∷ [] })

-- The channel and the workers each hold `workers` jobs.
unfoldable pub step_waiting : Option ℕ → Event → Run → Option Run
unfolding receive_from is_past
step_waiting deadline (timer now) s =
    if is_past now deadline then some (record s { phase = head }) else none
step_waiting deadline receive s = receive_from s.completed s
step_waiting deadline wake s = some (record s { phase = head })
step_waiting deadline e s = none

unfoldable pub step_loop : ℕ → Phase → Event → Run → Option Run
unfolding step_waiting dispatch
step_loop workers head (round first after) s = some (dispatch workers first after s)
step_loop workers head e s = none
step_loop workers (waiting deadline) e s = step_waiting deadline e s

unfoldable pub step : ℕ → Event → Run → Option Run
unfolding step_loop take_from pick report_picked
step workers take s = if ltb (length s.running) workers then take_from s.jobs s else none
step workers (report n) s =
    if ltb (length s.completed) workers then report_picked (pick n s.running) s else none
step workers e s = step_loop workers s.phase e s

unfoldable pub run : ℕ → List Event → Run → Option Run
unfolding step
run workers [] s = some s
run workers (e ∷ es) s = elim (step workers e s) [ none ↦ none | some t ↦ run workers es t ]
