-- ===== src/Monitor/Loop/Events.antt =====
-- monitor/scheduler.go: the cases of the `select` of `Run`, and what ends a round.
use clashpulse.Base.{
  ℕ, suc, ◌-◌, ◌*◌, String, Bool, true, false, not, ◌&&◌, ◌||◌, List, [], ◌∷◌, ◌++◌, Option, none,
  some, if◌then◌else◌, ltb, ◌==◌, ◌=s◌, is_empty, length, drop, keep,
}
use clashpulse.Base.Assoc.{lookup, get, put}
use clashpulse.Monitor.Model.{
  Sample, StreamSample, Decision, AlertTransition, Batch, ProxyStability, StreamStability,
}
use clashpulse.Monitor.Policy.{Policy}
use clashpulse.Monitor.Window.{measure_stability}
use clashpulse.Monitor.Decide.{decide}
use clashpulse.Monitor.Alert.{update_latency_alert}
use clashpulse.Monitor.Steady.{Sorter, decide_steady, measure_streams}
use clashpulse.Monitor.Streams.{prune_streams}
use clashpulse.Monitor.Loop.Refresh.{Task, Runtime, Loop, sorted_group_names, quiet, refresh}

pub data Event : Type 0 where
  woken timer stream_sent sent : Event
  stream_received : StreamSample → Event
  received : Task → Sample → Event

unfoldable pub concat_history : List (String × List Sample) → List Sample
concat_history [] = []
concat_history ((p, ss) ∷ rest) = ss ++ concat_history rest

-- `historySamples`. The map is walked in an order that Go leaves open: here the order of the list.
abbrev pub history_samples : Runtime → List Sample
history_samples r = concat_history r.history

-- The last `n`, where there are more.
abbrev pub last_n {ℓ} : {A : Type ℓ} → ℕ → List A → List A
last_n n xs = if ltb n (length xs) then drop (length xs - n) xs else xs

unfoldable pub record_sample : ℕ → Task → Sample → Runtime → Runtime
record_sample window_size task sample r = record r {
  history =
      put task.proxy (last_n window_size (get [] task.proxy r.history ++ sample ∷ [])) r.history;
}

unfoldable pub update_at :
    (Runtime → Runtime)
    → String
    → Option Runtime
    → List (String × Runtime)
    → List (String × Runtime)
update_at f name none rs = rs
update_at f name (some r) rs = put name (f r) rs

-- A change of the runtime of that name, where there is one.
unfoldable pub update_runtime_at :
    (Runtime → Runtime) → String → List (String × Runtime) → List (String × Runtime)
unfolding update_at
update_runtime_at f name rs = update_at f name (lookup name rs) rs

unfoldable pub all_done : List (String × ℕ) → Bool
all_done [] = true
all_done ((name, n) ∷ rest) = n == 0 && all_done rest

unfoldable pub forget : Runtime → Runtime
forget r = record r { history = []; alert = quiet }

unfoldable pub forget_groups : List String → List (String × Runtime) → List (String × Runtime)
unfolding forget
forget_groups [] rs = rs
forget_groups (n ∷ ns) rs = forget_groups ns (update_runtime_at forget n rs)

unfoldable pub stability_of : Policy → String → Runtime → List String → List ProxyStability
stability_of policy name r [] = []
stability_of policy name r (p ∷ ps) =
    record {
      group = name;
      proxy = p;
      stability = measure_stability (get [] p r.history) policy.window_size;
    }
    ∷ stability_of policy name r ps

is_transition : AlertTransition → Bool
is_transition AlertTransition.no_change = false
is_transition _ = true

-- A batch under construction and the runtimes, whose alerts it moves.
pub record Report : Type 0 where
  pub batch : Batch
  pub runtimes : List (String × Runtime)

unfoldable pub report_group : Policy → String → Runtime → Report → Report
unfolding stability_of is_transition
report_group policy name r b =
    let own = keep (λ s. s.group =s name) b.batch.samples in
    let (alert', event) = update_latency_alert policy r.state own r.alert in
    record {
      batch = record b.batch {
        decisions =
            b.batch.decisions ++ decide policy r.state (history_samples r) b.batch.finished_at ∷ [];
        stability = b.batch.stability ++ stability_of policy name r r.state.proxies;
        alerts =
            if is_transition event.transition then b.batch.alerts ++ event ∷ [] else b.batch.alerts;
      };
      runtimes = put name (record r { alert = alert' }) b.runtimes;
    }

unfoldable pub report_if : Policy → String → Option Runtime → Report → Report
unfolding report_group
report_if policy name none b = b
report_if policy name (some r) b = report_group policy name r b

unfoldable pub report_groups : Policy → List String → Report → Report
unfolding report_if
report_groups policy [] b = b
report_groups policy (n ∷ ns) b =
    report_groups policy ns (report_if policy n (lookup n b.runtimes) b)

unfoldable pub empty_batch : ℕ → Batch
empty_batch now = record {
  finished_at = now;
  samples = [];
  streams = [];
  decisions = [];
  alerts = [];
  stability = [];
  stream_stability = [];
}

-- The end of a round of probes: a batch of a current generation carries decisions and alerts; one
-- of a past generation carries its samples alone, and the groups' histories are dropped.
unfoldable pub finish_round : Policy → ℕ → Loop → Loop
unfolding forget_groups report_groups empty_batch
finish_round policy now l =
    let batch = record (empty_batch now) { samples = l.batch_samples } in
    let done =
      if l.batch_generation == l.shared.generation
      then report_groups policy l.active_groups (record { batch = batch; runtimes = l.runtimes })
      else record { batch = batch; runtimes = forget_groups l.active_groups l.runtimes } in
    refresh policy now
      (record l { runtimes = done.runtimes; batches = done.batch ∷ l.batches; active = false })

-- A result answers a task that is outstanding, so its group's count is positive.
unfoldable pub take_result : Policy → Task → Sample → Loop → Loop
unfolding record_sample update_runtime_at
take_result policy task sample l = record l {
  batch_samples = l.batch_samples ++ sample ∷ [];
  runtimes = update_runtime_at (record_sample policy.window_size task sample) task.group l.runtimes;
  remaining = put task.group (get 0 task.group l.remaining - 1) l.remaining;
}

unfoldable pub on_result : Policy → ℕ → Task → Sample → Loop → Loop
unfolding take_result all_done
on_result policy now task sample l =
    let taken = take_result policy task sample l in
    let done = finish_round policy now taken in
    if get 0 task.group taken.remaining == 0 && all_done taken.remaining then done else taken

-- The history after the final pruning, with the proxies that have none left deleted.
unfoldable pub prune_history :
    ℕ → ℕ → List (String × List StreamSample) → List (String × List StreamSample)
prune_history cutoff window_size [] = []
prune_history cutoff window_size ((p, ss) ∷ rest) =
    let kept = prune_streams ss cutoff window_size in
    if is_empty kept
    then prune_history cutoff window_size rest
    else (p, kept) ∷ prune_history cutoff window_size rest

unfoldable pub stream_stability_of :
    Policy → List (String × List StreamSample) → List StreamSample → List StreamStability
stream_stability_of policy history [] = []
stream_stability_of policy history (s ∷ ss) =
    measure_streams s.proxy (get [] s.proxy history) policy.window_size
    ∷ stream_stability_of policy history ss

unfoldable pub stream_decisions :
    Sorter
    → Policy
    → ℕ
    → (String → List StreamSample)
    → List String
    → List (String × Runtime)
    → List Decision
stream_decisions sorter policy now streams [] runtimes = []
stream_decisions sorter policy now streams (n ∷ ns) runtimes =
    let rest = stream_decisions sorter policy now streams ns runtimes in
    elim (lookup n runtimes) [
      | none ↦ rest
      | some r ↦
          if r.state.automation_enabled
          then decide_steady sorter policy r.state (history_samples r) streams now ∷ rest
          else rest
    ]

unfoldable pub finish_stream_round : Sorter → Policy → ℕ → ℕ → Loop → Loop
unfolding prune_history stream_stability_of stream_decisions empty_batch
finish_stream_round sorter policy now cutoff l =
    let history = prune_history cutoff policy.window_size l.stream_history in
    record l {
      stream_history = history;
      batches =
          record (empty_batch now) {
            streams = l.stream_samples;
            stream_stability = stream_stability_of policy history l.stream_samples;
            decisions =
                stream_decisions sorter policy now (λ p. get [] p history)
                  (sorted_group_names l.runtimes) l.runtimes;
          }
          ∷ l.batches;
    }

-- `now.Add(-6 * StreamInterval)`
abbrev pub cutoff_at : Policy → ℕ → ℕ
cutoff_at policy now = now - 6 * policy.stream_interval

unfoldable pub take_stream : Policy → ℕ → StreamSample → Loop → Loop
take_stream policy now sample l = record l {
  stream_in_flight = l.stream_in_flight - 1;
  stream_samples = l.stream_samples ++ sample ∷ [];
  stream_history =
      put sample.proxy
        (prune_streams (get [] sample.proxy l.stream_history ++ sample ∷ []) (cutoff_at policy now)
          policy.window_size)
        l.stream_history;
}

unfoldable pub on_stream_result : Sorter → Policy → ℕ → StreamSample → Loop → Loop
unfolding take_stream finish_stream_round
on_stream_result sorter policy now sample l =
    let taken = take_stream policy now sample l in
    let ended = record taken { stream_active = false } in
    if not (is_empty taken.stream_pending) || ltb 0 taken.stream_in_flight
    then taken
    else if not (taken.stream_generation == taken.shared.generation)
    then ended
    else finish_stream_round sorter policy now (cutoff_at policy now) ended

unfoldable pub handle : Sorter → Policy → ℕ → Event → Loop → Loop
unfolding on_result on_stream_result
handle sorter policy now woken l =
    refresh policy now (record l { shared = record l.shared { wake = false } })
handle sorter policy now timer l = l
handle sorter policy now stream_sent l = record l {
  stream_pending = drop 1 l.stream_pending;
  stream_in_flight = suc l.stream_in_flight;
}
handle sorter policy now sent l = record l { pending = drop 1 l.pending }
handle sorter policy now (stream_received sample) l = on_stream_result sorter policy now sample l
handle sorter policy now (received task sample) l = on_result policy now task sample l
