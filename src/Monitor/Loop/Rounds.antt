-- ===== src/Monitor/Loop/Rounds.antt =====
-- monitor/scheduler.go: the part of an iteration of `Run` before its `select`, which starts the
-- rounds that are due, and the deadline that the timer is set to.
use clashpulse.Base.{
  ℕ, suc, ◌+◌, String, Bool, not, ◌&&◌, ◌||◌, List, [], ◌∷◌, ◌++◌, Option, none, some,
  if◌then◌else◌, ltb, ◌==◌, ◌=s◌, is_empty, contains, length,
}
use clashpulse.Base.Assoc.{lookup, get, put, remove}
use clashpulse.Monitor.Model.{Sample, GroupState}
use clashpulse.Monitor.Policy.{Policy, switch_steady_stream}
use clashpulse.Monitor.Streams.{stream_targets}
use clashpulse.Monitor.Loop.Refresh.{
  Task, Runtime, Loop, jitter, sorted_group_names, drop_name, quiet,
}

unfoldable pub tasks_of : String → List String → List Task
tasks_of group [] = []
tasks_of group (p ∷ ps) = record { group = group; proxy = p } ∷ tasks_of group ps

unfoldable pub is_due : ℕ → Runtime → Bool
is_due now r = r.state.probe_enabled && not (r.next == 0) && not (ltb now r.next)

abbrev pub quiet_runtime : GroupState → Runtime
quiet_runtime state = record { state = state; next = 0; history = []; alert = quiet }

-- The part of the round's loop for a group that is due or forced.
unfoldable pub start_group : Policy → ℕ → ℕ → String → Runtime → Loop → Loop
unfolding tasks_of
start_group policy now draw name r l = record l {
  forced = drop_name name l.forced;
  shared = record l.shared { dial_failures = remove name l.shared.dial_failures };
  runtimes =
      if r.state.probe_enabled
      then put name (record r { next = now + (policy.interval + jitter policy.jitter draw) })
          l.runtimes
      else l.runtimes;
  active_groups = l.active_groups ++ name ∷ [];
  remaining = put name (length r.state.proxies) l.remaining;
  pending = l.pending ++ tasks_of name r.state.proxies;
}

start_if_due : Policy → ℕ → ℕ → String → Option Runtime → Loop → Loop
unfolding start_group
start_if_due policy now draw name none l = l
start_if_due policy now draw name (some r) l =
    if is_due now r || contains name l.forced then start_group policy now draw name r l else l

unfoldable pub start_groups : Policy → ℕ → (String → ℕ) → List String → Loop → Loop
unfolding start_if_due
start_groups policy now draws [] l = l
start_groups policy now draws (n ∷ ns) l =
    start_groups policy now draws ns (start_if_due policy now (draws n) n (lookup n l.runtimes) l)

unfoldable pub start_round : Policy → ℕ → (String → ℕ) → Loop → Loop
unfolding start_groups
start_round policy now draws l =
    let started = start_groups policy now draws (sorted_group_names l.runtimes) (record l {
      pending = [];
      active_groups = [];
      remaining = [];
      batch_samples = [];
      batch_generation = l.shared.generation;
    }) in
    record started { active = not (is_empty started.active_groups) }

unfoldable pub states_of : List String → List (String × Runtime) → List GroupState
states_of [] runtimes = []
states_of (n ∷ ns) runtimes = elim (lookup n runtimes) [
  | none ↦ states_of ns runtimes
  | some r ↦ r.state ∷ states_of ns runtimes
]

unfoldable pub history_at : List (String × Runtime) → String → String → List Sample
history_at runtimes group proxy = elim (lookup group runtimes) [
  | none ↦ []
  | some r ↦ get [] proxy r.history
]

unfoldable pub start_stream_round : Policy → ℕ → ℕ → Loop → Loop
unfolding states_of history_at
start_stream_round policy now draw l =
    let targets =
      stream_targets (states_of (sorted_group_names l.runtimes) l.runtimes) (history_at l.runtimes)
        (λ n. contains n l.shared.members) policy.window_size l.stream_round in
    record l {
      stream_generation = l.shared.generation;
      stream_pending = targets;
      stream_round = suc l.stream_round;
      stream_next = now + (policy.stream_interval + jitter policy.jitter draw);
      stream_samples = [];
      stream_active = not (is_empty targets);
    }

-- The part of an iteration before its `select`.
unfoldable pub prepare : Policy → ℕ → (String → ℕ) → ℕ → Loop → Loop
unfolding start_round start_stream_round
prepare policy now draws draw l =
    let started = start_round policy now draws l in
    if l.active
    then l
    else if policy.switch_policy =s switch_steady_stream
        && not started.active
        && not started.stream_active
        && not (started.stream_next == 0)
        && not (ltb now started.stream_next)
    then start_stream_round policy now draw started
    else started

earlier : ℕ → Runtime → ℕ
earlier best r =
    if not r.state.probe_enabled || r.next == 0
    then best
    else if best == 0 || ltb r.next best
    then r.next
    else best

unfoldable pub next_deadline_from : ℕ → List (String × Runtime) → ℕ
unfolding earlier
next_deadline_from best [] = best
next_deadline_from best ((name, r) ∷ rs) = next_deadline_from (earlier best r) rs

unfoldable pub next_deadline : List (String × Runtime) → ℕ
unfolding next_deadline_from
next_deadline = next_deadline_from 0

-- The deadline that the timer is set to; 0 stops the timer.
unfoldable pub deadline : Policy → Loop → ℕ
deadline policy l =
    let probes = next_deadline l.runtimes in
    if l.active
    then 0
    else if policy.switch_policy =s switch_steady_stream
        && not l.stream_active
        && not (l.stream_next == 0)
        && (probes == 0 || ltb l.stream_next probes)
    then l.stream_next
    else probes
