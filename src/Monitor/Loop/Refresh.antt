-- ===== src/Monitor/Loop/Refresh.antt =====
-- monitor/scheduler.go: the state of `Run` and its closure `refresh`, which takes in what the callers
-- changed. `draws` are the random numbers behind the jitter; `batches` records the calls of
-- `onBatch`, newest first.
use clashpulse.Base.{
  ℕ, ◌+◌, ◌%◌, String, Bool, false, not, ◌&&◌, ◌||◌, List, [], ◌∷◌, Option, none, some,
  if◌then◌else◌, ◌==◌, ◌=s◌, contains, text_lt, keep,
}
use clashpulse.Base.Assoc.{lookup, put, keys}
use clashpulse.Monitor.Model.{Sample, StreamSample, GroupState, AlertState, Batch}
use clashpulse.Monitor.Policy.{ℤ, pos, negsuc, Policy, switch_steady_stream}
use clashpulse.Monitor.Scheduler.{Shared, list_of, same_group, add_name}

pub record Task : Type 0 where
  pub group : String
  pub proxy : String

pub record Runtime : Type 0 where
  pub state : GroupState
  pub next : ℕ
  pub history : List (String × List Sample)
  pub alert : AlertState

pub record Loop : Type 0 where
  pub shared : Shared
  pub runtimes : List (String × Runtime)
  pub forced : List String
  pub pending : List Task
  pub active : Bool
  pub remaining : List (String × ℕ)
  pub active_groups : List String
  pub batch_samples : List Sample
  pub batch_generation : ℕ
  pub stream_next : ℕ
  pub stream_history : List (String × List StreamSample)
  pub stream_pending : List String
  pub stream_active : Bool
  pub stream_in_flight : ℕ
  pub stream_samples : List StreamSample
  pub stream_generation : ℕ
  pub stream_round : ℕ
  pub batches : List Batch

-- `rand.Int64N(Jitter+1)` is the draw, cut to its range.
unfoldable pub jitter : ℤ → ℕ → ℕ
jitter (pos j) draw = draw % (j + 1)
jitter (negsuc j) draw = 0

insert_name : String → List String → List String
insert_name n [] = n ∷ []
insert_name n (m ∷ ms) = if text_lt m n then m ∷ insert_name n ms else n ∷ m ∷ ms

-- `sort.Strings`
unfoldable pub sort_names : List String → List String
unfolding insert_name
sort_names [] = []
sort_names (n ∷ ns) = insert_name n (sort_names ns)

unfoldable pub sorted_group_names : List (String × Runtime) → List String
unfolding sort_names
sorted_group_names runtimes = sort_names (keys runtimes)

abbrev pub drop_name : String → List String → List String
drop_name n = keep (λ m. not (m =s n))

abbrev pub quiet : AlertState
quiet = record { high_latency = false }

unfoldable pub fresh_runtime : GroupState → ℕ → Runtime
fresh_runtime state now = record {
  state = state;
  next = if state.probe_enabled then now else 0;
  history = [];
  alert = quiet;
}

-- A group that was known before: probes that are switched on start now, and switched off they
-- forget the history.
unfoldable pub update_runtime : Runtime → GroupState → ℕ → Runtime
update_runtime old state now =
    if state.probe_enabled
    then record old { state = state; next = if not old.state.probe_enabled then now else old.next }
    else record old { state = state; next = 0; history = []; alert = quiet }

unfoldable pub next_runtime : Option Runtime → GroupState → ℕ → Runtime
unfolding fresh_runtime update_runtime
next_runtime none state now = fresh_runtime state now
next_runtime (some old) state now = update_runtime old state now

is_changed : Option Runtime → GroupState → Bool
is_changed none state = false
is_changed (some old) state = not (same_group old.state state) && state.probe_enabled

unfoldable pub refresh_group : ℕ → GroupState → Loop → Loop
unfolding next_runtime is_changed
refresh_group now state l =
    let old = lookup state.group l.runtimes in
    record l {
      runtimes = put state.group (next_runtime old state now) l.runtimes;
      forced = if is_changed old state then add_name state.group l.forced else l.forced;
    }

unfoldable pub refresh_groups : ℕ → List GroupState → Loop → Loop
unfolding refresh_group
refresh_groups now [] l = l
refresh_groups now (g ∷ gs) l = refresh_groups now gs (refresh_group now g l)

unfoldable pub group_names : List GroupState → List String
group_names [] = []
group_names (g ∷ gs) = g.group ∷ group_names gs

unfoldable pub drop_absent : List String → List (String × Runtime) → List (String × Runtime)
drop_absent present [] = []
drop_absent present ((name, r) ∷ rs) =
    if contains name present then (name, r) ∷ drop_absent present rs else drop_absent present rs

-- The names of `forced` whose runtime is deleted go with it.
unfoldable pub drop_forced : List String → List (String × Runtime) → List String → List String
drop_forced present runtimes = keep (λ n. contains n present || not (contains n (keys runtimes)))

unfoldable pub any_automated : List (String × Runtime) → Bool
any_automated [] = false
any_automated ((name, r) ∷ rs) = r.state.automation_enabled || any_automated rs

unfoldable pub stream_start : Policy → ℕ → Loop → ℕ
stream_start policy now l =
    if policy.switch_policy =s switch_steady_stream
    then (if not (any_automated l.runtimes)
        then 0
        else if l.stream_next == 0
        then now
        else l.stream_next)
    else l.stream_next

unfoldable pub force_requests : List String → List (String × Runtime) → List String → List String
force_requests [] runtimes forced = forced
force_requests (n ∷ ns) runtimes forced =
    force_requests ns runtimes (if contains n (keys runtimes) then add_name n forced else forced)

-- The closure `refresh`.
unfoldable pub refresh : Policy → ℕ → Loop → Loop
unfolding refresh_groups group_names drop_absent drop_forced force_requests stream_start
refresh policy now l =
    let inputs = list_of l.shared.groups in
    let requests = l.shared.requests in
    let taken = record l { shared = record l.shared { requests = [] } } in
    let seen = refresh_groups now inputs taken in
    let pruned = record seen {
      runtimes = drop_absent (group_names inputs) seen.runtimes;
      forced = drop_forced (group_names inputs) seen.runtimes seen.forced;
    } in
    record pruned {
      stream_next = stream_start policy now pruned;
      forced = force_requests requests pruned.runtimes pruned.forced;
    }
