-- ===== src/Monitor/Loop/Bounded.antt =====
-- monitor/scheduler.go: the histories that `Run` keeps do not outgrow the window.
use mathlib.Core.Path.{subst}
use clashpulse.Base.{
  ℕ, ◌-◌, ◌≤◌, ◌≡◌, refl, sym, String, false, not, ◌||◌, ◌&&◌, List, [], ◌∷◌, ◌++◌, Option, none,
  some, if◌then◌else◌, ltb, ◌==◌, ◌=s◌, contains, length, is_empty, All, keep, arith, Bool-cases,
  inl, inr, length-drop,
}
use clashpulse.Base.Assoc.{lookup, put, get}
use clashpulse.Monitor.Model.{Batch, Sample, StreamSample, GroupState}
use clashpulse.Monitor.Policy.{Policy}
use clashpulse.Monitor.Alert.{update_latency_alert}
use clashpulse.Monitor.Steady.{Sorter}
use clashpulse.Monitor.Scheduler.{list_of}
use clashpulse.Monitor.Loop.Refresh.{
  Loop, Runtime, Task, refresh, refresh_groups, refresh_group, next_runtime, fresh_runtime,
  update_runtime, drop_absent, group_names,
}
use clashpulse.Monitor.Loop.Events.{
  Event, woken, timer, stream_sent, sent, stream_received, received, handle, on_result,
  on_stream_result, take_result, take_stream, finish_round, finish_stream_round, forget_groups,
  forget, update_runtime_at, update_at, record_sample, report_groups, report_if, report_group,
  Report, empty_batch, last_n, all_done,
}
use mathlib.Core.Option.{some-injective}

All-put {ℓ κ} :
    {V : Type ℓ}
    → (P : V → Type κ) (k : String) (v : V) (m : List (String × V)) → P v
    → All (λ e. P (e.1)) m
    → All (λ e. P (e.1)) (put k v m)
unfolding put
All-put P k v [] p h = (p, tt)
All-put P k v ((j, w) ∷ m) p h = elim (Bool-cases (j =s k)) [
  | inl t ↦ rw (put, t) (p, h.1)
  | inr f ↦ rw (put, f) (h.0, All-put P k v m p h.1)
]

All-lookup {ℓ κ} :
    {V : Type ℓ}
    → (P : V → Type κ) (k : String) (v : V) (m : List (String × V)) → All (λ e. P (e.1)) m
    → lookup k m ≡ some v
    → P v
unfolding lookup
All-lookup P k v [] h e = cc
All-lookup P k v ((j, w) ∷ m) h e = elim (Bool-cases (j =s k)) [
  | inl t ↦ subst P (some-injective w v (rw (lookup, t) at e)) h.0
  | inr f ↦ All-lookup P k v m h.1 (rw (lookup, f) at e)
]

-- The samples of every proxy fit into the window.
unfoldable pub FitsWindow : ℕ → Runtime → Type 0
FitsWindow w r = All (λ (e : String × List Sample). length (e.1) ≤ w) r.history

unfoldable pub AllFit : ℕ → List (String × Runtime) → Type 0
AllFit w rs = All (λ (e : String × Runtime). FitsWindow w (e.1)) rs

last_n_le : (n : ℕ) (xs : List Sample) → length (last_n n xs) ≤ n
last_n_le n xs = ground (arith, length-drop (length xs - n) xs)

record_sample-FitsWindow :
    (w : ℕ) (t : Task) (s : Sample) (r : Runtime)
    → FitsWindow w r
    → FitsWindow w (record_sample w t s r)
unfolding FitsWindow record_sample
record_sample-FitsWindow w t s r h =
    All-put (λ (xs : List Sample). length xs ≤ w) t.proxy
      (last_n w (get [] t.proxy r.history ++ s ∷ [])) r.history
      (last_n_le w (get [] t.proxy r.history ++ s ∷ [])) h

module _ (w : ℕ) where
  update_at-AllFit :
      (f : Runtime → Runtime) (name : String) (rs : List (String × Runtime))
      → ((r : Runtime) → FitsWindow w r → FitsWindow w (f r))
      → AllFit w rs
      → AllFit w (update_runtime_at f name rs)
  unfolding update_runtime_at AllFit update_at
  update_at-AllFit f name rs g h = at_option (lookup name rs) refl
    where
      at_option : (o : Option Runtime) → lookup name rs ≡ o → AllFit w (update_at f name o rs)
      at_option none e = h
      at_option (some r) e =
          All-put (FitsWindow w) name (f r) rs (g r (All-lookup (FitsWindow w) name r rs h e)) h

  forget_groups-AllFit :
      (ns : List String) (rs : List (String × Runtime))
      → AllFit w rs
      → AllFit w (forget_groups ns rs)
  unfolding forget_groups forget FitsWindow
  forget_groups-AllFit [] rs h = h
  forget_groups-AllFit (n ∷ ns) rs h =
      forget_groups-AllFit ns (update_runtime_at forget n rs)
        (update_at-AllFit forget n rs (λ r k. tt) h)

  report_groups-AllFit :
      (policy : Policy) (ns : List String) (b : Report)
      → AllFit w b.runtimes
      → AllFit w (report_groups policy ns b).runtimes
  unfolding report_groups report_if report_group AllFit FitsWindow
  report_groups-AllFit policy [] b h = h
  report_groups-AllFit policy (n ∷ ns) b h =
      report_groups-AllFit policy ns (report_if policy n (lookup n b.runtimes) b)
        (reported (lookup n b.runtimes) refl)
    where
      reported :
          (o : Option Runtime)
          → lookup n b.runtimes ≡ o
          → AllFit w (report_if policy n o b).runtimes
      reported none e = h
      reported (some r) e =
          All-put (FitsWindow w) n
            (record r {
              alert =
                  (update_latency_alert policy r.state (keep (λ s. s.group =s n) b.batch.samples)
                    r.alert).0;
            })
            b.runtimes (All-lookup (FitsWindow w) n r b.runtimes h e) h

  next_runtime-FitsWindow :
      (o : Option Runtime) (state : GroupState) (now : ℕ)
      → ((r : Runtime) → o ≡ some r → FitsWindow w r)
      → FitsWindow w (next_runtime o state now)
  unfolding next_runtime fresh_runtime update_runtime FitsWindow
  next_runtime-FitsWindow none state now h = tt
  next_runtime-FitsWindow (some old) state now h = elim (Bool-cases state.probe_enabled) [
    | inl t ↦ rw t (h old refl)
    | inr f ↦ rw f tt
  ]

  drop_absent-AllFit :
      (present : List String) (rs : List (String × Runtime))
      → AllFit w rs
      → AllFit w (drop_absent present rs)
  unfolding drop_absent AllFit
  drop_absent-AllFit present [] h = tt
  drop_absent-AllFit present ((n, r) ∷ rs) h = elim (Bool-cases (contains n present)) [
    | inl t ↦ rw (drop_absent, t) (h.0, drop_absent-AllFit present rs h.1)
    | inr f ↦ rw (drop_absent, f) (drop_absent-AllFit present rs h.1)
  ]

  refresh_groups-AllFit :
      (now : ℕ) (gs : List GroupState) (l : Loop)
      → AllFit w l.runtimes
      → AllFit w (refresh_groups now gs l).runtimes
  unfolding refresh_groups refresh_group AllFit
  refresh_groups-AllFit now [] l h = h
  refresh_groups-AllFit now (g ∷ gs) l h = refresh_groups-AllFit now gs (refresh_group now g l) (
      All-put (FitsWindow w) g.group (next_runtime (lookup g.group l.runtimes) g now) l.runtimes
        (next_runtime-FitsWindow (lookup g.group l.runtimes) g now
          (λ r e. All-lookup (FitsWindow w) g.group r l.runtimes h e))
        h)

  refresh-AllFit :
      (policy : Policy) (now : ℕ) (l : Loop)
      → AllFit w l.runtimes
      → AllFit w (refresh policy now l).runtimes
  unfolding refresh
  refresh-AllFit policy now l h =
      let taken = record l { shared = record l.shared { requests = [] } } in
      drop_absent-AllFit (group_names (list_of l.shared.groups))
        (refresh_groups now (list_of l.shared.groups) taken).runtimes
        (refresh_groups-AllFit now (list_of l.shared.groups) taken h)

finish_round-AllFit :
    (policy : Policy) (now w : ℕ) (l : Loop)
    → AllFit w l.runtimes
    → AllFit w (finish_round policy now l).runtimes
unfolding finish_round
finish_round-AllFit policy now w l h =
    refresh-AllFit w policy now
      (record l { runtimes = done.runtimes; batches = done.batch ∷ l.batches; active = false })
      (elim (Bool-cases (l.batch_generation == l.shared.generation)) [
        | inl t ↦ rw t (
            report_groups-AllFit w policy l.active_groups
              (record { batch = batch; runtimes = l.runtimes }) h)
        | inr f ↦ rw f (forget_groups-AllFit w l.active_groups l.runtimes h)
      ])
  where
    batch : Batch
    batch = record (empty_batch now) { samples = l.batch_samples }

    done : Report
    done =
        if l.batch_generation == l.shared.generation
        then report_groups policy l.active_groups (record { batch = batch; runtimes = l.runtimes })
        else record { batch = batch; runtimes = forget_groups l.active_groups l.runtimes }

on_result-AllFit :
    (policy : Policy) (now : ℕ) (t : Task) (s : Sample) (l : Loop)
    → AllFit policy.window_size l.runtimes
    → AllFit policy.window_size (on_result policy now t s l).runtimes
unfolding on_result take_result
on_result-AllFit policy now t s l h =
    let kept =
      update_at-AllFit policy.window_size (record_sample policy.window_size t s) t.group l.runtimes
        (λ r k. record_sample-FitsWindow policy.window_size t s r k) h in
    let taken = take_result policy t s l in
    elim (Bool-cases (get 0 t.group taken.remaining == 0 && all_done taken.remaining)) [
      | inl y ↦ rw (on_result, y) (finish_round-AllFit policy now policy.window_size taken kept)
      | inr n ↦ rw (on_result, n) kept
    ]

on_stream_result-runtimes :
    (sorter : Sorter) (policy : Policy) (now : ℕ) (s : StreamSample) (l : Loop)
    → (on_stream_result sorter policy now s l).runtimes ≡ l.runtimes
unfolding on_stream_result take_stream finish_stream_round
on_stream_result-runtimes sorter policy now s l =
    let taken = take_stream policy now s l in
    elim (Bool-cases (not (is_empty taken.stream_pending) || ltb 0 taken.stream_in_flight)) [
      | inl y ↦ rw (on_stream_result, y) refl
      | inr n ↦ elim (Bool-cases (not (taken.stream_generation == taken.shared.generation))) [
        | inl y ↦ rw (on_stream_result, n, y) refl
        | inr m ↦ rw (on_stream_result, n, m) refl
      ]
    ]

-- Whatever event `Run` handles, a refresh, a result that ends a round or one that does not: if the
-- samples that it keeps for every proxy of every group fit into the window, they still do after it.
pub handle-AllFit :
    (sorter : Sorter) (policy : Policy) (now : ℕ) (e : Event) (l : Loop)
    → AllFit policy.window_size l.runtimes
    → AllFit policy.window_size (handle sorter policy now e l).runtimes
unfolding handle
handle-AllFit sorter policy now woken l h =
    refresh-AllFit policy.window_size policy now
      (record l { shared = record l.shared { wake = false } }) h
handle-AllFit sorter policy now timer l h = h
handle-AllFit sorter policy now stream_sent l h = h
handle-AllFit sorter policy now sent l h = h
handle-AllFit sorter policy now (stream_received s) l h =
    subst (AllFit policy.window_size) (sym (on_stream_result-runtimes sorter policy now s l)) h
handle-AllFit sorter policy now (received t s) l h = on_result-AllFit policy now t s l h
