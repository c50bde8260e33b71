-- ===== src/Monitor/Tests/Rounds.antt =====
-- A result that ends a round of the loop.
use clashpulse.Base.{true, false, [], ◌∷◌, some, arith}
use clashpulse.Monitor.Policy.{default_policy}
use clashpulse.Monitor.Loop.Refresh.{Loop}
use clashpulse.Monitor.Loop.Events.{received, handle}
use clashpulse.Monitor.Loop.Bounded.{AllFit, FitsWindow, handle-AllFit}
use clashpulse.Monitor.Tests.{probe, auto_group}
use clashpulse.Monitor.Tests.Streams.{insertion_sorter}

-- One task of the group is outstanding; two samples of `a` are kept.
abbrev one_outstanding : Loop
one_outstanding = record {
  shared = record {
    groups = some (auto_group "a" ∷ []);
    generation = 1;
    requests = [];
    dial_failures = [];
    last_dial_probe = [];
    members = [];
    wake = false;
  };
  runtimes =
      (
        "auto",
        record {
          state = auto_group "a";
          next = 9;
          history = ("a", probe "a" 300 1 ∷ probe "a" 310 2 ∷ []) ∷ [];
          alert = record { high_latency = false };
        },
      )
      ∷ [];
  forced = [];
  pending = [];
  active = true;
  remaining = ("auto", 1) ∷ [];
  active_groups = "auto" ∷ [];
  batch_samples = [];
  batch_generation = 1;
  stream_next = 0;
  stream_history = [];
  stream_pending = [];
  stream_active = false;
  stream_in_flight = 0;
  stream_samples = [];
  stream_generation = 0;
  stream_round = 0;
  batches = [];
}

handle-AllFit_example :
    AllFit default_policy.window_size
      (handle insertion_sorter default_policy 5
        (received (record { group = "auto"; proxy = "a" }) (probe "a" 305 5))
        one_outstanding).runtimes
unfolding AllFit FitsWindow
handle-AllFit_example =
    handle-AllFit insertion_sorter default_policy 5
      (received (record { group = "auto"; proxy = "a" }) (probe "a" 305 5)) one_outstanding
      ((omega arith, tt), tt)
