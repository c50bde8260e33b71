-- ===== src/Monitor/Streams.antt =====
-- monitor/scheduler.go: `pruneStreams` and `streamTargets`, which bound and choose the downloads.
pub mod Prune
pub mod Targets
use clashpulse.Base.{
  ℕ, zero, suc, ◌+◌, ◌-◌, ◌%◌, max, String, Bool, true, false, not, ◌&&◌, ◌||◌, List, [], ◌∷◌, ◌++◌,
  map, Option, none, some, if◌then◌else◌, ltb, leb, ◌==◌, ◌=s◌, length, drop, get_elem?, contains,
  keep,
}
use clashpulse.Base.Sort.{sort_on}
use clashpulse.Monitor.Model.{Sample, StreamSample, GroupState}
use clashpulse.Monitor.Policy.{stream_candidates, stream_pull_cap}
use clashpulse.Monitor.Window.{recent, measure_stability}
use clashpulse.Monitor.Decide.{answers}

-- The loop that counts the expired prefix.
unfoldable pub expired_prefix : ℕ → List StreamSample → ℕ
expired_prefix cutoff [] = 0
expired_prefix cutoff (s ∷ ss) =
    let rest = expired_prefix cutoff ss in if ltb s.finished_at cutoff then suc rest else 0

unfoldable pub prune_streams : List StreamSample → ℕ → ℕ → List StreamSample
unfolding expired_prefix
prune_streams samples cutoff window_size =
    let start = max (expired_prefix cutoff samples) (length samples - window_size) in
    if start == 0 then samples else drop start samples

-- The closure `add`: a member that is new goes on the list while there is room. `seen` is the list.
unfoldable pub add_target : (String → Bool) → List String → String → List String
add_target members out proxy =
    if members proxy && not (contains proxy out) && ltb (length out) stream_pull_cap
    then out ++ proxy ∷ []
    else out

pub record Ranked : Type 0 where
  pub proxy : String
  pub median : ℕ

unfoldable pub add_selected : (String → Bool) → List GroupState → List String → List String
unfolding add_target
add_selected members [] out = out
add_selected members (g ∷ gs) out =
    add_selected members gs
      (if g.automation_enabled then add_target members out g.selected else out)

-- The members of one group that answered last, before they are sorted by their median.
unfoldable pub rank_all :
    (String → Bool) → (String → List Sample) → ℕ → String → List String → List Ranked
rank_all members history window_size selected [] = []
rank_all members history window_size selected (p ∷ ps) =
    let rest = rank_all members history window_size selected ps in
    let samples = recent (history p) window_size in
    if p =s selected || not (members p) || not (answers samples)
    then rest
    else record { proxy = p; median = (measure_stability samples 0).median } ∷ rest

unfoldable pub fastest_of : (String → Bool) → (String → List Sample) → ℕ → GroupState → List Ranked
unfolding rank_all
fastest_of members history window_size g =
    sort_on (λ r. r.median) (rank_all members history window_size g.selected g.proxies)

unfoldable pub candidate_lists :
    (String → Bool) → (String → String → List Sample) → ℕ → List GroupState → List (List Ranked)
candidate_lists members history window_size [] = []
candidate_lists members history window_size (g ∷ gs) =
    let rest = candidate_lists members history window_size gs in
    if g.automation_enabled then fastest_of members (history g.group) window_size g ∷ rest else rest

add_ranked : (String → Bool) → Option Ranked → List String → List String
unfolding add_target
add_ranked members none out = out
add_ranked members (some r) out = add_target members out r.proxy

-- `group[rank]` of the list at `(round+i)%len(candidates)`, where it exists.
ranked_at : List (List Ranked) → ℕ → ℕ → Option Ranked
ranked_at candidates index rank = elim (get_elem? candidates index) [
  | none ↦ none
  | some group ↦ get_elem? group rank
]

-- The inner loop: `left` groups are to come, the next one is number `i`.
unfoldable pub add_rank :
    (String → Bool) → List (List Ranked) → ℕ → ℕ → ℕ → ℕ → List String → List String
unfolding add_ranked ranked_at
add_rank members candidates round rank zero i out = out
add_rank members candidates round rank (suc left) i out =
    add_rank members candidates round rank left (suc i)
      (add_ranked members (ranked_at candidates ((round + i) % length candidates) rank) out)

-- The outer loop over the ranks.
unfoldable pub add_ranks :
    (String → Bool) → List (List Ranked) → ℕ → ℕ → ℕ → List String → List String
unfolding add_rank
add_ranks members candidates round zero rank out = out
add_ranks members candidates round (suc left) rank out =
    add_ranks members candidates round left (suc rank)
      (add_rank members candidates round rank (length candidates) 0 out)

unfoldable pub stream_targets :
    List GroupState → (String → String → List Sample) → (String → Bool) → ℕ → ℕ → List String
unfolding add_selected candidate_lists add_ranks
stream_targets groups history members window_size round =
    add_ranks members (candidate_lists members history window_size groups) round stream_candidates 0
      (add_selected members groups [])
