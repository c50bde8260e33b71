-- ===== src/Subscriptions/Activate.antt =====
-- subscriptions/fetch.go: `Activate`, which applies a stored generation to the runtime and commits it,
-- or goes back. The state is the store and the profile that the runtime runs.
pub mod Calls
pub mod Ends
pub mod Sound
use clashpulse.Base.{
  ℕ, String, Bool, true, false, not, ◌&&◌, ◌||◌, Option, none, some, List, [], if◌then◌else◌, ◌=s◌,
  is_blank,
}
use clashpulse.Subscriptions.Model.{
  StoreError, not_found, no_snapshot, invalid, active, already_exists, store_failed,
  cleanup_pending, Result, ok, err, valid_id,
}
use clashpulse.Subscriptions.Store.{Bytes, Rec, Dir, Store, Marker, StoreOutcome}
use clashpulse.Subscriptions.Store.Generations.{
  Pair, pair_of, CleanIo, record_snapshot, active_profile, cleanup_applied,
}
use clashpulse.Subscriptions.Store.Applied.{
  set_applied, restore_applied, mark_activation_pending, clear_activation_pending,
  mark_activation_accepted, retry_accepted_activation_cleanup,
}

pub record World : Type 0 where
  pub store : Store
  pub runtime : Option Bytes

-- The errors, by what they join.
pub data ActivateError : Type 0 where
  refused : StoreError → ActivateError
  cleanup_before : StoreError → ActivateError
  not_read : ActivateError
  stopped : ActivateError
  not_applied : ActivateError
  not_stored : ActivateError
  not_stored_nor_restored : ActivateError
  not_stored_nor_cleared : StoreError → ActivateError
  not_finalized : ActivateError
  not_finalized_nor_restored : ActivateError
  not_finalized_nor_pointed_back : ActivateError
  not_finalized_nor_cleared : ActivateError
  cleanup_after : StoreError → ActivateError

abbrev pub Activated : Type 0
Activated = Option ActivateError × World

-- What the calls answer. `Apply` and `Restore` leave the runtime with some profile where they fail;
-- `commit_id` is blank where no resources wait to be committed.
pub record ActivateIo : Type 0 where
  pub retry_readable : Bool
  pub retry_ok : Bool
  pub readable : Bool
  pub previous_readable : Bool
  pub is_stopped : Bool
  pub apply_ok : Bool
  pub apply_stopped : Bool
  pub after_apply : Option Bytes
  pub commit_id : String
  pub stat_ok : Bool
  pub mark_ok : Bool
  pub set_readable : Bool
  pub set_ok : Bool
  pub finalize : Option Bool
  pub restore_ok : Bool
  pub after_restore : Option Bytes
  pub back_readable : Bool
  pub back_ok : Bool
  pub clear_ok : Bool
  pub accept_readable : Bool
  pub accept_ok : Bool
  pub clean : String → CleanIo

file_at : Pair → Option Dir → Bytes
file_at p none = []
file_at p (some d) = elim (d.profiles p.profile_hash) [ none ↦ [] | some b ↦ b ]

-- The profile that `recordSnapshot` has read.
unfoldable pub snapshot_profile : String → Rec → Store → Bytes
unfolding file_at
snapshot_profile id r s = file_at (pair_of r) (s.disk.dirs id)

-- The profile to go back to; none stored is an empty one.
unfoldable pub previous_of : Result (String × Bytes) → Option Bytes
previous_of (ok (id, b)) = some b
previous_of (err no_snapshot) = some []
previous_of (err _) = none

abbrev pub with_store : World → Store → World
with_store w s = record w { store = s }

-- `Restore` of the previous profile.
unfoldable pub restored : ActivateIo → Bytes → World → World
restored io previous w = record w {
  runtime = if io.restore_ok then some previous else io.after_restore;
}

unfoldable pub already_applied : String → Rec → Store → Bool
already_applied id r s =
    s.current.id =s id
    && r.applied_profile_hash =s r.hash
    && r.applied_candidate_hash =s r.candidate_hash

-- What is being activated: the record, what was active, and whether resources wait.
pub record Plan : Type 0 where
  pub id : String
  pub generation : Pair
  pub previous : Marker
  pub previous_profile : Bytes
  pub already : Bool
  pub pending : Bool

abbrev pub target_of : Plan → Marker
target_of p = record {
  id = p.id;
  profile_hash = p.generation.profile_hash;
  candidate_hash = p.generation.candidate_hash;
}

-- The marker of the pending activation is cleared, where there is one.
unfoldable pub cleared : ActivateIo → Plan → Store → StoreOutcome
cleared io p s = if p.pending then clear_activation_pending io.clear_ok s else (none, s)

unfoldable pub clean_up : ActivateIo → Plan → World → Activated
clean_up io p w = (none, if p.already then w else with_store w (cleanup_applied io.clean w.store))

unfoldable pub accepted : ActivateIo → Plan → World → Activated
unfolding clean_up
accepted io p w =
    if not p.pending
    then clean_up io p w
    else let marked = mark_activation_accepted io.accept_readable io.accept_ok w.store in
      elim (marked.0) [
        | some e ↦ (some (cleanup_after e), with_store w (marked.1))
        | none ↦
            let done = clear_activation_pending io.clear_ok (marked.1) in
            elim (done.0) [
              | some e ↦ (some (cleanup_after e), with_store w (done.1))
              | none ↦ clean_up io p (with_store w (done.1))
            ]
      ]

module _ (hash : Bytes → String) where
  unfoldable pub not_finalized_after : ActivateIo → Plan → World → Activated
  unfolding cleared restored
  not_finalized_after io p w =
      let back = restored io p.previous_profile w in
      if not io.restore_ok
      then (some not_finalized_nor_restored, back)
      else if p.already
      then (some not_finalized, back)
      else let pointed = restore_applied hash io.back_readable io.back_ok p.previous w.store in
        elim (pointed.0) [
          | some e ↦ (some not_finalized_nor_pointed_back, with_store back (pointed.1))
          | none ↦
              let done = cleared io p (pointed.1) in
              elim (done.0) [
                | some e ↦ (some not_finalized_nor_cleared, with_store back (done.1))
                | none ↦ (some not_finalized, with_store back (done.1))
              ]
        ]

  unfoldable pub finalized : ActivateIo → Plan → Option Bool → World → Activated
  unfolding accepted not_finalized_after
  finalized io p (some false) w = not_finalized_after io p w
  finalized io p (some true) w = accepted io p w
  finalized io p none w = accepted io p w

  unfoldable pub not_stored_after : ActivateIo → Plan → World → Activated
  unfolding cleared restored
  not_stored_after io p w =
      let back = restored io p.previous_profile w in
      if not io.restore_ok
      then (some not_stored_nor_restored, back)
      else let done = cleared io p w.store in
        elim (done.0) [
          | some e ↦ (some (not_stored_nor_cleared e), with_store back (done.1))
          | none ↦ (some not_stored, with_store back (done.1))
        ]

  unfoldable pub pointed_at : ActivateIo → Plan → World → Activated
  unfolding finalized not_stored_after
  pointed_at io p w =
      let set = set_applied hash io.set_readable io.set_ok (target_of p) w.store in
      elim (set.0) [
        | some e ↦ not_stored_after io p (with_store w (set.1))
        | none ↦ finalized io p io.finalize (with_store w (set.1))
      ]

  unfoldable pub committed : ActivateIo → Plan → World → Activated
  unfolding finalized pointed_at restored
  committed io p w =
      if p.already
      then finalized io p io.finalize w
      else if not p.pending
      then pointed_at io p w
      else let marked =
          mark_activation_pending io.stat_ok io.mark_ok p.previous io.commit_id w.store in
        elim (marked.0) [
          | some e ↦ (
            some (if io.restore_ok then not_stored else not_stored_nor_restored),
            restored io p.previous_profile (with_store w (marked.1)),
          )
          | none ↦ pointed_at io p (with_store w (marked.1))
        ]

  unfoldable pub plan_of : ActivateIo → String → Rec → Bytes → Store → Plan
  unfolding already_applied
  plan_of io id r previous s = record {
    id = id;
    generation = pair_of r;
    previous = s.current;
    previous_profile = previous;
    already = already_applied id r s;
    pending = not (already_applied id r s) && not (is_blank io.commit_id);
  }

  unfoldable pub applied_with : ActivateIo → String → Rec → Option Bytes → World → Activated
  unfolding committed plan_of snapshot_profile
  applied_with io id r none w = (some not_read, w)
  applied_with io id r (some previous) w =
      if io.is_stopped
      then (some stopped, w)
      else if not io.apply_ok
      then (
        some (if io.apply_stopped then stopped else not_applied),
        record w { runtime = io.after_apply },
      )
      else committed io (plan_of io id r previous w.store)
          (record w { runtime = some (snapshot_profile id r w.store) })

  unfoldable pub with_snapshot : ActivateIo → String → Result Rec → World → Activated
  unfolding applied_with previous_of
  with_snapshot io id (err e) w = (some (refused e), w)
  with_snapshot io id (ok r) w =
      applied_with io id r (previous_of (active_profile hash io.previous_readable w.store)) w

  unfoldable pub with_retried : ActivateIo → String → Option StoreError → World → Activated
  unfolding with_snapshot
  with_retried io id (some e) w = (some (cleanup_before e), w)
  with_retried io id none w = with_snapshot io id (record_snapshot hash io.readable id w.store) w

  -- The second comparison of the candidate's hash is left out, which `recordSnapshot` has made.
  unfoldable pub activate : ActivateIo → String → World → Activated
  unfolding with_retried
  activate io id w =
      if not (valid_id id)
      then (some (refused invalid), w)
      else let retried = retry_accepted_activation_cleanup io.retry_readable io.retry_ok w.store in
        with_retried io id (retried.0) (with_store w (retried.1))
