-- ===== src/Subscriptions/Activate/Sound.antt =====
-- subscriptions/fetch.go: an activation commits or goes back.
use mathlib.Core.Path.{subst}
use mathlib.Core.Option.{some-injective}
use clashpulse.Base.{
  ◌≡◌, refl, sym, ap, ◌∙◌, String, true, not, Option, none, some, ◌=s◌, =s→eq, eq→=s, arith,
  Bool-cases, inl, inr,
}
use clashpulse.Monitor.Policy.{Url}
use clashpulse.Subscriptions.Model.{StoreError, Result, ok, err, valid_id}
use clashpulse.Subscriptions.Store.{Bytes, Rec, Store}
use clashpulse.Subscriptions.Store.Generations.{applied_pair, record_snapshot, active_profile}
use clashpulse.Subscriptions.Store.Applied.{
  pair_of_marker, set_pending, retry_accepted_activation_cleanup,
}
use clashpulse.Subscriptions.Store.Sound.{IsSound}
use clashpulse.Subscriptions.Store.Sound.Changes.{IsSound-found}
use clashpulse.Subscriptions.Store.Sound.Pointer.{set_pending-IsSound}
use clashpulse.Subscriptions.Store.Sound.Recover.{IsSound-current}
use clashpulse.Subscriptions.Activate.{
  World, Activated, ActivateIo, snapshot_profile, previous_of, with_store, already_applied, plan_of,
  applied_with, with_snapshot, with_retried, activate,
}
use clashpulse.Subscriptions.Activate.Calls.{if_cases, retry-cases, snapshot-record}
use clashpulse.Subscriptions.Activate.Ends.{Ends, committed-Ends}

module _ (parse : String → Option Url) (hash : Bytes → String) where
  -- What is already applied is the active generation.
  already-current :
      (id : String) (r : Rec) (s : Store)
      → IsSound parse hash s
      → s.records id ≡ some r
      → already_applied id r s ≡ true
      → s.current ≡ record { id = id; profile_hash = r.hash; candidate_hash = r.candidate_hash }
  unfolding already_applied
  already-current id r s h e t =
      let (d, f, w) = IsSound-found parse hash s id r h e in
      let here : (id =s s.current.id) ≡ true =
        eq→=s id s.current.id (sym (=s→eq s.current.id id (ground (arith, t)))) in
      let at : applied_pair r ≡ pair_of_marker s.current = w.applied ∙ rw here refl in
      let first : r.applied_profile_hash ≡ r.hash =
        =s→eq r.applied_profile_hash r.hash (ground (arith, t)) in
      let second : r.applied_candidate_hash ≡ r.candidate_hash =
        =s→eq r.applied_candidate_hash r.candidate_hash (ground (arith, t)) in
      λ i. record {
        id = =s→eq s.current.id id (ground (arith, t)) i;
        profile_hash = (sym (ap (λ z. z.profile_hash) at) ∙ first) i;
        candidate_hash = (sym (ap (λ z. z.candidate_hash) at) ∙ second) i;
      }

  applied_with-Ends :
      (io : ActivateIo) (id : String) (r : Rec) (o : Option Bytes) (w : World)
      → IsSound parse hash w.store
      → w.store.records id ≡ some r
      → Ends
          (record { id = id; profile_hash = r.hash; candidate_hash = r.candidate_hash })
          w.store.current
          (some (snapshot_profile id r w.store))
          o
          ((applied_with hash io id r o w).0)
          ((applied_with hash io id r o w).1)
  unfolding applied_with plan_of Ends
  applied_with-Ends io id r none w h e = refl
  applied_with-Ends io id r (some previous) w h e =
      let E : Activated → Type 0 = λ o.
        Ends (record { id = id; profile_hash = r.hash; candidate_hash = r.candidate_hash })
          w.store.current (some (snapshot_profile id r w.store)) (some previous) (o.0) (o.1) in
      if_cases E io.is_stopped _ _ (λ t. refl)
        (λ n.
          if_cases E (not io.apply_ok) _ _
            (λ t. elim (Bool-cases io.apply_stopped) [ inl u ↦ rw u refl | inr u ↦ rw u refl ])
            (λ n'.
              committed-Ends hash (some (snapshot_profile id r w.store)) io
                (plan_of hash io id r previous w.store)
                (record w { runtime = some (snapshot_profile id r w.store) })
                ((IsSound-current parse hash w.store h).0) (already-current id r w.store h e) refl
                refl))

  with_snapshot-Ends :
      (io : ActivateIo) (id : String) (r : Rec) (o : Result Rec) (w : World)
      → IsSound parse hash w.store
      → w.store.records id ≡ some r
      → record_snapshot hash io.readable id w.store ≡ o
      → Ends
          (record { id = id; profile_hash = r.hash; candidate_hash = r.candidate_hash })
          w.store.current
          (some (snapshot_profile id r w.store))
          (previous_of (active_profile hash io.previous_readable w.store))
          ((with_snapshot hash io id o w).0)
          ((with_snapshot hash io id o w).1)
  unfolding with_snapshot Ends
  with_snapshot-Ends io id r (err x) w h e q = refl
  with_snapshot-Ends io id r (ok x) w h e q =
      let same : r ≡ x =
        some-injective _ _ (sym e ∙ snapshot-record hash io.readable id x w.store q) in
      let E : Rec → Type 0 = λ y.
        Ends (record { id = id; profile_hash = r.hash; candidate_hash = r.candidate_hash })
          w.store.current (some (snapshot_profile id r w.store))
          (previous_of (active_profile hash io.previous_readable w.store))
          ((with_snapshot hash io id (ok y) w).0) ((with_snapshot hash io id (ok y) w).1) in
      subst E same (
        applied_with-Ends io id r (previous_of (active_profile hash io.previous_readable w.store)) w
          h e)

  with_retried-Ends :
      (io : ActivateIo) (id : String) (r : Rec) (o : Option StoreError) (w : World)
      → IsSound parse hash w.store
      → w.store.records id ≡ some r
      → Ends
          (record { id = id; profile_hash = r.hash; candidate_hash = r.candidate_hash })
          w.store.current
          (some (snapshot_profile id r w.store))
          (previous_of (active_profile hash io.previous_readable w.store))
          ((with_retried hash io id o w).0)
          ((with_retried hash io id o w).1)
  unfolding with_retried Ends
  with_retried-Ends io id r none w h e =
      with_snapshot-Ends io id r (record_snapshot hash io.readable id w.store) w h e refl
  with_retried-Ends io id r (some x) w h e = refl

  -- An activation in a store that agrees with its directory, of an identifier with a record. Where it
  -- succeeds, or only the clean-up of its pending marker fails, the generation of the record is active and
  -- the runtime runs its profile. Where it could not be stored or finalized and the runtime could be
  -- brought back, the generation that was active before is active and the runtime runs its profile, but
  -- where the pointer cannot be set back after a finalization that failed. Every other error leaves the
  -- pointer as it was, but where the runtime cannot be brought back after a finalization that failed.
  pub activate-Ends :
      (io : ActivateIo) (id : String) (r : Rec) (w : World)
      → IsSound parse hash w.store
      → w.store.records id ≡ some r
      → Ends
          (record { id = id; profile_hash = r.hash; candidate_hash = r.candidate_hash })
          w.store.current
          (some (snapshot_profile id r w.store))
          (previous_of (active_profile hash io.previous_readable w.store))
          ((activate hash io id w).0)
          ((activate hash io id w).1)
  unfolding activate Ends set_pending active_profile snapshot_profile
  activate-Ends io id r w h e =
      let E : Activated → Type 0 = λ o.
        Ends (record { id = id; profile_hash = r.hash; candidate_hash = r.candidate_hash })
          w.store.current (some (snapshot_profile id r w.store))
          (previous_of (active_profile hash io.previous_readable w.store)) (o.0) (o.1) in
      let retried = retry_accepted_activation_cleanup io.retry_readable io.retry_ok w.store in
      let after : Store → Type 0 = λ z. E (with_retried hash io id (retried.0) (with_store w z)) in
      if_cases E (not (valid_id id)) _ _ (λ t. refl)
        (λ n. elim (retry-cases io.retry_readable io.retry_ok w.store) [
          | inl same ↦ subst after (sym same) (with_retried-Ends io id r (retried.0) w h e)
          | inr same ↦ subst after (sym same) (
              with_retried-Ends io id r (retried.0) (with_store w (set_pending none w.store))
                (set_pending-IsSound parse hash none w.store h) e)
        ])
