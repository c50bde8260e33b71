-- ===== src/Subscriptions/Store/Sound/Promised.antt =====
-- subscriptions/store.go: a store that agrees with its directory can give out every profile that it
-- promises.
use clashpulse.Base.{
  ◌≡◌, refl, String, true, false, Option, some, eq→=s, is_blank, arith, Option-cases, inl, inr,
}
use clashpulse.Monitor.Policy.{Url}
use clashpulse.Subscriptions.Model.{ok}
use clashpulse.Subscriptions.Store.{Bytes, Rec, Store}
use clashpulse.Subscriptions.Store.Generations.{pair_of, profile, active_profile}
use clashpulse.Subscriptions.Store.Applied.{pair_of_marker}
use clashpulse.Subscriptions.Store.Open.{record_ok, generation_found}
use clashpulse.Subscriptions.Store.Sound.{IsSound, MarkerSound, is_some}
use clashpulse.Subscriptions.Store.Sound.Changes.{IsSound-found}
use clashpulse.Subscriptions.Store.Sound.Serve.{
  IsServed, verify_pair-IsServed, profile_iff, active_profile_iff,
}

module _ (parse : String → Option Url) (hash : Bytes → String) where
  -- In a store that agrees with its directory, the generation of a record that has a hash is on disk.
  IsSound-IsServed :
      (id : String) (r : Rec) (s : Store)
      → IsSound parse hash s
      → s.records id ≡ some r
      → is_blank r.hash ≡ false
      → (b : Bytes) × IsServed hash id (pair_of r) (s.disk.dirs id) b
  unfolding record_ok generation_found
  IsSound-IsServed id r s h e n =
      let (d, f, w) = IsSound-found parse hash s id r h e in
      let memory_ok = w.memory_ok in
      rw f (verify_pair-IsServed hash id (pair_of r) (some d) (ground (arith, n, memory_ok)))

  -- The same of the active generation.
  IsSound-active-IsServed :
      (s : Store)
      → IsSound parse hash s
      → is_blank s.current.id ≡ false
      → (b : Bytes) × IsServed hash s.current.id
          (pair_of_marker s.current)
          (s.disk.dirs s.current.id)
          b
  unfolding MarkerSound
  IsSound-active-IsServed s h n =
      let (a, there) = (rw (MarkerSound, n) at h.marked) in
      elim (Option-cases (s.records s.current.id)) [
        | inl e ↦
            let absent : is_some (s.records s.current.id) ≡ false = rw e refl in cc (there, absent)
        | inr (r, e) ↦
            let (d, f, w) = IsSound-found parse hash s s.current.id r h e in
            rw f (
              verify_pair-IsServed hash s.current.id (pair_of_marker s.current) (some d)
                (w.applied_found (eq→=s s.current.id s.current.id refl)))
      ]

  pub IsSound-profile :
      (id : String) (r : Rec) (s : Store)
      → IsSound parse hash s
      → s.records id ≡ some r
      → is_blank r.hash ≡ false
      → (b : Bytes) × (profile hash true id s ≡ ok b)
        × IsServed hash id (pair_of r) (s.disk.dirs id) b
  IsSound-profile id r s h e n =
      let (b, w) = IsSound-IsServed id r s h e n in
      (b, (profile_iff hash true id s b).1 (refl, r, e, w), w)

  pub IsSound-active_profile :
      (s : Store)
      → IsSound parse hash s
      → is_blank s.current.id ≡ false
      → (b : Bytes) × (active_profile hash true s ≡ ok (s.current.id, b))
        × IsServed hash s.current.id (pair_of_marker s.current) (s.disk.dirs s.current.id) b
  IsSound-active_profile s h n =
      let (b, w) = IsSound-active-IsServed s h n in
      (b, (active_profile_iff hash true s s.current.id b).1 (refl, refl, n, w), w)
