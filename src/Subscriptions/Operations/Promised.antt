-- ===== src/Subscriptions/Operations/Promised.antt =====
-- subscriptions/: what is fetched and what is active can be read, after any sequence of operations.
use clashpulse.Base.{◌≡◌, String, Bool, true, false, List, Option, some, is_blank, All}
use clashpulse.Monitor.Policy.{Url}
use clashpulse.Subscriptions.Model.{valid_optional_hash, ok}
use clashpulse.Subscriptions.Store.{Bytes, Rec}
use clashpulse.Subscriptions.Store.Generations.{pair_of, profile, active_profile}
use clashpulse.Subscriptions.Store.Applied.{pair_of_marker}
use clashpulse.Subscriptions.Store.Sound.Serve.{IsServed}
use clashpulse.Subscriptions.Store.Sound.Promised.{IsSound-profile, IsSound-active_profile}
use clashpulse.Subscriptions.Operations.{
  Operation, IsAllowed, empty_store, perform_all, perform_all-IsSound,
}

module _ (parse : String → Option Url) (hash : Bytes → String) (valid_profile : Bytes → Bool)
    (hex : (b : Bytes) → valid_optional_hash (hash b) ≡ true)
    (there : (b : Bytes) → is_blank (hash b) ≡ false) where
  -- After any sequence of operations from an empty directory, each with its failures, no profile of a
  -- record was cleaned up or lost: where the files can be read, `Profile` gives out a profile for each
  -- record that has a hash. Its file and the one of its candidate are in the directory under the hashes
  -- that the record names, are within their limits, and have these hashes. SHA-256 is taken to give 64
  -- hexadecimal digits; a record that is not written leaves no directory, the record is written back where
  -- a refresh is too late, and the client limits the length of an answer.
  pub profile-perform_all :
      (os : List Operation) (id : String) (r : Rec)
      → All IsAllowed os
      → (perform_all parse hash valid_profile os empty_store).records id ≡ some r
      → is_blank r.hash ≡ false
      → let s = perform_all parse hash valid_profile os empty_store in
        (b : Bytes) × (profile hash true id s ≡ ok b)
        × IsServed hash id (pair_of r) (s.disk.dirs id) b
  profile-perform_all os id r k e n =
      IsSound-profile parse hash id r (perform_all parse hash valid_profile os empty_store)
        (perform_all-IsSound parse hash valid_profile hex there os k) e n

  -- After any sequence of operations from an empty directory, each with its failures, the active
  -- generation is there, also where a refresh has replaced the newest one: where there is an active
  -- identifier and the files can be read, `ActiveProfile` gives it out with a profile. The profile's file
  -- and the one of its candidate are in the directory under the hashes of the marker, are within their
  -- limits, and have these hashes. SHA-256 is taken to give 64 hexadecimal digits; a record that is not
  -- written leaves no directory, the record is written back where a refresh is too late, and the client
  -- limits the length of an answer.
  pub active_profile-perform_all :
      (os : List Operation)
      → All IsAllowed os
      → is_blank (perform_all parse hash valid_profile os empty_store).current.id ≡ false
      → let s = perform_all parse hash valid_profile os empty_store in
        (b : Bytes) × (active_profile hash true s ≡ ok (s.current.id, b))
        × IsServed hash s.current.id (pair_of_marker s.current) (s.disk.dirs s.current.id) b
  active_profile-perform_all os k n =
      IsSound-active_profile parse hash (perform_all parse hash valid_profile os empty_store)
        (perform_all-IsSound parse hash valid_profile hex there os k) n
