-- ===== src/Subscriptions/Store/Sound.antt =====
-- subscriptions/store.go: when the store and its directory agree, so that an earlier process's work is
-- found again. Everything that the store points at is on disk and has its hash.
pub mod Files
pub mod Records
pub mod Changes
pub mod Edits
pub mod Commit
pub mod Pointer
pub mod Reopen
pub mod Serve
pub mod Promised
pub mod Recover
use clashpulse.Base.{
  ℕ, ◌≡◌, ◌≢◌, String, Bool, true, false, not, ◌||◌, List, Option, none, some, if◌then◌else◌, ◌=s◌,
  is_blank, contains,
}
use clashpulse.Monitor.Policy.{Url}
use clashpulse.Subscriptions.Model.{valid_id}
use clashpulse.Subscriptions.Store.{Bytes, Rec, Dir, Disk, Store, Marker, blank_marker}
use clashpulse.Subscriptions.Store.Generations.{Pair, pair_of, applied_pair, verify_pair}
use clashpulse.Subscriptions.Store.Applied.{pair_of_marker}
use clashpulse.Subscriptions.Store.Open.{record_ok}

-- What a record says of its source, which record.json repeats.
pub record SameSource (r q : Rec) : Type 0 where
  pub same_subscription : q.subscription ≡ r.subscription
  pub same_hash : q.hash ≡ r.hash
  pub same_candidate : q.candidate_hash ≡ r.candidate_hash
  pub same_downloaded : q.downloaded_only ≡ r.downloaded_only

abbrev pub blank_pair : Pair
blank_pair = record { profile_hash = ""; candidate_hash = "" }

-- The generation that the marker gives to an identifier.
abbrev pub pair_at : Marker → String → Pair
pair_at m id = if id =s m.id then pair_of_marker m else blank_pair

abbrev pub is_some {ℓ} : {A : Type ℓ} → Option A → Bool
is_some none = false
is_some (some a) = true

module _ (parse : String → Option Url) (hash : Bytes → String) where
  -- What the directory of a record holds: the record, which passes the checks of `NewStore` as the one
  -- in memory does, and the generation that the marker gives to it.
  pub record RecordSound (m : Marker) (id : String) (r : Rec) (d : Dir) : Type 0 where
    pub named : valid_id id ≡ true
    pub memory_ok : record_ok parse hash true id r (some d) ≡ true
    pub stored :
        (q : Rec) × (d.record_file ≡ some q)
        × SameSource r q
        × (record_ok parse hash true id q (some d) ≡ true)
    pub applied : applied_pair r ≡ pair_at m id
    pub applied_found :
        id =s m.id ≡ true → verify_pair hash true id (pair_of_marker m) (some d) ≡ true

  unfoldable pub EntrySound : Marker → String → Option Rec → Option Dir → Type 0
  EntrySound m id none none = Unit
  EntrySound m id none (some d) = ⊥
  EntrySound m id (some r) none = ⊥
  EntrySound m id (some r) (some d) = RecordSound m id r d

  -- active.json is the marker of the store, whose record is there, or there is no active record.
  unfoldable pub MarkerSound : Store → Type 0
  MarkerSound s =
      if is_blank s.current.id
      then (s.current ≡ blank_marker) × (s.disk.active_file ≡ none)
      else (s.disk.active_file ≡ some s.current) × (is_some (s.records s.current.id) ≡ true)

  pub record IsSound (s : Store) : Type 0 where
    pub entries : (id : String) → EntrySound s.current id (s.records id) (s.disk.dirs id)
    pub listed : (id : String) → contains id s.disk.names ≡ is_some (s.records id)
    pub marked : MarkerSound s
