-- ===== src/Subscriptions/Store/Open.antt =====
-- subscriptions/store.go: `NewStore`, which reads and checks what an earlier process left behind.
use clashpulse.Base.{
  ℕ, leb, String, Bool, not, ◌&&◌, ◌||◌, List, [], ◌∷◌, Option, none, some, if◌then◌else◌, ◌=s◌,
  is_blank, is_empty,
}
use clashpulse.Monitor.Policy.{Url}
use clashpulse.Subscriptions.Model.{
  store_failed, cleanup_pending, Result, ok, err, ◌>>=◌, valid_id, valid_optional_hash, is_normal,
}
use clashpulse.Subscriptions.Store.{
  Bytes, Rec, Dir, Disk, Store, Marker, blank_marker, set_at, valid_failure,
}
use clashpulse.Subscriptions.Store.Generations.{Pair, pair_of, applied_pair, verify_pair}
use clashpulse.Subscriptions.Store.Applied.{pair_of_marker, point_records}

-- The limit with which `NewStore` reads record.json. Nothing limits what `writeRecord` writes.
abbrev pub max_record_bytes : ℕ
max_record_bytes = 1_048_576

-- Whether the quarantine can be emptied, which files can be read, and whether active.json can: its
-- content, an identifier of at most 128 bytes and two hashes, is far below the limit of its read.
pub record OpenIo : Type 0 where
  pub quarantine_ok : Bool
  pub record_readable : String → Bool
  pub readable : String → Bool
  pub active_readable : Bool

module _ (parse : String → Option Url) (hash : Bytes → String) where
  unfoldable pub generation_found : Bool → String → Rec → Option Dir → Bool
  generation_found readable id q d =
      if is_blank q.hash
      then is_blank q.candidate_hash
      else not (is_blank q.candidate_hash) && verify_pair hash readable id (pair_of q) d

  -- The checks of one record.
  unfoldable pub record_ok : Bool → String → Rec → Option Dir → Bool
  unfolding generation_found
  record_ok readable id q d =
      q.subscription.id =s id
      && is_normal parse q.subscription
      && valid_optional_hash q.hash
      && valid_optional_hash q.candidate_hash
      && valid_failure q.last_failure
      && not (q.downloaded_only && (is_blank q.hash || not (q.candidate_hash =s q.hash)))
      && generation_found readable id q d

  unfoldable pub file_of : Option Dir → Option Rec
  file_of none = none
  file_of (some d) = d.record_file

  unfoldable pub load_file : OpenIo → String → Disk → Option Rec → Result Rec
  load_file io id disk none = err store_failed
  load_file io id disk (some q) =
      if record_ok (io.readable id) id q (disk.dirs id) then ok q else err store_failed

  or_current : OpenIo → Disk → String → Rec → Pair → Pair
  or_current io disk id r p =
      if verify_pair hash (io.readable id) id p (disk.dirs id) then p else pair_of r

  -- The generation of a marker without hashes, as older versions wrote it.
  legacy_pair : OpenIo → Disk → String → Rec → Pair
  unfolding or_current
  legacy_pair io disk id r = or_current io disk id r (
      if is_blank r.applied_profile_hash && not (is_blank r.applied_hash)
      then record { profile_hash = r.hash; candidate_hash = r.applied_hash }
      else applied_pair r)

  unfoldable pub active_pair : OpenIo → Disk → Marker → Rec → Pair
  unfolding legacy_pair
  active_pair io disk m r =
      if is_blank m.profile_hash && is_blank m.candidate_hash
      then legacy_pair io disk m.id r
      else pair_of_marker m

  unfoldable pub marker_with : String → Pair → Marker
  marker_with id p = record {
    id = id;
    profile_hash = p.profile_hash;
    candidate_hash = p.candidate_hash;
  }

  unfoldable pub check_active : OpenIo → Disk → Marker → Option Rec → Result Marker
  unfolding active_pair marker_with
  check_active io disk m none = err store_failed
  check_active io disk m (some r) =
      let p = active_pair io disk m r in
      if verify_pair hash (io.readable m.id) m.id p (disk.dirs m.id)
      then ok (marker_with m.id p)
      else err store_failed

  unfoldable pub load_active : OpenIo → Disk → (String → Option Rec) → Option Marker → Result Marker
  unfolding check_active
  load_active io disk records none = ok blank_marker
  load_active io disk records (some m) =
      if not io.active_readable
      then err store_failed
      else if is_blank m.id
      then (if not (is_blank m.profile_hash) || not (is_blank m.candidate_hash)
          then err store_failed
          else ok blank_marker)
      else if not (valid_id m.id)
      then err store_failed
      else check_active io disk m (records m.id)

-- `size` is the length of what encoding/json makes of a record, which is outside the repository.
module _ (parse : String → Option Url) (hash : Bytes → String) (size : Rec → ℕ) where
  -- `readPrivateFile` gives the record where the file can be read and is not too long.
  unfoldable pub read_record : Bool → Option Rec → Option Rec
  read_record readable none = none
  read_record readable (some q) = if readable && leb (size q) max_record_bytes then some q else none

  unfoldable pub load_record : OpenIo → String → Disk → Result Rec
  unfolding load_file file_of read_record
  load_record io id disk =
      if not (valid_id id)
      then err store_failed
      else load_file parse hash io id disk
          (read_record (io.record_readable id) (file_of parse hash (disk.dirs id)))

  -- The loop over the entries of the directory.
  unfoldable pub load_records : OpenIo → Disk → List String → Result (String → Option Rec)
  unfolding load_record
  load_records io disk [] = ok (λ id. none)
  load_records io disk (id ∷ ids) = load_record io id disk >>= λ r.
      load_records io disk ids >>= λ records. ok (set_at id (some r) records)

  unfoldable pub new_store : OpenIo → Disk → Result Store
  unfolding load_records load_active
  new_store io disk =
      if not (is_empty disk.quarantine) && not io.quarantine_ok
      then err cleanup_pending
      else let clean = record disk { quarantine = [] } in
        load_records io clean disk.names >>= λ records.
        load_active parse hash io clean records disk.active_file >>= λ m.
        ok (record { records = point_records m records; current = m; disk = clean })
