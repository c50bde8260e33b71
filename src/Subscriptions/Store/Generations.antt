-- ===== src/Subscriptions/Store/Generations.antt =====
-- subscriptions/store.go: the files of a subscription's profiles and candidates, which are never
-- overwritten with other content, since their names carry the hashes. `hash` is `hashBytes`, the
-- SHA-256 digest in hexadecimal digits, which is outside the repository.
use clashpulse.Base.{
  ℕ, String, Bool, false, not, ◌&&◌, ◌||◌, Option, none, some, if◌then◌else◌, leb, ◌=s◌, is_blank,
  length,
}
use clashpulse.Subscriptions.Model.{
  not_found, no_snapshot, store_failed, Result, ok, err, valid_id, valid_optional_hash,
}
use clashpulse.Subscriptions.Store.{
  Bytes, Usage, Rec, Dir, Disk, Store, StoreOutcome, set_at, set_dir, write_record,
  max_profile_bytes, max_candidate_bytes,
}

-- A generation: the hash of a profile and of the candidate made from it.
pub record Pair : Type 0 where
  pub profile_hash : String
  pub candidate_hash : String

abbrev pub pair_of : Rec → Pair
pair_of r = record { profile_hash = r.hash; candidate_hash = r.candidate_hash }

abbrev pub applied_pair : Rec → Pair
applied_pair r = record {
  profile_hash = r.applied_profile_hash;
  candidate_hash = r.applied_candidate_hash;
}

abbrev pub is_blank_pair : Pair → Bool
is_blank_pair p = is_blank p.profile_hash || is_blank p.candidate_hash

-- What `readPrivateFile` reads, and whether the content has the hash.
unfoldable pub read_file : Bool → ℕ → Option Bytes → Option Bytes
read_file readable limit none = none
read_file readable limit (some b) = if readable && leb (length b) limit then some b else none

unfoldable pub names_generation : String → Pair → Bool
names_generation id p =
    valid_id id
    && valid_optional_hash p.profile_hash
    && not (is_blank p.profile_hash)
    && valid_optional_hash p.candidate_hash
    && not (is_blank p.candidate_hash)

unfoldable pub profile_at : Pair → Option Dir → Option Bytes
profile_at p none = none
profile_at p (some d) = d.profiles p.profile_hash

unfoldable pub bytes_or_failed : Option Bytes → Result Bytes
bytes_or_failed none = err store_failed
bytes_or_failed (some b) = ok b

unfoldable pub with_dir : (Dir → Dir) → String → Disk → Disk
with_dir f id disk = elim (disk.dirs id) [ none ↦ disk | some d ↦ set_dir id (some (f d)) disk ]

-- What a check found.
pub record Check : Type 0 where
  pub now : ℕ
  pub etag : String
  pub last_modified : String
  pub usage : Option Usage
  pub downloaded_only : Bool

-- The calls of `promote` that can fail, in their order.
pub record PromoteIo : Type 0 where
  pub dir_ok : Bool
  pub profile_ok : Bool
  pub candidate_ok : Bool
  pub record_ok : Bool

unfoldable pub same_pair : Pair → Pair → Bool
same_pair p q = p.profile_hash =s q.profile_hash && p.candidate_hash =s q.candidate_hash

unfoldable pub generation_referenced : Rec → Pair → Bool
unfolding same_pair
generation_referenced r p = same_pair (pair_of r) p || same_pair (applied_pair r) p

unfoldable pub drop_candidate : Pair → Dir → Dir
drop_candidate p d = record d {
  candidates = λ q.
      if q =s p.profile_hash then set_at p.candidate_hash none (d.candidates q) else d.candidates q;
}

unfoldable pub drop_profile : String → Dir → Dir
drop_profile h d = record d { profiles = set_at h none d.profiles }

-- The removals of `rollbackPromotion`, each of which may fail unnoticed.
unfoldable pub drop_generation : Bool → Bool → Rec → Pair → Dir → Dir
unfolding generation_referenced drop_candidate drop_profile
drop_generation candidate_gone profile_gone previous p d =
    let without =
      if not (generation_referenced previous p) && candidate_gone then drop_candidate p d else d in
    if not (p.profile_hash =s previous.hash)
      && not (p.profile_hash =s previous.applied_profile_hash)
      && profile_gone
    then drop_profile p.profile_hash without
    else without

unfoldable pub rollback_promotion : Bool → Bool → Bool → String → Rec → Pair → Store → StoreOutcome
unfolding with_dir drop_generation
rollback_promotion write_ok candidate_gone profile_gone id previous p s =
    let back = record s { records = set_at id (some previous) s.records } in
    elim (s.records id) [
      | none ↦ (some not_found, s)
      | some r ↦ if not write_ok then (some store_failed, back) else (
        none,
        record back {
          disk =
              with_dir (drop_generation candidate_gone profile_gone previous p) id
                (write_record id previous s.disk);
        },
      )
    ]

-- Which removals of `cleanupGenerations` succeed, by the file, and whether it lists the directory.
pub record CleanIo : Type 0 where
  pub listed : Bool
  pub profile_gone : String → Bool
  pub candidate_gone : String → String → Bool

unfoldable pub keeps_profile : Pair → Pair → String → Bool
keeps_profile now applied h =
    not (is_blank_pair now) && h =s now.profile_hash
    || not (is_blank_pair applied) && h =s applied.profile_hash

unfoldable pub keeps_candidate : Pair → Pair → Pair → Bool
unfolding same_pair
keeps_candidate now applied p =
    not (is_blank_pair now) && same_pair p now || not (is_blank_pair applied) && same_pair p applied

unfoldable pub cleanup_generations : CleanIo → Pair → Pair → Dir → Dir
unfolding keeps_profile keeps_candidate
cleanup_generations io now applied d = if not io.listed then d else record d {
  profiles =
      λ h. if not (keeps_profile now applied h) && io.profile_gone h then none else d.profiles h;
  candidates = λ h c.
      if not (keeps_candidate now applied (record { profile_hash = h; candidate_hash = c }))
        && io.candidate_gone h c
      then none
      else d.candidates h c;
}

unfoldable pub clean_dir : CleanIo → Option Rec → Option Dir → Option Dir
unfolding cleanup_generations
clean_dir io none d = d
clean_dir io (some r) none = none
clean_dir io (some r) (some d) = some (cleanup_generations io (pair_of r) (applied_pair r) d)

unfoldable pub finalize_promotion : CleanIo → String → Store → Store
unfolding clean_dir
finalize_promotion io id s = record s {
  disk = set_dir id (clean_dir io (s.records id) (s.disk.dirs id)) s.disk;
}

-- `cleanupApplied`, over all records.
unfoldable pub cleanup_applied : (String → CleanIo) → Store → Store
unfolding clean_dir
cleanup_applied io s = record s {
  disk = record s.disk { dirs = λ id. clean_dir (io id) (s.records id) (s.disk.dirs id) };
}

module _ (hash : Bytes → String) where
  unfoldable pub has_hash : String → Option Bytes → Bool
  has_hash h none = false
  has_hash h (some b) = hash b =s h

  -- `readGenerationFiles` and `generationMatches`.
  unfoldable pub generation_ok : Bool → Pair → Dir → Bool
  unfolding read_file has_hash
  generation_ok readable p d =
      has_hash p.profile_hash (read_file readable max_profile_bytes (d.profiles p.profile_hash))
      && has_hash p.candidate_hash
          (read_file readable max_candidate_bytes (d.candidates p.profile_hash p.candidate_hash))

  unfoldable pub matches_at : Bool → Pair → Option Dir → Bool
  unfolding generation_ok
  matches_at readable p none = false
  matches_at readable p (some d) = generation_ok readable p d

  unfoldable pub read_pair_profile : Bool → String → Pair → Option Dir → Result Bytes
  unfolding names_generation matches_at profile_at bytes_or_failed
  read_pair_profile readable id p d =
      if not (names_generation id p)
      then err no_snapshot
      else if not (matches_at readable p d)
      then err store_failed
      else bytes_or_failed (profile_at p d)

  -- `verifyPair` returns no error.
  unfoldable pub verify_pair : Bool → String → Pair → Option Dir → Bool
  unfolding names_generation matches_at
  verify_pair readable id p d = names_generation id p && matches_at readable p d

  -- The records `Profile`, `ActiveProfile` and `recordSnapshot` give out.
  unfoldable pub profile : Bool → String → Store → Result Bytes
  profile readable id s = elim (s.records id) [
    | none ↦ err not_found
    | some r ↦ read_pair_profile readable id (pair_of r) (s.disk.dirs id)
  ]

  unfoldable pub active_profile : Bool → Store → Result (String × Bytes)
  active_profile readable s =
      let m = s.current in
      if is_blank m.id
      then err no_snapshot
      else elim (read_pair_profile readable m.id
          (record { profile_hash = m.profile_hash; candidate_hash = m.candidate_hash })
          (s.disk.dirs m.id)) [ err e ↦ err e | ok b ↦ ok (m.id, b) ]

  unfoldable pub record_snapshot : Bool → String → Store → Result Rec
  unfolding matches_at
  record_snapshot readable id s = elim (s.records id) [
    | none ↦ err not_found
    | some r ↦
        if is_blank_pair (pair_of r)
        then err no_snapshot
        else if not (matches_at readable (pair_of r) (s.disk.dirs id))
        then err store_failed
        else ok r
  ]

  unfoldable pub put_profile : Bytes → Dir → Dir
  put_profile b d = record d { profiles = set_at (hash b) (some b) d.profiles }

  unfoldable pub put_candidate : String → Bytes → Dir → Dir
  put_candidate p b d = record d {
    candidates = λ q. if q =s p then set_at (hash b) (some b) (d.candidates q) else d.candidates q;
  }

  unfoldable pub promoted : Bytes → Bytes → Check → Rec → Rec
  promoted profile candidate c r = record r {
    hash = hash profile;
    candidate_hash = hash candidate;
    downloaded_only = c.downloaded_only;
    checked_at = c.now;
    last_success = c.now;
    last_failure_at = 0;
    last_failure = "";
    etag = c.etag;
    last_modified = c.last_modified;
    usage = c.usage;
  }

  -- The previous record, where it succeeds.
  unfoldable pub promote : PromoteIo → String → Bytes → Bytes → Check → Store → Result Rec × Store
  unfolding with_dir put_profile put_candidate promoted
  promote io id profile candidate c s =
      let with_profile = with_dir (put_profile profile) id s.disk in
      let with_both = with_dir (put_candidate (hash profile) candidate) id with_profile in
      elim (s.records id) [
        | none ↦ (err not_found, s)
        | some r ↦
            if not io.dir_ok || not io.profile_ok
            then (err store_failed, s)
            else if not io.candidate_ok
            then (err store_failed, record s { disk = with_profile })
            else if not io.record_ok
            then (err store_failed, record s { disk = with_both })
            else (
              ok r,
              record s {
                records = set_at id (some (promoted profile candidate c r)) s.records;
                disk = write_record id (promoted profile candidate c r) with_both;
              },
            )
      ]
