-- ===== src/Subscriptions/Store/Applied.antt =====
-- subscriptions/store.go: the commit of an activation, whose only durable pointer is active.json, and
-- the marker of an activation that is under way, from which it is recovered.
use clashpulse.Base.{
  String, Bool, true, false, not, ◌&&◌, ◌||◌, Option, none, some, if◌then◌else◌, ◌==◌, ◌=s◌,
  is_blank, codes, length,
}
use clashpulse.Subscriptions.Model.{
  StoreError, not_found, no_snapshot, store_failed, Result, ok, err, valid_id, valid_optional_hash,
  all_hex,
}
use clashpulse.Subscriptions.Store.{Bytes, Rec, Store, Marker, Pending, StoreOutcome, blank_marker}
use clashpulse.Subscriptions.Store.Generations.{Pair, verify_pair, CleanIo, cleanup_applied}

abbrev pub pair_of_marker : Marker → Pair
pair_of_marker m = record { profile_hash = m.profile_hash; candidate_hash = m.candidate_hash }

-- The fields of a record that say whether it is the applied one.
unfoldable pub point_at : Marker → String → Rec → Rec
point_at m id r =
    if id =s m.id
    then record r {
      applied_hash = m.candidate_hash;
      applied_profile_hash = m.profile_hash;
      applied_candidate_hash = m.candidate_hash;
      active = true;
    }
    else record r {
      applied_hash = "";
      applied_profile_hash = "";
      applied_candidate_hash = "";
      active = false;
    }

unfoldable pub point_option : Marker → String → Option Rec → Option Rec
unfolding point_at
point_option m id none = none
point_option m id (some r) = some (point_at m id r)

unfoldable pub point_records : Marker → (String → Option Rec) → String → Option Rec
unfolding point_option
point_records m records id = point_option m id (records id)

unfoldable pub clear_rec : Option Rec → Option Rec
clear_rec none = none
clear_rec (some r) = some (record r {
  applied_hash = "";
  applied_profile_hash = "";
  applied_candidate_hash = "";
  active = false;
})

unfoldable pub point : Marker → Store → Store
unfolding point_records
point m s = record s {
  records = point_records m s.records;
  current = m;
  disk = record s.disk { active_file = some m };
}

-- `validResourceCommitID`: 32 hexadecimal digits.
unfoldable pub valid_resource_commit_id : String → Bool
valid_resource_commit_id id = if not (length (codes id) == 32) then false else all_hex (codes id)

unfoldable pub has_file : Option Pending → Bool
has_file none = false
has_file (some p) = true

unfoldable pub set_pending : Option Pending → Store → Store
set_pending p s = record s { disk = record s.disk { pending_file = p } }

-- `stat_ok` says whether `Lstat` answers at all.
unfoldable pub mark_activation_pending : Bool → Bool → Marker → String → Store → StoreOutcome
unfolding has_file set_pending
mark_activation_pending stat_ok write_ok m resource_commit_id s =
    if not (valid_resource_commit_id resource_commit_id)
    then (some store_failed, s)
    else if not stat_ok || has_file s.disk.pending_file
    then (some store_failed, s)
    else if not write_ok
    then (some store_failed, s)
    else (
      none,
      set_pending
          (some (record { marker = m; resource_commit_id = resource_commit_id; accepted = false }))
          s,
    )

unfoldable pub clear_activation_pending : Bool → Store → StoreOutcome
unfolding has_file set_pending
clear_activation_pending remove_ok s =
    if has_file s.disk.pending_file && not remove_ok
    then (some store_failed, s)
    else (none, set_pending none s)

unfoldable pub pending_ok : Pending → Bool
pending_ok p =
    let m = p.marker in
    (is_blank m.id || valid_id m.id)
    && valid_optional_hash m.profile_hash
    && valid_optional_hash m.candidate_hash
    && valid_resource_commit_id p.resource_commit_id
    && not (is_blank m.id && (not (is_blank m.profile_hash) || not (is_blank m.candidate_hash)))

-- `readable` is that `readPrivateFile` gives the file. Its content, an identifier of at most 128 bytes,
-- two hashes and a commit identifier, is far below the limit of that read, 1 MiB.
unfoldable pub load_pending_activation : Bool → Store → Result (Option Pending)
unfolding pending_ok
load_pending_activation readable s = elim s.disk.pending_file [
  | none ↦ if readable then ok none else err store_failed
  | some p ↦
      if not readable
      then err store_failed
      else if not (pending_ok p)
      then err store_failed
      else ok (some p)
]

unfoldable pub mark_activation_accepted : Bool → Bool → Store → StoreOutcome
unfolding set_pending
mark_activation_accepted readable write_ok s = elim (load_pending_activation readable s) [
  | err e ↦ (some store_failed, s)
  | ok none ↦ (some store_failed, s)
  | ok (some p) ↦
      if not write_ok
      then (some store_failed, s)
      else (none, set_pending (some (record p { accepted = true })) s)
]

unfoldable pub retry_accepted_activation_cleanup : Bool → Bool → Store → StoreOutcome
retry_accepted_activation_cleanup readable remove_ok s = elim (load_pending_activation readable s) [
  | err e ↦ (some e, s)
  | ok none ↦ (none, s)
  | ok (some p) ↦
      if not p.accepted then (some store_failed, s) else clear_activation_pending remove_ok s
]

-- The calls of `RecoverPendingActivation` that can fail.
pub record RecoverIo : Type 0 where
  pub pending_readable : Bool
  pub readable : Bool
  pub change_ok : Bool
  pub remove_ok : Bool
  pub clean : String → CleanIo

unfoldable pub clean_unless : (String → CleanIo) → Option StoreError → Store → StoreOutcome
clean_unless clean (some e) s = (some e, s)
clean_unless clean none s = (none, cleanup_applied clean s)

unfoldable pub clear_and_clean : RecoverIo → Option StoreError → Store → StoreOutcome
unfolding clean_unless
clear_and_clean io (some e) s = (some e, s)
clear_and_clean io none s =
    let cleared = clear_activation_pending io.remove_ok s in
    clean_unless io.clean cleared.0 cleared.1

module _ (hash : Bytes → String) where
  -- The calls of `setApplied` that can fail: reading the generation and writing the marker.
  unfoldable pub set_applied : Bool → Bool → Marker → Store → StoreOutcome
  unfolding point
  set_applied readable write_ok m s = elim (s.records m.id) [
    | none ↦ (some not_found, s)
    | some r ↦
        if not (verify_pair hash readable m.id (pair_of_marker m) (s.disk.dirs m.id))
        then (some no_snapshot, s)
        else if not write_ok
        then (some store_failed, s)
        else (none, point m s)
  ]

  unfoldable pub restore_applied : Bool → Bool → Marker → Store → StoreOutcome
  unfolding clear_rec
  restore_applied readable change_ok m s =
      if not (is_blank m.id)
      then set_applied readable change_ok m s
      else if not change_ok
      then (some store_failed, s)
      else (
        none,
        record s {
          records = λ id. clear_rec (s.records id);
          current = blank_marker;
          disk = record s.disk { active_file = none };
        },
      )

  unfoldable pub recover_pending_activation : RecoverIo → String → Store → StoreOutcome
  unfolding clear_and_clean
  recover_pending_activation io resource_commit_id s =
      elim (load_pending_activation io.pending_readable s) [
        | err e ↦ (some e, s)
        | ok none ↦ (none, cleanup_applied io.clean s)
        | ok (some p) ↦
            if not p.accepted && not (p.resource_commit_id =s resource_commit_id)
            then (let restored = restore_applied io.readable io.change_ok p.marker s in
                clear_and_clean io restored.0 restored.1)
            else clear_and_clean io none s
      ]
