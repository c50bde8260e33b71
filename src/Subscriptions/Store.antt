-- ===== src/Subscriptions/Store.antt =====
-- subscriptions/store.go: the store of subscriptions, its directory and the operations on records.
-- A map is a function. The content of record.json, active.json and .activation-pending.json is the
-- value that was marshalled. Whether a call of the operating system succeeds is an argument of the
-- operation, `..._ok`, or of type `Io` where there are several; a call of `config.Write` that fails
-- leaves the file as it was. A result `none` is a nil error.
pub mod Generations
pub mod Applied
pub mod Open
pub mod Sound
use clashpulse.Base.{
  ℕ, ◌+◌, ◌*◌, ◌≡◌, String, Bool, true, false, not, ◌&&◌, ◌||◌, List, [], ◌∷◌, Option, none, some,
  if◌then◌else◌, ltb, leb, ◌==◌, ◌=s◌, is_blank, codes, length, contains, keep, starts_with,
}
use clashpulse.Subscriptions.Model.{
  Subscription, StoreError, not_found, already_exists, active, no_snapshot, store_failed,
  cleanup_pending, valid_id, valid_optional_hash, is_normal,
}

abbrev pub Bytes : Type 0
Bytes = List ℕ

pub record Usage : Type 0 where
  pub upload : ℕ
  pub download : ℕ
  pub total : ℕ
  pub expires_at : ℕ

-- `privateRecord`
pub record Rec : Type 0 where
  pub subscription : Subscription
  pub etag : String
  pub last_modified : String
  pub checked_at : ℕ
  pub last_success : ℕ
  pub last_failure_at : ℕ
  pub last_failure : String
  pub usage : Option Usage
  pub hash : String
  pub candidate_hash : String
  pub downloaded_only : Bool
  pub applied_hash : String
  pub applied_profile_hash : String
  pub applied_candidate_hash : String
  pub active : Bool

-- The directory of a subscription: record.json, the files profile-<hash>.yaml and the files
-- candidate-<hash>-<hash>.yaml.
pub record Dir : Type 0 where
  pub record_file : Option Rec
  pub profiles : String → Option Bytes
  pub candidates : String → String → Option Bytes

-- active.json, and the fields activeID, activeProfileHash and activeCandidateHash of the store.
pub record Marker : Type 0 where
  pub id : String
  pub profile_hash : String
  pub candidate_hash : String

-- `pendingActivation`
pub record Pending : Type 0 where
  pub marker : Marker
  pub resource_commit_id : String
  pub accepted : Bool

-- The directory of the store: the subdirectories' names, as `ReadDir` gives them, and their content;
-- the quarantined directories of deletions that were not cleaned up.
pub record Disk : Type 0 where
  pub names : List String
  pub dirs : String → Option Dir
  pub active_file : Option Marker
  pub pending_file : Option Pending
  pub quarantine : List String

-- `Store`, with the directory that it owns.
pub record Store : Type 0 where
  pub records : String → Option Rec
  pub current : Marker
  pub disk : Disk

abbrev pub blank_marker : Marker
blank_marker = record { id = ""; profile_hash = ""; candidate_hash = "" }

abbrev pub max_profile_bytes : ℕ
max_profile_bytes = 33_554_432

abbrev pub max_candidate_bytes : ℕ
max_candidate_bytes = 67_108_864

-- `m[k] = v`, and `delete(m, k)` for `none`.
unfoldable pub set_at {ℓ} :
    {A : Type ℓ} → String → Option A → (String → Option A) → String → Option A
set_at k v m x = if x =s k then v else m x

abbrev pub empty_dir : Dir
empty_dir = record { record_file = none; profiles = λ p. none; candidates = λ p c. none }

unfoldable pub set_dir : String → Option Dir → Disk → Disk
set_dir id d disk = record disk { dirs = set_at id d disk.dirs }

unfoldable pub dir_or_empty : Option Dir → Dir
dir_or_empty none = empty_dir
dir_or_empty (some d) = d

-- What `writeRecord` writes: the pointers of the activation are not durable in the record.
unfoldable pub durable : Rec → Rec
durable r = record r {
  applied_hash = "";
  applied_profile_hash = "";
  applied_candidate_hash = "";
  active = false;
}

-- The content of `record.json` after a write that succeeds.
unfoldable pub write_record : String → Rec → Disk → Disk
unfolding dir_or_empty durable
write_record id r disk =
    set_dir id (some (record (dir_or_empty (disk.dirs id)) { record_file = some (durable r) })) disk

abbrev pub StoreOutcome : Type 0
StoreOutcome = Option StoreError × Store

-- The calls of `add` that can fail; `Mkdir` on a directory that exists fails in any case.
unfoldable pub add : Bool → Bool → Bool → Rec → Store → StoreOutcome
add mkdir_ok write_ok remove_ok r s =
    let id = r.subscription.id in
    let disk = s.disk in
    elim (s.records id) [
      | some old ↦ (some already_exists, s)
      | none ↦ elim (disk.dirs id) [
        | some d ↦ (some already_exists, s)
        | none ↦
            if not mkdir_ok
            then (some store_failed, s)
            else let made = record disk {
              names = id ∷ disk.names;
              dirs = set_at id (some empty_dir) disk.dirs;
            } in
              if not write_ok
              then (some store_failed, if remove_ok then s else record s { disk = made })
              else (
                none,
                record s { records = set_at id (some r) s.records; disk = write_record id r made },
              )
      ]
    ]

-- `get`, which says whether the record is the active one.
unfoldable pub get_record : String → Store → Option Rec
get_record id s = elim (s.records id) [
  | none ↦ none
  | some r ↦ some (record r { active = s.current.id =s id })
]

unfoldable pub replace : Bool → Rec → Store → StoreOutcome
replace write_ok r s =
    let id = r.subscription.id in
    elim (s.records id) [
      | none ↦ (some not_found, s)
      | some old ↦ if not write_ok then (some store_failed, s) else (
        none,
        record s { records = set_at id (some r) s.records; disk = write_record id r s.disk },
      )
    ]

-- The record of a subscription that was just configured, and the record of one that is configured
-- anew: a new link is due at once and has no validators.
abbrev pub fresh_record : Subscription → Rec
fresh_record sub = record {
  subscription = sub;
  etag = "";
  last_modified = "";
  checked_at = 0;
  last_success = 0;
  last_failure_at = 0;
  last_failure = "";
  usage = none;
  hash = "";
  candidate_hash = "";
  downloaded_only = false;
  applied_hash = "";
  applied_profile_hash = "";
  applied_candidate_hash = "";
  active = false;
}

unfoldable pub edited : Subscription → Rec → Rec
edited sub r =
    if r.subscription.url =s sub.url
    then record r { subscription = sub }
    else record r { subscription = sub; etag = ""; last_modified = ""; checked_at = 0 }

-- The calls of `delete` that can fail, in their order: `unused_gone` is the removal of the empty
-- quarantine. What is synced has no effect on the directory.
pub record DeleteIo : Type 0 where
  pub quarantine_ok : Bool
  pub rename_ok : Bool
  pub unused_gone : Bool
  pub sync_ok : Bool
  pub remove_ok : Bool
  pub last_sync_ok : Bool

-- A quarantine stays behind.
unfoldable pub quarantined : String → Store → Store
quarantined id s = record s { disk = record s.disk { quarantine = id ∷ s.disk.quarantine } }

unfoldable pub without : String → Store → Store
without id s = record s {
  records = set_at id none s.records;
  disk = record s.disk {
    names = keep (λ n. not (n =s id)) s.disk.names;
    dirs = set_at id none s.disk.dirs;
  };
}

unfoldable pub delete : DeleteIo → String → Store → StoreOutcome
unfolding quarantined without
delete io id s = elim (s.records id) [
  | none ↦ (some not_found, s)
  | some r ↦
      if s.current.id =s id
      then (some active, s)
      else if not io.quarantine_ok
      then (some store_failed, s)
      else if not io.rename_ok
      then (some store_failed, if io.unused_gone then s else quarantined id s)
      else if not io.sync_ok || not io.remove_ok
      then (some cleanup_pending, quarantined id (without id s))
      else (if io.last_sync_ok then none else some cleanup_pending, without id s)
]

abbrev pub newer : String → String → String
newer value old = if is_blank value then old else value

-- The record after a successful check; `recovered` says whether the last check had failed.
unfoldable pub touched : ℕ → String → String → Option Usage → Rec → Rec
touched now etag last_modified usage r = record r {
  checked_at = now;
  last_success = now;
  etag = newer etag r.etag;
  last_modified = newer last_modified r.last_modified;
  usage = elim usage [ none ↦ r.usage | some u ↦ some u ];
  last_failure_at = 0;
  last_failure = "";
}

unfoldable pub touch_success :
    Bool → String → ℕ → String → String → Option Usage → Store → StoreOutcome
unfolding touched
touch_success write_ok id now etag last_modified usage s = elim (s.records id) [
  | none ↦ (some not_found, s)
  | some r ↦
      let r' = touched now etag last_modified usage r in
      let kept = record s { records = set_at id (some r') s.records } in
      if is_blank r.last_failure
      then (none, kept)
      else if not write_ok
      then (some store_failed, s)
      else (none, record kept { disk = write_record id r' s.disk })
]

all_digits : List ℕ → Bool
all_digits [] = true
all_digits (c ∷ cs) = leb 48 c && leb c 57 && all_digits cs

-- download/client.go: `ParseStatus` accepts "HTTP " and three characters that read as 400 to 599; a
-- sign before two digits never does.
is_status_code : List ℕ → Bool
is_status_code (a ∷ b ∷ c ∷ []) = (a == 52 || a == 53) && all_digits (b ∷ c ∷ [])
is_status_code _ = false

after_http : List ℕ → Bool
unfolding is_status_code all_digits
after_http (h ∷ t ∷ t' ∷ p ∷ sp ∷ rest) =
    starts_with (codes "HTTP ") (h ∷ t ∷ t' ∷ p ∷ sp ∷ []) && is_status_code rest
after_http _ = false

abbrev failure_texts : List String
failure_texts =
    "" ∷ "subscriptions: refresh failed" ∷ "subscriptions: no validated snapshot"
    ∷ "subscriptions: invalid profile" ∷ "subscriptions: candidate generation failed"
    ∷ "subscriptions: candidate validation failed" ∷ "context deadline exceeded" ∷ []

unfoldable pub valid_failure : String → Bool
unfolding after_http
valid_failure failure = contains failure failure_texts || after_http (codes failure)

-- The result says whether the failure is on disk; the store remembers it in any case.
unfoldable pub touch_failure : Bool → String → ℕ → String → Store → Bool × Store
touch_failure write_ok id now failure s =
    if not (valid_failure failure) || is_blank failure then (false, s) else elim (s.records id) [
      | none ↦ (false, s)
      | some r ↦
          let r' = record r { checked_at = now; last_failure_at = now; last_failure = failure } in
          let kept = record s { records = set_at id (some r') s.records } in
          if write_ok
          then (true, record kept { disk = write_record id r' s.disk })
          else (false, kept)
    ]
