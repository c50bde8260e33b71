-- ===== src/Subscriptions/Tests.antt =====
-- subscriptions/: concrete subscriptions, stores and refreshes.
use clashpulse.Base.{
  ℕ, ◌≡◌, ◌↔◌, refl, ap, arith, String, Bool, true, false, List, [], ◌∷◌, Option, none, some,
  is_blank, All, if◌then◌else◌, ◌==◌, Bool-cases, inl, inr,
}
use clashpulse.Monitor.Policy.{Url, pos}
use clashpulse.Subscriptions.Model.{
  Subscription, ok, valid_optional_hash, valid_id, normalize_subscription,
}
use clashpulse.Subscriptions.Store.{Bytes, Rec, Store, Marker}
use clashpulse.Subscriptions.Model.Normal.{normalize_idem}
use clashpulse.Subscriptions.Store.Sound.{IsSound}
use clashpulse.Subscriptions.Store.Sound.Reopen.{HasSmallRecords, all_ok, view}
use clashpulse.Subscriptions.Store.Sound.Recover.{recover_ok, interrupted-is_undone}
use clashpulse.Subscriptions.Store.Sound.Serve.{IsServed, profile_iff, active_profile_iff}
use clashpulse.Subscriptions.Operations.Promised.{profile-perform_all, active_profile-perform_all}
use clashpulse.Subscriptions.Store.Applied.{pair_of_marker}
use clashpulse.Subscriptions.Store.Generations.{pair_of}
use clashpulse.Subscriptions.Operations.{perform_all-IsSound}
use clashpulse.Subscriptions.Store.Generations.{CleanIo}
use clashpulse.Subscriptions.Refresh.{RefreshIo, running, private_record, answered, refresh}
use clashpulse.Subscriptions.Refresh.Sound.{IsLimited}
use clashpulse.Subscriptions.Operations.{
  Operation, add_op, refresh_op, apply_op, clean_op, IsAllowed, empty_store, perform_all,
}
use clashpulse.Base.{trim_space}
use clashpulse.Subscriptions.Model.{all_hex, valid_route, valid_user_agent, valid_url}
use clashpulse.Subscriptions.Store.{set_at, set_dir, write_record, add, get_record}
use clashpulse.Subscriptions.Store.Generations.{
  read_pair_profile, finalize_promotion, cleanup_applied, verify_pair, profile, active_profile,
  promote,
}
use clashpulse.Subscriptions.Store.Applied.{
  valid_resource_commit_id, mark_activation_pending, set_applied, recover_pending_activation,
}
use clashpulse.Subscriptions.Store.Open.{new_store}
use clashpulse.Subscriptions.Activate.{
  ActivateIo, World, not_finalized, snapshot_profile, previous_of, activate,
}
use clashpulse.Subscriptions.Activate.Ends.{Ends}
use clashpulse.Subscriptions.Activate.Sound.{activate-Ends}
use clashpulse.Subscriptions.Store.Applied.{
  retry_accepted_activation_cleanup, load_pending_activation, restore_applied,
  clear_activation_pending,
}
use clashpulse.Subscriptions.Store.Generations.{record_snapshot}

abbrev pub link_of : String → Option Url
link_of raw = some (record {
  scheme = "https";
  host = "sub.example";
  opaque = "";
  has_user = false;
  fragment = "";
})

-- A digest that knows a few contents only.
abbrev pub digest : Bytes → String
digest [] = "fedcba9876543210fedcba9876543210fedcba9876543210fedcba9876543210"
digest (b ∷ rest) =
    if b == 1
    then "0123456789abcdef0123456789abcdef0123456789abcdef0123456789abcdef"
    else "fedcba9876543210fedcba9876543210fedcba9876543210fedcba9876543210"

digest_hex : (b : Bytes) → valid_optional_hash (digest b) ≡ true
unfolding valid_optional_hash
digest_hex [] = refl
digest_hex (b ∷ rest) = elim (Bool-cases (b == 1)) [ inl t ↦ rw t refl | inr n ↦ rw n refl ]

digest_there : (b : Bytes) → is_blank (digest b) ≡ false
digest_there [] = refl
digest_there (b ∷ rest) = elim (Bool-cases (b == 1)) [ inl t ↦ rw t refl | inr n ↦ rw n refl ]

abbrev pub any_profile : Bytes → Bool
any_profile b = true

abbrev pub home : Subscription
home = record {
  id = "home";
  name = " Home ";
  url = "sub.example/a";
  user_agent = "";
  enabled = true;
  refresh_interval = pos 0;
  timeout = pos 0;
  route = "";
  allow_http = false;
  allow_invalid_tls = false;
}

abbrev keep_all : CleanIo
keep_all = record { listed = true; profile_gone = λ h. true; candidate_gone = λ h c. true }

abbrev pub fetching : RefreshIo
fetching = record {
  started = running;
  latest = private_record;
  mkdir_ok = true;
  install_ok = true;
  remove_ok = true;
  before_fetch = running;
  fetch = answered (record {
    not_modified = false;
    body = 1 ∷ 7 ∷ [];
    etag = "v1";
    last_modified = "";
    usage = none;
  });
  now = 100;
  failure_ok = true;
  after_fetch = running;
  profile_readable = true;
  touch_ok = true;
  rendered = some (2 ∷ 7 ∷ []);
  after_render = running;
  valid = true;
  after_validation = running;
  before_commit = none;
  promotion = record { dir_ok = true; profile_ok = true; candidate_ok = true; record_ok = true };
  after_commit = none;
  rollback_ok = true;
  candidate_gone = true;
  profile_gone = true;
  clean = keep_all;
}

abbrev pub first_generation : Marker
first_generation = record {
  id = "home";
  profile_hash = "0123456789abcdef0123456789abcdef0123456789abcdef0123456789abcdef";
  candidate_hash = "fedcba9876543210fedcba9876543210fedcba9876543210fedcba9876543210";
}

abbrev pub fetched_only : List Operation
fetched_only = add_op true true true (ok "sub_0") home ∷ refresh_op fetching false "home" ∷ []

abbrev pub operations : List Operation
operations =
    add_op true true true (ok "sub_0") home
    ∷ refresh_op fetching false "home"
    ∷ apply_op true true first_generation
    ∷ clean_op (λ id. keep_all)
    ∷ []

-- The generation that was fetched is the applied one.
applied_after :
    (perform_all link_of digest any_profile operations empty_store).current ≡ first_generation
unfolding trim_space valid_id valid_optional_hash valid_route valid_user_agent valid_url
    normalize_subscription set_at set_dir write_record add get_record finalize_promotion
    cleanup_applied verify_pair promote set_applied refresh perform_all
applied_after = refl

abbrev pub normal_home : Subscription
normal_home = record home {
  name = "Home";
  refresh_interval = pos 43200000000000;
  timeout = pos 30000000000;
  route = "auto";
}

abbrev pub first_record : Rec
first_record = record {
  subscription = normal_home;
  etag = "v1";
  last_modified = "";
  checked_at = 100;
  last_success = 100;
  last_failure_at = 0;
  last_failure = "";
  usage = none;
  hash = "0123456789abcdef0123456789abcdef0123456789abcdef0123456789abcdef";
  candidate_hash = "fedcba9876543210fedcba9876543210fedcba9876543210fedcba9876543210";
  downloaded_only = false;
  applied_hash = "fedcba9876543210fedcba9876543210fedcba9876543210fedcba9876543210";
  applied_profile_hash = "0123456789abcdef0123456789abcdef0123456789abcdef0123456789abcdef";
  applied_candidate_hash = "fedcba9876543210fedcba9876543210fedcba9876543210fedcba9876543210";
  active = true;
}

record_after :
    (perform_all link_of digest any_profile operations empty_store).records "home"
    ≡ some first_record
unfolding trim_space valid_id valid_optional_hash valid_route valid_user_agent valid_url
    normalize_subscription set_at set_dir write_record add get_record finalize_promotion
    cleanup_applied verify_pair promote set_applied refresh perform_all
record_after = refl

not_pending_after :
    (perform_all link_of digest any_profile fetched_only empty_store).disk.pending_file ≡ none
unfolding trim_space valid_id valid_optional_hash valid_route valid_user_agent valid_url
    normalize_subscription set_at set_dir write_record add get_record finalize_promotion
    cleanup_applied verify_pair promote set_applied refresh perform_all
not_pending_after = refl

operations-IsAllowed : All IsAllowed operations
unfolding IsAllowed IsLimited
operations-IsAllowed = (refl, ((refl, ground arith, refl), _))

fetched_only-IsAllowed : All IsAllowed fetched_only
unfolding IsAllowed IsLimited
fetched_only-IsAllowed = (refl, ((refl, ground arith, refl), _))

-- A record has about this length; one with validators is longer.
abbrev encoded_size : Rec → ℕ
encoded_size r = if is_blank r.etag then 700 else 900

small_records : (s : Store) → HasSmallRecords encoded_size s.disk
small_records s id d q f at = elim (Bool-cases (is_blank q.etag)) [
  | inl t ↦ rw t (ground arith)
  | inr n ↦ rw n (ground arith)
]

abbrev commit_id : String
commit_id = "0123456789abcdef0123456789abcdef"

valid_commit_id : valid_resource_commit_id commit_id ≡ true
unfolding valid_resource_commit_id all_hex
valid_commit_id = refl

interrupted_example :
    let s = perform_all link_of digest any_profile fetched_only empty_store in
    let begun =
      (set_applied digest true true first_generation
        ((mark_activation_pending true true s.current commit_id s).1)).1 in
    (s' : Store) × (new_store link_of digest encoded_size all_ok begun.disk ≡ ok s')
    × (let recovered = recover_pending_activation digest (recover_ok (λ id. keep_all)) "" s' in
        (recovered.0 ≡ none)
        × (view (recovered.1) ≡ view s)
        × (recovered.1.disk.pending_file ≡ none)
        × IsSound link_of digest (recovered.1))
interrupted_example =
    interrupted-is_undone link_of digest encoded_size (λ id. keep_all) first_generation commit_id ""
      (perform_all link_of digest any_profile fetched_only empty_store)
      (perform_all-IsSound link_of digest any_profile digest_hex digest_there fetched_only
        fetched_only-IsAllowed)
      (small_records (perform_all link_of digest any_profile fetched_only empty_store))
      not_pending_after valid_commit_id refl

profile-perform_all_example :
    let s = perform_all link_of digest any_profile operations empty_store in
    (b : Bytes) × (profile digest true "home" s ≡ ok b)
    × IsServed digest "home" (pair_of first_record) (s.disk.dirs "home") b
profile-perform_all_example =
    profile-perform_all link_of digest any_profile digest_hex digest_there operations "home"
      first_record operations-IsAllowed record_after refl

active_profile-perform_all_example :
    let s = perform_all link_of digest any_profile operations empty_store in
    (b : Bytes) × (active_profile digest true s ≡ ok (s.current.id, b))
    × IsServed digest s.current.id (pair_of_marker s.current) (s.disk.dirs s.current.id) b
active_profile-perform_all_example =
    active_profile-perform_all link_of digest any_profile digest_hex digest_there operations
      operations-IsAllowed (ap (λ m. is_blank m.id) applied_after)

-- The profile that was fetched.
abbrev fetched_profile : Bytes
fetched_profile = 1 ∷ 7 ∷ []

profile_iff_example :
    let s = perform_all link_of digest any_profile operations empty_store in
    (profile digest true "home" s ≡ ok fetched_profile) ↔ (
      (true ≡ true)
      × (r : Rec) × (s.records "home" ≡ some r)
      × IsServed digest "home" (pair_of r) (s.disk.dirs "home") fetched_profile)
profile_iff_example =
    profile_iff digest true "home" (perform_all link_of digest any_profile operations empty_store)
      fetched_profile

active_profile_iff_example :
    let s = perform_all link_of digest any_profile operations empty_store in
    (active_profile digest true s ≡ ok ("home", fetched_profile)) ↔ (
      (true ≡ true)
      × ("home" ≡ s.current.id)
      × (is_blank s.current.id ≡ false)
      × IsServed digest s.current.id
          (pair_of_marker s.current)
          (s.disk.dirs s.current.id)
          fetched_profile)
active_profile_iff_example =
    active_profile_iff digest true (perform_all link_of digest any_profile operations empty_store)
      "home" fetched_profile

-- The files are those of the description.
profile_after :
    profile digest true "home" (perform_all link_of digest any_profile operations empty_store)
    ≡ ok fetched_profile
unfolding trim_space valid_id valid_optional_hash valid_route valid_user_agent valid_url
    normalize_subscription set_at set_dir write_record add get_record finalize_promotion
    cleanup_applied verify_pair promote set_applied refresh perform_all profile read_pair_profile
profile_after = refl

-- A subscription without an identifier gets a new one.
unnamed_after :
    (perform_all link_of digest any_profile
      (add_op true true true (ok "sub_0") (record home { id = " " }) ∷ [])
      empty_store).disk.names
    ≡ "sub_0" ∷ []
unfolding trim_space valid_id valid_optional_hash valid_route valid_user_agent valid_url
    normalize_subscription set_at set_dir write_record add get_record perform_all
unnamed_after = refl

home_normalized : normalize_subscription link_of none home ≡ ok normal_home
unfolding trim_space valid_id valid_optional_hash valid_route valid_user_agent valid_url
    normalize_subscription set_at set_dir write_record add get_record finalize_promotion
    cleanup_applied verify_pair promote set_applied refresh perform_all
home_normalized = refl

normalize_idem_example :
    (normalize_subscription link_of none normal_home ≡ ok normal_home) × (valid_id "home" ≡ true)
normalize_idem_example = normalize_idem link_of home normal_home home_normalized

abbrev pub activating : ActivateIo
activating = record {
  retry_readable = true;
  retry_ok = true;
  readable = true;
  previous_readable = true;
  is_stopped = false;
  apply_ok = true;
  apply_stopped = false;
  after_apply = none;
  commit_id = commit_id;
  stat_ok = true;
  mark_ok = true;
  set_readable = true;
  set_ok = true;
  finalize = some false;
  restore_ok = true;
  after_restore = none;
  back_readable = true;
  back_ok = true;
  clear_ok = true;
  accept_readable = true;
  accept_ok = true;
  clean = λ id. keep_all;
}

abbrev pub waiting : World
waiting = record {
  store = perform_all link_of digest any_profile fetched_only empty_store;
  runtime = none;
}

abbrev unapplied_record : Rec
unapplied_record = record first_record {
  applied_hash = "";
  applied_profile_hash = "";
  applied_candidate_hash = "";
  active = false;
}

unapplied_after : waiting.store.records "home" ≡ some unapplied_record
unfolding trim_space valid_id valid_optional_hash valid_route valid_user_agent valid_url
    normalize_subscription set_at set_dir write_record add get_record finalize_promotion
    cleanup_applied verify_pair promote set_applied refresh perform_all
unapplied_after = refl

-- The finalization fails.
activation_ends : (activate digest activating "home" waiting).0 ≡ some not_finalized
unfolding activate load_pending_activation active_profile valid_resource_commit_id
    retry_accepted_activation_cleanup record_snapshot restore_applied mark_activation_pending
    clear_activation_pending trim_space valid_id valid_optional_hash valid_route valid_user_agent
    valid_url normalize_subscription set_at set_dir write_record add get_record finalize_promotion
    cleanup_applied verify_pair promote set_applied refresh perform_all
activation_ends = refl

activate-Ends_example :
    Ends first_generation waiting.store.current
      (some (snapshot_profile "home" unapplied_record waiting.store))
      (previous_of (active_profile digest true waiting.store))
      ((activate digest activating "home" waiting).0)
      ((activate digest activating "home" waiting).1)
activate-Ends_example =
    activate-Ends link_of digest activating "home" unapplied_record waiting
      (perform_all-IsSound link_of digest any_profile digest_hex digest_there fetched_only
        fetched_only-IsAllowed)
      unapplied_after
