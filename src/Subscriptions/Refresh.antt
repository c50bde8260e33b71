-- ===== src/Subscriptions/Refresh.antt =====
-- subscriptions/fetch.go: `refresh`, which fetches a source and commits what it rendered and validated,
-- and model.go: `sourceIsCurrent`, `recordFailure` and `touch`. `hash` and `parse` stand for SHA-256 and
-- url.Parse, and `valid_profile` for `validProfileYAML`, which asks yaml.v3. What the network, the
-- renderer, the validator and the clock answer are arguments. The answer's usage has been parsed.
pub mod Sound
use clashpulse.Base.{
  ℕ, String, Bool, true, false, not, ◌&&◌, ◌||◌, Option, none, some, if◌then◌else◌, ltb, ◌==◌, ◌=s◌,
  is_blank, length,
}
use clashpulse.Monitor.Policy.{Url}
use clashpulse.Subscriptions.Model.{
  Subscription, StoreError, not_found, no_snapshot, invalid, Result, ok, err, valid_id,
  normalize_subscription, same_subscription,
}
use clashpulse.Subscriptions.Store.{
  Bytes, Usage, Rec, Store, StoreOutcome, max_candidate_bytes, add, replace, get_record,
  fresh_record, edited, touch_success, touch_failure,
}
use clashpulse.Subscriptions.Store.Generations.{
  Pair, PromoteIo, Check, CleanIo, profile, promote, rollback_promotion, finalize_promotion,
}

-- A context that is still good, was canceled or has passed its deadline.
pub data Context : Type 0 where
  running : Context
  canceled : Context
  expired : Context

pub data RefreshError : Type 0 where
  refused : StoreError → RefreshError
  was_canceled : RefreshError
  has_expired : RefreshError
  fetch_failed : RefreshError
  invalid_profile : RefreshError
  render_failed : RefreshError
  validation_failed : RefreshError
  source_changed : RefreshError
  source_changed_unrestored : RefreshError
  commit_failed : RefreshError

-- An error, or what `Result` says: whether the source changed, when it was checked, its hash, its usage.
pub data RefreshResult : Type 0 where
  failed : RefreshError → RefreshResult
  done : Bool → ℕ → String → Option Usage → RefreshResult

abbrev pub Refreshed : Type 0
Refreshed = RefreshResult × Store

pub record Response : Type 0 where
  pub not_modified : Bool
  pub body : Bytes
  pub etag : String
  pub last_modified : String
  pub usage : Option Usage

-- The result of `client.Fetch`; an error has the text of the HTTP status, if there was one.
pub data Fetch : Type 0 where
  unanswered : Option String → Fetch
  answered : Response → Fetch

-- Where the subscription comes from: the private record, `Options.Current`, or the caller.
pub data Latest : Type 0 where
  private_record : Latest
  resolved : Option Subscription → Latest
  supplied : Subscription → Latest

pub record RefreshIo : Type 0 where
  pub started : Context
  pub latest : Latest
  pub mkdir_ok : Bool
  pub install_ok : Bool
  pub remove_ok : Bool
  pub before_fetch : Context
  pub fetch : Fetch
  pub now : ℕ
  pub failure_ok : Bool
  pub after_fetch : Context
  pub profile_readable : Bool
  pub touch_ok : Bool
  pub rendered : Option Bytes
  pub after_render : Context
  pub valid : Bool
  pub after_validation : Context
  pub before_commit : Option (Option Subscription)
  pub promotion : PromoteIo
  pub after_commit : Option (Option Subscription)
  pub rollback_ok : Bool
  pub candidate_gone : Bool
  pub profile_gone : Bool
  pub clean : CleanIo

-- `installLatestLocked`
unfoldable pub install_latest : RefreshIo → Subscription → Store → StoreOutcome
install_latest io sub s = elim (get_record sub.id s) [
  | none ↦ add io.mkdir_ok io.install_ok io.remove_ok (fresh_record sub) s
  | some r ↦
      if same_subscription r.subscription sub
      then (none, s)
      else replace io.install_ok (edited sub r) s
]

-- `recordFailure` for an error with a text, where the refresh ends with that error.
unfoldable pub fail_with : RefreshIo → String → String → RefreshError → Store → Refreshed
fail_with io id text e s = (failed e, (touch_failure io.failure_ok id io.now text s).1)

-- `recordContextFailure`: a refresh that was canceled is not recorded.
unfoldable pub while_running : Context → RefreshIo → String → Store → Refreshed → Refreshed
unfolding fail_with
while_running running io id s next = next
while_running canceled io id s next = (failed was_canceled, s)
while_running expired io id s next = fail_with io id "context deadline exceeded" has_expired s

-- `safeContextError` before anything is recorded.
unfoldable pub unless_stopped : Context → Store → Refreshed → Refreshed
unless_stopped running s next = next
unless_stopped canceled s next = (failed was_canceled, s)
unless_stopped expired s next = (failed has_expired, s)

unfoldable pub usage_or : Option Usage → Option Usage → Option Usage
usage_or none old = old
usage_or (some u) old = some u

-- The source did not change.
unfoldable pub unchanged : RefreshIo → String → String → Response → Rec → Store → Refreshed
unfolding usage_or
unchanged io id digest a r s =
    let touched = touch_success io.touch_ok id io.now a.etag a.last_modified a.usage s in
    elim (touched.0) [
      | some e ↦ (failed (refused e), touched.1)
      | none ↦ (done false io.now digest (usage_or a.usage r.usage), touched.1)
    ]

-- A 304 gives no validators that are new.
unfoldable pub with_validators : Rec → Response → Response
with_validators r a =
    if a.not_modified
    then record a {
      etag = if is_blank a.etag then r.etag else a.etag;
      last_modified = if is_blank a.last_modified then r.last_modified else a.last_modified;
    }
    else a

unfoldable pub check_of : RefreshIo → Bool → Response → Check
check_of io download_only a = record {
  now = io.now;
  etag = a.etag;
  last_modified = a.last_modified;
  usage = a.usage;
  downloaded_only = download_only;
}

module _ (parse : String → Option Url) (hash : Bytes → String) (valid_profile : Bytes → Bool) where
  same_normalized : Result Subscription → Subscription → Bool
  same_normalized (err e) expected = false
  same_normalized (ok t) expected = same_subscription t expected

  -- `sourceIsCurrent`, with what `Options.Current` answers, if there is one.
  unfoldable pub source_is_current : Option (Option Subscription) → Subscription → Bool
  unfolding same_normalized
  source_is_current none expected = true
  source_is_current (some none) expected = false
  source_is_current (some (some c)) expected =
      if not (c.id =s expected.id)
      then false
      else same_normalized (normalize_subscription parse none c) expected

  unfoldable pub roll_back : RefreshIo → String → Rec → Pair → Store → Refreshed
  roll_back io id previous p s =
      let back =
        rollback_promotion io.rollback_ok io.candidate_gone io.profile_gone id previous p s in
      elim (back.0) [
        | some e ↦ (failed source_changed_unrestored, back.1)
        | none ↦ (failed source_changed, back.1)
      ]

  unfoldable pub after_promotion :
      RefreshIo → String → Subscription → Pair → Check → Result Rec → Store → Refreshed
  unfolding source_is_current roll_back
  after_promotion io id expected p c (err e) s = (failed commit_failed, s)
  after_promotion io id expected p c (ok previous) s =
      if not (source_is_current io.after_commit expected)
      then roll_back io id previous p s
      else (done true c.now p.profile_hash c.usage, finalize_promotion io.clean id s)

  unfoldable pub commit :
      RefreshIo → String → Subscription → Bytes → Bytes → Check → Store → Refreshed
  unfolding source_is_current after_promotion
  commit io id expected body candidate c s =
      if not (source_is_current io.before_commit expected)
      then (failed source_changed, s)
      else let promoted = promote hash io.promotion id body candidate c s in
        after_promotion io id expected
          (record { profile_hash = hash body; candidate_hash = hash candidate }) c (promoted.0)
          (promoted.1)

  -- The candidate is validated and committed.
  unfoldable pub validated : RefreshIo → String → Rec → Response → Bytes → Store → Refreshed
  unfolding commit check_of while_running fail_with
  validated io id r a candidate s =
      if length candidate == 0 || ltb max_candidate_bytes (length candidate)
      then fail_with io id "subscriptions: candidate generation failed" render_failed s
      else while_running io.after_validation io id s (
          if not io.valid
          then fail_with io id "subscriptions: candidate validation failed" validation_failed s
          else commit io id r.subscription a.body candidate (check_of io false a) s)

  unfoldable pub rendered_with :
      RefreshIo → String → Rec → Response → Option Bytes → Store → Refreshed
  unfolding validated fail_with
  rendered_with io id r a none s =
      fail_with io id "subscriptions: candidate generation failed" render_failed s
  rendered_with io id r a (some candidate) s = validated io id r a candidate s

  unfoldable pub stored : RefreshIo → Bool → String → Rec → Response → Store → Refreshed
  unfolding commit check_of rendered_with while_running fail_with unchanged
  stored io download_only id r a s =
      if not (is_blank r.hash) && hash a.body =s r.hash && (download_only || not r.downloaded_only)
      then unchanged io id (hash a.body) a r s
      else if not (valid_profile a.body)
      then fail_with io id "subscriptions: invalid profile" invalid_profile s
      else if download_only
      then commit io id r.subscription a.body a.body (check_of io true a) s
      else while_running io.after_render io id s (rendered_with io id r a io.rendered s)

  -- A source that was only downloaded is rendered without being fetched again.
  unfoldable pub upgraded : RefreshIo → String → Rec → Response → Result Bytes → Store → Refreshed
  unfolding stored
  upgraded io id r a (err e) s = (failed commit_failed, s)
  upgraded io id r a (ok body) s =
      stored io false id r (record a { body = body; not_modified = false }) s

  -- The branches on the answer.
  unfoldable pub answered_with : RefreshIo → Bool → String → Rec → Response → Store → Refreshed
  unfolding stored upgraded unchanged fail_with
  answered_with io download_only id r a s =
      if a.not_modified && r.downloaded_only && not download_only
      then upgraded io id r a (profile hash io.profile_readable id s) s
      else if a.not_modified
      then (if is_blank r.hash || is_blank r.candidate_hash
          then fail_with io id "subscriptions: no validated snapshot" (refused no_snapshot) s
          else unchanged io id r.hash a r s)
      else stored io download_only id r a s

  unfoldable pub fetch_result : RefreshIo → Bool → String → Rec → Fetch → Store → Refreshed
  unfolding answered_with fail_with with_validators
  fetch_result io download_only id r (unanswered none) s =
      fail_with io id "subscriptions: refresh failed" fetch_failed s
  fetch_result io download_only id r (unanswered (some text)) s =
      fail_with io id text fetch_failed s
  fetch_result io download_only id r (answered a) s =
      answered_with io download_only id r (with_validators r a) s

  unfoldable pub fetched : RefreshIo → Bool → String → Rec → Store → Refreshed
  unfolding fetch_result while_running
  fetched io download_only id r s =
      while_running io.after_fetch io id s (fetch_result io download_only id r io.fetch s)

  unfoldable pub with_record : RefreshIo → Bool → String → Store → Refreshed
  unfolding fetched unless_stopped
  with_record io download_only id s = elim (get_record id s) [
    | none ↦ (failed (refused not_found), s)
    | some r ↦ unless_stopped io.before_fetch s (fetched io download_only id r s)
  ]

  unfoldable pub installed : RefreshIo → Bool → String → Result Subscription → Store → Refreshed
  unfolding with_record install_latest
  installed io download_only id (err e) s = (failed (refused e), s)
  installed io download_only id (ok sub) s =
      let step = install_latest io sub s in
      elim (step.0) [
        | some e ↦ (failed (refused e), step.1)
        | none ↦ with_record io download_only id (step.1)
      ]

  unfoldable pub from_latest : RefreshIo → Bool → String → Latest → Store → Refreshed
  unfolding installed with_record
  from_latest io download_only id private_record s = with_record io download_only id s
  from_latest io download_only id (resolved none) s = (failed (refused not_found), s)
  from_latest io download_only id (resolved (some c)) s =
      if not (c.id =s id)
      then (failed (refused not_found), s)
      else installed io download_only id (normalize_subscription parse none c) s
  from_latest io download_only id (supplied c) s =
      if not (c.id =s id)
      then (failed (refused invalid), s)
      else installed io download_only id (normalize_subscription parse none c) s

  unfoldable pub refresh : RefreshIo → Bool → String → Store → Refreshed
  unfolding from_latest unless_stopped
  refresh io download_only id s =
      if not (valid_id id)
      then (failed (refused invalid), s)
      else unless_stopped io.started s (from_latest io download_only id io.latest s)
