-- ===== src/Subscriptions/Refresh/Sound.antt =====
-- subscriptions/fetch.go: a refresh keeps the store and its directory in agreement, on every path.
use mathlib.Core.Path.{subst}
use mathlib.Core.Option.{some-injective}
use clashpulse.Base.{
  ◌≤◌, ◌≡◌, refl, sym, String, Bool, true, false, not, ◌&&◌, ◌||◌, Option, none, some, ltb, ◌==◌,
  ◌=s◌, is_blank, length, arith, Bool-cases, Option-cases, inl, inr,
}
use clashpulse.Monitor.Policy.{Url}
use clashpulse.Subscriptions.Model.{
  Subscription, no_snapshot, Result, ok, err, valid_id, valid_optional_hash, normalize_subscription,
  is_normal, same_subscription,
}
use clashpulse.Subscriptions.Model.Normal.{normalize_idem, normalize-is_normal}
use clashpulse.Subscriptions.Store.{
  Bytes, Rec, Dir, Store, max_profile_bytes, max_candidate_bytes, replace, get_record, edited,
  touch_success,
}
use clashpulse.Subscriptions.Store.Generations.{
  Pair, applied_pair, Check, profile, promote, rollback_promotion,
}
use clashpulse.Subscriptions.Store.Open.{record_ok}
use clashpulse.Subscriptions.Store.Sound.{IsSound}
use clashpulse.Subscriptions.Store.Sound.Edits.{
  add-IsSound, replace-IsSound, touch_success-IsSound, touch_failure-IsSound,
}
use clashpulse.Subscriptions.Store.Sound.Serve.{profile-length}
use clashpulse.Subscriptions.Store.Sound.Commit.{
  promote-IsSound, finalize-IsSound, rollback-IsSound, promote-previous,
}
use clashpulse.Subscriptions.Refresh.{
  Context, running, canceled, expired, RefreshError, refused, has_expired, render_failed,
  validation_failed, invalid_profile, fetch_failed, Refreshed, Response, Fetch, unanswered,
  answered, Latest, private_record, resolved, supplied, RefreshIo, install_latest, fail_with,
  while_running, unless_stopped, unchanged, with_validators, source_is_current, roll_back,
  after_promotion, commit, check_of, validated, rendered_with, stored, upgraded, answered_with,
  fetch_result, fetched, with_record, installed, from_latest, refresh,
}

-- The answers that the client gives, whose length it limits.
unfoldable pub IsLimited : Fetch → Type 0
IsLimited (unanswered text) = Unit
IsLimited (answered a) = length a.body ≤ max_profile_bytes

module _ (parse : String → Option Url) (hash : Bytes → String) (valid_profile : Bytes → Bool) where
  fail_with-IsSound :
      (io : RefreshIo) (id text : String) (e : RefreshError) (s : Store)
      → IsSound parse hash s
      → IsSound parse hash ((fail_with io id text e s).1)
  unfolding fail_with
  fail_with-IsSound io id text e s h =
      touch_failure-IsSound parse hash io.failure_ok id io.now text s h

  while_running-IsSound :
      (c : Context) (io : RefreshIo) (id : String) (s : Store) (next : Refreshed)
      → IsSound parse hash s
      → IsSound parse hash (next.1)
      → IsSound parse hash ((while_running c io id s next).1)
  unfolding while_running
  while_running-IsSound running io id s next h n = n
  while_running-IsSound canceled io id s next h n = h
  while_running-IsSound expired io id s next h n =
      fail_with-IsSound io id "context deadline exceeded" has_expired s h

  unless_stopped-IsSound :
      (c : Context) (s : Store) (next : Refreshed)
      → IsSound parse hash s
      → IsSound parse hash (next.1)
      → IsSound parse hash ((unless_stopped c s next).1)
  unfolding unless_stopped
  unless_stopped-IsSound running s next h n = n
  unless_stopped-IsSound canceled s next h n = h
  unless_stopped-IsSound expired s next h n = h

  unchanged-IsSound :
      (io : RefreshIo) (id digest : String) (a : Response) (r : Rec) (s : Store)
      → IsSound parse hash s
      → IsSound parse hash ((unchanged io id digest a r s).1)
  unfolding unchanged
  unchanged-IsSound io id digest a r s h =
      let after =
        touch_success-IsSound parse hash io.touch_ok id io.now a.etag a.last_modified a.usage s h in
      elim (Option-cases
        ((touch_success io.touch_ok id io.now a.etag a.last_modified a.usage s).0)) [
          | inl n ↦ rw (unchanged, n) after
          | inr (e, q) ↦ rw (unchanged, q) after
        ]

  get_record-found :
      (id : String) (r : Rec) (s : Store)
      → get_record id s ≡ some r
      → (q : Rec) × (marked : Bool) × (s.records id ≡ some q) × (r ≡ record q { active = marked })
  unfolding get_record
  get_record-found id r s e = elim (Option-cases (s.records id)) [
    | inl n ↦ cc (rw (get_record, n) at e)
    | inr (q, f) ↦
        let g = (rw (get_record, f) at e) in (q, s.current.id =s id, f, sym (some-injective _ _ g))
  ]

  get_record-absent : (id : String) (s : Store) → get_record id s ≡ none → s.records id ≡ none
  unfolding get_record
  get_record-absent id s e = elim (Option-cases (s.records id)) [
    | inl n ↦ n
    | inr (q, f) ↦ cc (rw (get_record, f) at e)
  ]

  install_latest-IsSound :
      (io : RefreshIo) (sub : Subscription) (s : Store)
      → is_normal parse sub ≡ true
      → valid_id sub.id ≡ true
      → (io.install_ok || io.remove_ok) ≡ true
      → IsSound parse hash s
      → IsSound parse hash ((install_latest io sub s).1)
  unfolding install_latest
  install_latest-IsSound io sub s n v k h = elim (Option-cases (get_record sub.id s)) [
    | inl e ↦
        rw (install_latest, e)
          (add-IsSound parse hash io.mkdir_ok io.install_ok io.remove_ok sub s n v k h)
    | inr (r, e) ↦
        let (q, marked, f, same) = get_record-found sub.id r s e in
        rw (install_latest, e)
          (elim (Bool-cases (same_subscription r.subscription sub)) [
            | inl t ↦ rw t h
            | inr t ↦ rw t (
                subst (λ z. IsSound parse hash ((replace io.install_ok (edited sub z) s).1))
                  (sym same) (replace-IsSound parse hash io.install_ok marked sub q s n f h))
          ])
  ]

  roll_back-IsSound :
      (io : RefreshIo) (id : String) (previous r : Rec) (p : Pair) (d : Dir) (s : Store)
      → io.rollback_ok ≡ true
      → IsSound parse hash s
      → s.records id ≡ some r
      → s.disk.dirs id ≡ some d
      → record_ok parse hash true id previous (some d) ≡ true
      → applied_pair previous ≡ applied_pair r
      → IsSound parse hash ((roll_back parse hash valid_profile io id previous p s).1)
  unfolding roll_back
  roll_back-IsSound io id previous r p d s b h e f good a =
      let back =
        rollback_promotion io.rollback_ok io.candidate_gone io.profile_gone id previous p s in
      let after : IsSound parse hash (back.1) =
        subst
          (λ z.
            IsSound parse hash
              ((rollback_promotion z io.candidate_gone io.profile_gone id previous p s).1))
          (sym b)
          (rollback-IsSound parse hash io.candidate_gone io.profile_gone id previous r p d s h e f
            good a) in
      elim (Option-cases (back.0)) [
        | inl n ↦ rw (roll_back, n) after
        | inr (x, q) ↦ rw (roll_back, q) after
      ]

  module _ (hex : (b : Bytes) → valid_optional_hash (hash b) ≡ true)
      (there : (b : Bytes) → is_blank (hash b) ≡ false) (io : RefreshIo)
      (b : io.rollback_ok ≡ true) where
    after_promotion-IsSound :
        (id : String) (expected : Subscription) (body candidate : Bytes) (c : Check) (s : Store)
        (o : Result Rec)
        → length body ≤ max_profile_bytes
        → length candidate ≤ max_candidate_bytes
        → IsSound parse hash s
        → (promote hash io.promotion id body candidate c s).0 ≡ o
        → IsSound parse hash ((promote hash io.promotion id body candidate c s).1)
        → IsSound parse hash (
            (after_promotion parse hash valid_profile io id expected
              (record { profile_hash = hash body; candidate_hash = hash candidate })
              c
              o
              ((promote hash io.promotion id body candidate c s).1)).1)
    unfolding after_promotion
    after_promotion-IsSound id expected body candidate c s (err e) le le' h q after = after
    after_promotion-IsSound id expected body candidate c s (ok previous) le le' h q after =
        elim (Bool-cases (source_is_current parse hash valid_profile io.after_commit expected)) [
          | inl t ↦
              rw (after_promotion, t)
                (finalize-IsSound parse hash io.clean id
                  ((promote hash io.promotion id body candidate c s).1) after)
          | inr n ↦
              let (r, d, e, f, good, a, was) =
                promote-previous parse hash io.promotion id body candidate c s previous le le' h
                  q in
              rw (after_promotion, n)
                (roll_back-IsSound io id previous r
                  (record { profile_hash = hash body; candidate_hash = hash candidate }) d
                  ((promote hash io.promotion id body candidate c s).1) b after e f good a)
        ]

    commit-IsSound :
        (id : String) (expected : Subscription) (body candidate : Bytes) (c : Check) (s : Store)
        → length body ≤ max_profile_bytes
        → length candidate ≤ max_candidate_bytes
        → (c.downloaded_only ≡ true → body ≡ candidate)
        → IsSound parse hash s
        → IsSound parse hash ((commit parse hash valid_profile io id expected body candidate c s).1)
    unfolding commit
    commit-IsSound id expected body candidate c s le le' same h =
        let after =
          promote-IsSound parse hash io.promotion id body candidate c s hex there le le' same h in
        elim (Bool-cases (source_is_current parse hash valid_profile io.before_commit expected)) [
          | inr n ↦ rw (commit, n) h
          | inl t ↦
              rw (commit, t)
                (after_promotion-IsSound id expected body candidate c s
                  ((promote hash io.promotion id body candidate c s).0) le le' h refl after)
        ]

    validated-IsSound :
        (id : String) (r : Rec) (a : Response) (candidate : Bytes) (s : Store)
        → length a.body ≤ max_profile_bytes
        → IsSound parse hash s
        → IsSound parse hash ((validated parse hash valid_profile io id r a candidate s).1)
    unfolding validated check_of
    validated-IsSound id r a candidate s le h =
        elim (Bool-cases (length candidate == 0 || ltb max_candidate_bytes (length candidate))) [
          | inl t ↦
              rw (validated, t)
                (fail_with-IsSound io id "subscriptions: candidate generation failed" render_failed
                  s h)
          | inr n ↦
              rw (validated, n)
                (while_running-IsSound io.after_validation io id s _ h (elim (Bool-cases io.valid) [
                  | inr u ↦ rw u (
                      fail_with-IsSound io id "subscriptions: candidate validation failed"
                        validation_failed s h)
                  | inl u ↦ rw u (
                      commit-IsSound id r.subscription a.body candidate (check_of io false a) s le
                        (ground (arith, n)) (λ (f : false ≡ true). cc f) h)
                ]))
        ]

    rendered-IsSound :
        (id : String) (r : Rec) (a : Response) (o : Option Bytes) (s : Store)
        → length a.body ≤ max_profile_bytes
        → IsSound parse hash s
        → IsSound parse hash ((rendered_with parse hash valid_profile io id r a o s).1)
    unfolding rendered_with
    rendered-IsSound id r a none s le h =
        fail_with-IsSound io id "subscriptions: candidate generation failed" render_failed s h
    rendered-IsSound id r a (some candidate) s le h = validated-IsSound id r a candidate s le h

    stored-IsSound :
        (download_only : Bool) (id : String) (r : Rec) (a : Response) (s : Store)
        → length a.body ≤ max_profile_bytes
        → IsSound parse hash s
        → IsSound parse hash ((stored parse hash valid_profile io download_only id r a s).1)
    unfolding stored check_of
    stored-IsSound download_only id r a s le h =
        elim (Bool-cases (
          not (is_blank r.hash)
          && hash a.body =s r.hash
          && (download_only || not r.downloaded_only))) [
            | inl t ↦ rw (stored, t) (unchanged-IsSound io id (hash a.body) a r s h)
            | inr n ↦ elim (Bool-cases (valid_profile a.body)) [
              | inr u ↦
                  rw (stored, n, u)
                    (fail_with-IsSound io id "subscriptions: invalid profile" invalid_profile s h)
              | inl u ↦ elim (Bool-cases download_only) [
                | inl w ↦
                    rw (stored, n, u, w)
                      (commit-IsSound id r.subscription a.body a.body (check_of io true a) s le
                        (ground (arith, le)) (λ f. refl) h)
                | inr w ↦
                    rw (stored, n, u, w)
                      (while_running-IsSound io.after_render io id s _ h
                        (rendered-IsSound id r a io.rendered s le h))
              ]
            ]
          ]

    upgraded-IsSound :
        (id : String) (r : Rec) (a : Response) (o : Result Bytes) (s : Store)
        → ((body : Bytes) → o ≡ ok body → length body ≤ max_profile_bytes)
        → IsSound parse hash s
        → IsSound parse hash ((upgraded parse hash valid_profile io id r a o s).1)
    unfolding upgraded
    upgraded-IsSound id r a (err e) s le h = h
    upgraded-IsSound id r a (ok body) s le h =
        stored-IsSound false id r (record a { body = body; not_modified = false }) s (le body refl)
          h

    answered_with-IsSound :
        (download_only : Bool) (id : String) (r : Rec) (a : Response) (s : Store)
        → length a.body ≤ max_profile_bytes
        → IsSound parse hash s
        → IsSound parse hash ((answered_with parse hash valid_profile io download_only id r a s).1)
    unfolding answered_with
    answered_with-IsSound download_only id r a s le h =
        elim (Bool-cases (a.not_modified && r.downloaded_only && not download_only)) [
          | inl t ↦
              rw (answered_with, t)
                (upgraded-IsSound id r a (profile hash io.profile_readable id s) s
                  (λ body e. profile-length hash io.profile_readable id s body e) h)
          | inr n ↦ elim (Bool-cases a.not_modified) [
            | inr u ↦ rw (answered_with, n, u) (stored-IsSound download_only id r a s le h)
            | inl u ↦
                rw (answered_with, n, u)
                  (elim (Bool-cases (is_blank r.hash || is_blank r.candidate_hash)) [
                    | inl w ↦ rw w (
                        fail_with-IsSound io id "subscriptions: no validated snapshot"
                          (refused no_snapshot) s h)
                    | inr w ↦ rw w (unchanged-IsSound io id r.hash a r s h)
                  ])
          ]
        ]

    fetch_result-IsSound :
        (download_only : Bool) (id : String) (r : Rec) (f : Fetch) (s : Store)
        → IsLimited f
        → IsSound parse hash s
        → IsSound parse hash ((fetch_result parse hash valid_profile io download_only id r f s).1)
    unfolding fetch_result with_validators IsLimited
    fetch_result-IsSound download_only id r (unanswered none) s l h =
        fail_with-IsSound io id "subscriptions: refresh failed" fetch_failed s h
    fetch_result-IsSound download_only id r (unanswered (some text)) s l h =
        fail_with-IsSound io id text fetch_failed s h
    fetch_result-IsSound download_only id r (answered a) s l h =
        answered_with-IsSound download_only id r (with_validators r a) s
          (elim (Bool-cases a.not_modified) [
            | inl t ↦ rw (with_validators, t) l
            | inr n ↦ rw (with_validators, n) l
          ])
          h

    with_record-IsSound :
        (download_only : Bool) (id : String) (s : Store)
        → IsLimited io.fetch
        → IsSound parse hash s
        → IsSound parse hash ((with_record parse hash valid_profile io download_only id s).1)
    unfolding with_record fetched
    with_record-IsSound download_only id s l h = elim (Option-cases (get_record id s)) [
      | inl n ↦ rw (with_record, n) h
      | inr (r, e) ↦
          rw (with_record, e)
            (unless_stopped-IsSound io.before_fetch s _ h (
              while_running-IsSound io.after_fetch io id s _ h
                (fetch_result-IsSound download_only id r io.fetch s l h)))
    ]

    installed-IsSound :
        (download_only : Bool) (id : String) (c : Subscription) (o : Result Subscription)
        (s : Store)
        → normalize_subscription parse none c ≡ o
        → (io.install_ok || io.remove_ok) ≡ true
        → IsLimited io.fetch
        → IsSound parse hash s
        → IsSound parse hash ((installed parse hash valid_profile io download_only id o s).1)
    unfolding installed
    installed-IsSound download_only id c (err e) s q k l h = h
    installed-IsSound download_only id c (ok sub) s q k l h =
        let after =
          install_latest-IsSound io sub s (normalize-is_normal parse c sub q)
            ((normalize_idem parse c sub q).1) k h in
        elim (Option-cases ((install_latest io sub s).0)) [
          | inl n ↦
              rw (installed, n)
                (with_record-IsSound download_only id ((install_latest io sub s).1) l after)
          | inr (e, f) ↦ rw (installed, f) after
        ]

    from_latest-IsSound :
        (download_only : Bool) (id : String) (latest : Latest) (s : Store)
        → (io.install_ok || io.remove_ok) ≡ true
        → IsLimited io.fetch
        → IsSound parse hash s
        → IsSound parse hash ((from_latest parse hash valid_profile io download_only id latest s).1)
    unfolding from_latest
    from_latest-IsSound download_only id private_record s k l h =
        with_record-IsSound download_only id s l h
    from_latest-IsSound download_only id (resolved none) s k l h = h
    from_latest-IsSound download_only id (resolved (some c)) s k l h =
        elim (Bool-cases (c.id =s id)) [
          | inr n ↦ rw (from_latest, n) h
          | inl t ↦
              rw (from_latest, t)
                (installed-IsSound download_only id c (normalize_subscription parse none c) s refl k
                  l h)
        ]
    from_latest-IsSound download_only id (supplied c) s k l h = elim (Bool-cases (c.id =s id)) [
      | inr n ↦ rw (from_latest, n) h
      | inl t ↦
          rw (from_latest, t)
            (installed-IsSound download_only id c (normalize_subscription parse none c) s refl k l
              h)
    ]

    -- A refresh, whatever the network, the renderer, the validator and the caller do meanwhile.
    pub refresh-IsSound :
        (download_only : Bool) (id : String) (s : Store)
        → (io.install_ok || io.remove_ok) ≡ true
        → IsLimited io.fetch
        → IsSound parse hash s
        → IsSound parse hash ((refresh parse hash valid_profile io download_only id s).1)
    unfolding refresh
    refresh-IsSound download_only id s k l h = elim (Bool-cases (valid_id id)) [
      | inr n ↦ rw (refresh, n) h
      | inl t ↦
          rw (refresh, t)
            (unless_stopped-IsSound io.started s _ h
              (from_latest-IsSound download_only id io.latest s k l h))
    ]
