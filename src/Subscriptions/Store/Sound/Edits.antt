-- ===== src/Subscriptions/Store/Sound/Edits.antt =====
-- subscriptions/store.go: `add`, `replace`, `delete`, `touchSuccess` and `touchFailure` keep the store and
-- its directory in agreement.
use mathlib.Core.Path.{subst}
use clashpulse.Base.{
  ℕ, ◌≡◌, refl, sym, ap, ◌∙◌, String, Bool, true, false, not, ◌||◌, ◌∷◌, Option, none, some, ◌=s◌,
  =s→eq, eq→=s, is_blank, arith, Bool-cases, Option-cases, inl, inr,
}
use clashpulse.Monitor.Policy.{Url}
use clashpulse.Subscriptions.Model.{Subscription, valid_id, valid_optional_hash, is_normal}
use clashpulse.Subscriptions.Store.{
  Bytes, Usage, Rec, Dir, Store, Marker, set_at, set_dir, durable, write_record, valid_failure,
  empty_dir, fresh_record, edited, dir_or_empty, add, replace, DeleteIo, quarantined, without,
  delete, touch_success, touched, touch_failure,
}
use clashpulse.Subscriptions.Store.Generations.{applied_pair}
use clashpulse.Subscriptions.Store.Open.{record_ok}
use clashpulse.Subscriptions.Store.Sound.{RecordSound, EntrySound, IsSound, MarkerSound, is_some}
use clashpulse.Subscriptions.Store.Sound.Records.{
  RecordSound-write, RecordSound-remember, EntrySound-set_at,
}
use clashpulse.Subscriptions.Store.Sound.Files.{=s_false, set_at_self}
use clashpulse.Subscriptions.Store.Sound.Changes.{
  valid_id_blank, set_at-other, set_at-again, contains-set_at, contains-keep_at,
  valid_failure_blank, IsSound-found, IsSound-write, IsSound-remember,
}

module _ (parse : String → Option Url) (hash : Bytes → String) where
  -- The checks do not read what a check of the source changes, but for the failure.
  record_ok-edited :
      (id : String) (sub : Subscription) (r : Rec) (d : Dir)
      → (sub.id =s id) ≡ true
      → is_normal parse sub ≡ true
      → record_ok parse hash true id r (some d) ≡ true
      → record_ok parse hash true id (edited sub r) (some d) ≡ true
  unfolding record_ok edited
  record_ok-edited id sub r d n k h = elim (Bool-cases (r.subscription.url =s sub.url)) [
    | inl t ↦ rw (edited, t) (ground (arith, n, k, h))
    | inr f ↦ rw (edited, f) (ground (arith, n, k, h))
  ]

  applied_pair-edited :
      (sub : Subscription) (r : Rec) → applied_pair (edited sub r) ≡ applied_pair r
  unfolding edited
  applied_pair-edited sub r = elim (Bool-cases (r.subscription.url =s sub.url)) [
    | inl t ↦ rw (edited, t) refl
    | inr f ↦ rw (edited, f) refl
  ]

  edited-subscription : (sub : Subscription) (r : Rec) → (edited sub r).subscription ≡ sub
  unfolding edited
  edited-subscription sub r = elim (Bool-cases (r.subscription.url =s sub.url)) [
    | inl t ↦ rw (edited, t) refl
    | inr f ↦ rw (edited, f) refl
  ]

  -- A subscription is configured anew.
  pub replace-IsSound :
      (write_ok marked : Bool) (sub : Subscription) (r : Rec) (s : Store)
      → is_normal parse sub ≡ true
      → s.records sub.id ≡ some r
      → IsSound parse hash s
      → IsSound parse hash ((replace write_ok (edited sub (record r { active = marked })) s).1)
  unfolding replace edited record_ok
  replace-IsSound write_ok marked sub r s n e h =
      let (d, f, w) = IsSound-found parse hash s sub.id r h e in
      let r' = record r { active = marked } in
      rw (replace, ap (λ z. z.id) (edited-subscription sub r'), e)
        (elim (Bool-cases write_ok) [
          | inl t ↦
              rw (t, ap (λ z. z.id) (edited-subscription sub r'))
                (IsSound-write parse hash s sub.id r (edited sub r') d h e f w
                  (record_ok-edited sub.id sub r' d (eq→=s sub.id sub.id refl) n w.memory_ok)
                  (applied_pair-edited sub r'))
          | inr k ↦ rw k h
        ])

  touched-RecordSound :
      (m : Marker) (id : String) (now : ℕ) (etag last_modified : String) (usage : Option Usage)
      (r : Rec) (d : Dir)
      → RecordSound parse hash m id r d
      → RecordSound parse hash m id (touched now etag last_modified usage r) d
  unfolding touched record_ok
  touched-RecordSound m id now etag last_modified usage r d w =
      RecordSound-remember parse hash m id r (touched now etag last_modified usage r) d
        (record {
          same_subscription = refl;
          same_hash = refl;
          same_candidate = refl;
          same_downloaded = refl;
        })
        (ground (arith, valid_failure_blank, w.memory_ok)) refl w

  -- A check of the source that succeeded.
  pub touch_success-IsSound :
      (write_ok : Bool) (id : String) (now : ℕ) (etag last_modified : String) (usage : Option Usage)
      (s : Store)
      → IsSound parse hash s
      → IsSound parse hash ((touch_success write_ok id now etag last_modified usage s).1)
  unfolding touch_success
  touch_success-IsSound write_ok id now etag last_modified usage s h =
      elim (Option-cases (s.records id)) [
        | inl n ↦ rw (touch_success, n) h
        | inr (r, e) ↦
            let (d, f, w) = IsSound-found parse hash s id r h e in
            let w' = touched-RecordSound s.current id now etag last_modified usage r d w in
            rw (touch_success, e)
              (elim (Bool-cases (is_blank r.last_failure)) [
                | inl t ↦ rw t (
                    IsSound-remember parse hash s id r (touched now etag last_modified usage r) h e
                      (λ d' v.
                        touched-RecordSound s.current id now etag last_modified usage r d' v))
                | inr u ↦ rw u (elim (Bool-cases write_ok) [
                  | inl t ↦ rw t (
                      IsSound-write parse hash s id r (touched now etag last_modified usage r) d h e
                        f w w'.memory_ok (w'.applied ∙ sym w.applied))
                  | inr k ↦ rw k h
                ])
              ])
      ]

  failed_record : ℕ → String → Rec → Rec
  failed_record now failure r = record r {
    checked_at = now;
    last_failure_at = now;
    last_failure = failure;
  }

  failed-RecordSound :
      (m : Marker) (id : String) (now : ℕ) (failure : String) (r : Rec) (d : Dir)
      → valid_failure failure ≡ true
      → RecordSound parse hash m id r d
      → RecordSound parse hash m id (failed_record now failure r) d
  unfolding failed_record record_ok
  failed-RecordSound m id now failure r d v w =
      RecordSound-remember parse hash m id r (failed_record now failure r) d
        (record {
          same_subscription = refl;
          same_hash = refl;
          same_candidate = refl;
          same_downloaded = refl;
        })
        (ground (arith, v, w.memory_ok)) refl w

  -- A check of the source that failed.
  pub touch_failure-IsSound :
      (write_ok : Bool) (id : String) (now : ℕ) (failure : String) (s : Store)
      → IsSound parse hash s
      → IsSound parse hash ((touch_failure write_ok id now failure s).1)
  unfolding touch_failure failed_record
  touch_failure-IsSound write_ok id now failure s h =
      elim (Bool-cases (not (valid_failure failure) || is_blank failure)) [
        | inl t ↦ rw (touch_failure, t) h
        | inr g ↦
            rw (touch_failure, g)
              (elim (Option-cases (s.records id)) [
                | inl n ↦ rw n h
                | inr (r, e) ↦
                    let (d, f, w) = IsSound-found parse hash s id r h e in
                    let v : valid_failure failure ≡ true = ground (arith, g) in
                    let w' = failed-RecordSound s.current id now failure r d v w in
                    rw e (elim (Bool-cases write_ok) [
                      | inl t ↦ rw t (
                          IsSound-write parse hash s id r (failed_record now failure r) d h e f w
                            w'.memory_ok (w'.applied ∙ sym w.applied))
                      | inr k ↦ rw k (
                          IsSound-remember parse hash s id r (failed_record now failure r) h e
                            (λ d' u. failed-RecordSound s.current id now failure r d' v u))
                    ])
              ])
      ]

  -- An identifier without a record is not the active one.
  not_current :
      (s : Store) (id : String)
      → IsSound parse hash s
      → valid_id id ≡ true
      → s.records id ≡ none
      → (id =s s.current.id) ≡ false
  unfolding MarkerSound
  not_current s id h v e = elim (Bool-cases (id =s s.current.id)) [
    | inl t ↦ elim (Bool-cases (is_blank s.current.id)) [
      | inl b ↦ cc (
        v,
        subst (λ z. valid_id z ≡ false) (sym (=s→eq id s.current.id t ∙ =s→eq s.current.id "" b))
            valid_id_blank,
      )
      | inr b ↦
          let (_, there) = (rw (MarkerSound, b) at h.marked) in
          cc (
            there,
            subst (λ z. is_some (s.records z) ≡ false) (=s→eq id s.current.id t) (rw e refl),
          )
    ]
    | inr n ↦ n
  ]

  record_ok-fresh :
      (sub : Subscription) (d : Dir)
      → is_normal parse sub ≡ true
      → record_ok parse hash true sub.id (fresh_record sub) (some d) ≡ true
  unfolding record_ok valid_optional_hash
  record_ok-fresh sub d n = ground (arith, n, valid_failure_blank, eq→=s sub.id sub.id refl)

  IsSound-added :
      (sub : Subscription) (s : Store)
      → is_normal parse sub ≡ true
      → valid_id sub.id ≡ true
      → s.records sub.id ≡ none
      → IsSound parse hash s
      → IsSound parse hash (record s {
        records = set_at sub.id (some (fresh_record sub)) s.records;
        disk = write_record sub.id (fresh_record sub) (record s.disk {
          names = sub.id ∷ s.disk.names;
          dirs = set_at sub.id (some empty_dir) s.disk.dirs;
        });
      })
  unfolding write_record dir_or_empty set_dir MarkerSound EntrySound
  IsSound-added sub s n v e h =
      let other = not_current s sub.id h v e in
      let d : Dir = record empty_dir { record_file = some (durable (fresh_record sub)) } in
      let entry : RecordSound parse hash s.current sub.id (fresh_record sub) d =
        RecordSound-write parse hash s.current sub.id (fresh_record sub) empty_dir v
          (record_ok-fresh sub empty_dir n) (rw other refl) (λ t. cc (t, other)) in
      record {
        entries = λ x.
            subst
              (λ o.
                EntrySound parse hash s.current x
                  (set_at sub.id (some (fresh_record sub)) s.records x) o)
              (rw (set_at_self sub.id (some empty_dir) s.disk.dirs)
                (sym (set_at-again sub.id x (some empty_dir) (some d) s.disk.dirs)))
              (EntrySound-set_at parse hash s.current sub.id (some (fresh_record sub)) (some d)
                s.records s.disk.dirs h.entries entry x);
        listed =
            λ x. contains-set_at sub.id x (fresh_record sub) s.disk.names s.records (h.listed x);
        marked = elim (Bool-cases (is_blank s.current.id)) [
          | inl t ↦ rw t (rw (MarkerSound, t) at h.marked)
          | inr m ↦
              let (a, b) = (rw (MarkerSound, m) at h.marked) in
              rw m (
                a,
                rw
                    (set_at-other sub.id s.current.id (some (fresh_record sub)) s.records
                      (=s_false sub.id s.current.id other))
                    b,
              )
        ];
      }

  -- A new subscription, with nothing left behind where it fails.
  pub add-IsSound :
      (mkdir_ok write_ok remove_ok : Bool) (sub : Subscription) (s : Store)
      → is_normal parse sub ≡ true
      → valid_id sub.id ≡ true
      → (write_ok || remove_ok) ≡ true
      → IsSound parse hash s
      → IsSound parse hash ((add mkdir_ok write_ok remove_ok (fresh_record sub) s).1)
  unfolding add
  add-IsSound mkdir_ok write_ok remove_ok sub s n v k h = elim (Option-cases (s.records sub.id)) [
    | inr (r, e) ↦ rw (add, e) h
    | inl e ↦ elim (Option-cases (s.disk.dirs sub.id)) [
      | inr (d, f) ↦ rw (add, e, f) h
      | inl f ↦
          rw (add, e, f)
            (elim (Bool-cases mkdir_ok) [
              | inr m ↦ rw m h
              | inl m ↦ rw m (elim (Bool-cases write_ok) [
                | inr w ↦ let gone : remove_ok ≡ true = ground (arith, k, w) in rw (w, gone) h
                | inl w ↦ rw w (IsSound-added sub s n v e h)
              ])
            ])
    ]
  ]

  IsSound-without :
      (id : String) (s : Store)
      → (s.current.id =s id) ≡ false
      → IsSound parse hash s
      → IsSound parse hash (without id s)
  unfolding without MarkerSound EntrySound
  IsSound-without id s other h = record {
    entries = EntrySound-set_at parse hash s.current id none none s.records s.disk.dirs h.entries _;
    listed = λ x. contains-keep_at id x s.disk.names s.records (h.listed x);
    marked = elim (Bool-cases (is_blank s.current.id)) [
      | inl t ↦ rw t (rw (MarkerSound, t) at h.marked)
      | inr m ↦
          let (a, b) = (rw (MarkerSound, m) at h.marked) in
          rw m (a, rw (set_at-other id s.current.id none s.records other) b)
    ];
  }

  IsSound-quarantined :
      (id : String) (s : Store) → IsSound parse hash s → IsSound parse hash (quarantined id s)
  unfolding quarantined MarkerSound
  IsSound-quarantined id s h = record { entries = h.entries; listed = h.listed; marked = h.marked }

  -- A record and its directory are gone, or both are kept.
  pub delete-IsSound :
      (io : DeleteIo) (id : String) (s : Store)
      → IsSound parse hash s
      → IsSound parse hash ((delete io id s).1)
  unfolding delete
  delete-IsSound io id s h = elim (Option-cases (s.records id)) [
    | inl n ↦ rw (delete, n) h
    | inr (r, e) ↦
        rw (delete, e)
          (elim (Bool-cases (s.current.id =s id)) [
            | inl t ↦ rw t h
            | inr other ↦ rw other (elim (Bool-cases io.quarantine_ok) [
              | inr n ↦ rw n h
              | inl q ↦ rw q (elim (Bool-cases io.rename_ok) [
                | inr n ↦ rw n (elim (Bool-cases io.unused_gone) [
                  | inl t ↦ rw t h
                  | inr m ↦ rw m (IsSound-quarantined id s h)
                ])
                | inl t ↦ rw t (elim (Bool-cases (not io.sync_ok || not io.remove_ok)) [
                  | inl p ↦
                      rw p (IsSound-quarantined id (without id s) (IsSound-without id s other h))
                  | inr m ↦ rw m (IsSound-without id s other h)
                ])
              ])
            ])
          ])
  ]
