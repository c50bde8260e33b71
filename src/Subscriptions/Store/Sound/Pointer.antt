-- ===== src/Subscriptions/Store/Sound/Pointer.antt =====
-- subscriptions/store.go: `setApplied`, `restoreApplied`, the marker of a pending activation and the
-- recovery from it keep the store and its directory in agreement.
use mathlib.Core.Path.{subst}
use clashpulse.Base.{
  ℕ, ◌≡◌, refl, sym, ◌∙◌, String, Bool, true, false, not, ◌&&◌, ◌||◌, Option, none, some, ◌=s◌,
  =s→eq, is_blank, arith, Bool-cases, Option-cases, inl, inr,
}
use clashpulse.Monitor.Policy.{Url}
use clashpulse.Subscriptions.Model.{valid_id, StoreError, Result, ok, err}
use clashpulse.Subscriptions.Store.{
  Bytes, Rec, Dir, Store, Marker, Pending, blank_marker, max_profile_bytes,
}
use clashpulse.Subscriptions.Store.Generations.{
  Pair, verify_pair, generation_ok, has_hash, read_file, matches_at, names_generation, CleanIo,
}
use clashpulse.Subscriptions.Store.Applied.{
  pair_of_marker, point_at, point_option, point_records, point, clear_rec, set_applied,
  restore_applied, set_pending, mark_activation_pending, clear_activation_pending,
  mark_activation_accepted, retry_accepted_activation_cleanup, load_pending_activation,
  recover_pending_activation, RecoverIo, clean_unless, clear_and_clean, has_file,
  valid_resource_commit_id,
}
use clashpulse.Subscriptions.Store.Open.{record_ok}
use clashpulse.Subscriptions.Store.Sound.{
  RecordSound, SameSource, EntrySound, IsSound, MarkerSound, is_some,
}
use clashpulse.Subscriptions.Store.Sound.Changes.{valid_id_blank}
use clashpulse.Subscriptions.Store.Sound.Commit.{cleanup_applied-IsSound}

-- An identifier that passes the checks is not blank.
pub valid_id-is_blank : (id : String) → valid_id id ≡ true → is_blank id ≡ false
valid_id-is_blank id v = elim (Bool-cases (is_blank id)) [
  | inl t ↦ cc (v, subst (λ z. valid_id z ≡ false) (sym (=s→eq id "" t)) valid_id_blank)
  | inr n ↦ n
]

module _ (parse : String → Option Url) (hash : Bytes → String) where
  has_hash-unreadable :
      (h : String) (limit : ℕ) (f : Option Bytes)
      → has_hash hash h (read_file false limit f) ≡ false
  unfolding has_hash read_file
  has_hash-unreadable h limit none = refl
  has_hash-unreadable h limit (some b) = refl

  generation_ok-readable :
      (readable : Bool) (p : Pair) (d : Dir)
      → generation_ok hash readable p d ≡ true
      → generation_ok hash true p d ≡ true
  unfolding generation_ok
  generation_ok-readable readable p d v = elim (Bool-cases readable) [
    | inl t ↦ (rw t at v)
    | inr n ↦ cc (
        (rw
          (
            generation_ok,
            n,
            has_hash-unreadable p.profile_hash max_profile_bytes (d.profiles p.profile_hash),
          )
          at v))
  ]

  -- A generation that was read is there.
  pub verify_pair-readable :
      (readable : Bool) (id : String) (p : Pair) (q : Option Dir)
      → verify_pair hash readable id p q ≡ true
      → verify_pair hash true id p q ≡ true
  unfolding verify_pair matches_at
  verify_pair-readable readable id p none v = v
  verify_pair-readable readable id p (some d) v =
      ground (arith, v, generation_ok-readable readable p d)

  pub verify_pair-named :
      (readable : Bool) (id : String) (p : Pair) (q : Option Dir)
      → verify_pair hash readable id p q ≡ true
      → is_blank id ≡ false
  unfolding verify_pair names_generation
  verify_pair-named readable id p q v = valid_id-is_blank id (ground (arith, v))

  -- A record that is made to point where the marker says.
  pub RecordSound-point :
      (m : Marker) (id : String) (r : Rec) (d : Dir)
      → valid_id id ≡ true
      → record_ok parse hash true id r (some d) ≡ true
      → (q : Rec) × (d.record_file ≡ some q)
        × SameSource r q
        × (record_ok parse hash true id q (some d) ≡ true)
      → (id =s m.id ≡ true → verify_pair hash true id (pair_of_marker m) (some d) ≡ true)
      → RecordSound parse hash m id (point_at m id r) d
  unfolding point_at record_ok
  RecordSound-point m id r d named memory_ok (q, at, same, checked) v =
      elim (Bool-cases (id =s m.id)) [
        | inl t ↦
            rw (point_at, t)
              (record {
                named = named;
                memory_ok = memory_ok;
                stored = (
                  q,
                  at,
                  record {
                    same_subscription = same.same_subscription;
                    same_hash = same.same_hash;
                    same_candidate = same.same_candidate;
                    same_downloaded = same.same_downloaded;
                  },
                  checked,
                );
                applied = rw t refl;
                applied_found = v;
              })
        | inr n ↦
            rw (point_at, n)
              (record {
                named = named;
                memory_ok = memory_ok;
                stored = (
                  q,
                  at,
                  record {
                    same_subscription = same.same_subscription;
                    same_hash = same.same_hash;
                    same_candidate = same.same_candidate;
                    same_downloaded = same.same_downloaded;
                  },
                  checked,
                );
                applied = rw n refl;
                applied_found = v;
              })
      ]

  EntrySound-point :
      (m m' : Marker) (id : String) (o : Option Rec) (q : Option Dir)
      → (id =s m'.id ≡ true → verify_pair hash true id (pair_of_marker m') q ≡ true)
      → EntrySound parse hash m id o q
      → EntrySound parse hash m' id (point_option m' id o) q
  unfolding EntrySound point_option
  EntrySound-point m m' id none none v w = w
  EntrySound-point m m' id none (some d) v w = w
  EntrySound-point m m' id (some r) none v w = w
  EntrySound-point m m' id (some r) (some d) v w =
      RecordSound-point m' id r d w.named w.memory_ok w.stored v

  is_some-point_option :
      (m : Marker) (id : String) (o : Option Rec) → is_some o ≡ is_some (point_option m id o)
  unfolding point_option
  is_some-point_option m id none = refl
  is_some-point_option m id (some r) = refl

  -- The marker of a generation whose files are there.
  point-IsSound :
      (m : Marker) (s : Store)
      → is_blank m.id ≡ false
      → is_some (s.records m.id) ≡ true
      → verify_pair hash true m.id (pair_of_marker m) (s.disk.dirs m.id) ≡ true
      → IsSound parse hash s
      → IsSound parse hash (point m s)
  unfolding point point_records MarkerSound
  point-IsSound m s b there v h = record {
    entries = λ x.
        EntrySound-point s.current m x (s.records x) (s.disk.dirs x)
          (λ t.
            subst (λ z. verify_pair hash true z (pair_of_marker m) (s.disk.dirs z) ≡ true)
              (sym (=s→eq x m.id t)) v)
          (h.entries x);
    listed = λ x. h.listed x ∙ is_some-point_option m x (s.records x);
    marked = rw b (refl, sym (is_some-point_option m m.id (s.records m.id)) ∙ there);
  }

  -- An activation that commits.
  pub set_applied-IsSound :
      (readable write_ok : Bool) (m : Marker) (s : Store)
      → IsSound parse hash s
      → IsSound parse hash ((set_applied hash readable write_ok m s).1)
  unfolding set_applied
  set_applied-IsSound readable write_ok m s h = elim (Option-cases (s.records m.id)) [
    | inl n ↦ rw (set_applied, n) h
    | inr (r, e) ↦
        rw (set_applied, e)
          (elim (Bool-cases
            (verify_pair hash readable m.id (pair_of_marker m) (s.disk.dirs m.id))) [
              | inr n ↦ rw n h
              | inl v ↦ rw v (elim (Bool-cases write_ok) [
                | inr n ↦ rw n h
                | inl t ↦ rw t (
                    point-IsSound m s
                      (verify_pair-named readable m.id (pair_of_marker m) (s.disk.dirs m.id) v)
                      (rw e refl)
                      (verify_pair-readable readable m.id (pair_of_marker m) (s.disk.dirs m.id) v)
                      h)
              ])
            ])
  ]

  RecordSound-clear :
      (m : Marker) (id : String) (r : Rec) (d : Dir)
      → RecordSound parse hash m id r d
      → RecordSound parse hash blank_marker id
          (record r {
            applied_hash = "";
            applied_profile_hash = "";
            applied_candidate_hash = "";
            active = false;
          })
          d
  unfolding point_at
  RecordSound-clear m id r d w =
      let other = valid_id-is_blank id w.named in
      let pointed =
        RecordSound-point blank_marker id r d w.named w.memory_ok w.stored (λ t. cc (t, other)) in
      (rw (point_at, other) at pointed)

  EntrySound-clear :
      (m : Marker) (id : String) (o : Option Rec) (q : Option Dir)
      → EntrySound parse hash m id o q
      → EntrySound parse hash blank_marker id (clear_rec o) q
  unfolding EntrySound clear_rec
  EntrySound-clear m id none none w = w
  EntrySound-clear m id none (some d) w = w
  EntrySound-clear m id (some r) none w = w
  EntrySound-clear m id (some r) (some d) w = RecordSound-clear m id r d w

  is_some-clear_rec : (o : Option Rec) → is_some o ≡ is_some (clear_rec o)
  unfolding clear_rec
  is_some-clear_rec none = refl
  is_some-clear_rec (some r) = refl

  -- No activation: active.json is gone.
  pub clear-IsSound :
      (s : Store)
      → IsSound parse hash s
      → IsSound parse hash (record s {
        records = λ id. clear_rec (s.records id);
        current = blank_marker;
        disk = record s.disk { active_file = none };
      })
  unfolding MarkerSound
  clear-IsSound s h = record {
    entries = λ x. EntrySound-clear s.current x (s.records x) (s.disk.dirs x) (h.entries x);
    listed = λ x. h.listed x ∙ is_some-clear_rec (s.records x);
    marked = (refl, refl);
  }

  -- An activation that is taken back.
  pub restore_applied-IsSound :
      (readable change_ok : Bool) (m : Marker) (s : Store)
      → IsSound parse hash s
      → IsSound parse hash ((restore_applied hash readable change_ok m s).1)
  unfolding restore_applied
  restore_applied-IsSound readable change_ok m s h = elim (Bool-cases (is_blank m.id)) [
    | inr n ↦ rw (restore_applied, n) (set_applied-IsSound readable change_ok m s h)
    | inl b ↦
        rw (restore_applied, b)
          (elim (Bool-cases change_ok) [ inr n ↦ rw n h | inl t ↦ rw t (clear-IsSound s h) ])
  ]

  -- The file of a pending activation is no part of the agreement.
  pub set_pending-IsSound :
      (p : Option Pending) (s : Store) → IsSound parse hash s → IsSound parse hash (set_pending p s)
  unfolding set_pending MarkerSound
  set_pending-IsSound p s h = record { entries = h.entries; listed = h.listed; marked = h.marked }

  pub clear_activation_pending-IsSound :
      (remove_ok : Bool) (s : Store)
      → IsSound parse hash s
      → IsSound parse hash ((clear_activation_pending remove_ok s).1)
  unfolding clear_activation_pending
  clear_activation_pending-IsSound remove_ok s h =
      elim (Bool-cases (has_file s.disk.pending_file && not remove_ok)) [
        | inl t ↦ rw (clear_activation_pending, t) h
        | inr n ↦ rw (clear_activation_pending, n) (set_pending-IsSound none s h)
      ]

  pub mark_activation_pending-IsSound :
      (stat_ok write_ok : Bool) (m : Marker) (commit : String) (s : Store)
      → IsSound parse hash s
      → IsSound parse hash ((mark_activation_pending stat_ok write_ok m commit s).1)
  unfolding mark_activation_pending
  mark_activation_pending-IsSound stat_ok write_ok m commit s h =
      elim (Bool-cases (valid_resource_commit_id commit)) [
        | inr n ↦ rw (mark_activation_pending, n) h
        | inl v ↦
            rw (mark_activation_pending, v)
              (elim (Bool-cases (not stat_ok || has_file s.disk.pending_file)) [
                | inl t ↦ rw t h
                | inr n ↦ rw n (elim (Bool-cases write_ok) [
                  | inr k ↦ rw k h
                  | inl t ↦ rw t (
                      set_pending-IsSound
                        (some
                          (record { marker = m; resource_commit_id = commit; accepted = false }))
                        s h)
                ])
              ])
      ]

  pub mark_activation_accepted-IsSound :
      (readable write_ok : Bool) (s : Store)
      → IsSound parse hash s
      → IsSound parse hash ((mark_activation_accepted readable write_ok s).1)
  unfolding mark_activation_accepted
  mark_activation_accepted-IsSound readable write_ok s h =
      accepted (load_pending_activation readable s) refl
    where
      accepted :
          (l : Result (Option Pending))
          → load_pending_activation readable s ≡ l
          → IsSound parse hash ((mark_activation_accepted readable write_ok s).1)
      accepted (err e) q = rw (mark_activation_accepted, q) h
      accepted (ok none) q = rw (mark_activation_accepted, q) h
      accepted (ok (some p)) q =
          rw (mark_activation_accepted, q)
            (elim (Bool-cases write_ok) [
              | inr n ↦ rw n h
              | inl t ↦ rw t (set_pending-IsSound (some (record p { accepted = true })) s h)
            ])

  pub retry_accepted_activation_cleanup-IsSound :
      (readable remove_ok : Bool) (s : Store)
      → IsSound parse hash s
      → IsSound parse hash ((retry_accepted_activation_cleanup readable remove_ok s).1)
  unfolding retry_accepted_activation_cleanup
  retry_accepted_activation_cleanup-IsSound readable remove_ok s h =
      retried (load_pending_activation readable s) refl
    where
      retried :
          (l : Result (Option Pending))
          → load_pending_activation readable s ≡ l
          → IsSound parse hash ((retry_accepted_activation_cleanup readable remove_ok s).1)
      retried (err e) q = rw (retry_accepted_activation_cleanup, q) h
      retried (ok none) q = rw (retry_accepted_activation_cleanup, q) h
      retried (ok (some p)) q =
          rw (retry_accepted_activation_cleanup, q)
            (elim (Bool-cases p.accepted) [
              | inr n ↦ rw n h
              | inl t ↦ rw t (clear_activation_pending-IsSound remove_ok s h)
            ])

  clean_unless-IsSound :
      (clean : String → CleanIo) (e : Option StoreError) (s : Store)
      → IsSound parse hash s
      → IsSound parse hash ((clean_unless clean e s).1)
  unfolding clean_unless
  clean_unless-IsSound clean none s h = cleanup_applied-IsSound parse hash clean s h
  clean_unless-IsSound clean (some e) s h = h

  clear_and_clean-IsSound :
      (io : RecoverIo) (e : Option StoreError) (s : Store)
      → IsSound parse hash s
      → IsSound parse hash ((clear_and_clean io e s).1)
  unfolding clear_and_clean
  clear_and_clean-IsSound io (some e) s h = h
  clear_and_clean-IsSound io none s h =
      clean_unless-IsSound io.clean ((clear_activation_pending io.remove_ok s).0)
        ((clear_activation_pending io.remove_ok s).1)
        (clear_activation_pending-IsSound io.remove_ok s h)

  -- The recovery, whatever the interrupted process has left.
  pub recover_pending_activation-IsSound :
      (io : RecoverIo) (commit : String) (s : Store)
      → IsSound parse hash s
      → IsSound parse hash ((recover_pending_activation hash io commit s).1)
  unfolding recover_pending_activation
  recover_pending_activation-IsSound io commit s h =
      recovered (load_pending_activation io.pending_readable s) refl
    where
      recovered :
          (l : Result (Option Pending))
          → load_pending_activation io.pending_readable s ≡ l
          → IsSound parse hash ((recover_pending_activation hash io commit s).1)
      recovered (err e) q = rw (recover_pending_activation, q) h
      recovered (ok none) q =
          rw (recover_pending_activation, q) (cleanup_applied-IsSound parse hash io.clean s h)
      recovered (ok (some p)) q =
          rw (recover_pending_activation, q)
            (elim (Bool-cases (not p.accepted && not (p.resource_commit_id =s commit))) [
              | inl t ↦ rw t (
                  clear_and_clean-IsSound io
                    ((restore_applied hash io.readable io.change_ok p.marker s).0)
                    ((restore_applied hash io.readable io.change_ok p.marker s).1)
                    (restore_applied-IsSound io.readable io.change_ok p.marker s h))
              | inr n ↦ rw n (clear_and_clean-IsSound io none s h)
            ])
