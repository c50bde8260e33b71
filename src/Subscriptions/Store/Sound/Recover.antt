-- ===== src/Subscriptions/Store/Sound/Recover.antt =====
-- subscriptions/store.go: the recovery of an activation that another process has begun and not finished.
use mathlib.Core.Path.{subst}
use clashpulse.Base.{
  ℕ, ◌≡◌, refl, sym, ap, ◌∙◌, String, true, false, not, ◌&&◌, Option, none, some, ◌=s◌, eq→=s,
  is_blank, arith, Bool-cases, Option-cases, inl, inr,
}
use clashpulse.Monitor.Policy.{Url}
use clashpulse.Subscriptions.Model.{valid_optional_hash, ok}
use clashpulse.Subscriptions.Store.{Bytes, Rec, Dir, Store, Marker, Pending, blank_marker}
use clashpulse.Subscriptions.Store.Generations.{
  pair_of, verify_pair, names_generation, CleanIo, cleanup_applied,
}
use clashpulse.Subscriptions.Store.Applied.{
  pair_of_marker, point_option, point_records, point, clear_rec, set_applied, restore_applied,
  set_pending, mark_activation_pending, clear_activation_pending, load_pending_activation,
  recover_pending_activation, RecoverIo, clean_unless, clear_and_clean, has_file,
  valid_resource_commit_id, pending_ok,
}
use clashpulse.Subscriptions.Store.Open.{new_store}
use clashpulse.Subscriptions.Store.Sound.{EntrySound, IsSound, MarkerSound, pair_at, is_some}
use clashpulse.Subscriptions.Store.Sound.Changes.{IsSound-found}
use clashpulse.Subscriptions.Store.Sound.Pointer.{
  set_applied-IsSound, set_pending-IsSound, recover_pending_activation-IsSound,
}
use clashpulse.Subscriptions.Store.Sound.Reopen.{
  View, Source, view, source_of, HasSmallRecords, all_ok, reopen-view, source_of-point_at,
}

-- The sources, with another marker.
point_source : Marker → String → Option Source → Option Source
point_source m x none = none
point_source m x (some o) = some (record o { applied = pair_at m x })

abbrev pub point_view : Marker → View → View
unfolding point_source
point_view m v = record { sources = λ x. point_source m x (v.sources x); active = m }

point_source-again :
    (m m' : Marker) (x : String) (o : Option Source)
    → point_source m x (point_source m' x o) ≡ point_source m x o
unfolding point_source
point_source-again m m' x none = refl
point_source-again m m' x (some o) = refl

source_of-point_option :
    (m : Marker) (x : String) (o : Option Rec)
    → source_of (point_option m x o) ≡ point_source m x (source_of o)
unfolding point_option point_source source_of
source_of-point_option m x none = refl
source_of-point_option m x (some r) = source_of-point_at m x r

source_of-clear_rec :
    (x : String) (o : Option Rec)
    → source_of (clear_rec o) ≡ point_source blank_marker x (source_of o)
unfolding clear_rec point_source source_of
source_of-clear_rec x none = refl
source_of-clear_rec x (some r) = elim (Bool-cases (x =s "")) [
  | inl t ↦ rw t refl
  | inr n ↦ rw n refl
]

pending_ok-blank :
    (commit : String)
    → valid_resource_commit_id commit ≡ true
    → pending_ok (record { marker = blank_marker; resource_commit_id = commit; accepted = false })
      ≡ true
unfolding pending_ok valid_optional_hash
pending_ok-blank commit c = ground (arith, c)

clear_and_clean-view :
    (io : RecoverIo) (s : Store)
    → io.remove_ok ≡ true
    → ((clear_and_clean io none s).0 ≡ none)
      × (view ((clear_and_clean io none s).1) ≡ view s)
      × ((clear_and_clean io none s).1.disk.pending_file ≡ none)
unfolding clear_and_clean clear_activation_pending clean_unless set_pending cleanup_applied view
clear_and_clean-view io s t =
    let kept : (has_file s.disk.pending_file && not io.remove_ok) ≡ false = ground (arith, t) in
    rw (clear_and_clean, clear_activation_pending, kept) (refl, refl, refl)

-- Every call of the operating system succeeds, but for the removals of files that are not needed.
abbrev pub recover_ok : (String → CleanIo) → RecoverIo
recover_ok clean = record {
  pending_readable = true;
  readable = true;
  change_ok = true;
  remove_ok = true;
  clean = clean;
}

module _ (parse : String → Option Url) (hash : Bytes → String) where
  -- The marker says it all.
  IsSound-point_source :
      (s : Store) (x : String)
      → IsSound parse hash s
      → point_source s.current x (source_of (s.records x)) ≡ source_of (s.records x)
  unfolding point_source source_of
  IsSound-point_source s x h = elim (Option-cases (s.records x)) [
    | inl n ↦ rw n refl
    | inr (r, e) ↦
        let (d, f, w) = IsSound-found parse hash s x r h e in
        rw e (λ i. some (record {
          subscription = r.subscription;
          current = pair_of r;
          downloaded_only = r.downloaded_only;
          applied = (sym w.applied) i;
        }))
  ]

  -- A marker that is restored to what the files allow.
  restore_applied-view :
      (m : Marker) (s : Store)
      → (is_blank m.id ≡ true → m ≡ blank_marker)
      → (is_blank m.id ≡ false
          → (r : Rec) × (s.records m.id ≡ some r)
            × (verify_pair hash true m.id (pair_of_marker m) (s.disk.dirs m.id) ≡ true))
      → ((restore_applied hash true true m s).0 ≡ none)
        × (view ((restore_applied hash true true m s).1) ≡ point_view m (view s))
        × ((restore_applied hash true true m s).1.disk.pending_file ≡ s.disk.pending_file)
  unfolding restore_applied set_applied view point_source point point_records
  restore_applied-view m s b n = elim (Bool-cases (is_blank m.id)) [
    | inl t ↦
        rw (restore_applied, t)
          (
            refl,
            (λ i. record {
              sources = λ x.
                  (source_of-clear_rec x (s.records x)
                      ∙ ap (λ z. point_source z x (source_of (s.records x))) (sym (b t)))
                    i;
              active = sym (b t) i;
            }),
            refl,
          )
    | inr f ↦
        let (r, e, v) = n f in
        rw (restore_applied, f, set_applied, e, v)
          (
            refl,
            (λ i. record { sources = λ x. source_of-point_option m x (s.records x) i; active = m }),
            refl,
          )
  ]

  -- What the active generation of a store in agreement is.
  pub IsSound-current :
      (s : Store)
      → IsSound parse hash s
      → (is_blank s.current.id ≡ true → s.current ≡ blank_marker)
        × (is_blank s.current.id ≡ false
            → (r : Rec) × (s.records s.current.id ≡ some r)
              × (verify_pair hash true s.current.id
                    (pair_of_marker s.current)
                    (s.disk.dirs s.current.id)
                  ≡ true))
  unfolding MarkerSound
  IsSound-current s h = (
    λ t. let (a, b) = (rw (MarkerSound, t) at h.marked) in a,
    λ n.
        let (a, there) = (rw (MarkerSound, n) at h.marked) in
        elim (Option-cases (s.records s.current.id)) [
          | inl e ↦
              let absent : is_some (s.records s.current.id) ≡ false = rw e refl in
              cc (there, absent)
          | inr (r, e) ↦
              let (d, f, w) = IsSound-found parse hash s s.current.id r h e in
              (r, e, rw f (w.applied_found (eq→=s s.current.id s.current.id refl)))
        ],
  )

  IsSound-pending_ok :
      (s : Store) (commit : String)
      → IsSound parse hash s
      → valid_resource_commit_id commit ≡ true
      → pending_ok (record { marker = s.current; resource_commit_id = commit; accepted = false })
        ≡ true
  unfolding pending_ok verify_pair names_generation
  IsSound-pending_ok s commit h c = elim (Bool-cases (is_blank s.current.id)) [
    | inl t ↦
        subst
          (λ z.
            pending_ok (record { marker = z; resource_commit_id = commit; accepted = false })
            ≡ true)
          (sym ((IsSound-current s h).0 t)) (pending_ok-blank commit c)
    | inr n ↦ let (r, e, v) = (IsSound-current s h).1 n in rw n (ground (arith, v, c))
  ]

  set_applied-keeps :
      (m : Marker) (s : Store)
      → let s' = (set_applied hash true true m s).1 in
        (s'.disk.dirs ≡ s.disk.dirs)
        × (s'.disk.pending_file ≡ s.disk.pending_file)
        × ((m' : Marker) → point_view m' (view s') ≡ point_view m' (view s))
  unfolding set_applied point point_records view point_view
  set_applied-keeps m s = elim (Option-cases (s.records m.id)) [
    | inl n ↦ rw (set_applied, n) (refl, refl, λ m'. refl)
    | inr (r, e) ↦
        elim (Bool-cases (verify_pair hash true m.id (pair_of_marker m) (s.disk.dirs m.id))) [
          | inr n ↦ rw (set_applied, e, n) (refl, refl, λ m'. refl)
          | inl v ↦
              rw (set_applied, e, v)
                (
                  refl,
                  refl,
                  λ m' i. record {
                    sources = λ x.
                        (ap (point_source m' x) (source_of-point_option m x (s.records x))
                            ∙ point_source-again m' m x (source_of (s.records x)))
                          i;
                    active = m';
                  },
                )
        ]
  ]

  IsSound-record :
      (s : Store) (x : String) (d : Dir)
      → IsSound parse hash s
      → s.disk.dirs x ≡ some d
      → (r : Rec) × (s.records x ≡ some r)
  unfolding EntrySound
  IsSound-record s x d h f = elim (Option-cases (s.records x)) [
    | inl n ↦ absurd (
        subst (λ o. EntrySound parse hash s.current x none o) f
          (subst (λ o. EntrySound parse hash s.current x o (s.disk.dirs x)) n (h.entries x)))
    | inr found ↦ found
  ]

  -- The recovery with the marker of a pending activation whose resources were not committed.
  recover-restores :
      (clean : String → CleanIo) (p : Pending) (commit : String) (s : Store)
      → load_pending_activation true s ≡ ok (some p)
      → p.accepted ≡ false
      → (p.resource_commit_id =s commit) ≡ false
      → ((restore_applied hash true true p.marker s).0 ≡ none)
      → let recovered = recover_pending_activation hash (recover_ok clean) commit s in
        (recovered.0 ≡ none)
        × (view (recovered.1) ≡ view ((restore_applied hash true true p.marker s).1))
        × (recovered.1.disk.pending_file ≡ none)
  unfolding recover_pending_activation
  recover-restores clean p commit s l a n o =
      rw (recover_pending_activation, l, a, n, o)
        (clear_and_clean-view (recover_ok clean) ((restore_applied hash true true p.marker s).1)
          refl)

  HasSmallRecords-set_applied :
      (size : Rec → ℕ) (m : Marker) (s : Store)
      → HasSmallRecords size s.disk
      → HasSmallRecords size ((set_applied hash true true m s).1.disk)
  HasSmallRecords-set_applied size m s small id d q f at =
      small id d q (sym (ap (λ g. g id) ((set_applied-keeps m s).0)) ∙ f) at

  undone :
      (size : Rec → ℕ) (clean : String → CleanIo) (m : Marker) (commit other : String) (s : Store)
      → IsSound parse hash s
      → HasSmallRecords size s.disk
      → valid_resource_commit_id commit ≡ true
      → (commit =s other) ≡ false
      → let pending =
          set_pending
            (some (record { marker = s.current; resource_commit_id = commit; accepted = false }))
            s in
        (s' : Store) × (new_store parse hash size all_ok
            ((set_applied hash true true m pending).1.disk)
          ≡ ok s')
        × (let recovered = recover_pending_activation hash (recover_ok clean) other s' in
            (recovered.0 ≡ none)
            × (view (recovered.1) ≡ view s)
            × (recovered.1.disk.pending_file ≡ none)
            × IsSound parse hash (recovered.1))
  unfolding set_pending load_pending_activation view point_source point_view
  undone size clean m commit other s h small v n =
      let p : Pending = record {
        marker = s.current;
        resource_commit_id = commit;
        accepted = false;
      } in
      let s1 = set_pending (some p) s in
      let (s', opened, disk, same, h') =
        reopen-view parse hash size ((set_applied hash true true m s1).1)
          (set_applied-IsSound parse hash true true m s1
            (set_pending-IsSound parse hash (some p) s h))
          (HasSmallRecords-set_applied size m s1 small) in
      let (kept_dirs, kept_pending, kept_view) = set_applied-keeps m s1 in
      let dirs : s'.disk.dirs ≡ s.disk.dirs = ap (λ z. z.dirs) disk ∙ kept_dirs in
      let pending : s'.disk.pending_file ≡ some p = ap (λ z. z.pending_file) disk ∙ kept_pending in
      let (blank, active) = IsSound-current s h in
      let restored = restore_applied-view s.current s' blank (λ nb.
        let (r, e, found) = active nb in
        let (d, f, w) = IsSound-found parse hash s s.current.id r h e in
        let (r', e') = IsSound-record s' s.current.id d h' (ap (λ g. g s.current.id) dirs ∙ f) in
        (
          r',
          e',
          subst
              (λ g.
                verify_pair hash true s.current.id (pair_of_marker s.current) (g s.current.id)
                ≡ true)
              (sym dirs) found,
        )) in
      let loaded : load_pending_activation true s' ≡ ok (some p) =
        rw (load_pending_activation, pending, IsSound-pending_ok s commit h v) refl in
      let recovered = recover-restores clean p other s' loaded refl n (restored.0) in
      (
        s',
        opened,
        (
          recovered.0,
          recovered.1
              ∙ restored.1
              ∙ ap (point_view s.current) same
              ∙ kept_view s.current
              ∙ ap (λ g. record { sources = g; active = s.current })
                  (λ i x. IsSound-point_source s x h i),
          recovered.2,
          recover_pending_activation-IsSound parse hash (recover_ok clean) other s' h',
        ),
      )

  -- In a store that agrees with its directory, has no pending marker and no record.json of over 1 MiB,
  -- let an activation write the pending marker with a valid commit identifier and set another generation,
  -- or fail to. Then the process ends. The next one opens the directory, and its recovery, which is given another commit identifier,
  -- succeeds where its files can be read and changed: the sources and the active generation are what they
  -- were before, the pending marker is gone, and the store agrees with its directory.
  pub interrupted-is_undone :
      (size : Rec → ℕ) (clean : String → CleanIo) (m : Marker) (commit other : String) (s : Store)
      → IsSound parse hash s
      → HasSmallRecords size s.disk
      → s.disk.pending_file ≡ none
      → valid_resource_commit_id commit ≡ true
      → (commit =s other) ≡ false
      → let begun =
          (set_applied hash true true m
            ((mark_activation_pending true true s.current commit s).1)).1 in
        (s' : Store) × (new_store parse hash size all_ok begun.disk ≡ ok s')
        × (let recovered = recover_pending_activation hash (recover_ok clean) other s' in
            (recovered.0 ≡ none)
            × (view (recovered.1) ≡ view s)
            × (recovered.1.disk.pending_file ≡ none)
            × IsSound parse hash (recovered.1))
  unfolding mark_activation_pending has_file view
  interrupted-is_undone size clean m commit other s h small p v n =
      rw (mark_activation_pending, v, p) (undone size clean m commit other s h small v n)
