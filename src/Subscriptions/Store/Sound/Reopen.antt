-- ===== src/Subscriptions/Store/Sound/Reopen.antt =====
-- subscriptions/store.go: what the next process finds. Opening the directory of a store gives the
-- same sources and the same active generation.
use mathlib.Core.Path.{subst}
use clashpulse.Base.{
  ◌≡◌, refl, sym, ap, ◌∙◌, String, Bool, true, false, not, ◌&&◌, List, [], ◌∷◌, Option, none, some,
  if◌then◌else◌, ◌=s◌, =s→eq, eq→=s, is_blank, is_empty, contains, arith, Bool-cases, Option-cases,
  inl, inr, ℕ, leb, ◌≤◌,
}
use clashpulse.Monitor.Policy.{Url}
use clashpulse.Subscriptions.Model.{Subscription, valid_id, ok, err, store_failed}
use clashpulse.Subscriptions.Store.{Bytes, Rec, Dir, Disk, Store, Marker, set_at}
use clashpulse.Subscriptions.Store.Generations.{
  Pair, pair_of, applied_pair, verify_pair, names_generation,
}
use clashpulse.Subscriptions.Store.Applied.{pair_of_marker, point_at, point_option, point_records}
use clashpulse.Subscriptions.Store.Open.{
  OpenIo, max_record_bytes, read_record, record_ok, file_of, load_file, load_record, load_records,
  load_active, check_active, active_pair, marker_with, new_store,
}
use clashpulse.Subscriptions.Store.Sound.{
  RecordSound, SameSource, EntrySound, IsSound, MarkerSound, pair_at, is_some,
}
use clashpulse.Subscriptions.Store.Sound.Changes.{IsSound-found}
use clashpulse.Subscriptions.Store.Sound.Pointer.{RecordSound-point}

-- Every call of the operating system succeeds.
abbrev pub all_ok : OpenIo
all_ok = record {
  quarantine_ok = true;
  record_readable = λ id. true;
  readable = λ id. true;
  active_readable = true;
}

-- What a user can tell of a store: the sources and the active generation.
pub record Source : Type 0 where
  pub subscription : Subscription
  pub current : Pair
  pub downloaded_only : Bool
  pub applied : Pair

pub record View : Type 0 where
  pub sources : String → Option Source
  pub active : Marker

unfoldable pub source_of : Option Rec → Option Source
source_of none = none
source_of (some r) = some (record {
  subscription = r.subscription;
  current = pair_of r;
  downloaded_only = r.downloaded_only;
  applied = applied_pair r;
})

unfoldable pub view : Store → View
view s = record { sources = λ id. source_of (s.records id); active = s.current }

applied-point_at : (m : Marker) (x : String) (q : Rec) → applied_pair (point_at m x q) ≡ pair_at m x
unfolding point_at
applied-point_at m x q = elim (Bool-cases (x =s m.id)) [
  | inl t ↦ rw (point_at, t) refl
  | inr n ↦ rw (point_at, n) refl
]

pub source_of-point_at :
    (m : Marker) (x : String) (q : Rec)
    → source_of (some (point_at m x q))
      ≡ some (record {
        subscription = q.subscription;
        current = pair_of q;
        downloaded_only = q.downloaded_only;
        applied = pair_at m x;
      })
unfolding source_of point_at
source_of-point_at m x q = elim (Bool-cases (x =s m.id)) [
  | inl t ↦ rw (point_at, t) refl
  | inr n ↦ rw (point_at, n) refl
]

-- Every record.json of the directory is within the limit of its read.
abbrev pub HasSmallRecords : (Rec → ℕ) → Disk → Type 0
HasSmallRecords size disk =
    (id : String) (d : Dir) (q : Rec)
    → disk.dirs id ≡ some d
    → d.record_file ≡ some q
    → size q ≤ max_record_bytes

module _ (parse : String → Option Url) (hash : Bytes → String) (size : Rec → ℕ) where
  -- What the loop over the directory needs of a name.
  abbrev Loads : Disk → String → Type 0
  Loads disk id =
      (q : Rec) × (file_of parse hash (disk.dirs id) ≡ some q)
      × (valid_id id ≡ true)
      × (leb (size q) max_record_bytes ≡ true)
      × (record_ok parse hash true id q (disk.dirs id) ≡ true)

  load_record-ok :
      (disk : Disk) (id : String) (l : Loads disk id)
      → load_record parse hash size all_ok id disk ≡ ok (l.0)
  unfolding load_record load_file read_record
  load_record-ok disk id l = let (q, f, v, small, c) = l in rw (v, f, read_record, small, c) refl

  load_records-ok :
      (disk : Disk) (names : List String)
      → ((id : String) → contains id names ≡ true → Loads disk id)
      → (m : String → Option Rec) × (load_records parse hash size all_ok disk names ≡ ok m)
        × ((x : String)
            → m x ≡ (if contains x names then file_of parse hash (disk.dirs x) else none))
  unfolding load_records set_at
  load_records-ok disk [] h = (λ x. none, refl, λ x. refl)
  load_records-ok disk (id ∷ ids) h =
      let l = h id (rw (eq→=s id id refl) refl) in
      let (m, e, at) = load_records-ok disk ids (λ x t. h x (ground (arith, t))) in
      (
        set_at id (some (l.0)) m,
        rw (load_record-ok disk id l, e) refl,
        λ x. elim (Bool-cases (x =s id)) [
          | inl t ↦ rw (set_at, t, =s→eq x id t) (sym (l.1))
          | inr n ↦ rw (set_at, n) (at x)
        ],
      )

  -- What is loaded for a name is what the store remembers, less what the store alone remembers.
  data Reloads (s : Store) (x : String) (o : Option Rec) : Type 0 where
    gone : s.records x ≡ none → s.disk.dirs x ≡ none → o ≡ none → Reloads s x o
    back :
        (r : Rec) (d : Dir) (q : Rec)
        → s.records x ≡ some r
        → s.disk.dirs x ≡ some d
        → o ≡ some q
        → d.record_file ≡ some q
        → SameSource r q
        → record_ok parse hash true x q (some d) ≡ true
        → RecordSound parse hash s.current x r d
        → Reloads s x o

  no_dir :
      (s : Store) (x : String) → IsSound parse hash s → s.records x ≡ none → s.disk.dirs x ≡ none
  unfolding EntrySound
  no_dir s x h e = elim (Option-cases (s.disk.dirs x)) [
    | inl n ↦ n
    | inr (d, f) ↦ absurd (
        subst (λ o. EntrySound parse hash s.current x none o) f
          (subst (λ o. EntrySound parse hash s.current x o (s.disk.dirs x)) e (h.entries x)))
  ]

  IsSound-Loads :
      (s : Store) (x : String)
      → IsSound parse hash s
      → HasSmallRecords size s.disk
      → contains x s.disk.names ≡ true
      → Loads s.disk x
  unfolding file_of
  IsSound-Loads s x h small t = elim (Option-cases (s.records x)) [
    | inl n ↦
        let absent : contains x s.disk.names ≡ false = h.listed x ∙ rw n refl in cc (t, absent)
    | inr (r, e) ↦
        let (d, f, w) = IsSound-found parse hash s x r h e in
        let (q, at, same, checked) = w.stored in
        (q, rw f at, w.named, ground (arith, small x d q f at), rw f checked)
  ]

  IsSound-Reloads :
      (s : Store) (m : String → Option Rec) (x : String)
      → IsSound parse hash s
      → m x ≡ (if contains x s.disk.names then file_of parse hash (s.disk.dirs x) else none)
      → Reloads s x (m x)
  unfolding file_of
  IsSound-Reloads s m x h at = elim (Option-cases (s.records x)) [
    | inl n ↦
        let absent : contains x s.disk.names ≡ false = h.listed x ∙ rw n refl in
        gone n (no_dir s x h n) (at ∙ rw absent refl)
    | inr (r, e) ↦
        let (d, f, w) = IsSound-found parse hash s x r h e in
        let (q, there, same, checked) = w.stored in
        let present : contains x s.disk.names ≡ true = h.listed x ∙ rw e refl in
        back r d q e f (at ∙ rw (present, f) there) there same checked w
  ]

  Reloads-source_of :
      (s : Store) (x : String) (o : Option Rec)
      → Reloads s x o
      → source_of (point_option s.current x o) ≡ source_of (s.records x)
  unfolding source_of point_option
  Reloads-source_of s x o (gone n a e) = rw (n, e) refl
  Reloads-source_of s x o (back r d q n a e at same checked w) =
      rw (n, e)
        (source_of-point_at s.current x q ∙ λ i. some (record {
          subscription = same.same_subscription i;
          current = record {
            profile_hash = same.same_hash i;
            candidate_hash = same.same_candidate i;
          };
          downloaded_only = same.same_downloaded i;
          applied = (sym w.applied) i;
        }))

  Reloads-is_some :
      (s : Store) (x : String) (o : Option Rec)
      → Reloads s x o
      → is_some (point_option s.current x o) ≡ is_some (s.records x)
  unfolding point_option
  Reloads-is_some s x o (gone n a e) = rw (n, e) refl
  Reloads-is_some s x o (back r d q n a e at same checked w) = rw (n, e) refl

  Reloads-EntrySound :
      (s : Store) (x : String) (o : Option Rec)
      → Reloads s x o
      → EntrySound parse hash s.current x (point_option s.current x o) (s.disk.dirs x)
  unfolding EntrySound point_option
  Reloads-EntrySound s x o (gone n a e) = rw (a, e) _
  Reloads-EntrySound s x o (back r d q n a e at same checked w) =
      rw (a, e)
        (RecordSound-point parse hash s.current x q d w.named checked
          (
            q,
            at,
            record {
              same_subscription = refl;
              same_hash = refl;
              same_candidate = refl;
              same_downloaded = refl;
            },
            checked,
          )
          w.applied_found)

  -- The generation that active.json names.
  active_pair-marker :
      (disk : Disk) (m : Marker) (r : Rec) (q : Option Dir)
      → verify_pair hash true m.id (pair_of_marker m) q ≡ true
      → active_pair parse hash all_ok disk m r ≡ pair_of_marker m
  unfolding active_pair verify_pair names_generation
  active_pair-marker disk m r q v =
      let named : (is_blank m.profile_hash && is_blank m.candidate_hash) ≡ false =
        ground (arith, v) in
      rw (active_pair, named) refl

  load_active-ok :
      (s : Store) (m : String → Option Rec)
      → IsSound parse hash s
      → ((x : String) → Reloads s x (m x))
      → load_active parse hash all_ok s.disk m s.disk.active_file ≡ ok s.current
  unfolding load_active check_active marker_with MarkerSound
  load_active-ok s m h at = elim (Bool-cases (is_blank s.current.id)) [
    | inl t ↦ let (a, b) = (rw (MarkerSound, t) at h.marked) in rw (load_active, b) (ap ok (sym a))
    | inr n ↦
        let (b, there) = (rw (MarkerSound, n) at h.marked) in
        rw (load_active, b, n) (found (m s.current.id) (at s.current.id) there)
  ]
    where
      found :
          (o : Option Rec)
          → Reloads s s.current.id o
          → is_some (s.records s.current.id) ≡ true
          → (if not (valid_id s.current.id)
              then err store_failed
              else check_active parse hash all_ok s.disk s.current o)
            ≡ ok s.current
      found o (gone e a f) there =
          let absent : is_some (s.records s.current.id) ≡ false = rw e refl in cc (there, absent)
      found o (back r d q e a f record_at same checked w) there =
          let v = w.applied_found (eq→=s s.current.id s.current.id refl) in
          rw (w.named, f, active_pair-marker s.disk s.current q (some d) v, a, v) refl

  -- A store that is opened again shows what it showed, and is in agreement with its directory, where
  -- no record.json is over the limit.
  pub reopen-view :
      (s : Store)
      → IsSound parse hash s
      → HasSmallRecords size s.disk
      → (s' : Store) × (new_store parse hash size all_ok s.disk ≡ ok s')
        × (s'.disk ≡ record s.disk { quarantine = [] })
        × (view s' ≡ view s)
        × IsSound parse hash s'
  unfolding new_store view point_records MarkerSound
  reopen-view s h small =
      let (m, e, at) =
        load_records-ok (record s.disk { quarantine = [] }) s.disk.names
          (λ x t. IsSound-Loads s x h small t) in
      let back_at : (x : String) → Reloads s x (m x) = λ x. IsSound-Reloads s m x h (at x) in
      (
        record {
          records = point_records s.current m;
          current = s.current;
          disk = record s.disk { quarantine = [] };
        },
        elim (Bool-cases (is_empty s.disk.quarantine)) [
          | inl t ↦ rw (new_store, t, e, load_active-ok s m h back_at) refl
          | inr n ↦ rw (new_store, n, e, load_active-ok s m h back_at) refl
        ],
        refl,
        λ i. record {
          sources = λ x. Reloads-source_of s x (m x) (back_at x) i;
          active = s.current;
        },
        record {
          entries = λ x. Reloads-EntrySound s x (m x) (back_at x);
          listed = λ x. h.listed x ∙ sym (Reloads-is_some s x (m x) (back_at x));
          marked = elim (Bool-cases (is_blank s.current.id)) [
            | inl t ↦ rw t (rw (MarkerSound, t) at h.marked)
            | inr n ↦
                let (a, b) = (rw (MarkerSound, n) at h.marked) in
                rw n (a, Reloads-is_some s s.current.id (m s.current.id) (back_at s.current.id) ∙ b)
          ];
        },
      )
