-- ===== src/Subscriptions/Store/Sound/Changes.antt =====
-- subscriptions/store.go: what a change of one record or directory leaves as it was.
use mathlib.Core.Path.{subst}
use clashpulse.Base.{
  ◌≡◌, refl, sym, ap, ◌∙◌, String, true, false, not, ◌&&◌, List, [], ◌∷◌, Option, none, some, ◌=s◌,
  =s→eq, is_blank, contains, keep, Bool-cases, inl, inr,
}
use clashpulse.Monitor.Policy.{Url}
use clashpulse.Subscriptions.Model.{valid_id}
use clashpulse.Subscriptions.Store.{
  Bytes, Rec, Dir, Store, set_at, set_dir, durable, write_record, valid_failure, dir_or_empty,
}
use clashpulse.Subscriptions.Store.Generations.{applied_pair}
use clashpulse.Subscriptions.Store.Open.{record_ok}
use clashpulse.Subscriptions.Store.Sound.{RecordSound, EntrySound, IsSound, MarkerSound, is_some}
use clashpulse.Subscriptions.Store.Sound.Records.{RecordSound-write, EntrySound-set_at}
use clashpulse.Subscriptions.Store.Sound.Files.{set_at_self}

pub is_some-set_at :
    {A : Type 0} (id x : String) (v : A) (m : String → Option A)
    → is_some (m id) ≡ true
    → is_some (set_at id (some v) m x) ≡ is_some (m x)
unfolding set_at
is_some-set_at id x v m h = elim (Bool-cases (x =s id)) [
  | inl t ↦ rw (t, =s→eq x id t) (sym h)
  | inr n ↦ rw n refl
]

pub valid_id_blank : valid_id "" ≡ false
unfolding valid_id
valid_id_blank = refl

pub set_at-other :
    {A : Type 0} (id x : String) (v : Option A) (m : String → Option A)
    → (x =s id) ≡ false
    → set_at id v m x ≡ m x
unfolding set_at
set_at-other id x v m n = rw n refl

pub set_at-again :
    {A : Type 0} (id x : String) (w v : Option A) (m : String → Option A)
    → set_at id v (set_at id w m) x ≡ set_at id v m x
unfolding set_at
set_at-again id x w v m = elim (Bool-cases (x =s id)) [
  | inl t ↦ rw (set_at, t) refl
  | inr n ↦ rw (set_at, n) refl
]

pub contains-set_at :
    {A : Type 0} (id x : String) (v : A) (names : List String) (m : String → Option A)
    → contains x names ≡ is_some (m x)
    → contains x (id ∷ names) ≡ is_some (set_at id (some v) m x)
unfolding set_at
contains-set_at id x v names m h = elim (Bool-cases (x =s id)) [
  | inl t ↦ rw (set_at, t) refl
  | inr n ↦ rw (set_at, n) h
]

pub contains-keep :
    (id x : String) (names : List String)
    → contains x (keep (λ n. not (n =s id)) names) ≡ (not (x =s id) && contains x names)
contains-keep id x [] = elim (Bool-cases (x =s id)) [ inl t ↦ rw t refl | inr n ↦ rw n refl ]
contains-keep id x (n ∷ names) = elim (Bool-cases (n =s id)) [
  | inl t ↦
      rw (t, =s→eq n id t)
        (contains-keep id x names
          ∙ elim (Bool-cases (x =s id)) [ inl u ↦ rw u refl | inr u ↦ rw u refl ])
  | inr f ↦ rw f (elim (Bool-cases (x =s n)) [
    | inl u ↦ rw (u, ap (λ z. z =s id) (=s→eq x n u) ∙ f) refl
    | inr u ↦ rw u (contains-keep id x names)
  ])
]

pub contains-keep_at :
    {A : Type 0} (id x : String) (names : List String) (m : String → Option A)
    → contains x names ≡ is_some (m x)
    → contains x (keep (λ n. not (n =s id)) names) ≡ is_some (set_at id none m x)
unfolding set_at
contains-keep_at id x names m h =
    rw (contains-keep id x names, h)
      (elim (Bool-cases (x =s id)) [ inl t ↦ rw (set_at, t) refl | inr n ↦ rw (set_at, n) refl ])

pub valid_failure_blank : valid_failure "" ≡ true
unfolding valid_failure
valid_failure_blank = refl

module _ (parse : String → Option Url) (hash : Bytes → String) where
  -- A change of records and directories that adds and loses no record.
  pub IsSound-alike :
      (s : Store) (records' : String → Option Rec) (dirs' : String → Option Dir)
      → ((x : String) → EntrySound parse hash s.current x (records' x) (dirs' x))
      → ((x : String) → is_some (records' x) ≡ is_some (s.records x))
      → IsSound parse hash s
      → IsSound parse hash (record s { records = records'; disk = record s.disk { dirs = dirs' } })
  unfolding MarkerSound
  IsSound-alike s records' dirs' e k h = record {
    entries = e;
    listed = λ x. h.listed x ∙ sym (k x);
    marked = elim (Bool-cases (is_blank s.current.id)) [
      | inl t ↦ rw t (rw (MarkerSound, t) at h.marked)
      | inr n ↦ let (a, b) = (rw (MarkerSound, n) at h.marked) in rw n (a, k s.current.id ∙ b)
    ];
  }

  -- The directory of a record.
  pub IsSound-found :
      (s : Store) (id : String) (r : Rec)
      → IsSound parse hash s
      → s.records id ≡ some r
      → (d : Dir) × (s.disk.dirs id ≡ some d) × RecordSound parse hash s.current id r d
  unfolding EntrySound
  IsSound-found s id r h e =
      found (s.disk.dirs id) refl
        (subst (λ o. EntrySound parse hash s.current id o (s.disk.dirs id)) e (h.entries id))
    where
      found :
          (o : Option Dir)
          → s.disk.dirs id ≡ o
          → EntrySound parse hash s.current id (some r) o
          → (d : Dir) × (s.disk.dirs id ≡ some d) × RecordSound parse hash s.current id r d
      found none q w = absurd w
      found (some d) q w = (d, q, w)

  -- One record changes, and its directory.
  pub IsSound-change :
      (s : Store) (id : String) (r r' : Rec) (d' : Dir)
      → IsSound parse hash s
      → s.records id ≡ some r
      → RecordSound parse hash s.current id r' d'
      → IsSound parse hash
          (record s { records = set_at id (some r') s.records; disk = set_dir id (some d') s.disk })
  unfolding set_dir EntrySound
  IsSound-change s id r r' d' h e w =
      IsSound-alike s (set_at id (some r') s.records) (set_at id (some d') s.disk.dirs)
        (EntrySound-set_at parse hash s.current id (some r') (some d') s.records s.disk.dirs
          h.entries w)
        (λ x. is_some-set_at id x r' s.records (rw e refl)) h

  -- A record that passes the checks is written.
  pub IsSound-write :
      (s : Store) (id : String) (r r' : Rec) (d : Dir)
      → IsSound parse hash s
      → s.records id ≡ some r
      → s.disk.dirs id ≡ some d
      → RecordSound parse hash s.current id r d
      → record_ok parse hash true id r' (some d) ≡ true
      → applied_pair r' ≡ applied_pair r
      → IsSound parse hash
          (record s { records = set_at id (some r') s.records; disk = write_record id r' s.disk })
  unfolding write_record dir_or_empty
  IsSound-write s id r r' d h e f w ok a = rw f (
      IsSound-change s id r r' (record d { record_file = some (durable r') }) h e
        (RecordSound-write parse hash s.current id r' d w.named ok (a ∙ w.applied) w.applied_found))

  -- A record is remembered without being written.
  pub IsSound-remember :
      (s : Store) (id : String) (r r' : Rec)
      → IsSound parse hash s
      → s.records id ≡ some r
      → ((d : Dir)
          → RecordSound parse hash s.current id r d
          → RecordSound parse hash s.current id r' d)
      → IsSound parse hash (record s { records = set_at id (some r') s.records })
  unfolding EntrySound
  IsSound-remember s id r r' h e k =
      let (d, f, w) = IsSound-found s id r h e in
      IsSound-alike s (set_at id (some r') s.records) s.disk.dirs
        (λ x. elim (Bool-cases (x =s id)) [
          | inl t ↦
              subst
                (λ z.
                  EntrySound parse hash s.current z (set_at id (some r') s.records z)
                    (s.disk.dirs z))
                (sym (=s→eq x id t)) (rw (set_at_self id (some r') s.records, f) (k d w))
          | inr n ↦
              subst (λ o. EntrySound parse hash s.current x o (s.disk.dirs x))
                (sym (set_at-other id x (some r') s.records n)) (h.entries x)
        ])
        (λ x. is_some-set_at id x r' s.records (rw e refl)) h
