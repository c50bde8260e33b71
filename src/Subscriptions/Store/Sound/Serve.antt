-- ===== src/Subscriptions/Store/Sound/Serve.antt =====
-- subscriptions/store.go: when `readPairProfile` gives out a profile, told by the files and not by its
-- code.
use mathlib.Core.Path.{subst}
use clashpulse.Base.{
  ℕ, ◌≤◌, ◌≡◌, ◌↔◌, refl, sym, ap, String, Bool, true, false, ◌&&◌, Option, none, some, leb, =s→eq,
  eq→=s, is_blank, length, arith, Bool-cases, Option-cases, inl, inr,
}
use clashpulse.Subscriptions.Model.{Result, ok, err, valid_id, valid_optional_hash}
use clashpulse.Subscriptions.Store.{Bytes, Rec, Dir, Store, max_profile_bytes, max_candidate_bytes}
use clashpulse.Subscriptions.Store.Generations.{
  Pair, pair_of, verify_pair, generation_ok, has_hash, read_file, matches_at, names_generation,
  read_pair_profile, profile_at, bytes_or_failed, profile, active_profile,
}
use clashpulse.Subscriptions.Store.Applied.{pair_of_marker}

module _ (hash : Bytes → String) where
  -- A file that is there has a content of the hash, within the limit.
  pub record IsStored (h : String) (limit : ℕ) (f : Option Bytes) (b : Bytes) : Type 0 where
    pub found : f ≡ some b
    pub hashed : hash b ≡ h
    pub limited : length b ≤ limit

  -- The files of a generation, by its names, and the profile's content.
  pub record IsServed (id : String) (p : Pair) (q : Option Dir) (b : Bytes) : Type 0 where
    pub named : valid_id id ≡ true
    pub profile_hex : valid_optional_hash p.profile_hash ≡ true
    pub profile_there : is_blank p.profile_hash ≡ false
    pub candidate_hex : valid_optional_hash p.candidate_hash ≡ true
    pub candidate_there : is_blank p.candidate_hash ≡ false
    pub directory : Dir
    pub at_directory : q ≡ some directory
    pub profile_stored :
        IsStored p.profile_hash max_profile_bytes (directory.profiles p.profile_hash) b
    pub candidate : Bytes
    pub candidate_stored :
        IsStored p.candidate_hash max_candidate_bytes
          (directory.candidates p.profile_hash p.candidate_hash)
          candidate

  has_hash-IsStored :
      (readable : Bool) (h : String) (limit : ℕ) (f : Option Bytes)
      → has_hash hash h (read_file readable limit f) ≡ true
      → (readable ≡ true) × (b : Bytes) × IsStored h limit f b
  unfolding has_hash read_file
  has_hash-IsStored readable h limit none e = cc
  has_hash-IsStored readable h limit (some b) e =
      elim (Bool-cases (readable && leb (length b) limit)) [
        | inr n ↦ cc (rw (read_file, n) at e)
        | inl t ↦ (
          ground (arith, t),
          b,
          record {
            found = refl;
            hashed = =s→eq (hash b) h (rw (read_file, t) at e);
            limited = ground (arith, t);
          },
        )
      ]

  IsStored-has_hash :
      (h : String) (limit : ℕ) (f : Option Bytes) (b : Bytes)
      → IsStored h limit f b
      → has_hash hash h (read_file true limit f) ≡ true
  unfolding has_hash read_file
  IsStored-has_hash h limit f b w =
      let t : leb (length b) limit ≡ true = (let l = w.limited in ground (arith, l)) in
      rw (w.found, read_file, t) (eq→=s (hash b) h w.hashed)

  -- The files of a generation that passes the check.
  generation-IsServed :
      (readable : Bool) (id : String) (p : Pair) (d : Dir)
      → names_generation id p ≡ true
      → generation_ok hash readable p d ≡ true
      → (readable ≡ true)
        × (b : Bytes) × (d.profiles p.profile_hash ≡ some b)
        × IsServed id p (some d) b
  unfolding names_generation generation_ok
  generation-IsServed readable id p d n g =
      let (t, b, stored) =
        has_hash-IsStored readable p.profile_hash max_profile_bytes (d.profiles p.profile_hash)
          (ground (arith, g)) in
      let (u, c, made) =
        has_hash-IsStored readable p.candidate_hash max_candidate_bytes
          (d.candidates p.profile_hash p.candidate_hash) (ground (arith, g)) in
      (
        t,
        b,
        stored.found,
        record {
          named = ground (arith, n);
          profile_hex = ground (arith, n);
          profile_there = ground (arith, n);
          candidate_hex = ground (arith, n);
          candidate_there = ground (arith, n);
          directory = d;
          at_directory = refl;
          profile_stored = stored;
          candidate = c;
          candidate_stored = made;
        },
      )

  pub verify_pair-IsServed :
      (id : String) (p : Pair) (q : Option Dir)
      → verify_pair hash true id p q ≡ true
      → (b : Bytes) × IsServed id p q b
  unfolding verify_pair matches_at
  verify_pair-IsServed id p none v = ground (arith, v)
  verify_pair-IsServed id p (some d) v =
      let (t, b, there, w) =
        generation-IsServed true id p d (ground (arith, v)) (ground (arith, v)) in
      (b, w)

  IsServed-read :
      (id : String) (p : Pair) (q : Option Dir) (b : Bytes)
      → IsServed id p q b
      → read_pair_profile hash true id p q ≡ ok b
  unfolding read_pair_profile matches_at profile_at bytes_or_failed names_generation generation_ok
  IsServed-read id p q b w =
      let d = w.directory in
      let f =
        IsStored-has_hash p.profile_hash max_profile_bytes (d.profiles p.profile_hash) b
          w.profile_stored in
      let g =
        IsStored-has_hash p.candidate_hash max_candidate_bytes
          (d.candidates p.profile_hash p.candidate_hash) w.candidate w.candidate_stored in
      rw
        (
          w.at_directory, read_pair_profile, w.named, w.profile_hex, w.profile_there,
          w.candidate_hex, w.candidate_there, f, g, w.profile_stored.found,
        )
        refl

  read-IsServed :
      (readable : Bool) (id : String) (p : Pair) (q : Option Dir) (b : Bytes)
      → read_pair_profile hash readable id p q ≡ ok b
      → (readable ≡ true) × IsServed id p q b
  unfolding read_pair_profile matches_at profile_at bytes_or_failed
  read-IsServed readable id p none b e = elim (Bool-cases (names_generation id p)) [
    | inl t ↦ cc (rw (read_pair_profile, t) at e)
    | inr n ↦ cc (rw (read_pair_profile, n) at e)
  ]
  read-IsServed readable id p (some d) b e = elim (Bool-cases (names_generation id p)) [
    | inr n ↦ cc (rw (read_pair_profile, n) at e)
    | inl t ↦ elim (Bool-cases (generation_ok hash readable p d)) [
      | inr n ↦ cc (rw (read_pair_profile, t, n) at e)
      | inl g ↦
          let (r, c, there, w) = generation-IsServed readable id p d t g in
          let same : c ≡ b =
            ap (λ z. elim z [ ok x ↦ x | err x ↦ c ]) (rw (read_pair_profile, t, g, there) at e) in
          (r, subst (λ z. IsServed id p (some d) z) same w)
    ]
  ]

  -- A profile that is given out is no longer than a profile may be.
  pub profile-length :
      (readable : Bool) (id : String) (s : Store) (b : Bytes)
      → profile hash readable id s ≡ ok b
      → length b ≤ max_profile_bytes
  unfolding profile
  profile-length readable id s b e = elim (Option-cases (s.records id)) [
    | inl n ↦ cc (rw (profile, n) at e)
    | inr (r, f) ↦
        let w =
          (read-IsServed readable id (pair_of r) (s.disk.dirs id) b (rw (profile, f) at e)).1 in
        w.profile_stored.limited
  ]

  -- The profile of a subscription is given out, with the content `b`, exactly where the files can be read,
  -- the subscription has a record, its identifier is valid, both hashes of the record are given and valid,
  -- and its directory has the profile's file under its hash, with the content `b`, and the candidate's file
  -- under both hashes: each content is within its limit and has its hash.
  pub profile_iff :
      (readable : Bool) (id : String) (s : Store) (b : Bytes)
      → (profile hash readable id s ≡ ok b) ↔ (
          (readable ≡ true)
          × (r : Rec) × (s.records id ≡ some r)
          × IsServed id (pair_of r) (s.disk.dirs id) b)
  unfolding profile
  profile_iff readable id s b = (
    λ e. elim (Option-cases (s.records id)) [
      | inl n ↦ cc (rw (profile, n) at e)
      | inr (r, f) ↦
          let (t, w) =
            read-IsServed readable id (pair_of r) (s.disk.dirs id) b (rw (profile, f) at e) in
          (t, r, f, w)
    ],
    λ h.
        let (t, r, f, w) = h in
        rw (profile, f, t) (IsServed-read id (pair_of r) (s.disk.dirs id) b w),
  )

  -- The result of `ActiveProfile`, from the result of reading.
  abbrev with_id : Result Bytes → String → Result (String × Bytes)
  with_id r id = elim r [ err e ↦ err e | ok c ↦ ok (id, c) ]

  with_id-ok :
      (r : Result Bytes) (id x : String) (b : Bytes)
      → with_id r id ≡ ok (x, b)
      → (r ≡ ok b) × (x ≡ id)
  with_id-ok (err e) id x b h = cc
  with_id-ok (ok c) id x b h =
      let same : (id, c) ≡ (x, b) = ap (λ z. elim z [ ok y ↦ y | err y ↦ (id, c) ]) h in
      (ap (λ z. ok (z.1)) same, ap (λ z. z.0) (sym same))

  -- The active profile is given out, with an identifier and a content, exactly where the files can be
  -- read, the identifier is the one of the active record and not blank, and the directory of that record
  -- has the files of the active generation, not of the record's newest one: the identifier and both hashes
  -- are valid, the profile's file has this content, and each content is within its limit and has its hash.
  pub active_profile_iff :
      (readable : Bool) (s : Store) (id : String) (b : Bytes)
      → (active_profile hash readable s ≡ ok (id, b)) ↔ (
          (readable ≡ true)
          × (id ≡ s.current.id)
          × (is_blank s.current.id ≡ false)
          × IsServed s.current.id (pair_of_marker s.current) (s.disk.dirs s.current.id) b)
  unfolding active_profile
  active_profile_iff readable s id b = (
    λ e. elim (Bool-cases (is_blank s.current.id)) [
      | inl t ↦ cc (rw (active_profile, t) at e)
      | inr n ↦
          let (read, same) =
            with_id-ok
              (read_pair_profile hash readable s.current.id (pair_of_marker s.current)
                (s.disk.dirs s.current.id))
              s.current.id id b (rw (active_profile, n) at e) in
          let (t, w) =
            read-IsServed readable s.current.id (pair_of_marker s.current)
              (s.disk.dirs s.current.id) b read in
          (t, same, n, w)
    ],
    λ h.
        let (t, same, n, w) = h in
        let read =
          IsServed-read s.current.id (pair_of_marker s.current) (s.disk.dirs s.current.id) b w in
        rw (active_profile, n, t, read, same) refl,
  )
