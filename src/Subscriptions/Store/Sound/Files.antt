-- ===== src/Subscriptions/Store/Sound/Files.antt =====
-- subscriptions/store.go: which generations survive that files are written and removed.
use clashpulse.Base.{
  ℕ, ◌≤◌, ◌≡◌, ◌⊎◌, refl, String, Bool, true, false, not, ◌&&◌, Option, some, if◌then◌else◌, ◌=s◌,
  =s→eq, eq→=s, length, arith, Bool-cases, inl, inr, eq_iff,
}
use clashpulse.Subscriptions.Store.{Bytes, Rec, Dir, set_at, max_profile_bytes, max_candidate_bytes}
use clashpulse.Subscriptions.Store.Generations.{
  Pair, pair_of, applied_pair, is_blank_pair, read_file, has_hash, generation_ok, put_profile,
  put_candidate, CleanIo, cleanup_generations, drop_generation, drop_candidate, drop_profile,
  generation_referenced, keeps_profile, keeps_candidate, same_pair,
}

pub =s_false : (s t : String) → (s =s t) ≡ false → (t =s s) ≡ false
=s_false s t e = ground (arith, e, eq_iff s t, eq_iff t s)

-- The previous record points at the generation, now or as the applied one.
unfoldable pub IsPointedAt : Rec → Pair → Type 0
IsPointedAt r q = (q ≡ pair_of r) ⊎ (q ≡ applied_pair r)

unreferenced :
    (r : Rec) (p q : Pair)
    → IsPointedAt r q
    → generation_referenced r p ≡ false
    → same_pair q p ≡ false
unfolding generation_referenced IsPointedAt
unreferenced r p q (inl e) n = rw e (ground (arith, n))
unreferenced r p q (inr e) n = rw e (ground (arith, n))

pub set_at_self :
    {A : Type 0} (k : String) (v : Option A) (m : String → Option A) → set_at k v m k ≡ v
unfolding set_at
set_at_self k v m = rw (eq→=s k k refl) refl

module _ (hash : Bytes → String) where
  -- A file that is there and has the hash.
  unfoldable pub HasFile : ℕ → String → Option Bytes → Type 0
  HasFile limit h f = has_hash hash h (read_file true limit f) ≡ true

  -- The two files of a generation.
  unfoldable pub HasGeneration : Pair → Dir → Type 0
  HasGeneration p d =
      HasFile max_profile_bytes p.profile_hash (d.profiles p.profile_hash)
      × HasFile max_candidate_bytes p.candidate_hash (d.candidates p.profile_hash p.candidate_hash)

  pub HasGeneration-generation_ok :
      (p : Pair) (d : Dir) → HasGeneration p d → generation_ok hash true p d ≡ true
  unfolding generation_ok HasGeneration HasFile
  HasGeneration-generation_ok p d h = ground (arith, h)

  pub generation_ok-HasGeneration :
      (p : Pair) (d : Dir) → generation_ok hash true p d ≡ true → HasGeneration p d
  unfolding generation_ok HasGeneration HasFile
  generation_ok-HasGeneration p d h = ground (arith, h)

  HasFile-written : (limit : ℕ) (b : Bytes) → length b ≤ limit → HasFile limit (hash b) (some b)
  unfolding HasFile has_hash read_file
  HasFile-written limit b le = ground (arith, eq→=s (hash b) (hash b) refl)

  -- A file that is written under the name of its hash takes nothing away.
  HasFile-set_at :
      (limit : ℕ) (b : Bytes) (h : String) (files : String → Option Bytes)
      → length b ≤ limit
      → HasFile limit h (files h)
      → HasFile limit h (set_at (hash b) (some b) files h)
  unfolding set_at
  HasFile-set_at limit b h files le f = elim (Bool-cases (h =s hash b)) [
    | inl t ↦ rw (set_at, t) (rw (=s→eq h (hash b) t) (HasFile-written limit b le))
    | inr n ↦ rw (set_at, n) f
  ]

  pub put_profile-HasGeneration :
      (b : Bytes) (p : Pair) (d : Dir)
      → length b ≤ max_profile_bytes
      → HasGeneration p d
      → HasGeneration p (put_profile hash b d)
  unfolding put_profile HasGeneration
  put_profile-HasGeneration b p d le h =
      (HasFile-set_at max_profile_bytes b p.profile_hash d.profiles le h.0, h.1)

  pub put_candidate-HasGeneration :
      (q : String) (b : Bytes) (p : Pair) (d : Dir)
      → length b ≤ max_candidate_bytes
      → HasGeneration p d
      → HasGeneration p (put_candidate hash q b d)
  unfolding put_candidate HasGeneration
  put_candidate-HasGeneration q b p d le h = (
    h.0,
    elim (Bool-cases (p.profile_hash =s q)) [
      | inl t ↦ rw t (
          HasFile-set_at max_candidate_bytes b p.candidate_hash (d.candidates p.profile_hash) le
            h.1)
      | inr n ↦ rw n h.1
    ],
  )

  -- What `promote` has written.
  pub put-HasGeneration :
      (profile candidate : Bytes) (d : Dir)
      → length profile ≤ max_profile_bytes
      → length candidate ≤ max_candidate_bytes
      → HasGeneration
          (record { profile_hash = hash profile; candidate_hash = hash candidate })
          (put_candidate hash (hash profile) candidate (put_profile hash profile d))
  unfolding put_candidate put_profile HasGeneration
  put-HasGeneration profile candidate d le le' = (
    rw (set_at_self (hash profile) (some profile) d.profiles)
        (HasFile-written max_profile_bytes profile le),
    rw (eq→=s (hash profile) (hash profile) refl) (
        rw (set_at_self (hash candidate) (some candidate) (d.candidates (hash profile)))
          (HasFile-written max_candidate_bytes candidate le')),
  )

  -- A clean-up keeps the generations that are current or applied.
  IsKept : Pair → Pair → Pair → Type 0
  IsKept now applied p =
      (keeps_profile now applied p.profile_hash ≡ true) × (keeps_candidate now applied p ≡ true)

  cleanup-HasGeneration :
      (io : CleanIo) (now applied p : Pair) (d : Dir)
      → IsKept now applied p
      → HasGeneration p d
      → HasGeneration p (cleanup_generations io now applied d)
  unfolding cleanup_generations HasGeneration IsKept
  cleanup-HasGeneration io now applied p d k h = elim (Bool-cases io.listed) [
    | inl t ↦ rw (cleanup_generations, t) (rw (k.0) h.0, rw (k.1) h.1)
    | inr n ↦ rw (cleanup_generations, n) h
  ]

  pub cleanup-HasGeneration_now :
      (io : CleanIo) (now applied : Pair) (d : Dir)
      → is_blank_pair now ≡ false
      → HasGeneration now d
      → HasGeneration now (cleanup_generations io now applied d)
  unfolding keeps_profile keeps_candidate same_pair IsKept
  cleanup-HasGeneration_now io now applied d b h =
      cleanup-HasGeneration io now applied now d
        (
          ground (arith, b, eq→=s now.profile_hash now.profile_hash refl),
          ground (
            arith,
            b,
            eq→=s now.profile_hash now.profile_hash refl,
            eq→=s now.candidate_hash now.candidate_hash refl,
          ),
        )
        h

  pub cleanup-HasGeneration_applied :
      (io : CleanIo) (now applied : Pair) (d : Dir)
      → is_blank_pair applied ≡ false
      → HasGeneration applied d
      → HasGeneration applied (cleanup_generations io now applied d)
  unfolding keeps_profile keeps_candidate same_pair IsKept
  cleanup-HasGeneration_applied io now applied d b h =
      cleanup-HasGeneration io now applied applied d
        (
          ground (arith, b, eq→=s applied.profile_hash applied.profile_hash refl),
          ground (
            arith,
            b,
            eq→=s applied.profile_hash applied.profile_hash refl,
            eq→=s applied.candidate_hash applied.candidate_hash refl,
          ),
        )
        h

  -- A rollback keeps what the previous record points at.
  drop_candidate-HasGeneration :
      (p q : Pair) (d : Dir)
      → same_pair q p ≡ false
      → HasGeneration q d
      → HasGeneration q (drop_candidate p d)
  unfolding drop_candidate same_pair HasGeneration set_at
  drop_candidate-HasGeneration p q d n h = (
    h.0,
    elim (Bool-cases (q.profile_hash =s p.profile_hash)) [
      | inl t ↦ elim (Bool-cases (q.candidate_hash =s p.candidate_hash)) [
        | inl u ↦ cc (rw (t, u) at n)
        | inr m ↦ rw (drop_candidate, t, set_at, m) h.1
      ]
      | inr m ↦ rw (drop_candidate, m) h.1
    ],
  )

  drop_profile-HasGeneration :
      (x : String) (q : Pair) (d : Dir)
      → (q.profile_hash =s x) ≡ false
      → HasGeneration q d
      → HasGeneration q (drop_profile x d)
  unfolding drop_profile HasGeneration set_at
  drop_profile-HasGeneration x q d n h = (rw (drop_profile, set_at, n) h.0, h.1)

  without_candidate :
      (c : Bool) (previous : Rec) (p q : Pair) (d : Dir)
      → IsPointedAt previous q
      → HasGeneration q d
      → HasGeneration q
          (if not (generation_referenced previous p) && c then drop_candidate p d else d)
  without_candidate c previous p q d w h =
      elim (Bool-cases (not (generation_referenced previous p) && c)) [
        | inl t ↦
            rw t (
              drop_candidate-HasGeneration p q d (unreferenced previous p q w (ground (arith, t)))
                h)
        | inr n ↦ rw n h
      ]

  without_profile :
      (c : Bool) (previous : Rec) (p q : Pair) (d : Dir)
      → IsPointedAt previous q
      → HasGeneration q d
      → HasGeneration q (
          if not (p.profile_hash =s previous.hash)
            && not (p.profile_hash =s previous.applied_profile_hash)
            && c
          then drop_profile p.profile_hash d
          else d)
  unfolding IsPointedAt
  without_profile c previous p q d w h =
      elim (Bool-cases (
        not (p.profile_hash =s previous.hash)
        && not (p.profile_hash =s previous.applied_profile_hash)
        && c)) [
          | inl t ↦ rw t (
              drop_profile-HasGeneration p.profile_hash q d
                (elim w [
                  | inl e ↦ rw e (=s_false p.profile_hash previous.hash (ground (arith, t)))
                  | inr e ↦
                      rw e
                        (=s_false p.profile_hash previous.applied_profile_hash (ground (arith, t)))
                ])
                h)
          | inr n ↦ rw n h
        ]

  pub drop_generation-HasGeneration :
      (cg pg : Bool) (previous : Rec) (p q : Pair) (d : Dir)
      → IsPointedAt previous q
      → HasGeneration q d
      → HasGeneration q (drop_generation cg pg previous p d)
  unfolding drop_generation
  drop_generation-HasGeneration cg pg previous p q d w h =
      without_profile pg previous p q
        (if not (generation_referenced previous p) && cg then drop_candidate p d else d) w
        (without_candidate cg previous p q d w h)
