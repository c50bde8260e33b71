-- ===== src/Subscriptions/Store/Sound/Commit.antt =====
-- subscriptions/store.go: `promote`, `rollbackPromotion` and the clean-ups keep the store and its
-- directory in agreement.
use mathlib.Core.Path.{subst}
use clashpulse.Base.{
  ◌≤◌, ◌≡◌, refl, sym, ap, ◌∙◌, String, Bool, true, false, not, ◌&&◌, ◌||◌, Option, none, some,
  ◌=s◌, =s→eq, eq→=s, is_blank, length, arith, Bool-cases, Option-cases, inl, inr,
}
use clashpulse.Monitor.Policy.{Url}
use clashpulse.Subscriptions.Model.{valid_id, valid_optional_hash, ok, err}
use clashpulse.Subscriptions.Store.{
  Bytes, Rec, Dir, Disk, Store, Marker, set_at, set_dir, durable, write_record, dir_or_empty,
  max_profile_bytes, max_candidate_bytes,
}
use clashpulse.Subscriptions.Store.Generations.{
  Pair, pair_of, applied_pair, with_dir, PromoteIo, Check, promote, promoted, put_profile,
  put_candidate, rollback_promotion, drop_generation, CleanIo, clean_dir, cleanup_generations,
  finalize_promotion, cleanup_applied, generation_referenced, drop_candidate, drop_profile,
  verify_pair, generation_ok, matches_at, names_generation,
}
use clashpulse.Subscriptions.Store.Open.{record_ok, generation_found}
use clashpulse.Subscriptions.Store.Sound.{RecordSound, EntrySound, IsSound}
use clashpulse.Subscriptions.Store.Sound.Files.{
  HasGeneration-generation_ok, put_profile-HasGeneration, put_candidate-HasGeneration,
  put-HasGeneration, cleanup-HasGeneration_now, cleanup-HasGeneration_applied,
  drop_generation-HasGeneration, IsPointedAt, set_at_self,
}
use clashpulse.Subscriptions.Store.Sound.Records.{RecordSound-write, RecordSound-keeps}
use clashpulse.Subscriptions.Store.Sound.Changes.{
  IsSound-alike, IsSound-found, IsSound-change, set_at-again, set_at-other, valid_failure_blank,
}

set_dir-again :
    (id : String) (v w : Option Dir) (disk : Disk)
    → set_dir id v (set_dir id w disk) ≡ set_dir id v disk
unfolding set_dir
set_dir-again id v w disk i = record disk { dirs = λ x. set_at-again id x w v disk.dirs i }

with_dir-found :
    (f : Dir → Dir) (id : String) (disk : Disk) (d : Dir)
    → disk.dirs id ≡ some d
    → with_dir f id disk ≡ set_dir id (some (f d)) disk
unfolding with_dir
with_dir-found f id disk d e = rw (with_dir, e) refl

set_dir_self : (id : String) (v : Option Dir) (disk : Disk) → (set_dir id v disk).dirs id ≡ v
unfolding set_dir
set_dir_self id v disk = set_at_self id v disk.dirs

-- Two changes of the directory, one after the other.
with_dir-set_dir :
    (f : Dir → Dir) (id : String) (d : Dir) (disk : Disk)
    → with_dir f id (set_dir id (some d) disk) ≡ set_dir id (some (f d)) disk
with_dir-set_dir f id d disk =
    with_dir-found f id (set_dir id (some d) disk) d (set_dir_self id (some d) disk)
    ∙ set_dir-again id (some (f d)) (some d) disk

write_record-set_dir :
    (id : String) (r : Rec) (d : Dir) (disk : Disk)
    → write_record id r (set_dir id (some d) disk)
      ≡ set_dir id (some (record d { record_file = some (durable r) })) disk
unfolding write_record dir_or_empty
write_record-set_dir id r d disk =
    rw (set_dir_self id (some d) disk)
      (set_dir-again id (some (record d { record_file = some (durable r) })) (some d) disk)

module _ (parse : String → Option Url) (hash : Bytes → String) where
  -- A change of one directory alone.
  IsSound-dir :
      (s : Store) (id : String) (v : Option Dir)
      → IsSound parse hash s
      → EntrySound parse hash s.current id (s.records id) v
      → IsSound parse hash (record s { disk = set_dir id v s.disk })
  unfolding set_dir
  IsSound-dir s id v h w =
      IsSound-alike parse hash s s.records (set_at id v s.disk.dirs)
        (λ x. elim (Bool-cases (x =s id)) [
          | inl t ↦
              subst
                (λ z. EntrySound parse hash s.current z (s.records z) (set_at id v s.disk.dirs z))
                (sym (=s→eq x id t)) (rw (set_at_self id v s.disk.dirs) w)
          | inr n ↦
              subst (λ o. EntrySound parse hash s.current x (s.records x) o)
                (sym (set_at-other id x v s.disk.dirs n)) (h.entries x)
        ])
        (λ x. refl) h

  RecordSound-put_profile :
      (m : Marker) (id : String) (r : Rec) (b : Bytes) (d : Dir)
      → length b ≤ max_profile_bytes
      → RecordSound parse hash m id r d
      → RecordSound parse hash m id r (put_profile hash b d)
  unfolding put_profile
  RecordSound-put_profile m id r b d le =
      RecordSound-keeps parse hash m id r d (put_profile hash b d) refl
        (λ n. put_profile-HasGeneration hash b (pair_of r) d le)
        (λ n. put_profile-HasGeneration hash b (applied_pair r) d le)

  RecordSound-put_candidate :
      (m : Marker) (id : String) (r : Rec) (q : String) (b : Bytes) (d : Dir)
      → length b ≤ max_candidate_bytes
      → RecordSound parse hash m id r d
      → RecordSound parse hash m id r (put_candidate hash q b d)
  unfolding put_candidate
  RecordSound-put_candidate m id r q b d le =
      RecordSound-keeps parse hash m id r d (put_candidate hash q b d) refl
        (λ n. put_candidate-HasGeneration hash q b (pair_of r) d le)
        (λ n. put_candidate-HasGeneration hash q b (applied_pair r) d le)

  -- What the new record points at has just been written.
  record_ok-promoted :
      (id : String) (profile candidate : Bytes) (c : Check) (r : Rec) (d : Dir)
      → ((b : Bytes) → valid_optional_hash (hash b) ≡ true)
      → ((b : Bytes) → is_blank (hash b) ≡ false)
      → length profile ≤ max_profile_bytes
      → length candidate ≤ max_candidate_bytes
      → (c.downloaded_only ≡ true → profile ≡ candidate)
      → valid_id id ≡ true
      → record_ok parse hash true id r (some d) ≡ true
      → record_ok parse hash true id
          (promoted hash profile candidate c r)
          (some (put_candidate hash (hash profile) candidate (put_profile hash profile d)))
        ≡ true
  unfolding record_ok promoted generation_found verify_pair names_generation matches_at
  record_ok-promoted id profile candidate c r d hex there le le' same v h =
      let g =
        HasGeneration-generation_ok hash
          (record { profile_hash = hash profile; candidate_hash = hash candidate })
          (put_candidate hash (hash profile) candidate (put_profile hash profile d))
          (put-HasGeneration hash profile candidate d le le') in
      let alike : c.downloaded_only ≡ true → (hash candidate =s hash profile) ≡ true =
        λ t. eq→=s (hash candidate) (hash profile) (ap hash (sym (same t))) in
      ground (
        arith,
        h,
        v,
        valid_failure_blank,
        hex profile,
        hex candidate,
        there profile,
        there candidate,
        g,
        alike,
      )

  -- What the writes of a promotion leave, whichever of them succeed.
  pub promote-IsSound :
      (io : PromoteIo) (id : String) (profile candidate : Bytes) (c : Check) (s : Store)
      → ((b : Bytes) → valid_optional_hash (hash b) ≡ true)
      → ((b : Bytes) → is_blank (hash b) ≡ false)
      → length profile ≤ max_profile_bytes
      → length candidate ≤ max_candidate_bytes
      → (c.downloaded_only ≡ true → profile ≡ candidate)
      → IsSound parse hash s
      → IsSound parse hash ((promote hash io id profile candidate c s).1)
  unfolding promote promoted EntrySound
  promote-IsSound io id profile candidate c s hex there le le' same h =
      elim (Option-cases (s.records id)) [
        | inl n ↦ rw (promote, n) h
        | inr (r, e) ↦
            let (d, f, w) = IsSound-found parse hash s id r h e in
            let d1 = put_profile hash profile d in
            let d2 = put_candidate hash (hash profile) candidate d1 in
            let w1 = RecordSound-put_profile s.current id r profile d le w in
            let w2 = RecordSound-put_candidate s.current id r (hash profile) candidate d1 le' w1 in
            let p1 = with_dir-found (put_profile hash profile) id s.disk d f in
            let p2 = with_dir-set_dir (put_candidate hash (hash profile) candidate) id d1 s.disk in
            let r' = promoted hash profile candidate c r in
            rw (promote, e, p1, p2)
              (elim (Bool-cases (not io.dir_ok || not io.profile_ok)) [
                | inl t ↦ rw t h
                | inr n ↦ rw n (elim (Bool-cases io.candidate_ok) [
                  | inr t ↦ rw t (IsSound-dir s id (some d1) h (rw e w1))
                  | inl n' ↦ rw n' (elim (Bool-cases io.record_ok) [
                    | inr t ↦ rw t (IsSound-dir s id (some d2) h (rw e w2))
                    | inl n'' ↦
                        rw (n'', write_record-set_dir id r' d2 s.disk)
                          (IsSound-change parse hash s id r r'
                            (record d2 { record_file = some (durable r') }) h e
                            (RecordSound-write parse hash s.current id r' d2 w.named
                              (record_ok-promoted id profile candidate c r d hex there le le' same
                                w.named w.memory_ok)
                              w.applied w2.applied_found))
                  ])
                ])
              ])
      ]

  drop_generation-record_file :
      (cg pg : Bool) (previous : Rec) (p : Pair) (d : Dir)
      → (drop_generation cg pg previous p d).record_file ≡ d.record_file
  unfolding drop_generation drop_candidate drop_profile
  drop_generation-record_file cg pg previous p d =
      elim (Bool-cases (not (generation_referenced previous p) && cg)) [
        | inl t ↦
            elim (Bool-cases (
              not (p.profile_hash =s previous.hash)
              && not (p.profile_hash =s previous.applied_profile_hash)
              && pg)) [
                | inl u ↦ rw (drop_generation, t, u) refl
                | inr u ↦ rw (drop_generation, t, u) refl
              ]
        | inr t ↦
            elim (Bool-cases (
              not (p.profile_hash =s previous.hash)
              && not (p.profile_hash =s previous.applied_profile_hash)
              && pg)) [
                | inl u ↦ rw (drop_generation, t, u) refl
                | inr u ↦ rw (drop_generation, t, u) refl
              ]
      ]

  -- The previous record is written again, and the files that only the newer one needs are removed.
  pub rollback-IsSound :
      (candidate_gone profile_gone : Bool) (id : String) (previous r : Rec) (p : Pair) (d : Dir)
      (s : Store)
      → IsSound parse hash s
      → s.records id ≡ some r
      → s.disk.dirs id ≡ some d
      → record_ok parse hash true id previous (some d) ≡ true
      → applied_pair previous ≡ applied_pair r
      → IsSound parse hash ((rollback_promotion true candidate_gone profile_gone id previous p s).1)
  unfolding rollback_promotion write_record dir_or_empty EntrySound IsPointedAt
  rollback-IsSound cg pg id previous r p d s h e f good a =
      let w : RecordSound parse hash s.current id r d =
        subst (λ o. EntrySound parse hash s.current id o (some d)) e
          (subst (λ o. EntrySound parse hash s.current id (s.records id) o) f (h.entries id)) in
      let d' : Dir = record d { record_file = some (durable previous) } in
      let w' =
        RecordSound-write parse hash s.current id previous d w.named good (a ∙ w.applied)
          w.applied_found in
      let g = drop_generation cg pg previous p in
      rw (rollback_promotion, e, f, with_dir-set_dir g id d' s.disk)
        (IsSound-change parse hash s id r previous (g d') h e (
          RecordSound-keeps parse hash s.current id previous d' (g d')
            (drop_generation-record_file cg pg previous p d')
            (λ b.
              drop_generation-HasGeneration hash cg pg previous p (pair_of previous) d' (inl refl))
            (λ b.
              drop_generation-HasGeneration hash cg pg previous p (applied_pair previous) d'
                (inr refl))
            w'))

  kept-record_file :
      (io : CleanIo) (now applied : Pair) (d : Dir)
      → (cleanup_generations io now applied d).record_file ≡ d.record_file
  unfolding cleanup_generations
  kept-record_file io now applied d = elim (Bool-cases io.listed) [
    | inl t ↦ rw (cleanup_generations, t) refl
    | inr n ↦ rw (cleanup_generations, n) refl
  ]

  EntrySound-clean :
      (io : CleanIo) (m : Marker) (id : String) (o : Option Rec) (q : Option Dir)
      → EntrySound parse hash m id o q
      → EntrySound parse hash m id o (clean_dir io o q)
  unfolding EntrySound clean_dir
  EntrySound-clean io m id none q w = w
  EntrySound-clean io m id (some r) none w = w
  EntrySound-clean io m id (some r) (some d) w =
      RecordSound-keeps parse hash m id r d (cleanup_generations io (pair_of r) (applied_pair r) d)
        (kept-record_file io (pair_of r) (applied_pair r) d)
        (cleanup-HasGeneration_now hash io (pair_of r) (applied_pair r) d)
        (cleanup-HasGeneration_applied hash io (pair_of r) (applied_pair r) d) w

  -- A clean-up of one directory.
  pub finalize-IsSound :
      (io : CleanIo) (id : String) (s : Store)
      → IsSound parse hash s
      → IsSound parse hash (finalize_promotion io id s)
  unfolding finalize_promotion
  finalize-IsSound io id s h =
      IsSound-dir s id (clean_dir io (s.records id) (s.disk.dirs id)) h
        (EntrySound-clean io s.current id (s.records id) (s.disk.dirs id) (h.entries id))

  -- A clean-up of all directories.
  pub cleanup_applied-IsSound :
      (io : String → CleanIo) (s : Store)
      → IsSound parse hash s
      → IsSound parse hash (cleanup_applied io s)
  unfolding cleanup_applied
  cleanup_applied-IsSound io s h =
      IsSound-alike parse hash s s.records (λ id. clean_dir (io id) (s.records id) (s.disk.dirs id))
        (λ x. EntrySound-clean (io x) s.current x (s.records x) (s.disk.dirs x) (h.entries x))
        (λ x. refl) h

  -- The record before a promotion is still good after it.
  pub promote-previous :
      (io : PromoteIo) (id : String) (profile candidate : Bytes) (c : Check) (s : Store)
      (previous : Rec)
      → length profile ≤ max_profile_bytes
      → length candidate ≤ max_candidate_bytes
      → IsSound parse hash s
      → (promote hash io id profile candidate c s).0 ≡ ok previous
      → (r : Rec) × (d : Dir) × ((promote hash io id profile candidate c s).1.records id ≡ some r)
        × ((promote hash io id profile candidate c s).1.disk.dirs id ≡ some d)
        × (record_ok parse hash true id previous (some d) ≡ true)
        × (applied_pair previous ≡ applied_pair r)
        × (s.records id ≡ some previous)
  unfolding promote promoted record_ok generation_found verify_pair matches_at generation_ok
  promote-previous io id profile candidate c s previous le le' h good =
      elim (Option-cases (s.records id)) [
        | inl n ↦ cc (rw (promote, n) at good)
        | inr (r, e) ↦
            let (d, f, w) = IsSound-found parse hash s id r h e in
            let d1 = put_profile hash profile d in
            let d2 = put_candidate hash (hash profile) candidate d1 in
            let w2 =
              RecordSound-put_candidate s.current id r (hash profile) candidate d1 le'
                (RecordSound-put_profile s.current id r profile d le w) in
            let p1 = with_dir-found (put_profile hash profile) id s.disk d f in
            let p2 = with_dir-set_dir (put_candidate hash (hash profile) candidate) id d1 s.disk in
            let r' = promoted hash profile candidate c r in
            let d3 : Dir = record d2 { record_file = some (durable r') } in
            elim (Bool-cases (not io.dir_ok || not io.profile_ok)) [
              | inl t ↦ cc (rw (promote, e, t) at good)
              | inr n ↦ elim (Bool-cases io.candidate_ok) [
                | inr t ↦ cc (rw (promote, e, n, t) at good)
                | inl n' ↦ elim (Bool-cases io.record_ok) [
                  | inr t ↦ cc (rw (promote, e, n, n', t) at good)
                  | inl n'' ↦
                      let same : r ≡ previous =
                        ap (λ z. elim z [ ok x ↦ x | err x ↦ r ])
                          (rw (promote, e, n, n', n'') at good) in
                      (
                        r',
                        d3,
                        rw (promote, e, n, n', n'') (set_at_self id (some r') s.records),
                        rw (promote, e, p1, p2, n, n', n'', write_record-set_dir id r' d2 s.disk)
                            (set_dir_self id (some d3) s.disk),
                        subst (λ z. record_ok parse hash true id z (some d3) ≡ true) same
                            w2.memory_ok,
                        ap (λ z. applied_pair z) (sym same),
                        e ∙ ap some same,
                      )
                ]
              ]
            ]
      ]
