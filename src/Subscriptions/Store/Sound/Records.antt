-- ===== src/Subscriptions/Store/Sound/Records.antt =====
-- subscriptions/store.go: one record and its directory, and the operations on single records.
use mathlib.Core.Path.{subst}
use clashpulse.Base.{
  ◌≡◌, refl, sym, ◌∙◌, String, true, false, Option, some, ◌=s◌, =s→eq, is_blank, arith, Bool-cases,
  inl, inr,
}
use clashpulse.Monitor.Policy.{Url}
use clashpulse.Subscriptions.Model.{valid_id}
use clashpulse.Subscriptions.Store.{Bytes, Rec, Dir, Marker, set_at, durable}
use clashpulse.Subscriptions.Store.Generations.{
  Pair, pair_of, applied_pair, is_blank_pair, generation_ok, verify_pair,
}
use clashpulse.Subscriptions.Store.Applied.{pair_of_marker}
use clashpulse.Subscriptions.Store.Open.{record_ok}
use clashpulse.Subscriptions.Store.Sound.{RecordSound, SameSource, EntrySound, pair_at}
use clashpulse.Subscriptions.Store.Sound.Files.{
  HasGeneration, HasGeneration-generation_ok, generation_ok-HasGeneration,
}

module _ (parse : String → Option Url) (hash : Bytes → String) where
  -- The checks of a record hold in another directory that keeps its generation.
  pub record_ok-keeps :
      (id : String) (q : Rec) (d d' : Dir)
      → (is_blank_pair (pair_of q) ≡ false
          → HasGeneration hash (pair_of q) d
          → HasGeneration hash (pair_of q) d')
      → record_ok parse hash true id q (some d) ≡ true
      → record_ok parse hash true id q (some d') ≡ true
  unfolding record_ok verify_pair
  record_ok-keeps id q d d' k h = elim (Bool-cases (is_blank q.hash)) [
    | inl t ↦ ground (arith, h, t)
    | inr n ↦
        let g : generation_ok hash true (pair_of q) d ≡ true = ground (arith, h, n) in
        let b : is_blank_pair (pair_of q) ≡ false = ground (arith, h, n) in
        let g' =
          HasGeneration-generation_ok hash (pair_of q) d'
            (k b (generation_ok-HasGeneration hash (pair_of q) d g)) in
        ground (arith, h, n, g')
  ]

  pub verify_pair-keeps :
      (id : String) (p : Pair) (d d' : Dir)
      → (is_blank_pair p ≡ false → HasGeneration hash p d → HasGeneration hash p d')
      → verify_pair hash true id p (some d) ≡ true
      → verify_pair hash true id p (some d') ≡ true
  unfolding verify_pair
  verify_pair-keeps id p d d' k h =
      let g : generation_ok hash true p d ≡ true = ground (arith, h) in
      let b : is_blank_pair p ≡ false = ground (arith, h) in
      let g' =
        HasGeneration-generation_ok hash p d' (k b (generation_ok-HasGeneration hash p d g)) in
      ground (arith, h, g')

  pub SameSource-pair_of : (r q : Rec) → SameSource r q → pair_of q ≡ pair_of r
  SameSource-pair_of r q h i = record {
    profile_hash = h.same_hash i;
    candidate_hash = h.same_candidate i;
  }

  -- A directory that keeps record.json and the generations that are pointed at.
  pub RecordSound-keeps :
      (m : Marker) (id : String) (r : Rec) (d d' : Dir)
      → d'.record_file ≡ d.record_file
      → (is_blank_pair (pair_of r) ≡ false
          → HasGeneration hash (pair_of r) d
          → HasGeneration hash (pair_of r) d')
      → (is_blank_pair (applied_pair r) ≡ false
          → HasGeneration hash (applied_pair r) d
          → HasGeneration hash (applied_pair r) d')
      → RecordSound parse hash m id r d
      → RecordSound parse hash m id r d'
  RecordSound-keeps m id r d d' e k l h =
      let (q, at, same, checked) = h.stored in
      record {
        named = h.named;
        memory_ok = record_ok-keeps id r d d' k h.memory_ok;
        stored = (
          q,
          e ∙ at,
          same,
          record_ok-keeps id q d d'
              (subst
                (λ p. is_blank_pair p ≡ false → HasGeneration hash p d → HasGeneration hash p d')
                (sym (SameSource-pair_of r q same)) k)
              checked,
        );
        applied = h.applied;
        applied_found = λ t.
            verify_pair-keeps id (pair_of_marker m) d d'
              (subst
                (λ p. is_blank_pair p ≡ false → HasGeneration hash p d → HasGeneration hash p d')
                (h.applied ∙ rw t refl) l)
              (h.applied_found t);
      }

  -- A record that passes the checks, written to its directory.
  pub RecordSound-write :
      (m : Marker) (id : String) (r : Rec) (d : Dir)
      → valid_id id ≡ true
      → record_ok parse hash true id r (some d) ≡ true
      → applied_pair r ≡ pair_at m id
      → (id =s m.id ≡ true → verify_pair hash true id (pair_of_marker m) (some d) ≡ true)
      → RecordSound parse hash m id r (record d { record_file = some (durable r) })
  unfolding durable record_ok verify_pair
  RecordSound-write m id r d v ok a f = record {
    named = v;
    memory_ok = ok;
    stored = (
      durable r,
      refl,
      record {
        same_subscription = refl;
        same_hash = refl;
        same_candidate = refl;
        same_downloaded = refl;
      },
      ok,
    );
    applied = a;
    applied_found = f;
  }

  -- A change of the record in memory alone.
  pub RecordSound-remember :
      (m : Marker) (id : String) (r r' : Rec) (d : Dir)
      → SameSource r r'
      → record_ok parse hash true id r' (some d) ≡ true
      → applied_pair r' ≡ applied_pair r
      → RecordSound parse hash m id r d
      → RecordSound parse hash m id r' d
  RecordSound-remember m id r r' d s ok a h =
      let (q, at, same, checked) = h.stored in
      record {
        named = h.named;
        memory_ok = ok;
        stored = (
          q,
          at,
          record {
            same_subscription = same.same_subscription ∙ sym s.same_subscription;
            same_hash = same.same_hash ∙ sym s.same_hash;
            same_candidate = same.same_candidate ∙ sym s.same_candidate;
            same_downloaded = same.same_downloaded ∙ sym s.same_downloaded;
          },
          checked,
        );
        applied = a ∙ h.applied;
        applied_found = h.applied_found;
      }

  pub EntrySound-set_at :
      (m : Marker) (id : String) (v : Option Rec) (w : Option Dir) (records : String → Option Rec)
      (dirs : String → Option Dir)
      → ((x : String) → EntrySound parse hash m x (records x) (dirs x))
      → EntrySound parse hash m id v w
      → (x : String) → EntrySound parse hash m x (set_at id v records x) (set_at id w dirs x)
  unfolding set_at
  EntrySound-set_at m id v w records dirs h e x = elim (Bool-cases (x =s id)) [
    | inl t ↦ rw t (subst (λ z. EntrySound parse hash m z v w) (sym (=s→eq x id t)) e)
    | inr n ↦ rw n (h x)
  ]
