-- ===== src/Monitor/Streams/Targets.antt =====
-- One stream round: it pulls members only, each at most once, and at most the cap of them; and the
-- selected nodes come first.
use native.Mathlib.Nat.{add-zero}
use clashpulse.Base.{
  ℕ, zero, suc, ◌+◌, ◌≤◌, ◌<◌, ◌%◌, ◌≡◌, refl, ap, sym, ◌∙◌, ◌⊎◌, inl, inr, String, Bool, true,
  false, not, ◌&&◌, List, [], ◌∷◌, ◌++◌, Option, none, some, arith, ltb, length, contains,
  get_elem?, contains-In, In-contains, IsDistinct-append, In, IsDistinct, Bool-cases, length-append,
  if◌then◌else◌, In-append, In-append_left, In-append_right,
}
use clashpulse.Monitor.Model.{Sample, GroupState}
use clashpulse.Monitor.Policy.{stream_pull_cap, stream_candidates}
use clashpulse.Monitor.Streams.{
  Ranked, add_target, add_selected, add_ranked, ranked_at, add_rank, add_ranks, candidate_lists,
  stream_targets,
}

-- The list that a stream round builds.
pub record IsRound (members : String → Bool) (out : List String) : Type 0 where
  pub distinct : IsDistinct out
  pub capped : length out ≤ stream_pull_cap
  pub reachable : (p : String) → In p out → members p ≡ true

abbrev fits : (String → Bool) → List String → String → Bool
fits members out p = members p && not (contains p out) && ltb (length out) stream_pull_cap

-- What a call of `add` can do: nothing, or put a new member behind the others.
data Added (members : String → Bool) (out : List String) (p : String) (new : List String)
    : Type 0 where
  same : new ≡ out → Added members out p new
  behind :
      new ≡ out ++ p ∷ []
      → members p ≡ true
      → ¬ In p out
      → length out < stream_pull_cap
      → Added members out p new

module _ (members : String → Bool) where
  add_target-Added :
      (out : List String) (p : String) → Added members out p (add_target members out p)
  unfolding add_target
  add_target-Added out p = elim (Bool-cases (fits members out p)) [
    | inl e ↦ behind (rw e) (ground arith) (λ m. ground (arith, contains-In p out m)) (ground arith)
    | inr e ↦ same (rw e)
  ]

  add_target-IsRound :
      (out : List String) (p : String)
      → IsRound members out
      → IsRound members (add_target members out p)
  add_target-IsRound out p v = by_case (add_target-Added out p)
    where
      by_case : {new : List String} → Added members out p new → IsRound members new
      by_case (same e) = rw e v
      by_case (behind e m n l) = rw e (record {
        distinct = IsDistinct-append out p v.distinct n;
        capped = omega (arith, length-append out (p ∷ []));
        reachable = λ q k. member q (In-append q out (p ∷ []) k);
      })
        where
          member : (q : String) → In q out ⊎ In q (p ∷ []) → members q ≡ true
          member q (inl k) = v.reachable q k
          member q (inr (inl k)) = rw k m
          member q (inr (inr k)) = absurd k

  add_target-keeps : (out : List String) (p q : String) → In q out → In q (add_target members out p)
  add_target-keeps out p q m = by_case (add_target-Added out p)
    where
      by_case : {new : List String} → Added members out p new → In q new
      by_case (same e) = rw e m
      by_case (behind e _ _ _) = rw e (In-append_left q out (p ∷ []) m)

  -- A member is on the list after its turn, if there was room.
  add_target-In :
      (out : List String) (p : String)
      → members p ≡ true
      → length out < stream_pull_cap
      → In p (add_target members out p)
  unfolding add_target
  add_target-In out p m l = elim (Bool-cases (contains p out)) [
    | inl e ↦ rw (m, e) (In-contains p out e)
    | inr e ↦ rw (m, e, room) (In-append_right p out (p ∷ []) (inl refl))
  ]
    where
      room : ltb (length out) stream_pull_cap ≡ true
      room = ground arith

  add_selected-IsRound :
      (gs : List GroupState) (out : List String)
      → IsRound members out
      → IsRound members (add_selected members gs out)
  unfolding add_selected
  add_selected-IsRound [] out v = v
  add_selected-IsRound (g ∷ gs) out v = add_selected-IsRound gs _ (one g.automation_enabled)
    where
      one : (b : Bool) → IsRound members (if b then add_target members out g.selected else out)
      one true = add_target-IsRound out g.selected v
      one false = v

  add_ranked-IsRound :
      (o : Option Ranked) (out : List String)
      → IsRound members out
      → IsRound members (add_ranked members o out)
  unfolding add_ranked
  add_ranked-IsRound none out v = v
  add_ranked-IsRound (some r) out v = add_target-IsRound out r.proxy v

  add_ranked-keeps :
      (o : Option Ranked) (out : List String) (q : String)
      → In q out
      → In q (add_ranked members o out)
  unfolding add_ranked
  add_ranked-keeps none out q m = m
  add_ranked-keeps (some r) out q m = add_target-keeps out r.proxy q m

  module _ (candidates : List (List Ranked)) (round : ℕ) where
    add_rank-IsRound :
        (rank left i : ℕ) (out : List String)
        → IsRound members out
        → IsRound members (add_rank members candidates round rank left i out)
    unfolding add_rank
    add_rank-IsRound rank zero i out v = v
    add_rank-IsRound rank (suc left) i out v =
        add_rank-IsRound rank left (suc i) _ (add_ranked-IsRound _ out v)

    add_rank-keeps :
        (rank left i : ℕ) (out : List String) (q : String)
        → In q out
        → In q (add_rank members candidates round rank left i out)
    unfolding add_rank
    add_rank-keeps rank zero i out q m = m
    add_rank-keeps rank (suc left) i out q m =
        add_rank-keeps rank left (suc i) _ q (add_ranked-keeps _ out q m)

    add_ranks-IsRound :
        (left rank : ℕ) (out : List String)
        → IsRound members out
        → IsRound members (add_ranks members candidates round left rank out)
    unfolding add_ranks
    add_ranks-IsRound zero rank out v = v
    add_ranks-IsRound (suc left) rank out v =
        add_ranks-IsRound left (suc rank) _ (add_rank-IsRound rank (length candidates) 0 out v)

    add_ranks-keeps :
        (left rank : ℕ) (out : List String) (q : String)
        → In q out
        → In q (add_ranks members candidates round left rank out)
    unfolding add_ranks
    add_ranks-keeps zero rank out q m = m
    add_ranks-keeps (suc left) rank out q m =
        add_ranks-keeps left (suc rank) _ q (add_rank-keeps rank (length candidates) 0 out q m)

  length-add_target :
      (out : List String) (p : String) → length (add_target members out p) ≤ suc (length out)
  length-add_target out p = by_case (add_target-Added out p)
    where
      by_case : {new : List String} → Added members out p new → length new ≤ suc (length out)
      by_case (same e) = rw e (omega arith)
      by_case (behind e _ _ _) = rw e (omega (arith, length-append out (p ∷ [])))

  add_selected-keeps :
      (gs : List GroupState) (out : List String) (q : String)
      → In q out
      → In q (add_selected members gs out)
  unfolding add_selected
  add_selected-keeps [] out q m = m
  add_selected-keeps (g ∷ gs) out q m = add_selected-keeps gs _ q (one g.automation_enabled)
    where
      one : (b : Bool) → In q (if b then add_target members out g.selected else out)
      one true = add_target-keeps out g.selected q m
      one false = m

  add_selected-In :
      (g : GroupState) (gs : List GroupState) (out : List String)
      → length out + length gs ≤ stream_pull_cap
      → In g gs
      → g.automation_enabled ≡ true
      → members g.selected ≡ true
      → In g.selected (add_selected members gs out)
  unfolding add_selected
  add_selected-In g [] out l m a k = absurd m
  add_selected-In g (h ∷ gs) out l (inl e) a k =
      rw (ap auto (sym e) ∙ a) (
        add_selected-keeps gs _ g.selected
          (rw (← e) (add_target-In out g.selected k (omega arith))))
    where
      auto : GroupState → Bool
      auto x = x.automation_enabled
  add_selected-In g (h ∷ gs) out l (inr m) a k =
      add_selected-In g gs _ (one h.automation_enabled) m a k
    where
      one :
          (b : Bool)
          → length (if b then add_target members out h.selected else out) + length gs
            ≤ stream_pull_cap
      one true = omega (arith, length-add_target out h.selected)
      one false = omega arith

first_turn :
    (members : String → Bool) (candidates : List (List Ranked)) (round : ℕ) (out : List String)
    (r : Ranked) (rest : List Ranked)
    → get_elem? candidates (round % length candidates) ≡ some (r ∷ rest)
    → members r.proxy ≡ true
    → length out < stream_pull_cap
    → In r.proxy (add_ranks members candidates round stream_candidates 0 out)
unfolding add_ranks add_rank add_ranked ranked_at
first_turn members [] round out r rest first k room = cc first
first_turn members (c ∷ cs) round out r rest first k room =
    add_ranks-keeps members (c ∷ cs) round 2 1 _ r.proxy (
      add_rank-keeps members (c ∷ cs) round 0 (length cs) 1 _ r.proxy
        (rw (add-zero, first, ranked_at) (add_target-In members out r.proxy k room)))

module _ (groups : List GroupState) (history : String → String → List Sample)
    (members : String → Bool) (window_size round : ℕ) where
  -- A stream round pulls no node twice, at most `stream_pull_cap` nodes, and members only.
  pub stream_targets-IsRound :
      IsRound members (stream_targets groups history members window_size round)
  unfolding stream_targets
  stream_targets-IsRound =
      add_ranks-IsRound members (candidate_lists members history window_size groups) round
        stream_candidates 0 _
        (add_selected-IsRound members groups []
          (record { distinct = tt; capped = omega arith; reachable = λ p m. absurd m }))

  -- With at most `stream_pull_cap` groups, every automated group's selected node that is a member is
  -- pulled in every round.
  pub stream_targets-selected :
      (g : GroupState)
      → length groups ≤ stream_pull_cap
      → In g groups
      → g.automation_enabled ≡ true
      → members g.selected ≡ true
      → In g.selected (stream_targets groups history members window_size round)
  unfolding stream_targets
  stream_targets-selected g l m a k =
      add_ranks-keeps members (candidate_lists members history window_size groups) round
        stream_candidates 0 _ g.selected (add_selected-In members g groups [] (omega arith) m a k)

  -- The group at the round's rotating position has its fastest candidate pulled, if that is a member
  -- and the selected nodes leave room: the cap does not starve a later group.
  pub stream_targets-rotates :
      (r : Ranked) (rest : List Ranked)
      → get_elem?
          (candidate_lists members history window_size groups)
          (round % length (candidate_lists members history window_size groups))
        ≡ some (r ∷ rest)
      → members r.proxy ≡ true
      → length (add_selected members groups []) < stream_pull_cap
      → In r.proxy (stream_targets groups history members window_size round)
  unfolding stream_targets
  stream_targets-rotates r rest first k room =
      first_turn members (candidate_lists members history window_size groups) round
        (add_selected members groups []) r rest first k room
