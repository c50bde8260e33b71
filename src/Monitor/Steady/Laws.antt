-- ===== src/Monitor/Steady/Laws.antt =====
-- When `decide_steady` switches, that it switches when it can, and what its ranking is not.
use mathlib.Core.List.{head?}
use clashpulse.Base.{
  ℕ, ◌≤◌, ◌<◌, ◌≡◌, ◌≢◌, refl, ◌⊎◌, inl, inr, String, Bool, true, false, ◌&&◌, ◌||◌, List, [], ◌∷◌,
  Option, none, some, arith, In, Bool-cases, is_blank, is_empty, if◌then◌else◌, ltb, text_lt, eq→=s,
  =s→eq, ◌=s◌,
}
use clashpulse.Monitor.Model.{Sample, StreamSample, Reason, Decision, GroupState}
use clashpulse.Monitor.Policy.{Policy}
use clashpulse.Monitor.Decide.{guard, because, new_decision}
use clashpulse.Monitor.Steady.{
  completes, measure_streams, interrupted, stream_window, measured_count, none_complete, latency_of,
  Candidate, ranks_before, is_eligible, eligible, Sorter, steady_switch, steady_with, decide_steady,
}

-- A candidate that is not the selected node, whose newest pull completed, with enough completed
-- pulls and fewer interrupted ones than `limit`.
pub record Proven (policy : Policy) (selected : String) (limit : ℕ) (name : String)
    (window : List StreamSample) : Type 0 where
  pub other : name ≢ selected
  pub completing : completes window ≡ true
  pub enough : policy.min_candidate_samples ≤ (measure_streams name window 0).completed
  pub fewer : interrupted (measure_streams name window 0) < limit

is_eligible-Proven :
    (policy : Policy) (selected : String) (limit : ℕ) (p : String) (w : List StreamSample)
    → is_eligible policy selected limit p w ≡ true
    → Proven policy selected limit p w
unfolding is_eligible
is_eligible-Proven policy selected limit p w h = record {
  other = λ e. ground (arith, eq→=s p selected e);
  completing = ground arith;
  enough = ground arith;
  fewer = ground arith;
}

completes_not_empty : (u : List StreamSample) → completes u ≡ true → is_empty u ≡ false
unfolding completes
completes_not_empty [] h = cc h
completes_not_empty (x ∷ u) h = refl

Proven-is_eligible :
    (policy : Policy) (selected : String) (limit : ℕ) (p : String) (w : List StreamSample)
    → Proven policy selected limit p w
    → is_eligible policy selected limit p w ≡ true
unfolding is_eligible
Proven-is_eligible policy selected limit p w v = elim (Bool-cases (p =s selected)) [
  | inl e ↦ absurd (v.other (=s→eq p selected e))
  | inr n ↦ ground (arith, completes_not_empty w v.completing)
]

module _ (policy : Policy) (selected : String) (limit : ℕ)
    (window : String → List StreamSample) where
  eligible-In :
      (c : Candidate) (ps : List String)
      → In c (eligible policy selected limit window ps)
      → In c.name ps × (is_eligible policy selected limit c.name (window c.name) ≡ true)
  unfolding eligible
  eligible-In c [] m = absurd m
  eligible-In c (p ∷ ps) m = elim (Bool-cases (is_eligible policy selected limit p (window p))) [
    | inl e ↦ kept e (eligible-In c ps) (rw e at m)
    | inr e ↦ let r = eligible-In c ps (rw e at m) in (inr r.0, r.1)
  ]
    where
      kept :
          is_eligible policy selected limit p (window p) ≡ true
          → (In c (eligible policy selected limit window ps)
              → In c.name ps × (is_eligible policy selected limit c.name (window c.name) ≡ true))
          → (c ≡ record { name = p; stats = measure_streams p (window p) 0 })
            ⊎ In c (eligible policy selected limit window ps)
          → In c.name (p ∷ ps) × (is_eligible policy selected limit c.name (window c.name) ≡ true)
      kept e rest (inl q) = rw q (inl refl, e)
      kept e rest (inr k) = let r = rest k in (inr r.0, r.1)

  In-eligible :
      (p : String) (ps : List String)
      → In p ps
      → is_eligible policy selected limit p (window p) ≡ true
      → (c : Candidate) × In c (eligible policy selected limit window ps)
  unfolding eligible
  In-eligible p [] m h = absurd m
  In-eligible p (q ∷ ps) (inl e) h =
      (record { name = q; stats = measure_streams q (window q) 0 }, rw (rw e at h) (inl refl))
  In-eligible p (q ∷ ps) (inr m) h =
      elim (Bool-cases (is_eligible policy selected limit q (window q))) [
        | inl y ↦ let r = In-eligible p ps m h in (r.0, rw y (inr r.1))
        | inr n ↦ let r = In-eligible p ps m h in (r.0, rw n r.1)
      ]

In-head? : {A : Type 0} (a : A) (xs : List A) → head? xs ≡ some a → In a xs
In-head? a [] h = cc
In-head? a (x ∷ xs) h = inl (cc)

head?-some : {A : Type 0} (a : A) (xs : List A) → In a xs → (b : A) × (head? xs ≡ some b)
head?-some a [] m = absurd m
head?-some a (x ∷ xs) m = (x, refl)

not_empty : {A : Type 0} (a : A) (xs : List A) → In a xs → is_empty xs ≡ false
not_empty a [] m = absurd m
not_empty a (x ∷ xs) m = refl

-- Why a switch of the steady policy is justified.
pub record SteadyJustified (policy : Policy) (state : GroupState)
    (window : String → List StreamSample) (d : Decision) : Type 0 where
  pub from : d.old ≡ state.selected
  pub broken :
      policy.max_failures ≤ interrupted (measure_streams state.selected (window state.selected) 0)
  pub member : In d.new state.proxies
  pub proven :
      Proven policy state.selected
        (interrupted (measure_streams state.selected (window state.selected) 0))
        d.new
        (window d.new)

module _ (sorter : Sorter) (policy : Policy) (state : GroupState) (latency : List Sample)
    (window : String → List StreamSample) (d : Decision) (off : d.switch ≡ false)
    (from : d.old ≡ state.selected) where
  abbrev limit : ℕ
  limit = interrupted (measure_streams state.selected (window state.selected) 0)

  abbrev ranked : List Candidate
  ranked =
      sorter.sort (ranks_before (latency_of policy state latency))
        (eligible policy state.selected limit window state.proxies)

  switch_justified :
      (o : Option Candidate)
      → head? ranked ≡ o
      → policy.max_failures ≤ limit
      → (steady_switch state latency window d o).switch ≡ true
      → SteadyJustified policy state window (steady_switch state latency window d o)
  unfolding steady_switch
  switch_justified none e b h = cc off
  switch_justified (some best) e b h =
      let found =
        eligible-In policy state.selected limit window best state.proxies
          (sorter.sort-In _ best _ (In-head? best ranked e)) in
      record {
        from = from;
        broken = b;
        member = found.0;
        proven =
            is_eligible-Proven policy state.selected limit best.name (window best.name) found.1;
      }

  past_guards :
      (b c f g : Bool) (out : Decision)
      → (f ≡ false → out.switch ≡ true → SteadyJustified policy state window out)
      → (if b
          then d
          else if c
          then because d Reason.all_candidates_failed
          else if f
          then (if g then because d Reason.selected_streams_healthy else d)
          else out).switch
        ≡ true
      → SteadyJustified policy state window (
          if b
          then d
          else if c
          then because d Reason.all_candidates_failed
          else if f
          then (if g then because d Reason.selected_streams_healthy else d)
          else out)
  past_guards true c f g out k h = cc off
  past_guards false true f g out k h = cc off
  past_guards false false true true out k h = cc off
  past_guards false false true false out k h = cc off
  past_guards false false false g out k h = k refl h

  steady_with-justified :
      (o : Option Reason)
      → (steady_with sorter policy state latency window d o).switch ≡ true
      → (o ≡ none)
        × SteadyJustified policy state window (steady_with sorter policy state latency window d o)
  unfolding steady_with
  steady_with-justified (some r) h = cc off
  steady_with-justified none h = (
    refl,
    past_guards (is_blank state.selected || is_empty state.proxies)
        (ltb 1 (measured_count window state.proxies) && none_complete window state.proxies)
        (ltb limit policy.max_failures)
        (ltb 0 (measure_streams state.selected (window state.selected) 0).samples)
        (steady_switch state latency window d (head? ranked))
        (λ f s. switch_justified (head? ranked) refl (ground arith) s) h,
  )

  steady_with-switches :
      is_blank state.selected ≡ false
      → (ltb 1 (measured_count window state.proxies) && none_complete window state.proxies) ≡ false
      → policy.max_failures ≤ limit
      → (p : String) → In p state.proxies
      → is_eligible policy state.selected limit p (window p) ≡ true
      → (steady_with sorter policy state latency window d none).switch ≡ true
  unfolding steady_with steady_switch
  steady_with-switches named some_complete broken p m ok =
      let c = In-eligible policy state.selected limit window p state.proxies m ok in
      let best = head?-some c.0 ranked (sorter.In-sort _ c.0 _ c.1) in
      ground (arith, best.1, not_empty p state.proxies m)

-- Where `decide_steady` switches, no guard holds, the selected node has at least `max_failures`
-- interrupted pulls, and the new node is another member of the group whose newest pull completed,
-- with enough completed pulls and fewer interrupted ones. It holds for every `sort.Slice` that
-- rearranges.
pub decide_steady-justified :
    (sorter : Sorter) (policy : Policy) (state : GroupState) (latency : List Sample)
    (streams : String → List StreamSample) (now : ℕ)
    → (decide_steady sorter policy state latency streams now).switch ≡ true
    → (guard policy state now ≡ none)
      × SteadyJustified policy state
          (stream_window policy state streams)
          (decide_steady sorter policy state latency streams now)
unfolding decide_steady
decide_steady-justified sorter policy state latency streams now h =
    steady_with-justified sorter policy state latency (stream_window policy state streams)
      (new_decision state []) (unfold new_decision in refl) (unfold new_decision in refl)
      (guard policy state now) h

-- If no guard holds, a node is selected, it has at least `max_failures` interrupted pulls, the group
-- has not failed as a whole and some member is proven, then `decide_steady` switches.
pub decide_steady_switches :
    (sorter : Sorter) (policy : Policy) (state : GroupState) (latency : List Sample)
    (streams : String → List StreamSample) (now : ℕ) (p : String)
    → guard policy state now ≡ none
    → state.selected ≢ ""
    → (ltb 1 (measured_count (stream_window policy state streams) state.proxies)
        && none_complete (stream_window policy state streams) state.proxies)
      ≡ false
    → policy.max_failures
      ≤ interrupted
          (measure_streams state.selected (stream_window policy state streams state.selected) 0)
    → In p state.proxies
    → Proven policy state.selected
        (interrupted
          (measure_streams state.selected (stream_window policy state streams state.selected) 0))
        p
        (stream_window policy state streams p)
    → (decide_steady sorter policy state latency streams now).switch ≡ true
unfolding decide_steady
decide_steady_switches sorter policy state latency streams now p free named some_complete broken m
      ok =
    rw free (
      steady_with-switches sorter policy state latency (stream_window policy state streams)
        (new_decision state []) (unfold new_decision in refl) (unfold new_decision in refl)
        (not_blank (Bool-cases (is_blank state.selected))) some_complete broken p m
        (Proven-is_eligible policy state.selected _ p (stream_window policy state streams p) ok))
  where
    not_blank :
        (is_blank state.selected ≡ true) ⊎ (is_blank state.selected ≡ false)
        → is_blank state.selected ≡ false
    not_blank (inl e) = absurd (named (=s→eq state.selected "" e))
    not_blank (inr e) = e

-- Three candidates that are alike but for name and latency, the middle name unmeasured, beat one
-- another in a circle.
pub ranks_before_cycle :
    (latency : String → ℕ) (a b c : Candidate)
    → interrupted a.stats ≡ interrupted b.stats
    → interrupted b.stats ≡ interrupted c.stats
    → a.stats.median_throughput ≡ b.stats.median_throughput
    → b.stats.median_throughput ≡ c.stats.median_throughput
    → latency b.name ≡ 0
    → 0 < latency a.name
    → latency a.name < latency c.name
    → text_lt c.name b.name ≡ true
    → text_lt b.name a.name ≡ true
    → (ranks_before latency a c ≡ true)
      × (ranks_before latency c b ≡ true)
      × (ranks_before latency b a ≡ true)
unfolding ranks_before
ranks_before_cycle latency a b c f g t u z la lc n m = (ground arith, ground arith, ground arith)
