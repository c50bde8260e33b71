-- ===== src/Monitor/Alert/Laws.antt =====
-- When the latency alert changes state, and on what evidence.
use clashpulse.Base.{
  ℕ, ◌≤◌, ◌<◌, ◌≡◌, ◌≢◌, refl, ◌⊎◌, inl, inr, ◌↔◌, String, Bool, true, false, List, [], ◌∷◌, Option,
  none, some, arith, All, is_empty, Bool-cases, if◌then◌else◌,
}
use clashpulse.Monitor.Model.{Sample, GroupState, AlertState, AlertTransition, AlertEvent}
use clashpulse.Monitor.Policy.{Policy}
use clashpulse.Monitor.Decide.{group_samples}
use clashpulse.Monitor.Alert.{
  newest_answer, Scan, scan_one, scan, scan_start, alert_step, update_latency_alert,
}

module _ (threshold : ℕ) (answer : String → Option Sample) where
  -- The proxy answered, above the threshold; or at most at the threshold.
  abbrev pub IsHigh : String → Type 0
  IsHigh p = (s : Sample) × (answer p ≡ some s) × (threshold < s.latency)

  abbrev pub IsLow : String → Type 0
  IsLow p = (s : Sample) × (answer p ≡ some s) × (s.latency ≤ threshold)

  abbrev pub SomeLow : List String → Type 0
  SomeLow [] = ⊥
  SomeLow (p ∷ ps) = IsLow p ⊎ SomeLow ps

  abbrev Clear : Scan → Type 0
  Clear s = (s.complete ≡ true) × (s.all_high ≡ true)

  one-IsHigh :
      (p : String) (o : Option Sample) (s : Scan)
      → answer p ≡ o
      → Clear (scan_one threshold o s)
      → Clear s × IsHigh p
  unfolding scan_one
  one-IsHigh p none s e c = cc (c.0)
  one-IsHigh p (some a) s e c = ((ground arith, ground arith), (a, e, ground arith))

  IsHigh-one :
      (p : String) (o : Option Sample) (s : Scan)
      → answer p ≡ o
      → Clear s
      → IsHigh p
      → Clear (scan_one threshold o s)
  unfolding scan_one
  IsHigh-one p none s e c (a, q, l) = ground arith
  IsHigh-one p (some b) s e c (a, q, l) = ground arith

  scan-IsHigh :
      (ps : List String) (s : Scan) → Clear (scan threshold answer ps s) → Clear s × All IsHigh ps
  unfolding scan
  scan-IsHigh [] s c = (c, tt)
  scan-IsHigh (p ∷ ps) s c =
      let rest = scan-IsHigh ps (scan_one threshold (answer p) s) c in
      let one = one-IsHigh p (answer p) s refl rest.0 in (one.0, (one.1, rest.1))

  IsHigh-scan :
      (ps : List String) (s : Scan) → Clear s → All IsHigh ps → Clear (scan threshold answer ps s)
  unfolding scan
  IsHigh-scan [] s c h = c
  IsHigh-scan (p ∷ ps) s c h =
      IsHigh-scan ps (scan_one threshold (answer p) s) (IsHigh-one p (answer p) s refl c h.0) h.1

  one-IsLow :
      (p : String) (o : Option Sample) (s : Scan)
      → answer p ≡ o
      → (scan_one threshold o s).any_recovered ≡ true
      → (s.any_recovered ≡ true) ⊎ IsLow p
  unfolding scan_one
  one-IsLow p none s e c = inl c
  one-IsLow p (some a) s e c = elim (Bool-cases s.any_recovered) [
    | inl y ↦ inl y
    | inr n ↦ inr (a, e, ground arith)
  ]

  IsLow-one :
      (p : String) (o : Option Sample) (s : Scan)
      → answer p ≡ o
      → (s.any_recovered ≡ true) ⊎ IsLow p
      → (scan_one threshold o s).any_recovered ≡ true
  unfolding scan_one
  IsLow-one p none s e (inl c) = c
  IsLow-one p none s e (inr (a, q, l)) = ground arith
  IsLow-one p (some b) s e (inl c) = ground arith
  IsLow-one p (some b) s e (inr (a, q, l)) = ground arith

  scan-SomeLow :
      (ps : List String) (s : Scan)
      → (scan threshold answer ps s).any_recovered ≡ true
      → (s.any_recovered ≡ true) ⊎ SomeLow ps
  unfolding scan
  scan-SomeLow [] s c = inl c
  scan-SomeLow (p ∷ ps) s c = elim (scan-SomeLow ps (scan_one threshold (answer p) s) c) [
    | inr l ↦ inr (inr l)
    | inl r ↦ elim (one-IsLow p (answer p) s refl r) [ inl y ↦ inl y | inr l ↦ inr (inl l) ]
  ]

  SomeLow-scan :
      (ps : List String) (s : Scan)
      → (s.any_recovered ≡ true) ⊎ SomeLow ps
      → (scan threshold answer ps s).any_recovered ≡ true
  unfolding scan
  SomeLow-scan [] s (inl c) = c
  SomeLow-scan [] s (inr l) = absurd l
  SomeLow-scan (p ∷ ps) s (inl c) =
      SomeLow-scan ps (scan_one threshold (answer p) s)
        (inl (IsLow-one p (answer p) s refl (inl c)))
  SomeLow-scan (p ∷ ps) s (inr (inl l)) =
      SomeLow-scan ps (scan_one threshold (answer p) s)
        (inl (IsLow-one p (answer p) s refl (inr l)))
  SomeLow-scan (p ∷ ps) s (inr (inr l)) = SomeLow-scan ps (scan_one threshold (answer p) s) (inr l)

  -- The loop's verdicts, read off the proxies.
  scan-IsHigh_iff : (ps : List String) → Clear (scan threshold answer ps scan_start) ↔ All IsHigh ps
  scan-IsHigh_iff ps =
      (λ c. (scan-IsHigh ps scan_start c).1, IsHigh-scan ps scan_start (refl, refl))

  scan-SomeLow_iff :
      (ps : List String) → ((scan threshold answer ps scan_start).any_recovered ≡ true) ↔ SomeLow ps
  scan-SomeLow_iff ps = (
    λ c. elim (scan-SomeLow ps scan_start c) [ inl n ↦ cc n | inr l ↦ l ],
    λ l. SomeLow-scan ps scan_start (inr l),
  )

-- The state that a transition leads to.
abbrev pub after_transition : Bool → AlertTransition → Bool
after_transition high AlertTransition.no_change = high
after_transition high AlertTransition.high_latency = true
after_transition high AlertTransition.recovered = false

module _ (previous : AlertState) (event : AlertEvent)
    (quiet : event.transition ≡ AlertTransition.no_change) (s : Scan) where
  step_raised :
      ((alert_step previous event s).1.transition ≡ AlertTransition.high_latency)
      ↔ ((previous.high_latency ≡ false) × ((s.complete ≡ true) × (s.all_high ≡ true)))
  unfolding alert_step
  step_raised = (λ h. (ground arith, (ground arith, ground arith)), λ h. ground arith)

  step_cleared :
      ((alert_step previous event s).1.transition ≡ AlertTransition.recovered)
      ↔ ((previous.high_latency ≡ true) × (s.any_recovered ≡ true))
  unfolding alert_step
  step_cleared = (λ h. (ground arith, ground arith), λ h. ground arith)

  step_state :
      (alert_step previous event s).0.high_latency
      ≡ after_transition previous.high_latency (alert_step previous event s).1.transition
  unfolding alert_step
  step_state = ground arith

-- The transitions of the alert, each with the measurements that cause it.
pub record Transitions (policy : Policy) (state : GroupState) (samples : List Sample)
    (previous : AlertState) (out : AlertState × AlertEvent) : Type 0 where
  pub raised : (out.1.transition ≡ AlertTransition.high_latency) ↔ (
      (previous.high_latency ≡ false)
      × (state.proxies ≢ [])
      × All
          (IsHigh policy.latency_alert_threshold
            (newest_answer (group_samples policy state samples)))
          state.proxies)
  pub cleared : (out.1.transition ≡ AlertTransition.recovered) ↔ (
      (previous.high_latency ≡ true)
      × SomeLow policy.latency_alert_threshold
          (newest_answer (group_samples policy state samples))
          state.proxies)
  pub follows : out.0.high_latency ≡ after_transition previous.high_latency out.1.transition

module _ (policy : Policy) (state : GroupState) (samples : List Sample)
    (previous : AlertState) where
  -- The alert is raised exactly when it was not raised, the group has proxies and every proxy's newest
  -- probe succeeded above the threshold; it is cleared exactly when it was raised and some proxy's
  -- newest probe succeeded at or below it; and the state follows the transition.
  pub update_latency_alert-Transitions :
      Transitions policy state samples previous (update_latency_alert policy state samples previous)
  unfolding update_latency_alert group_samples
  update_latency_alert-Transitions = at state.proxies
    where
      answer : String → Option Sample
      answer = newest_answer (group_samples policy state samples)

      event : AlertEvent
      event = record {
        transition = AlertTransition.no_change;
        group = state.group;
        threshold = policy.latency_alert_threshold;
        evidence = [];
      }

      at :
          (ps : List String)
          → Transitions policy
              (record state { proxies = ps })
              samples
              previous
              (if is_empty ps
                then (previous, event)
                else alert_step previous event
                    (scan policy.latency_alert_threshold answer ps scan_start))
      at [] = record {
        raised = (λ h. cc h, λ h. absurd (h.1 refl));
        cleared = (λ h. cc h, λ h. absurd h.1);
        follows = refl;
      }
      at (p ∷ ps) =
          let high = scan-IsHigh_iff policy.latency_alert_threshold answer (p ∷ ps) in
          let low = scan-SomeLow_iff policy.latency_alert_threshold answer (p ∷ ps) in
          let s = scan policy.latency_alert_threshold answer (p ∷ ps) scan_start in
          let raised = step_raised previous event refl s in
          let cleared = step_cleared previous event refl s in
          record {
            raised = (
              λ h. ((raised.0 h).0, (λ e. cc e), high.0 (raised.0 h).1),
              λ h. raised.1 (h.0, high.1 h.2),
            );
            cleared =
                (λ h. ((cleared.0 h).0, low.0 (cleared.0 h).1), λ h. cleared.1 (h.0, low.1 h.1));
            follows = step_state previous event refl s;
          }
