-- ===== src/Monitor/Window/Laws.antt =====
-- What the window and its summary give: sizes, bounds, order and independence of arrival order.
use mathlib.Core.List.{Perm}
use mathlib.Core.Path.{subst}
use clashpulse.Base.{
  ℕ, true, map, ◌==◌, refl, ◌++◌, drop, zero, suc, ◌+◌, ◌-◌, ◌≤◌, ◌<◌, ◌≡◌, sym, ap, ◌∙◌, inl, inr,
  false, ◌&&◌, List, [], ◌∷◌, ltb, length, last?, some, arith, min, length-drop, In, In-drop,
  All-of_In, Bool-cases, last?-drop,
}
use clashpulse.Base.Sort.{
  sort_on, length-sort_on, In-sort_on, sort_on-perm, sort_on-In, sort_on-IsSortedOn,
  drop-IsSortedOn, IsSortedOn, last?_greatest,
}
use clashpulse.Monitor.Model.{Sample, Stability}
use clashpulse.Monitor.Window.Median.{Halves, median_half}
use clashpulse.Monitor.Window.{
  distance, sample_failed, newest, recent, median, failed_count, latencies, summarize,
  measure_stability,
}

module _ {A : Type 0} where
  pub length-newest :
      (limit : ℕ) (xs : List A) → 0 < limit → length (newest limit xs) ≡ min limit (length xs)
  length-newest limit xs h = ground (arith, length-drop (length xs - limit) xs)

  pub In-newest : (a : A) (limit : ℕ) (xs : List A) → In a (newest limit xs) → In a xs
  In-newest a limit xs m = elim (Bool-cases (ltb 0 limit && ltb limit (length xs))) [
    | inl e ↦ In-drop a (length xs - limit) xs (rw e at m)
    | inr e ↦ rw e at m
  ]

  pub last?-newest : (limit : ℕ) (xs : List A) → last? (newest limit xs) ≡ last? xs
  last?-newest limit xs = ground (arith, last?-drop (length xs - limit) xs)

  newest-IsSortedOn :
      (key : A → ℕ) (limit : ℕ) (xs : List A) → IsSortedOn key xs → IsSortedOn key (newest limit xs)
  newest-IsSortedOn key limit xs s = elim (Bool-cases (ltb 0 limit && ltb limit (length xs))) [
    | inl e ↦ rw e (drop-IsSortedOn key (length xs - limit) xs s)
    | inr e ↦ rw e s
  ]

finish : Sample → ℕ
finish s = s.finished_at

pub length-recent :
    (xs : List Sample) (limit : ℕ) → 0 < limit → length (recent xs limit) ≡ min limit (length xs)
unfolding recent
length-recent xs limit h = omega (
  arith,
  length-newest limit (sort_on (λ s. s.finished_at) xs) h,
  length-sort_on (λ s. s.finished_at) xs,
)

pub In-recent : (a : Sample) (xs : List Sample) (limit : ℕ) → In a (recent xs limit) → In a xs
unfolding recent
In-recent a xs limit m =
    In-sort_on (λ s. s.finished_at) a xs (In-newest a limit (sort_on (λ s. s.finished_at) xs) m)

-- The window is in order of completion, and its last sample is as late as any sample given.
pub recent-IsSortedOn :
    (xs : List Sample) (limit : ℕ) → IsSortedOn (λ s. s.finished_at) (recent xs limit)
unfolding recent
recent-IsSortedOn xs limit =
    newest-IsSortedOn (λ s. s.finished_at) limit (sort_on (λ s. s.finished_at) xs)
      (sort_on-IsSortedOn (λ s. s.finished_at) xs)

pub recent_latest :
    (a b : Sample) (xs : List Sample) (limit : ℕ)
    → last? (recent xs limit) ≡ some a
    → In b xs
    → b.finished_at ≤ a.finished_at
unfolding recent
recent_latest a b xs limit h m =
    last?_greatest (λ s. s.finished_at) a b (sort_on (λ s. s.finished_at) xs)
      (sort_on-IsSortedOn (λ s. s.finished_at) xs)
      (sym (last?-newest limit (sort_on (λ s. s.finished_at) xs)) ∙ h)
      (sort_on-In (λ s. s.finished_at) b xs m)

pub failed_count-add-latencies :
    (xs : List Sample) → failed_count xs + length (latencies xs) ≡ length xs
unfolding failed_count latencies
failed_count-add-latencies [] = omega arith
failed_count-add-latencies (s ∷ ss) = ground (arith, failed_count-add-latencies ss)

pub failed_count-lt_of_answer :
    (a : Sample) (xs : List Sample)
    → In a xs
    → sample_failed a ≡ false
    → failed_count xs < length xs
unfolding failed_count
failed_count-lt_of_answer a [] m h = absurd m
failed_count-lt_of_answer a (s ∷ ss) (inl e) h =
    rw (ap (λ (t : Sample). sample_failed t) (sym e) ∙ h) (ground (arith, failed_count-le ss))
  where
    failed_count-le : (xs : List Sample) → failed_count xs ≤ length xs
    failed_count-le [] = omega arith
    failed_count-le (s ∷ ss) = ground (arith, failed_count-le ss)
failed_count-lt_of_answer a (s ∷ ss) (inr m) h = ground (arith, failed_count-lt_of_answer a ss m h)

-- What is dropped from the front of a sorted list has no greater key than what is left.
drop-split :
    {A : Type 0} (key : A → ℕ) (n : ℕ) (xs : List A)
    → IsSortedOn key xs
    → (older : List A) × (older ++ drop n xs ≡ xs)
      × ((a b : A) → In a older → In b (drop n xs) → key a ≤ key b)
drop-split key zero xs s = ([], refl, λ a b m. absurd m)
drop-split key (suc n) [] s = ([], refl, λ a b m. absurd m)
drop-split key (suc n) (x ∷ xs) s =
    let (older, e, le) = drop-split key n xs s.1 in
    (
      x ∷ older,
      ap (λ l. x ∷ l) e,
      λ a b m m'. elim m [
        | inl q ↦
            subst (λ z. key z ≤ key b) (sym q)
              (All-of_In (λ y. key x ≤ key y) b xs s.0 (In-drop b n xs m'))
        | inr q ↦ le a b q m'
      ],
    )

newest-split :
    {A : Type 0} (key : A → ℕ) (limit : ℕ) (xs : List A)
    → IsSortedOn key xs
    → (older : List A) × (older ++ newest limit xs ≡ xs)
      × ((a b : A) → In a older → In b (newest limit xs) → key a ≤ key b)
newest-split key limit xs s = elim (Bool-cases (ltb 0 limit && ltb limit (length xs))) [
  | inl e ↦ rw e (drop-split key (length xs - limit) xs s)
  | inr e ↦ rw e ([], refl, λ a b m. absurd m)
]

median-Halves : (xs : List ℕ) → Halves (median xs) xs
unfolding Halves
median-Halves [] = (omega arith, omega arith)
median-Halves (x ∷ xs) = median_half (x ∷ xs) (ground arith)

Halves-empty : (v : ℕ) (xs : List ℕ) → (length xs == 0) ≡ true → Halves v xs
unfolding Halves
Halves-empty v xs e = (ground (arith, e), ground (arith, e))

Halves-map_empty : (v : ℕ) (f : ℕ → ℕ) (xs : List ℕ) → (length xs == 0) ≡ true → Halves v (map f xs)
Halves-map_empty v f [] e = Halves-empty v [] refl
Halves-map_empty v f (x ∷ xs) e = absurd (ground (arith, e))

-- The median halves the values, and the jitter halves their distances from it.
pub record Centres (values : List ℕ) (stats : Stability) : Type 0 where
  pub middle : Halves stats.median values
  pub spread : Halves stats.jitter (map (λ v. distance v stats.median) values)

summarize-Centres : (window : List Sample) → Centres (latencies window) (summarize window)
unfolding summarize
summarize-Centres window = elim (Bool-cases (length (latencies window) == 0)) [
  | inl e ↦
      rw (summarize, e)
        (record {
          middle = Halves-empty 0 (latencies window) e;
          spread = Halves-map_empty 0 (λ v. distance v 0) (latencies window) e;
        })
  | inr n ↦
      rw (summarize, n)
        (record {
          middle = median-Halves (latencies window);
          spread =
              median-Halves (map (λ v. distance v (median (latencies window))) (latencies window));
        })
]

-- What the statistics of a list of samples say of a window of them. The window is the newest samples:
-- with those that it leaves out, none of which completed later than one in it, it is the list
-- rearranged. The statistics count its samples and its failures. At least half of the latencies of its
-- successful samples are no greater than the median and at least half are no less, and the same holds of
-- the jitter and the distances of these latencies from the median.
pub record Summarizes (samples : List Sample) (window_size : ℕ) (stats : Stability) : Type 0 where
  pub older : List Sample
  pub window : List Sample
  pub split : Perm (older ++ window) samples
  pub newer : (a b : Sample) → In a older → In b window → a.finished_at ≤ b.finished_at
  pub size : length window ≡ min window_size (length samples)
  pub counted : stats.samples ≡ length window
  pub failed : stats.failures ≡ failed_count window
  pub centred : Centres (latencies window) stats

-- With a window, `measure_stability` is about the newest `window_size` samples by completion, or all
-- where there are fewer: it counts them and their failures, its median has at least half of the latencies
-- of the successful samples among them on each side, itself included, and so has its jitter of the
-- distances of these latencies from the median.
pub measure_stability-Summarizes :
    (samples : List Sample) (window_size : ℕ)
    → 0 < window_size
    → Summarizes samples window_size (measure_stability samples window_size)
unfolding measure_stability summarize recent
measure_stability-Summarizes samples window_size pos =
    let sorted = sort_on (λ s. s.finished_at) samples in
    let (older, e, le) =
      newest-split (λ s. s.finished_at) window_size sorted
        (sort_on-IsSortedOn (λ s. s.finished_at) samples) in
    let window = recent samples window_size in
    record {
      older = older;
      window = window;
      split = subst (λ l. Perm l samples) (sym e) (sort_on-perm (λ s. s.finished_at) samples);
      newer = le;
      size = length-recent samples window_size pos;
      counted = ground arith;
      failed = ground arith;
      centred = summarize-Centres window;
    }
