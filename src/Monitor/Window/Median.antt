-- ===== src/Monitor/Window/Median.antt =====
-- monitor/policy.go: `median` is a median of its values: at least half of them are no greater, and at
-- least half are no less.
use mathlib.Core.Path.{subst}
use clashpulse.Base.{
  ℕ, ◌%◌, ◌==◌, ◌+◌, ◌-◌, ◌*◌, ◌/◌, ◌≤◌, ◌<◌, ◌≡◌, refl, zero, suc, List, [], ◌∷◌, leb, length,
  get_or, arith, All, All-intro, All-of_In, Bool-cases, inl, inr,
}
use clashpulse.Base.Sort.{
  sort_on, length-sort_on, sort_on-IsSortedOn, IsSortedOn, count, count-sort_on,
}
use clashpulse.Monitor.Window.{median}

-- A bound that every element meets is met at every index in range.
get_or_bound : (P : ℕ → Type 0) (xs : List ℕ) (i : ℕ) → All P xs → i < length xs → P (get_or xs i 0)
get_or_bound P [] i h l = absurd (omega arith)
get_or_bound P (x ∷ xs) zero h l = h.0
get_or_bound P (x ∷ xs) (suc i) h l = get_or_bound P xs i h.1 (omega arith)

-- How many values are no greater, and how many are no less.
abbrev at_most : ℕ → List ℕ → ℕ
at_most v xs = count (λ x. leb x v) xs

abbrev at_least : ℕ → List ℕ → ℕ
at_least v xs = count (λ x. leb v x) xs

-- At least half of the values are no greater, and at least half are no less.
unfoldable pub Halves : ℕ → List ℕ → Type 0
Halves v xs = (length xs ≤ 2 * at_most v xs) × (length xs ≤ 2 * at_least v xs)

at_most-index :
    (v i : ℕ) (xs : List ℕ)
    → IsSortedOn (λ x. x) xs
    → i < length xs
    → get_or xs i 0 ≤ v
    → suc i ≤ at_most v xs
at_most-index v i [] s l h = absurd (omega arith)
at_most-index v zero (x ∷ xs) s l h = ground arith
at_most-index v (suc i) (x ∷ xs) s l h = ground (
  arith,
  get_or_bound (λ y. x ≤ y) xs i s.0 (omega (arith, l)),
  at_most-index v i xs s.1 (omega (arith, l)) h,
)

at_least-All : (v : ℕ) (xs : List ℕ) → All (λ y. v ≤ y) xs → at_least v xs ≡ length xs
at_least-All v [] h = refl
at_least-All v (x ∷ xs) h = ground (arith, h.0, at_least-All v xs h.1)

at_least-index :
    (v i : ℕ) (xs : List ℕ)
    → IsSortedOn (λ x. x) xs
    → i < length xs
    → v ≤ get_or xs i 0
    → length xs ≤ at_least v xs + i
at_least-index v i [] s l h = omega arith
at_least-index v zero (x ∷ xs) s l h =
    let above : All (λ y. v ≤ y) xs =
      All-intro (λ y. v ≤ y) xs (λ a m. omega (arith, h, All-of_In (λ y. x ≤ y) a xs s.0 m)) in
    ground (arith, at_least-All v xs above)
at_least-index v (suc i) (x ∷ xs) s l h =
    ground (arith, at_least-index v i xs s.1 (omega (arith, l)) h)

get_or_step :
    (i : ℕ) (xs : List ℕ)
    → IsSortedOn (λ x. x) xs
    → suc i < length xs
    → get_or xs i 0 ≤ get_or xs (suc i) 0
get_or_step i [] s l = absurd (omega arith)
get_or_step zero (x ∷ xs) s l = get_or_bound (λ y. x ≤ y) xs zero s.0 (omega (arith, l))
get_or_step (suc i) (x ∷ xs) s l = get_or_step i xs s.1 (omega (arith, l))

-- A value between the two in the middle, or the one in the middle, has half of the values on each side.
between_half :
    (v lo hi : ℕ) (xs : List ℕ)
    → lo < length xs
    → hi < length xs
    → get_or (sort_on (λ x. x) xs) lo 0 ≤ v
    → v ≤ get_or (sort_on (λ x. x) xs) hi 0
    → length xs ≤ 2 * suc lo
    → 2 * hi ≤ length xs
    → (length xs ≤ 2 * at_most v xs) × (length xs ≤ 2 * at_least v xs)
between_half v lo hi xs l h below above low high =
    let sorted = sort_on-IsSortedOn (λ x. x) xs in
    let size = length-sort_on (λ x. x) xs in
    let m = at_most-index v lo (sort_on (λ x. x) xs) sorted (omega (arith, l, size)) below in
    let n = at_least-index v hi (sort_on (λ x. x) xs) sorted (omega (arith, h, size)) above in
    let same = count-sort_on (λ x. x) (λ x. leb x v) xs in
    let same' = count-sort_on (λ x. x) (λ x. leb v x) xs in
    (omega (arith, m, same, low), omega (arith, n, same', high, size))

pub median_half :
    (xs : List ℕ)
    → 0 < length xs
    → (length xs ≤ 2 * at_most (median xs) xs) × (length xs ≤ 2 * at_least (median xs) xs)
unfolding median
median_half xs pos =
    let middle = length xs / 2 in
    let sorted = sort_on (λ x. x) xs in
    elim (Bool-cases (length xs % 2 == 1)) [
      | inl odd ↦
          rw (median, odd)
            (between_half (get_or sorted middle 0) middle middle xs (ground arith) (ground arith)
              (omega arith) (omega arith) (ground (arith, odd)) (ground arith))
      | inr even ↦
          let step =
            get_or_step (middle - 1) sorted (sort_on-IsSortedOn (λ x. x) xs)
              (ground (arith, even, pos, length-sort_on (λ x. x) xs)) in
          let next : suc (middle - 1) ≡ middle = ground (arith, even, pos) in
          let ordered : get_or sorted (middle - 1) 0 ≤ get_or sorted middle 0 =
            subst (λ k. get_or sorted (middle - 1) 0 ≤ get_or sorted k 0) next step in
          rw (median, even)
            (between_half
              (get_or sorted (middle - 1) 0
                + (get_or sorted middle 0 - get_or sorted (middle - 1) 0) / 2)
              (middle - 1) middle xs (ground arith) (ground arith) (omega arith)
              (omega (arith, ordered)) (ground (arith, even, pos)) (ground arith))
    ]
