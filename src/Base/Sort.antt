-- ===== src/Base/Sort.antt =====
-- `sort.SliceStable` by a numeric key, as a stable insertion sort, and what a sorted list gives.
use mathlib.Core.Path.{◌≡◌, refl, ap, ◌∙◌}
use mathlib.Core.Bool.{Bool}
use Prim.Native.Nat.{ℕ, zero, suc, ◌≤◌}
use mathlib.Core.Logic.{◌⊎◌, inl, inr}
use mathlib.Core.List.{List, [], ◌∷◌, Perm}
use mathlib.Core.List.Perm
use mathlib.Core.Option.{some}
use native.Mathlib.Omega.{arith}
use clashpulse.Base.Tests.{if◌then◌else◌, Bool-cases, ltb}
use clashpulse.Base.Lists.{length, drop, last?, All, In}

-- How many elements pass a test.
abbrev pub count {ℓ} : {A : Type ℓ} → (A → Bool) → List A → ℕ
count p [] = 0
count p (x ∷ xs) = if p x then suc (count p xs) else count p xs

module _ {A : Type 0} (key : A → ℕ) where
  -- `x` goes before the first element that is not smaller, so equal keys keep their order.
  pub insert_on : A → List A → List A
  insert_on x [] = x ∷ []
  insert_on x (y ∷ ys) = if ltb (key y) (key x) then y ∷ insert_on x ys else x ∷ y ∷ ys

  unfoldable pub sort_on : List A → List A
  unfolding insert_on
  sort_on [] = []
  sort_on (x ∷ xs) = insert_on x (sort_on xs)

  abbrev pub IsSortedOn : List A → Type 0
  IsSortedOn [] = Unit
  IsSortedOn (x ∷ xs) = All (λ y. key x ≤ key y) xs × IsSortedOn xs

  insert_on-perm : (x : A) (ys : List A) → Perm (insert_on x ys) (x ∷ ys)
  unfolding insert_on
  insert_on-perm x [] = Perm.refl (x ∷ [])
  insert_on-perm x (y ∷ ys) = elim (Bool-cases (ltb (key y) (key x))) [
    | inl e ↦ rw e (Perm.trans (Perm.cons y (insert_on-perm x ys)) (Perm.swap x y ys))
    | inr e ↦ rw e (Perm.refl (x ∷ y ∷ ys))
  ]

  pub sort_on-perm : (xs : List A) → Perm (sort_on xs) xs
  unfolding sort_on
  sort_on-perm [] = Perm.refl []
  sort_on-perm (x ∷ xs) = Perm.trans (insert_on-perm x (sort_on xs)) (Perm.cons x (sort_on-perm xs))

  count-insert_on :
      (p : A → Bool) (x : A) (ys : List A) → count p (insert_on x ys) ≡ count p (x ∷ ys)
  unfolding insert_on
  count-insert_on p x [] = refl
  count-insert_on p x (y ∷ ys) = ground (arith, count-insert_on p x ys)

  pub count-sort_on : (p : A → Bool) (xs : List A) → count p (sort_on xs) ≡ count p xs
  unfolding sort_on
  count-sort_on p [] = refl
  count-sort_on p (x ∷ xs) =
      count-insert_on p x (sort_on xs) ∙ ap (λ n. if p x then suc n else n) (count-sort_on p xs)

  length-insert_on : (x : A) (ys : List A) → length (insert_on x ys) ≡ suc (length ys)
  unfolding insert_on
  length-insert_on x [] = refl
  length-insert_on x (y ∷ ys) = ground (arith, length-insert_on x ys)

  pub length-sort_on : (xs : List A) → length (sort_on xs) ≡ length xs
  unfolding sort_on
  length-sort_on [] = refl
  length-sort_on (x ∷ xs) = omega (arith, length-insert_on x (sort_on xs), length-sort_on xs)

  In-insert_on : (a x : A) (ys : List A) → In a (insert_on x ys) → (a ≡ x) ⊎ In a ys
  unfolding insert_on
  In-insert_on a x [] m = m
  In-insert_on a x (y ∷ ys) m = ground (arith, In-insert_on a x ys)

  insert_on-In : (a x : A) (ys : List A) → (a ≡ x) ⊎ In a ys → In a (insert_on x ys)
  unfolding insert_on
  insert_on-In a x [] m = m
  insert_on-In a x (y ∷ ys) m = ground (arith, insert_on-In a x ys)

  pub In-sort_on : (a : A) (xs : List A) → In a (sort_on xs) → In a xs
  unfolding sort_on
  In-sort_on a [] m = m
  In-sort_on a (x ∷ xs) m = elim (In-insert_on a x (sort_on xs) m) [
    | inl e ↦ inl e
    | inr h ↦ inr (In-sort_on a xs h)
  ]

  pub sort_on-In : (a : A) (xs : List A) → In a xs → In a (sort_on xs)
  unfolding sort_on
  sort_on-In a [] m = m
  sort_on-In a (x ∷ xs) (inl e) = insert_on-In a x (sort_on xs) (inl e)
  sort_on-In a (x ∷ xs) (inr m) = insert_on-In a x (sort_on xs) (inr (sort_on-In a xs m))

  above :
      (x y : A) (ys : List A)
      → key x ≤ key y
      → All (λ z. key y ≤ key z) ys
      → All (λ z. key x ≤ key z) ys
  above x y [] h t = tt
  above x y (z ∷ zs) h t = (omega arith, above x y zs h t.1)

  insert_on_above :
      (x y : A) (ys : List A)
      → key y ≤ key x
      → All (λ z. key y ≤ key z) ys
      → All (λ z. key y ≤ key z) (insert_on x ys)
  unfolding insert_on
  insert_on_above x y [] h t = (h, tt)
  insert_on_above x y (z ∷ zs) h t = ground (arith, insert_on_above x y zs h t.1)

  insert_on-IsSortedOn : (x : A) (ys : List A) → IsSortedOn ys → IsSortedOn (insert_on x ys)
  unfolding insert_on
  insert_on-IsSortedOn x [] s = (tt, tt)
  insert_on-IsSortedOn x (y ∷ ys) s =
      ground (arith, insert_on-IsSortedOn x ys s.1, insert_on_above x y ys, above x y ys)

  pub sort_on-IsSortedOn : (xs : List A) → IsSortedOn (sort_on xs)
  unfolding sort_on
  sort_on-IsSortedOn [] = tt
  sort_on-IsSortedOn (x ∷ xs) = insert_on-IsSortedOn x (sort_on xs) (sort_on-IsSortedOn xs)

  pub drop-IsSortedOn : (n : ℕ) (xs : List A) → IsSortedOn xs → IsSortedOn (drop n xs)
  drop-IsSortedOn zero xs s = s
  drop-IsSortedOn (suc n) [] s = s
  drop-IsSortedOn (suc n) (x ∷ xs) s = drop-IsSortedOn n xs s.1

  -- The last element of a sorted list has the greatest key.
  pub last?_greatest :
      (a b : A) (xs : List A) → IsSortedOn xs → last? xs ≡ some a → In b xs → key b ≤ key a
  last?_greatest a b [] s h m = absurd m
  last?_greatest a b (x ∷ []) s h (inl e) = ground arith
  last?_greatest a b (x ∷ []) s h (inr m) = absurd m
  last?_greatest a b (x ∷ y ∷ xs) s h (inl e) =
      ground (arith, ap key e, last?_greatest a y (y ∷ xs) s.1 h (inl refl))
  last?_greatest a b (x ∷ y ∷ xs) s h (inr m) = last?_greatest a b (y ∷ xs) s.1 h m
