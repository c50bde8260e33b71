-- ===== src/Base/Names.antt =====
-- Membership of names: the Boolean test and the proposition agree.
use Prim.Native.String.{String}
use mathlib.Core.Path.{◌≡◌, sym}
use mathlib.Core.Logic.{inl, inr}
use mathlib.Core.Bool.{true, false}
use mathlib.Core.List.{List, [], ◌∷◌, ◌++◌}
use native.Mathlib.Omega.{arith}
use clashpulse.Base.Tests.{Bool-cases}
use clashpulse.Base.Text.{contains, ◌=s◌, =s→eq, eq→=s}
use clashpulse.Base.Lists.{In, IsDistinct, In-append}

pub contains-In : (x : String) (xs : List String) → In x xs → contains x xs ≡ true
contains-In x [] m = absurd m
contains-In x (y ∷ ys) (inl e) = rw (eq→=s x y e)
contains-In x (y ∷ ys) (inr m) = ground (arith, contains-In x ys m)

pub In-contains : (x : String) (xs : List String) → contains x xs ≡ true → In x xs
In-contains x [] h = cc
In-contains x (y ∷ ys) h = elim (Bool-cases (x =s y)) [
  | inl e ↦ inl (=s→eq x y e)
  | inr n ↦ inr (In-contains x ys (rw n at h))
]

pub not-In_of_contains : (x : String) (xs : List String) → contains x xs ≡ false → ¬ In x xs
not-In_of_contains x xs h m = ground (arith, contains-In x xs m)

pub contains-false : (x : String) (xs : List String) → ¬ In x xs → contains x xs ≡ false
contains-false x xs n = elim (Bool-cases (contains x xs)) [
  | inl e ↦ absurd (n (In-contains x xs e))
  | inr e ↦ e
]

pub IsDistinct-append :
    (xs : List String) (y : String) → IsDistinct xs → ¬ In y xs → IsDistinct (xs ++ y ∷ [])
IsDistinct-append [] y d n = ((λ m. m), tt)
IsDistinct-append (x ∷ xs) y d n = (apart, IsDistinct-append xs y d.1 (λ m. n (inr m)))
  where
    apart : ¬ In x (xs ++ y ∷ [])
    apart m = elim (In-append x xs (y ∷ []) m) [
      | inl h ↦ d.0 h
      | inr h ↦ elim h [ inl e ↦ n (inl (sym e)) | inr b ↦ b ]
    ]
