-- ===== src/Base/Assoc.antt =====
-- Go maps with string keys, as association lists in which a key's first entry counts.
use clashpulse.Base.Tests.{if◌then◌else◌}
use clashpulse.Base.Text.{◌=s◌}
use Prim.Native.String.{String}
use mathlib.Core.Path.{◌≡◌, refl}
use mathlib.Core.Option.{Option, none, some}
use mathlib.Core.List.{List, [], ◌∷◌}
use native.Mathlib.Omega.{arith}
use text.Mathlib.TextEquality.{eq_iff}

module _ {ℓ} {V : Type ℓ} where
  unfoldable pub lookup : String → List (String × V) → Option V
  lookup k [] = none
  lookup k ((j, v) ∷ m) = if j =s k then some v else lookup k m

  unfoldable pub put : String → V → List (String × V) → List (String × V)
  put k v [] = (k, v) ∷ []
  put k v ((j, w) ∷ m) = if j =s k then (k, v) ∷ m else (j, w) ∷ put k v m

  -- `delete(m, k)`
  unfoldable pub remove : String → List (String × V) → List (String × V)
  remove k [] = []
  remove k ((j, w) ∷ m) = if j =s k then remove k m else (j, w) ∷ remove k m

  abbrev or_else : V → Option V → V
  or_else d none = d
  or_else d (some v) = v

  -- `m[k]`, which is the zero value where `k` is missing.
  unfoldable pub get : V → String → List (String × V) → V
  unfolding lookup
  get d k m = or_else d (lookup k m)

  abbrev pub keys : List (String × V) → List String
  keys [] = []
  keys ((k, v) ∷ m) = k ∷ keys m

  pub lookup-put :
      (k j : String) (v : V) (m : List (String × V))
      → lookup j (put k v m) ≡ (if k =s j then some v else lookup j m)
  unfolding lookup put
  lookup-put k j v [] = refl
  lookup-put k j v ((i, w) ∷ m) =
      ground (arith, eq_iff k j, eq_iff i k, eq_iff i j, lookup-put k j v m)

  pub lookup-remove :
      (k j : String) (m : List (String × V))
      → lookup j (remove k m) ≡ (if k =s j then none else lookup j m)
  unfolding lookup remove
  lookup-remove k j [] = ground arith
  lookup-remove k j ((i, w) ∷ m) =
      ground (arith, eq_iff k j, eq_iff i k, eq_iff i j, lookup-remove k j m)

  pub get-put :
      (d : V) (k j : String) (v : V) (m : List (String × V))
      → get d j (put k v m) ≡ (if k =s j then v else get d j m)
  unfolding get
  get-put d k j v m = ground (arith, lookup-put k j v m)
