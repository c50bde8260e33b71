-- ===== src/Core/Activation/Safe.antt =====
-- core/activation.go: what a public activation error can show.
use mathlib.Core.Path.{subst}
use mathlib.Core.Option.{some-injective}
use clashpulse.Base.{
  ℕ, ◌≡◌, ◌≤◌, ◌<◌, ◌⊎◌, ◌↔◌, refl, inl, inr, String, true, false, ◌&&◌, ◌||◌, List, [], ◌∷◌,
  Option, none, some, if◌then◌else◌, ltb, ◌==◌, codes, length, All, arith, Bool-cases,
}
use clashpulse.Core.Activation.{
  Stage, Failure, foreign, valid_bytes, is_alpha, is_mark, valid_resource_id, names_resource,
  error_text, Public, as_activation, publish, public_activation, wrap_activation_resource,
}

-- A letter or a digit, and a byte that may stand behind the first one.
pub IsAlpha : ℕ → Type 0
IsAlpha b = ((97 ≤ b) × (b ≤ 122)) ⊎ ((65 ≤ b) × (b ≤ 90)) ⊎ ((48 ≤ b) × (b ≤ 57))

pub IsIdByte : ℕ → Type 0
IsIdByte b = IsAlpha b ⊎ (b ≡ 45) ⊎ (b ≡ 95) ⊎ (b ≡ 46)

-- A resource identifier: 1 to 64 bytes, a letter or digit and then letters, digits, `-`, `_`, `.`.
pub IsIdBytes : List ℕ → Type 0
IsIdBytes [] = ⊥
IsIdBytes (b ∷ bs) = IsAlpha b × All IsIdByte bs × (length bs < 64)

valid_bytes-rest : (bs : List ℕ) → (valid_bytes false bs ≡ true) ↔ All IsIdByte bs
unfolding valid_bytes is_alpha is_mark IsIdByte IsAlpha
valid_bytes-rest [] = (λ h. tt, λ h. refl)
valid_bytes-rest (b ∷ bs) = (
  λ h. (ground (arith, h), (valid_bytes-rest bs).0 (ground (arith, h))),
  λ h. ground (arith, h.0, (valid_bytes-rest bs).1 h.1),
)

-- `validResourceID` accepts exactly the identifiers of 1 to 64 bytes that begin with a letter or a
-- digit and go on with letters, digits, `-`, `_` and `.`.
pub valid_resource_id_iff : (id : String) → (valid_resource_id id ≡ true) ↔ IsIdBytes (codes id)
unfolding valid_resource_id valid_bytes is_alpha is_mark IsIdBytes IsAlpha
valid_resource_id_iff id = by_codes (codes id)
  where
    by_codes :
        (bs : List ℕ)
        → ((if length bs == 0 || ltb 64 (length bs) then false else valid_bytes true bs) ≡ true)
          ↔ IsIdBytes bs
    by_codes [] = (λ h. cc, λ h. absurd h)
    by_codes (b ∷ bs) = (
      λ h. (ground (arith, h), (valid_bytes-rest bs).0 (ground (arith, h)), ground (arith, h)),
      λ h. ground (arith, h.0, (valid_bytes-rest bs).1 h.1, h.2),
    )

-- What may be public of an activation error.
unfoldable pub IsSafe : Public → Public → Type 0
IsSafe f p =
    (p.stage ≡ f.stage)
    × (error_text p.stage p.resource_id ≡ error_text f.stage f.resource_id)
    × ((p.resource_id ≡ "") ⊎ ((names_resource p.stage ≡ true) × IsIdBytes (codes p.resource_id)))

publish-IsSafe : (f p : Public) → publish (some f) ≡ some p → IsSafe f p
unfolding publish IsSafe error_text valid_resource_id
publish-IsSafe f p e = elim (Bool-cases (valid_resource_id f.resource_id)) [
  | inl v ↦ elim (Bool-cases (names_resource f.stage)) [
    | inl n ↦
        subst (IsSafe f) (some-injective f p (rw (publish, v, n) at e))
          (refl, refl, inr (n, (valid_resource_id_iff f.resource_id).0 v))
    | inr n ↦
        subst (IsSafe f) (some-injective (hidden f) p (rw (publish, v, n) at e))
          (refl, rw (error_text, n) refl, inl refl)
  ]
  | inr v ↦ subst (IsSafe f) (some-injective (hidden f) p (rw (publish, v) at e)) (
    refl,
    elim (Bool-cases (names_resource f.stage)) [
      | inl n ↦ rw (error_text, n, v) refl
      | inr n ↦ rw (error_text, n) refl
    ],
    inl refl,
  )
]
  where
    hidden : Public → Public
    hidden f = record { stage = f.stage; resource_id = "" }

-- What is public of a chain of errors: the stage of its first activation error, with the text that
-- that error has, nothing else of the chain, and no identifier but a valid one of a stage that names
-- resources.
pub public_activation-IsSafe :
    (err : List Failure) (p : Public)
    → public_activation err ≡ some p
    → (f : Public) × (as_activation err ≡ some f) × IsSafe f p
unfolding public_activation
public_activation-IsSafe err p e = first (as_activation err) refl e
  where
    first :
        (o : Option Public)
        → as_activation err ≡ o
        → publish o ≡ some p
        → (f : Public) × (as_activation err ≡ some f) × IsSafe f p
    first none q e = cc
    first (some f) q e = (f, q, publish-IsSafe f p e)

-- Errors with these texts around a chain, from the outermost one in.
unfoldable pub around : List String → List Failure → List Failure
around [] err = err
around (t ∷ ts) err = foreign t ∷ around ts err

-- The identifier that is to be shown.
unfoldable pub shown_id : Stage → String → String
shown_id stage id = if names_resource stage && valid_resource_id id then id else ""

-- A resource's identifier that is valid survives from `WrapActivationResource` through any errors
-- that are no activation errors around it; for another stage or identifier none is shown.
pub public_activation-wrap_activation_resource :
    (texts : List String) (stage : Stage) (id : String) (cause : List Failure)
    → public_activation (around texts (wrap_activation_resource stage id cause))
      ≡ some (record { stage = stage; resource_id = shown_id stage id })
unfolding public_activation around as_activation publish wrap_activation_resource shown_id
    valid_resource_id
public_activation-wrap_activation_resource [] stage id cause =
    elim (Bool-cases (names_resource stage)) [
      | inl n ↦ elim (Bool-cases (valid_resource_id id)) [
        | inl v ↦ rw (n, v, v) refl
        | inr v ↦ rw (n, v) refl
      ]
      | inr n ↦ rw (n) refl
    ]
public_activation-wrap_activation_resource (t ∷ ts) stage id cause =
    public_activation-wrap_activation_resource ts stage id cause
