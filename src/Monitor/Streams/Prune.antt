-- ===== src/Monitor/Streams/Prune.antt =====
-- What `prune_streams` keeps.
use mathlib.Core.Option.{some-injective}
use clashpulse.Base.{
  ap, ◌∙◌, ℕ, zero, suc, ◌-◌, ◌≤◌, ◌<◌, ◌≡◌, refl, ◌⊎◌, inl, inr, true, false, List, [], ◌∷◌, some,
  arith, ltb, length, drop, last?, All, Bool-cases, length-drop, last?-drop, max, ◌==◌,
}
use clashpulse.Base.Sort.{IsSortedOn}
use clashpulse.Monitor.Model.{StreamSample}
use clashpulse.Monitor.Streams.{expired_prefix, prune_streams}

abbrev start_of : List StreamSample → ℕ → ℕ → ℕ
start_of samples cutoff window_size =
    max (expired_prefix cutoff samples) (length samples - window_size)

prune_streams-drop :
    (samples : List StreamSample) (cutoff window_size : ℕ)
    → prune_streams samples cutoff window_size ≡ drop (start_of samples cutoff window_size) samples
unfolding prune_streams
prune_streams-drop samples cutoff window_size =
    elim (Bool-cases (start_of samples cutoff window_size == 0)) [
      | inl e ↦ rw e (none_dropped (start_of samples cutoff window_size) (ground arith))
      | inr e ↦ rw e
    ]
  where
    none_dropped : (n : ℕ) → n ≡ 0 → samples ≡ drop n samples
    none_dropped zero h = refl
    none_dropped (suc n) h = absurd (omega arith)

expired_prefix-le : (cutoff : ℕ) (xs : List StreamSample) → expired_prefix cutoff xs ≤ length xs
unfolding expired_prefix
expired_prefix-le cutoff [] = omega arith
expired_prefix-le cutoff (s ∷ ss) = ground (arith, expired_prefix-le cutoff ss)

expired_prefix-lt :
    (cutoff : ℕ) (s : StreamSample) (xs : List StreamSample)
    → last? xs ≡ some s
    → cutoff ≤ s.finished_at
    → expired_prefix cutoff xs < length xs
unfolding expired_prefix
expired_prefix-lt cutoff s [] e h = cc
expired_prefix-lt cutoff s (x ∷ []) e h = ground (arith, ap time (some-injective _ _ e))
  where
    time : StreamSample → ℕ
    time t = t.finished_at
expired_prefix-lt cutoff s (x ∷ y ∷ ys) e h =
    ground (arith, expired_prefix-lt cutoff s (y ∷ ys) e h)

All-later :
    (cutoff : ℕ) (s : StreamSample) (xs : List StreamSample)
    → cutoff ≤ s.finished_at
    → All (λ t. s.finished_at ≤ t.finished_at) xs
    → All (λ t. cutoff ≤ t.finished_at) xs
All-later cutoff s [] h a = tt
All-later cutoff s (x ∷ xs) h a = (omega arith, All-later cutoff s xs h a.1)

-- In order of completion, the expired pulls are a prefix.
fresh-drop :
    (cutoff n : ℕ) (xs : List StreamSample)
    → IsSortedOn (λ s. s.finished_at) xs
    → expired_prefix cutoff xs ≤ n
    → All (λ t. cutoff ≤ t.finished_at) (drop n xs)
unfolding expired_prefix
fresh-drop cutoff zero [] s h = tt
fresh-drop cutoff zero (x ∷ xs) s h = elim (Bool-cases (ltb x.finished_at cutoff)) [
  | inl e ↦ absurd (ground arith)
  | inr e ↦ (ground arith, All-later cutoff x xs (ground arith) s.0)
]
fresh-drop cutoff (suc n) [] s h = tt
fresh-drop cutoff (suc n) (x ∷ xs) s h =
    fresh-drop cutoff n xs s.1
      (expired_step cutoff n x xs (Bool-cases (ltb x.finished_at cutoff)) s h)
  where
    expired_step :
        (cutoff n : ℕ) (x : StreamSample) (xs : List StreamSample)
        → (ltb x.finished_at cutoff ≡ true) ⊎ (ltb x.finished_at cutoff ≡ false)
        → IsSortedOn (λ s. s.finished_at) (x ∷ xs)
        → expired_prefix cutoff (x ∷ xs) ≤ suc n
        → expired_prefix cutoff xs ≤ n
    expired_step cutoff n x xs (inl e) s h = ground arith
    expired_step cutoff n x [] (inr e) s h = omega arith
    expired_step cutoff n x (y ∷ ys) (inr e) s h = ground arith

-- What is kept of pulls that are in order of completion.
pub record Pruned (samples : List StreamSample) (cutoff window_size : ℕ) (out : List StreamSample)
    : Type 0 where
  pub bounded : length out ≤ window_size
  pub fresh : All (λ s. cutoff ≤ s.finished_at) out
  pub newest :
      (s : StreamSample)
      → last? samples ≡ some s
      → cutoff ≤ s.finished_at
      → 0 < window_size
      → last? out ≡ some s

-- Of pulls in order of completion, pruning keeps at most the window, none finished before the cutoff,
-- and the newest one if that is not expired and the window is positive.
pub prune_streams-Pruned :
    (samples : List StreamSample) (cutoff window_size : ℕ)
    → IsSortedOn (λ s. s.finished_at) samples
    → Pruned samples cutoff window_size (prune_streams samples cutoff window_size)
prune_streams-Pruned samples cutoff window_size sorted = rw prune_streams-drop (record {
  bounded = omega (arith, length-drop (start_of samples cutoff window_size) samples);
  fresh = fresh-drop cutoff (start_of samples cutoff window_size) samples sorted (omega arith);
  newest = λ s e f w. kept s e f w;
})
  where
    kept :
        (s : StreamSample)
        → last? samples ≡ some s
        → cutoff ≤ s.finished_at
        → 0 < window_size
        → last? (drop (start_of samples cutoff window_size) samples) ≡ some s
    kept s e f w =
        last?-drop (start_of samples cutoff window_size) samples
          (omega (arith, expired_prefix-lt cutoff s samples e f))
        ∙ e
