-- ===== src/Monitor/Policy/Valid.antt =====
-- What an accepted policy satisfies, and that nothing else is asked of it.
use clashpulse.Base.{
  ℕ, ◌≤◌, ◌<◌, ◌≡◌, ◌↔◌, String, Bool, true, false, Option, none, arith, ◌||◌, =s→eq, eq→=s, List,
  [], ◌∷◌, All, refl,
}
use clashpulse.Monitor.Policy.{
  ℤ, pos, negsuc, is_negative, Policy, Url, valid_policy_name, test_url_ok, stream_url_ok, validate,
  checks, first_error, reaches, switch_steady_stream, min_stream_interval, max_stream_interval,
}

-- The ranges that the rest of the monitor relies on.
pub record IsValid (parse : String → Option Url) (p : Policy) : Type 0 where
  pub url : test_url_ok parse p.test_url ≡ true
  pub name : valid_policy_name p.switch_policy ≡ true
  pub stream :
      p.switch_policy ≡ switch_steady_stream
      → (stream_url_ok parse p.stream_url ≡ true)
        × (min_stream_interval ≤ p.stream_interval)
        × (p.stream_interval ≤ max_stream_interval)
  pub interval : 0 < p.interval
  pub timeout : (0 < p.timeout) × (p.timeout ≤ p.interval)
  pub concurrency : (1 ≤ p.concurrency) × (p.concurrency ≤ 64)
  pub thresholds : (0 < p.threshold) × (0 < p.latency_alert_threshold)
  pub window : 2 ≤ p.window_size
  pub bad_samples : (1 ≤ p.consecutive_bad_samples) × (p.consecutive_bad_samples ≤ p.window_size)
  pub candidate : (2 ≤ p.min_candidate_samples) × (p.min_candidate_samples ≤ p.window_size)
  pub failures : (1 ≤ p.max_failures) × (p.max_failures ≤ p.window_size)
  pub improvement : 0 < p.min_improvement
  pub cooldown : (c : ℕ) × (p.cooldown ≡ pos c)
  pub jitter : (j : ℕ) × (p.jitter ≡ pos j) × (j < p.interval)

first_error-none :
    {E : Type 0} (cs : List (Bool × E)) → first_error cs ≡ none → All (λ c. c.0 ≡ false) cs
first_error-none [] h = tt
first_error-none ((b, e) ∷ cs) h = ground (arith, first_error-none cs)

none_of_checks :
    {E : Type 0} (cs : List (Bool × E)) → All (λ c. c.0 ≡ false) cs → first_error cs ≡ none
none_of_checks [] h = refl
none_of_checks ((b, e) ∷ cs) h = rw h.0 (none_of_checks cs h.1)

cooldown_lem : (z : ℤ) → is_negative z ≡ false → (c : ℕ) × (z ≡ pos c)
cooldown_lem (pos c) h = (c, refl)
cooldown_lem (negsuc c) h = cc

jitter_lem :
    (z : ℤ) (i : ℕ) → is_negative z ≡ false → reaches z i ≡ false → (j : ℕ) × (z ≡ pos j) × (j < i)
jitter_lem (pos c) i h r = (c, refl, ground arith)
jitter_lem (negsuc c) i h r = cc

module _ (parse : String → Option Url) (p : Policy) where
  validate_sound : validate parse p ≡ none → IsValid parse p
  unfolding validate
  validate_sound h = valid (first_error-none (checks parse p) h)
    where
      valid : All (λ c. c.0 ≡ false) (checks parse p) → IsValid parse p
      valid (c0, (c1, (c2, (c3, (c4, (c5, (c6, (c7, (c8, (c9, (c10, (c11, (c12, _))))))))))))) =
          record {
            url = ground arith;
            name = ground arith;
            stream = λ e. ground (arith, eq→=s p.switch_policy switch_steady_stream e);
            interval = ground arith;
            timeout = ground arith;
            concurrency = ground arith;
            thresholds = ground arith;
            window = ground arith;
            bad_samples = ground arith;
            candidate = ground arith;
            failures = ground arith;
            improvement = ground arith;
            cooldown = cooldown_lem p.cooldown (ground arith);
            jitter = jitter_lem p.jitter p.interval (ground arith) (ground arith);
          }

  validate_complete : IsValid parse p → validate parse p ≡ none
  unfolding validate
  validate_complete v = none_of_checks (checks parse p) (
    ground arith,
    (
      ground arith,
      (
        ground (arith, =s→eq p.switch_policy switch_steady_stream, v.stream),
        (
          ground (arith, =s→eq p.switch_policy switch_steady_stream, v.stream),
          (
            ground arith,
            (
              ground arith,
              (
                ground arith,
                (
                  ground arith,
                  (
                    ground arith,
                    (
                      ground arith,
                      (
                        ground arith,
                        (ground arith, (signs p.cooldown p.jitter v.cooldown v.jitter, tt)),
                      ),
                    ),
                  ),
                ),
              ),
            ),
          ),
        ),
      ),
    ),
  )
    where
      signs :
          (c j : ℤ)
          → (n : ℕ) × (c ≡ pos n)
          → (n : ℕ) × (j ≡ pos n) × (n < p.interval)
          → (is_negative c || is_negative j || reaches j p.interval) ≡ false
      signs c j (n, e) (m, f, l) = rw (e, f) (ground arith)

  -- A policy is accepted exactly when it is within the ranges of `IsValid`.
  pub validate_iff : (validate parse p ≡ none) ↔ IsValid parse p
  validate_iff = (validate_sound, validate_complete)
