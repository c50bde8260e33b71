-- ===== src/Monitor/Scheduler/Dial.antt =====
-- Early probes after failed dials: what forces one, and that they keep their distance.
use mathlib.Core.Path.{subst}
use clashpulse.Base.{
  ℕ, suc, ◌+◌, ◌≤◌, ◌≡◌, refl, ◌↔◌, String, Bool, true, false, not, ◌&&◌, List, [], ◌∷◌, arith,
  Bool-cases, inl, inr, if◌then◌else◌, eq_refl, ◌=s◌, =s→eq, In, contains, In-contains,
}
use clashpulse.Base.Assoc.{get, put, get-put}
use clashpulse.Monitor.Policy.{Policy}
use clashpulse.Monitor.Scheduler.{
  Shared, is_probed, count_failure, too_soon, report_dial_failure, dial_failure_probe_spacing,
  add_name,
}

-- The report of a failed dial asks for a probe at once.
abbrev pub forces : Policy → Shared → String → ℕ → Bool
forces policy s group now =
    is_probed s group && not (too_soon policy (count_failure s group) group now)

add_name-In : (n : String) (ns : List String) → In n (add_name n ns)
add_name-In n ns = elim (Bool-cases (contains n ns)) [
  | inl e ↦ rw e (In-contains n ns e)
  | inr e ↦ rw e (inl refl)
]

get-put_self : (k : String) (v : ℕ) (m : List (String × ℕ)) → get 0 k (put k v m) ≡ v
get-put_self k v m = ground (arith, get-put 0 k k v m, eq_refl k)

-- What a report changes: nothing for a group that is not probed; otherwise it is counted, and it
-- asks for a probe exactly when the failures have reached the limit and the spacing has passed.
pub record DialContract (policy : Policy) (s : Shared) (group : String) (now : ℕ) (out : Shared)
    : Type 0 where
  pub ignored : is_probed s group ≡ false → out ≡ s
  pub counted :
      is_probed s group ≡ true → get 0 group out.dial_failures ≡ suc (get 0 group s.dial_failures)
  pub trigger : (forces policy s group now ≡ true) ↔ (
      (is_probed s group ≡ true)
      × (policy.max_failures ≤ suc (get 0 group s.dial_failures))
      × (get 0 group s.last_dial_probe + dial_failure_probe_spacing ≤ now))
  pub forced :
      forces policy s group now ≡ true
      → In group out.requests × (out.wake ≡ true) × (get 0 group out.last_dial_probe ≡ now)
  pub held :
      forces policy s group now ≡ false
      → (out.requests ≡ s.requests) × (out.last_dial_probe ≡ s.last_dial_probe)

-- A failed dial is ignored for a group that is not probed and counted for one that is. It asks for a
-- probe exactly when the group is probed, the count reaches `max_failures` and the last forced probe
-- is at least the spacing ago; then the request, the wake-up and the time are recorded, and
-- otherwise requests and times are as before.
pub report_dial_failure-contract :
    (policy : Policy) (s : Shared) (group : String) (now : ℕ)
    → DialContract policy s group now (report_dial_failure policy s group now)
unfolding report_dial_failure
report_dial_failure-contract policy s group now = record {
  ignored = λ e. ground arith;
  counted =
      λ e. ground (arith, get-put_self group (suc (get 0 group s.dial_failures)) s.dial_failures);
  trigger = (
    λ h. ground (arith, get-put_self group (suc (get 0 group s.dial_failures)) s.dial_failures),
    λ h. ground (arith, get-put_self group (suc (get 0 group s.dial_failures)) s.dial_failures),
  );
  forced =
      λ f. ground (arith, add_name-In group s.requests, get-put_self group now s.last_dial_probe);
  held = λ f. ground arith;
}

-- A report leaves the times of the other groups as they are.
report_dial_failure-others :
    (policy : Policy) (s : Shared) (other group : String) (now : ℕ)
    → (other =s group) ≡ false
    → get 0 group (report_dial_failure policy s other now).last_dial_probe
      ≡ get 0 group s.last_dial_probe
unfolding report_dial_failure
report_dial_failure-others policy s other group now n =
    ground (arith, n, get-put 0 other group now s.last_dial_probe)

-- The times of a run of reports, each of a group at an instant, at which a probe of one group is
-- forced.
unfoldable pub forced_times : Policy → Shared → String → List (String × ℕ) → List ℕ
forced_times policy s group [] = []
forced_times policy s group ((other, now) ∷ later) =
    let rest = forced_times policy (report_dial_failure policy s other now) group later in
    if other =s group && forces policy s other now then now ∷ rest else rest

-- Each time comes at least the spacing after the one before, the first after `last`.
abbrev pub SpacedFrom : ℕ → List ℕ → Type 0
SpacedFrom last [] = Unit
SpacedFrom last (t ∷ ts) = (last + dial_failure_probe_spacing ≤ t) × SpacedFrom t ts

-- Over any sequence of reports, of any groups in any order, each forced probe of a group comes at
-- least the spacing after the one before it of that group, the first after the last one recorded.
pub forced_times-spaced :
    (policy : Policy) (s : Shared) (group : String) (reports : List (String × ℕ))
    → SpacedFrom (get 0 group s.last_dial_probe) (forced_times policy s group reports)
unfolding forced_times
forced_times-spaced policy s group [] = tt
forced_times-spaced policy s group ((other, now) ∷ later) =
    let next = report_dial_failure policy s other now in
    let c = report_dial_failure-contract policy s other now in
    let rest = forced_times-spaced policy next group later in
    elim (Bool-cases (other =s group)) [
      | inr n ↦ rw n (
          subst (λ l. SpacedFrom l (forced_times policy next group later))
            (report_dial_failure-others policy s other group now n) rest)
      | inl e ↦
          let same = =s→eq other group e in
          elim (Bool-cases (forces policy s other now)) [
            | inl f ↦
                rw (e, f)
                  (
                    subst (λ g. get 0 g s.last_dial_probe + dial_failure_probe_spacing ≤ now) same
                        (c.trigger.0 f).2,
                    subst (λ l. SpacedFrom l (forced_times policy next group later))
                        (subst (λ g. get 0 g next.last_dial_probe ≡ now) same (c.forced f).2) rest,
                  )
            | inr f ↦
                rw (e, f)
                  (subst (λ l. SpacedFrom (get 0 group l) (forced_times policy next group later))
                    (c.held f).1 rest)
          ]
    ]
