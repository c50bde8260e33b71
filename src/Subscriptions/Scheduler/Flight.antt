-- ===== src/Subscriptions/Scheduler/Flight.antt =====
-- subscriptions/scheduler.go: the jobs in flight and the sets that `run` keeps of them agree.
use mathlib.Core.Path.{subst}
use mathlib.Core.Option.{some-injective}
use clashpulse.Base.{
  ℕ, zero, suc, ◌+◌, ◌≤◌, ◌≡◌, refl, sym, ap, ◌∙◌, String, Bool, true, false, not, ◌&&◌, List, [],
  ◌∷◌, ◌++◌, Option, none, some, if◌then◌else◌, ltb, ◌=s◌, =s→eq, eq→=s, length, arith, contains,
  Bool-cases, inl, inr, length-append,
}
use clashpulse.Subscriptions.Due.{
  due_ids, occurs, id_count, occurs-due_ids_le, due_ids-not_excluded,
}
use clashpulse.Subscriptions.Scheduler.{
  Job, refresh, resource, head, Run, Reading, send_due, send_resource, arm, dispatch, complete,
  remove, take_from, pick, report_picked, receive_from, external_next, is_past,
}

-- How many jobs of a list refresh a subscription, and how many are the resources'.
unfoldable pub refreshes : String → List Job → ℕ
refreshes x [] = 0
refreshes x (resource ∷ js) = refreshes x js
refreshes x (refresh id ∷ js) = if x =s id then suc (refreshes x js) else refreshes x js

unfoldable pub resources : List Job → ℕ
resources [] = 0
resources (resource ∷ js) = suc (resources js)
resources (refresh id ∷ js) = resources js

refreshes-append :
    (x : String) (xs ys : List Job) → refreshes x (xs ++ ys) ≡ refreshes x xs + refreshes x ys
unfolding refreshes
refreshes-append x [] ys = omega arith
refreshes-append x (resource ∷ xs) ys = refreshes-append x xs ys
refreshes-append x (refresh id ∷ xs) ys = ground (arith, refreshes-append x xs ys)

resources-append : (xs ys : List Job) → resources (xs ++ ys) ≡ resources xs + resources ys
unfolding resources
resources-append [] ys = omega arith
resources-append (resource ∷ xs) ys = omega (arith, resources-append xs ys)
resources-append (refresh id ∷ xs) ys = resources-append xs ys

refreshes-cons :
    (x : String) (j : Job) (js : List Job)
    → refreshes x (j ∷ js) ≡ refreshes x (j ∷ []) + refreshes x js
refreshes-cons x j js = refreshes-append x (j ∷ []) js

resources-cons : (j : Job) (js : List Job) → resources (j ∷ js) ≡ resources (j ∷ []) + resources js
resources-cons j js = resources-append (j ∷ []) js

-- The jobs of a subscription that are queued, held by a worker or reported.
unfoldable pub in_flight : String → Run → ℕ
in_flight x s = refreshes x s.jobs + refreshes x s.running + refreshes x s.completed

unfoldable pub resources_in_flight : Run → ℕ
resources_in_flight s = resources s.jobs + resources s.running + resources s.completed

abbrev pub flag : Bool → ℕ
flag b = if b then 1 else 0

-- Every subscription has as many jobs in flight as it is pending, which is at most one; so has the
-- resources' job; and neither channel nor the workers hold more jobs than there are workers.
pub record IsAccounted (workers : ℕ) (s : Run) : Type 0 where
  pub tracked : (x : String) → in_flight x s ≡ occurs x s.pending
  pub once : (x : String) → occurs x s.pending ≤ 1
  pub resource_tracked : resources_in_flight s ≡ flag s.resource_pending
  pub queued : length s.jobs ≤ workers
  pub held : length s.running ≤ workers
  pub reported : length s.completed ≤ workers

occurs-remove :
    (x id : String) (p : List String) → occurs x (remove id p) ≡ (if x =s id then 0 else occurs x p)
unfolding occurs remove
occurs-remove x id [] = ground arith
occurs-remove x id (y ∷ ys) = elim (Bool-cases (y =s id)) [
  | inl t ↦
      subst (λ z. occurs x (remove id (z ∷ ys)) ≡ (if x =s id then 0 else occurs x (z ∷ ys)))
        (sym (=s→eq y id t)) (rw (remove, eq→=s id id refl) (ground (arith, occurs-remove x id ys)))
  | inr f ↦
      rw (remove, f)
        (elim (Bool-cases (x =s y)) [
          | inl t ↦ rw (t, occurs-remove x id ys, ap (λ z. z =s id) (=s→eq x y t) ∙ f) refl
          | inr g ↦ rw (g, occurs-remove x id ys) refl
        ])
]

occurs-contains : (x : String) (p : List String) → contains x p ≡ false → occurs x p ≡ 0
unfolding occurs
occurs-contains x [] h = refl
occurs-contains x (y ∷ ys) h = ground (arith, occurs-contains x ys)

module _ (workers : ℕ) where
  send_due-IsAccounted :
      (ids : List String) (blocked : Bool) (s : Run)
      → IsAccounted workers s
      → ((x : String) → occurs x ids + occurs x s.pending ≤ 1)
      → IsAccounted workers ((send_due workers ids blocked s).0)
  unfolding send_due occurs in_flight refreshes resources resources_in_flight
  send_due-IsAccounted [] blocked s h d = h
  send_due-IsAccounted (id ∷ ids) blocked s h d = elim (Bool-cases (ltb (length s.jobs) workers)) [
    | inl t ↦
        rw (send_due, t)
          (send_due-IsAccounted ids blocked
            (record s { jobs = s.jobs ++ refresh id ∷ []; pending = id ∷ s.pending })
            (record {
              tracked =
                  λ x. ground (arith, h.tracked x, refreshes-append x s.jobs (refresh id ∷ []));
              once = λ x. ground (arith, d x);
              resource_tracked =
                  omega (arith, h.resource_tracked, resources-append s.jobs (refresh id ∷ []));
              queued = ground (arith, t, length-append s.jobs (refresh id ∷ []));
              held = h.held;
              reported = h.reported;
            })
            (λ x. ground (arith, d x)))
    | inr f ↦ rw (send_due, f) (send_due-IsAccounted ids true s h (λ x. ground (arith, d x)))
  ]

  send_resource-IsAccounted :
      (due blocked : Bool) (s : Run)
      → IsAccounted workers s
      → IsAccounted workers ((send_resource workers due blocked s).0)
  unfolding send_resource in_flight refreshes resources resources_in_flight
  send_resource-IsAccounted due blocked s h = elim (Bool-cases (not s.resource_pending && due)) [
    | inl p ↦ elim (Bool-cases (ltb (length s.jobs) workers)) [
      | inl t ↦
          rw (send_resource, p, t)
            (record {
              tracked = λ x. omega (arith, h.tracked x, refreshes-append x s.jobs (resource ∷ []));
              once = h.once;
              resource_tracked =
                  ground (arith, p, h.resource_tracked, resources-append s.jobs (resource ∷ []));
              queued = ground (arith, t, length-append s.jobs (resource ∷ []));
              held = h.held;
              reported = h.reported;
            })
      | inr f ↦ rw (send_resource, p, f) h
    ]
    | inr q ↦ rw (send_resource, q) h
  ]

  arm-IsAccounted :
      (after : Reading) (r : Run × Bool)
      → IsAccounted workers (r.0)
      → IsAccounted workers (arm after r)
  unfolding arm in_flight resources_in_flight
  arm-IsAccounted after (s, true) h = record {
    tracked = h.tracked;
    once = h.once;
    resource_tracked = h.resource_tracked;
    queued = h.queued;
    held = h.held;
    reported = h.reported;
  }
  arm-IsAccounted after (s, false) h = record {
    tracked = h.tracked;
    once = h.once;
    resource_tracked = h.resource_tracked;
    queued = h.queued;
    held = h.held;
    reported = h.reported;
  }

  pub dispatch-IsAccounted :
      (first after : Reading) (s : Run)
      → ((x : String) → id_count x first.records ≤ 1)
      → IsAccounted workers s
      → IsAccounted workers (dispatch workers first after s)
  unfolding dispatch
  dispatch-IsAccounted first after s m h =
      let due = due_ids first.now s.pending first.records in
      let sent = send_due workers due false s in
      arm-IsAccounted after
        (send_resource workers (is_past first.now (external_next s first)) sent.1 sent.0)
        (send_resource-IsAccounted (is_past first.now (external_next s first)) sent.1 sent.0 (
          send_due-IsAccounted due false s h (λ x. elim (Bool-cases (contains x s.pending)) [
            | inl t ↦
                omega (arith, h.once x, due_ids-not_excluded x first.now s.pending first.records t)
            | inr f ↦ omega (
              arith,
              m x,
              occurs-contains x s.pending f,
              occurs-due_ids_le x first.now s.pending first.records,
            )
          ])))

  pub take_from-IsAccounted :
      (js : List Job) (s t : Run)
      → js ≡ s.jobs
      → ltb (length s.running) workers ≡ true
      → IsAccounted workers s
      → take_from js s ≡ some t
      → IsAccounted workers t
  unfolding take_from in_flight refreshes resources resources_in_flight
  take_from-IsAccounted [] s t e l h g = cc
  take_from-IsAccounted (j ∷ js) s t e l h g =
      subst (IsAccounted workers) (some-injective _ _ g) (record {
        tracked = λ x. omega (
          arith,
          h.tracked x,
          refreshes-cons x j js,
          refreshes-append x s.running (j ∷ []),
          ap (refreshes x) e,
        );
        once = h.once;
        resource_tracked = omega (
          arith,
          h.resource_tracked,
          resources-cons j js,
          resources-append s.running (j ∷ []),
          ap resources e,
        );
        queued = omega (arith, h.queued, ap length e);
        held = ground (arith, l, length-append s.running (j ∷ []));
        reported = h.reported;
      })

  pub receive_from-IsAccounted :
      (js : List Job) (s t : Run)
      → js ≡ s.completed
      → IsAccounted workers s
      → receive_from js s ≡ some t
      → IsAccounted workers t
  unfolding receive_from complete in_flight refreshes resources resources_in_flight
  receive_from-IsAccounted [] s t e h g = cc
  receive_from-IsAccounted (resource ∷ js) s t e h g =
      subst (IsAccounted workers) (some-injective _ _ g) (record {
        tracked = λ x. omega (arith, h.tracked x, ap (refreshes x) e);
        once = h.once;
        resource_tracked = ground (arith, h.resource_tracked, ap resources e);
        queued = h.queued;
        held = h.held;
        reported = omega (arith, h.reported, ap length e);
      })
  receive_from-IsAccounted (refresh id ∷ js) s t e h g =
      subst (IsAccounted workers) (some-injective _ _ g) (record {
        tracked = λ x.
            ground (arith, h.tracked x, h.once x, ap (refreshes x) e, occurs-remove x id s.pending);
        once = λ x. ground (arith, h.once x, occurs-remove x id s.pending);
        resource_tracked = omega (arith, h.resource_tracked, ap resources e);
        queued = h.queued;
        held = h.held;
        reported = omega (arith, h.reported, ap length e);
      })

  -- What `pick` takes out was there, and nothing else is gone.
  pub IsPick : List Job → Option (Job × List Job) → Type 0
  IsPick js none = Unit
  IsPick js (some r) =
      (length js ≡ suc (length (r.1)))
      × ((x : String) → refreshes x js ≡ refreshes x (r.0 ∷ []) + refreshes x (r.1))
      × (resources js ≡ resources (r.0 ∷ []) + resources (r.1))

  pub pick-IsPick : (n : ℕ) (js : List Job) → IsPick js (pick n js)
  unfolding pick IsPick
  pick-IsPick n [] = tt
  pick-IsPick zero (j ∷ js) = (refl, (λ x. refreshes-cons x j js), resources-cons j js)
  pick-IsPick (suc n) (j ∷ js) = later (pick n js) (pick-IsPick n js)
    where
      later :
          (r : Option (Job × List Job))
          → IsPick js r
          → IsPick (j ∷ js) (elim r [ none ↦ none | some (k, rest) ↦ some (k, j ∷ rest) ])
      later none h = tt
      later (some (k, rest)) h = (
        ap suc h.0,
        (λ x. omega (arith, h.1 x, refreshes-cons x j js, refreshes-cons x j rest)),
        omega (arith, h.2, resources-cons j js, resources-cons j rest),
      )

  pub report_picked-IsAccounted :
      (r : Option (Job × List Job)) (s t : Run)
      → IsPick s.running r
      → ltb (length s.completed) workers ≡ true
      → IsAccounted workers s
      → report_picked r s ≡ some t
      → IsAccounted workers t
  unfolding report_picked IsPick in_flight resources_in_flight
  report_picked-IsAccounted none s t p l h g = cc
  report_picked-IsAccounted (some (j, js)) s t p l h g =
      subst (IsAccounted workers) (some-injective _ _ g) (record {
        tracked = λ x. omega (arith, h.tracked x, p.1 x, refreshes-append x s.completed (j ∷ []));
        once = h.once;
        resource_tracked =
            omega (arith, h.resource_tracked, p.2, resources-append s.completed (j ∷ []));
        queued = h.queued;
        held = omega (arith, h.held, p.0);
        reported = ground (arith, l, length-append s.completed (j ∷ []));
      })

  pub to_head-IsAccounted :
      (s : Run) → IsAccounted workers s → IsAccounted workers (record s { phase = head })
  unfolding in_flight resources_in_flight
  to_head-IsAccounted s h = record {
    tracked = h.tracked;
    once = h.once;
    resource_tracked = h.resource_tracked;
    queued = h.queued;
    held = h.held;
    reported = h.reported;
  }
