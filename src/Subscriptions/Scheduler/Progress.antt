-- ===== src/Subscriptions/Scheduler/Progress.antt =====
-- subscriptions/scheduler.go: a goroutine that waits is not stuck behind its workers, and no due
-- subscription is passed over.
use mathlib.Core.Path.{subst}
use mathlib.Core.Option.{some-injective}
use clashpulse.Base.{
  ℕ, zero, suc, none, ◌∙◌, Option-cases, ◌+◌, ◌*◌, ◌≤◌, ◌<◌, ◌≡◌, refl, sym, ap, ◌⊎◌, String, Bool,
  true, false, not, ◌&&◌, List, [], ◌∷◌, ◌++◌, Option, some, ltb, lt→ltb, ◌=s◌, length, arith,
  Bool-cases, inl, inr, contains, length-append,
}
use clashpulse.Subscriptions.Due.{Subscribed, due_ids, contains-due_ids, IsDue}
use clashpulse.Subscriptions.Scheduler.{
  Run, Reading, Job, refresh, resource, Phase, Event, round, timer, wake, receive, take, report,
  head, waiting, step, step_loop, step_waiting, receive_from, take_from, pick, report_picked,
  complete, send_due, send_resource, arm, dispatch, external_next, is_past,
}
use clashpulse.Base.{In}

-- The steps left until every job is reported and received.
unfoldable pub steps_left : Run → ℕ
steps_left s = 3 * length s.jobs + 2 * length s.running + length s.completed

-- A step of a worker, or the goroutine's receipt of a report.
unfoldable pub IsWork : Event → Type 0
IsWork take = Unit
IsWork (report n) = Unit
IsWork receive = Unit
IsWork e = ⊥

-- A step that is not taken changes nothing, and one that is taken brings the end one step nearer.
unfoldable pub IsNearer : Run → Option Run → Type 0
IsNearer s none = Unit
IsNearer s (some t) = steps_left s ≡ suc (steps_left t)

IsNearer-step :
    (s : Run) (o : Option Run)
    → ((t : Run) → o ≡ some t → steps_left s ≡ suc (steps_left t))
    → IsNearer s o
unfolding IsNearer
IsNearer-step s none f = tt
IsNearer-step s (some t) f = f t refl

-- A step that works off the jobs can be taken.
pub CanWork : ℕ → Run → Type 0
CanWork workers s =
    (e : Event) × (t : Run) × IsWork e
    × (step workers e s ≡ some t)
    × (steps_left s ≡ suc (steps_left t))

steps_left-complete : (j : Job) (s : Run) → steps_left (complete j s) ≡ steps_left s
unfolding steps_left complete
steps_left-complete resource s = refl
steps_left-complete (refresh id) s = refl

-- One job leaves the list that `pick` is given.
pick-length :
    (n : ℕ) (js rest : List Job) (j : Job)
    → pick n js ≡ some (j, rest)
    → length js ≡ suc (length rest)
unfolding pick
pick-length n [] rest j e = cc
pick-length zero (k ∷ ks) rest j e = ap (λ p. suc (length (p.1))) (some-injective _ _ e)
pick-length (suc n) (k ∷ ks) rest j e = elim (Option-cases (pick n ks)) [
  | inl q ↦ cc (rw (pick, q) at e)
  | inr (p, q) ↦
      let same : k ∷ p.1 ≡ rest =
        ap (λ z. z.1) (some-injective (p.0, k ∷ p.1) (j, rest) (rw (pick, q) at e)) in
      ap suc (pick-length n ks (p.1) (p.0) q) ∙ ap (λ z. suc (length z)) same
]

take_from-nearer :
    (js : List Job) (s t : Run)
    → js ≡ s.jobs
    → take_from js s ≡ some t
    → steps_left s ≡ suc (steps_left t)
unfolding take_from steps_left
take_from-nearer [] s t q e = cc
take_from-nearer (j ∷ js) s t q e =
    subst (λ z. steps_left s ≡ suc (steps_left z)) (some-injective _ _ e)
      (omega (arith, ap length q, length-append s.running (j ∷ [])))

report_picked-nearer :
    (n : ℕ) (o : Option (Job × List Job)) (s t : Run)
    → pick n s.running ≡ o
    → report_picked o s ≡ some t
    → steps_left s ≡ suc (steps_left t)
unfolding report_picked steps_left
report_picked-nearer n none s t q e = cc
report_picked-nearer n (some (j, js)) s t q e =
    subst (λ z. steps_left s ≡ suc (steps_left z)) (some-injective _ _ e)
      (omega (arith, pick-length n s.running js j q, length-append s.completed (j ∷ [])))

receive_from-nearer :
    (js : List Job) (s t : Run)
    → js ≡ s.completed
    → receive_from js s ≡ some t
    → steps_left s ≡ suc (steps_left t)
unfolding receive_from steps_left
receive_from-nearer [] s t q e = cc
receive_from-nearer (j ∷ js) s t q e =
    subst (λ z. steps_left s ≡ suc (steps_left z)) (some-injective _ _ e)
      (omega
        (arith, ap length q, steps_left-complete j (record s { completed = js; phase = head })))

module _ (workers : ℕ) where
  -- Every step of a worker and every receipt brings the end one step nearer.
  work_nearer :
      (e : Event) (s t : Run)
      → IsWork e
      → step workers e s ≡ some t
      → steps_left s ≡ suc (steps_left t)
  unfolding IsWork step step_loop step_waiting
  work_nearer take s t w e = elim (Bool-cases (ltb (length s.running) workers)) [
    | inl l ↦ take_from-nearer s.jobs s t refl (rw (step, l) at e)
    | inr f ↦ cc (rw (step, f) at e)
  ]
  work_nearer (report n) s t w e = elim (Bool-cases (ltb (length s.completed) workers)) [
    | inl l ↦ report_picked-nearer n (pick n s.running) s t refl (rw (step, l) at e)
    | inr f ↦ cc (rw (step, f) at e)
  ]
  work_nearer receive s t w e = received s.phase e
    where
      received :
          (p : Phase) → step_loop workers p receive s ≡ some t → steps_left s ≡ suc (steps_left t)
      received head q = cc
      received (waiting d) q = receive_from-nearer s.completed s t refl q
  work_nearer (round a b) s t w e = absurd w
  work_nearer (timer now) s t w e = absurd w
  work_nearer wake s t w e = absurd w

  can_take :
      (js : List Job) (s : Run)
      → js ≡ s.jobs
      → 0 < length js
      → length s.running < workers
      → CanWork workers s
  unfolding CanWork IsWork step take_from steps_left
  can_take [] s e pos l = absurd (omega arith)
  can_take (j ∷ js) s e pos l = (
    take,
    record s { jobs = js; running = s.running ++ j ∷ [] },
    tt,
    rw (lt→ltb (length s.running) workers l, sym e) refl,
    omega (arith, ap length e, length-append s.running (j ∷ [])),
  )

  can_report :
      (js : List Job) (s : Run)
      → js ≡ s.running
      → 0 < length js
      → length s.completed < workers
      → CanWork workers s
  unfolding CanWork IsWork step pick report_picked steps_left
  can_report [] s e pos l = absurd (omega arith)
  can_report (j ∷ js) s e pos l = (
    report 0,
    record s { running = js; completed = s.completed ++ j ∷ [] },
    tt,
    rw (lt→ltb (length s.completed) workers l, sym e) refl,
    omega (arith, ap length e, length-append s.completed (j ∷ [])),
  )

  can_receive :
      (js : List Job) (s : Run) (d : Option ℕ)
      → js ≡ s.completed
      → s.phase ≡ waiting d
      → 0 < length js
      → CanWork workers s
  unfolding CanWork IsWork step step_loop step_waiting receive_from steps_left
  can_receive [] s d e p pos = absurd (omega arith)
  can_receive (j ∷ js) s d e p pos = (
    receive,
    complete j (record s { completed = js; phase = head }),
    tt,
    rw (p, sym e) refl,
    omega (arith, ap length e, steps_left-complete j (record s { completed = js; phase = head })),
  )

  can_work :
      (s : Run) (d : Option ℕ)
      → 0 < workers
      → s.phase ≡ waiting d
      → 0 < steps_left s
      → CanWork workers s
  unfolding steps_left
  can_work s d pos p busy = elim (Bool-cases (ltb 0 (length s.completed))) [
    | inl c ↦ can_receive s.completed s d refl p (ground (arith, c))
    | inr c ↦ elim (Bool-cases (ltb 0 (length s.running))) [
      | inl r ↦ can_report s.running s refl (ground (arith, r)) (ground (arith, c, pos))
      | inr r ↦ can_take s.jobs s refl (ground (arith, c, r, busy)) (ground (arith, r, pos))
    ]
  ]

  -- While the goroutine waits and some job is in flight, a worker can take or report a job or the
  -- goroutine can receive a report; and whichever of these steps is taken, a report by any of the
  -- workers, it brings the end of the jobs one step nearer: full channels never leave the scheduler stuck.
  pub waiting_progresses :
      (s : Run) (d : Option ℕ)
      → 0 < workers
      → s.phase ≡ waiting d
      → 0 < steps_left s
      → CanWork workers s
        × IsNearer s (step workers take s)
        × IsNearer s (step workers receive s)
        × ((n : ℕ) → IsNearer s (step workers (report n) s))
  unfolding IsWork
  waiting_progresses s d pos p busy = (
    can_work s d pos p busy,
    IsNearer-step s (step workers take s) (λ t q. work_nearer take s t tt q),
    IsNearer-step s (step workers receive s) (λ t q. work_nearer receive s t tt q),
    λ n. IsNearer-step s (step workers (report n) s) (λ t q. work_nearer (report n) s t tt q),
  )

  -- The identifier is pending, or the queue is full.
  pub IsSent : String → Run → Type 0
  IsSent x s = (contains x s.pending ≡ true) ⊎ (workers ≤ length s.jobs)

  send_due-keeps :
      (x : String) (ids : List String) (blocked : Bool) (s : Run)
      → IsSent x s
      → IsSent x ((send_due workers ids blocked s).0)
  unfolding send_due IsSent
  send_due-keeps x [] blocked s h = h
  send_due-keeps x (id ∷ ids) blocked s h = elim (Bool-cases (ltb (length s.jobs) workers)) [
    | inl t ↦
        rw (send_due, t)
          (send_due-keeps x ids blocked
            (record s { jobs = s.jobs ++ refresh id ∷ []; pending = id ∷ s.pending })
            (ground (arith, h, t)))
    | inr f ↦ rw (send_due, f) (send_due-keeps x ids true s h)
  ]

  send_due-IsSent :
      (x : String) (ids : List String) (blocked : Bool) (s : Run)
      → contains x ids ≡ true
      → IsSent x ((send_due workers ids blocked s).0)
  unfolding send_due IsSent
  send_due-IsSent x [] blocked s m = cc
  send_due-IsSent x (id ∷ ids) blocked s m = elim (Bool-cases (ltb (length s.jobs) workers)) [
    | inl t ↦
        rw (send_due, t)
          (elim (Bool-cases (x =s id)) [
            | inl e ↦
                send_due-keeps x ids blocked
                  (record s { jobs = s.jobs ++ refresh id ∷ []; pending = id ∷ s.pending })
                  (inl (ground (arith, e)))
            | inr n ↦
                send_due-IsSent x ids blocked
                  (record s { jobs = s.jobs ++ refresh id ∷ []; pending = id ∷ s.pending })
                  (ground (arith, m, n))
          ])
    | inr f ↦ rw (send_due, f) (send_due-keeps x ids true s (inr (ground (arith, f))))
  ]

  send_resource-keeps :
      (x : String) (due blocked : Bool) (s : Run)
      → IsSent x s
      → IsSent x ((send_resource workers due blocked s).0)
  unfolding send_resource IsSent
  send_resource-keeps x due blocked s h = elim (Bool-cases (not s.resource_pending && due)) [
    | inl p ↦ elim (Bool-cases (ltb (length s.jobs) workers)) [
      | inl t ↦ rw (send_resource, p, t) (ground (arith, h, t))
      | inr f ↦ rw (send_resource, p, f) h
    ]
    | inr q ↦ rw (send_resource, q) h
  ]

  arm-keeps :
      (x : String) (after : Reading) (r : Run × Bool) → IsSent x (r.0) → IsSent x (arm after r)
  unfolding arm IsSent
  arm-keeps x after (s, true) h = h
  arm-keeps x after (s, false) h = h

  -- A round of the loop passes over no subscription: one that is enabled and due, by its last check
  -- and its interval, is pending when the round waits, or the queue of jobs is full.
  pub dispatch_sends :
      (first after : Reading) (s : Run) (r : Subscribed)
      → In r first.records
      → IsDue first.now r
      → IsSent r.id (dispatch workers first after s)
  unfolding dispatch IsSent
  dispatch_sends first after s r m d =
      let due = due_ids first.now s.pending first.records in
      let sent = send_due workers due false s in
      let covered : IsSent r.id sent.0 = elim (Bool-cases (contains r.id s.pending)) [
        | inl p ↦ send_due-keeps r.id due false s (inl p)
        | inr n ↦
            send_due-IsSent r.id due false s
              (contains-due_ids first.now s.pending first.records r m d n)
      ] in
      arm-keeps r.id after
        (send_resource workers (is_past first.now (external_next s first)) sent.1 sent.0)
        (send_resource-keeps r.id (is_past first.now (external_next s first)) sent.1 sent.0 covered)
