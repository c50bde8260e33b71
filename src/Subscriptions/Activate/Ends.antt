-- ===== src/Subscriptions/Activate/Ends.antt =====
-- subscriptions/fetch.go: how the commit of an activation may end.
use clashpulse.Base.{
  ◌≡◌, refl, ◌∙◌, String, Bool, true, false, not, Option, none, some, is_blank, Bool-cases,
  Option-cases, inl, inr,
}
use clashpulse.Subscriptions.Store.{Bytes, Marker, blank_marker}
use clashpulse.Subscriptions.Store.Generations.{cleanup_applied}
use clashpulse.Subscriptions.Store.Applied.{
  set_applied, restore_applied, mark_activation_pending, clear_activation_pending,
  mark_activation_accepted,
}
use clashpulse.Subscriptions.Activate.{
  World, ActivateError, cleanup_before, not_read, stopped, not_applied, not_stored,
  not_stored_nor_restored, not_stored_nor_cleared, not_finalized, not_finalized_nor_restored,
  not_finalized_nor_pointed_back, not_finalized_nor_cleared, cleanup_after, refused, Activated,
  ActivateIo, with_store, restored, Plan, target_of, cleared, clean_up, accepted,
  not_finalized_after, finalized, not_stored_after, pointed_at, committed,
}
use clashpulse.Subscriptions.Activate.Calls.{
  if_cases, restored-runtime, clear-current, cleared-current, mark-current, accept-current,
  set_applied-current_new, set_applied-current_old, restore_applied-current,
}

-- How an activation may end: with the target active and its profile running, with the previous
-- generation active and its profile running, or with the previous generation active. After a
-- finalization that failed, the runtime or the pointer may be what could not be brought back.
unfoldable pub Ends :
    Marker → Marker → Option Bytes → Option Bytes → Option ActivateError → World → Type 0
Ends target old running before none w = (w.store.current ≡ target) × (w.runtime ≡ running)
Ends target old running before (some (cleanup_after e)) w =
    (w.store.current ≡ target) × (w.runtime ≡ running)
Ends target old running before (some not_stored) w = (w.store.current ≡ old) × (w.runtime ≡ before)
Ends target old running before (some (not_stored_nor_cleared e)) w =
    (w.store.current ≡ old) × (w.runtime ≡ before)
Ends target old running before (some not_finalized) w =
    (w.store.current ≡ old) × (w.runtime ≡ before)
Ends target old running before (some not_finalized_nor_cleared) w =
    (w.store.current ≡ old) × (w.runtime ≡ before)
Ends target old running before (some not_finalized_nor_restored) w = Unit
Ends target old running before (some not_finalized_nor_pointed_back) w = w.runtime ≡ before
Ends target old running before (some not_stored_nor_restored) w = w.store.current ≡ old
Ends target old running before (some (refused e)) w = (w.store.current ≡ old)
Ends target old running before (some (cleanup_before e)) w = (w.store.current ≡ old)
Ends target old running before (some not_read) w = (w.store.current ≡ old)
Ends target old running before (some stopped) w = (w.store.current ≡ old)
Ends target old running before (some not_applied) w = (w.store.current ≡ old)

clean_up-Ends :
    (old : Marker) (running before : Option Bytes) (io : ActivateIo) (p : Plan) (w : World)
    → w.store.current ≡ target_of p
    → w.runtime ≡ running
    → Ends (target_of p) old running before ((clean_up io p w).0) ((clean_up io p w).1)
unfolding clean_up Ends cleanup_applied
clean_up-Ends old running before io p w c r = elim (Bool-cases p.already) [
  | inl t ↦ rw (clean_up, t) (c, r)
  | inr n ↦ rw (clean_up, n) (c, r)
]

accepted-Ends :
    (old : Marker) (running before : Option Bytes) (io : ActivateIo) (p : Plan) (w : World)
    → w.store.current ≡ target_of p
    → w.runtime ≡ running
    → Ends (target_of p) old running before ((accepted io p w).0) ((accepted io p w).1)
unfolding accepted Ends
accepted-Ends old running before io p w c r = elim (Bool-cases p.pending) [
  | inr n ↦ rw (accepted, n) (clean_up-Ends old running before io p w c r)
  | inl t ↦
      let marked = mark_activation_accepted io.accept_readable io.accept_ok w.store in
      let kept : marked.1.current ≡ target_of p =
        accept-current io.accept_readable io.accept_ok w.store ∙ c in
      rw (accepted, t)
        (elim (Option-cases (marked.0)) [
          | inr (e, q) ↦ rw q (kept, r)
          | inl q ↦
              let done = clear_activation_pending io.clear_ok (marked.1) in
              let kept' : done.1.current ≡ target_of p =
                clear-current io.clear_ok (marked.1) ∙ kept in
              rw q (elim (Option-cases (done.0)) [
                | inr (e, q') ↦ rw q' (kept', r)
                | inl q' ↦
                    rw q' (clean_up-Ends old running before io p (with_store w (done.1)) kept' r)
              ])
        ])
]

module _ (hash : Bytes → String) where
  not_finalized_after-Ends :
      (running : Option Bytes) (io : ActivateIo) (p : Plan) (w : World)
      → (is_blank p.previous.id ≡ true → p.previous ≡ blank_marker)
      → (p.already ≡ true → w.store.current ≡ p.previous)
      → Ends
          (target_of p)
          p.previous
          running
          (some p.previous_profile)
          ((not_finalized_after hash io p w).0)
          ((not_finalized_after hash io p w).1)
  unfolding not_finalized_after Ends restored
  not_finalized_after-Ends running io p w b a = elim (Bool-cases io.restore_ok) [
    | inr n ↦ rw (not_finalized_after, n) _
    | inl t ↦ elim (Bool-cases p.already) [
      | inl u ↦ rw (not_finalized_after, t, u) (a u, refl)
      | inr u ↦
          let pointed = restore_applied hash io.back_readable io.back_ok p.previous w.store in
          let ran = restored-runtime io p.previous_profile w t in
          rw (not_finalized_after, t, u)
            (elim (Option-cases (pointed.0)) [
              | inr (e, q) ↦ rw q ran
              | inl q ↦
                  let back : pointed.1.current ≡ p.previous =
                    restore_applied-current hash io.back_readable io.back_ok p.previous w.store b
                      q in
                  let kept : (cleared io p (pointed.1)).1.current ≡ p.previous =
                    cleared-current io p (pointed.1) ∙ back in
                  rw q (elim (Option-cases ((cleared io p (pointed.1)).0)) [
                    | inr (e, q') ↦ rw q' (kept, ran)
                    | inl q' ↦ rw q' (kept, ran)
                  ])
            ])
    ]
  ]

  finalized-Ends :
      (running : Option Bytes) (io : ActivateIo) (p : Plan) (o : Option Bool) (w : World)
      → (is_blank p.previous.id ≡ true → p.previous ≡ blank_marker)
      → (p.already ≡ true → w.store.current ≡ p.previous)
      → w.store.current ≡ target_of p
      → w.runtime ≡ running
      → Ends
          (target_of p)
          p.previous
          running
          (some p.previous_profile)
          ((finalized hash io p o w).0)
          ((finalized hash io p o w).1)
  unfolding finalized
  finalized-Ends running io p (some false) w b a c r = not_finalized_after-Ends running io p w b a
  finalized-Ends running io p (some true) w b a c r =
      accepted-Ends p.previous running (some p.previous_profile) io p w c r
  finalized-Ends running io p none w b a c r =
      accepted-Ends p.previous running (some p.previous_profile) io p w c r

  not_stored_after-Ends :
      (running : Option Bytes) (io : ActivateIo) (p : Plan) (w : World)
      → w.store.current ≡ p.previous
      → Ends
          (target_of p)
          p.previous
          running
          (some p.previous_profile)
          ((not_stored_after hash io p w).0)
          ((not_stored_after hash io p w).1)
  unfolding not_stored_after Ends restored
  not_stored_after-Ends running io p w c = elim (Bool-cases io.restore_ok) [
    | inr n ↦ rw (not_stored_after, n) c
    | inl t ↦
        let kept : (cleared io p w.store).1.current ≡ p.previous =
          cleared-current io p w.store ∙ c in
        rw (not_stored_after, t)
          (elim (Option-cases ((cleared io p w.store).0)) [
            | inr (e, q) ↦ rw q (kept, restored-runtime io p.previous_profile w t)
            | inl q ↦ rw q (kept, restored-runtime io p.previous_profile w t)
          ])
  ]

  pointed_at-Ends :
      (running : Option Bytes) (io : ActivateIo) (p : Plan) (w : World)
      → (is_blank p.previous.id ≡ true → p.previous ≡ blank_marker)
      → p.already ≡ false
      → w.store.current ≡ p.previous
      → w.runtime ≡ running
      → Ends
          (target_of p)
          p.previous
          running
          (some p.previous_profile)
          ((pointed_at hash io p w).0)
          ((pointed_at hash io p w).1)
  unfolding pointed_at
  pointed_at-Ends running io p w b a c r =
      let set = set_applied hash io.set_readable io.set_ok (target_of p) w.store in
      elim (Option-cases (set.0)) [
        | inr (e, q) ↦
            rw (pointed_at, q)
              (not_stored_after-Ends running io p (with_store w (set.1)) (
                set_applied-current_old hash io.set_readable io.set_ok (target_of p) w.store e q
                ∙ c))
        | inl q ↦
            rw (pointed_at, q)
              (finalized-Ends running io p io.finalize (with_store w (set.1)) b (λ t. cc (t, a))
                (set_applied-current_new hash io.set_readable io.set_ok (target_of p) w.store q) r)
      ]

  pub committed-Ends :
      (running : Option Bytes) (io : ActivateIo) (p : Plan) (w : World)
      → (is_blank p.previous.id ≡ true → p.previous ≡ blank_marker)
      → (p.already ≡ true → p.previous ≡ target_of p)
      → w.store.current ≡ p.previous
      → w.runtime ≡ running
      → Ends
          (target_of p)
          p.previous
          running
          (some p.previous_profile)
          ((committed hash io p w).0)
          ((committed hash io p w).1)
  unfolding committed Ends restored
  committed-Ends running io p w b a c r =
      let E : Activated → Type 0 =
        λ o. Ends (target_of p) p.previous running (some p.previous_profile) (o.0) (o.1) in
      if_cases E p.already _ _
        (λ t. finalized-Ends running io p io.finalize w b (λ u. c) (c ∙ a t) r)
        (λ n.
          if_cases E (not p.pending) _ _ (λ u. pointed_at-Ends running io p w b n c r)
            (λ u.
              let marked =
                mark_activation_pending io.stat_ok io.mark_ok p.previous io.commit_id w.store in
              let kept : marked.1.current ≡ p.previous =
                mark-current io.stat_ok io.mark_ok p.previous io.commit_id w.store ∙ c in
              elim (Option-cases (marked.0)) [
                | inl q ↦ rw q (pointed_at-Ends running io p (with_store w (marked.1)) b n kept r)
                | inr (e, q) ↦ rw q (elim (Bool-cases io.restore_ok) [
                  | inl v ↦ rw v (kept, refl)
                  | inr v ↦ rw v kept
                ])
              ]))
