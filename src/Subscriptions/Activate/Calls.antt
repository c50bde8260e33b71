-- ===== src/Subscriptions/Activate/Calls.antt =====
-- subscriptions/fetch.go: what the calls of `Activate` do to the pointer and the runtime.
use clashpulse.Base.{
  ◌≡◌, ◌⊎◌, refl, sym, ap, ◌∙◌, String, Bool, true, false, not, ◌&&◌, ◌||◌, Option, none, some,
  if◌then◌else◌, is_blank, Bool-cases, Option-cases, inl, inr,
}
use clashpulse.Subscriptions.Model.{StoreError, Result, ok, err}
use clashpulse.Subscriptions.Store.{Bytes, Rec, Store, Marker, Pending, blank_marker}
use clashpulse.Subscriptions.Store.Generations.{
  pair_of, verify_pair, is_blank_pair, matches_at, record_snapshot,
}
use clashpulse.Subscriptions.Store.Applied.{
  pair_of_marker, point, set_applied, restore_applied, mark_activation_pending,
  clear_activation_pending, mark_activation_accepted, set_pending, has_file,
  load_pending_activation, retry_accepted_activation_cleanup, valid_resource_commit_id,
}
use clashpulse.Subscriptions.Activate.{World, ActivateIo, restored, Plan, cleared}

-- A property of both branches is one of the choice.
pub if_cases :
    {A : Type 0} (P : A → Type 0) (c : Bool) (x y : A)
    → (c ≡ true → P x)
    → (c ≡ false → P y)
    → P (if c then x else y)
if_cases P true x y f g = f refl
if_cases P false x y f g = g refl

pub restored-runtime :
    (io : ActivateIo) (previous : Bytes) (w : World)
    → io.restore_ok ≡ true
    → (restored io previous w).runtime ≡ some previous
unfolding restored
restored-runtime io previous w t = rw t refl

pub clear-current :
    (ok_ : Bool) (s : Store) → (clear_activation_pending ok_ s).1.current ≡ s.current
unfolding clear_activation_pending set_pending
clear-current ok_ s = elim (Bool-cases (has_file s.disk.pending_file && not ok_)) [
  | inl t ↦ rw (clear_activation_pending, t) refl
  | inr n ↦ rw (clear_activation_pending, n) refl
]

pub cleared-current :
    (io : ActivateIo) (p : Plan) (s : Store) → (cleared io p s).1.current ≡ s.current
unfolding cleared
cleared-current io p s = elim (Bool-cases p.pending) [
  | inl t ↦ rw (cleared, t) (clear-current io.clear_ok s)
  | inr n ↦ rw (cleared, n) refl
]

pub mark-current :
    (stat_ok write_ok : Bool) (m : Marker) (commit : String) (s : Store)
    → (mark_activation_pending stat_ok write_ok m commit s).1.current ≡ s.current
unfolding mark_activation_pending set_pending
mark-current stat_ok write_ok m commit s = elim (Bool-cases (valid_resource_commit_id commit)) [
  | inr n ↦ rw (mark_activation_pending, n) refl
  | inl v ↦ elim (Bool-cases (not stat_ok || has_file s.disk.pending_file)) [
    | inl t ↦ rw (mark_activation_pending, v, t) refl
    | inr n ↦ elim (Bool-cases write_ok) [
      | inl t ↦ rw (mark_activation_pending, v, n, t) refl
      | inr k ↦ rw (mark_activation_pending, v, n, k) refl
    ]
  ]
]

pub accept-current :
    (readable write_ok : Bool) (s : Store)
    → (mark_activation_accepted readable write_ok s).1.current ≡ s.current
unfolding mark_activation_accepted set_pending
accept-current readable write_ok s = accepted_at (load_pending_activation readable s) refl
  where
    accepted_at :
        (l : Result (Option Pending))
        → load_pending_activation readable s ≡ l
        → (mark_activation_accepted readable write_ok s).1.current ≡ s.current
    accepted_at (err e) q = rw (mark_activation_accepted, q) refl
    accepted_at (ok none) q = rw (mark_activation_accepted, q) refl
    accepted_at (ok (some p)) q = elim (Bool-cases write_ok) [
      | inl t ↦ rw (mark_activation_accepted, q, t) refl
      | inr n ↦ rw (mark_activation_accepted, q, n) refl
    ]

-- A retried clean-up changes the pending marker at most.
pub retry-cases :
    (readable remove_ok : Bool) (s : Store)
    → ((retry_accepted_activation_cleanup readable remove_ok s).1 ≡ s)
      ⊎ ((retry_accepted_activation_cleanup readable remove_ok s).1 ≡ set_pending none s)
unfolding retry_accepted_activation_cleanup clear_activation_pending
retry-cases readable remove_ok s = retried_at (load_pending_activation readable s) refl
  where
    retried_at :
        (l : Result (Option Pending))
        → load_pending_activation readable s ≡ l
        → ((retry_accepted_activation_cleanup readable remove_ok s).1 ≡ s)
          ⊎ ((retry_accepted_activation_cleanup readable remove_ok s).1 ≡ set_pending none s)
    retried_at (err e) q = inl (rw (retry_accepted_activation_cleanup, q) refl)
    retried_at (ok none) q = inl (rw (retry_accepted_activation_cleanup, q) refl)
    retried_at (ok (some p)) q = elim (Bool-cases p.accepted) [
      | inr n ↦ inl (rw (retry_accepted_activation_cleanup, q, n) refl)
      | inl t ↦ elim (Bool-cases (has_file s.disk.pending_file && not remove_ok)) [
        | inl u ↦ inl (rw (retry_accepted_activation_cleanup, q, t, u) refl)
        | inr u ↦ inr (rw (retry_accepted_activation_cleanup, q, t, u) refl)
      ]
    ]

module _ (hash : Bytes → String) where
  pub set_applied-current_new :
      (readable write_ok : Bool) (m : Marker) (s : Store)
      → (set_applied hash readable write_ok m s).0 ≡ none
      → (set_applied hash readable write_ok m s).1.current ≡ m
  unfolding set_applied point
  set_applied-current_new readable write_ok m s q = elim (Option-cases (s.records m.id)) [
    | inl n ↦ cc (rw (set_applied, n) at q)
    | inr (r, e) ↦
        elim (Bool-cases (verify_pair hash readable m.id (pair_of_marker m) (s.disk.dirs m.id))) [
          | inr n ↦ cc (rw (set_applied, e, n) at q)
          | inl v ↦ elim (Bool-cases write_ok) [
            | inr n ↦ cc (rw (set_applied, e, v, n) at q)
            | inl t ↦ rw (set_applied, e, v, t) refl
          ]
        ]
  ]

  pub set_applied-current_old :
      (readable write_ok : Bool) (m : Marker) (s : Store) (x : StoreError)
      → (set_applied hash readable write_ok m s).0 ≡ some x
      → (set_applied hash readable write_ok m s).1.current ≡ s.current
  unfolding set_applied
  set_applied-current_old readable write_ok m s x q = elim (Option-cases (s.records m.id)) [
    | inl n ↦ rw (set_applied, n) refl
    | inr (r, e) ↦
        elim (Bool-cases (verify_pair hash readable m.id (pair_of_marker m) (s.disk.dirs m.id))) [
          | inr n ↦ rw (set_applied, e, n) refl
          | inl v ↦ elim (Bool-cases write_ok) [
            | inr n ↦ rw (set_applied, e, v, n) refl
            | inl t ↦ cc (rw (set_applied, e, v, t) at q)
          ]
        ]
  ]

  pub restore_applied-current :
      (readable change_ok : Bool) (m : Marker) (s : Store)
      → (is_blank m.id ≡ true → m ≡ blank_marker)
      → (restore_applied hash readable change_ok m s).0 ≡ none
      → (restore_applied hash readable change_ok m s).1.current ≡ m
  unfolding restore_applied
  restore_applied-current readable change_ok m s b q = elim (Bool-cases (is_blank m.id)) [
    | inr n ↦
        rw (restore_applied, n)
          (set_applied-current_new readable change_ok m s (rw (restore_applied, n) at q))
    | inl t ↦ elim (Bool-cases change_ok) [
      | inr n ↦ cc (rw (restore_applied, t, n) at q)
      | inl c ↦ rw (restore_applied, t, c) (sym (b t))
    ]
  ]

  pub snapshot-record :
      (readable : Bool) (id : String) (r : Rec) (s : Store)
      → record_snapshot hash readable id s ≡ ok r
      → s.records id ≡ some r
  unfolding record_snapshot
  snapshot-record readable id r s q = elim (Option-cases (s.records id)) [
    | inl n ↦ cc (rw (record_snapshot, n) at q)
    | inr (x, e) ↦ elim (Bool-cases (is_blank_pair (pair_of x))) [
      | inl t ↦ cc (rw (record_snapshot, e, t) at q)
      | inr n ↦ elim (Bool-cases (matches_at hash readable (pair_of x) (s.disk.dirs id))) [
        | inr u ↦ cc (rw (record_snapshot, e, n, u) at q)
        | inl u ↦
            let same : x ≡ r =
              ap (λ z. elim z [ ok y ↦ y | err y ↦ x ]) (rw (record_snapshot, e, n, u) at q) in
            e ∙ ap some same
      ]
    ]
  ]
