-- ===== src/Subscriptions/Due.antt =====
-- subscriptions/store.go: `dueIDs`. The map of records is a list in which no identifier occurs twice;
-- the zero time is 0 in a record and `none` in a result.
use mathlib.Core.Path.{subst}
use clashpulse.Base.{
  ℕ, suc, ◌+◌, ◌≤◌, ◌≡◌, refl, String, Bool, true, false, not, ◌&&◌, ◌||◌, List, [], ◌∷◌, Option,
  none, some, if◌then◌else◌, ltb, leb, ◌==◌, ◌=s◌, =s→eq, eq→=s, sym, ◌⊎◌, ◌↔◌, In, contains,
  text_lt, arith, Bool-cases, inl, inr,
}

pub record Subscribed : Type 0 where
  pub id : String
  pub enabled : Bool
  pub checked_at : ℕ
  pub refresh_interval : ℕ

unfoldable pub due_at : ℕ → Subscribed → ℕ
due_at now r = if r.checked_at == 0 then now else r.checked_at + r.refresh_interval

-- The `continue` of the loop does not skip the record.
unfoldable pub is_considered : List String → Subscribed → Bool
is_considered excluded r = r.enabled && not (contains r.id excluded)

unfoldable pub insert_id : String → List String → List String
insert_id x [] = x ∷ []
insert_id x (y ∷ ys) = if text_lt y x then y ∷ insert_id x ys else x ∷ y ∷ ys

unfoldable pub is_due : ℕ → List String → Subscribed → Bool
unfolding is_considered due_at
is_due now excluded r = is_considered excluded r && leb (due_at now r) now

-- The identifiers that are due, in the order of `sort.Strings`.
unfoldable pub due_ids : ℕ → List String → List Subscribed → List String
unfolding insert_id is_due
due_ids now excluded [] = []
due_ids now excluded (r ∷ rs) =
    let rest = due_ids now excluded rs in
    if is_due now excluded r then insert_id r.id rest else rest

-- `next.IsZero() || due.Before(next)`
abbrev pub earliest : ℕ → Option ℕ → ℕ
earliest due none = due
earliest due (some next) = if ltb due next then due else next

-- The second result, the time of the next refresh.
unfoldable pub next_due : ℕ → List String → List Subscribed → Option ℕ
unfolding is_considered due_at
next_due now excluded [] = none
next_due now excluded (r ∷ rs) =
    let rest = next_due now excluded rs in
    if is_considered excluded r then some (earliest (due_at now r) rest) else rest

-- How often a name stands in a list, and in the keys of the records.
unfoldable pub occurs : String → List String → ℕ
occurs x [] = 0
occurs x (y ∷ ys) = if x =s y then suc (occurs x ys) else occurs x ys

unfoldable pub id_count : String → List Subscribed → ℕ
id_count x [] = 0
id_count x (r ∷ rs) = if x =s r.id then suc (id_count x rs) else id_count x rs

occurs-insert_id :
    (x y : String) (ys : List String)
    → occurs x (insert_id y ys) ≡ (if x =s y then suc (occurs x ys) else occurs x ys)
unfolding occurs insert_id
occurs-insert_id x y [] = refl
occurs-insert_id x y (z ∷ zs) = ground (arith, occurs-insert_id x y zs)

pub occurs-due_ids_le :
    (x : String) (now : ℕ) (excluded : List String) (rs : List Subscribed)
    → occurs x (due_ids now excluded rs) ≤ id_count x rs
unfolding due_ids id_count occurs
occurs-due_ids_le x now excluded [] = omega arith
occurs-due_ids_le x now excluded (r ∷ rs) = elim (Bool-cases (is_due now excluded r)) [
  | inl t ↦
      rw (due_ids, t, occurs-insert_id x r.id (due_ids now excluded rs))
        (ground (arith, occurs-due_ids_le x now excluded rs))
  | inr f ↦ rw (due_ids, f) (ground (arith, occurs-due_ids_le x now excluded rs))
]

is_due-excluded :
    (now : ℕ) (excluded : List String) (r : Subscribed)
    → contains r.id excluded ≡ true
    → is_due now excluded r ≡ false
unfolding is_due is_considered
is_due-excluded now excluded r h = ground (arith, h)

pub due_ids-not_excluded :
    (x : String) (now : ℕ) (excluded : List String) (rs : List Subscribed)
    → contains x excluded ≡ true
    → occurs x (due_ids now excluded rs) ≡ 0
unfolding due_ids occurs is_due is_considered
due_ids-not_excluded x now excluded [] h = refl
due_ids-not_excluded x now excluded (r ∷ rs) h = elim (Bool-cases (is_due now excluded r)) [
  | inl t ↦
      rw (due_ids, t, occurs-insert_id x r.id (due_ids now excluded rs))
        (elim (Bool-cases (x =s r.id)) [
          | inl e ↦ absurd (
              cc (
                t,
                is_due-excluded now excluded r
                    (subst (λ z. contains z excluded ≡ true) (=s→eq x r.id e) h),
              ))
          | inr f ↦ rw f (due_ids-not_excluded x now excluded rs h)
        ])
  | inr f ↦ rw (due_ids, f) (due_ids-not_excluded x now excluded rs h)
]

-- A subscription that is to be refreshed: it is on, and was never checked or not within its interval.
unfoldable pub IsDue : ℕ → Subscribed → Type 0
IsDue now r = (r.enabled ≡ true) × ((r.checked_at ≡ 0) ⊎ (r.checked_at + r.refresh_interval ≤ now))

is_due_iff :
    (now : ℕ) (excluded : List String) (r : Subscribed)
    → (is_due now excluded r ≡ true) ↔ (IsDue now r × (contains r.id excluded ≡ false))
unfolding is_due is_considered due_at IsDue
is_due_iff now excluded r = (λ h. ground (arith, h), λ h. ground (arith, h))

contains-insert_id :
    (x y : String) (ys : List String) → contains x (insert_id y ys) ≡ (x =s y || contains x ys)
unfolding insert_id
contains-insert_id x y [] = refl
contains-insert_id x y (z ∷ zs) = ground (arith, contains-insert_id x y zs)

pub contains-due_ids :
    (now : ℕ) (excluded : List String) (rs : List Subscribed) (r : Subscribed)
    → In r rs
    → IsDue now r
    → contains r.id excluded ≡ false
    → contains r.id (due_ids now excluded rs) ≡ true
unfolding due_ids
contains-due_ids now excluded [] r m d n = absurd m
contains-due_ids now excluded (q ∷ qs) r (inl e) d n =
    rw
      (
        due_ids,
        sym e,
        (is_due_iff now excluded r).1 (d, n),
        contains-insert_id r.id r.id (due_ids now excluded qs),
        eq→=s r.id r.id refl,
      )
      refl
contains-due_ids now excluded (q ∷ qs) r (inr m) d n = elim (Bool-cases (is_due now excluded q)) [
  | inl t ↦
      rw (due_ids, t, contains-insert_id r.id q.id (due_ids now excluded qs))
        (ground (arith, contains-due_ids now excluded qs r m d n))
  | inr f ↦ rw (due_ids, f) (contains-due_ids now excluded qs r m d n)
]

-- What is returned as the next time: the time at which a record that is enabled and not excluded is
-- due, and no such record is due earlier; nothing where there is none.
pub IsEarliest : ℕ → List String → List Subscribed → Option ℕ → Type 0
IsEarliest now excluded rs none = (r : Subscribed) → In r rs → is_considered excluded r ≡ false
IsEarliest now excluded rs (some n) =
    ((r : Subscribed) × In r rs × (is_considered excluded r ≡ true) × (due_at now r ≡ n))
    × ((r : Subscribed) → In r rs → is_considered excluded r ≡ true → n ≤ due_at now r)

-- The second result of `dueIDs` is the earliest time at which an enabled subscription that is not
-- excluded is due, and zero exactly where there is none.
pub next_due-IsEarliest :
    (now : ℕ) (excluded : List String) (rs : List Subscribed)
    → IsEarliest now excluded rs (next_due now excluded rs)
unfolding next_due IsEarliest
next_due-IsEarliest now excluded [] = λ r m. absurd m
next_due-IsEarliest now excluded (q ∷ qs) = elim (Bool-cases (is_considered excluded q)) [
  | inl t ↦
      rw (next_due, t) (taken (next_due now excluded qs) t (next_due-IsEarliest now excluded qs))
  | inr f ↦
      rw (next_due, f) (skipped (next_due now excluded qs) f (next_due-IsEarliest now excluded qs))
]
  where
    taken :
        (o : Option ℕ)
        → is_considered excluded q ≡ true
        → IsEarliest now excluded qs o
        → IsEarliest now excluded (q ∷ qs) (some (earliest (due_at now q) o))
    taken none t h = (
      (q, inl refl, t, refl),
      (λ r m c. elim m [
        | inl e ↦ subst (λ z. due_at now q ≤ due_at now z) (sym e) (omega arith)
        | inr k ↦ cc (h r k, c)
      ]),
    )
    taken (some n) t h = elim (Bool-cases (ltb (due_at now q) n)) [
      | inl l ↦ rw l (
        (q, inl refl, t, refl),
        (λ r m c. elim m [
          | inl e ↦ subst (λ z. due_at now q ≤ due_at now z) (sym e) (omega arith)
          | inr k ↦ ground (arith, h.1 r k c, l)
        ]),
      )
      | inr l ↦ rw l (
        (h.0.0, inr h.0.1, h.0.2, h.0.3),
        (λ r m c. elim m [
          | inl e ↦ subst (λ z. n ≤ due_at now z) (sym e) (ground (arith, l))
          | inr k ↦ h.1 r k c
        ]),
      )
    ]

    skipped :
        (o : Option ℕ)
        → is_considered excluded q ≡ false
        → IsEarliest now excluded qs o
        → IsEarliest now excluded (q ∷ qs) o
    skipped none f h = λ r m. elim m [
      | inl e ↦ subst (λ z. is_considered excluded z ≡ false) (sym e) f
      | inr k ↦ h r k
    ]
    skipped (some n) f h = (
      (h.0.0, inr h.0.1, h.0.2, h.0.3),
      (λ r m c. elim m [
        | inl e ↦ cc (subst (λ z. is_considered excluded z ≡ true) e c, f)
        | inr k ↦ h.1 r k c
      ]),
    )
