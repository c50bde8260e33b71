-- ===== src/Subscriptions/Model/Normal.antt =====
-- subscriptions/store.go: what `normalizeSubscription` gives is its own normal form, so that `NewStore`
-- takes what was stored.
use mathlib.Core.Path.{subst}
use clashpulse.Base.{
  ℕ, Option, none, zero, suc, ◌*◌, ◌≡◌, refl, sym, ap, ◌∙◌, String, Bool, true, false, not, ◌||◌,
  if◌then◌else◌, ltb, eq→=s, is_blank, codes, arith, Bool-cases, inl, inr, trim_space,
  trim_space_idem, some,
}
use clashpulse.Monitor.Policy.{Url, ℤ, pos, negsuc}
use clashpulse.Subscriptions.Model.Identifier.{valid_id-trim_space}
use clashpulse.Subscriptions.Model.{
  Subscription, Result, ok, err, StoreError, invalid, second, ◌>>=◌, with_fresh_id, valid_id,
  valid_url, valid_route, valid_user_agent, byte_size, or_default, is_below_zero, check_url,
  check_route, check_times, check_name, check_id, with_id, normalize_subscription,
  same_subscription, same_integer, same_flag, is_same_result, is_normal,
}

ok-injective : (s t : Subscription) → ok s ≡ ok t → s ≡ t
ok-injective s t e = ap (λ r. elim r [ ok x ↦ x | err x ↦ s ]) e

guarded :
    (c : Bool) (e : StoreError) (r : Result Subscription) (t : Subscription)
    → (if c then err e else r) ≡ ok t
    → (c ≡ false) × (r ≡ ok t)
guarded true e r t h = cc
guarded false e r t h = (refl, h)

unless :
    (c : Bool) (e : StoreError) (r : Result Subscription) (t : Subscription)
    → c ≡ false
    → r ≡ ok t
    → (if c then err e else r) ≡ ok t
unless true e r t n h = cc
unless false e r t n h = h

abbrev route_of : String → String
route_of route = if is_blank route then "auto" else route

route_of_idem : (route : String) → route_of (route_of route) ≡ route_of route
route_of_idem route = elim (Bool-cases (is_blank route)) [
  | inl t ↦ rw t refl
  | inr n ↦ rw (n, n) refl
]

abbrev name_of : String → String → String
name_of id name = if is_blank (trim_space name) then id else trim_space name

name_of_idem :
    (id name : String) → trim_space id ≡ id → name_of id (name_of id name) ≡ name_of id name
name_of_idem id name e = elim (Bool-cases (is_blank (trim_space name))) [
  | inl t ↦ rw (t, e) (elim (Bool-cases (is_blank id)) [ inl u ↦ rw u refl | inr u ↦ rw u refl ])
  | inr n ↦ rw (n, trim_space_idem name, n) refl
]

or_default_idem : (d : ℕ) (z : ℤ) → or_default d (or_default d z) ≡ or_default d z
unfolding or_default
or_default_idem zero (pos zero) = refl
or_default_idem (suc d) (pos zero) = refl
or_default_idem d (pos (suc n)) = refl
or_default_idem d (negsuc n) = refl

check_url-ok :
    (parse : String → Option Url) (s t : Subscription)
    → check_url parse s ≡ ok t
    → (t ≡ record s { url = trim_space s.url }) × (check_url parse t ≡ ok t)
unfolding check_url
check_url-ok parse s t e =
    let u = trim_space s.url in
    let s' = record s { url = u } in
    let (v, e1) =
      guarded (not (valid_url parse u s.allow_http)) invalid
        (if not (valid_user_agent s.user_agent) then err invalid else ok s') t e in
    let (a, e2) = guarded (not (valid_user_agent s.user_agent)) invalid (ok s') t e1 in
    let same = ok-injective s' t e2 in
    (
      sym same,
      subst (λ z. check_url parse z ≡ ok z) same
          (unless (not (valid_url parse (trim_space u) s.allow_http)) invalid
            (if not (valid_user_agent s.user_agent)
              then err invalid
              else ok (record s { url = trim_space u }))
            s' (rw (trim_space_idem s.url) v)
            (unless (not (valid_user_agent s.user_agent)) invalid
              (ok (record s { url = trim_space u })) s' a (rw (trim_space_idem s.url) refl))),
    )

check_route-ok :
    (parse : String → Option Url) (s t : Subscription)
    → check_route parse s ≡ ok t
    → (t ≡ record s { route = route_of s.route; url = trim_space s.url })
      × (check_route parse t ≡ ok t)
unfolding check_route
check_route-ok parse s t e =
    let routed = record s { route = route_of s.route } in
    let (v, e1) =
      guarded (not (valid_route (route_of s.route))) invalid (check_url parse routed) t e in
    let (same, fixed) = check_url-ok parse routed t e1 in
    let q : t.route ≡ route_of s.route = ap (λ z. z.route) same in
    let p : route_of t.route ≡ t.route = ap route_of q ∙ route_of_idem s.route ∙ sym q in
    (
      same,
      unless (not (valid_route (route_of t.route))) invalid
          (check_url parse (record t { route = route_of t.route })) t
          (ap (λ z. not (valid_route z)) (p ∙ q) ∙ v)
          (ap (λ z. check_url parse (record t { route = z })) p ∙ fixed),
    )

check_times-ok :
    (parse : String → Option Url) (s t : Subscription)
    → check_times parse s ≡ ok t
    → (t.id ≡ s.id) × (t.name ≡ s.name) × (check_times parse t ≡ ok t)
unfolding check_times
check_times-ok parse s t e =
    let timed = λ (z : Subscription). record z {
      refresh_interval = or_default (12 * 3600 * second) z.refresh_interval;
      timeout = or_default (30 * second) z.timeout;
    } in
    let late = λ (z : Subscription).
      is_below_zero (timed z).refresh_interval || is_below_zero (timed z).timeout in
    let (v, e1) = guarded (late s) invalid (check_route parse (timed s)) t e in
    let (same, fixed) = check_route-ok parse (timed s) t e1 in
    let q : t.refresh_interval ≡ (timed s).refresh_interval = ap (λ z. z.refresh_interval) same in
    let q' : t.timeout ≡ (timed s).timeout = ap (λ z. z.timeout) same in
    let p : (timed t).refresh_interval ≡ t.refresh_interval =
      ap (or_default (12 * 3600 * second)) q
      ∙ or_default_idem (12 * 3600 * second) s.refresh_interval
      ∙ sym q in
    let p' : (timed t).timeout ≡ t.timeout =
      ap (or_default (30 * second)) q' ∙ or_default_idem (30 * second) s.timeout ∙ sym q' in
    (
      ap (λ z. z.id) same,
      ap (λ z. z.name) same,
      unless (late t) invalid (check_route parse (timed t)) t
          ((λ i. is_below_zero ((p ∙ q) i) || is_below_zero ((p' ∙ q') i)) ∙ v)
          ((λ i. check_route parse (record t { refresh_interval = p i; timeout = p' i })) ∙ fixed),
    )

check_name-ok :
    (parse : String → Option Url) (s t : Subscription)
    → trim_space s.id ≡ s.id
    → check_name parse s ≡ ok t
    → (t.id ≡ s.id) × (check_name parse t ≡ ok t)
unfolding check_name
check_name-ok parse s t trimmed e =
    let long = λ (z : Subscription). ltb 256 (byte_size (codes (name_of z.id z.name))) in
    let (v, e1) =
      guarded (long s) invalid (check_times parse (record s { name = name_of s.id s.name })) t e in
    let (same_id, same_name, fixed) =
      check_times-ok parse (record s { name = name_of s.id s.name }) t e1 in
    let p : name_of t.id t.name ≡ t.name =
      (λ i. name_of (same_id i) (same_name i)) ∙ name_of_idem s.id s.name trimmed ∙ sym same_name in
    (
      same_id,
      unless (long t) invalid (check_times parse (record t { name = name_of t.id t.name })) t
          (ap (λ z. ltb 256 (byte_size (codes z))) (p ∙ same_name) ∙ v)
          (ap (λ z. check_times parse (record t { name = z })) p ∙ fixed),
    )

-- What passes the checks behind the identifier's trimming is its own normal form.
check_id-ok :
    (parse : String → Option Url) (s t : Subscription)
    → (valid_id s.id ≡ true → trim_space s.id ≡ s.id)
    → check_id parse s ≡ ok t
    → (normalize_subscription parse none t ≡ ok t) × (valid_id t.id ≡ true)
unfolding normalize_subscription with_id check_id
check_id-ok parse s t trimmed e =
    let (v, e1) = guarded (not (valid_id s.id)) invalid (check_name parse s) t e in
    let fits : trim_space s.id ≡ s.id = trimmed (ground (arith, v)) in
    let (same_id, fixed) = check_name-ok parse s t fits e1 in
    let p : trim_space t.id ≡ t.id = ap trim_space same_id ∙ fits ∙ sym same_id in
    let w : not (valid_id t.id) ≡ false = ap (λ z. not (valid_id z)) same_id ∙ v in
    (
      unless (not (valid_id (trim_space t.id))) invalid
          (check_name parse (record t { id = trim_space t.id })) t
          (ap (λ z. not (valid_id z)) p ∙ w)
          (ap (λ z. check_name parse (record t { id = z })) p ∙ fixed),
      ground (arith, w),
    )

-- What `normalizeSubscription` gives for a subscription, where no identifier is to be made, is its own
-- normal form, and its identifier is valid.
pub normalize_idem :
    (parse : String → Option Url) (s t : Subscription)
    → normalize_subscription parse none s ≡ ok t
    → (normalize_subscription parse none t ≡ ok t) × (valid_id t.id ≡ true)
unfolding normalize_subscription with_id
normalize_idem parse s t e =
    check_id-ok parse (record s { id = trim_space s.id }) t (λ v. trim_space_idem s.id) e

-- The same where an identifier is made: one that is accepted needs no trimming.
pub normalize_new_idem :
    (parse : String → Option Url) (fresh : Result String) (s t : Subscription)
    → normalize_subscription parse (some fresh) s ≡ ok t
    → (normalize_subscription parse none t ≡ ok t) × (valid_id t.id ≡ true)
unfolding normalize_subscription with_id with_fresh_id
normalize_new_idem parse fresh s t e = elim (Bool-cases (is_blank (trim_space s.id))) [
  | inr n ↦
      check_id-ok parse (record s { id = trim_space s.id }) t (λ v. trim_space_idem s.id)
        (rw n at e)
  | inl b ↦ made fresh (rw b at e)
]
  where
    made :
        (r : Result String)
        → (with_fresh_id (record s { id = trim_space s.id }) r >>= check_id parse) ≡ ok t
        → (normalize_subscription parse none t ≡ ok t) × (valid_id t.id ≡ true)
    made (err x) q = cc
    made (ok id) q = check_id-ok parse (record s { id = id }) t (valid_id-trim_space id) q

same_integer_refl : (z : ℤ) → same_integer z z ≡ true
unfolding same_integer
same_integer_refl (pos n) = ground arith
same_integer_refl (negsuc n) = ground arith

same_flag_refl : (b : Bool) → same_flag b b ≡ true
unfolding same_flag
same_flag_refl true = refl
same_flag_refl false = refl

-- What is its own normal form passes the test of `NewStore`.
pub idem-is_normal :
    (parse : String → Option Url) (t : Subscription)
    → normalize_subscription parse none t ≡ ok t
    → is_normal parse t ≡ true
unfolding is_normal is_same_result same_subscription
idem-is_normal parse t e =
    rw (is_normal, e)
      (ground (
        arith,
        eq→=s t.id t.id refl,
        eq→=s t.name t.name refl,
        eq→=s t.url t.url refl,
        eq→=s t.user_agent t.user_agent refl,
        eq→=s t.route t.route refl,
        same_integer_refl t.refresh_interval,
        same_integer_refl t.timeout,
        same_flag_refl t.enabled,
        same_flag_refl t.allow_http,
        same_flag_refl t.allow_invalid_tls,
      ))

-- What was normalized passes it.
pub normalize-is_normal :
    (parse : String → Option Url) (s t : Subscription)
    → normalize_subscription parse none s ≡ ok t
    → is_normal parse t ≡ true
normalize-is_normal parse s t e = idem-is_normal parse t ((normalize_idem parse s t e).0)
