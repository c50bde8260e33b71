-- ===== src/Subscriptions/Model/Identifier.antt =====
-- subscriptions/store.go: an identifier that `validID` accepts is the same after `strings.TrimSpace`.
use clashpulse.Base.{
  ℕ, ◌≡◌, refl, String, true, false, not, ◌&&◌, ◌||◌, List, [], ◌∷◌, ltb, leb, ◌==◌, codes, length,
  arith, Bool-cases, inl, inr, trim_space, trim_space-unspaced, has_no_space, is_space,
}
use clashpulse.Subscriptions.Model.{is_alpha_numeric, valid_id_rest, valid_id_bytes, valid_id}

-- A valid identifier has no white space.
between-unspaced : (b : ℕ) → leb 45 b ≡ true → leb b 122 ≡ true → is_space b ≡ false
unfolding is_space
between-unspaced b l h = ground arith

is_alpha_numeric-at_least : (b : ℕ) → is_alpha_numeric b ≡ true → leb 45 b ≡ true
unfolding is_alpha_numeric
is_alpha_numeric-at_least b e = ground arith

is_alpha_numeric-at_most : (b : ℕ) → is_alpha_numeric b ≡ true → leb b 122 ≡ true
unfolding is_alpha_numeric
is_alpha_numeric-at_most b e = ground arith

is_alpha_numeric-unspaced : (b : ℕ) → is_alpha_numeric b ≡ true → is_space b ≡ false
is_alpha_numeric-unspaced b e =
    between-unspaced b (is_alpha_numeric-at_least b e) (is_alpha_numeric-at_most b e)

id_byte-unspaced :
    (b : ℕ)
    → (not (is_alpha_numeric b) && not (b == 46) && not (b == 95) && not (b == 45)) ≡ false
    → is_space b ≡ false
id_byte-unspaced b e = elim (Bool-cases (is_alpha_numeric b)) [
  | inl t ↦ is_alpha_numeric-unspaced b t
  | inr n ↦ between-unspaced b (ground (arith, e, n)) (ground (arith, e, n))
]

valid_id_rest-unspaced : (bs : List ℕ) → valid_id_rest bs ≡ true → has_no_space bs ≡ true
unfolding valid_id_rest has_no_space
valid_id_rest-unspaced [] e = refl
valid_id_rest-unspaced (b ∷ bs) e =
    elim (Bool-cases
      (not (is_alpha_numeric b) && not (b == 46) && not (b == 95) && not (b == 45))) [
        | inl t ↦ cc (rw t at e)
        | inr n ↦ rw (id_byte-unspaced b n) (valid_id_rest-unspaced bs (rw n at e))
      ]

valid_id_bytes-unspaced : (bs : List ℕ) → valid_id_bytes bs ≡ true → has_no_space bs ≡ true
unfolding valid_id_bytes has_no_space
valid_id_bytes-unspaced [] e = cc
valid_id_bytes-unspaced (b ∷ bs) e =
    elim (Bool-cases (ltb 128 (length (b ∷ bs)) || not (is_alpha_numeric b))) [
      | inl t ↦ cc (rw t at e)
      | inr n ↦
          rw (is_alpha_numeric-unspaced b (ground (arith, n)))
            (valid_id_rest-unspaced bs (rw n at e))
    ]

pub valid_id-trim_space : (id : String) → valid_id id ≡ true → trim_space id ≡ id
unfolding valid_id
valid_id-trim_space id v = trim_space-unspaced id (valid_id_bytes-unspaced (codes id) v)
