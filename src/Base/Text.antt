-- ===== src/Base/Text.antt =====
-- Equality and order of names. Go compares strings byte by byte, which on UTF-8 is the order of
-- the code points.
use Prim.Native.Nat.{ℕ}
use Prim.Native.Char.{Char, code}
use Prim.Native.String.{String}
use mathlib.Core.Path.{◌≡◌, refl, ap, ap₂, ◌∙◌}
use mathlib.Core.Bool.{Bool, true, false, not, ◌||◌, ◌&&◌}
use mathlib.Core.Logic.{inl, inr}
use mathlib.Core.List.{List, [], ◌∷◌}
use native.Mathlib.Omega.{arith}
use text.Mathlib.Text.{◌==◌ as str_eq}
use text.Mathlib.TextEquality.{eq_iff, Char-path}
use clashpulse.Base.Tests.{if◌then◌else◌, ltb, ◌==◌, Bool-cases}

infix 50 ◌=s◌
abbrev pub ◌=s◌ : String → String → Bool
s =s t = str_eq s t

pub =s→eq : (s t : String) → (s =s t) ≡ true → s ≡ t
=s→eq s t = (eq_iff s t).0

pub eq→=s : (s t : String) → s ≡ t → (s =s t) ≡ true
eq→=s s t = (eq_iff s t).1

-- `s == ""`
abbrev pub is_blank : String → Bool
is_blank s = s =s ""

-- `slices.Contains` and the key test of a `map[string]struct{}`.
abbrev pub contains : String → List String → Bool
contains s [] = false
contains s (t ∷ ts) = s =s t || contains s ts

abbrev pub codes : String → List ℕ
codes String.[] = []
codes (String.◌∷◌ c s) = code c ∷ codes s

pub codes_inj : (s t : String) → codes s ≡ codes t → s ≡ t
codes_inj String.[] String.[] e = refl
codes_inj String.[] (String.◌∷◌ d t) e = cc
codes_inj (String.◌∷◌ c s) String.[] e = cc
codes_inj (String.◌∷◌ c s) (String.◌∷◌ d t) e =
    ap₂ String.◌∷◌ (Char-path c d (cc)) (codes_inj s t (cc))

abbrev lt_codes : List ℕ → List ℕ → Bool
lt_codes [] [] = false
lt_codes [] (y ∷ ys) = true
lt_codes (x ∷ xs) [] = false
lt_codes (x ∷ xs) (y ∷ ys) = if ltb x y then true else x == y && lt_codes xs ys

-- `a < b` on strings.
unfoldable pub text_lt : String → String → Bool
text_lt s t = lt_codes (codes s) (codes t)

lt_codes_irrefl : (xs : List ℕ) → lt_codes xs xs ≡ false
lt_codes_irrefl [] = refl
lt_codes_irrefl (x ∷ xs) = ground (arith, lt_codes_irrefl xs)

lt_codes_trans :
    (xs ys zs : List ℕ) → lt_codes xs ys ≡ true → lt_codes ys zs ≡ true → lt_codes xs zs ≡ true
lt_codes_trans [] [] zs p q = cc
lt_codes_trans [] (y ∷ ys) [] p q = cc
lt_codes_trans [] (y ∷ ys) (z ∷ zs) p q = refl
lt_codes_trans (x ∷ xs) [] zs p q = cc
lt_codes_trans (x ∷ xs) (y ∷ ys) [] p q = cc
lt_codes_trans (x ∷ xs) (y ∷ ys) (z ∷ zs) p q = ground (arith, lt_codes_trans xs ys zs)

lt_codes_total : (xs ys : List ℕ) → lt_codes xs ys ≡ false → lt_codes ys xs ≡ false → xs ≡ ys
lt_codes_total [] [] p q = refl
lt_codes_total [] (y ∷ ys) p q = cc
lt_codes_total (x ∷ xs) [] p q = cc
lt_codes_total (x ∷ xs) (y ∷ ys) p q = ground (arith, lt_codes_total xs ys)

pub text_lt_irrefl : (s : String) → text_lt s s ≡ false
unfolding text_lt
text_lt_irrefl s = lt_codes_irrefl (codes s)

pub text_lt_trans : (r s t : String) → text_lt r s ≡ true → text_lt s t ≡ true → text_lt r t ≡ true
unfolding text_lt
text_lt_trans r s t = lt_codes_trans (codes r) (codes s) (codes t)

pub text_lt_total : (s t : String) → text_lt s t ≡ false → text_lt t s ≡ false → s ≡ t
unfolding text_lt
text_lt_total s t p q = codes_inj s t (lt_codes_total (codes s) (codes t) p q)

-- `unicode.IsSpace`
unfoldable pub is_space : ℕ → Bool
is_space c =
    not (ltb c 9) && ltb c 14
    || c == 32
    || c == 133
    || c == 160
    || c == 5760
    || not (ltb c 8192) && ltb c 8203
    || c == 8232
    || c == 8233
    || c == 8239
    || c == 8287
    || c == 12288

-- `strings.TrimSpace`, from the left and then from the right.
unfoldable pub trim_left : String → String
unfolding is_space
trim_left String.[] = ""
trim_left (String.◌∷◌ c s) = if is_space (code c) then trim_left s else String.◌∷◌ c s

cons_trimmed : Char → String → String
unfolding is_space
cons_trimmed c String.[] = if is_space (code c) then "" else String.◌∷◌ c ""
cons_trimmed c s = String.◌∷◌ c s

unfoldable pub trim_right : String → String
unfolding cons_trimmed
trim_right String.[] = ""
trim_right (String.◌∷◌ c s) = cons_trimmed c (trim_right s)

unfoldable pub trim_space : String → String
unfolding trim_left trim_right
trim_space s = trim_right (trim_left s)

cons_trimmed-trim_right :
    (c : Char) (s : String) → trim_right s ≡ s → trim_right (cons_trimmed c s) ≡ cons_trimmed c s
unfolding trim_right cons_trimmed
cons_trimmed-trim_right c String.[] e = elim (Bool-cases (is_space (code c))) [
  | inl t ↦ rw t refl
  | inr f ↦ rw (f, f) refl
]
cons_trimmed-trim_right c (String.◌∷◌ d s) e = rw e refl

trim_right_idem : (s : String) → trim_right (trim_right s) ≡ trim_right s
unfolding trim_right
trim_right_idem String.[] = refl
trim_right_idem (String.◌∷◌ c s) = cons_trimmed-trim_right c (trim_right s) (trim_right_idem s)

-- Nothing is left to trim at the front.
starts_full : String → Bool
unfolding is_space
starts_full String.[] = true
starts_full (String.◌∷◌ c s) = not (is_space (code c))

trim_left-full : (s : String) → starts_full (trim_left s) ≡ true
unfolding trim_left starts_full
trim_left-full String.[] = refl
trim_left-full (String.◌∷◌ c s) = elim (Bool-cases (is_space (code c))) [
  | inl t ↦ rw (trim_left, t) (trim_left-full s)
  | inr f ↦ rw (trim_left, f) (rw f refl)
]

full-trim_left : (s : String) → starts_full s ≡ true → trim_left s ≡ s
unfolding trim_left starts_full
full-trim_left String.[] e = refl
full-trim_left (String.◌∷◌ c s) e = elim (Bool-cases (is_space (code c))) [
  | inl t ↦ cc (rw t at e)
  | inr f ↦ rw f refl
]

cons_trimmed-full :
    (c : Char) (s : String) → is_space (code c) ≡ false → starts_full (cons_trimmed c s) ≡ true
unfolding cons_trimmed starts_full
cons_trimmed-full c String.[] f = rw f (rw f refl)
cons_trimmed-full c (String.◌∷◌ d s) f = rw f refl

trim_right-full : (s : String) → starts_full s ≡ true → starts_full (trim_right s) ≡ true
unfolding trim_right starts_full
trim_right-full String.[] e = refl
trim_right-full (String.◌∷◌ c s) e = elim (Bool-cases (is_space (code c))) [
  | inl t ↦ cc (rw t at e)
  | inr f ↦ cons_trimmed-full c (trim_right s) f
]

pub trim_space_idem : (s : String) → trim_space (trim_space s) ≡ trim_space s
unfolding trim_space
trim_space_idem s =
    ap trim_right
      (full-trim_left (trim_right (trim_left s)) (trim_right-full (trim_left s) (trim_left-full s)))
    ∙ trim_right_idem (trim_left s)

-- No character is white space.
unfoldable pub has_no_space : List ℕ → Bool
unfolding is_space
has_no_space [] = true
has_no_space (c ∷ cs) = not (is_space c) && has_no_space cs

trim_right-unspaced : (s : String) → has_no_space (codes s) ≡ true → trim_right s ≡ s
unfolding trim_right cons_trimmed has_no_space
trim_right-unspaced String.[] e = refl
trim_right-unspaced (String.◌∷◌ c String.[]) e = elim (Bool-cases (is_space (code c))) [
  | inl t ↦ cc (rw t at e)
  | inr n ↦ rw n refl
]
trim_right-unspaced (String.◌∷◌ c (String.◌∷◌ d s)) e =
    let rest : has_no_space (codes (String.◌∷◌ d s)) ≡ true = ground (arith, e) in
    ap (cons_trimmed c) (trim_right-unspaced (String.◌∷◌ d s) rest)

pub trim_space-unspaced : (s : String) → has_no_space (codes s) ≡ true → trim_space s ≡ s
unfolding trim_space trim_left has_no_space
trim_space-unspaced String.[] e = refl
trim_space-unspaced (String.◌∷◌ c s) e = elim (Bool-cases (is_space (code c))) [
  | inl t ↦ cc (rw t at e)
  | inr n ↦ rw (trim_left, n) (trim_right-unspaced (String.◌∷◌ c s) e)
]

-- `s + t`
unfoldable pub join : String → String → String
join String.[] t = t
join (String.◌∷◌ c s) t = String.◌∷◌ c (join s t)

unfoldable pub starts_with : List ℕ → List ℕ → Bool
starts_with [] s = true
starts_with (p ∷ ps) [] = false
starts_with (p ∷ ps) (c ∷ s) = p == c && starts_with ps s

-- `strings.Contains`
unfoldable pub has_part : List ℕ → List ℕ → Bool
unfolding starts_with
has_part part [] = starts_with part []
has_part part (c ∷ s) = starts_with part (c ∷ s) || has_part part s
