-- ===== src/Ipc/Frame/RoundTrip.antt =====
-- ipc/frame.go: what is read from a frame that was written, and what a frame that was read was.
use mathlib.Core.Path.{subst}
use clashpulse.Base.{
  ℕ, zero, suc, ◌*◌, ◌≤◌, ◌<◌, ◌≡◌, inl, inr, refl, sym, ap, ◌∙◌, false, ◌||◌, List, [], ◌∷◌, ◌++◌,
  Option, none, some, length, arith, ltb, ◌==◌, Bool-cases, Option-cases,
}
use clashpulse.Ipc.Frame.{
  Codec, Result, ok, err, ◌>>=◌, put_uint32, uint32, take_bytes, read_full, read_frame,
  read_frame_body, encode_frame, max_frame_size, check_extra, decode_body, Extra, read_conn_frame,
}

uint32-put_uint32 : (n : ℕ) → n ≤ 16777216 * 255 → uint32 (put_uint32 n) ≡ n
unfolding uint32 put_uint32
uint32-put_uint32 n h = omega arith

take_bytes-append :
    {ys : List ℕ} → (xs : List ℕ) → take_bytes (length xs) (xs ++ ys) ≡ some (xs, ys)
unfolding take_bytes
take_bytes-append [] = refl
take_bytes-append {ys = ys} (x ∷ xs) = rw (take_bytes-append {ys = ys} xs) refl

read_full-append : (xs ys : List ℕ) → read_full (length xs) (xs ++ ys) ≡ ok (xs, ys)
unfolding read_full
read_full-append xs ys = rw (read_full, take_bytes-append {ys = ys} xs) refl

value_or {ℓ} : {A : Type ℓ} → A → Result A → A
value_or d (ok a) = a
value_or d (err e) = d

ok-injective {ℓ} : {A : Type ℓ} → (a b : A) → ok a ≡ ok b → a ≡ b
unfolding value_or
ok-injective a b e = ap (value_or a) e

-- What was taken and what is left make up the list, and as many were taken as were asked for.
Parts : ℕ → List ℕ → Option (List ℕ × List ℕ) → Type 0
Parts n bytes none = Unit
Parts n bytes (some r) = (length (r.0) ≡ n) × (bytes ≡ r.0 ++ r.1)

take_bytes-Parts : (n : ℕ) (bytes : List ℕ) → Parts n bytes (take_bytes n bytes)
unfolding take_bytes Parts
take_bytes-Parts zero bytes = (refl, refl)
take_bytes-Parts (suc n) [] = tt
take_bytes-Parts (suc n) (b ∷ bytes) = more (take_bytes n bytes) (take_bytes-Parts n bytes)
  where
    more :
        (r : Option (List ℕ × List ℕ))
        → Parts n bytes r
        → Parts
            (suc n)
            (b ∷ bytes)
            (elim r [ none ↦ none | some (front, rest) ↦ some (b ∷ front, rest) ])
    more none h = tt
    more (some (front, rest)) h = (ap suc h.0, ap (λ xs. b ∷ xs) h.1)

read_full-Parts :
    (n : ℕ) (bytes : List ℕ) (r : List ℕ × List ℕ)
    → read_full n bytes ≡ ok r
    → (length (r.0) ≡ n) × (bytes ≡ r.0 ++ r.1)
unfolding read_full Parts
read_full-Parts n bytes r e = elim (Option-cases (take_bytes n bytes)) [
  | inl h ↦ cc (rw (read_full, h) at e)
  | inr (x, h) ↦
      subst (λ z. (length (z.0) ≡ n) × (bytes ≡ z.0 ++ z.1))
        (ok-injective x r (rw (read_full, h) at e))
        (subst (Parts n bytes) h (take_bytes-Parts n bytes))
]

bind-ok {ℓ κ} :
    {A : Type ℓ} {B : Type κ}
    → (r : Result A) (f : A → Result B) (b : B) → (r >>= f) ≡ ok b
    → (a : A) × (r ≡ ok a) × (f a ≡ ok b)
bind-ok (ok a) f b e = (a, refl, e)
bind-ok (err x) f b e = cc

within_limit : (n : ℕ) → (n == 0 || ltb max_frame_size n) ≡ false → (0 < n) × (n ≤ max_frame_size)
within_limit n h = ground arith

outside_limit : (n : ℕ) → 0 < n → n ≤ max_frame_size → (n == 0 || ltb max_frame_size n) ≡ false
outside_limit n pos fits = ground arith

module _ {V : Type 0} (codec : Codec V) where
  -- What a body of a frame is: not empty, within the limit, one value and nothing behind it.
  pub IsBody : List ℕ → V → Type 0
  IsBody body v =
      (0 < length body)
      × (length body ≤ max_frame_size)
      × ((behind : List ℕ) × (codec.decode body ≡ some (v, behind))
          × (codec.more behind ≡ Extra.at_end))

  check_extra-ok :
      (v w : V) (rest left : List ℕ) (x : Extra)
      → check_extra codec v rest x ≡ ok (w, left)
      → (v ≡ w) × (rest ≡ left) × (x ≡ Extra.at_end)
  unfolding check_extra
  check_extra-ok v w rest left Extra.at_end e =
      let h = ok-injective (v, rest) (w, left) e in (ap (λ z. z.0) h, ap (λ z. z.1) h, refl)
  check_extra-ok v w rest left Extra.another e = cc
  check_extra-ok v w rest left Extra.malformed e = cc

  decode_body-ok :
      (w : V) (rest left : List ℕ) (d : Option (V × List ℕ))
      → decode_body codec rest d ≡ ok (w, left)
      → (rest ≡ left)
        × ((behind : List ℕ) × (d ≡ some (w, behind)) × (codec.more behind ≡ Extra.at_end))
  unfolding decode_body
  decode_body-ok w rest left none e = cc
  decode_body-ok w rest left (some (v, behind)) e =
      let h = check_extra-ok v w rest left (codec.more behind) e in
      (h.1, (behind, rw h.0 refl, h.2))

  pub read_frame_body-IsBody :
      (header bytes left : List ℕ) (v : V)
      → read_frame_body codec header bytes ≡ ok (v, left)
      → (body : List ℕ) × (bytes ≡ body ++ left) × (uint32 header ≡ length body) × IsBody body v
  unfolding read_frame_body IsBody
  read_frame_body-IsBody header bytes left v e =
      elim (Bool-cases (uint32 header == 0 || ltb max_frame_size (uint32 header))) [
        | inl t ↦ cc (rw (read_frame_body, t) at e)
        | inr f ↦
            let (r, h, d) =
              bind-ok (read_full (uint32 header) bytes)
                (λ r. decode_body codec r.1 (codec.decode r.0)) (v, left)
                (rw (read_frame_body, f) at e) in
            let parts = read_full-Parts (uint32 header) bytes r h in
            let value = decode_body-ok v (r.1) left (codec.decode (r.0)) d in
            let fits = within_limit (uint32 header) f in
            (
              r.0,
              (parts.1 ∙ ap (λ z. r.0 ++ z) value.0),
              sym parts.0,
              (omega (arith, parts.0, fits.0), omega (arith, parts.0, fits.1), value.1),
            )
      ]

  read_frame_body-ok :
      (body left : List ℕ) (v : V)
      → IsBody body v
      → read_frame_body codec (put_uint32 (length body)) (body ++ left) ≡ ok (v, left)
  unfolding read_frame_body IsBody decode_body check_extra
  read_frame_body-ok body left v (pos, fits, (behind, d, m)) =
      rw
        (
          uint32-put_uint32 (length body) (omega arith),
          outside_limit (length body) pos fits,
          read_full-append body left,
          d,
          m,
        )
        refl

  pub encode_frame-IsBody :
      (v : V) (header body : List ℕ)
      → encode_frame codec v ≡ ok (header, body)
      → (header ≡ put_uint32 (length body)) × IsBody body v
  unfolding encode_frame IsBody
  encode_frame-IsBody v header body e = elim (Option-cases (codec.marshal v)) [
    | inl n ↦ cc (rw (encode_frame, n) at e)
    | inr (b, s) ↦ elim (Bool-cases (length b == 0 || ltb max_frame_size (length b))) [
      | inl t ↦ cc (rw (encode_frame, s, t) at e)
      | inr f ↦
          let same =
            ok-injective (put_uint32 (length b), b) (header, body) (rw (encode_frame, s, f) at e) in
          let fits = within_limit (length b) f in
          subst (λ z. (z.0 ≡ put_uint32 (length (z.1))) × IsBody (z.1) v) same
            (refl, (fits.0, fits.1, codec.decode-marshal v b s))
    ]
  ]

  pub read_frame-encode_frame :
      (v : V) (header body left : List ℕ)
      → encode_frame codec v ≡ ok (header, body)
      → read_frame codec ((header ++ body) ++ left) ≡ ok (v, left)
  unfolding read_frame read_full take_bytes put_uint32
  read_frame-encode_frame v header body left e =
      let (h, good) = encode_frame-IsBody v header body e in
      subst (λ z. read_frame codec ((z ++ body) ++ left) ≡ ok (v, left)) (sym h)
        (read_frame_body-ok body left v good)

  -- The server's reader, whose first read may give any part of the header, reads what `readFrame`
  -- reads, once the four header bytes are there.
  pub read_conn_frame_agrees :
      (n a b c d : ℕ) (bytes : List ℕ)
      → 0 < n
      → n ≤ 4
      → read_conn_frame codec n (a ∷ b ∷ c ∷ d ∷ bytes) ≡ read_frame codec (a ∷ b ∷ c ∷ d ∷ bytes)
  unfolding read_frame read_conn_frame read_full take_bytes
  read_conn_frame_agrees zero a b c d bytes pos le = absurd (omega arith)
  read_conn_frame_agrees (suc zero) a b c d bytes pos le = refl
  read_conn_frame_agrees (suc (suc zero)) a b c d bytes pos le = refl
  read_conn_frame_agrees (suc (suc (suc zero))) a b c d bytes pos le = refl
  read_conn_frame_agrees (suc (suc (suc (suc zero)))) a b c d bytes pos le = refl
  read_conn_frame_agrees (suc (suc (suc (suc (suc n))))) a b c d bytes pos le = absurd (omega arith)

  -- What `readFrame` accepts: four bytes, which say the length of a body that is within the limit and
  -- is one JSON value; what lies behind that body is left for the next frame.
  pub read_frame_sound :
      (bytes left : List ℕ) (v : V)
      → read_frame codec bytes ≡ ok (v, left)
      → (header : List ℕ) × (body : List ℕ) × (bytes ≡ header ++ (body ++ left))
        × (length header ≡ 4)
        × (uint32 header ≡ length body)
        × IsBody body v
  unfolding read_frame
  read_frame_sound bytes left v e =
      let (r, h, d) =
        bind-ok (read_full 4 bytes) (λ r. read_frame_body codec r.0 r.1) (v, left) e in
      let parts = read_full-Parts 4 bytes r h in
      let (body, split, size, good) = read_frame_body-IsBody (r.0) (r.1) left v d in
      (r.0, body, parts.1 ∙ ap (λ z. r.0 ++ z) split, parts.0, size, good)
