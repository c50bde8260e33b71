-- ===== src/Ipc/Frame/Writer.antt =====
-- ipc/frame.go: what `writeFull` and `writeFrame` have written, and that they end.
use mathlib.Core.Path.{subst}
use clashpulse.Base.{
  ℕ, zero, suc, ◌+◌, ◌≤◌, ◌<◌, ◌≡◌, ◌⊎◌, refl, sym, ap, ◌∙◌, List, [], ◌∷◌, ◌++◌, Option, none,
  some, length, drop, All, arith, length-drop, inl, inr,
}
use clashpulse.Ipc.Frame.{
  Codec, FrameError, Result, ok, err, Answer, wrote, failed, Sink, take_front, write_full,
  write_frame, then_body, encode_frame, read_frame, put_uint32,
}
use clashpulse.Ipc.Frame.RoundTrip.{read_frame-encode_frame, encode_frame-IsBody}

take_front-drop : (n : ℕ) (xs : List ℕ) → take_front n xs ++ drop n xs ≡ xs
unfolding take_front
take_front-drop zero xs = refl
take_front-drop (suc n) [] = refl
take_front-drop (suc n) (x ∷ xs) = ap (λ z. x ∷ z) (take_front-drop n xs)

append_assoc : (xs ys zs : List ℕ) → (xs ++ ys) ++ zs ≡ xs ++ (ys ++ zs)
append_assoc [] ys zs = refl
append_assoc (x ∷ xs) ys zs = ap (λ z. x ∷ z) (append_assoc xs ys zs)

append_nil : (xs : List ℕ) → xs ++ [] ≡ xs
append_nil [] = refl
append_nil (x ∷ xs) = ap (λ z. x ∷ z) (append_nil xs)

Result-cases {ℓ} :
    {A : Type ℓ} → (r : Result A) → ((e : FrameError) × (r ≡ err e)) ⊎ ((a : A) × (r ≡ ok a))
Result-cases (err e) = inl (e, refl)
Result-cases (ok a) = inr (a, refl)

-- A call that succeeds has written everything.
HasWritten : List ℕ → Option (Result Sink) → Type 0
HasWritten all (some (ok s)) = s.taken ≡ all
HasWritten all r = Unit

write_full-HasWritten :
    (answers : List Answer) (taken body : List ℕ)
    → HasWritten (taken ++ body) (write_full answers taken body)
unfolding write_full HasWritten
write_full-HasWritten answers taken [] = sym (append_nil taken)
write_full-HasWritten [] taken (b ∷ body) = tt
write_full-HasWritten (failed ∷ answers) taken (b ∷ body) = tt
write_full-HasWritten (wrote zero ∷ answers) taken (b ∷ body) = tt
write_full-HasWritten (wrote (suc n) ∷ answers) taken (b ∷ body) =
    subst
      (λ z.
        HasWritten z
          (write_full answers (taken ++ take_front (suc n) (b ∷ body)) (drop (suc n) (b ∷ body))))
      (append_assoc taken (take_front (suc n) (b ∷ body)) (drop (suc n) (b ∷ body))
        ∙ ap (λ z. taken ++ z) (take_front-drop (suc n) (b ∷ body)))
      (write_full-HasWritten answers (taken ++ take_front (suc n) (b ∷ body))
        (drop (suc n) (b ∷ body)))

-- Every call of `Write` takes something.
unfoldable pub IsProgress : Answer → Type 0
IsProgress (wrote n) = 0 < n
IsProgress failed = ⊥

-- It succeeds, and uses up no more answers than there are bytes.
Succeeds : ℕ → ℕ → Option (Result Sink) → Type 0
Succeeds size before (some (ok s)) = (before ≤ length s.answers + size) × All IsProgress s.answers
Succeeds size before r = ⊥

Succeeds-later :
    (size before size2 before2 : ℕ) (r : Option (Result Sink))
    → before2 + size ≤ before + size2
    → Succeeds size before r
    → Succeeds size2 before2 r
unfolding Succeeds
Succeeds-later size before size2 before2 none le h = h
Succeeds-later size before size2 before2 (some (err e)) le h = h
Succeeds-later size before size2 before2 (some (ok s)) le h = (omega (arith, h.0), h.1)

write_full-Succeeds :
    (answers : List Answer) (taken body : List ℕ)
    → All IsProgress answers
    → length body ≤ length answers
    → Succeeds (length body) (length answers) (write_full answers taken body)
unfolding write_full Succeeds IsProgress
write_full-Succeeds answers taken [] h le = (omega arith, h)
write_full-Succeeds [] taken (b ∷ body) h le = absurd (omega arith)
write_full-Succeeds (failed ∷ answers) taken (b ∷ body) h le = absurd h.0
write_full-Succeeds (wrote zero ∷ answers) taken (b ∷ body) h le = absurd (omega (arith, h.0))
write_full-Succeeds (wrote (suc n) ∷ answers) taken (b ∷ body) h le =
    Succeeds-later (length (drop n body)) (length answers) (suc (length body))
      (suc (length answers)) (write_full answers (taken ++ b ∷ take_front n body) (drop n body))
      (omega (arith, length-drop n body))
      (write_full-Succeeds answers (taken ++ b ∷ take_front n body) (drop n body) h.1
        (omega (arith, length-drop n body)))

Succeeds-some :
    (size before : ℕ) (r : Option (Result Sink))
    → Succeeds size before r
    → (s : Sink) × (r ≡ some (ok s)) × Succeeds size before (some (ok s))
unfolding Succeeds
Succeeds-some size before none h = absurd h
Succeeds-some size before (some (err e)) h = absurd h
Succeeds-some size before (some (ok s)) h = (s, refl, h)

then_body-HasWritten :
    (body all : List ℕ) (r : Option (Result Sink))
    → HasWritten all r
    → HasWritten (all ++ body) (then_body body r)
unfolding then_body HasWritten
then_body-HasWritten body all none h = tt
then_body-HasWritten body all (some (err e)) h = tt
then_body-HasWritten body all (some (ok s)) h =
    subst (λ z. HasWritten (z ++ body) (write_full s.answers s.taken body)) h
      (write_full-HasWritten s.answers s.taken body)

module _ {V : Type 0} (codec : Codec V) where
  write_frame-HasWritten :
      (v : V) (header body : List ℕ) (s : Sink)
      → encode_frame codec v ≡ ok (header, body)
      → HasWritten (s.taken ++ (header ++ body)) (write_frame codec v s)
  unfolding write_frame
  write_frame-HasWritten v header body s e =
      rw (write_frame, e)
        (subst (λ z. HasWritten z (then_body body (write_full s.answers s.taken header)))
          (append_assoc s.taken header body)
          (then_body-HasWritten body (s.taken ++ header) (write_full s.answers s.taken header)
            (write_full-HasWritten s.answers s.taken header)))

  -- Where `writeFrame` reports success, it has added exactly one frame to what was written before;
  -- from that frame, with any bytes behind it, `readFrame` gets the value back and leaves those bytes.
  pub write_frame_readable :
      (v : V) (before after : Sink) (left : List ℕ)
      → write_frame codec v before ≡ some (ok after)
      → (frame : List ℕ) × (after.taken ≡ before.taken ++ frame)
        × (read_frame codec (frame ++ left) ≡ ok (v, left))
  unfolding HasWritten write_frame
  write_frame_readable v before after left e = elim (Result-cases (encode_frame codec v)) [
    | inl (x, n) ↦ cc (rw (write_frame, n) at e)
    | inr ((header, body), n) ↦ (
      header ++ body,
      subst (HasWritten (before.taken ++ (header ++ body))) e
          (write_frame-HasWritten v header body before n),
      read_frame-encode_frame codec v header body left n,
    )
  ]

  -- `writeFrame` ends and reports success when the value can be encoded, the frame is no longer than
  -- the number of answers to come and each call of `Write` takes at least one byte.
  pub write_frame_succeeds :
      (v : V) (header body : List ℕ) (s : Sink)
      → encode_frame codec v ≡ ok (header, body)
      → All IsProgress s.answers
      → 4 + length body ≤ length s.answers
      → (after : Sink) × (write_frame codec v s ≡ some (ok after))
        × (after.taken ≡ s.taken ++ (header ++ body))
  unfolding HasWritten Succeeds put_uint32 write_frame
  write_frame_succeeds v header body s e h le =
      let (good, _) = encode_frame-IsBody codec v header body e in
      let size : length header ≡ 4 = ap length good in
      let (mid, m, k) =
        Succeeds-some (length header) (length s.answers) (write_full s.answers s.taken header)
          (write_full-Succeeds s.answers s.taken header h (omega (arith, size))) in
      let (after, a, _) =
        Succeeds-some (length body) (length mid.answers) (write_full mid.answers mid.taken body)
          (write_full-Succeeds mid.answers mid.taken body k.1 (omega (arith, size, k.0))) in
      let done : write_frame codec v s ≡ some (ok after) = rw (write_frame, e, m, then_body) a in
      (
        after,
        done,
        subst (HasWritten (s.taken ++ (header ++ body))) done
            (write_frame-HasWritten v header body s e),
      )
