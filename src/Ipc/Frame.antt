-- ===== src/Ipc/Frame.antt =====
-- ipc/frame.go: frames of four length bytes and a JSON body. `encoding/json` is outside the
-- repository: it is the record `Codec`. A reader is the list of the bytes that it will give, after
-- which it ends; a writer is the list of the answers that its calls of `Write` give.
pub mod RoundTrip
pub mod Writer
mod Tests
use clashpulse.Base.{
  ℕ, suc, ◌+◌, ◌-◌, ◌*◌, ◌/◌, ◌%◌, ◌≡◌, Bool, true, false, not, ◌&&◌, ◌||◌, List, [], ◌∷◌, ◌++◌,
  Option, none, some, if◌then◌else◌, ltb, leb, ◌==◌, is_empty, length, drop,
}

abbrev pub max_frame_size : ℕ
max_frame_size = 1024 * 1024

pub data FrameError : Type 0 where
  end_of_file unexpected_end too_large bad_json multiple_values short_write no_progress : FrameError
  transport : FrameError

pub data Result {ℓ} (A : Type ℓ) : Type ℓ where
  ok : A → Result A
  err : FrameError → Result A

infixl 5 ◌>>=◌
abbrev pub ◌>>=◌ {ℓ κ} : {A : Type ℓ} {B : Type κ} → Result A → (A → Result B) → Result B
ok a >>= f = f a
err e >>= f = err e

-- What a second `Decode` finds: the end, one more value, or bytes that are no value.
pub data Extra : Type 0 where
  at_end another malformed : Extra

-- `encoding/json` at the type of the frame's value: an encoding decodes to its value, with nothing
-- behind it.
pub record Codec (V : Type 0) : Type 0 where
  pub marshal : V → Option (List ℕ)
  pub decode : List ℕ → Option (V × List ℕ)
  pub more : List ℕ → Extra
  pub decode-marshal :
      (v : V) (body : List ℕ)
      → marshal v ≡ some body
      → (rest : List ℕ) × (decode body ≡ some (v, rest)) × (more rest ≡ at_end)

-- `binary.BigEndian.PutUint32`
unfoldable pub put_uint32 : ℕ → List ℕ
put_uint32 n = n / 16777216 % 256 ∷ n / 65536 % 256 ∷ n / 256 % 256 ∷ n % 256 ∷ []

unfoldable pub uint32 : List ℕ → ℕ
uint32 (a ∷ b ∷ c ∷ d ∷ []) = a * 16777216 + b * 65536 + c * 256 + d
uint32 _ = 0

unfoldable pub take_bytes : ℕ → List ℕ → Option (List ℕ × List ℕ)
take_bytes ℕ.zero bytes = some ([], bytes)
take_bytes (suc n) [] = none
take_bytes (suc n) (b ∷ bytes) = elim (take_bytes n bytes) [
  | none ↦ none
  | some (front, rest) ↦ some (b ∷ front, rest)
]

-- `io.ReadFull`: a reader that ends before the first byte gives EOF, later an unexpected one.
unfoldable pub read_full : ℕ → List ℕ → Result (List ℕ × List ℕ)
unfolding take_bytes
read_full n bytes = elim (take_bytes n bytes) [
  | some r ↦ ok r
  | none ↦ err (if is_empty bytes then end_of_file else unexpected_end)
]

module _ {V : Type 0} (codec : Codec V) where
  check_extra : V → List ℕ → Extra → Result (V × List ℕ)
  check_extra v rest at_end = ok (v, rest)
  check_extra v rest another = err multiple_values
  check_extra v rest malformed = err bad_json

  decode_body : List ℕ → Option (V × List ℕ) → Result (V × List ℕ)
  unfolding check_extra
  decode_body rest none = err bad_json
  decode_body rest (some (v, behind)) = check_extra v rest (codec.more behind)

  unfoldable pub read_frame_body : List ℕ → List ℕ → Result (V × List ℕ)
  unfolding decode_body
  read_frame_body header bytes =
      let n = uint32 header in
      if n == 0 || ltb max_frame_size n
      then err too_large
      else read_full n bytes >>= λ r. decode_body r.1 (codec.decode r.0)

  unfoldable pub read_frame : List ℕ → Result (V × List ℕ)
  read_frame bytes = read_full 4 bytes >>= λ r. read_frame_body r.0 r.1

  -- `readConnFrame`, whose first read gives up to four bytes at once: `n` of the bytes to come.
  -- The deadline set behind it has no effect on what is read.
  unfoldable pub read_conn_frame : ℕ → List ℕ → Result (V × List ℕ)
  read_conn_frame n bytes =
      if n == 0
      then err (if is_empty bytes then end_of_file else no_progress)
      else read_full n bytes >>= λ first.
          read_full (4 - n) first.1 >>= λ rest. read_frame_body (first.0 ++ rest.0) rest.1

  unfoldable pub encode_frame : V → Result (List ℕ × List ℕ)
  encode_frame v = elim (codec.marshal v) [
    | none ↦ err bad_json
    | some body ↦
        if length body == 0 || ltb max_frame_size (length body)
        then err too_large
        else ok (put_uint32 (length body), body)
  ]

-- The answer of one call of `Write`: so many bytes were taken, or it failed.
pub data Answer : Type 0 where
  wrote : ℕ → Answer
  failed : Answer

-- The state of a writer: the bytes that it has taken, and the answers to come. A writer with no
-- answer left blocks; the loop then has no result.
pub record Sink : Type 0 where
  pub taken : List ℕ
  pub answers : List Answer

unfoldable pub take_front : ℕ → List ℕ → List ℕ
take_front ℕ.zero xs = []
take_front (suc n) [] = []
take_front (suc n) (x ∷ xs) = x ∷ take_front n xs

unfoldable pub write_full : List Answer → List ℕ → List ℕ → Option (Result Sink)
unfolding take_front
write_full answers taken [] = some (ok (record { taken = taken; answers = answers }))
write_full [] taken (b ∷ body) = none
write_full (failed ∷ answers) taken (b ∷ body) = some (err transport)
write_full (wrote ℕ.zero ∷ answers) taken (b ∷ body) = some (err short_write)
write_full (wrote (suc n) ∷ answers) taken (b ∷ body) =
    write_full answers (taken ++ take_front (suc n) (b ∷ body)) (drop (suc n) (b ∷ body))

then_body : List ℕ → Option (Result Sink) → Option (Result Sink)
then_body body (some (ok s)) = write_full s.answers s.taken body
then_body body r = r

unfoldable pub write_frame : {V : Type 0} → Codec V → V → Sink → Option (Result Sink)
unfolding then_body
write_frame codec v s = elim (encode_frame codec v) [
  | err e ↦ some (err e)
  | ok (header, body) ↦ then_body body (write_full s.answers s.taken header)
]
