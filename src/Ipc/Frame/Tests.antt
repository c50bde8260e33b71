-- ===== src/Ipc/Frame/Tests.antt =====
-- The frame codec on concrete bytes, over an encoding with one byte for each value.
use mathlib.Core.Option.{some-injective}
use clashpulse.Base.{ℕ, ◌≡◌, refl, ap, sym, List, [], ◌∷◌, ◌++◌, Option, none, some, arith, length}
use clashpulse.Ipc.Frame.{
  Codec, Extra, ok, err, FrameError, Sink, Answer, wrote, read_frame, read_full, take_bytes,
  read_frame_body, decode_body, check_extra, uint32, put_uint32, write_frame, write_full,
  take_front, then_body, encode_frame, read_conn_frame,
}
use clashpulse.Ipc.Frame.RoundTrip.{read_conn_frame_agrees, read_frame_sound, IsBody}
use clashpulse.Ipc.Frame.Writer.{write_frame_readable, write_frame_succeeds, IsProgress}

one_byte_decode : List ℕ → Option (ℕ × List ℕ)
one_byte_decode [] = none
one_byte_decode (b ∷ rest) = some (b, rest)

one_byte_more : List ℕ → Extra
one_byte_more [] = Extra.at_end
one_byte_more (b ∷ rest) = Extra.another

one_byte-law :
    (v : ℕ) (body : List ℕ)
    → some (v ∷ []) ≡ some body
    → (rest : List ℕ) × (one_byte_decode body ≡ some (v, rest))
      × (one_byte_more rest ≡ Extra.at_end)
unfolding one_byte_decode one_byte_more
one_byte-law v body e = ([], ap one_byte_decode (sym (some-injective (v ∷ []) body e)), refl)

abbrev one_byte : Codec ℕ
one_byte = record {
  marshal = λ v. some (v ∷ []);
  decode = one_byte_decode;
  more = one_byte_more;
  decode-marshal = one_byte-law;
}

-- The connection ends inside the header, then inside the body, then before a frame.
ends_early :
    (read_frame one_byte (0 ∷ 0 ∷ []) ≡ err FrameError.unexpected_end)
    × (read_frame one_byte (0 ∷ 0 ∷ 0 ∷ 2 ∷ 7 ∷ []) ≡ err FrameError.unexpected_end)
    × (read_frame one_byte [] ≡ err FrameError.end_of_file)
unfolding read_frame read_full take_bytes read_frame_body uint32
ends_early = (refl, refl, refl)

-- A length of zero, one above the limit, and a body with a second value.
refused :
    (read_frame one_byte (0 ∷ 0 ∷ 0 ∷ 0 ∷ []) ≡ err FrameError.too_large)
    × (read_frame one_byte (0 ∷ 16 ∷ 0 ∷ 1 ∷ []) ≡ err FrameError.too_large)
    × (read_frame one_byte (0 ∷ 0 ∷ 0 ∷ 2 ∷ 7 ∷ 8 ∷ []) ≡ err FrameError.multiple_values)
unfolding read_frame read_full take_bytes read_frame_body uint32 decode_body check_extra
    one_byte_decode one_byte_more
refused = (refl, refl, refl)

abbrev empty_sink : List Answer → Sink
empty_sink answers = record { taken = []; answers = answers }

abbrev single_bytes : List Answer
single_bytes = wrote 1 ∷ wrote 1 ∷ wrote 1 ∷ wrote 1 ∷ wrote 1 ∷ []

seven_written :
    write_frame one_byte 7 (empty_sink single_bytes)
    ≡ some (ok (record { taken = 0 ∷ 0 ∷ 0 ∷ 1 ∷ 7 ∷ []; answers = [] }))
unfolding write_frame encode_frame write_full take_front then_body put_uint32
seven_written = refl

seven_encoded : encode_frame one_byte 7 ≡ ok (0 ∷ 0 ∷ 0 ∷ 1 ∷ [], 7 ∷ [])
unfolding encode_frame put_uint32
seven_encoded = refl

-- A writer that takes nothing.
stalled :
    write_frame one_byte 7 (empty_sink (wrote 2 ∷ wrote 0 ∷ [])) ≡ some (err FrameError.short_write)
unfolding write_frame encode_frame write_full take_front then_body put_uint32
stalled = refl

seven_read : read_frame one_byte (0 ∷ 0 ∷ 0 ∷ 1 ∷ 7 ∷ 9 ∷ []) ≡ ok (7, 9 ∷ [])
unfolding read_frame read_full take_bytes read_frame_body uint32 decode_body check_extra
    one_byte_decode one_byte_more
seven_read = refl

write_frame_readable_example :
    (frame : List ℕ) × (0 ∷ 0 ∷ 0 ∷ 1 ∷ 7 ∷ [] ≡ [] ++ frame)
    × (read_frame one_byte (frame ++ (9 ∷ [])) ≡ ok (7, 9 ∷ []))
write_frame_readable_example =
    write_frame_readable one_byte 7 (empty_sink single_bytes)
      (record { taken = 0 ∷ 0 ∷ 0 ∷ 1 ∷ 7 ∷ []; answers = [] }) (9 ∷ []) seven_written

write_frame_succeeds_example :
    (after : Sink) × (write_frame one_byte 7 (empty_sink single_bytes) ≡ some (ok after))
    × (after.taken ≡ [] ++ (0 ∷ 0 ∷ 0 ∷ 1 ∷ 7 ∷ []))
unfolding IsProgress
write_frame_succeeds_example =
    write_frame_succeeds one_byte 7 (0 ∷ 0 ∷ 0 ∷ 1 ∷ []) (7 ∷ []) (empty_sink single_bytes)
      seven_encoded (omega arith, (omega arith, (omega arith, (omega arith, (omega arith, tt)))))
      (omega arith)

read_frame_sound_example :
    (header : List ℕ) × (body : List ℕ) × (0 ∷ 0 ∷ 0 ∷ 1 ∷ 7 ∷ 9 ∷ []
      ≡ header ++ (body ++ (9 ∷ [])))
    × (length header ≡ 4)
    × (uint32 header ≡ length body)
    × IsBody one_byte body 7
read_frame_sound_example =
    read_frame_sound one_byte (0 ∷ 0 ∷ 0 ∷ 1 ∷ 7 ∷ 9 ∷ []) (9 ∷ []) 7 seven_read

read_conn_frame_agrees_example :
    read_conn_frame one_byte 3 (0 ∷ 0 ∷ 0 ∷ 1 ∷ 7 ∷ 9 ∷ [])
    ≡ read_frame one_byte (0 ∷ 0 ∷ 0 ∷ 1 ∷ 7 ∷ 9 ∷ [])
read_conn_frame_agrees_example =
    read_conn_frame_agrees one_byte 3 0 0 0 1 (7 ∷ 9 ∷ []) (omega arith) (omega arith)
