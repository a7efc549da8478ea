-- ===== src/Communication/Codec/Tests.antt =====
-- Tests of the codec, and its theorems on two messages that arrive in three pieces.
use helpers.Prelude.{◌≡◌, refl, List, [], ◌∷◌, ◌++◌, arith}
use helpers.KeyValue.Buffer.{Bytes}
use helpers.Communication.Codec.{write, decode, message, underflow}
use helpers.Communication.Codec.Frames.{decode-write, decode_overflow}
use helpers.Communication.Codec.Wire.{
  Link, arrive, deliver, Reach, here, next, received_lem, first_decoded,
}

abbrev sent : List Bytes
sent = (7 ∷ 8 ∷ []) ∷ (9 ∷ []) ∷ []

abbrev link : Link
link = record { pending = []; buffer = []; received = sent }

arrived : Reach sent link
unfolding write decode
arrived =
    next
      (next
        (next
          (next (next here (arrive (0 ∷ 0 ∷ 0 ∷ []) (2 ∷ 7 ∷ 8 ∷ 0 ∷ 0 ∷ 0 ∷ 1 ∷ 9 ∷ []) refl))
            (arrive (2 ∷ 7 ∷ 8 ∷ 0 ∷ []) (0 ∷ 0 ∷ 1 ∷ 9 ∷ []) refl))
          (deliver (7 ∷ 8 ∷ []) (0 ∷ []) refl))
        (arrive (0 ∷ 0 ∷ 1 ∷ 9 ∷ []) [] refl))
      (deliver (9 ∷ []) [] refl)

received_lem_example :
    (rest : List Bytes) × (sent ≡ link.received ++ rest)
    × (decode (link.buffer ++ link.pending) ≡ first_decoded rest)
received_lem_example = received_lem sent (omega arith) arrived

-- Of a chain of two buffers only the first is framed.
decode-write_example :
    decode (write (1 ∷ 2 ∷ []) ((3 ∷ []) ∷ []) ++ 0 ∷ []) ≡ message (1 ∷ 2 ∷ []) (3 ∷ 0 ∷ [])
decode-write_example = decode-write (1 ∷ 2 ∷ []) ((3 ∷ []) ∷ []) (0 ∷ []) (omega arith)

abbrev huge : Bytes
huge = 255 ∷ 255 ∷ 255 ∷ 254 ∷ 5 ∷ []

decode_overflow_example : decode huge ≡ underflow
decode_overflow_example =
    decode_overflow huge (omega arith) (omega arith) (omega arith) (omega arith)
