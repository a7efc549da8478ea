-- ===== src/Communication/Codec/Frames.antt =====
-- One frame in front of other bytes.
use helpers.Prelude.{
  ℕ, zero, suc, ◌+◌, ◌-◌, ◌%◌, ◌^◌, ◌<◌, ◌≤◌, ◌≡◌, ◌≢◌, refl, sym, ap, ap₂, ◌∙◌, ltb, leb, lt→ltb,
  le→ltb, leb→le, le→leb, Bool-cases, inl, inr, List, [], ◌∷◌, ◌++◌, append_assoc, length,
  length-append, length-drop, get_or, take, drop, arith,
}
use helpers.KeyValue.Buffer.{Bytes}
use helpers.Communication.Codec.{
  length_field_length, htonl, flat, write, read_be, message, underflow, split, decode,
}

take-append : (a b : Bytes) (n : ℕ) → n ≤ length a → take n (a ++ b) ≡ take n a
take-append a b zero h = refl
take-append [] b (suc n) h = absurd (omega arith)
take-append (x ∷ a) b (suc n) h = ap (◌∷◌ x) (take-append a b n (omega arith))

drop-append : (a b : Bytes) (n : ℕ) → n ≤ length a → drop n (a ++ b) ≡ drop n a ++ b
drop-append a b zero h = refl
drop-append [] b (suc n) h = absurd (omega arith)
drop-append (x ∷ a) b (suc n) h = drop-append a b n (omega arith)

take-length : (a b : Bytes) → take (length a) (a ++ b) ≡ a
take-length [] b = refl
take-length (x ∷ a) b = ap (◌∷◌ x) (take-length a b)

drop-length : (a b : Bytes) → drop (length a) (a ++ b) ≡ b
drop-length [] b = refl
drop-length (x ∷ a) b = drop-length a b

get_or-append : (a b : Bytes) (i : ℕ) → i < length a → get_or (a ++ b) i 0 ≡ get_or a i 0
get_or-append [] b i h = absurd (omega arith)
get_or-append (x ∷ a) b zero h = refl
get_or-append (x ∷ a) b (suc i) h = get_or-append a b i (omega arith)

read_be-append : (a b : Bytes) → length_field_length ≤ length a → read_be (a ++ b) ≡ read_be a
read_be-append a b h = rw (
  get_or-append a b 0 (omega arith),
  get_or-append a b 1 (omega arith),
  get_or-append a b 2 (omega arith),
  get_or-append a b 3 (omega arith),
)

read_be-htonl : (n : ℕ) (rest : Bytes) → n < 2 ^ 32 → read_be (htonl n ++ rest) ≡ n
read_be-htonl n rest h = omega arith

split-append :
    (n : ℕ) (buf more m r : Bytes)
    → split n buf ≡ message m r
    → split n (buf ++ more) ≡ message m (r ++ more)
split-append n buf more m r e = elim (Bool-cases (ltb (length buf) n)) [
  | inl short ↦ absurd (ground arith)
  | inr enough ↦
      let l : n ≤ length buf = ground arith in
      rw
        (
          le→ltb (length (buf ++ more)) n (omega (arith, length-append buf more)),
          take-append buf more n l,
          drop-append buf more n l,
        )
        (ground arith)
]

frame_end : Bytes → ℕ
frame_end buf = (read_be buf + length_field_length) % 2 ^ 32

decode-split :
    (buf : Bytes)
    → length_field_length ≤ length buf
    → frame_end buf ≤ length buf
    → decode buf ≡ split (read_be buf) (drop length_field_length buf)
unfolding decode frame_end
decode-split buf h l =
    rw (le→ltb (length buf) length_field_length h, le→leb (frame_end buf) (length buf) l)

-- A message is decoded only when its frame is there.
decode_inv :
    (buf m r : Bytes)
    → decode buf ≡ message m r
    → (length_field_length ≤ length buf) × (frame_end buf ≤ length buf)
unfolding decode frame_end
decode_inv buf m r e = elim (Bool-cases (ltb (length buf) length_field_length)) [
  | inl short ↦ absurd (ground arith)
  | inr enough ↦ elim (Bool-cases (leb (frame_end buf) (length buf))) [
    | inr part ↦ absurd (ground arith)
    | inl whole ↦ (ground arith, leb→le (frame_end buf) (length buf) whole)
  ]
]

-- What has been decoded does not depend on the bytes that are still to come.
pub decode-append :
    (buf more m r : Bytes) → decode buf ≡ message m r → decode (buf ++ more) ≡ message m (r ++ more)
unfolding frame_end
decode-append buf more m r e =
    let (h, l) = decode_inv buf m r e in
    let longer = length-append buf more in
    let same = read_be-append buf more h in
    decode-split (buf ++ more) (omega arith)
      (omega (arith, ap (λ n. (n + length_field_length) % 2 ^ 32) same))
    ∙ ap₂ split same (drop-append buf more length_field_length h)
    ∙ split-append (read_be buf) (drop length_field_length buf) more m r
        (sym (decode-split buf h l) ∙ e)

-- A chain that is sent is decoded to its first buffer, and the rest of the chain is left in front
-- of what follows.
pub decode-write :
    (head : Bytes) (chained : List Bytes) (rest : Bytes)
    → length head + length_field_length < 2 ^ 32
    → decode (write head chained ++ rest) ≡ message head (flat chained ++ rest)
unfolding write frame_end
decode-write head chained rest h =
    let n = length head in
    let body = head ++ (flat chained ++ rest) in
    let tail = append_assoc head (flat chained) rest in
    let same = read_be-htonl n body (omega arith) in
    let longer = length-append head (flat chained ++ rest) in
    ap (λ b. decode (htonl n ++ b)) tail
    ∙ decode-split (htonl n ++ body) (omega arith)
        (omega (arith, ap (λ k. (k + length_field_length) % 2 ^ 32) same))
    ∙ ap (λ k. split k body) same
    ∙ rw (
      le→ltb (length body) n (omega arith),
      take-length head (flat chained ++ rest),
      drop-length head (flat chained ++ rest),
    )

-- A length field from 2 ^ 32 - 4 on wraps around when the field's own length is added, and the
-- decoder throws, however few of the message's bytes have come.
pub decode_overflow :
    (buf : Bytes)
    → length_field_length ≤ length buf
    → length buf < 2 ^ 32
    → 2 ^ 32 - length_field_length ≤ read_be buf
    → read_be buf < 2 ^ 32
    → decode buf ≡ underflow
unfolding frame_end
decode_overflow buf h l wraps small =
    decode-split buf h (omega arith)
    ∙ rw (
        lt→ltb (length (drop length_field_length buf)) (read_be buf)
          (omega (arith, length-drop length_field_length buf)))

-- Other lengths never make it throw.
pub decode_no_underflow :
    (buf : Bytes) → read_be buf + length_field_length < 2 ^ 32 → decode buf ≢ underflow
unfolding decode
decode_no_underflow buf small e = ground (arith, length-drop length_field_length buf)
