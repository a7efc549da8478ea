-- ===== src/Communication/Codec/Wire.antt =====
-- A connection between an encoder and a decoder: bytes arrive in pieces of any size, and the
-- decoder is called at any time.
use helpers.Prelude.{
  ◌+◌, ◌<◌, ◌≡◌, ◌^◌, refl, sym, ap, ◌∙◌, List, [], ◌∷◌, ◌++◌, append_assoc, length, arith,
}
use helpers.KeyValue.Buffer.{Bytes}
use helpers.Communication.Codec.{length_field_length, write, Decoded, waiting, message, decode}
use helpers.Communication.Codec.Frames.{decode-append, decode-write}

-- What is still to arrive, what was not decoded yet, and the messages that were.
pub record Link : Type 0 where
  pub pending : Bytes
  pub buffer : Bytes
  pub received : List Bytes

abbrev pub encoded : List Bytes → Bytes
encoded [] = []
encoded (m ∷ ms) = write m [] ++ encoded ms

abbrev pub start : List Bytes → Link
start ms = record { pending = encoded ms; buffer = []; received = [] }

pub data Step (l : Link) : Link → Type 0 where
  arrive :
      (chunk rest : Bytes)
      → l.pending ≡ chunk ++ rest
      → Step l (record l { pending = rest; buffer = l.buffer ++ chunk })
  deliver :
      (m rest : Bytes)
      → decode l.buffer ≡ message m rest
      → Step l (record l { buffer = rest; received = l.received ++ m ∷ [] })

pub data Reach (ms : List Bytes) : Link → Type 0 where
  here : Reach ms (start ms)
  next : {l k : Link} → Reach ms l → Step l k → Reach ms k

-- Messages short enough for the length field.
abbrev pub AllFit : List Bytes → Type 0
AllFit [] = Unit
AllFit (m ∷ ms) = (length m + length_field_length < 2 ^ 32) × AllFit ms

-- The messages that are still to be decoded are what is encoded in the bytes that are left.
pub record Splits (ms : List Bytes) (l : Link) : Type 0 where
  pub rest : List Bytes
  pub all : ms ≡ l.received ++ rest
  pub left : l.buffer ++ l.pending ≡ encoded rest
  pub fit : AllFit rest

decode-encoded :
    (m : Bytes) (ms : List Bytes)
    → AllFit (m ∷ ms)
    → decode (encoded (m ∷ ms)) ≡ message m (encoded ms)
decode-encoded m ms (h, hs) = decode-write m [] (encoded ms) h

decode_nothing : decode [] ≡ waiting
unfolding decode
decode_nothing = refl

message_inj :
    (d : Decoded) (m r n s : Bytes) → d ≡ message m r → d ≡ message n s → (m ≡ n) × (r ≡ s)
message_inj d m r n s e f = ground arith

deliver-Splits :
    (ms : List Bytes) (l : Link) (m r : Bytes)
    → decode l.buffer ≡ message m r
    → Splits ms l
    → Splits ms (record l { buffer = r; received = l.received ++ m ∷ [] })
deliver-Splits ms l m r e s = go s.rest s.all s.left s.fit
  where
    whole : decode (l.buffer ++ l.pending) ≡ message m (r ++ l.pending)
    whole = decode-append l.buffer l.pending m r e

    go :
        (rest : List Bytes)
        → ms ≡ l.received ++ rest
        → l.buffer ++ l.pending ≡ encoded rest
        → AllFit rest
        → Splits ms (record l { buffer = r; received = l.received ++ m ∷ [] })
    go [] all left fit = absurd (cc (whole, ap decode left, decode_nothing))
    go (n ∷ rest) all left fit =
        let (same, after) =
          message_inj (decode (l.buffer ++ l.pending)) m (r ++ l.pending) n (encoded rest) whole
            (ap decode left ∙ decode-encoded n rest fit) in
        record {
          rest = rest;
          all =
              all
              ∙ ap (λ k. l.received ++ k ∷ rest) (sym same)
              ∙ sym (append_assoc l.received (m ∷ []) rest);
          left = after;
          fit = fit.1;
        }

Step-Splits : (ms : List Bytes) {l k : Link} → Step l k → Splits ms l → Splits ms k
Step-Splits ms {l} (arrive chunk rest e) s = record {
  rest = s.rest;
  all = s.all;
  left = append_assoc l.buffer chunk rest ∙ ap (λ b. l.buffer ++ b) (sym e) ∙ s.left;
  fit = s.fit;
}
Step-Splits ms {l} (deliver m r e) s = deliver-Splits ms l m r e s

pub Reach-Splits : (ms : List Bytes) {l : Link} → AllFit ms → Reach ms l → Splits ms l
Reach-Splits ms fit here = record { rest = ms; all = refl; left = refl; fit = fit }
Reach-Splits ms fit (next r st) = Step-Splits ms st (Reach-Splits ms fit r)

-- What the encoding of messages decodes to.
abbrev pub first_decoded : List Bytes → Decoded
first_decoded [] = waiting
first_decoded (m ∷ ms) = message m (encoded ms)

decode_first : (ms : List Bytes) → AllFit ms → decode (encoded ms) ≡ first_decoded ms
decode_first [] fit = decode_nothing
decode_first (m ∷ ms) fit = decode-encoded m ms fit

-- However the bytes of encoded messages are cut into pieces, and whenever the decoder is called,
-- the messages that it has given are the first ones that were sent, unchanged and in order. The
-- bytes that wait for it and those that are still to arrive decode, together, to the first message
-- that was not given, or ask for more if all were given.
pub received_lem :
    (ms : List Bytes) {l : Link}
    → AllFit ms
    → Reach ms l
    → (rest : List Bytes) × (ms ≡ l.received ++ rest)
      × (decode (l.buffer ++ l.pending) ≡ first_decoded rest)
received_lem ms fit r =
    let s = Reach-Splits ms fit r in (s.rest, s.all, ap decode s.left ∙ decode_first s.rest s.fit)
