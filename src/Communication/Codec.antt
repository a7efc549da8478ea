-- ===== src/Communication/Codec.antt =====
-- src/communication/codec/packetEncoder.h and packetDecoder.h: frames of bytes behind their length,
-- with the length field of 4 bytes that the pipeline uses. A folly::IOBuf that is sent is a chain
-- of buffers, a folly::IOBufQueue that was received is its bytes.
pub mod Frames
pub mod Wire
pub mod Tests
use helpers.Prelude.{
  ℕ, zero, suc, ◌+◌, ◌*◌, ◌-◌, ◌/◌, ◌%◌, ◌^◌, ltb, leb, if◌then◌else◌, List, [], ◌∷◌, ◌++◌, length,
  get_or, take, drop,
}
use helpers.KeyValue.Buffer.{Bytes}

abbrev pub length_field_length : ℕ
length_field_length = 4

-- `htonl` of a `uint32_t`, as the bytes that it has in memory.
abbrev pub htonl : ℕ → Bytes
htonl n = (n / 2 ^ 24 % 256) ∷ (n / 2 ^ 16 % 256) ∷ (n / 2 ^ 8 % 256) ∷ (n % 256) ∷ []

abbrev pub flat : List Bytes → Bytes
flat [] = []
flat (b ∷ bs) = b ++ flat bs

-- `PacketEncoder::write` of a chain: the length is that of its first buffer.
unfoldable pub write : Bytes → List Bytes → Bytes
write head chained = htonl (length head) ++ head ++ flat chained

-- `readBE<uint32_t>` at the front of a buffer of 4 bytes or more.
abbrev pub read_be : Bytes → ℕ
read_be buf =
    get_or buf 0 0 * 2 ^ 24 + get_or buf 1 0 * 2 ^ 16 + get_or buf 2 0 * 2 ^ 8 + get_or buf 3 0

-- What `decode` does: it asks for more, gives a message and leaves the rest, or throws
-- `std::underflow_error`, as `split` does beyond the end.
pub data Decoded : Type 0 where
  waiting : Decoded
  message : Bytes → Bytes → Decoded
  underflow : Decoded

abbrev pub split : ℕ → Bytes → Decoded
split n buf = if ltb (length buf) n then underflow else message (take n buf) (drop n buf)

-- The sum of the two lengths is a `uint32_t`.
abbrev pub decode_frame : ℕ → Bytes → Decoded
decode_frame message_length buf =
    if leb ((message_length + length_field_length) % 2 ^ 32) (length buf)
    then split message_length (drop length_field_length buf)
    else waiting

unfoldable pub decode : Bytes → Decoded
decode buf =
    if ltb (length buf) length_field_length then waiting else decode_frame (read_be buf) buf
