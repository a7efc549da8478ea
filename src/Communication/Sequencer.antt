-- ===== src/Communication/Sequencer.antt =====
-- src/communication/layers/sequencer.h: the layer that puts incoming stream messages in the
-- order of their sequence numbers. The lower layer's sends and the calls of `onMessageCallback` are lists
-- of what is sent and what is forwarded; a message is the part of it that the layer reads.
pub mod Pop
pub mod Clear
pub mod Order
pub mod Complete
pub mod Stream
pub mod End
pub mod Handler
pub mod Closing
pub mod History
pub mod Tests
use helpers.Prelude.{
  ℕ, zero, suc, ◌+◌, ◌-◌, Bool, true, false, ltb, leb, ◌==◌, if◌then◌else◌, u64, u64_mod, Option,
  none, some, List, [], ◌∷◌, ◌++◌, length, find, put, erase, map,
}
use helpers.Communication.PriorityQueue.{PriorityQueue}

pub record MessageStream : Type 0 where
  pub stream_id : ℕ
  pub sequence_number : ℕ

-- `stream` is the `message_stream` of a message that has one; `body` stands for the rest.
pub record ServerMessage : Type 0 where
  pub stream : Option MessageStream
  pub end_of_stream : Bool
  pub body : ℕ

-- protobuf gives the default 0 for a field of a submessage that is not set.
abbrev pub sequence_number : ServerMessage → ℕ
sequence_number m = elim m.stream [ none ↦ 0 | some ms ↦ ms.sequence_number ]

abbrev pub greater_seq_num : ServerMessage → ServerMessage → Bool
greater_seq_num a b = ltb (sequence_number b) (sequence_number a)

-- What the layer sends by itself.
pub data StreamControl : Type 0 where
  message_stream_reset : StreamControl
  message_request : ℕ → ℕ → ℕ → StreamControl
  message_acknowledgement : ℕ → ℕ → StreamControl

abbrev pub stream_msg_ack_window : ℕ
stream_msg_ack_window = 100

module _ (pq : PriorityQueue ServerMessage greater_seq_num) where
  open pq use {Queue, items, empty, emplace, try_pop}

  pub record Buffer : Type 0 where
    pub seq_num : ℕ
    pub seq_num_ack : ℕ
    pub buffer : Queue

  -- The value that the map makes for a new key.
  abbrev pub new_buffer : Buffer
  new_buffer = record { seq_num = 0; seq_num_ack = 0; buffer = empty }

  -- What `clear` leaves, returns and forwards.
  pub record Cleared : Type 0 where
    pub after : Buffer
    pub last : ℕ
    pub finished : Bool
    pub forwarded : List ServerMessage

  unfoldable pub push : Buffer → ServerMessage → Buffer
  push b m =
      if leb b.seq_num (sequence_number m) then record b { buffer = emplace m b.buffer } else b

  abbrev pub forward : ServerMessage → Cleared → Cleared
  forward m c = record c { forwarded = m ∷ c.forwarded }

  abbrev pub stopped : Buffer → ℕ → Bool → List ServerMessage → Cleared
  stopped b last finished out = record {
    after = b;
    last = last;
    finished = finished;
    forwarded = out;
  }

  abbrev pub previous : ℕ → ℕ
  previous n = u64 (n + u64_mod - 1)

  -- Each round of the loop takes an element out: the fuel counts rounds.
  unfoldable pub clear_loop : ℕ → Buffer → Cleared
  clear_loop zero b = stopped b (previous b.seq_num) false []
  clear_loop (suc fuel) b = elim (try_pop b.buffer) [
    | none ↦ stopped b (previous b.seq_num) false []
    | some (it, rest) ↦
        let seq = sequence_number it in
        let next = record b { buffer = rest; seq_num = u64 (b.seq_num + 1) } in
        let taken = clear_loop fuel next in
        let dropped = clear_loop fuel (record b { buffer = rest }) in
        if seq == b.seq_num
        then (if it.end_of_stream
            then stopped next (previous next.seq_num) true (it ∷ [])
            else forward it taken)
        else if ltb b.seq_num seq
        then stopped (record b { buffer = emplace it rest }) (previous seq) false []
        else dropped
  ]

  unfoldable pub clear : Buffer → Cleared
  clear b = clear_loop (suc (length (items b.buffer))) b

  unfoldable pub reset_sequence_number_ack : Buffer → Buffer
  reset_sequence_number_ack b = record b { seq_num_ack = b.seq_num }

  -- What the message callback does with one message of a stream, given the stream's buffer:
  -- the buffer to keep, if the stream goes on, what is forwarded, and what is sent.
  pub record Handled : Type 0 where
    pub kept : Option Buffer
    pub forwarded : List ServerMessage
    pub sent : List StreamControl

  abbrev pub missing : ℕ → Cleared → List StreamControl
  missing stream_id c =
      if leb c.after.seq_num c.last
      then message_request stream_id c.after.seq_num c.last ∷ []
      else []

  abbrev pub acknowledge : ℕ → Cleared → List StreamControl → Handled
  acknowledge stream_id c sent =
      if leb (u64 (c.after.seq_num_ack + stream_msg_ack_window)) c.after.seq_num
      then record {
        kept = some (reset_sequence_number_ack c.after);
        forwarded = c.forwarded;
        sent = sent ++ message_acknowledgement stream_id (previous c.after.seq_num) ∷ [];
      }
      else record { kept = some c.after; forwarded = c.forwarded; sent = sent }

  unfoldable pub handle_stream : ℕ → Buffer → ServerMessage → Handled
  unfolding reset_sequence_number_ack
  handle_stream stream_id b m =
      let c = clear (push b m) in
      if c.finished
      then record {
        kept = none;
        forwarded = c.forwarded;
        sent = message_acknowledgement stream_id c.last ∷ [];
      }
      else acknowledge stream_id c (missing stream_id c)

  -- `m_buffers`: a buffer for each stream that has not ended.
  abbrev pub Buffers : Type 0
  Buffers = List (ℕ × Buffer)

  -- The accessor that `insert` gives: the entry of the key, made if there is none.
  abbrev pub buffer_of : ℕ → Buffers → Buffer
  buffer_of stream_id bs = elim (find stream_id bs) [ none ↦ new_buffer | some b ↦ b ]

  abbrev pub keep : ℕ → Option Buffer → Buffers → Buffers
  keep stream_id none bs = erase stream_id bs
  keep stream_id (some b) bs = put stream_id b bs

  pub record Outcome : Type 0 where
    pub buffers : Buffers
    pub forwarded : List ServerMessage
    pub sent : List StreamControl

  -- The callback that `setOnMessageCallback` hands to the lower layer, by the message's stream.
  unfoldable pub dispatch : Buffers → ServerMessage → Option MessageStream → Outcome
  dispatch bs m none = record { buffers = bs; forwarded = m ∷ []; sent = [] }
  dispatch bs m (some ms) =
      let h = handle_stream ms.stream_id (buffer_of ms.stream_id bs) m in
      record { buffers = keep ms.stream_id h.kept bs; forwarded = h.forwarded; sent = h.sent }

  unfoldable pub on_message : Buffers → ServerMessage → Outcome
  on_message bs m = dispatch bs m m.stream

  unfoldable pub get_stream_sequence_numbers : Buffers → List (ℕ × ℕ)
  get_stream_sequence_numbers bs = map (λ e. (e.0, e.1.seq_num)) bs

  -- Each stream is asked for the message that it waits for.
  unfoldable pub periodic_message_request : Buffers → List StreamControl
  unfolding get_stream_sequence_numbers
  periodic_message_request bs =
      map (λ e. message_request e.0 e.1 e.1) (get_stream_sequence_numbers bs)

  -- `connect` asks for a reset of all streams, and schedules the periodic requests.
  abbrev pub connect : List StreamControl
  connect = message_stream_reset ∷ []
