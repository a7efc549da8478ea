-- ===== src/Communication/TypedStream.antt =====
-- src/communication/streaming/typedStream.h: an outgoing stream. What the communicator is given to
-- send is a list, in order. Each operation runs alone. Of the mutex of the buffer, what the thread
-- that runs the operation owns itself is modelled: to lock it again, shared, is taken to succeed for
-- a thread that owns it shared, and has no defined behaviour for one that owns it alone. A call that
-- throws, or comes to undefined behaviour, is `none`.
pub mod Acknowledge
pub mod Request
pub mod Send
pub mod Reset
pub mod Tests
use helpers.Prelude.{
  ℕ, zero, suc, ◌+◌, ◌-◌, Bool, true, false, ltb, leb, if◌then◌else◌, u64, u64_mod, Option, none,
  some, List, [], ◌∷◌, ◌++◌, length,
}
use helpers.Communication.PriorityQueue.{PriorityQueue}

-- The body of a client message: the one that ends a stream, or any other.
pub data Body : Type 0 where
  end_of_stream : Body
  payload : ℕ → Body

-- A client message with its `message_stream` set.
pub record ClientMessage : Type 0 where
  pub body : Body
  pub stream_id : ℕ
  pub sequence_number : ℕ

-- How a thread owns the mutex of the buffer.
pub data Ownership : Type 0 where
  not_owned shared exclusive : Ownership

-- A shared lock is defined for the thread.
abbrev pub lock_shared : Ownership → Bool
lock_shared not_owned = true
lock_shared shared = true
lock_shared exclusive = false

-- The size that a request makes the vector reserve, as the code computes it.
abbrev pub requested_size : ℕ → ℕ → ℕ
requested_size lower upper = u64 (u64 (upper + (u64_mod - lower)) + 1)

abbrev pub stream_less : ClientMessage → ClientMessage → Bool
stream_less a b = ltb a.sequence_number b.sequence_number

module _ (pq : PriorityQueue ClientMessage stream_less) where
  open pq use {Queue, items, empty, emplace, try_pop}

  pub record TypedStream : Type 0 where
    pub stream_id : ℕ
    pub sequence_id : ℕ
    pub buffer : Queue

  -- The stream after an operation, and what the operation sends.
  pub record Sent : Type 0 where
    pub stream : TypedStream
    pub sent : List ClientMessage

  unfoldable pub create : ℕ → TypedStream
  create stream_id = record { stream_id = stream_id; sequence_id = 0; buffer = empty }

  unfoldable pub save_and_pass : TypedStream → ClientMessage → Sent
  save_and_pass s m = record { stream = record s { buffer = emplace m s.buffer }; sent = m ∷ [] }

  unfoldable pub send : TypedStream → Body → Sent
  unfolding save_and_pass
  send s b =
      let m : ClientMessage = record {
        body = b;
        stream_id = s.stream_id;
        sequence_number = s.sequence_id;
      } in
      save_and_pass (record s { sequence_id = u64 (s.sequence_id + 1) }) m

  unfoldable pub close : TypedStream → Sent
  unfolding send
  close s = send s end_of_stream

  -- What the first loop of `reset` leaves.
  pub record Renumbered : Type 0 where
    pub processed : List ClientMessage
    pub next : ℕ
    pub left : Queue

  -- The loop that empties the buffer and numbers anew what it takes out; the fuel counts rounds.
  unfoldable pub renumber_loop : ℕ → ℕ → Queue → Renumbered
  renumber_loop zero next q = record { processed = []; next = next; left = q }
  renumber_loop (suc fuel) next q = elim (try_pop q) [
    | none ↦ record { processed = []; next = next; left = q }
    | some (it, rest) ↦
        let more = renumber_loop fuel (u64 (next + 1)) rest in
        record more { processed = record it { sequence_number = next } ∷ more.processed }
  ]

  -- `saveAndPass` in a thread that owns the mutex in some way.
  unfoldable pub save_and_pass_owned : Ownership → TypedStream → ClientMessage → Option Sent
  save_and_pass_owned o s m = if lock_shared o then some (save_and_pass s m) else none

  -- What one call sends comes before what the rest does.
  abbrev pub then_sent : Sent → Option Sent → Option Sent
  then_sent first none = none
  then_sent first (some rest) = some (record rest { sent = first.sent ++ rest.sent })

  -- `saveAndPass` of each message in turn.
  unfoldable pub pass_all : Ownership → TypedStream → List ClientMessage → Option Sent
  pass_all o s [] = some (record { stream = s; sent = [] })
  pass_all o s (m ∷ ms) = elim (save_and_pass_owned o s m) [
    | none ↦ none
    | some first ↦ then_sent first (pass_all o first.stream ms)
  ]

  -- The lock of `reset` is exclusive, and lasts until it returns.
  unfoldable pub reset : TypedStream → Option Sent
  reset s =
      let r = renumber_loop (suc (length (items s.buffer))) 0 s.buffer in
      pass_all exclusive (record s { sequence_id = r.next; buffer = r.left }) r.processed

  -- The loop that takes messages out up to the first that is beyond the request.
  unfoldable pub take_loop : ℕ → ℕ → Queue → List ClientMessage × Queue
  take_loop zero upper q = ([], q)
  take_loop (suc fuel) upper q = elim (try_pop q) [
    | none ↦ ([], q)
    | some (it, rest) ↦
        let more = take_loop fuel upper rest in
        if leb it.sequence_number upper then (it ∷ more.0, more.1) else ([], emplace it rest)
  ]

  -- The loop over what was taken: it is sent and kept, or only kept.
  unfoldable pub resend : ℕ → TypedStream → List ClientMessage → Sent
  unfolding save_and_pass
  resend lower s [] = record { stream = s; sent = [] }
  resend lower s (m ∷ ms) =
      let first =
        if leb lower m.sequence_number
        then save_and_pass s m
        else record { stream = record s { buffer = emplace m s.buffer }; sent = [] } in
      let rest = resend lower first.stream ms in record rest { sent = first.sent ++ rest.sent }

  -- The request, when the vector has its room.
  abbrev pub request_reserved : ℕ → ℕ → TypedStream → Sent
  request_reserved lower upper s =
      let (processed, left) = take_loop (suc (length (items s.buffer))) upper s.buffer in
      resend lower (record s { buffer = left }) processed

  -- `reserves n` tells if the vector can reserve `n` elements; if not, `reserve` throws, before
  -- anything is taken out.
  unfoldable pub handle_message_request : (ℕ → Bool) → ℕ → ℕ → TypedStream → Option Sent
  handle_message_request reserves lower upper s =
      if reserves (requested_size lower upper) then some (request_reserved lower upper s) else none

  -- The loop that drops messages up to the first that is beyond the acknowledged one.
  unfoldable pub drop_loop : ℕ → ℕ → Queue → Queue
  drop_loop zero acknowledged q = q
  drop_loop (suc fuel) acknowledged q = elim (try_pop q) [
    | none ↦ q
    | some (it, rest) ↦
        let more = drop_loop fuel acknowledged rest in
        if ltb acknowledged it.sequence_number then emplace it rest else more
  ]

  unfoldable pub handle_message_acknowledgement : ℕ → TypedStream → TypedStream
  handle_message_acknowledgement acknowledged s = record s {
    buffer = drop_loop (suc (length (items s.buffer))) acknowledged s.buffer;
  }
