-- ===== src/Communication/StreamManager.antt =====
-- src/communication/streaming/streamManager.h: the outgoing streams that are alive, by their ids and
-- by their places in a vector. A stream object is known by its place in the order of creation, and
-- a weak pointer is that number. What the operations make of one stream is an interface, which
-- src/communication/streaming/typedStream.h fills.
pub mod Places
pub mod Alive
pub mod Runs
pub mod Reached
pub mod Typed
pub mod Tests
use helpers.Prelude.{
  ℕ, zero, suc, ◌+◌, ◌==◌, if◌then◌else◌, Bool, true, false, ◌&&◌, ◌||◌, u64, Option, none, some,
  List, [], ◌∷◌, ◌++◌, length, find, put, erase,
}

pub record Streams : Type 1 where
  pub Stream : Type 0
  pub created : ℕ → Stream
  pub handle_message_request : ℕ → ℕ → Stream → Stream
  pub handle_message_acknowledgement : ℕ → Stream → Stream
  pub reset : Stream → Stream
  pub close : Stream → Stream

abbrev pub nth {ℓ} : {A : Type ℓ} → List A → ℕ → Option A
nth [] i = none
nth (x ∷ xs) zero = some x
nth (x ∷ xs) (suc i) = nth xs i

abbrev pub set_nth {ℓ} : {A : Type ℓ} → List A → ℕ → A → List A
set_nth [] i y = []
set_nth (x ∷ xs) zero y = y ∷ xs
set_nth (x ∷ xs) (suc i) y = x ∷ set_nth xs i y

module _ (ops : Streams) where
  -- A stream object, with what its callback captures.
  pub record Object : Type 0 where
    pub stream_id : ℕ
    pub slot : ℕ
    pub alive : Bool
    pub stream : ops.Stream

  pub record StreamManager : Type 0 where
    pub next_stream_id : ℕ
    pub id_map : List (ℕ × ℕ)
    pub streams : List ℕ
    pub streams_slots : List ℕ
    pub objects : List Object

  abbrev pub constructed : StreamManager
  constructed = record {
    next_stream_id = 0;
    id_map = [];
    streams = [];
    streams_slots = [];
    objects = [];
  }

  -- A new object in a place of the vector.
  abbrev pub create_in : ℕ → StreamManager → StreamManager
  create_in it m = record m {
    next_stream_id = u64 (m.next_stream_id + 1);
    id_map = put m.next_stream_id (length m.objects) m.id_map;
    objects =
        m.objects
        ++ record {
          stream_id = m.next_stream_id;
          slot = it;
          alive = true;
          stream = ops.created m.next_stream_id;
        }
          ∷ [];
  }

  -- A free place is taken, or one is added.
  abbrev pub create_with : List ℕ → StreamManager → StreamManager
  create_with [] m =
      create_in (length m.streams) (record m { streams = m.streams ++ length m.objects ∷ [] })
  create_with (it ∷ slots) m =
      create_in it
        (record m { streams = set_nth m.streams it (length m.objects); streams_slots = slots })

  unfoldable pub create : StreamManager → StreamManager
  create m = create_with m.streams_slots m

  -- The destructor of a stream object, with the callback.
  abbrev pub destroy_at : ℕ → Option Object → StreamManager → StreamManager
  destroy_at k none m = m
  destroy_at k (some o) m =
      if o.alive
      then record m {
        id_map = erase o.stream_id m.id_map;
        streams_slots = m.streams_slots ++ o.slot ∷ [];
        objects = set_nth m.objects k (record o { alive = false; stream = ops.close o.stream });
      }
      else m

  unfoldable pub destroy : ℕ → StreamManager → StreamManager
  destroy k m = destroy_at k (nth m.objects k) m

  -- A weak pointer is locked, and the stream it gives, if any, does something.
  abbrev pub locked : (ops.Stream → ops.Stream) → ℕ → Option Object → List Object → List Object
  locked f k none objects = objects
  locked f k (some o) objects =
      if o.alive then set_nth objects k (record o { stream = f o.stream }) else objects

  abbrev pub lock : (ops.Stream → ops.Stream) → ℕ → List Object → List Object
  lock f k objects = locked f k (nth objects k) objects

  abbrev pub to_found : (ops.Stream → ops.Stream) → Option ℕ → StreamManager → StreamManager
  to_found f none m = m
  to_found f (some k) m = record m { objects = lock f k m.objects }

  abbrev pub to_stream : (ops.Stream → ops.Stream) → ℕ → StreamManager → StreamManager
  to_stream f stream_id m = to_found f (find stream_id m.id_map) m

  unfoldable pub handle_message_request : ℕ → ℕ → ℕ → StreamManager → StreamManager
  handle_message_request stream_id lower upper m =
      to_stream (ops.handle_message_request lower upper) stream_id m

  unfoldable pub handle_message_acknowledgement : ℕ → ℕ → StreamManager → StreamManager
  handle_message_acknowledgement stream_id acknowledged m =
      to_stream (ops.handle_message_acknowledgement acknowledged) stream_id m

  abbrev pub reset_all : List ℕ → List Object → List Object
  reset_all [] objects = objects
  reset_all (k ∷ ks) objects = reset_all ks (lock ops.reset k objects)

  -- A message may name one stream, or none.
  unfoldable pub handle_message_stream_reset : Option ℕ → StreamManager → StreamManager
  handle_message_stream_reset (some stream_id) m = to_stream ops.reset stream_id m
  handle_message_stream_reset none m = record m { objects = reset_all m.streams m.objects }

-- What the callback of the subscription reads of a server message: each part, if the message has it.
pub record ServerMessage : Type 0 where
  pub message_request : Option (ℕ × ℕ × ℕ)
  pub message_acknowledgement : Option (ℕ × ℕ)
  pub message_stream_reset : Option (Option ℕ)

abbrev pub has {ℓ} : {A : Type ℓ} → Option A → Bool
has none = false
has (some x) = true

-- Which messages the subscription lets through.
unfoldable pub predicate : ServerMessage → Bool
predicate msg = has msg.message_request || has msg.message_acknowledgement

module _ (ops : Streams) where
  abbrev pub reset_of : Option (Option ℕ) → StreamManager ops → StreamManager ops
  reset_of none m = m
  reset_of (some stream_id) m = handle_message_stream_reset ops stream_id m

  abbrev pub acknowledgement_of :
      Option (ℕ × ℕ) → Option (Option ℕ) → StreamManager ops → StreamManager ops
  acknowledgement_of none reset m = reset_of reset m
  acknowledgement_of (some (stream_id, acknowledged)) reset m =
      handle_message_acknowledgement ops stream_id acknowledged m

  abbrev pub request_of :
      Option (ℕ × ℕ × ℕ)
      → Option (ℕ × ℕ)
      → Option (Option ℕ)
      → StreamManager ops
      → StreamManager ops
  request_of none acknowledgement reset m = acknowledgement_of acknowledgement reset m
  request_of (some (stream_id, lower, upper)) acknowledgement reset m =
      handle_message_request ops stream_id lower upper m

  unfoldable pub callback : ServerMessage → StreamManager ops → StreamManager ops
  callback msg m =
      request_of msg.message_request msg.message_acknowledgement msg.message_stream_reset m

  -- A message that arrives at the communicator.
  unfoldable pub on_server_message : ServerMessage → StreamManager ops → StreamManager ops
  on_server_message msg m = if predicate msg then callback msg m else m
