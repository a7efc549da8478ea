-- ===== src/Communication/StreamManager/Typed.antt =====
-- src/communication/streaming/streamManager.h with the streams of
-- src/communication/streaming/typedStream.h, each with the messages that it has sent. A stream that
-- came to undefined behaviour is `none`.
use helpers.Prelude.{ℕ, Bool, Option, none, some, [], ◌++◌}
use helpers.Communication.PriorityQueue.{PriorityQueue}
use helpers.Communication.TypedStream.{ClientMessage, stream_less, TypedStream, Sent}
use helpers.Communication.TypedStream as typed_stream
use helpers.Communication.StreamManager.{Streams}

module _ (pq : PriorityQueue ClientMessage stream_less) where
  abbrev pub sent_with : Sent pq → Sent pq → Sent pq
  sent_with s r = record { stream = r.stream; sent = s.sent ++ r.sent }

  abbrev pub and_sent : (TypedStream pq → Sent pq) → Option (Sent pq) → Option (Sent pq)
  and_sent f none = none
  and_sent f (some s) = some (sent_with s (f s.stream))

  -- A call that throws before it changes anything leaves the stream as it is.
  abbrev pub or_thrown : Sent pq → Option (Sent pq) → Option (Sent pq)
  or_thrown s none = some s
  or_thrown s (some r) = some (sent_with s r)

  abbrev pub and_request : (TypedStream pq → Option (Sent pq)) → Option (Sent pq) → Option (Sent pq)
  and_request f none = none
  and_request f (some s) = or_thrown s (f s.stream)

  abbrev pub or_undefined : Sent pq → Option (Sent pq) → Option (Sent pq)
  or_undefined s none = none
  or_undefined s (some r) = some (sent_with s r)

  abbrev pub and_reset : (TypedStream pq → Option (Sent pq)) → Option (Sent pq) → Option (Sent pq)
  and_reset f none = none
  and_reset f (some s) = or_undefined s (f s.stream)

  abbrev pub and_acknowledged :
      (TypedStream pq → TypedStream pq) → Option (Sent pq) → Option (Sent pq)
  and_acknowledged f none = none
  and_acknowledged f (some s) = some (record s { stream = f s.stream })

  unfoldable pub typed_streams : (ℕ → Bool) → Streams
  unfolding typed_stream.create typed_stream.handle_message_request
      typed_stream.handle_message_acknowledgement typed_stream.reset typed_stream.close
  typed_streams reserves = record {
    Stream = Option (Sent pq);
    created = λ id. some (record { stream = typed_stream.create pq id; sent = [] });
    handle_message_request =
        λ lower upper. and_request (typed_stream.handle_message_request pq reserves lower upper);
    handle_message_acknowledgement = λ acknowledged.
        and_acknowledged (typed_stream.handle_message_acknowledgement pq acknowledged);
    reset = and_reset (typed_stream.reset pq);
    close = and_sent (typed_stream.close pq);
  }
