-- ===== src/Communication/TypedStream/Tests.antt =====
-- Tests of the outgoing stream, and its theorems at three messages of stream 4.
use helpers.Prelude.{
  ℕ, leb, Option, none, some, ◌<◌, ◌≡◌, refl, Bool, true, false, ◌⊎◌, List, [], ◌∷◌, length, map,
  arith, count_if,
}
use helpers.Communication.PriorityQueue.{PriorityQueue}
use helpers.Communication.PriorityQueue.Listed.{listed}
use helpers.Communication.TypedStream.{
  ClientMessage, Body, payload, end_of_stream, stream_less, TypedStream, create, send, close, Sent,
  requested_size, save_and_pass_owned, save_and_pass, reset, renumber_loop, pass_all, take_loop,
  resend, handle_message_request, drop_loop, handle_message_acknowledgement,
}
use helpers.Communication.TypedStream.Acknowledge.{beyond, acknowledgement_all_or_nothing}
use helpers.Communication.TypedStream.Request.{Answered, request_all_or_nothing}
use helpers.Communication.TypedStream.Send.{send_all, numbered, send_all-create}

less_asym : (a b : ClientMessage) → stream_less a b ≡ true → stream_less b a ≡ false
less_asym a b h = ground arith

less_via :
    (a b c : ClientMessage)
    → stream_less a b ≡ false
    → stream_less b c ≡ false
    → stream_less a c ≡ false
less_via a b c h k = ground arith

abbrev queue : PriorityQueue ClientMessage stream_less
unfolding listed
queue = listed stream_less less_asym less_via

abbrev bodies : List Body
bodies = payload 10 ∷ payload 11 ∷ payload 12 ∷ []

abbrev started : TypedStream queue
started = (send_all queue (create queue 4) bodies).stream

-- 0 is acknowledged, and stays: 1 and 2 come out of the queue before it.
acknowledge_first : length (queue.items (handle_message_acknowledgement queue 0 started).buffer) ≡ 3
unfolding listed send_all create send save_and_pass handle_message_acknowledgement drop_loop
acknowledge_first = refl

acknowledge_all : queue.items (handle_message_acknowledgement queue 2 started).buffer ≡ []
unfolding listed send_all create send save_and_pass handle_message_acknowledgement drop_loop
acknowledge_all = refl

-- A vector takes up to a million elements.
abbrev reserves : ℕ → Bool
reserves n = leb n 1000000

abbrev sent_of : Option (Sent queue) → List ClientMessage
sent_of none = []
sent_of (some out) = out.sent

-- 0 and 1 are asked for, and nothing is sent.
request_first : sent_of (handle_message_request queue reserves 0 1 started) ≡ []
unfolding listed send_all create send save_and_pass handle_message_request take_loop resend
request_first = refl

request_last :
    map (λ m. m.body) (sent_of (handle_message_request queue reserves 1 2 started))
    ≡ payload 12 ∷ payload 11 ∷ []
unfolding listed send_all create send save_and_pass handle_message_request take_loop resend
request_last = refl

-- A request from 2 to 0 throws, and one from 1 to 0 does not.
request_thrown : handle_message_request queue reserves 2 0 started ≡ none
unfolding handle_message_request
request_thrown = refl

request_none : sent_of (handle_message_request queue reserves 3 2 started) ≡ []
unfolding listed send_all create send save_and_pass handle_message_request take_loop resend
request_none = refl

reset_started : reset queue started ≡ none
unfolding listed send_all create send save_and_pass save_and_pass_owned reset renumber_loop pass_all
reset_started = refl

closing : map (λ m. m.body) (close queue started).sent ≡ end_of_stream ∷ []
unfolding listed send_all create send save_and_pass close
closing = refl

abbrev any : ClientMessage → Bool
any m = true

acknowledgement_all_or_nothing_example :
    let after = handle_message_acknowledgement queue 0 started in
    ((count_if (beyond 0) (queue.items started.buffer) ≡ 0) × (queue.items after.buffer ≡ []))
    ⊎ ((0 < count_if (beyond 0) (queue.items started.buffer))
        × (count_if any (queue.items after.buffer) ≡ count_if any (queue.items started.buffer)))
acknowledgement_all_or_nothing_example = acknowledgement_all_or_nothing queue 0 started any

request_all_or_nothing_example :
    let r = handle_message_request queue reserves 1 2 started in
    ((reserves (requested_size 1 2) ≡ false) × (r ≡ none))
    ⊎ ((reserves (requested_size 1 2) ≡ true)
        × ((out : Sent queue) × (r ≡ some out) × Answered queue 1 2 started any out))
request_all_or_nothing_example = request_all_or_nothing queue reserves 1 2 started any

send_all-create_example :
    let out = send_all queue (create queue 4) bodies in
    (out.sent ≡ numbered 4 0 bodies)
    × (count_if any (queue.items out.stream.buffer) ≡ count_if any (numbered 4 0 bodies))
send_all-create_example = send_all-create queue 4 bodies any (omega arith)
