-- ===== src/Communication/TypedStream/Reset.antt =====
-- src/communication/streaming/typedStream.h: what comes of a reset.
use helpers.Prelude.{◌<◌, ◌≡◌, refl, ◌⊎◌, inl, inr, none, some, Option-cases, [], length, arith}
use helpers.Communication.PriorityQueue.{PriorityQueue}
use helpers.Communication.TypedStream.{
  ClientMessage, stream_less, TypedStream, renumber_loop, save_and_pass_owned, pass_all, reset,
}
use helpers.Communication.TypedStream.Acknowledge.{pop_shorter}

module _ (pq : PriorityQueue ClientMessage stream_less) where
  open pq use {items}

  -- A reset holds the mutex alone while `saveAndPass` locks it again. It comes through exactly when
  -- the buffer is empty: nothing is sent, and the numbers start again at 0. As soon as one message
  -- waits in the buffer, it comes to undefined behaviour before anything is sent.
  pub reset_owned :
      (s : TypedStream pq)
      → ((items s.buffer ≡ [])
          × (reset pq s ≡ some (record { stream = record s { sequence_id = 0 }; sent = [] })))
        ⊎ ((0 < length (items s.buffer)) × (reset pq s ≡ none))
  unfolding reset renumber_loop pass_all save_and_pass_owned
  reset_owned s = elim (Option-cases (pq.try_pop s.buffer)) [
    | inl e ↦ inl (pq.try_pop-eq-none s.buffer e, rw (e, renumber_loop) refl)
    | inr ((a, r), e) ↦
        inr (omega (arith, pop_shorter pq s.buffer a r e), rw (e, renumber_loop) refl)
  ]
