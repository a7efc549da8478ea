-- ===== src/Communication/TypedStream/Request.antt =====
-- src/communication/streaming/typedStream.h: what a message request resends and keeps.
use helpers.Prelude.{
  ℕ, zero, suc, ◌+◌, ◌^◌, u64_mod, none, some, ◌<◌, ◌≡◌, refl, ◌∙◌, ap, Bool, true, false, ◌&&◌,
  ltb, leb, ◌⊎◌, inl, inr, Option-cases, Bool-cases, List, [], ◌∷◌, length, count_if, arith,
}
use helpers.Communication.PriorityQueue.{PriorityQueue}
use helpers.Communication.TypedStream.{
  ClientMessage, stream_less, TypedStream, Sent, requested_size, request_reserved, take_loop,
  resend, handle_message_request,
}
use helpers.Communication.TypedStream.Acknowledge.{beyond, pop_shorter, pop_beyond, put_back}

-- The messages from a number on that pass a test.
abbrev pub from_number : ℕ → (ClientMessage → Bool) → ClientMessage → Bool
from_number lower p m = leb lower m.sequence_number && p m

module _ (pq : PriorityQueue ClientMessage stream_less) where
  open pq use {Queue, items, emplace, try_pop}

  -- What an answered request sends and keeps, of the messages that pass a test.
  abbrev pub Answered : ℕ → ℕ → TypedStream pq → (ClientMessage → Bool) → Sent pq → Type 0
  Answered lower upper s p out =
      (count_if p (items out.stream.buffer) ≡ count_if p (items s.buffer))
      × (((0 < count_if (beyond upper) (items s.buffer)) × (out.sent ≡ []))
          ⊎ ((count_if (beyond upper) (items s.buffer) ≡ 0)
              × (count_if p out.sent ≡ count_if (from_number lower p) (items s.buffer))))

  take_loop-beyond :
      (fuel n : ℕ) (q : Queue) (p : ClientMessage → Bool)
      → 0 < count_if (beyond n) (items q)
      → ((take_loop pq (suc fuel) n q).0 ≡ [])
        × (count_if p (items (take_loop pq (suc fuel) n q).1) ≡ count_if p (items q))
  unfolding take_loop
  take_loop-beyond fuel n q p h = elim (Option-cases (try_pop q)) [
    | inl e ↦ rw (e, take_loop) (refl, refl)
    | inr ((a, r), e) ↦
        let high : leb a.sequence_number n ≡ false = ground (arith, pop_beyond pq q a r e n h) in
        rw (e, take_loop, high) (refl, put_back pq q a r e p)
  ]

  take_loop_all :
      (fuel n : ℕ) (q : Queue) (p : ClientMessage → Bool)
      → length (items q) < fuel
      → count_if (beyond n) (items q) ≡ 0
      → (count_if p (take_loop pq fuel n q).0 ≡ count_if p (items q))
        × (items (take_loop pq fuel n q).1 ≡ [])
  unfolding take_loop
  take_loop_all zero n q p h z = absurd (omega arith)
  take_loop_all (suc fuel) n q p h z = elim (Option-cases (try_pop q)) [
    | inl e ↦ let none_left = pq.try_pop-eq-none q e in rw (e, take_loop, none_left) (refl, refl)
    | inr ((a, r), e) ↦
        let c = pq.try_pop-eq-some (beyond n) q a r e in
        let low : leb a.sequence_number n ≡ true = ground arith in
        let (all, none_left) =
          take_loop_all fuel n r p (omega (arith, pop_shorter pq q a r e)) (ground arith) in
        rw (e, take_loop, low) (omega (arith, all, pq.try_pop-eq-some p q a r e), none_left)
  ]

  resend_kept :
      (lower : ℕ) (s : TypedStream pq) (ms : List ClientMessage) (p : ClientMessage → Bool)
      → count_if p (items (resend pq lower s ms).stream.buffer)
        ≡ count_if p (items s.buffer) + count_if p ms
  unfolding resend
  resend_kept lower s [] p = omega arith
  resend_kept lower s (m ∷ ms) p =
      let kept = record s { buffer = emplace m s.buffer } in
      ground (arith, resend_kept lower kept ms p, pq.items-emplace p m s.buffer)

  resend_sent :
      (lower : ℕ) (s : TypedStream pq) (ms : List ClientMessage) (p : ClientMessage → Bool)
      → count_if p (resend pq lower s ms).sent ≡ count_if (from_number lower p) ms
  unfolding resend
  resend_sent lower s [] p = refl
  resend_sent lower s (m ∷ ms) p =
      let kept = record s { buffer = emplace m s.buffer } in
      ground (arith, resend_sent lower kept ms p)

  -- What comes of a request whose vector has its room.
  reserved_all_or_nothing :
      (lower upper : ℕ) (s : TypedStream pq) (p : ClientMessage → Bool)
      → Answered lower upper s p (request_reserved pq lower upper s)
  unfolding resend
  reserved_all_or_nothing lower upper s p =
      let q = s.buffer in
      let fuel = length (items q) in
      let t = take_loop pq (suc fuel) upper q in
      let s' = record s { buffer = t.1 } in
      let kept = resend_kept lower s' t.0 p in
      elim (Bool-cases (ltb 0 (count_if (beyond upper) (items q)))) [
        | inl h ↦
            let (e, c) = take_loop-beyond fuel upper q p (ground arith) in
            (
              omega (arith, kept, ap (count_if p) e, c),
              inl (ground arith, ap (λ ms. (resend pq lower s' ms).sent) e),
            )
        | inr h ↦
            let z : count_if (beyond upper) (items q) ≡ 0 = ground arith in
            let (c, e) = take_loop_all (suc fuel) upper q p (omega arith) z in
            let (d, _) = take_loop_all (suc fuel) upper q (from_number lower p) (omega arith) z in
            (omega (arith, kept, ap (count_if p) e, c), inr (z, resend_sent lower s' t.0 p ∙ d))
      ]

  -- A request for `lower` to `upper` throws if the vector cannot reserve `upper - lower + 1`
  -- elements, computed modulo 2^64; nothing is sent then. Otherwise it leaves the same messages in
  -- the buffer. If one of them has a number beyond `upper`, nothing is sent, also of what is asked
  -- for; otherwise those from `lower` on are sent, as often as they stand in the buffer.
  pub request_all_or_nothing :
      (reserves : ℕ → Bool) (lower upper : ℕ) (s : TypedStream pq) (p : ClientMessage → Bool)
      → let r = handle_message_request pq reserves lower upper s in
        ((reserves (requested_size lower upper) ≡ false) × (r ≡ none))
        ⊎ ((reserves (requested_size lower upper) ≡ true)
            × ((out : Sent pq) × (r ≡ some out) × Answered lower upper s p out))
  unfolding handle_message_request
  request_all_or_nothing reserves lower upper s p =
      elim (Bool-cases (reserves (requested_size lower upper))) [
        | inl room ↦ inr (
          room,
          (
            request_reserved pq lower upper s,
            rw room refl,
            reserved_all_or_nothing lower upper s p,
          ),
        )
        | inr no_room ↦ inl (no_room, rw no_room refl)
      ]

  -- A request whose upper end is two or more below its lower end makes the vector reserve more
  -- than 2^63 elements, where the two ends are less than 2^63 apart: a vector that cannot do that
  -- throws, whatever the buffer holds.
  pub request_backwards :
      (reserves : ℕ → Bool) (lower upper : ℕ) (s : TypedStream pq)
      → ((n : ℕ) → 2 ^ 63 < n → reserves n ≡ false)
      → upper + 1 < lower
      → lower < upper + 2 ^ 63
      → lower < u64_mod
      → handle_message_request pq reserves lower upper s ≡ none
  unfolding handle_message_request
  request_backwards reserves lower upper s few back near wide =
      rw (few (requested_size lower upper) (omega arith)) refl
