-- ===== src/Communication/TypedStream/Send.antt =====
-- What a new stream sends and keeps, before anything is acknowledged or reset.
use helpers.Prelude.{
  ℕ, suc, ◌+◌, ◌<◌, ◌≡◌, refl, ◌∙◌, ap, Bool, u64, u64_mod, List, [], ◌∷◌, ◌++◌, length, count_if,
  arith,
}
use helpers.Communication.PriorityQueue.{PriorityQueue}
use helpers.Communication.TypedStream.{
  ClientMessage, Body, stream_less, TypedStream, Sent, create, send,
}

-- The messages that bodies become, numbered from `n` on.
abbrev pub numbered : ℕ → ℕ → List Body → List ClientMessage
numbered i n [] = []
numbered i n (b ∷ bs) =
    record { body = b; stream_id = i; sequence_number = n } ∷ numbered i (suc n) bs

module _ (pq : PriorityQueue ClientMessage stream_less) where
  open pq use {items}

  -- The bodies are sent one after another.
  unfoldable pub send_all : TypedStream pq → List Body → Sent pq
  send_all s [] = record { stream = s; sent = [] }
  send_all s (b ∷ bs) =
      let first = send pq s b in
      let rest = send_all first.stream bs in record rest { sent = first.sent ++ rest.sent }

  send_all_sent :
      (s : TypedStream pq) (bs : List Body)
      → s.sequence_id + length bs < u64_mod
      → (send_all s bs).sent ≡ numbered s.stream_id s.sequence_id bs
  unfolding send_all send
  send_all_sent s [] h = refl
  send_all_sent s (b ∷ bs) h =
      let next : u64 (s.sequence_id + 1) ≡ suc s.sequence_id = omega arith in
      ap (◌∷◌ (record { body = b; stream_id = s.stream_id; sequence_number = s.sequence_id })) (
        send_all_sent (send pq s b).stream bs (omega (arith, next, h))
        ∙ ap (λ n. numbered s.stream_id n bs) next)

  send_all_kept :
      (s : TypedStream pq) (bs : List Body) (p : ClientMessage → Bool)
      → count_if p (items (send_all s bs).stream.buffer)
        ≡ count_if p (items s.buffer) + count_if p (send_all s bs).sent
  unfolding send_all send
  send_all_kept s [] p = omega arith
  send_all_kept s (b ∷ bs) p =
      let m : ClientMessage = record {
        body = b;
        stream_id = s.stream_id;
        sequence_number = s.sequence_id;
      } in
      omega (arith, send_all_kept (send pq s b).stream bs p, pq.items-emplace p m s.buffer)

  -- A new stream sends its messages once each, in order, with its id and the numbers 0, 1, 2, …,
  -- and keeps all of them in its buffer, whatever is counted of them.
  pub send_all-create :
      (i : ℕ) (bs : List Body) (p : ClientMessage → Bool)
      → length bs < u64_mod
      → let out = send_all (create pq i) bs in
        (out.sent ≡ numbered i 0 bs)
        × (count_if p (items out.stream.buffer) ≡ count_if p (numbered i 0 bs))
  unfolding create
  send_all-create i bs p h =
      let e = send_all_sent (create pq i) bs (omega (arith, h)) in
      (
        e,
        omega (
          arith,
          send_all_kept (create pq i) bs p,
          ap (count_if p) pq.items-empty,
          ap (count_if p) e,
        ),
      )
