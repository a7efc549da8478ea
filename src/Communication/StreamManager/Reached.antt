-- ===== src/Communication/StreamManager/Reached.antt =====
-- src/communication/streaming/streamManager.h: which streams a message reaches.
use helpers.Prelude.{
  ℕ, ◌==◌, ◌&&◌, ◌||◌, if◌then◌else◌, Bool, Option, none, some, List, find, ◌≡◌, refl, sym, ap, ◌∙◌,
  arith,
}
use native.Mathlib.Decide.{ℕ_discrete}
use helpers.Communication.StreamManager.{
  ServerMessage, has, predicate, request_of, callback, on_server_message, Streams, nth, Object,
  StreamManager, locked, lock, to_found, handle_message_request, handle_message_acknowledgement,
}
use helpers.Communication.StreamManager.Places.{nth-some, nth-set_nth}
use helpers.Communication.StreamManager.Alive.{if_alive, Kept}
use helpers.Communication.StreamManager.Runs.{Reach, Reach-Kept}

module _ (ops : Streams) where
  -- An object, after its stream has done something if it is the one that is meant and lives.
  abbrev pub if_meant : Bool → (ops.Stream → ops.Stream) → Object ops → Object ops
  if_meant meant f o = if o.alive && meant then record o { stream = f o.stream } else o

  nth-lock :
      (f : ops.Stream → ops.Stream) (k j : ℕ) (objects : List (Object ops)) (o : Object ops)
      → nth objects j ≡ some o
      → nth (lock ops f k objects) j ≡ some (if_meant (k == j) f o)
  nth-lock f k j objects o e = go (nth objects k) refl
    where
      here : nth (locked ops f j (some o) objects) j ≡ some (if_meant (j == j) f o)
      here = ground (
        arith,
        nth-set_nth objects j j (record o { stream = f o.stream }),
        nth-some objects j o e,
      )

      go :
          (r : Option (Object ops))
          → nth objects k ≡ r
          → nth (locked ops f k r objects) j ≡ some (if_meant (k == j) f o)
      go none at = ground (arith, ap (nth objects) {x = k} {y = j})
      go (some p) at = elim (ℕ_discrete k j) [
        | yes q ↦
            ap (λ r. nth (locked ops f k r objects) j) (sym at ∙ ap (nth objects) q ∙ e)
            ∙ ap (λ i. nth (locked ops f i (some o) objects) j) q
            ∙ here
            ∙ ap (λ i. some (if_meant (i == j) f o)) (sym q)
        | no differ ↦ ground (arith, nth-set_nth objects k j (record p { stream = f p.stream }))
      ]

  -- What a message makes of an object, by the parts that it has.
  abbrev pub to_request_or : Option (ℕ × ℕ × ℕ) → Option (ℕ × ℕ) → Object ops → Object ops
  to_request_or (some (id, lower, upper)) acknowledgement o =
      if_meant (o.stream_id == id) (ops.handle_message_request lower upper) o
  to_request_or none (some (id, acknowledged)) o =
      if_meant (o.stream_id == id) (ops.handle_message_acknowledgement acknowledged) o
  to_request_or none none o = o

  module _ (m : StreamManager ops) (kept : Kept ops m) (j : ℕ) (o : Object ops)
      (at : nth m.objects j ≡ some o) where
    -- An id that is found is that of its stream.
    found_is : (id k : ℕ) → find id m.id_map ≡ some k → k ≡ id
    found_is id k e = go (nth m.objects id) (sym e ∙ kept.known id)
      where
        go : (r : Option (Object ops)) → some k ≡ if_alive ops id r → k ≡ id
        go none e = absurd (ground arith)
        go (some p) e = ground arith

    reached_found :
        (f : ops.Stream → ops.Stream) (id : ℕ) (r : Option ℕ)
        → find id m.id_map ≡ r
        → nth (to_found ops f r m).objects j ≡ some (if_meant (o.stream_id == id) f o)
    reached_found f id none e =
        at
        ∙ ap some (
            ground (
              arith,
              kept.known id,
              kept.own j o at,
              ap (if_alive ops j) at,
              ap (λ i. find i m.id_map) {x = j} {y = id},
              kept.known j,
            ))
    reached_found f id (some k) e =
        nth-lock f k j m.objects o at ∙ ap some (ground (arith, found_is id k e, kept.own j o at))

    reached_by :
        (msg : ServerMessage)
        → nth (on_server_message ops msg m).objects j
          ≡ some (to_request_or msg.message_request msg.message_acknowledgement o)
    unfolding on_server_message predicate callback handle_message_request
        handle_message_acknowledgement
    reached_by msg = go msg.message_request msg.message_acknowledgement msg.message_stream_reset
      where
        go :
            (request : Option (ℕ × ℕ × ℕ)) (acknowledgement : Option (ℕ × ℕ))
            (reset : Option (Option ℕ))
            → nth
                (if has request || has acknowledgement
                  then request_of ops request acknowledgement reset m
                  else m).objects
                j
              ≡ some (to_request_or request acknowledgement o)
        go (some (id, lower, upper)) acknowledgement reset =
            reached_found (ops.handle_message_request lower upper) id (find id m.id_map) refl
        go none (some (id, acknowledged)) reset =
            reached_found (ops.handle_message_acknowledgement acknowledged) id (find id m.id_map)
              refl
        go none none reset = at

  -- In any run of creations, destructions and arriving messages, the id of a living stream is its
  -- place in the order of creation, so that no two are the same, and its place in the vector of
  -- streams holds it. Of all streams that were created, destroyed ones included, a message with a
  -- request, or without one but with an acknowledgement, reaches the living one that has its id,
  -- and no other. A message with neither, such as one with a stream reset alone, reaches none.
  pub messages_reach :
      {m : StreamManager ops} (msg : ServerMessage) (j : ℕ) (o : Object ops)
      → Reach ops m
      → nth m.objects j ≡ some o
      → ((if o.alive then o.stream_id else j) ≡ j)
        × ((if o.alive then nth m.streams o.slot else some j) ≡ some j)
        × (nth (on_server_message ops msg m).objects j
            ≡ some (to_request_or msg.message_request msg.message_acknowledgement o))
  messages_reach {m} msg j o r at =
      let kept = Reach-Kept ops r in
      (
        ground (arith, kept.own j o at),
        ground (arith, kept.own j o at),
        reached_by m kept j o at msg,
      )
