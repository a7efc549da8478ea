-- ===== src/Communication/StreamManager/Runs.antt =====
-- src/communication/streaming/streamManager.h: what holds of the manager over every run.
use helpers.Prelude.{
  ℕ, ◌<◌, ◌^◌, if◌then◌else◌, Bool, Bool-cases, u64, Option, none, some, List, [], ◌∷◌, length,
  find, ◌≡◌, refl, sym, ap, subst, ◌∙◌, inl, inr, arith,
}
use helpers.Communication.StreamManager.{
  ServerMessage, predicate, reset_of, request_of, callback, on_server_message, Streams, nth,
  set_nth, Object, StreamManager, constructed, create, destroy_at, destroy, locked, lock, to_found,
  handle_message_request, handle_message_acknowledgement, reset_all, handle_message_stream_reset,
}
use helpers.Communication.StreamManager.Places.{
  nth-some, nth-set_nth, length-set_nth, count_if-set_nth,
}
use helpers.Communication.StreamManager.Alive.{
  uses, if_alive, Kept, constructed-Kept, create-Kept, destroyed-Kept,
}

module _ (ops : Streams) where
  -- Managers, with fewer streams than a 64-bit number counts.
  pub data Reach : StreamManager ops → Type 0 where
    starts : Reach (constructed ops)
    creates : {m : StreamManager ops} → Reach m → length m.objects < 2 ^ 64 → Reach (create ops m)
    destroys : {m : StreamManager ops} (k : ℕ) → Reach m → Reach (destroy ops k m)
    arrives :
        {m : StreamManager ops} (msg : ServerMessage)
        → Reach m
        → Reach (on_server_message ops msg m)

  destroy_at-Kept :
      (k : ℕ) (r : Option (Object ops)) (m : StreamManager ops)
      → nth m.objects k ≡ r
      → Kept ops m
      → Kept ops (destroy_at ops k r m)
  destroy_at-Kept k none m e kept = kept
  destroy_at-Kept k (some o) m e kept = elim (Bool-cases o.alive) [
    | inl lives ↦ destroyed-Kept ops m kept k o e lives
    | inr dead ↦ rw dead kept
  ]

  -- A stream does something.
  changed : (ops.Stream → ops.Stream) → Object ops → Object ops
  changed f o = record o { stream = f o.stream }

  changed-Kept :
      (m : StreamManager ops) (f : ops.Stream → ops.Stream) (k : ℕ) (o : Object ops)
      → nth m.objects k ≡ some o
      → Kept ops m
      → Kept ops (record m { objects = set_nth m.objects k (changed f o) })
  unfolding changed
  changed-Kept m f k o at kept = record {
    counted = kept.counted ∙ ap u64 (sym (length-set_nth m.objects k (changed f o)));
    places = λ place. ground (
      arith,
      kept.places place,
      count_if-set_nth (uses ops place) m.objects k o (changed f o) at,
    );
    own = λ j p e a. ground (
      arith,
      nth-set_nth m.objects k j (changed f o),
      kept.own j p,
      kept.own k o at,
      nth-some m.objects k o at,
      ap slot_of e,
      ap id_of e,
    );
    once = λ j. ground (arith, kept.once j, length-set_nth m.objects k (changed f o));
    known = λ j. ground (
      arith,
      kept.known j,
      ap (if_alive ops k) at,
      nth-set_nth m.objects k j (changed f o),
      nth-some m.objects k o at,
    );
  }
    where
      slot_of : Option (Object ops) → ℕ
      slot_of none = 0
      slot_of (some o) = o.slot

      id_of : Option (Object ops) → ℕ
      id_of none = 0
      id_of (some o) = o.stream_id

  same-Kept : (m : StreamManager ops) → Kept ops m → Kept ops (record m { objects = m.objects })
  same-Kept m kept = record {
    counted = kept.counted;
    places = kept.places;
    own = kept.own;
    once = kept.once;
    known = kept.known;
  }

  lock-Kept :
      (f : ops.Stream → ops.Stream) (k : ℕ) (r : Option (Object ops)) (m : StreamManager ops)
      → nth m.objects k ≡ r
      → Kept ops m
      → Kept ops (record m { objects = locked ops f k r m.objects })
  unfolding changed
  lock-Kept f k none m e kept = same-Kept m kept
  lock-Kept f k (some o) m e kept = elim (Bool-cases o.alive) [
    | inl lives ↦ subst with_objects (sym lives) (changed-Kept m f k o e kept)
    | inr dead ↦ subst with_objects (sym dead) (same-Kept m kept)
  ]
    where
      with_objects : Bool → Type 0
      with_objects b =
          Kept ops
            (record m { objects = if b then set_nth m.objects k (changed f o) else m.objects })

  to_found-Kept :
      (f : ops.Stream → ops.Stream) (r : Option ℕ) (m : StreamManager ops)
      → Kept ops m
      → Kept ops (to_found ops f r m)
  to_found-Kept f none m kept = kept
  to_found-Kept f (some k) m kept = lock-Kept f k (nth m.objects k) m refl kept

  reset_all-Kept :
      (ks : List ℕ) (m : StreamManager ops)
      → Kept ops m
      → Kept ops (record m { objects = reset_all ops ks m.objects })
  reset_all-Kept [] m kept = same-Kept m kept
  reset_all-Kept (k ∷ ks) m kept =
      reset_all-Kept ks (record m { objects = lock ops ops.reset k m.objects })
        (lock-Kept ops.reset k (nth m.objects k) m refl kept)

  reset_of-Kept :
      (reset : Option (Option ℕ)) (m : StreamManager ops)
      → Kept ops m
      → Kept ops (reset_of ops reset m)
  unfolding handle_message_stream_reset
  reset_of-Kept none m kept = kept
  reset_of-Kept (some (some stream_id)) m kept =
      to_found-Kept ops.reset (find stream_id m.id_map) m kept
  reset_of-Kept (some none) m kept = reset_all-Kept m.streams m kept

  request_of-Kept :
      (request : Option (ℕ × ℕ × ℕ)) (acknowledgement : Option (ℕ × ℕ)) (reset : Option (Option ℕ))
      (m : StreamManager ops)
      → Kept ops m
      → Kept ops (request_of ops request acknowledgement reset m)
  unfolding handle_message_request handle_message_acknowledgement
  request_of-Kept none none reset m kept = reset_of-Kept reset m kept
  request_of-Kept none (some (stream_id, acknowledged)) reset m kept =
      to_found-Kept (ops.handle_message_acknowledgement acknowledged) (find stream_id m.id_map) m
        kept
  request_of-Kept (some (stream_id, lower, upper)) acknowledgement reset m kept =
      to_found-Kept (ops.handle_message_request lower upper) (find stream_id m.id_map) m kept

  arrived-Kept :
      (msg : ServerMessage) (m : StreamManager ops)
      → Kept ops m
      → Kept ops (on_server_message ops msg m)
  unfolding on_server_message callback
  arrived-Kept msg m kept = elim (Bool-cases (predicate msg)) [
    | inl heard ↦ rw heard (
        request_of-Kept msg.message_request msg.message_acknowledgement msg.message_stream_reset m
          kept)
    | inr dropped ↦ rw dropped kept
  ]

  pub Reach-Kept : {m : StreamManager ops} → Reach m → Kept ops m
  unfolding destroy
  Reach-Kept starts = constructed-Kept ops
  Reach-Kept (creates {m} r few) = create-Kept ops m (Reach-Kept r) few
  Reach-Kept (destroys {m} k r) = destroy_at-Kept k (nth m.objects k) m refl (Reach-Kept r)
  Reach-Kept (arrives {m} msg r) = arrived-Kept msg m (Reach-Kept r)
