-- ===== src/Communication/StreamManager/Alive.antt =====
-- src/communication/streaming/streamManager.h: which streams the manager holds, and where.
use helpers.Prelude.{
  ℕ, zero, suc, ◌+◌, ◌≤◌, ◌<◌, ◌^◌, ltb, ◌==◌, ◌&&◌, if◌then◌else◌, Bool, true, false, Bool-cases,
  u64, Option, none, some, List, [], ◌∷◌, ◌++◌, length, length-append, count_if, find, put,
  find-put, find-erase, ◌≡◌, ◌≢◌, refl, sym, ap, subst, ◌∙◌, inl, inr, arith,
}
use helpers.Communication.StreamManager.{
  Streams, nth, set_nth, Object, StreamManager, constructed, create_in, create_with, create,
  destroy_at,
}
use helpers.Communication.StreamManager.Places.{
  nth-append, nth-some, nth-set_nth, length-set_nth, count_if-set_nth, count_if-nth, count_if_new,
}

abbrev pub times : ℕ → List ℕ → ℕ
times n ns = count_if (λ m. m == n) ns

module _ (ops : Streams) where
  abbrev pub uses : ℕ → Object ops → Bool
  uses place o = o.alive && (o.slot == place)

  -- How many living streams have a place.
  abbrev pub users : ℕ → List (Object ops) → ℕ
  users place objects = count_if (uses place) objects

  abbrev pub if_alive : ℕ → Option (Object ops) → Option ℕ
  if_alive k none = none
  if_alive k (some o) = if o.alive then some k else none

  -- Each place is free or has one living stream, at most. A living stream stands in its place, under
  -- its id, and in no other place.
  pub record Kept (m : StreamManager ops) : Type 0 where
    pub counted : m.next_stream_id ≡ u64 (length m.objects)
    pub places :
        (place : ℕ)
        → times place m.streams_slots + users place m.objects
          ≤ (if ltb place (length m.streams) then 1 else 0)
    pub own :
        (k : ℕ) (o : Object ops)
        → nth m.objects k ≡ some o
        → o.alive ≡ true
        → (nth m.streams o.slot ≡ some k) × (o.stream_id ≡ k)
    pub once : (k : ℕ) → times k m.streams ≤ (if ltb k (length m.objects) then 1 else 0)
    pub known : (j : ℕ) → find j m.id_map ≡ if_alive j (nth m.objects j)

  pub constructed-Kept : Kept (constructed ops)
  constructed-Kept = record {
    counted = refl;
    places = λ place. ground arith;
    own = λ k o e a. absurd (ground arith);
    once = λ k. ground arith;
    known = λ j. refl;
  }

  -- A new object, when its place holds it and no other living stream does.
  module _ (m : StreamManager ops) (kept : Kept m) (few : length m.objects < 2 ^ 64) where
    new_id : m.next_stream_id ≡ length m.objects
    new_id = omega (arith, kept.counted)

    new_known :
        (o : Object ops) (j : ℕ)
        → o.alive ≡ true
        → find j (put m.next_stream_id (length m.objects) m.id_map)
          ≡ if_alive j (nth (m.objects ++ o ∷ []) j)
    new_known o j a = ground (
      arith,
      find-put m.next_stream_id j (length m.objects) m.id_map,
      kept.known j,
      nth-append m.objects o j,
      new_id,
      beyond m.objects j,
    )
      where
        beyond : (os : List (Object ops)) (j : ℕ) → length os ≤ j → nth os j ≡ none
        beyond [] j h = refl
        beyond (x ∷ os) zero h = absurd (omega arith)
        beyond (x ∷ os) (suc j) h = beyond os j (omega arith)

    -- The vector `streams` after the new object was put at `it`, and the places left free.
    create_in-Kept :
        (it : ℕ) (streams slots : List ℕ)
        → (nth streams it ≡ some (length m.objects))
        → ((i k : ℕ) → i ≢ it → nth m.streams i ≡ some k → nth streams i ≡ some k)
        → users it m.objects ≡ 0
        → ((place : ℕ)
            → times place slots + (if it == place then 1 else 0) + users place m.objects
              ≤ (if ltb place (length streams) then 1 else 0))
        → ((k : ℕ) → times k streams ≤ times k m.streams + (if length m.objects == k then 1 else 0))
        → Kept (create_in ops it (record m { streams = streams; streams_slots = slots }))
    create_in-Kept it streams slots here others unused free at_most = record {
      counted = omega (arith, kept.counted, length-append m.objects (new ∷ []));
      places = λ place. ground (arith, free place, count_if_new (uses place) m.objects new);
      own = owns;
      once = λ k. ground (arith, at_most k, kept.once k, length-append m.objects (new ∷ []));
      known = λ j. new_known new j refl;
    }
      where
        new : Object ops
        new = record {
          stream_id = m.next_stream_id;
          slot = it;
          alive = true;
          stream = ops.created m.next_stream_id;
        }

        owns :
            (k : ℕ) (o : Object ops)
            → nth (m.objects ++ new ∷ []) k ≡ some o
            → o.alive ≡ true
            → (nth streams o.slot ≡ some k) × (o.stream_id ≡ k)
        owns k o e a = elim (Bool-cases (ltb k (length m.objects))) [
          | inl old ↦
              let before : nth m.objects k ≡ some o = ground (arith, nth-append m.objects new k) in
              let (stands, id) = kept.own k o before a in
              let elsewhere : o.slot ≢ it = λ same.
                omega (arith, unused, count_if-nth (uses it) m.objects k o before (ground arith)) in
              (others o.slot k elsewhere stands, id)
          | inr newer ↦
              let at : k ≡ length m.objects = ground (arith, nth-append m.objects new k) in
              let is : some new ≡ some o = ground (arith, nth-append m.objects new k) in
              (
                ap (nth streams) (sym (ap slot_of is)) ∙ here ∙ ap some (sym at),
                sym (ap id_of is) ∙ new_id ∙ sym at,
              )
        ]
          where
            slot_of : Option (Object ops) → ℕ
            slot_of none = 0
            slot_of (some o) = o.slot

            id_of : Option (Object ops) → ℕ
            id_of none = 0
            id_of (some o) = o.stream_id

    create_with-Kept : (slots : List ℕ) → m.streams_slots ≡ slots → Kept (create_with ops slots m)
    create_with-Kept [] e =
        let it = length m.streams in
        let streams = m.streams ++ length m.objects ∷ [] in
        subst
          (λ slots. Kept (create_in ops it (record m { streams = streams; streams_slots = slots })))
          (sym e)
          (create_in-Kept it streams [] (ground (arith, nth-append m.streams (length m.objects) it))
            (λ i k differ stands.
              ground
                (arith, nth-append m.streams (length m.objects) i, nth-some m.streams i k stands))
            (ground (arith, kept.places it))
            (λ place.
              ground (arith, kept.places place, length-append m.streams (length m.objects ∷ [])))
            (λ k. ground (arith, count_if_new (λ n. n == k) m.streams (length m.objects))))
    create_with-Kept (it ∷ slots) e =
        let streams = set_nth m.streams it (length m.objects) in
        let same = ap (times it) e in
        create_in-Kept it streams slots
          (ground (arith, nth-set_nth m.streams it it (length m.objects), kept.places it))
          (λ i k differ stands. ground (arith, nth-set_nth m.streams it i (length m.objects)))
          (ground (arith, kept.places it))
          (λ place. ground (
            arith,
            kept.places place,
            ap (times place) e,
            length-set_nth m.streams it (length m.objects),
          ))
          (λ k. replaced m.streams it k)
      where
        replaced :
            (ns : List ℕ) (i k : ℕ)
            → times k (set_nth ns i (length m.objects))
              ≤ times k ns + (if length m.objects == k then 1 else 0)
        replaced [] i k = omega arith
        replaced (n ∷ ns) zero k = ground arith
        replaced (n ∷ ns) (suc i) k = omega (arith, replaced ns i k)

    pub create-Kept : Kept (create ops m)
    unfolding create
    create-Kept = create_with-Kept m.streams_slots refl

  module _ (m : StreamManager ops) (kept : Kept m) (k : ℕ) (o : Object ops)
      (at : nth m.objects k ≡ some o) where
    pub destroyed-Kept : o.alive ≡ true → Kept (destroy_at ops k (some o) m)
    destroyed-Kept lives = rw lives (record {
      counted = kept.counted ∙ ap u64 (sym (length-set_nth m.objects k gone));
      places = λ place. ground (
        arith,
        kept.places place,
        count_if_new (λ n. n == place) m.streams_slots o.slot,
        count_if-set_nth (uses place) m.objects k o gone at,
      );
      own = λ j p e a. ground (arith, nth-set_nth m.objects k j gone, kept.own j p);
      once = λ j. ground (arith, kept.once j, length-set_nth m.objects k gone);
      known = λ j. ground (
        arith,
        kept.known j,
        find-erase o.stream_id j m.id_map,
        (kept.own k o at lives).1,
        nth-set_nth m.objects k j gone,
      );
    })
      where
        gone : Object ops
        gone = record o { alive = false; stream = ops.close o.stream }
