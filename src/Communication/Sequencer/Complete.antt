-- ===== src/Communication/Sequencer/Complete.antt =====
-- src/communication/layers/sequencer.h: what `Buffer::clear` leaves behind when the stream goes on.
use helpers.Prelude.{
  ℕ, suc, ◌+◌, ◌<◌, ◌≤◌, ◌≡◌, refl, false, ◌==◌, ◌⊎◌, inl, inr, [], ◌∷◌, arith, u64, u64_mod,
}
use helpers.Communication.PriorityQueue.{PriorityQueue}
use helpers.Communication.Sequencer.{
  ServerMessage, sequence_number, greater_seq_num, Buffer, Cleared, clear, stopped, forward,
  previous,
}
use helpers.Communication.Sequencer.Pop.{with_number, Pops}
use helpers.Communication.Sequencer.Clear.{Rounds, clear_ind, advanced, without}
use helpers.Communication.Sequencer.Order.{Bounded, Pops-bound, Pops-Bounded, u64-suc}

module _ (pq : PriorityQueue ServerMessage greater_seq_num) where
  open pq use {Queue, items, emplace}

  -- `last` is the number before the lowest one that waits; with none, the one before the
  -- expected number.
  abbrev pub Gap : Cleared pq → Type 0
  Gap c =
      ((items c.after.buffer ≡ []) × (c.last ≡ previous pq c.after.seq_num))
      ⊎ ((c.after.seq_num ≤ c.last)
          × (0 < with_number (suc c.last) (items c.after.buffer))
          × ((n : ℕ) → n ≤ c.last → with_number n (items c.after.buffer) ≡ 0))

  pub record Settled (b : Buffer pq) (c : Cleared pq) : Type 0 where
    pub reached : b.seq_num ≤ c.after.seq_num
    pub received :
        (n : ℕ) → b.seq_num ≤ n → n < c.after.seq_num → 0 < with_number n (items b.buffer)
    pub fresh : with_number c.after.seq_num (items b.buffer) ≡ 0
    pub awaited : (n : ℕ) → n ≤ c.after.seq_num → with_number n (items c.after.buffer) ≡ 0
    pub kept :
        (n : ℕ)
        → c.after.seq_num < n
        → with_number n (items c.after.buffer) ≡ with_number n (items b.buffer)
    pub gap : Gap c

  abbrev pub Settles : Buffer pq → Cleared pq → Type 0
  Settles b c = Bounded pq b → c.finished ≡ false → Settled b c

  drained_Settled :
      (b : Buffer pq)
      → items b.buffer ≡ []
      → Settled b (stopped pq b (previous pq b.seq_num) false [])
  drained_Settled b e = record {
    reached = omega arith;
    received = λ n l h. absurd (omega arith);
    fresh = rw e;
    awaited = λ n l. rw e;
    kept = λ n l. refl;
    gap = inl (e, refl);
  }

  module _ (b : Buffer pq) (a : ServerMessage) (r : Queue) (p : Pops pq b.buffer a r)
      (v : Bounded pq b) where
    gap_Settled :
        b.seq_num < sequence_number a
        → Settled b
            (stopped pq (without pq b (emplace a r)) (previous pq (sequence_number a)) false [])
    gap_Settled above = record {
      reached = omega arith;
      received = λ n l h. absurd (omega arith);
      fresh = ground (arith, p.counted b.seq_num, p.lowest b.seq_num);
      awaited = λ n l. below n (omega arith);
      kept = λ n l. omega (arith, p.counted n, same n);
      gap = inr (
        omega (arith, wide, above),
        ground (arith, same (sequence_number a), step),
        λ n l. below n (omega (arith, wide, l)),
      );
    }
      where
        same : (n : ℕ) → with_number n (items (emplace a r)) ≡ with_number n (a ∷ items r)
        same n = pq.items-emplace (λ m. sequence_number m == n) a r

        wide : suc (sequence_number a) < u64_mod
        wide = Pops-bound pq b a r p v

        step : suc (previous pq (sequence_number a)) ≡ sequence_number a
        step = omega (arith, wide, above)

        below : (n : ℕ) → n < sequence_number a → with_number n (items (emplace a r)) ≡ 0
        below n l = ground (arith, same n, p.lowest n)

    taken_Settled :
        sequence_number a ≡ b.seq_num
        → (c : Cleared pq) → Settles (advanced pq b r) c
        → c.finished ≡ false
        → Settled b (forward pq a c)
    taken_Settled here c ih f = record {
      reached = omega (arith, step, s.reached);
      received = λ n l h. ground (arith, step, p.counted n, s.received n);
      fresh = ground (arith, step, p.counted c.after.seq_num, s.fresh, s.reached);
      awaited = s.awaited;
      kept = λ n l. ground (arith, step, p.counted n, s.kept n, s.reached);
      gap = s.gap;
    }
      where
        wide : suc (sequence_number a) < u64_mod
        wide = Pops-bound pq b a r p v

        step : u64 (b.seq_num + 1) ≡ suc (sequence_number a)
        step = u64-suc pq b (sequence_number a) wide here

        s : Settled (advanced pq b r) c
        s = ih (Pops-Bounded pq b a r _ p v (omega (arith, step, wide))) f

    dropped_Settled :
        sequence_number a < b.seq_num
        → (c : Cleared pq) → Settles (without pq b r) c
        → c.finished ≡ false
        → Settled b c
    dropped_Settled below c ih f = record {
      reached = s.reached;
      received = λ n l h. ground (arith, p.counted n, s.received n);
      fresh = ground (arith, p.counted c.after.seq_num, s.fresh, s.reached);
      awaited = s.awaited;
      kept = λ n l. ground (arith, p.counted n, s.kept n, s.reached);
      gap = s.gap;
    }
      where
        s : Settled (without pq b r) c
        s = ih (Pops-Bounded pq b a r b.seq_num p v v.expected) f

  settles : Rounds pq Settles
  settles = record {
    drained = λ b e v f. drained_Settled b e;
    ended = λ b a r p here last v f. cc;
    taken = λ b a r p here more c ih v f. taken_Settled b a r p v here c ih f;
    gap = λ b a r p above v f. gap_Settled b a r p v above;
    dropped = λ b a r p below c ih v f. dropped_Settled b a r p v below c ih f;
  }

  pub clear-Settled :
      (b : Buffer pq) → Bounded pq b → (clear pq b).finished ≡ false → Settled b (clear pq b)
  clear-Settled = clear_ind pq Settles settles
