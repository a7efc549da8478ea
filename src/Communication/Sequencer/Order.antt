-- ===== src/Communication/Sequencer/Order.antt =====
-- What `Buffer::clear` forwards and what it leaves, when no sequence number is the largest uint64_t.
use helpers.Prelude.{
  ℕ, suc, ◌+◌, ◌<◌, ◌≤◌, ◌≡◌, refl, true, [], ◌∷◌, length, map, arith, u64, u64_mod, count_up, ap,
  ap₂, ◌∙◌,
}
use helpers.Communication.PriorityQueue.{PriorityQueue}
use helpers.Communication.Sequencer.{
  ServerMessage, sequence_number, greater_seq_num, Buffer, Cleared, clear, stopped, forward,
  previous,
}
use helpers.Communication.Sequencer.Pop.{with_number, Pops}
use helpers.Communication.Sequencer.Clear.{Rounds, clear_ind, advanced}

module _ (pq : PriorityQueue ServerMessage greater_seq_num) where
  open pq use {Queue, items, emplace}

  -- The expected number, and those of the queue, stay below the largest uint64_t.
  pub record Bounded (b : Buffer pq) : Type 0 where
    pub expected : b.seq_num < u64_mod
    pub held : (n : ℕ) → u64_mod ≤ suc n → with_number n (items b.buffer) ≡ 0

  -- What is forwarded has the consecutive numbers from the expected one on, and the buffer then
  -- expects the number after them.
  pub record InOrder (b : Buffer pq) (c : Cleared pq) : Type 0 where
    pub numbers : map sequence_number c.forwarded ≡ count_up b.seq_num (length c.forwarded)
    pub expected : c.after.seq_num ≡ b.seq_num + length c.forwarded
    pub bounded : c.after.seq_num < u64_mod
    pub acknowledged : c.after.seq_num_ack ≡ b.seq_num_ack

  abbrev pub Ordered : Buffer pq → Cleared pq → Type 0
  Ordered b c = Bounded b → InOrder b c

  pub Pops-bound :
      (b : Buffer pq) (a : ServerMessage) (r : Queue)
      → Pops pq b.buffer a r
      → Bounded b
      → suc (sequence_number a) < u64_mod
  Pops-bound b a r p v = ground (arith, p.counted (sequence_number a), v.held (sequence_number a))

  pub Pops-Bounded :
      (b : Buffer pq) (a : ServerMessage) (r : Queue) (n : ℕ)
      → Pops pq b.buffer a r
      → Bounded b
      → n < u64_mod
      → Bounded (record b { buffer = r; seq_num = n })
  Pops-Bounded b a r n p v h = record {
    expected = h;
    held = λ k l. ground (arith, p.counted k, v.held k l);
  }

  pub u64-suc :
      (b : Buffer pq) (n : ℕ) → suc n < u64_mod → n ≡ b.seq_num → u64 (b.seq_num + 1) ≡ suc n
  u64-suc b n h e = omega arith

  module _ (b : Buffer pq) (a : ServerMessage) (r : Queue) (p : Pops pq b.buffer a r) where
    taken_InOrder :
        sequence_number a ≡ b.seq_num
        → (c : Cleared pq) → Ordered (advanced pq b r) c
        → Bounded b
        → InOrder b (forward pq a c)
    taken_InOrder here c ih v =
        let wide = Pops-bound b a r p v in
        let step = u64-suc b (sequence_number a) wide here in
        let o = ih (Pops-Bounded b a r _ p v (omega (arith, step, wide))) in
        record {
          numbers =
              ap₂ ◌∷◌ here
                (o.numbers ∙ ap (λ n. count_up n (length c.forwarded)) (omega (arith, step, here)));
          expected = omega (arith, step, here, o.expected);
          bounded = o.bounded;
          acknowledged = o.acknowledged;
        }

    ended_InOrder :
        sequence_number a ≡ b.seq_num
        → Bounded b
        → InOrder b
            (stopped pq (advanced pq b r) (previous pq (advanced pq b r).seq_num) true (a ∷ []))
    ended_InOrder here v =
        let wide = Pops-bound b a r p v in
        let step = u64-suc b (sequence_number a) wide here in
        record {
          numbers = ap (λ n. n ∷ []) here;
          expected = omega (arith, step, here);
          bounded = omega (arith, step, wide);
          acknowledged = refl;
        }

  ordered : Rounds pq Ordered
  ordered = record {
    drained = λ b e v. record {
      numbers = refl;
      expected = omega arith;
      bounded = v.expected;
      acknowledged = refl;
    };
    ended = λ b a r p here last v. ended_InOrder b a r p here v;
    taken = λ b a r p here more c ih v. taken_InOrder b a r p here c ih v;
    gap = λ b a r p above v. record {
      numbers = refl;
      expected = omega arith;
      bounded = v.expected;
      acknowledged = refl;
    };
    dropped = λ b a r p below c ih v.
        let o = ih (Pops-Bounded b a r b.seq_num p v v.expected) in
        record {
          numbers = o.numbers;
          expected = o.expected;
          bounded = o.bounded;
          acknowledged = o.acknowledged;
        };
  }

  pub clear-InOrder : (b : Buffer pq) → Bounded b → InOrder b (clear pq b)
  clear-InOrder = clear_ind pq Ordered ordered
