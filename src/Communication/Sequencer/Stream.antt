-- ===== src/Communication/Sequencer/Stream.antt =====
-- One message of a stream: what is acknowledged and requested, and the state of a stream over all
-- that has arrived for it.
use helpers.Prelude.{
  ℕ, suc, ◌<◌, ◌≤◌, ◌≡◌, refl, false, leb, ◌==◌, inl, inr, List, [], ◌∷◌, arith, u64_mod,
  Bool-cases,
}
use helpers.Communication.PriorityQueue.{PriorityQueue}
use helpers.Communication.Sequencer.{
  ServerMessage, sequence_number, greater_seq_num, Buffer, push, clear, new_buffer,
}
use helpers.Communication.Sequencer.Pop.{with_number}
use helpers.Communication.Sequencer.Order.{Bounded, InOrder, clear-InOrder}
use helpers.Communication.Sequencer.Complete.{Settled, clear-Settled}

module _ (pq : PriorityQueue ServerMessage greater_seq_num) where
  open pq use {Queue, items, emplace}

  -- What is known of a stream's buffer when the messages `seen` have arrived: it expects the
  -- least number that none of them has, and holds those that have a later one.
  pub record Tracks (seen : List ServerMessage) (b : Buffer pq) : Type 0 where
    pub in_range : b.seq_num < u64_mod
    pub acknowledged : b.seq_num_ack ≤ b.seq_num
    pub arrived : (n : ℕ) → n < b.seq_num → 0 < with_number n seen
    pub expected : with_number b.seq_num seen ≡ 0
    pub forwarded : (n : ℕ) → n ≤ b.seq_num → with_number n (items b.buffer) ≡ 0
    pub waiting : (n : ℕ) → b.seq_num < n → with_number n (items b.buffer) ≡ with_number n seen

  -- No message has the largest uint64_t for its number.
  abbrev pub InRange : List ServerMessage → Type 0
  InRange ms = (n : ℕ) → u64_mod ≤ suc n → with_number n ms ≡ 0

  pub Tracks-new : Tracks [] (new_buffer pq)
  Tracks-new = record {
    in_range = omega arith;
    acknowledged = omega arith;
    arrived = λ n h. absurd (omega arith);
    expected = refl;
    forwarded = λ n h. rw pq.items-empty;
    waiting = λ n h. rw pq.items-empty;
  }

  module _ (seen : List ServerMessage) (b : Buffer pq) (m : ServerMessage) (t : Tracks seen b)
      (v : InRange (m ∷ seen)) where
    pub push_numbers :
        ((push pq b m).seq_num ≡ b.seq_num) × ((push pq b m).seq_num_ack ≡ b.seq_num_ack)
    unfolding push
    push_numbers = ground arith

    pub push_counted :
        (n : ℕ)
        → b.seq_num ≤ n
        → with_number n (items (push pq b m).buffer) ≡ with_number n (m ∷ items b.buffer)
    unfolding push
    push_counted n h = ground (arith, pq.items-emplace (λ x. sequence_number x == n) m b.buffer)

    push_below : (n : ℕ) → n < b.seq_num → with_number n (items (push pq b m).buffer) ≡ 0
    unfolding push
    push_below n h =
        ground (arith, t.forwarded n, pq.items-emplace (λ x. sequence_number x == n) m b.buffer)

    pub push-Bounded : Bounded pq (push pq b m)
    push-Bounded = record {
      expected = omega (arith, push_numbers, t.in_range);
      held = λ n h. elim (Bool-cases (leb b.seq_num n)) [
        | inl above ↦ ground (arith, push_counted n, v n h, t.waiting n, t.forwarded n)
        | inr below ↦ push_below n (ground arith)
      ];
    }

    pub in_order : InOrder pq (push pq b m) (clear pq (push pq b m))
    in_order = clear-InOrder pq (push pq b m) push-Bounded

    module _ (open_ended : (clear pq (push pq b m)).finished ≡ false) where
      pub settled : Settled pq (push pq b m) (clear pq (push pq b m))
      settled = clear-Settled pq (push pq b m) push-Bounded open_ended

      pub clear-push-Tracks : Tracks (m ∷ seen) (clear pq (push pq b m)).after
      clear-push-Tracks = record {
        in_range = in_order.bounded;
        acknowledged =
            omega (arith, in_order.acknowledged, settled.reached, push_numbers, t.acknowledged);
        arrived = λ n h. ground (
          arith,
          push_numbers,
          t.arrived n,
          settled.received n,
          push_counted n,
          t.forwarded n,
          t.waiting n,
        );
        expected = ground (
          arith,
          push_numbers,
          settled.reached,
          settled.fresh,
          push_counted (clear pq (push pq b m)).after.seq_num,
          t.expected,
          t.waiting (clear pq (push pq b m)).after.seq_num,
        );
        forwarded = settled.awaited;
        waiting = λ n h.
            ground
              (arith, push_numbers, settled.reached, settled.kept n, push_counted n, t.waiting n);
      }
