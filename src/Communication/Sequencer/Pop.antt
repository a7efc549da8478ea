-- ===== src/Communication/Sequencer/Pop.antt =====
-- One pop of the buffer's queue, counted by sequence numbers.
use helpers.Prelude.{
  ℕ, suc, ◌+◌, ◌<◌, ◌≡◌, sym, ◌∙◌, true, ◌==◌, if◌then◌else◌, some, length, count_if, count_if-true,
  count_if_mono, arith, List,
}
use helpers.Communication.PriorityQueue.{PriorityQueue}
use helpers.Communication.Sequencer.{ServerMessage, sequence_number, greater_seq_num}

-- How many messages of a list have the sequence number `n`.
abbrev pub with_number : ℕ → List ServerMessage → ℕ
with_number n = count_if (λ m. sequence_number m == n)

-- How many messages of a list end their stream.
abbrev pub ends : List ServerMessage → ℕ
ends = count_if (λ m. m.end_of_stream)

module _ (pq : PriorityQueue ServerMessage greater_seq_num) where
  open pq use {Queue, items, try_pop}

  pub record Pops (q : Queue) (a : ServerMessage) (r : Queue) : Type 0 where
    pub shorter : length (items q) ≡ suc (length (items r))
    pub counted :
        (n : ℕ)
        → with_number n (items q)
          ≡ (if sequence_number a == n then 1 else 0) + with_number n (items r)
    pub counted_ends : ends (items q) ≡ (if a.end_of_stream then 1 else 0) + ends (items r)
    pub lowest : (n : ℕ) → n < sequence_number a → with_number n (items r) ≡ 0

  pub try_pop-Pops :
      (q : Queue) (a : ServerMessage) (r : Queue) → try_pop q ≡ some (a, r) → Pops q a r
  try_pop-Pops q a r e = record {
    shorter =
        sym (count_if-true (items q))
        ∙ pq.try_pop-eq-some (λ _. true) q a r e
        ∙ omega (arith, count_if-true (items r));
    counted = λ n. pq.try_pop-eq-some (λ m. sequence_number m == n) q a r e;
    counted_ends = pq.try_pop-eq-some (λ m. m.end_of_stream) q a r e;
    lowest = λ n h. omega (
      arith,
      pq.try_pop_first q a r e,
      count_if_mono (λ m. sequence_number m == n) (greater_seq_num a) (λ x p. ground arith)
          (items r),
    );
  }
