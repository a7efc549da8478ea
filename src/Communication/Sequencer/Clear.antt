-- ===== src/Communication/Sequencer/Clear.antt =====
-- The loop of `Buffer::clear` by its rounds: a rule of induction, since the fuel is enough.
use helpers.Prelude.{
  ℕ, zero, suc, ◌+◌, ◌<◌, ◌≡◌, true, false, ltb, ◌==◌, some, Option-cases, Bool-cases, inl, inr, [],
  ◌∷◌, length, arith, u64,
}
use helpers.Communication.PriorityQueue.{PriorityQueue}
use helpers.Communication.Sequencer.{
  ServerMessage, sequence_number, greater_seq_num, Buffer, Cleared, clear_loop, clear, stopped,
  forward, previous,
}
use helpers.Communication.Sequencer.Pop.{Pops, try_pop-Pops}

module _ (pq : PriorityQueue ServerMessage greater_seq_num) where
  open pq use {Queue, items, emplace, try_pop}

  abbrev pub advanced : Buffer pq → Queue → Buffer pq
  advanced b r = record b { buffer = r; seq_num = u64 (b.seq_num + 1) }

  abbrev pub without : Buffer pq → Queue → Buffer pq
  without b r = record b { buffer = r }

  -- One case for each way in which a round ends.
  pub record Rounds {κ} (P : Buffer pq → Cleared pq → Type κ) : Type κ where
    pub drained :
        (b : Buffer pq) → items b.buffer ≡ [] → P b (stopped pq b (previous pq b.seq_num) false [])
    pub ended :
        (b : Buffer pq) (a : ServerMessage) (r : Queue)
        → Pops pq b.buffer a r
        → sequence_number a ≡ b.seq_num
        → a.end_of_stream ≡ true
        → P b (stopped pq (advanced b r) (previous pq (advanced b r).seq_num) true (a ∷ []))
    pub taken :
        (b : Buffer pq) (a : ServerMessage) (r : Queue)
        → Pops pq b.buffer a r
        → sequence_number a ≡ b.seq_num
        → a.end_of_stream ≡ false
        → (c : Cleared pq) → P (advanced b r) c
        → P b (forward pq a c)
    pub gap :
        (b : Buffer pq) (a : ServerMessage) (r : Queue)
        → Pops pq b.buffer a r
        → b.seq_num < sequence_number a
        → P b (stopped pq (without b (emplace a r)) (previous pq (sequence_number a)) false [])
    pub dropped :
        (b : Buffer pq) (a : ServerMessage) (r : Queue)
        → Pops pq b.buffer a r
        → sequence_number a < b.seq_num
        → (c : Cleared pq) → P (without b r) c
        → P b c

  module _ {κ} (P : Buffer pq → Cleared pq → Type κ) (rules : Rounds P) where
    popped :
        (fuel : ℕ) (b : Buffer pq) (a : ServerMessage) (r : Queue)
        → try_pop b.buffer ≡ some (a, r)
        → Pops pq b.buffer a r
        → P (advanced b r) (clear_loop pq fuel (advanced b r))
        → P (without b r) (clear_loop pq fuel (without b r))
        → P b (clear_loop pq (suc fuel) b)
    unfolding clear_loop
    popped fuel b a r e p next skip = elim (Bool-cases (sequence_number a == b.seq_num)) [
      | inl here ↦ elim (Bool-cases a.end_of_stream) [
        | inl last ↦ rw (e, clear_loop, here) (simp last (rules.ended b a r p (ground arith) last))
        | inr more ↦
            rw (e, clear_loop, here) (simp more (rules.taken b a r p (ground arith) more _ next))
      ]
      | inr other ↦ elim (Bool-cases (ltb b.seq_num (sequence_number a))) [
        | inl above ↦ rw (e, clear_loop, other, above) (rules.gap b a r p (ground arith))
        | inr below ↦ rw (e, clear_loop, other, below) (rules.dropped b a r p (ground arith) _ skip)
      ]
    ]

    clear_loop_ind :
        (fuel : ℕ) (b : Buffer pq) → length (items b.buffer) < fuel → P b (clear_loop pq fuel b)
    unfolding clear_loop
    clear_loop_ind zero b h = absurd (omega arith)
    clear_loop_ind (suc fuel) b h = elim (Option-cases (try_pop b.buffer)) [
      | inl e ↦ rw (e, clear_loop) (rules.drained b (pq.try_pop-eq-none b.buffer e))
      | inr ((a, r), e) ↦
          let p = try_pop-Pops pq b.buffer a r e in
          popped fuel b a r e p (clear_loop_ind fuel (advanced b r) (omega (arith, p.shorter)))
            (clear_loop_ind fuel (without b r) (omega (arith, p.shorter)))
    ]

    -- What holds of every way a round ends holds of `clear`.
    pub clear_ind : (b : Buffer pq) → P b (clear pq b)
    unfolding clear
    clear_ind b = clear_loop_ind (suc (length (items b.buffer))) b (omega arith)
