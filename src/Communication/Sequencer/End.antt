-- ===== src/Communication/Sequencer/End.antt =====
-- When `Buffer::clear` reports the end of a stream.
use helpers.Prelude.{suc, ◌≡◌, refl, Bool, true, false, not, ◌&&◌, List, [], ◌∷◌, arith}
use helpers.Communication.PriorityQueue.{PriorityQueue}
use helpers.Communication.Sequencer.{
  ServerMessage, sequence_number, greater_seq_num, Buffer, Cleared, clear,
}
use helpers.Communication.Sequencer.Pop.{ends}
use helpers.Communication.Sequencer.Clear.{Rounds, clear_ind}
use helpers.Communication.Sequencer.Order.{Bounded, Pops-bound, Pops-Bounded, u64-suc}

-- The last message of the list, and no earlier one, ends the stream.
abbrev pub closes : List ServerMessage → Bool
closes [] = false
closes (m ∷ []) = m.end_of_stream
closes (m ∷ x ∷ rest) = not m.end_of_stream && closes (x ∷ rest)

closes-cons :
    (m : ServerMessage) (out : List ServerMessage)
    → m.end_of_stream ≡ false
    → closes out ≡ true
    → closes (m ∷ out) ≡ true
closes-cons m [] e h = cc
closes-cons m (x ∷ out) e h = rw e h

module _ (pq : PriorityQueue ServerMessage greater_seq_num) where
  open pq use {items}

  abbrev Unended : Buffer pq → Cleared pq → Type 0
  Unended b c =
      ends (items b.buffer) ≡ 0
      → (c.finished ≡ false) × (ends (items c.after.buffer) ≡ 0) × (ends c.forwarded ≡ 0)

  unended : Rounds pq Unended
  unended = record {
    drained = λ b e z. (refl, z, refl);
    ended = λ b a r p here last z. absurd (ground (arith, p.counted_ends));
    taken = λ b a r p here more c ih z. ground (arith, p.counted_ends);
    gap = λ b a r p above z.
        (refl, ground (arith, p.counted_ends, pq.items-emplace (λ m. m.end_of_stream) a r), refl);
    dropped = λ b a r p below c ih z. ground (arith, p.counted_ends);
  }

  -- A buffer that holds no end of stream reports none, and still holds none.
  pub clear-unended :
      (b : Buffer pq)
      → ends (items b.buffer) ≡ 0
      → ((clear pq b).finished ≡ false)
        × (ends (items (clear pq b).after.buffer) ≡ 0)
        × (ends (clear pq b).forwarded ≡ 0)
  clear-unended = clear_ind pq Unended unended

  abbrev Ended : Buffer pq → Cleared pq → Type 0
  Ended b c =
      Bounded pq b
      → (c.finished ≡ true → (suc c.last ≡ c.after.seq_num) × (closes c.forwarded ≡ true))
        × (c.finished ≡ false → ends c.forwarded ≡ 0)

  Ended-rounds : Rounds pq Ended
  Ended-rounds = record {
    drained = λ b e v. (λ f. cc, λ f. refl);
    ended = λ b a r p here last v.
        let wide = Pops-bound pq b a r p v in
        let step = u64-suc pq b (sequence_number a) wide here in
        (λ f. (omega (arith, step, wide), last), λ f. cc);
    taken = λ b a r p here more c ih v.
        let wide = Pops-bound pq b a r p v in
        let step = u64-suc pq b (sequence_number a) wide here in
        let (yes_end, no_end) = ih (Pops-Bounded pq b a r _ p v (omega (arith, step, wide))) in
        (
          λ f. ((yes_end f).0, closes-cons a c.forwarded more (yes_end f).1),
          λ f. ground (arith, no_end f),
        );
    gap = λ b a r p above v. (λ f. cc, λ f. refl);
    dropped = λ b a r p below c ih v. ih (Pops-Bounded pq b a r b.seq_num p v v.expected);
  }

  -- If `clear` reports the end, the last message forwarded ended the stream, no earlier one did,
  -- and the number returned is the last one forwarded; otherwise no message forwarded did.
  pub clear-Ended :
      (b : Buffer pq)
      → Bounded pq b
      → ((clear pq b).finished ≡ true
          → (suc (clear pq b).last ≡ (clear pq b).after.seq_num)
            × (closes (clear pq b).forwarded ≡ true))
        × ((clear pq b).finished ≡ false → ends (clear pq b).forwarded ≡ 0)
  clear-Ended = clear_ind pq Ended Ended-rounds
