-- ===== src/Buffering/WriteBuffer/Confirm.antt =====
-- src/buffering/writeBuffer.h: the sizes that wait for a confirmation, and the loop of `confirm`.
use helpers.Prelude.{
  ℕ, ◌+◌, ◌-◌, ◌<◌, ◌≤◌, ◌≡◌, refl, ap, inl, inr, Bool-cases, ltb, ◌==◌, some, List, [], ◌∷◌, ◌++◌,
  length, arith,
}
use helpers.KeyValue.Buffer.{Bytes}
use helpers.Buffering.WriteBuffer.{WriteBuffer, join, push_buffer, confirm_loop, confirm, confirmed}
use helpers.Buffering.WriteBuffer.Ranges.{Ends, total, total-join, join-Ends}

abbrev pub sum : List ℕ → ℕ
sum [] = 0
sum (n ∷ ns) = n + sum ns

abbrev pub AllPositive : List ℕ → Type 0
AllPositive [] = Unit
AllPositive (n ∷ ns) = (0 < n) × AllPositive ns

-- The sizes that a buffer keeps are those of what it holds and of what was sent.
pub record Valid (w : WriteBuffer) : Type 0 where
  pub buffered : w.buffered_size ≡ total w.buffers
  pub pending : w.pending_confirmation ≡ sum w.confirmation_futures
  pub positive : AllPositive w.confirmation_futures
  pub ends : Ends w.next_offset w.buffers

sum-append : (ns : List ℕ) (n : ℕ) → sum (ns ++ n ∷ []) ≡ sum ns + n
sum-append [] n = omega arith
sum-append (m ∷ ns) n = omega (arith, sum-append ns n)

AllPositive-append : (ns : List ℕ) (n : ℕ) → AllPositive ns → 0 < n → AllPositive (ns ++ n ∷ [])
AllPositive-append [] n a p = (p, tt)
AllPositive-append (m ∷ ns) n (q, a) p = (q, AllPositive-append ns n a p)

pub push_buffer-Valid : (w : WriteBuffer) → Valid w → Valid (push_buffer w)
unfolding push_buffer
push_buffer-Valid w v = elim (Bool-cases (w.buffered_size == 0)) [
  | inl empty ↦ rw empty v
  | inr some_bytes ↦ rw some_bytes record {
    buffered = refl;
    pending = omega (arith, v.pending, sum-append w.confirmation_futures w.buffered_size);
    positive = AllPositive-append w.confirmation_futures w.buffered_size v.positive (ground arith);
    ends = tt;
  }
]

-- What the loop leaves: the last sizes, which add up to what is pending, not above the threshold.
pub record Left (threshold pending : ℕ) (ns : List ℕ) : Type 0 where
  pub rest : List ℕ
  pub runs : confirm_loop threshold pending ns ≡ some (sum rest, rest)
  pub within : sum rest ≤ threshold
  pub positive : AllPositive rest

pub confirm_loop_lem :
    (threshold pending : ℕ) (ns : List ℕ)
    → pending ≡ sum ns
    → AllPositive ns
    → Left threshold pending ns
unfolding confirm_loop
confirm_loop_lem threshold pending [] e a = record {
  rest = [];
  runs = rw e (ground arith);
  within = omega arith;
  positive = tt;
}
confirm_loop_lem threshold pending (n ∷ ns) e (p, a) =
    let more = confirm_loop_lem threshold (pending - n) ns (omega arith) a in
    elim (Bool-cases (ltb threshold pending)) [
      | inl above ↦ record {
        rest = more.rest;
        runs = rw above more.runs;
        within = more.within;
        positive = more.positive;
      }
      | inr below ↦ record {
        rest = n ∷ ns;
        runs = rw below (ap (λ x. some (x, n ∷ ns)) e);
        within = ground arith;
        positive = (p, a);
      }
    ]

-- A valid buffer is confirmed, down to the threshold, and keeps all else.
pub record ConfirmedTo (threshold : ℕ) (w : WriteBuffer) : Type 0 where
  pub after : WriteBuffer
  pub runs : confirm w threshold ≡ some after
  pub valid : Valid after
  pub within : after.pending_confirmation ≤ threshold
  pub same_buffers : after.buffers ≡ w.buffers
  pub same_size : after.buffered_size ≡ w.buffered_size
  pub same_sent : after.sent ≡ w.sent

pub confirm_lem : (w : WriteBuffer) (threshold : ℕ) → Valid w → ConfirmedTo threshold w
unfolding confirm
confirm_lem w threshold v =
    let left =
      confirm_loop_lem threshold w.pending_confirmation w.confirmation_futures v.pending
        v.positive in
    record {
      after = record w { pending_confirmation = sum left.rest; confirmation_futures = left.rest };
      runs = ap (confirmed w) left.runs;
      valid = record {
        buffered = v.buffered;
        pending = refl;
        positive = left.positive;
        ends = v.ends;
      };
      within = left.within;
      same_buffers = refl;
      same_size = refl;
      same_sent = refl;
    }

abbrev pub joined : WriteBuffer → ℕ → Bytes → WriteBuffer
joined w offset buf = record w {
  buffers = join w.next_offset w.buffers offset buf;
  buffered_size = w.buffered_size + length buf;
  next_offset = offset + length buf;
}

pub joined-Valid :
    (w : WriteBuffer) (offset : ℕ) (buf : Bytes) → Valid w → Valid (joined w offset buf)
joined-Valid w offset buf v = record {
  buffered = omega (arith, v.buffered, total-join w.next_offset w.buffers offset buf);
  pending = v.pending;
  positive = v.positive;
  ends = join-Ends w.next_offset w.buffers offset buf v.ends;
}
