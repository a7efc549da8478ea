-- ===== src/Buffering/BufferAgent/Limit.antt =====
-- src/buffering/bufferAgent.h: the memory that is reserved for the buffers of open files.
use helpers.Prelude.{
  ℕ, suc, ◌+◌, ◌*◌, ◌-◌, ◌≤◌, ◌<◌, leb, true, false, Bool-cases, u64, u64_mod, ◌≡◌, refl, ◌⊎◌, inl,
  inr, subst, arith,
}
use native.Mathlib.Nat.{suc-mul, zero-mul}
use helpers.Buffering.BufferAgent.{
  BufferLimits, fits, both_fit, reserve_buffers, difference, release_buffers, Agent, on_open,
  on_close,
}

abbrev pub started : BufferLimits → Agent
started bl = record {
  guard = record { limits = bl; read_buffers_reserved_size = 0; write_buffers_reserved_size = 0 };
  buffered = 0;
  unbuffered = 0;
}

-- Files are opened, and open ones are closed.
pub data Reach (bl : BufferLimits) : Agent → Type 0 where
  starts : Reach bl (started bl)
  opens : {a : Agent} → Reach bl a → Reach bl (on_open bl a)
  closes : {a : Agent} → Reach bl a → 1 ≤ a.buffered → Reach bl (on_close bl true a)
  closes_other : {a : Agent} → Reach bl a → Reach bl (on_close bl false a)

-- What is reserved for `n` buffers of one size, and within what limit.
pub record Reserved (limit size n reserved : ℕ) : Type 0 where
  pub exact : reserved ≡ u64 (n * size)
  pub within : (limit ≡ 0) ⊎ (n * size ≤ limit)

one_more : (n size : ℕ) → suc n * size ≡ n * size + size
one_more n size = suc-mul n size

zero-Reserved : (limit size : ℕ) → Reserved limit size 0 0
zero-Reserved limit size = record {
  exact = omega (arith, zero-mul size);
  within = inr (omega (arith, zero-mul size));
}

fits-Reserved :
    (limit size n reserved : ℕ)
    → size + limit < u64_mod
    → fits limit reserved size ≡ true
    → Reserved limit size n reserved
    → Reserved limit size (suc n) (u64 (reserved + size))
fits-Reserved limit size n reserved small fit r = record {
  exact = omega (arith, one_more n size, r.exact);
  within = elim r.within [
    | inl unlimited ↦ inl unlimited
    | inr below ↦ ground (arith, one_more n size, r.exact)
  ];
}

difference-Reserved :
    (limit size n reserved : ℕ)
    → size + limit < u64_mod
    → Reserved limit size (suc n) reserved
    → Reserved limit size n (difference reserved size)
difference-Reserved limit size n reserved small r = record {
  exact = omega (arith, one_more n size, r.exact);
  within = elim r.within [
    | inl unlimited ↦ inl unlimited
    | inr below ↦ inr (omega (arith, one_more n size))
  ];
}

never_refused : (n : ℕ) → leb 0 n ≡ true
never_refused n = ground arith

-- What holds of an agent with some limits.
record Accounted (bl : BufferLimits) (a : Agent) : Type 0 where
  pub same : a.guard.limits ≡ bl
  pub reads :
      Reserved bl.read_buffers_total_size bl.read_buffer_max_size a.buffered
        a.guard.read_buffers_reserved_size
  pub writes :
      Reserved bl.write_buffers_total_size bl.write_buffer_max_size a.buffered
        a.guard.write_buffers_reserved_size

module _ (bl : BufferLimits)
    (read_small : bl.read_buffer_max_size + bl.read_buffers_total_size < u64_mod)
    (write_small : bl.write_buffer_max_size + bl.write_buffers_total_size < u64_mod) where
  on_open-Accounted : (a : Agent) → Accounted bl a → Accounted bl (on_open bl a)
  unfolding on_open reserve_buffers
  on_open-Accounted a k =
      elim (Bool-cases (both_fit bl.read_buffer_max_size bl.write_buffer_max_size a.guard)) [
        | inl both ↦ rw both (record {
          same = k.same;
          reads =
              fits-Reserved bl.read_buffers_total_size bl.read_buffer_max_size a.buffered
                a.guard.read_buffers_reserved_size read_small (ground (arith, k.same)) k.reads;
          writes =
              fits-Reserved bl.write_buffers_total_size bl.write_buffer_max_size a.buffered
                a.guard.write_buffers_reserved_size write_small (ground (arith, k.same)) k.writes;
        })
        | inr not_both ↦ rw not_both (record { same = k.same; reads = k.reads; writes = k.writes })
      ]

  on_close-Accounted :
      (a : Agent) → 1 ≤ a.buffered → Accounted bl a → Accounted bl (on_close bl true a)
  unfolding on_close release_buffers
  on_close-Accounted a one k =
      let is : a.buffered ≡ suc (a.buffered - 1) = omega arith in
      rw
        (
          never_refused (difference a.guard.read_buffers_reserved_size bl.read_buffer_max_size),
          never_refused (difference a.guard.write_buffers_reserved_size bl.write_buffer_max_size),
        )
        (record {
          same = k.same;
          reads =
              difference-Reserved bl.read_buffers_total_size bl.read_buffer_max_size
                (a.buffered - 1) a.guard.read_buffers_reserved_size read_small
                (subst
                  (λ n.
                    Reserved bl.read_buffers_total_size bl.read_buffer_max_size n
                      a.guard.read_buffers_reserved_size)
                  is k.reads);
          writes =
              difference-Reserved bl.write_buffers_total_size bl.write_buffer_max_size
                (a.buffered - 1) a.guard.write_buffers_reserved_size write_small
                (subst
                  (λ n.
                    Reserved bl.write_buffers_total_size bl.write_buffer_max_size n
                      a.guard.write_buffers_reserved_size)
                  is k.writes);
        })

  Reach-Accounted : {a : Agent} → Reach bl a → Accounted bl a
  unfolding on_close
  Reach-Accounted starts = record {
    same = refl;
    reads = zero-Reserved bl.read_buffers_total_size bl.read_buffer_max_size;
    writes = zero-Reserved bl.write_buffers_total_size bl.write_buffer_max_size;
  }
  Reach-Accounted (opens {a} r) = on_open-Accounted a (Reach-Accounted r)
  Reach-Accounted (closes {a} r one) = on_close-Accounted a one (Reach-Accounted r)
  Reach-Accounted (closes_other {a} r) =
      let k = Reach-Accounted r in record { same = k.same; reads = k.reads; writes = k.writes }

  -- However files are opened and closed, the sizes reserved are those of the open handles that have
  -- buffers, and these are within the limits that are not 0; a file over the limits is opened
  -- without buffers. A release of any sizes is accepted, more than was reserved too.
  pub reserved_lem :
      {a : Agent} (read_size write_size : ℕ)
      → Reach bl a
      → Reserved bl.read_buffers_total_size bl.read_buffer_max_size a.buffered
          a.guard.read_buffers_reserved_size
        × Reserved bl.write_buffers_total_size bl.write_buffer_max_size a.buffered
            a.guard.write_buffers_reserved_size
        × ((release_buffers read_size write_size a.guard).1 ≡ true)
  unfolding release_buffers
  reserved_lem {a} read_size write_size r =
      let k = Reach-Accounted r in
      (
        k.reads,
        k.writes,
        rw
            (
              never_refused (difference a.guard.read_buffers_reserved_size read_size),
              never_refused (difference a.guard.write_buffers_reserved_size write_size),
            )
            refl,
      )
