-- ===== src/Communication/ConnectionPool/Steps.antt =====
-- The runs of a connection pool: what its threads and executors do, in any order.
use helpers.Prelude.{ℕ, suc, Bool}
use helpers.Communication.ConnectionPool.{
  Pool, constructed, Answers, connect, send, check, pop, written, returned, reconnected, stop,
}

pub data Step (p : Pool) : Pool → Type 0 where
  checks_step : (callback : ℕ) → Step p (check callback p)
  pops_step : (callback : ℕ) (a : Answers) → Step p (pop callback a p)
  written_step : (client : ℕ) (success : Bool) → Step p (written client success p)
  returned_step : (client : ℕ) → Step p (returned client p)
  reconnected_step : (client : ℕ) (success : Bool) → Step p (reconnected client success p)
  stop_step : Step p (stop p)

-- A run from the pool `p`, when `n` messages were sent, to another. The callbacks of messages are
-- numbered in their order.
pub data Run (n : ℕ) (p : Pool) : ℕ → Pool → Type 0 where
  stays : Run n p n p
  sends : {m : ℕ} {q : Pool} → Run n p m q → Run n p (suc m) (send m q)
  steps : {m : ℕ} {q r : Pool} → Run n p m q → Step q r → Run n p m r

abbrev pub started : (ℕ → Bool) → ℕ → Pool
unfolding connect
started accepts connections_number = connect accepts connections_number constructed

-- What a pool comes to after it was connected.
abbrev pub Reach : (ℕ → Bool) → ℕ → ℕ → Pool → Type 0
Reach accepts connections_number m q = Run 0 (started accepts connections_number) m q
