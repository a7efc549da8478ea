-- ===== src/Communication/ConnectionPool/Tests.antt =====
-- Tests of the connection pool, and its theorems on runs with two connections.
use helpers.Prelude.{
  ℕ, ◌≤◌, ltb, ◌&&◌, if◌then◌else◌, Bool, true, false, Option, some, [], ◌∷◌, ◌++◌, find, ◌≡◌, refl,
}
use helpers.Communication.ConnectionPool.{
  checks, pops, blocked, connection_aborted, Pool, Answers, connect, send, check, pop, written,
  returned, stop, call, leave,
}
use helpers.Communication.ConnectionPool.Steps.{
  checks_step, pops_step, returned_step, stays, sends, steps, started, Reach,
}
use helpers.Communication.ConnectionPool.Present.{present}
use helpers.Communication.ConnectionPool.Callbacks.{held}
use helpers.Communication.ConnectionPool.Once.{is_calm, exclusive}
use helpers.Communication.ConnectionPool.Lost.{write_fails, lost_forever}
use helpers.Communication.ConnectionPool.Stopped.{awake, woken, stop_lem}

abbrev all_accept : ℕ → Bool
all_accept n = true

abbrev good : Answers
good = record { after_pop = true; in_condition = true; behind_loop = true }

-- A message is sent on the first connection.
abbrev one_writes : Pool
one_writes = pop 0 good (check 0 (send 0 (started all_accept 2)))

one_writes-Reach : Reach all_accept 2 1 one_writes
one_writes-Reach = steps (steps (sends stays) (checks_step 0)) (pops_step 0 good)

one_writes_is : one_writes ≡ record {
  connected = true;
  idle = 1 ∷ [];
  senders = [];
  writing = (0, 0) ∷ [];
  returning = [];
  reconnecting = [];
  calls = [];
}
unfolding connect send check pop
one_writes_is = refl

one_finds : find 0 one_writes.writing ≡ some 0
unfolding connect send check pop
one_finds = refl

exclusive_example :
    (present 0 one_writes ≤ 1)
    × (held 0 one_writes ≤ (if ltb 0 1 then 1 else 0))
    × ((if ltb 0 1 && is_calm one_writes-Reach then 1 else 0) ≤ held 0 one_writes)
exclusive_example = exclusive all_accept 2 0 0 one_writes-Reach

-- Its write fails, and its callback is gone too.
failed_is : (written 0 false one_writes).calls ≡ []
unfolding connect send check pop written
failed_is = refl

lost_forever_example :
    let r = returned 0 (written 0 false one_writes) in
    (present 0 one_writes ≡ 1) × (present 0 r ≡ 0) × (find 0 r.writing ≡ Option.none)
lost_forever_example =
    lost_forever all_accept 2 {n = 1} 0 one_writes-Reach (write_fails 0 one_finds)
      (steps stays (returned_step 0))

-- One thread waits in `pop`, one is in front of it.
abbrev two_senders : Pool
two_senders = record {
  connected = true;
  idle = [];
  senders = (4, blocked) ∷ (5, pops) ∷ (6, checks) ∷ [];
  writing = (0, 3) ∷ [];
  returning = [];
  reconnecting = [];
  calls = [];
}

six_checks : find 6 (stop two_senders).senders ≡ some checks
unfolding stop
six_checks = refl

stop_lem_example :
    (stop two_senders ≡ record two_senders {
      connected = false;
      idle = [];
      senders = awake two_senders.senders;
      calls = woken two_senders.senders ++ two_senders.calls;
    })
    × (send 8 (stop two_senders) ≡ call 8 connection_aborted (stop two_senders))
    × (check 6 (stop two_senders) ≡ call 6 connection_aborted (leave 6 (stop two_senders)))
stop_lem_example = stop_lem two_senders {n = 7} 6 8 refl stays six_checks

-- A thread that had passed the test of `m_connected` waits in `pop` after the pool was stopped.
waits_after_stop : find 5 (pop 5 good (stop two_senders)).senders ≡ some blocked
unfolding stop pop
waits_after_stop = refl
