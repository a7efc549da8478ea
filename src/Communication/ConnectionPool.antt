-- ===== src/Communication/ConnectionPool.antt =====
-- src/communication/connectionPool.cc: threads that call `send`, the queue of idle connections, and
-- what the executors do later. A connection and a callback are known by numbers. What a connection
-- answers to `connected()` and `good()` is an argument, since it changes at any time. A call of
-- `send` is cut into the steps between which other threads may run.
pub mod Steps
pub mod Counts
pub mod Present
pub mod Callbacks
pub mod Once
pub mod Lost
pub mod Stopped
pub mod Tests
use helpers.Prelude.{
  ℕ, zero, suc, ◌+◌, ◌==◌, if◌then◌else◌, Bool, true, false, Option, none, some, List, [], ◌∷◌,
  ◌++◌, find, put, erase,
}

-- Where a thread in the loop of `send` is: before the test of `m_connected`, between that test and
-- `pop`, or in a `pop` that waits for a connection.
pub data Phase : Type 0 where
  checks : Phase
  pops : Phase
  blocked : Phase

pub data Reply : Type 0 where
  sent : Reply
  connection_aborted : Reply

-- `senders` are the callbacks of the threads in the loop. `writing` are the connections that write,
-- with the callback of the message; `returning` are those whose write has ended, `reconnecting`
-- those whose `connect` was called. `calls` are the callbacks called, the newest first.
pub record Pool : Type 0 where
  pub connected : Bool
  pub idle : List ℕ
  pub senders : List (ℕ × Phase)
  pub writing : List (ℕ × ℕ)
  pub returning : List ℕ
  pub reconnecting : List ℕ
  pub calls : List (ℕ × Reply)

abbrev pub constructed : Pool
constructed = record {
  connected = false;
  idle = [];
  senders = [];
  writing = [];
  returning = [];
  reconnecting = [];
  calls = [];
}

abbrev pub call : ℕ → Reply → Pool → Pool
call callback reply p = record p { calls = (callback, reply) ∷ p.calls }

-- `abort` wakes the threads that wait in `pop`, and each calls back.
abbrev pub abort : List (ℕ × Phase) → Pool → Pool
abort [] p = p
abort ((callback, blocked) ∷ ss) p = call callback connection_aborted (abort ss p)
abort ((callback, checks) ∷ ss) p =
    let q = abort ss p in record q { senders = (callback, checks) ∷ q.senders }
abort ((callback, pops) ∷ ss) p =
    let q = abort ss p in record q { senders = (callback, pops) ∷ q.senders }

abbrev pub close : Pool → Pool
close p = abort p.senders (record p { idle = []; senders = [] })

-- `connect` of the connections `n`, `n + 1`, …, where `accepts` is which of them succeed: the first
-- that fails closes the pool, and the loop ends with its exception.
abbrev pub connect_loop : (ℕ → Bool) → ℕ → ℕ → Pool → Pool
connect_loop accepts n zero p = record p { connected = true }
connect_loop accepts n (suc count) p =
    let rest = connect_loop accepts (suc n) count (record p { idle = p.idle ++ n ∷ [] }) in
    if accepts n then rest else close p

unfoldable pub connect : (ℕ → Bool) → ℕ → Pool → Pool
connect accepts connections_number p =
    if p.connected then p else connect_loop accepts 0 connections_number p

unfoldable pub send : ℕ → Pool → Pool
send callback p =
    if p.connected
    then record p { senders = (callback, checks) ∷ p.senders }
    else call callback connection_aborted p

abbrev pub leave : ℕ → Pool → Pool
leave callback p = record p { senders = erase callback p.senders }

abbrev pub at_phase : ℕ → Phase → Pool → Pool
at_phase callback phase p = record p { senders = put callback phase p.senders }

-- The test of `m_connected` in the loop.
abbrev pub check_at : ℕ → Option Phase → Pool → Pool
check_at callback (some checks) p =
    if p.connected
    then at_phase callback pops p
    else call callback connection_aborted (leave callback p)
check_at callback (some pops) p = p
check_at callback (some blocked) p = p
check_at callback none p = p

unfoldable pub check : ℕ → Pool → Pool
check callback p = check_at callback (find callback p.senders) p

-- What the connection answers behind `pop`, in the condition of the loop, and behind the loop.
pub record Answers : Type 0 where
  pub after_pop : Bool
  pub in_condition : Bool
  pub behind_loop : Bool

-- The transport is good, and the message is written, or not.
abbrev pub write : ℕ → ℕ → Bool → Pool → Pool
write callback client true p = record (leave callback p) {
  writing = (client, callback) ∷ p.writing;
}
write callback client false p = call callback connection_aborted (leave callback p)

-- The condition of the loop: a client that is not connected is overwritten by the next one.
abbrev pub condition : ℕ → ℕ → Answers → Pool → Pool
condition callback client a p =
    if a.in_condition then write callback client a.behind_loop p else at_phase callback checks p

-- A client that has lost its connection is connected again, unless the pool was stopped.
abbrev pub popped : ℕ → ℕ → Answers → Pool → Pool
popped callback client a p =
    if a.after_pop
    then condition callback client a p
    else if p.connected
    then record (at_phase callback checks p) { reconnecting = client ∷ p.reconnecting }
    else condition callback client a p

abbrev pub pop_idle : ℕ → Answers → List ℕ → Pool → Pool
pop_idle callback a [] p = at_phase callback blocked p
pop_idle callback a (client ∷ idle) p = popped callback client a (record p { idle = idle })

abbrev pub pop_at : ℕ → Answers → Option Phase → Pool → Pool
pop_at callback a (some checks) p = p
pop_at callback a (some pops) p = pop_idle callback a p.idle p
pop_at callback a (some blocked) p = pop_idle callback a p.idle p
pop_at callback a none p = p

unfoldable pub pop : ℕ → Answers → Pool → Pool
pop callback a p = pop_at callback a (find callback p.senders) p

-- The future of a write: with an error, neither of its continuations runs.
abbrev pub written_at : ℕ → Bool → Option ℕ → Pool → Pool
written_at client success none p = p
written_at client true (some callback) p =
    call callback sent
      (record p { writing = erase client p.writing; returning = client ∷ p.returning })
written_at client false (some callback) p = record p { writing = erase client p.writing }

unfoldable pub written : ℕ → Bool → Pool → Pool
written client success p = written_at client success (find client p.writing) p

abbrev pub member : ℕ → List ℕ → Bool
member n [] = false
member n (m ∷ ms) = if m == n then true else member n ms

abbrev pub remove : ℕ → List ℕ → List ℕ
remove n [] = []
remove n (m ∷ ms) = if m == n then remove n ms else m ∷ remove n ms

-- The last continuation of a write.
unfoldable pub returned : ℕ → Pool → Pool
returned client p =
    if member client p.returning
    then record p { returning = remove client p.returning; idle = p.idle ++ client ∷ [] }
    else p

-- The future of a reconnection. A client whose pool was stopped is closed.
abbrev pub reconnected_at : ℕ → Bool → Pool → Pool
reconnected_at client true p =
    let q = record p { reconnecting = remove client p.reconnecting } in
    if p.connected then record q { idle = p.idle ++ client ∷ [] } else q
reconnected_at client false p = record p { reconnecting = remove client p.reconnecting }

unfoldable pub reconnected : ℕ → Bool → Pool → Pool
reconnected client success p =
    if member client p.reconnecting then reconnected_at client success p else p

unfoldable pub stop : Pool → Pool
stop p = if p.connected then close (record p { connected = false }) else p
