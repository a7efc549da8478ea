-- ===== src/Communication/ConnectionPool/Stopped.antt =====
-- src/communication/connectionPool.cc: what `stop` does, and a pool that was stopped.
use helpers.Prelude.{
  ℕ, Bool, true, false, Option, some, none, List, [], ◌∷◌, ◌++◌, find, ◌≡◌, refl, ap, arith,
}
use helpers.Communication.ConnectionPool.{
  Phase, checks, pops, blocked, Reply, connection_aborted, Pool, Answers, call, send, leave,
  check_at, check, write, condition, popped, pop_idle, pop_at, pop, written_at, written, returned,
  reconnected, abort, stop,
}
use helpers.Communication.ConnectionPool.Steps.{
  Step, checks_step, pops_step, written_step, returned_step, reconnected_step, stop_step, Run,
  stays, sends, steps,
}

-- The threads that do not wait in `pop`, and those that do, called back.
abbrev pub awake : List (ℕ × Phase) → List (ℕ × Phase)
awake [] = []
awake ((k, blocked) ∷ ss) = awake ss
awake ((k, checks) ∷ ss) = (k, checks) ∷ awake ss
awake ((k, pops) ∷ ss) = (k, pops) ∷ awake ss

abbrev pub woken : List (ℕ × Phase) → List (ℕ × Reply)
woken [] = []
woken ((k, blocked) ∷ ss) = (k, connection_aborted) ∷ woken ss
woken ((k, checks) ∷ ss) = woken ss
woken ((k, pops) ∷ ss) = woken ss

abort_lem :
    (ss : List (ℕ × Phase)) (p : Pool)
    → p.senders ≡ []
    → abort ss p ≡ record p { senders = awake ss; calls = woken ss ++ p.calls }
abort_lem [] p e = ap with_senders e
  where
    with_senders : List (ℕ × Phase) → Pool
    with_senders s = record p { senders = s }
abort_lem ((k, blocked) ∷ ss) p e = ap (call k connection_aborted) (abort_lem ss p e)
abort_lem ((k, checks) ∷ ss) p e =
    ap {A = Pool} {B = Pool} (λ q. record q { senders = (k, checks) ∷ q.senders })
      (abort_lem ss p e)
abort_lem ((k, pops) ∷ ss) p e =
    ap {A = Pool} {B = Pool} (λ q. record q { senders = (k, pops) ∷ q.senders }) (abort_lem ss p e)

connected-write :
    (k c : ℕ) (good : Bool) (p : Pool) → p.connected ≡ false → (write k c good p).connected ≡ false
connected-write k c true p e = e
connected-write k c false p e = e

connected-condition :
    (k c : ℕ) (a : Answers) (p : Pool) → p.connected ≡ false → (condition k c a p).connected ≡ false
connected-condition k c a p e = ground (arith, connected-write k c a.behind_loop p e)

connected-popped :
    (k c : ℕ) (a : Answers) (p : Pool) → p.connected ≡ false → (popped k c a p).connected ≡ false
connected-popped k c a p e = ground (arith, connected-condition k c a p e)

connected-pop_idle :
    (k : ℕ) (a : Answers) (idle : List ℕ) (p : Pool)
    → p.connected ≡ false
    → (pop_idle k a idle p).connected ≡ false
connected-pop_idle k a [] p e = e
connected-pop_idle k a (c ∷ idle) p e = connected-popped k c a (record p { idle = idle }) e

connected-pop_at :
    (k : ℕ) (a : Answers) (o : Option Phase) (p : Pool)
    → p.connected ≡ false
    → (pop_at k a o p).connected ≡ false
connected-pop_at k a none p e = e
connected-pop_at k a (some checks) p e = e
connected-pop_at k a (some pops) p e = connected-pop_idle k a p.idle p e
connected-pop_at k a (some blocked) p e = connected-pop_idle k a p.idle p e

connected-check_at :
    (k : ℕ) (o : Option Phase) (p : Pool) → p.connected ≡ false → (check_at k o p).connected ≡ false
connected-check_at k none p e = e
connected-check_at k (some checks) p e = ground arith
connected-check_at k (some pops) p e = e
connected-check_at k (some blocked) p e = e

connected-written_at :
    (c : ℕ) (success : Bool) (o : Option ℕ) (p : Pool)
    → p.connected ≡ false
    → (written_at c success o p).connected ≡ false
connected-written_at c success none p e = e
connected-written_at c true (some k) p e = e
connected-written_at c false (some k) p e = e

-- No step connects a pool that was stopped.
connected-Step : {p q : Pool} → Step p q → p.connected ≡ false → q.connected ≡ false
unfolding check pop written returned reconnected stop
connected-Step {p} (checks_step k) e = connected-check_at k (find k p.senders) p e
connected-Step {p} (pops_step k a) e = connected-pop_at k a (find k p.senders) p e
connected-Step {p} (written_step c success) e =
    connected-written_at c success (find c p.writing) p e
connected-Step {p} (returned_step c) e = ground arith
connected-Step {p} (reconnected_step c true) e = ground arith
connected-Step {p} (reconnected_step c false) e = ground arith
connected-Step {p} stop_step e = ground arith

connected-Run :
    {n : ℕ} {p : Pool} {m : ℕ} {q : Pool} → Run n p m q → p.connected ≡ false → q.connected ≡ false
unfolding send
connected-Run stays e = e
connected-Run (sends r) e = ground (arith, connected-Run r e)
connected-Run (steps r s) e = connected-Step s (connected-Run r e)

-- `stop` clears the queue and calls back, with connection_aborted, exactly the threads that wait in
-- `pop`. Over every run from there the pool stays stopped: a call of `send`, and a thread at the
-- test in the loop, are called back with connection_aborted at once.
pub stop_lem :
    (p : Pool) {n m : ℕ} {q : Pool} (k j : ℕ)
    → p.connected ≡ true
    → Run n (stop p) m q
    → find k q.senders ≡ some checks
    → (stop p ≡ record p {
      connected = false;
      idle = [];
      senders = awake p.senders;
      calls = woken p.senders ++ p.calls;
    })
      × (send j q ≡ call j connection_aborted q)
      × (check k q ≡ call k connection_aborted (leave k q))
unfolding stop send check
stop_lem p {q} k j e run at =
    let stopped =
      abort_lem p.senders (record p { connected = false; idle = []; senders = [] }) refl in
    let down = connected-Run run (rw e (ap (λ z. z.connected) stopped)) in
    (rw e stopped, rw down refl, rw (at, down) refl)
