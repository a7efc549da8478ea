-- ===== src/Communication/ConnectionPool/Callbacks.antt =====
-- src/communication/connectionPool.cc: what becomes of the callback of a message.
use helpers.Prelude.{
  ℕ, zero, suc, ◌+◌, ◌≤◌, ◌==◌, if◌then◌else◌, Bool, true, false, Option, none, some, List, [], ◌∷◌,
  ◌++◌, find, ◌≡◌, refl, arith,
}
use helpers.Communication.ConnectionPool.{
  Phase, checks, pops, blocked, Reply, connection_aborted, Pool, constructed, connect_loop, connect,
  call, send, leave, at_phase, check_at, Answers, write, condition, popped, pop_idle, pop_at,
  written_at, returned, reconnected, abort, close, stop,
}
use helpers.Communication.ConnectionPool.Steps.{
  Step, checks_step, pops_step, written_step, returned_step, reconnected_step, stop_step, started,
}
use helpers.Communication.ConnectionPool.Counts.{
  keys, keys-put, keys_taken, values, values_taken, values-erase,
}

-- How often a callback is held by a thread or a write, or was called.
abbrev pub held : ℕ → Pool → ℕ
held k p = keys k p.senders + values k p.writing + keys k p.calls

module _ (k : ℕ) where
  held-abort : (ss : List (ℕ × Phase)) (p : Pool) → held k (abort ss p) ≡ keys k ss + held k p
  held-abort [] p = omega arith
  held-abort ((j, blocked) ∷ ss) p = ground (arith, held-abort ss p)
  held-abort ((j, checks) ∷ ss) p = ground (arith, held-abort ss p)
  held-abort ((j, pops) ∷ ss) p = ground (arith, held-abort ss p)

  held-close : (p : Pool) → held k (close p) ≡ held k p
  held-close p = omega (arith, held-abort p.senders (record p { idle = []; senders = [] }))

  pub held-stop : (p : Pool) → held k (stop p) ≡ held k p
  unfolding stop
  held-stop p = ground (arith, held-close (record p { connected = false }))

  pub held-send : (j : ℕ) (p : Pool) → held k (send j p) ≡ held k p + (if j == k then 1 else 0)
  unfolding send
  held-send j p = ground arith

  held_left :
      (j : ℕ) (f : Phase) (r : Reply) (p : Pool)
      → find j p.senders ≡ some f
      → held k p ≤ 1
      → held k (call j r (leave j p)) ≡ held k p
  held_left j f r p e one = ground (arith, keys_taken k j f p.senders e)

  held_at :
      (j : ℕ) (f g : Phase) (p : Pool)
      → find j p.senders ≡ some f
      → held k (at_phase j g p) ≡ held k p
  held_at j f g p e = ground (arith, keys-put k j f g p.senders e)

  pub held-check_at :
      (j : ℕ) (o : Option Phase) (p : Pool)
      → find j p.senders ≡ o
      → held k p ≤ 1
      → held k (check_at j o p) ≡ held k p
  held-check_at j none p e one = refl
  held-check_at j (some checks) p e one =
      ground (arith, held_at j checks pops p e, held_left j checks connection_aborted p e one)
  held-check_at j (some pops) p e one = refl
  held-check_at j (some blocked) p e one = refl

  held-write :
      (j client : ℕ) (f : Phase) (good : Bool) (p : Pool)
      → find j p.senders ≡ some f
      → held k p ≤ 1
      → held k (write j client good p) ≡ held k p
  held-write j client f true p e one = ground (arith, keys_taken k j f p.senders e)
  held-write j client f false p e one = held_left j f connection_aborted p e one

  held-condition :
      (j client : ℕ) (f : Phase) (a : Answers) (p : Pool)
      → find j p.senders ≡ some f
      → held k p ≤ 1
      → held k (condition j client a p) ≡ held k p
  held-condition j client f a p e one =
      ground (arith, held-write j client f a.behind_loop p e one, held_at j f checks p e)

  held-popped :
      (j client : ℕ) (f : Phase) (a : Answers) (p : Pool)
      → find j p.senders ≡ some f
      → held k p ≤ 1
      → held k (popped j client a p) ≡ held k p
  held-popped j client f a p e one =
      ground (arith, held-condition j client f a p e one, held_at j f checks p e)

  held-pop_idle :
      (j : ℕ) (f : Phase) (a : Answers) (idle : List ℕ) (p : Pool)
      → find j p.senders ≡ some f
      → held k p ≤ 1
      → held k (pop_idle j a idle p) ≡ held k p
  held-pop_idle j f a [] p e one = held_at j f blocked p e
  held-pop_idle j f a (client ∷ idle) p e one =
      held-popped j client f a (record p { idle = idle }) e one

  pub held-pop_at :
      (j : ℕ) (a : Answers) (o : Option Phase) (p : Pool)
      → find j p.senders ≡ o
      → held k p ≤ 1
      → held k (pop_at j a o p) ≡ held k p
  held-pop_at j a none p e one = refl
  held-pop_at j a (some checks) p e one = refl
  held-pop_at j a (some pops) p e one = held-pop_idle j pops a p.idle p e one
  held-pop_at j a (some blocked) p e one = held-pop_idle j blocked a p.idle p e one

  pub held_sent :
      (client : ℕ) (o : Option ℕ) (p : Pool)
      → find client p.writing ≡ o
      → keys client p.writing ≤ 1
      → held k (written_at client true o p) ≡ held k p
  held_sent client none p e one = refl
  held_sent client (some j) p e one = ground (arith, values_taken k client j p.writing e one)

  pub held_failed :
      (client : ℕ) (o : Option ℕ) (p : Pool) → held k (written_at client false o p) ≤ held k p
  held_failed client none p = omega arith
  held_failed client (some j) p = omega (arith, values-erase k client p.writing)

  pub held-returned : (client : ℕ) (p : Pool) → held k (returned client p) ≡ held k p
  unfolding returned
  held-returned client p = ground arith

  pub held-reconnected :
      (client : ℕ) (success : Bool) (p : Pool) → held k (reconnected client success p) ≡ held k p
  unfolding reconnected
  held-reconnected client true p = ground arith
  held-reconnected client false p = ground arith

  held-connect_loop :
      (accepts : ℕ → Bool) (n count : ℕ) (p : Pool)
      → held k (connect_loop accepts n count p) ≡ held k p
  held-connect_loop accepts n zero p = refl
  held-connect_loop accepts n (suc count) p = ground (
    arith,
    held-connect_loop accepts (suc n) count (record p { idle = p.idle ++ n ∷ [] }),
    held-close p,
  )

  pub held-started : (accepts : ℕ → Bool) (count : ℕ) → held k (started accepts count) ≡ 0
  unfolding connect
  held-started accepts count = held-connect_loop accepts 0 count constructed

-- Whether a step is not the failure of a write.
abbrev pub calm_step : {p q : Pool} → Step p q → Bool
calm_step (written_step client success) = success
calm_step (checks_step k) = true
calm_step (pops_step k a) = true
calm_step (returned_step client) = true
calm_step (reconnected_step client success) = true
calm_step stop_step = true
