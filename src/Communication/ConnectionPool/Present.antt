-- ===== src/Communication/ConnectionPool/Present.antt =====
-- src/communication/connectionPool.cc: where a connection is, over a run of the pool.
use helpers.Prelude.{
  ℕ, zero, suc, ◌+◌, ◌≤◌, ltb, leb, ◌==◌, ◌&&◌, if◌then◌else◌, Bool, true, false, Option, none,
  some, List, [], ◌∷◌, ◌++◌, find, count_if-append, ◌≡◌, refl, ap, arith,
}
use helpers.Communication.ConnectionPool.{
  Phase, checks, pops, blocked, Pool, constructed, connect_loop, connect, send, check_at, check,
  Answers, write, condition, popped, pop_idle, pop_at, pop, written_at, written, returned,
  reconnected, abort, close, stop,
}
use helpers.Communication.ConnectionPool.Steps.{
  Step, checks_step, pops_step, written_step, returned_step, reconnected_step, stop_step, Run,
  stays, sends, steps, started,
}
use helpers.Communication.ConnectionPool.Counts.{among, among_moved, keys, keys_moved}

-- How often the pool holds a connection.
abbrev pub present : ℕ → Pool → ℕ
present c p = among c p.idle + keys c p.writing + among c p.returning + among c p.reconnecting

module _ (c : ℕ) where
  present-abort : (ss : List (ℕ × Phase)) (p : Pool) → present c (abort ss p) ≡ present c p
  present-abort [] p = refl
  present-abort ((k, blocked) ∷ ss) p = present-abort ss p
  present-abort ((k, checks) ∷ ss) p = present-abort ss p
  present-abort ((k, pops) ∷ ss) p = present-abort ss p

  present-close : (p : Pool) → present c (close p) ≤ present c p
  present-close p = omega (arith, present-abort p.senders (record p { idle = []; senders = [] }))

  present-stop : (p : Pool) → present c (stop p) ≤ present c p
  unfolding stop
  present-stop p = ground (arith, present-close (record p { connected = false }))

  present-send : (k : ℕ) (p : Pool) → present c (send k p) ≤ present c p
  unfolding send
  present-send k p = ground arith

  present-check_at :
      (k : ℕ) (o : Option Phase) (p : Pool) → present c (check_at k o p) ≤ present c p
  present-check_at k none p = omega arith
  present-check_at k (some checks) p = ground arith
  present-check_at k (some pops) p = omega arith
  present-check_at k (some blocked) p = omega arith

  present-write :
      (k client : ℕ) (good : Bool) (p : Pool)
      → present c (write k client good p) ≤ present c p + (if client == c then 1 else 0)
  present-write k client true p = ground arith
  present-write k client false p = ground arith

  present-condition :
      (k client : ℕ) (a : Answers) (p : Pool)
      → present c (condition k client a p) ≤ present c p + (if client == c then 1 else 0)
  present-condition k client a p = ground (arith, present-write k client a.behind_loop p)

  present-popped :
      (k client : ℕ) (a : Answers) (p : Pool)
      → present c (popped k client a p) ≤ present c p + (if client == c then 1 else 0)
  present-popped k client a p = ground (arith, present-condition k client a p)

  present-pop_idle :
      (k : ℕ) (a : Answers) (idle : List ℕ) (p : Pool)
      → p.idle ≡ idle
      → present c (pop_idle k a idle p) ≤ present c p
  present-pop_idle k a [] p e = omega arith
  present-pop_idle k a (client ∷ idle) p e =
      ground (arith, present-popped k client a (record p { idle = idle }), ap (among c) e)

  present-pop_at :
      (k : ℕ) (a : Answers) (o : Option Phase) (p : Pool) → present c (pop_at k a o p) ≤ present c p
  present-pop_at k a none p = omega arith
  present-pop_at k a (some checks) p = omega arith
  present-pop_at k a (some pops) p = present-pop_idle k a p.idle p refl
  present-pop_at k a (some blocked) p = present-pop_idle k a p.idle p refl

  present-written_at :
      (client : ℕ) (success : Bool) (o : Option ℕ) (p : Pool)
      → find client p.writing ≡ o
      → present c (written_at client success o p) ≤ present c p
  present-written_at client success none p e = omega arith
  present-written_at client true (some k) p e = ground (arith, keys_moved c client k p.writing e)
  present-written_at client false (some k) p e = ground (arith, keys_moved c client k p.writing e)

  present-returned : (client : ℕ) (p : Pool) → present c (returned client p) ≤ present c p
  unfolding returned
  present-returned client p =
      ground (
        arith,
        among_moved c client p.returning,
        count_if-append (λ m. m == c) p.idle (client ∷ []),
      )

  present-reconnected :
      (client : ℕ) (success : Bool) (p : Pool)
      → present c (reconnected client success p) ≤ present c p
  unfolding reconnected
  present-reconnected client true p = ground (
    arith,
    among_moved c client p.reconnecting,
    count_if-append (λ m. m == c) p.idle (client ∷ []),
  )
  present-reconnected client false p = ground (arith, among_moved c client p.reconnecting)

  present-Step : {p q : Pool} → Step p q → present c q ≤ present c p
  unfolding check pop written
  present-Step {p} (checks_step k) = present-check_at k (find k p.senders) p
  present-Step {p} (pops_step k a) = present-pop_at k a (find k p.senders) p
  present-Step {p} (written_step client success) =
      present-written_at client success (find client p.writing) p refl
  present-Step {p} (returned_step client) = present-returned client p
  present-Step {p} (reconnected_step client success) = present-reconnected client success p
  present-Step {p} stop_step = present-stop p

  pub present-Run : {n : ℕ} {p : Pool} {m : ℕ} {q : Pool} → Run n p m q → present c q ≤ present c p
  present-Run stays = omega arith
  present-Run (sends {m} {q} r) = omega (arith, present-send m q, present-Run r)
  present-Run (steps r s) = omega (arith, present-Step s, present-Run r)

  present-connect_loop :
      (accepts : ℕ → Bool) (n count : ℕ) (p : Pool)
      → present c (connect_loop accepts n count p)
        ≤ present c p + (if leb n c && ltb c (n + count) then 1 else 0)
  present-connect_loop accepts n zero p = ground arith
  present-connect_loop accepts n (suc count) p =
      let q : Pool = record p { idle = p.idle ++ n ∷ [] } in
      ground (
        arith,
        present-connect_loop accepts (suc n) count q,
        count_if-append (λ m. m == c) p.idle (n ∷ []),
        present-close p,
      )

  pub present-started : (accepts : ℕ → Bool) (count : ℕ) → present c (started accepts count) ≤ 1
  unfolding connect
  present-started accepts count = ground (arith, present-connect_loop accepts 0 count constructed)
