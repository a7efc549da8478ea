-- ===== src/Communication/ConnectionPool/Lost.antt =====
-- src/communication/connectionPool.cc: connections that the pool loses.
use helpers.Prelude.{
  ℕ, suc, ◌≤◌, ◌==◌, if◌then◌else◌, Bool, true, false, Option, some, List, [], ◌∷◌, find, ◌≡◌, refl,
  ap, ◌∙◌, arith,
}
use helpers.Communication.ConnectionPool.{
  pops, Pool, Answers, pop, pop_at, pop_idle, written, written_at, member, reconnected,
}
use helpers.Communication.ConnectionPool.Steps.{Run, Reach}
use helpers.Communication.ConnectionPool.Counts.{among, among_moved, keys, keys_moved}
use helpers.Communication.ConnectionPool.Present.{present, present-Run}
use helpers.Communication.ConnectionPool.Once.{present_one}

-- The steps that let go of a connection: its write fails, its reconnection fails, it is found not
-- good behind the loop, or in the condition of the loop after it was good behind `pop`.
pub data Loses (c : ℕ) (p : Pool) : Pool → Type 0 where
  write_fails : (k : ℕ) → find c p.writing ≡ some k → Loses c p (written c false p)
  reconnection_fails : member c p.reconnecting ≡ true → Loses c p (reconnected c false p)
  not_good :
      (k : ℕ) (idle : List ℕ)
      → find k p.senders ≡ some pops
      → p.idle ≡ c ∷ idle
      → Loses c p (pop k (record { after_pop = true; in_condition = true; behind_loop = false }) p)
  overwritten :
      (k : ℕ) (idle : List ℕ) (good : Bool)
      → find k p.senders ≡ some pops
      → p.idle ≡ c ∷ idle
      → Loses c p (pop k (record { after_pop = true; in_condition = false; behind_loop = good }) p)

pop_first :
    (k : ℕ) (a : Answers) (c : ℕ) (idle : List ℕ) (p : Pool)
    → find k p.senders ≡ some pops
    → p.idle ≡ c ∷ idle
    → pop k a p ≡ pop_idle k a (c ∷ idle) p
unfolding pop
pop_first k a c idle p e i = ap (λ o. pop_at k a o p) e ∙ ap (λ l. pop_idle k a l p) i

popped_away :
    (k : ℕ) (a : Answers) (c : ℕ) (idle : List ℕ) (p : Pool)
    → find k p.senders ≡ some pops
    → p.idle ≡ c ∷ idle
    → present c (pop_idle k a (c ∷ idle) p) ≡ present c (record p { idle = idle })
    → suc (present c (pop k a p)) ≤ present c p
popped_away k a c idle p e i away =
    ground (arith, ap (present c) (pop_first k a c idle p e i), ap (among c) i)

present-Loses : {c : ℕ} {p q : Pool} → Loses c p q → suc (present c q) ≤ present c p
unfolding written reconnected
present-Loses {c} {p} (write_fails k e) =
    omega
      (arith, ap (λ o. present c (written_at c false o p)) e, keys_moved c c k p.writing e, same c)
  where
    same : (c : ℕ) → Path ℕ (if c == c then 1 else 0) 1
    same c = ground arith
present-Loses {c} {p} (reconnection_fails e) = ground (arith, among_moved c c p.reconnecting e)
present-Loses {c} {p} (not_good k idle e i) =
    popped_away k (record { after_pop = true; in_condition = true; behind_loop = false }) c idle p e
      i (ground arith)
present-Loses {c} {p} (overwritten k idle good e i) =
    popped_away k (record { after_pop = true; in_condition = false; behind_loop = good }) c idle p e
      i (ground arith)

-- A connection that such a step lets go of is in no place of the pool, and stays so over every run
-- from there: no message is written on it any more.
pub lost_forever :
    (accepts : ℕ → Bool) (count : ℕ) {m n : ℕ} {p q r : Pool} (c : ℕ)
    → Reach accepts count m p
    → Loses c p q
    → Run m q n r
    → (present c p ≡ 1) × (present c r ≡ 0) × (find c r.writing ≡ Option.none)
lost_forever accepts count {p} {r} c reach loses run =
    let one = present_one accepts count reach c in
    let less = present-Loses loses in
    let gone = present-Run c run in (omega arith, omega arith, no_key c r.writing (omega arith))
  where
    no_key : (c : ℕ) (m : List (ℕ × ℕ)) → keys c m ≡ 0 → find c m ≡ Option.none
    no_key c [] e = refl
    no_key c ((j, v) ∷ m) e = ground (arith, no_key c m)
