-- ===== src/FlatOpScheduler/Serial.antt =====
-- src/flatOpScheduler.h: what one step makes of a scheduler with at most one task.
use helpers.Prelude.{
  ℕ, zero, suc, ◌≤◌, ◌<◌, ltb, if◌then◌else◌, true, false, Bool-cases, Option, List, [], ◌∷◌, ◌++◌,
  append_assoc, append-nil, length, get_or, drop, ◌≡◌, refl, sym, ap, ap₂, ◌∙◌, inl, inr, subst,
  arith,
}
use helpers.FlatOpScheduler.{
  Phase, adds, queued, loops, visits, Scheduler, schedule, swap_queues, visit, step, put_task,
}

-- What is still to be visited, when the only task is in some phase.
abbrev pub rest_at : Phase → Scheduler → List ℕ
rest_at adds s = s.filled_queue
rest_at queued s = s.filled_queue
rest_at loops s = s.filled_queue
rest_at (visits i) s = drop i s.used_queue ++ s.filled_queue

-- Outside of the visits the used queue is empty, as the loop asserts.
abbrev pub UsedAt : Phase → Scheduler → Type 0
UsedAt adds s = s.used_queue ≡ []
UsedAt queued s = s.used_queue ≡ []
UsedAt loops s = s.used_queue ≡ []
UsedAt (visits i) s = i ≤ length s.used_queue

-- Either there is no task and nothing left to visit, or there is one.
abbrev pub SerialAt : List ℕ → List Phase → Scheduler → Type 0
SerialAt ops [] s =
    (s.drain_in_progress ≡ false) × (s.filled_queue ≡ []) × (s.used_queue ≡ []) × (s.visited ≡ ops)
SerialAt ops (p ∷ []) s =
    (s.drain_in_progress ≡ true) × UsedAt p s × (s.visited ++ rest_at p s ≡ ops)
SerialAt ops (p ∷ q ∷ ps) s = ⊥

abbrev pub Serial : List ℕ → Scheduler → Type 0
Serial ops s = SerialAt ops s.tasks s

-- One more operation is scheduled while a task is in some phase.
rest_more :
    (p : Phase) (s : Scheduler) (op : ℕ) → rest_at p (schedule op s) ≡ rest_at p s ++ op ∷ []
unfolding schedule
rest_more adds s op = refl
rest_more queued s op = refl
rest_more loops s op = refl
rest_more (visits i) s op = sym (append_assoc (drop i s.used_queue) s.filled_queue (op ∷ []))

used_more : (p : Phase) (s : Scheduler) (op : ℕ) → UsedAt p s → UsedAt p (schedule op s)
unfolding schedule
used_more adds s op u = u
used_more queued s op u = u
used_more loops s op u = u
used_more (visits i) s op u = u

schedule-SerialAt :
    (ops : List ℕ) (op : ℕ) (ts : List Phase) (s : Scheduler)
    → SerialAt ops ts s
    → SerialAt
        (ops ++ op ∷ [])
        (if s.drain_in_progress then ts else ts ++ adds ∷ [])
        (schedule op s)
unfolding schedule
schedule-SerialAt ops op [] s (idle, nothing, unused, all) =
    rw idle (refl, unused, ap₂ (λ v f. v ++ (f ++ op ∷ [])) all nothing)
schedule-SerialAt ops op (p ∷ []) s (busy, used, all) =
    subst
      (λ b. SerialAt (ops ++ op ∷ []) (if b then p ∷ [] else (p ∷ []) ++ adds ∷ []) (schedule op s))
      (sym busy)
      (
        refl,
        used_more p s op used,
        ap (λ r. s.visited ++ r) (rest_more p s op)
            ∙ sym (append_assoc s.visited (rest_at p s) (op ∷ []))
            ∙ ap (λ l. l ++ op ∷ []) all,
      )
schedule-SerialAt ops op (p ∷ q ∷ ts) s bad = absurd bad

pub schedule-Serial :
    (ops : List ℕ) (op : ℕ) (s : Scheduler) → Serial ops s → Serial (ops ++ op ∷ []) (schedule op s)
unfolding schedule
schedule-Serial ops op s k = schedule-SerialAt ops op s.tasks s k

-- The operation at a position is the first of those from there on.
drop_first : (i : ℕ) (xs : List ℕ) → i < length xs → drop i xs ≡ get_or xs i 0 ∷ drop (suc i) xs
drop_first i [] h = absurd (omega arith)
drop_first zero (x ∷ xs) h = refl
drop_first (suc i) (x ∷ xs) h = drop_first i xs (omega arith)

drop_none : (i : ℕ) (xs : List ℕ) → length xs ≤ i → drop i xs ≡ []
drop_none zero [] h = refl
drop_none zero (x ∷ xs) h = absurd (omega arith)
drop_none (suc i) [] h = refl
drop_none (suc i) (x ∷ xs) h = drop_none i xs (omega arith)

-- The only task, after one step.
abbrev pub one_task : Option Phase → List Phase
one_task q = put_task (loops ∷ []) 0 q

swap-SerialAt :
    (ops filled : List ℕ) (s : Scheduler)
    → s.filled_queue ≡ filled
    → SerialAt ops (loops ∷ []) s
    → let r = swap_queues filled s in SerialAt ops (one_task r.phase) r.scheduler
swap-SerialAt ops [] s e (busy, unused, all) =
    (refl, e, unused, sym (append-nil s.visited) ∙ ap (λ f. s.visited ++ f) (sym e) ∙ all)
swap-SerialAt ops (op ∷ filled) s e (busy, unused, all) = (
  busy,
  omega arith,
  ap (λ u. s.visited ++ ((op ∷ filled) ++ u)) unused
      ∙ ap (λ f. s.visited ++ f) (append-nil (op ∷ filled) ∙ sym e)
      ∙ all,
)

visit-SerialAt :
    (ops : List ℕ) (i : ℕ) (s : Scheduler)
    → SerialAt ops (visits i ∷ []) s
    → let r = visit i s in SerialAt ops (one_task r.phase) r.scheduler
visit-SerialAt ops i s (busy, below, all) = elim (Bool-cases (ltb i (length s.used_queue))) [
  | inl more ↦
      let l : i < length s.used_queue = ground arith in
      rw more (
        busy,
        l,
        append_assoc s.visited (get_or s.used_queue i 0 ∷ [])
              (drop (suc i) s.used_queue ++ s.filled_queue)
            ∙ ap (λ d. s.visited ++ (d ++ s.filled_queue)) (sym (drop_first i s.used_queue l))
            ∙ all,
      )
  | inr done ↦ rw done (
    busy,
    refl,
    ap (λ d. s.visited ++ (d ++ s.filled_queue)) (sym (drop_none i s.used_queue (ground arith)))
        ∙ all,
  )
]

pub step-SerialAt :
    (ops : List ℕ) (p : Phase) (s : Scheduler)
    → SerialAt ops (p ∷ []) s
    → let r = step p s in SerialAt ops (one_task r.phase) r.scheduler
step-SerialAt ops adds s k = k
step-SerialAt ops queued s k = k
step-SerialAt ops loops s k = swap-SerialAt ops s.filled_queue s refl k
step-SerialAt ops (visits i) s k = visit-SerialAt ops i s k
