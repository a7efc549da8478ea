-- ===== src/FlatOpScheduler/Drained.antt =====
-- src/flatOpScheduler.h: a task that goes on comes to its end.
use helpers.Prelude.{
  ℕ, zero, suc, ◌+◌, ◌-◌, ◌≤◌, ltb, Bool-cases, Option, none, some, List, [], ◌∷◌, length, ◌≡◌,
  refl, ap, ◌∙◌, inl, inr, arith,
}
use helpers.FlatOpScheduler.{
  Phase, adds, queued, loops, visits, Scheduler, swap_queues, visit, step, task, put_task,
  advance_at, advance,
}
use helpers.FlatOpScheduler.Serial.{UsedAt, SerialAt, Serial}
use helpers.FlatOpScheduler.Order.{Reach, Reach-Serial, advance-Serial, tasks-step}

-- How many steps a task takes from the head of the loop on.
abbrev pub loop_steps : List ℕ → ℕ
loop_steps [] = 1
loop_steps (op ∷ ops) = length ops + 4

abbrev pub steps_of : Phase → Scheduler → ℕ
steps_of adds s = 2 + loop_steps s.filled_queue
steps_of queued s = 1 + loop_steps s.filled_queue
steps_of loops s = loop_steps s.filled_queue
steps_of (visits i) s = (length s.used_queue - i) + 1 + loop_steps s.filled_queue

abbrev pub steps_left : List Phase → Scheduler → ℕ
steps_left [] s = 0
steps_left (p ∷ ps) s = steps_of p s

-- What a step leaves to do.
abbrev left_after : Option Phase → Scheduler → ℕ
left_after none s = 0
left_after (some p) s = steps_of p s

left-swap :
    (filled : List ℕ) (s : Scheduler)
    → s.used_queue ≡ []
    → let r = swap_queues filled s in suc (left_after r.phase r.scheduler) ≡ loop_steps filled
left-swap [] s e = refl
left-swap (op ∷ ops) s e = omega (arith, ap loop_steps e)

left-visit :
    (i : ℕ) (s : Scheduler)
    → i ≤ length s.used_queue
    → let r = visit i s in suc (left_after r.phase r.scheduler) ≡ steps_of (visits i) s
left-visit i s h = elim (Bool-cases (ltb i (length s.used_queue))) [
  | inl more ↦ rw more (ground arith)
  | inr done ↦ rw done (ground arith)
]

left-step :
    (p : Phase) (s : Scheduler)
    → UsedAt p s
    → let r = step p s in suc (left_after r.phase r.scheduler) ≡ steps_of p s
left-step adds s u = omega arith
left-step queued s u = omega arith
left-step loops s u = left-swap s.filled_queue s u
left-step (visits i) s u = left-visit i s u

steps_of_tasks :
    (p : Phase) (ts : List Phase) (s : Scheduler)
    → steps_of p (record s { tasks = ts }) ≡ steps_of p s
steps_of_tasks adds ts s = refl
steps_of_tasks queued ts s = refl
steps_of_tasks loops ts s = refl
steps_of_tasks (visits i) ts s = refl

put_left :
    (p : Phase) (q : Option Phase) (ts : List Phase) (s : Scheduler)
    → ts ≡ p ∷ []
    → steps_left (put_task ts 0 q) (record s { tasks = put_task ts 0 q }) ≡ left_after q s
put_left p none ts s e =
    ap (λ us. steps_left (put_task us 0 none) (record s { tasks = put_task ts 0 none })) e
put_left p (some q) ts s e =
    ap (λ us. steps_left (put_task us 0 (some q)) (record s { tasks = put_task ts 0 (some q) })) e
    ∙ steps_of_tasks q (put_task ts 0 (some q)) s

fewer_left :
    (ops : List ℕ) (ts : List Phase) (s : Scheduler) (n : ℕ)
    → s.tasks ≡ ts
    → SerialAt ops ts s
    → steps_left ts s ≡ suc n
    → let t = advance_at 0 (task ts 0) s in steps_left t.tasks t ≡ n
fewer_left ops [] s n e k m = absurd (omega arith)
fewer_left ops (p ∷ []) s n e (busy, used, all) m =
    let r = step p s in
    put_left p r.phase r.scheduler.tasks r.scheduler (tasks-step p s ∙ e)
    ∙ omega (arith, left-step p s used)
fewer_left ops (p ∷ q ∷ ts) s n e bad m = absurd bad

-- The first task goes on for some steps.
abbrev pub go_on : ℕ → Scheduler → Scheduler
go_on zero s = s
go_on (suc n) s = go_on n (advance 0 s)

nothing_left : (ts : List Phase) (s : Scheduler) → steps_left ts s ≡ 0 → ts ≡ []
nothing_left [] s e = refl
nothing_left (adds ∷ ts) s e = absurd (omega arith)
nothing_left (queued ∷ ts) s e = absurd (omega arith)
nothing_left (loops ∷ ts) s e = absurd (some_steps s.filled_queue e)
  where
    some_steps : (filled : List ℕ) → loop_steps filled ≡ 0 → ⊥
    some_steps [] e = omega arith
    some_steps (op ∷ ops) e = omega arith
nothing_left (visits i ∷ ts) s e = absurd (omega arith)

all_visited :
    (ops : List ℕ) (ts : List Phase) (s : Scheduler) → ts ≡ [] → SerialAt ops ts s → s.visited ≡ ops
all_visited ops [] s e (idle, nothing, unused, all) = all
all_visited ops (p ∷ ts) s e k = absurd (ground arith)

goes_on :
    (ops : List ℕ) (n : ℕ) (s : Scheduler)
    → Serial ops s
    → steps_left s.tasks s ≡ n
    → ((go_on n s).tasks ≡ []) × ((go_on n s).visited ≡ ops)
unfolding advance
goes_on ops zero s k e =
    let nothing = nothing_left s.tasks s e in (nothing, all_visited ops s.tasks s nothing k)
goes_on ops (suc n) s k e =
    goes_on ops n (advance 0 s) (advance-Serial ops 0 s k) (fewer_left ops s.tasks s n refl k e)

-- No operation waits for another to be scheduled: from any state on, with the steps that
-- `steps_left` counts the only task comes to its end, and then all operations that were scheduled
-- were visited, in order.
pub all_drained :
    {ops : List ℕ} {s : Scheduler}
    → Reach ops s
    → ((go_on (steps_left s.tasks s) s).tasks ≡ [])
      × ((go_on (steps_left s.tasks s) s).visited ≡ ops)
all_drained {ops} {s} r = goes_on ops (steps_left s.tasks s) s (Reach-Serial r) refl
