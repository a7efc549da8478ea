-- ===== src/FlatOpScheduler/Order.antt =====
-- src/flatOpScheduler.h: one task at a time, over every interleaving.
use helpers.Prelude.{
  ℕ, zero, suc, ◌≤◌, ltb, if◌then◌else◌, true, false, Option, none, some, List, [], ◌∷◌, ◌++◌,
  append-nil, length, ◌≡◌, refl, sym, ap, ◌∙◌, subst, arith,
}
use helpers.FlatOpScheduler.{
  Phase, adds, queued, loops, visits, Scheduler, created, schedule, swap_queues, step, task,
  put_task, stepped, advance_at, advance,
}
use helpers.FlatOpScheduler.Serial.{
  rest_at, SerialAt, Serial, one_task, schedule-Serial, step-SerialAt,
}

-- The schedulers that come of scheduling `ops`, in this order, while tasks go on.
pub data Reach : List ℕ → Scheduler → Type 0 where
  starts : Reach [] created
  schedules :
      {ops : List ℕ} {s : Scheduler} (op : ℕ) → Reach ops s → Reach (ops ++ op ∷ []) (schedule op s)
  advances : {ops : List ℕ} {s : Scheduler} (t : ℕ) → Reach ops s → Reach ops (advance t s)

-- A step keeps the list of tasks, so that the task that took it is put in its place.
pub tasks-step : (p : Phase) (s : Scheduler) → (step p s).scheduler.tasks ≡ s.tasks
tasks-step adds s = refl
tasks-step queued s = refl
tasks-step loops s = tasks-swap s.filled_queue
  where
    tasks-swap : (filled : List ℕ) → (swap_queues filled s).scheduler.tasks ≡ s.tasks
    tasks-swap [] = refl
    tasks-swap (op ∷ ops) = refl
tasks-step (visits i) s = ground arith

-- Only what a phase reads decides whether it is in order.
SerialAt-tasks :
    (ops : List ℕ) (ts us : List Phase) (s : Scheduler)
    → SerialAt ops ts s
    → SerialAt ops ts (record s { tasks = us })
SerialAt-tasks ops [] us s k = k
SerialAt-tasks ops (adds ∷ []) us s k = k
SerialAt-tasks ops (queued ∷ []) us s k = k
SerialAt-tasks ops (loops ∷ []) us s k = k
SerialAt-tasks ops (visits i ∷ []) us s k = k
SerialAt-tasks ops (p ∷ q ∷ ts) us s k = k

stepped-Serial :
    (ops : List ℕ) (p : Phase) (s : Scheduler)
    → s.tasks ≡ p ∷ []
    → SerialAt ops (p ∷ []) s
    → Serial ops (stepped 0 (step p s))
stepped-Serial ops p s e k =
    let r = step p s in
    let at : put_task r.scheduler.tasks 0 r.phase ≡ one_task r.phase =
      ap (λ ts. put_task ts 0 r.phase) (tasks-step p s ∙ e) ∙ replaced r.phase in
    SerialAt-tasks ops _ _ r.scheduler
      (subst (λ ts. SerialAt ops ts r.scheduler) (sym at) (step-SerialAt ops p s k))
  where
    replaced : (q : Option Phase) → put_task (p ∷ []) 0 q ≡ one_task q
    replaced none = refl
    replaced (some q) = refl

advance_at-Serial :
    (ops : List ℕ) (t : ℕ) (ts : List Phase) (s : Scheduler)
    → s.tasks ≡ ts
    → SerialAt ops ts s
    → Serial ops s
    → Serial ops (advance_at t (task ts t) s)
advance_at-Serial ops t [] s e k serial = serial
advance_at-Serial ops zero (p ∷ []) s e k serial = stepped-Serial ops p s e k
advance_at-Serial ops (suc t) (p ∷ []) s e k serial = serial
advance_at-Serial ops t (p ∷ q ∷ ts) s e k serial = absurd k

pub advance-Serial :
    (ops : List ℕ) (t : ℕ) (s : Scheduler) → Serial ops s → Serial ops (advance t s)
unfolding advance
advance-Serial ops t s k = advance_at-Serial ops t s.tasks s refl k k

pub Reach-Serial : {ops : List ℕ} {s : Scheduler} → Reach ops s → Serial ops s
Reach-Serial starts = (refl, refl, refl, refl)
Reach-Serial (schedules {ops} {s} op r) = schedule-Serial ops op s (Reach-Serial r)
Reach-Serial (advances {ops} {s} t r) = advance-Serial ops t s (Reach-Serial r)

-- What is left to visit in a scheduler with at most one task.
abbrev pub rest_of : List Phase → Scheduler → List ℕ
rest_of [] s = []
rest_of (p ∷ ps) s = rest_at p s

serial_lem :
    (ops : List ℕ) (ts : List Phase) (s : Scheduler)
    → SerialAt ops ts s
    → (length ts ≤ 1)
      × (s.visited ++ rest_of ts s ≡ ops)
      × (s.drain_in_progress ≡ (if ltb 0 (length ts) then true else false))
serial_lem ops [] s (idle, nothing, unused, all) = (omega arith, append-nil s.visited ∙ all, idle)
serial_lem ops (p ∷ []) s (busy, used, all) = (omega arith, all, busy)
serial_lem ops (p ∷ q ∷ ts) s bad = absurd bad

-- However scheduling threads and tasks are interleaved, there is at most one task, and the flag
-- says whether there is. The operations visited, then those that the task has still to visit in the
-- two queues, are all that were scheduled, each once and in order; while there is no task, all were
-- visited.
pub visited_in_order :
    {ops : List ℕ} {s : Scheduler}
    → Reach ops s
    → (length s.tasks ≤ 1)
      × (s.visited ++ rest_of s.tasks s ≡ ops)
      × (s.drain_in_progress ≡ (if ltb 0 (length s.tasks) then true else false))
visited_in_order {ops} {s} r = serial_lem ops s.tasks s (Reach-Serial r)
