-- ===== src/FlatOpScheduler.antt =====
-- src/flatOpScheduler.h: operations that any thread schedules, and that one task at a time visits.
-- An operation is known by a number; what the visitor does with it is a list of those visited. The
-- steps of a task, between which other threads may run, are its calls of the executor, of the
-- visitor, and what it does under the lock.
pub mod Serial
pub mod Order
pub mod Drained
pub mod Tests
use helpers.Prelude.{
  ℕ, zero, suc, ltb, if◌then◌else◌, Bool, true, false, Option, none, some, List, [], ◌∷◌, ◌++◌,
  length, get_or,
}

-- Where a task is: before `m_executor->add`, in the executor, at the head of the loop of
-- `drainQueue`, or before the operation at a position of `m_usedQueue`.
pub data Phase : Type 0 where
  adds : Phase
  queued : Phase
  loops : Phase
  visits : ℕ → Phase

pub record Scheduler : Type 0 where
  pub filled_queue : List ℕ
  pub used_queue : List ℕ
  pub drain_in_progress : Bool
  pub tasks : List Phase
  pub visited : List ℕ

abbrev pub created : Scheduler
created = record {
  filled_queue = [];
  used_queue = [];
  drain_in_progress = false;
  tasks = [];
  visited = [];
}

unfoldable pub schedule : ℕ → Scheduler → Scheduler
schedule op s = record s {
  filled_queue = s.filled_queue ++ op ∷ [];
  drain_in_progress = true;
  tasks = if s.drain_in_progress then s.tasks else s.tasks ++ adds ∷ [];
}

-- What one step makes of a task, which may end, and of the rest.
pub record Stepped : Type 0 where
  pub phase : Option Phase
  pub scheduler : Scheduler

abbrev pub swap_queues : List ℕ → Scheduler → Stepped
swap_queues [] s = record { phase = none; scheduler = record s { drain_in_progress = false } }
swap_queues (op ∷ ops) s = record {
  phase = some (visits 0);
  scheduler = record s { filled_queue = s.used_queue; used_queue = op ∷ ops };
}

abbrev pub visit : ℕ → Scheduler → Stepped
visit i s =
    if ltb i (length s.used_queue)
    then record {
      phase = some (visits (suc i));
      scheduler = record s { visited = s.visited ++ get_or s.used_queue i 0 ∷ [] };
    }
    else record { phase = some loops; scheduler = record s { used_queue = [] } }

abbrev pub step : Phase → Scheduler → Stepped
step adds s = record { phase = some queued; scheduler = s }
step queued s = record { phase = some loops; scheduler = s }
step loops s = swap_queues s.filled_queue s
step (visits i) s = visit i s

abbrev pub task : List Phase → ℕ → Option Phase
task [] t = none
task (p ∷ ps) zero = some p
task (p ∷ ps) (suc t) = task ps t

abbrev pub put_task : List Phase → ℕ → Option Phase → List Phase
put_task [] t q = []
put_task (p ∷ ps) zero none = ps
put_task (p ∷ ps) zero (some q) = q ∷ ps
put_task (p ∷ ps) (suc t) q = p ∷ put_task ps t q

abbrev pub stepped : ℕ → Stepped → Scheduler
stepped t r = record r.scheduler { tasks = put_task r.scheduler.tasks t r.phase }

abbrev pub advance_at : ℕ → Option Phase → Scheduler → Scheduler
advance_at t none s = s
advance_at t (some p) s = stepped t (step p s)

-- The task at a place of the list goes on.
unfoldable pub advance : ℕ → Scheduler → Scheduler
advance t s = advance_at t (task s.tasks t) s
