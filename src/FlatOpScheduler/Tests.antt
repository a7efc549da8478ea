-- ===== src/FlatOpScheduler/Tests.antt =====
-- Tests of the scheduler, and its theorems on a run where an operation comes during a visit.
use helpers.Prelude.{◌≤◌, ltb, if◌then◌else◌, true, false, [], ◌∷◌, ◌++◌, length, ◌≡◌, refl}
use helpers.FlatOpScheduler.{Scheduler, created, visits, schedule, advance}
use helpers.FlatOpScheduler.Order.{Reach, starts, schedules, advances, rest_of, visited_in_order}
use helpers.FlatOpScheduler.Drained.{steps_left, go_on, all_drained}

-- Two operations are scheduled, the first is visited, and a third comes.
abbrev during : Scheduler
during =
    schedule 7 (advance 0 (advance 0 (advance 0 (advance 0 (schedule 6 (schedule 5 created))))))

during_is : during ≡ record {
  filled_queue = 7 ∷ [];
  used_queue = 5 ∷ 6 ∷ [];
  drain_in_progress = true;
  tasks = visits 1 ∷ [];
  visited = 5 ∷ [];
}
unfolding schedule advance
during_is = refl

during-Reach : Reach (5 ∷ 6 ∷ 7 ∷ []) during
during-Reach =
    schedules 7
      (advances 0 (advances 0 (advances 0 (advances 0 (schedules 6 (schedules 5 starts))))))

visited_in_order_example :
    (length during.tasks ≤ 1)
    × (during.visited ++ rest_of during.tasks during ≡ 5 ∷ 6 ∷ 7 ∷ [])
    × (during.drain_in_progress ≡ (if ltb 0 (length during.tasks) then true else false))
visited_in_order_example = visited_in_order during-Reach

all_drained_example :
    ((go_on (steps_left during.tasks during) during).tasks ≡ [])
    × ((go_on (steps_left during.tasks during) during).visited ≡ 5 ∷ 6 ∷ 7 ∷ [])
all_drained_example = all_drained during-Reach
