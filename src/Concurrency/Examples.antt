-- ===== src/Concurrency/Examples.antt =====
-- Two tasks, one at a time: the first fails and the second succeeds.
use cmnw.Prelude.{
  ℕ, ◌+◌, ltb, if◌then◌else◌, ◌≤◌, ◌<◌, true, List, [], ◌∷◌, ◌≡◌, ◌≢◌, ◌↔◌, ◌⊎◌, refl, arith,
  length, map_get, is_some,
}
use cmnw.Concurrency.{
  Settled, fulfilled, rejected, Loop, here, run_next, settle, start_workers, limit_concurrency,
  Reaches, started, settles,
}
use cmnw.Concurrency.Once.{times, tasks_of, Reaches-once}
use cmnw.Concurrency.Completion.{resolved-settled, running-progress}

abbrev events : List (ℕ × Settled ℕ ℕ)
events = (1, fulfilled 8) ∷ (0, rejected 5) ∷ []

abbrev one_event : List (ℕ × Settled ℕ ℕ)
one_event = (0, rejected 5) ∷ []

abbrev tasks : ℕ
tasks = 2

abbrev first : Loop ℕ ℕ
first = limit_concurrency 2 1

abbrev second : Loop ℕ ℕ
second = settle 2 0 (rejected 5) [] first

abbrev last : Loop ℕ ℕ
last = settle 2 1 (fulfilled 8) [] second

second-reached : Reaches 2 1 ((0, rejected 5) ∷ []) second
unfolding limit_concurrency start_workers run_next settle
second-reached = settles [] first 0 (rejected 5) [] started (here 0 [])

last-reached : Reaches 2 1 events last
unfolding limit_concurrency start_workers run_next settle
last-reached = settles ((0, rejected 5) ∷ []) second 1 (fulfilled 8) [] second-reached (here 1 [])

resolved-settled_example :
    ((last.resolved ≡ true) ↔ ((length events ≡ tasks) × (tasks ≢ 0)))
    × (last.resolved ≡ true
        → (i : ℕ) → i < 2
        → (is_some (last.results i) ≡ true) × (last.results i ≡ map_get i events))
resolved-settled_example = resolved-settled 2 1 events last last-reached

running-progress_example :
    (length one_event ≤ tasks)
    × (((second.resolved ≡ true) × (length one_event ≡ tasks))
        ⊎ ((0 < length second.running) × (length one_event < tasks)))
running-progress_example =
    running-progress 2 1 ((0, rejected 5) ∷ []) second second-reached (ground arith) (ground arith)

Reaches-once_example :
    times 0 second.running + times 0 (tasks_of one_event)
    ≡ (if ltb 0 second.current_index then 1 else 0)
Reaches-once_example = Reaches-once 2 1 0 one_event second second-reached

abbrev no_tasks : Loop ℕ ℕ
no_tasks = limit_concurrency 0 5

last-resolved : last.resolved ≡ true
unfolding limit_concurrency start_workers run_next settle
last-resolved = refl
