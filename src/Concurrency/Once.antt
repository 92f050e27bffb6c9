-- ===== src/Concurrency/Once.antt =====
-- Each task is run once.
use cmnw.Prelude.{
  ℕ, zero, suc, ◌+◌, min, List, [], ◌∷◌, ◌≡◌, refl, arith, ◌==◌, ltb, if◌then◌else◌, map,
}
use cmnw.Concurrency.{
  Settled, Loop, Picked, here, there, run_next, settle, start_workers, fresh, limit_concurrency,
  Reaches, started, settles,
}

-- How often a number stands in a list.
unfoldable pub times : ℕ → List ℕ → ℕ
times k [] = 0
times k (x ∷ xs) = (if x == k then 1 else 0) + times k xs

abbrev pub tasks_of : {A E : Type 0} → List (ℕ × Settled A E) → List ℕ
tasks_of events = map (λ e. e.0) events

times-Picked :
    (i k : ℕ) (is rest : List ℕ)
    → Picked i is rest
    → times k is ≡ (if i == k then 1 else 0) + times k rest
unfolding times
times-Picked _ k _ _ (here i is) = refl
times-Picked _ k _ _ (there i j is rest p) = ground (arith, times-Picked i k is rest p)

module _ {A E : Type 0} (n limit k : ℕ) where
  -- The runs of a task, whether they are over or not.
  IsOnce : List (ℕ × Settled A E) → Loop A E → Type 0
  IsOnce events s =
      times k s.running + times k (tasks_of events) ≡ (if ltb k s.current_index then 1 else 0)

  run_next-IsOnce :
      (events : List (ℕ × Settled A E)) (s : Loop A E)
      → IsOnce events s
      → IsOnce events (run_next n s)
  unfolding run_next IsOnce times
  run_next-IsOnce events s h = ground (arith, h)

  start_workers-IsOnce : (j : ℕ) (s : Loop A E) → IsOnce [] s → IsOnce [] (start_workers n j s)
  unfolding start_workers
  start_workers-IsOnce zero s h = h
  start_workers-IsOnce (suc j) s h = start_workers-IsOnce j (run_next n s) (run_next-IsOnce [] s h)

  settle-IsOnce :
      (events : List (ℕ × Settled A E)) (i : ℕ) (v : Settled A E) (rest : List ℕ) (s : Loop A E)
      → Picked i s.running rest
      → IsOnce events s
      → IsOnce ((i, v) ∷ events) (settle n i v rest s)
  unfolding settle run_next IsOnce times
  settle-IsOnce events i v rest s p h = ground (arith, h, times-Picked i k s.running rest p)

  -- In every state that is reached, a task that has been taken is running once or has settled once,
  -- and not both; one that has not been taken neither runs nor has settled; and the tasks that have
  -- been taken are those below the current index.
  pub Reaches-once :
      (events : List (ℕ × Settled A E)) (s : Loop A E)
      → Reaches n limit events s
      → times k s.running + times k (tasks_of events) ≡ (if ltb k s.current_index then 1 else 0)
  unfolding IsOnce limit_concurrency times
  Reaches-once _ _ started = start_workers-IsOnce (min limit n) (fresh n) (ground arith)
  Reaches-once _ _ (settles events s i v rest r p) =
      settle-IsOnce events i v rest s p (Reaches-once events s r)
