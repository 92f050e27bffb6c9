-- ===== src/Concurrency.antt =====
-- Running tasks a few at a time: libs/resources/src/utils/concurrency.util.ts. The loop's variables
-- are a state, and the settling of a running task, in whatever order the tasks settle, is a step.
pub mod Invariant
pub mod Completion
pub mod Once
pub mod Examples
use cmnw.Prelude.{
  ℕ, zero, suc, Bool, true, false, Option, none, some, List, [], ◌∷◌, ◌==◌, leb, min, if◌then◌else◌,
}

-- PromiseSettledResult
pub data Settled (A E : Type 0) : Type 0 where
  fulfilled : A → Settled A E
  rejected : E → Settled A E

-- The variables that the workers share; `running` lists the tasks that are awaited, and `resolved`
-- says whether the promise has been resolved with the results.
pub record Loop (A E : Type 0) : Type 0 where
  pub results : ℕ → Option (Settled A E)
  pub completed : ℕ
  pub current_index : ℕ
  pub running : List ℕ
  pub resolved : Bool

-- One of the listed numbers is taken out.
pub data Picked : ℕ → List ℕ → List ℕ → Type 0 where
  here : (i : ℕ) (is : List ℕ) → Picked i (i ∷ is) is
  there : (i j : ℕ) (is rest : List ℕ) → Picked i is rest → Picked i (j ∷ is) (j ∷ rest)

-- `n` is the number of tasks.
module _ {A E : Type 0} (n : ℕ) where
  -- `runNext` up to the await.
  unfoldable pub run_next : Loop A E → Loop A E
  run_next s =
      if leb n s.current_index
      then s
      else record s { current_index = suc s.current_index; running = s.current_index ∷ s.running }

  -- `runNext` from the await on.
  unfoldable pub settle : ℕ → Settled A E → List ℕ → Loop A E → Loop A E
  settle i v rest s =
      let done = record s {
        results = λ j. if i == j then some v else s.results j;
        completed = suc s.completed;
        running = rest;
      } in
      if done.completed == n then record done { resolved = true } else run_next done

  unfoldable pub start_workers : ℕ → Loop A E → Loop A E
  start_workers zero s = s
  start_workers (suc k) s = start_workers k (run_next s)

  abbrev pub fresh : Loop A E
  fresh = record {
    results = λ i. none;
    completed = 0;
    current_index = 0;
    running = [];
    resolved = false;
  }

  unfoldable pub limit_concurrency : ℕ → Loop A E
  limit_concurrency limit = start_workers (min limit n) fresh

  -- The states that are reached, with what settled on the way, the last first.
  pub data Reaches (limit : ℕ) : List (ℕ × Settled A E) → Loop A E → Type 0 where
    started : Reaches limit [] (limit_concurrency limit)
    settles :
        (events : List (ℕ × Settled A E)) (s : Loop A E) (i : ℕ) (v : Settled A E) (rest : List ℕ)
        → Reaches limit events s
        → Picked i s.running rest
        → Reaches limit ((i, v) ∷ events) (settle i v rest s)
