-- ===== src/Concurrency/Completion.antt =====
-- When the promise of a limited run resolves, and with what.
use cmnw.Prelude.{
  ℕ, ◌≤◌, ◌<◌, true, false, List, [], ◌∷◌, ◌≡◌, ◌≢◌, ◌↔◌, ◌⊎◌, inl, inr, refl, arith, any, ◌==◌,
  length, map_get, is_some, ap,
}
use cmnw.Concurrency.{Settled, Loop, Reaches, started, settles}
use cmnw.Concurrency.Invariant.{length-Picked, Reaches-IsCounted, Reaches-IsBusy}

empty : (is : List ℕ) → length is ≡ 0 → is ≡ []
empty [] e = refl
empty (i ∷ is) e = ground arith

nobody : (i : ℕ) (is : List ℕ) → is ≡ [] → any (λ j. j == i) is ≢ true
nobody i [] e h = cc
nobody i (j ∷ is) e h = cc

module _ {A E : Type 0} (n limit : ℕ) (events : List (ℕ × Settled A E)) (s : Loop A E)
    (r : Reaches n limit events s) where
  -- Whatever the order in which tasks settle, at most `limit` tasks run at a time, and as long as
  -- fewer do, all tasks have been started.
  pub running-limit :
      (length s.running ≤ limit) × ((length s.running ≡ limit) ⊎ (s.current_index ≡ n))
  running-limit = let b = Reaches-IsBusy n limit events s r in (b.few, b.busy)

  nothing_runs : s.completed ≡ n → (s.running ≡ []) × (s.current_index ≡ n)
  nothing_runs e =
      let c = Reaches-IsCounted n limit events s r in
      (empty s.running (ground (arith, c.counted, c.bounded)), ground (arith, c.counted, c.bounded))

  all_results : s.completed ≡ n → (i : ℕ) → i < n → is_some (s.results i) ≡ true
  all_results e i h =
      let c = Reaches-IsCounted n limit events s r in
      let idle = nothing_runs e in
      elim (c.covered i (ground (arith, idle.1))) [
        | inl has ↦ has
        | inr waits ↦ absurd (nobody i s.running idle.0 waits)
      ]

  -- The promise is resolved exactly if there are tasks and as many of them have settled as there
  -- are; there is then a result for each task, and it is what the task last settled with.
  pub resolved-settled :
      ((s.resolved ≡ true) ↔ ((length events ≡ n) × (n ≢ 0)))
      × (s.resolved ≡ true
          → (i : ℕ) → i < n
          → (is_some (s.results i) ≡ true) × (s.results i ≡ map_get i events))
  resolved-settled =
      let c = Reaches-IsCounted n limit events s r in
      (
        ground (arith, c.resolved_iff, c.settled_count),
        λ done i h. (all_results (c.resolved_iff.0 done).0 i h, c.agreed i),
      )

  -- With a limit of at least one and some task, the promise is resolved or a task is running,
  -- and no more tasks settle than there are: after as many settlements as there are tasks, the
  -- promise is resolved, and before that there is a task to wait for.
  pub running-progress :
      0 < limit
      → 0 < n
      → (length events ≤ n)
        × (((s.resolved ≡ true) × (length events ≡ n))
            ⊎ ((0 < length s.running) × (length events < n)))
  running-progress positive some_task =
      let c = Reaches-IsCounted n limit events s r in
      let b = Reaches-IsBusy n limit events s r in
      (
        ground (arith, c.counted, c.bounded, c.settled_count),
        ground (arith, c.counted, c.bounded, c.settled_count, c.resolved_iff, b.few, b.busy),
      )

no_events :
    {A E : Type 0} (n limit : ℕ) (events : List (ℕ × Settled A E)) (s : Loop A E)
    → Reaches n limit events s
    → limit ≡ 0
    → events ≡ []
no_events n limit _ _ started e = refl
no_events n limit _ _ (settles events s i v rest r p) e =
    let b = Reaches-IsBusy n limit events s r in
    ground (arith, b.few, length-Picked i s.running rest p)

-- Without tasks, or with a limit of nought, the promise never resolves.
pub never_resolved :
    {A E : Type 0} (n limit : ℕ) (events : List (ℕ × Settled A E)) (s : Loop A E)
    → Reaches n limit events s
    → (n ≡ 0) ⊎ (limit ≡ 0)
    → s.resolved ≡ false
never_resolved n limit events s r h =
    let c = Reaches-IsCounted n limit events s r in
    elim h [
      | inl none_given ↦ ground (arith, c.resolved_iff)
      | inr blocked ↦
          ground (
            arith,
            c.resolved_iff,
            c.settled_count,
            ap length (no_events n limit events s r blocked),
          )
    ]
