-- ===== src/Concurrency/Invariant.antt =====
-- What holds in every state that is reached.
use cmnw.Prelude.{
  ℕ, zero, suc, ◌+◌, ◌≤◌, ◌<◌, min, Bool, true, some, List, [], ◌∷◌, ◌≡◌, ◌≢◌, ◌↔◌, ◌⊎◌, inl, inr,
  refl, arith, ◌==◌, leb, if◌then◌else◌, any, length, map_get, is_some, Bool-cases, ap,
}
use cmnw.Concurrency.{
  Settled, Loop, Picked, here, there, run_next, settle, start_workers, fresh, limit_concurrency,
  Reaches, started, settles,
}

pub length-Picked : (i : ℕ) (is rest : List ℕ) → Picked i is rest → length is ≡ suc (length rest)
length-Picked _ _ _ (here i is) = refl
length-Picked _ _ _ (there i j is rest p) = ap suc (length-Picked i is rest p)

-- Who was running still is, or is the one that was taken out.
pub any-Picked :
    (i k : ℕ) (is rest : List ℕ)
    → Picked i is rest
    → any (λ j. j == k) is ≡ true
    → (i ≡ k) ⊎ (any (λ j. j == k) rest ≡ true)
any-Picked _ k _ _ (here i is) h = ground arith
any-Picked _ k _ _ (there i j is rest p) h = elim (Bool-cases (j == k)) [
  | inl same ↦ inr (rw same refl)
  | inr other ↦ elim (any-Picked i k is rest p (rw other at h)) [
    | inl e ↦ inl e
    | inr inside ↦ inr (ground arith)
  ]
]

module _ {A E : Type 0} (n limit : ℕ) where
  -- Everything but the number of running tasks.
  pub record IsCounted (events : List (ℕ × Settled A E)) (s : Loop A E) : Type 0 where
    pub counted : s.completed + length s.running ≡ s.current_index
    pub settled_count : s.completed ≡ length events
    pub bounded : s.current_index ≤ n
    pub covered :
        (i : ℕ)
        → i < s.current_index
        → (is_some (s.results i) ≡ true) ⊎ (any (λ j. j == i) s.running ≡ true)
    pub agreed : (i : ℕ) → s.results i ≡ map_get i events
    pub resolved_iff : (s.resolved ≡ true) ↔ ((s.completed ≡ n) × (n ≢ 0))

  -- As many tasks are running as may, or all have been started.
  pub record IsBusy (s : Loop A E) : Type 0 where
    pub few : length s.running ≤ limit
    pub busy : (length s.running ≡ limit) ⊎ (s.current_index ≡ n)

  pub run_next-IsCounted :
      (events : List (ℕ × Settled A E)) (s : Loop A E)
      → IsCounted events s
      → IsCounted events (run_next n s)
  unfolding run_next
  run_next-IsCounted events s c = elim (Bool-cases (leb n s.current_index)) [
    | inl over ↦ rw over c
    | inr more ↦ rw more (record {
      counted = ground (arith, c.counted);
      settled_count = c.settled_count;
      bounded = ground arith;
      covered = λ i h. ground (arith, c.covered i);
      agreed = c.agreed;
      resolved_iff = c.resolved_iff;
    })
  ]

  fresh-IsCounted : IsCounted [] (fresh n)
  unfolding map_get
  fresh-IsCounted = record {
    counted = refl;
    settled_count = refl;
    bounded = ground arith;
    covered = λ i h. ground arith;
    agreed = λ i. refl;
    resolved_iff = ground arith;
  }

  start_workers-IsCounted :
      (k : ℕ) (s : Loop A E) → IsCounted [] s → IsCounted [] (start_workers n k s)
  unfolding start_workers
  start_workers-IsCounted zero s c = c
  start_workers-IsCounted (suc k) s c =
      start_workers-IsCounted k (run_next n s) (run_next-IsCounted [] s c)

  -- Each worker takes one task while there are some.
  start_workers-running :
      (k : ℕ) (s : Loop A E)
      → k + s.current_index ≤ n
      → length s.running ≡ s.current_index
      → let t = start_workers n k s in
        (t.current_index ≡ k + s.current_index) × (length t.running ≡ k + s.current_index)
  unfolding start_workers run_next
  start_workers-running zero s h e = (ground arith, ground (arith, e))
  start_workers-running (suc k) s h e =
      let next = start_workers-running k (run_next n s) (ground arith) (ground (arith, e)) in
      (ground (arith, next.0), ground (arith, next.1))

  start-IsBusy : IsBusy (limit_concurrency n limit)
  unfolding limit_concurrency
  start-IsBusy =
      let run = start_workers-running (min limit n) (fresh n) (ground arith) refl in
      record { few = ground (arith, run.1); busy = ground (arith, run.0, run.1) }

  pub start-IsCounted : IsCounted [] (limit_concurrency n limit)
  unfolding limit_concurrency
  start-IsCounted = start_workers-IsCounted (min limit n) (fresh n) fresh-IsCounted

  -- A settled task makes room for the next one.
  settle-IsBusy :
      (i : ℕ) (v : Settled A E) (rest : List ℕ) (s : Loop A E)
      → length s.running ≡ suc (length rest)
      → s.completed + length s.running ≡ s.current_index
      → s.current_index ≤ n
      → IsBusy s
      → IsBusy (settle n i v rest s)
  unfolding settle run_next
  settle-IsBusy i v rest s e counted bounded b = record {
    few = ground (arith, b.few, b.busy);
    busy = ground (arith, b.few, b.busy);
  }

  -- Between the settling of a task and the start of the next one.
  abbrev between : ℕ → Settled A E → List ℕ → Bool → Loop A E → Loop A E
  between i v rest b s = record {
    results = λ j. if i == j then some v else s.results j;
    completed = suc s.completed;
    current_index = s.current_index;
    running = rest;
    resolved = b;
  }

  between-IsCounted :
      (events : List (ℕ × Settled A E)) (i : ℕ) (v : Settled A E) (rest : List ℕ) (s : Loop A E)
      (b : Bool)
      → Picked i s.running rest
      → IsCounted events s
      → ((b ≡ true) ↔ ((suc s.completed ≡ n) × (n ≢ 0)))
      → IsCounted ((i, v) ∷ events) (between i v rest b s)
  unfolding map_get
  between-IsCounted events i v rest s b p c e = record {
    counted = ground (arith, c.counted, length-Picked i s.running rest p);
    settled_count = ap suc c.settled_count;
    bounded = c.bounded;
    covered = λ k h. elim (Bool-cases (i == k)) [
      | inl same ↦ inl (rw same refl)
      | inr other ↦ elim (c.covered k h) [
        | inl r ↦ inl (rw other r)
        | inr waits ↦ elim (any-Picked i k s.running rest p waits) [
          | inl same ↦ inl (ground arith)
          | inr inside ↦ inr inside
        ]
      ]
    ];
    agreed = λ k. rw (c.agreed k) refl;
    resolved_iff = e;
  }

  settle-IsCounted :
      (events : List (ℕ × Settled A E)) (i : ℕ) (v : Settled A E) (rest : List ℕ) (s : Loop A E)
      → Picked i s.running rest
      → IsCounted events s
      → IsCounted ((i, v) ∷ events) (settle n i v rest s)
  unfolding settle
  settle-IsCounted events i v rest s p c = elim (Bool-cases (suc s.completed == n)) [
    | inl all_done ↦ rw all_done (between-IsCounted events i v rest s true p c (ground arith))
    | inr more ↦ rw more (
        run_next-IsCounted ((i, v) ∷ events) (between i v rest s.resolved s) (
          between-IsCounted events i v rest s s.resolved p c (
            ground
              (arith, c.resolved_iff, c.counted, c.bounded, length-Picked i s.running rest p))))
  ]

  pub Reaches-IsCounted :
      (events : List (ℕ × Settled A E)) (s : Loop A E)
      → Reaches n limit events s
      → IsCounted events s
  Reaches-IsCounted _ _ started = start-IsCounted
  Reaches-IsCounted _ _ (settles events s i v rest r p) =
      settle-IsCounted events i v rest s p (Reaches-IsCounted events s r)

  pub Reaches-IsBusy :
      (events : List (ℕ × Settled A E)) (s : Loop A E) → Reaches n limit events s → IsBusy s
  Reaches-IsBusy _ _ started = start-IsBusy
  Reaches-IsBusy _ _ (settles events s i v rest r p) =
      settle-IsBusy i v rest s (length-Picked i s.running rest p)
        (Reaches-IsCounted events s r).counted (Reaches-IsCounted events s r).bounded
        (Reaches-IsBusy events s r)
