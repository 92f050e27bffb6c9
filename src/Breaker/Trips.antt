-- ===== src/Breaker/Trips.antt =====
-- When a breaker opens.
use native.Mathlib.Nat.{add_assoc}
use cmnw.Prelude.{
  ℕ, ◌+◌, ◌<◌, List, [], ◌∷◌, ◌≡◌, refl, inl, inr, arith, ap, ◌∙◌, if◌then◌else◌, leb, length, map,
  Bool-cases,
}
use cmnw.Breaker.{
  closed, open_, Options, Breaker, new, Event, ask, success, failure, half_open_call, step, run,
  can_execute, record_failure, record_success, record_half_open_call,
}

-- The failures since the last success, with `n` before the first event.
unfoldable pub trailing_failures : ℕ → List Event → ℕ
trailing_failures n [] = n
trailing_failures n (success ∷ es) = trailing_failures 0 es
trailing_failures n (failure now ∷ es) = trailing_failures (n + 1) es
trailing_failures n (e ∷ es) = trailing_failures n es

count-record_failure :
    (o : Options) (now : ℕ) (b : Breaker)
    → (record_failure o now b).failure_count ≡ b.failure_count + 1
unfolding record_failure
count-record_failure o now b = ground arith

state-record_failure :
    (o : Options) (now : ℕ) (b : Breaker)
    → b.state ≡ closed
    → (record_failure o now b).state
      ≡ (if leb o.failure_threshold (b.failure_count + 1) then open_ else closed)
unfolding record_failure
state-record_failure o now b h = ground arith

count-run :
    (o : Options) (b : Breaker) (es : List Event)
    → (run o b es).failure_count ≡ trailing_failures b.failure_count es
unfolding run trailing_failures step can_execute record_success record_half_open_call
count-run o b [] = refl
count-run o b (ask now ∷ es) = ground (arith, count-run o (step o b (ask now)) es)
count-run o b (success ∷ es) = count-run o (step o b success) es
count-run o b (failure now ∷ es) =
    count-run o (record_failure o now b) es
    ∙ ap (λ n. trailing_failures n es) (count-record_failure o now b)
count-run o b (half_open_call ∷ es) = count-run o (step o b half_open_call) es

-- A closed breaker has had fewer failures in a row than the threshold.
pub record IsSound (o : Options) (b : Breaker) : Type 0 where
  pub below : b.state ≡ closed → b.failure_count < o.failure_threshold

step-IsSound :
    (o : Options) (b : Breaker) (e : Event)
    → 0 < o.failure_threshold
    → IsSound o b
    → IsSound o (step o b e)
unfolding step can_execute record_success record_failure record_half_open_call
step-IsSound o b (ask now) p h = ground arith
step-IsSound o b success p h = ground arith
step-IsSound o b (failure now) p h = ground arith
step-IsSound o b half_open_call p h = ground arith

run-IsSound :
    (o : Options) (b : Breaker) (es : List Event)
    → 0 < o.failure_threshold
    → IsSound o b
    → IsSound o (run o b es)
unfolding run
run-IsSound o b [] p h = h
run-IsSound o b (e ∷ es) p h = run-IsSound o (step o b e) es p (step-IsSound o b e p h)

-- Whatever happened to a new breaker, and at whatever times: its failure count is the number of
-- failures since the last success, and if it is closed that number is below the threshold, which
-- is assumed to be positive.
pub closed_below_threshold :
    (o : Options) (es : List Event)
    → 0 < o.failure_threshold
    → ((run o new es).failure_count ≡ trailing_failures 0 es)
      × ((run o new es).state ≡ closed → trailing_failures 0 es < o.failure_threshold)
unfolding new
closed_below_threshold o es p =
    let counted = count-run o new es in
    let sound = run-IsSound o new es p (ground arith) in
    (counted, λ c. omega (arith, counted, sound.below c))

again :
    (o : Options) (now : ℕ) (b : Breaker) → b.state ≡ open_ → (record_failure o now b).state ≡ open_
unfolding record_failure
again o now b h = ground arith

stays_open :
    (o : Options) (b : Breaker) (ts : List ℕ)
    → b.state ≡ open_
    → (run o b (map failure ts)).state ≡ open_
unfolding run step
stays_open o b [] h = h
stays_open o b (t ∷ ts) h = stays_open o (record_failure o t b) ts (again o t b h)

-- A closed breaker with fewer failures than the threshold that fails at each of the given times,
-- with no success between, is open afterwards if the old and the new failures together reach the
-- threshold, and is still closed if they do not.
pub failures_open :
    (o : Options) (b : Breaker) (ts : List ℕ)
    → b.state ≡ closed
    → b.failure_count < o.failure_threshold
    → (run o b (map failure ts)).state
      ≡ (if leb o.failure_threshold (b.failure_count + length ts) then open_ else closed)
unfolding run step
failures_open o b [] h below = ground arith
failures_open o b (t ∷ ts) h below =
    elim (Bool-cases (leb o.failure_threshold (b.failure_count + 1))) [
      | inl reached ↦
          let opened : (record_failure o t b).state ≡ open_ =
            rw reached at (state-record_failure o t b h) in
          rw (stays_open o (record_failure o t b) ts opened) (ground arith)
      | inr short ↦
          let still : (record_failure o t b).state ≡ closed =
            rw short at (state-record_failure o t b h) in
          let one_more = count-record_failure o t b in
          ground (
            arith,
            failures_open o (record_failure o t b) ts still (ground arith),
            one_more,
            add_assoc b.failure_count 1 (length ts),
          )
    ]
