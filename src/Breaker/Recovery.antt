-- ===== src/Breaker/Recovery.antt =====
-- What an open breaker refuses, and how it recovers.
use cmnw.Prelude.{
  ℕ, ◌+◌, ◌≤◌, ◌<◌, Bool, true, false, List, [], ◌∷◌, ◌≡◌, arith, if◌then◌else◌, ltb,
}
use cmnw.Breaker.{
  closed, open_, half_open, Options, Breaker, can_execute, record_failure, record_success,
  record_half_open_call,
}

-- An open breaker asked before the reset time has passed since its last failure refuses the call
-- and does not change. Asked afterwards it becomes half-open with no trial call used, and grants
-- the call exactly if trial calls are allowed at all.
pub can_execute-open :
    (o : Options) (now : ℕ) (b : Breaker)
    → b.state ≡ open_
    → (now < b.last_failure_time + o.reset_timeout_ms → can_execute o now b ≡ (b, false))
      × (b.last_failure_time + o.reset_timeout_ms ≤ now
          → can_execute o now b
            ≡ (record b { state = half_open; half_open_calls = 0 }, ltb 0 o.half_open_max_calls))
unfolding can_execute
can_execute-open o now b h = (λ early. ground arith, λ late. ground arith)

-- A half-open breaker closes on a success, with its failures forgotten, and opens again on a
-- failure, refusing calls until the reset time has passed since that failure.
pub half_open-verdict :
    (o : Options) (t now : ℕ) (b : Breaker)
    → b.state ≡ half_open
    → ((record_success o b).state ≡ closed)
      × ((record_success o b).failure_count ≡ 0)
      × ((record_failure o t b).state ≡ open_)
      × (now < t + o.reset_timeout_ms → (can_execute o now (record_failure o t b)).1 ≡ false)
unfolding record_success record_failure can_execute
half_open-verdict o t now b h = (ground arith, ground arith, ground arith, λ early. ground arith)

-- A caller that counts the trial call when the breaker grants it.
unfoldable pub attempt : Options → ℕ → Breaker → Breaker × Bool
attempt o now b =
    let (b', granted) = can_execute o now b in
    (if granted then record_half_open_call o b' else b', granted)

abbrev bit : Bool → ℕ
bit true = 1
bit false = 0

-- How many of the attempts at the given times are granted.
unfoldable pub granted : Options → Breaker → List ℕ → ℕ
granted o b [] = 0
granted o b (t ∷ ts) = bit (attempt o t b).1 + granted o (attempt o t b).0 ts

attempt-half_open :
    (o : Options) (t : ℕ) (b : Breaker)
    → b.state ≡ half_open
    → ((attempt o t b).0.state ≡ half_open)
      × ((attempt o t b).0.half_open_calls ≡ b.half_open_calls + bit (attempt o t b).1)
      × ((attempt o t b).1 ≡ ltb b.half_open_calls o.half_open_max_calls)
unfolding attempt can_execute record_half_open_call
attempt-half_open o t b h = ground arith

-- While a half-open breaker waits for the outcome of its trial calls it grants at most the
-- configured number of them, however often and however late it is asked.
pub granted-half_open :
    (o : Options) (b : Breaker) (ts : List ℕ)
    → b.state ≡ half_open
    → b.half_open_calls ≤ o.half_open_max_calls
    → b.half_open_calls + granted o b ts ≤ o.half_open_max_calls
unfolding granted
granted-half_open o b [] h p = omega arith
granted-half_open o b (t ∷ ts) h p =
    let (still, counted, tested) = attempt-half_open o t b h in
    ground (arith, granted-half_open o (attempt o t b).0 ts still (ground arith), counted, tested)
