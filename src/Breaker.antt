-- ===== src/Breaker.antt =====
-- The circuit breaker of libs/resources/src/utils/circuit-breaker.util.ts. A method takes the
-- breaker's options and state and returns the new state with its result; `Date.now()` is the
-- argument `now`, in milliseconds.
pub mod Trips
pub mod Recovery
mod Examples
use cmnw.Prelude.{ℕ, zero, suc, ◌+◌, Bool, true, false, List, [], ◌∷◌, leb, ltb, if◌then◌else◌}

pub data CircuitState : Type 0 where
  closed open_ half_open : CircuitState

pub record Options : Type 0 where
  pub failure_threshold : ℕ
  pub reset_timeout_ms : ℕ
  pub half_open_max_calls : ℕ

pub record Breaker : Type 0 where
  pub state : CircuitState
  pub failure_count : ℕ
  pub last_failure_time : ℕ
  pub half_open_calls : ℕ

-- The field initialisers of the class.
unfoldable pub new : Breaker
new = record { state = closed; failure_count = 0; last_failure_time = 0; half_open_calls = 0 }

abbrev pub is_open : CircuitState → Bool
is_open open_ = true
is_open _ = false

abbrev pub is_half_open : CircuitState → Bool
is_half_open half_open = true
is_half_open _ = false

module _ (o : Options) where
  -- `now - lastFailureTime >= resetTimeoutMs`, with the subtraction carried over to the other side.
  unfoldable pub get_state : ℕ → Breaker → Breaker × CircuitState
  get_state now b =
      let expired = leb (b.last_failure_time + o.reset_timeout_ms) now in
      let b' =
        if is_open b.state
        then if expired then record b { state = half_open; half_open_calls = 0 } else b
        else b in
      (b', b'.state)

  allows : CircuitState → Breaker → Bool
  allows closed b = true
  allows half_open b = ltb b.half_open_calls o.half_open_max_calls
  allows open_ b = false

  unfoldable pub can_execute : ℕ → Breaker → Breaker × Bool
  unfolding get_state allows
  can_execute now b = let (b', s) = get_state now b in (b', allows s b')

  unfoldable pub record_success : Breaker → Breaker
  record_success b = record b {
    state = if is_half_open b.state then closed else b.state;
    failure_count = 0;
  }

  unfoldable pub record_failure : ℕ → Breaker → Breaker
  record_failure now b =
      let c = record b { failure_count = b.failure_count + 1; last_failure_time = now } in
      if is_half_open b.state
      then record c { state = open_; half_open_calls = 0 }
      else if leb o.failure_threshold c.failure_count
      then record c { state = open_ }
      else c

  unfoldable pub record_half_open_call : Breaker → Breaker
  record_half_open_call b = record b { half_open_calls = b.half_open_calls + 1 }

-- What a caller does to a breaker.
pub data Event : Type 0 where
  ask : ℕ → Event
  success : Event
  failure : ℕ → Event
  half_open_call : Event

unfoldable pub step : Options → Breaker → Event → Breaker
step o b (ask now) = (can_execute o now b).0
step o b success = record_success o b
step o b (failure now) = record_failure o now b
step o b half_open_call = record_half_open_call o b

unfoldable pub run : Options → Breaker → List Event → Breaker
run o b [] = b
run o b (e ∷ es) = run o (step o b e) es
