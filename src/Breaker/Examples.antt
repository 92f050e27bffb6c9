-- ===== src/Breaker/Examples.antt =====
-- A breaker that opens after three failures, waits a second and tries twice.
use cmnw.Prelude.{◌<◌, [], ◌∷◌, ◌≡◌, refl, arith}
use cmnw.Breaker.{
  closed, open_, half_open, Options, Breaker, new, ask, success, failure, half_open_call, run, step,
  can_execute, record_failure, record_success, record_half_open_call,
}
use cmnw.Breaker.Trips.{trailing_failures, closed_below_threshold}
use cmnw.Breaker.Recovery.{granted, attempt}

abbrev options : Options
options = record { failure_threshold = 3; reset_timeout_ms = 1000; half_open_max_calls = 2 }

abbrev opened : Breaker
opened = record { state = open_; failure_count = 3; last_failure_time = 30; half_open_calls = 0 }

abbrev trying : Breaker
trying = record opened { state = half_open }

trip : run options new (failure 10 ∷ success ∷ failure 20 ∷ failure 25 ∷ failure 30 ∷ []) ≡ opened
unfolding run step can_execute record_success record_failure record_half_open_call new
trip = refl

recover : (run options opened (ask 500 ∷ ask 1030 ∷ half_open_call ∷ success ∷ [])).state ≡ closed
unfolding run step can_execute record_success record_failure record_half_open_call
recover = refl

closed_below_threshold_example :
    let es = failure 10 ∷ success ∷ failure 20 ∷ [] in
    ((run options new es).failure_count ≡ trailing_failures 0 es)
    × ((run options new es).state ≡ closed → trailing_failures 0 es < 3)
closed_below_threshold_example =
    closed_below_threshold options (failure 10 ∷ success ∷ failure 20 ∷ []) (omega arith)

granted_run : granted options trying (2000 ∷ 2001 ∷ 2002 ∷ 9000 ∷ []) ≡ 2
unfolding granted attempt can_execute record_half_open_call
granted_run = refl
