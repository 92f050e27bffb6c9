-- ===== src/Keys/Query.antt =====
-- The request loops of libs/battle-net/src/battle-net.service.ts: `executeQuery` with its retries
-- and `initialize` with its attempts. The server is a parameter: what it answers to the n-th
-- request, and how long that takes. `now` is the time, moved on by the waits of the code.
pub mod Outcome
pub mod Initialize
use cmnw.Prelude.{
  ℕ, zero, suc, ◌+◌, ◌-◌, ◌*◌, ◌^◌, min, Bool, true, false, ◌||◌, Option, none, some, leb, ltb,
  ◌==◌, if◌then◌else◌, Text, List,
}
use cmnw.Keys.{
  Key, KeyHealth, Store, Result, ok, not_found, get_key_cooldown_ms, record_key_rate_limit,
  record_key_success, get_available_key,
}

-- DEFAULT_RETRY_CONFIG of libs/battle-net/src/types.ts
abbrev pub max_retries : ℕ
max_retries = 3

abbrev pub retry_delay_ms : ℕ
retry_delay_ms = 1000

-- A response, or an error with the status of its response if it has one.
pub data Reply : Type 0 where
  answered : ℕ → Reply
  failed : Option ℕ → Reply

unfoldable pub is_rate_limit_error : Option ℕ → Bool
is_rate_limit_error none = false
is_rate_limit_error (some code) = code == 429

unfoldable pub is_server_error : Option ℕ → Bool
is_server_error none = false
is_server_error (some code) = leb 500 code

-- How a query ends: it returns the response, throws the error of the last request, or throws
-- because the key is not in the table.
pub data Ending : Type 0 where
  returned : ℕ → Ending
  thrown : Option ℕ → Ending
  missing_key : Ending

pub record Run (Db : Type 0) : Type 0 where
  pub db : Db
  pub now : ℕ
  pub requests : ℕ
  pub ending : Ending

module _ {Db : Type 0} (s : Store Db) (h : KeyHealth) (current : Option Text) where
  -- `if (this._currentKeyUuid) await this.waitForCooldown(…)`: the time afterwards.
  unfoldable pub wait_for_cooldown : ℕ → Db → ℕ
  wait_for_cooldown now db = elim current [
    | none ↦ now
    | some uuid ↦ now + get_key_cooldown_ms s now uuid db
  ]

  -- `if (this._currentKeyUuid) await this.recordKeyRateLimit(…)`, with `none` where it throws.
  unfoldable pub penalise : ℕ → Db → Option Db
  penalise now db = elim current [
    | none ↦ some db
    | some uuid ↦ elim (record_key_rate_limit s h now (some uuid) (some uuid) db) [
      | ok (db', _) ↦ some db'
      | not_found ↦ none
    ]
  ]

  -- `this.recordKeySuccess(…).catch(() => {})`: a failure is ignored.
  unfoldable pub reward : Db → Db
  reward db = elim current [
    | none ↦ db
    | some uuid ↦ elim (record_key_success s h (some uuid) (some uuid) db) [
      | ok (db', _) ↦ db'
      | not_found ↦ db
    ]
  ]

  abbrev pub stop : ℕ → ℕ → Db → Ending → Option (Run Db)
  stop n now db e = some (record { db = db; now = now; requests = n; ending = e })

  -- What follows the n-th request, answered at time `now`; `again` is the rest of the loop.
  unfoldable pub after_reply : (ℕ → Db → Option (Run Db)) → ℕ → ℕ → Reply → Db → Option (Run Db)
  after_reply again n now (answered body) db = stop n now (reward db) (returned body)
  after_reply again n now (failed status) db =
      if is_rate_limit_error status
      then elim (penalise now db) [
        | none ↦ stop n now db missing_key
        | some db' ↦
            if ltb max_retries n
            then stop n now db' (thrown status)
            else again (wait_for_cooldown now db') db'
      ]
      else if is_server_error status
      then if ltb max_retries n
        then stop n now db (thrown status)
        else again (now + retry_delay_ms) db
      else stop n now db (thrown status)

  module _ (reply : ℕ → Reply) (took : ℕ → ℕ) where
    -- The loop, with fuel for its rounds; `attempt` requests have been made.
    unfoldable pub execute : ℕ → ℕ → ℕ → Db → Option (Run Db)
    execute zero attempt now db = none
    execute (suc fuel) attempt now db =
        let n = suc attempt in
        after_reply (execute fuel n) n (wait_for_cooldown now db + took n) (reply n) db

    -- One round more than there are retries is enough fuel.
    unfoldable pub execute_query : ℕ → Db → Option (Run Db)
    execute_query = execute (suc max_retries) 0

-- `maxAttempts` of `initialize`
abbrev pub max_attempts : ℕ
max_attempts = 10

-- The loop of `initialize`, over the keys that the table holds at each time: the key that is found
-- and the time, or `none` for the error after the last attempt.
module _ (h : KeyHealth) (tag : Option Text) (keys_at : ℕ → List Key) where
  retry_delay : ℕ → ℕ
  retry_delay attempt = min (h.base_delay * h.multiplier ^ (attempt - 1)) (h.max_delay * 1000)

  unfoldable pub initialize_from : ℕ → ℕ → ℕ → Option (Key × ℕ)
  unfolding retry_delay
  initialize_from zero attempt now = none
  initialize_from (suc rounds) attempt now =
      let rest = initialize_from rounds (suc attempt) (now + retry_delay (suc attempt)) in
      elim (get_available_key now tag (keys_at now)) [
        | some key ↦ some (key, now)
        | none ↦ if leb max_attempts (suc attempt) then none else rest
      ]

  unfoldable pub initialize : ℕ → Option (Key × ℕ)
  initialize = initialize_from max_attempts 0
