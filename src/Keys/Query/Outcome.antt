-- ===== src/Keys/Query/Outcome.antt =====
-- How a query ends: the loop of `executeQuery` always ends, within its bound on requests, and
-- reports the reply that ended it.
use native.Mathlib.Decide.{ℕ_discrete}
use cmnw.Prelude.{
  ℕ, zero, suc, ◌+◌, ◌≤◌, ◌<◌, Bool, true, false, ◌||◌, Option, none, some, ◌≡◌, ◌⊎◌, inl, inr,
  arith, ltb, if◌then◌else◌, Text, refl, Bool-cases, [], ◌∷◌, same_text_iff, ◌∙◌, ap,
}
use cmnw.Keys.{Key, KeyHealth, Store, IsStore, record_key_rate_limit, calculate_new_cooldown}
use cmnw.Keys.Recording.{find_one-record_key_failure}
use cmnw.Keys.Query.{
  max_retries, retry_delay_ms, Reply, answered, failed, Ending, returned, thrown, Run,
  is_rate_limit_error, is_server_error, wait_for_cooldown, penalise, after_reply, execute,
  execute_query,
}

-- The errors after which the code sends the request again.
unfoldable pub is_retryable : Reply → Bool
is_retryable (answered body) = false
is_retryable (failed status) = is_rate_limit_error status || is_server_error status

-- What the caller sees of a last reply.
unfoldable pub verdict : Reply → Ending
verdict (answered body) = returned body
verdict (failed status) = thrown status

-- The run ended with its last reply, and made every request before that because the reply to it
-- could be retried; it gave up on a reply that could be retried only at the bound.
pub record Explains (reply : ℕ → Reply) (attempt : ℕ) {Db : Type 0} (r : Run Db) : Type 0 where
  pub progress : attempt < r.requests
  pub bounded : r.requests ≤ suc max_retries
  pub ending : r.ending ≡ verdict (reply r.requests)
  pub earlier : (i : ℕ) → attempt < i → i < r.requests → is_retryable (reply i) ≡ true
  pub final : (is_retryable (reply r.requests) ≡ false) ⊎ (r.requests ≡ suc max_retries)

module _ (reply : ℕ → Reply) (attempt : ℕ) {Db : Type 0} (r : Run Db) where
  stop-Explains :
      attempt ≤ max_retries
      → r.requests ≡ suc attempt
      → r.ending ≡ verdict (reply (suc attempt))
      → (is_retryable (reply (suc attempt)) ≡ false) ⊎ (suc attempt ≡ suc max_retries)
      → Explains reply attempt r
  stop-Explains bound n e f = record {
    progress = omega arith;
    bounded = omega arith;
    ending = rw n e;
    earlier = λ i lo hi. absurd (omega arith);
    final = rw n f;
  }

  retry-Explains :
      is_retryable (reply (suc attempt)) ≡ true
      → Explains reply (suc attempt) r
      → Explains reply attempt r
  retry-Explains again x = record {
    progress = omega (arith, x.progress);
    bounded = x.bounded;
    ending = x.ending;
    earlier = λ i lo hi. elim (ℕ_discrete i (suc attempt)) [
      | yes first ↦ rw first again
      | no later ↦ x.earlier i (omega arith) hi
    ];
    final = x.final;
  }

module _ {Db : Type 0} (s : Store Db) (l : IsStore s) (h : KeyHealth) where
  -- The current key, if there is one, is a row of the table (and its uuid is not empty).
  abbrev pub HasKey : Option Text → Db → Type 0
  HasKey none db = Unit
  HasKey (some []) db = ⊥
  HasKey (some (c ∷ cs)) db = (k : Key) × (s.find_one (c ∷ cs) db ≡ some k)

  -- Recording a rate limit succeeds, and leaves the key in the table.
  penalise-HasKey :
      (current : Option Text) (now : ℕ) (db : Db)
      → HasKey current db
      → (db' : Db) × (penalise s h current now db ≡ some db') × HasKey current db'
  unfolding penalise record_key_rate_limit
  penalise-HasKey none now db k = (db, refl, tt)
  penalise-HasKey (some []) now db k = elim k [ ]
  penalise-HasKey (some (c ∷ cs)) now db (k, found) =
      let u : Text = c ∷ cs in
      let (db', recorded, reads) = find_one-record_key_failure s l h now true u u db k found in
      let same = (same_text_iff u u).1 refl in
      let c = calculate_new_cooldown h k.cooldown_delay_seconds true in
      let k' : Key = record k { cooldown_delay_seconds = c; last_failure_at = some now } in
      let found' = reads ∙ ap (λ b. if b then some k' else s.find_one u db) same in
      (db', rw (recorded, penalise, record_key_rate_limit) refl, (k', found'))

  module _ (current : Option Text) (reply : ℕ → Reply) where
    -- One round answered by `ρ`, given that the rest of the loop ends well where it is entered.
    after_reply-Explains :
        (again : ℕ → Db → Option (Run Db)) (attempt now : ℕ) (db : Db) (ρ : Reply)
        → reply (suc attempt) ≡ ρ
        → attempt ≤ max_retries
        → HasKey current db
        → ((now' : ℕ) (db' : Db)
            → suc attempt ≤ max_retries
            → HasKey current db'
            → (r : Run Db) × (again now' db' ≡ some r) × Explains reply (suc attempt) r)
        → (r : Run Db) × (after_reply s h current again (suc attempt) now ρ db ≡ some r)
          × Explains reply attempt r
    unfolding after_reply verdict is_retryable
    after_reply-Explains again attempt now db (answered body) e bound key rest =
        (_, refl, stop-Explains reply attempt _ bound refl (rw e refl) (inl (rw e refl)))
    after_reply-Explains again attempt now db (failed status) e bound key rest =
        let stopped : Db → Run Db =
          λ d. record { db = d; now = now; requests = suc attempt; ending = thrown status } in
        elim (Bool-cases (is_rate_limit_error status)) [
          | inl limited ↦
              let (db', recorded, key') = penalise-HasKey current now db key in
              elim (Bool-cases (ltb max_retries (suc attempt))) [
                | inl last ↦ (
                  stopped db',
                  rw (limited, recorded) (rw last refl),
                  stop-Explains reply attempt (stopped db') bound refl (rw e refl)
                      (inr (ground arith)),
                )
                | inr more ↦
                    let (r, ran, x) =
                      rest (wait_for_cooldown s h current now db') db' (ground arith) key' in
                    (
                      r,
                      rw (limited, recorded) (rw more ran),
                      retry-Explains reply attempt r (rw e (rw limited refl)) x,
                    )
              ]
          | inr other ↦ elim (Bool-cases (is_server_error status)) [
            | inl server ↦ elim (Bool-cases (ltb max_retries (suc attempt))) [
              | inl last ↦ (
                stopped db,
                rw (other, server) (rw last refl),
                stop-Explains reply attempt (stopped db) bound refl (rw e refl)
                    (inr (ground arith)),
              )
              | inr more ↦
                  let (r, ran, x) = rest (now + retry_delay_ms) db (ground arith) key in
                  (
                    r,
                    rw (other, server) (rw more ran),
                    retry-Explains reply attempt r (rw e (rw (other, server) refl)) x,
                  )
            ]
            | inr fatal ↦ (
              stopped db,
              rw (other, fatal) refl,
              stop-Explains reply attempt (stopped db) bound refl (rw e refl)
                  (inl (rw e (rw (other, fatal) refl))),
            )
          ]
        ]

    module _ (took : ℕ → ℕ) where
      execute-Explains :
          (fuel attempt now : ℕ) (db : Db)
          → attempt + fuel ≡ suc max_retries
          → 0 < fuel
          → HasKey current db
          → (r : Run Db) × (execute s h current reply took fuel attempt now db ≡ some r)
            × Explains reply attempt r
      unfolding execute
      execute-Explains zero attempt now db sum some_fuel key = absurd (omega arith)
      execute-Explains (suc fuel) attempt now db sum some_fuel key =
          after_reply-Explains (execute s h current reply took fuel (suc attempt)) attempt _ db
            (reply (suc attempt)) refl (omega arith) key
            (λ now' db' more key'.
              execute-Explains fuel (suc attempt) now' db' (omega arith) (omega arith) key')

-- Whatever the server answers, and however long it takes, a query whose key (if it has one) is in
-- the table ends after at least one and at most `max_retries + 1` requests. It returns the last
-- response or throws the last error; every earlier request met a 429 or a status of 500 or more;
-- and the last one did so only if it was the last that is allowed.
pub execute_query-Explains :
    {Db : Type 0} (s : Store Db) (l : IsStore s) (h : KeyHealth) (current : Option Text)
    (reply : ℕ → Reply) (took : ℕ → ℕ) (now : ℕ) (db : Db)
    → HasKey s l h current db
    → (r : Run Db) × (execute_query s h current reply took now db ≡ some r) × Explains reply 0 r
unfolding execute_query
execute_query-Explains s l h current reply took now db key =
    execute-Explains s l h current reply took (suc max_retries) 0 now db refl (omega arith) key
