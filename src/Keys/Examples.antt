-- ===== src/Keys/Examples.antt =====
-- A table of keys as a list, which meets the laws that the service relies on, and the theorems
-- about a pool of two keys.
use mathlib.Core.Option
use cmnw.Prelude.{
  ℕ, zero, suc, ◌+◌, ◌-◌, ◌*◌, ◌≤◌, true, Option, none, some, List, [], ◌∷◌, ◌≡◌, refl, arith, leb,
  ltb, if◌then◌else◌, Text, codes, same_text, same_text_iff, Bool-cases, inl, inr, All, Memᴰ,
  sort_by,
}
use cmnw.Keys.{
  Key, KeyHealth, Store, IsStore, cooldown_end, is_available, has_tag, is_tagged, get_available_key,
  calculate_new_cooldown, should_wait_for_key, reset_key_health, get_key_cooldown_ms,
}
use cmnw.Keys.Selection.{Qualifies, get_available_key-some}
use cmnw.Keys.Cooldown.{after, rate_limits-saturate}
use cmnw.Keys.Recording.{rate_limited_key_waits}
use cmnw.Keys.{record_key_failure, ok}
use cmnw.Keys.Query.{Reply, answered, failed, Run, execute_query, initialize, initialize_from}
use cmnw.Keys.Query.Outcome.{Explains, execute_query-Explains}
use cmnw.Keys.Query.Initialize.{IsFirst, attempt_from, initialize-IsFirst}

-- The first row with the uuid.
row : Text → List Key → Option Key
row u [] = none
row u (k ∷ ks) = if same_text k.uuid u then some k else row u ks

-- The row is replaced where it stands, or added at the end.
store : Key → List Key → List Key
store k [] = k ∷ []
store k (j ∷ js) = if same_text j.uuid k.uuid then k ∷ js else j ∷ store k js

-- The first row with the uuid is changed.
change : Text → (Key → Key) → List Key → List Key
change u f [] = []
change u f (k ∷ ks) = if same_text k.uuid u then f k ∷ ks else k ∷ change u f ks

abbrev table : Store (List Key)
table = record { find = λ ks. ks; find_one = row; save = store; update = change }

row-uuid : (u : Text) (ks : List Key) (k : Key) → row u ks ≡ some k → k.uuid ≡ u
unfolding row
row-uuid u [] k e = cc
row-uuid u (j ∷ js) k e = elim (Bool-cases (same_text j.uuid u)) [
  | inl same ↦ let found : j ≡ k = ground arith in rw (← found) ((same_text_iff j.uuid u).0 same)
  | inr other ↦ row-uuid u js k (rw other at e)
]

-- Rows are told apart by their uuids.
other_row : (s t u : Text) → same_text s t ≡ true → same_text s u ≡ same_text t u
other_row s t u h = rw ((same_text_iff s t).0 h)

row-store :
    (k : Key) (u : Text) (ks : List Key)
    → row u (store k ks) ≡ (if same_text k.uuid u then some k else row u ks)
unfolding row store
row-store k u [] = refl
row-store k u (j ∷ js) = elim (Bool-cases (same_text j.uuid k.uuid)) [
  | inl same ↦ rw same (ground (arith, other_row j.uuid k.uuid u same))
  | inr other ↦ rw other (
      ground (
        arith,
        row-store k u js,
        same_text_iff j.uuid u,
        same_text_iff k.uuid u,
        same_text_iff j.uuid k.uuid,
      ))
]

row-change :
    (u v : Text) (f : Key → Key) (ks : List Key)
    → ((k : Key) → (f k).uuid ≡ k.uuid)
    → row v (change u f ks) ≡ (if same_text u v then Option.map f (row v ks) else row v ks)
unfolding row change
row-change u v f [] keeps = ground arith
row-change u v f (k ∷ ks) keeps = elim (Bool-cases (same_text k.uuid u)) [
  | inl same ↦ rw same (ground (arith, keeps k, other_row k.uuid u v same))
  | inr other ↦ rw other (
      ground (
        arith,
        row-change u v f ks keeps,
        same_text_iff k.uuid u,
        same_text_iff k.uuid v,
        same_text_iff u v,
      ))
]

abbrev table-IsStore : IsStore table
table-IsStore = record {
  find_one-uuid = row-uuid;
  find_one-save = row-store;
  find_one-update = row-change;
}

abbrev key_of : Text → ℕ → Option ℕ → Key
key_of uuid cooldown failed_at = record {
  uuid = uuid;
  client_id = [];
  client_secret = [];
  access_token = none;
  expired_in = none;
  cooldown_delay_seconds = cooldown;
  last_failure_at = failed_at;
  tags = some (codes "osint" ∷ []);
}

abbrev tired : Key
tired = key_of (codes "a") 30 (some 5000)

abbrev fresh : Key
fresh = key_of (codes "b") 0 none

abbrev pool : List Key
pool = tired ∷ fresh ∷ []

abbrev health : KeyHealth
health = record { base_delay = 30; multiplier = 2; max_delay = 300; decay_step = 5 }

key_functions : Unit {0}
unfolding get_available_key sort_by is_tagged has_tag is_available cooldown_end row store change
    reset_key_health get_key_cooldown_ms calculate_new_cooldown
key_functions = tt

get_available_key-some_example :
    Memᴰ fresh pool
    × Qualifies 9000 (some (codes "osint")) fresh
    × All (λ j. Qualifies 9000 (some (codes "osint")) j → 0 ≤ j.cooldown_delay_seconds) pool
unfolding key_functions
get_available_key-some_example = get_available_key-some 9000 (some (codes "osint")) pool fresh refl

rate_limits-saturate_example :
    (after health true 300 7 ≤ 300) × (300 ≤ 300 → after health true 300 7 ≡ 300)
rate_limits-saturate_example =
    rate_limits-saturate health 300 7 (omega arith) (omega arith) (omega arith)

rate_limited_key_waits_example :
    (db' : List Key) × (c : ℕ) × (record_key_failure table health 9000 true (codes "a") pool
      ≡ ok (db', c))
    × (failed : Key) × (table.find_one (codes "a") db' ≡ some failed)
    × (is_available 10000 failed ≡ leb (9000 + c * 1000) 10000)
    × (should_wait_for_key table 10000 (codes "a") db'
        ≡ (ltb 0 (9000 + c * 1000 - 10000), 9000 + c * 1000 - 10000))
    × (should_wait_for_key table 10000 (codes "b") db'
        ≡ should_wait_for_key table 10000 (codes "b") pool)
unfolding row
rate_limited_key_waits_example =
    rate_limited_key_waits table table-IsStore health 9000 10000 (codes "a") (codes "b") pool tired
      refl refl (omega arith) (omega arith)

-- Two rate limits, then a response.
abbrev replies : ℕ → Reply
replies (suc zero) = failed (some 429)
replies (suc (suc zero)) = failed (some 429)
replies _ = answered 7

execute_query-Explains_example :
    (r : Run (List Key)) × (execute_query table health (some (codes "a")) replies (λ n. 10) 0 pool
      ≡ some r)
    × Explains replies 0 r
unfolding row
execute_query-Explains_example =
    execute_query-Explains table table-IsStore health (some (codes "a")) replies (λ n. 10) 0 pool
      (tired, refl)

initialize-IsFirst_example :
    IsFirst health none (λ n. pool) 10 0 0 (initialize health none (λ n. pool) 0)
    × (attempt_from health none (λ n. pool) 0 0 9 ≤ 0 + 9 * (300 * 1000))
initialize-IsFirst_example = initialize-IsFirst health none (λ n. pool) 0

first_key : initialize health none (λ n. pool) 0 ≡ some (fresh, 0)
unfolding initialize initialize_from key_functions
first_key = refl
