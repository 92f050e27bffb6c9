-- ===== src/Keys.antt =====
-- The pool of API keys of libs/battle-net/src/battle-net.service.ts: which key is chosen, and how
-- failures and successes change its cooldown. The table of keys is TypeORM's repository, which is
-- an interface here (`Store`) with the laws of reading after writing that the service relies on.
pub mod Selection
pub mod Cooldown
pub mod Recording
pub mod Query
mod Examples
use cmnw.Prelude.{
  ℕ, zero, suc, ◌+◌, ◌-◌, ◌*◌, ◌^◌, min, Bool, true, false, ◌&&◌, Option, none, some, List, [], ◌∷◌,
  ◌≡◌, leb, ltb, ◌==◌, if◌then◌else◌, keep, any, Text, same_text, sort_by, head?,
}
use mathlib.Core.Option

-- libs/pg/src/entity/keys.entity.ts, less the two times that the database sets itself. Times are
-- in milliseconds; the cooldown is in seconds.
pub record Key : Type 0 where
  pub uuid : Text
  pub client_id : Text
  pub client_secret : Text
  pub access_token : Option Text
  pub expired_in : Option ℕ
  pub cooldown_delay_seconds : ℕ
  pub last_failure_at : Option ℕ
  pub tags : Option (List Text)

-- IBattleNetKeyHealthConfig. The multiplier is a whole number here, as its default 2 is.
pub record KeyHealth : Type 0 where
  pub base_delay : ℕ
  pub multiplier : ℕ
  pub max_delay : ℕ
  pub decay_step : ℕ

-- The repository of keys. `update` changes some fields of the row with the given uuid.
pub record Store (Db : Type 0) : Type 0 where
  pub find : Db → List Key
  pub find_one : Text → Db → Option Key
  pub save : Key → Db → Db
  pub update : Text → (Key → Key) → Db → Db

-- The end of the cooldown, where the key has one: the guard that four methods of the source share,
-- `cooldownDelaySeconds === 0 || !lastFailureAt`.
unfoldable pub cooldown_end : Key → Option ℕ
cooldown_end key =
    if key.cooldown_delay_seconds == 0
    then none
    else Option.map (λ t. t + key.cooldown_delay_seconds * 1000) key.last_failure_at

-- `cooldownEnd <= now`, or no cooldown.
unfoldable pub is_available : ℕ → Key → Bool
is_available now key = elim (cooldown_end key) [ none ↦ true | some end ↦ leb end now ]

-- `key.tags && key.tags.includes(tag)`
unfoldable pub has_tag : Text → Key → Bool
has_tag tag key = elim key.tags [ none ↦ false | some ts ↦ any (λ t. same_text t tag) ts ]

-- `if (tag) …`: no tag and the empty tag both ask for any key.
unfoldable pub is_tagged : Option Text → Key → Bool
is_tagged none key = true
is_tagged (some []) key = true
is_tagged (some (c ∷ cs)) key = has_tag (c ∷ cs) key

-- The body of `getAvailableKey` over the keys that `find` returned.
unfoldable pub get_available_key : ℕ → Option Text → List Key → Option Key
get_available_key now tag keys =
    head? (
      sort_by (λ k. k.cooldown_delay_seconds) (keep (is_tagged tag) (keep (is_available now) keys)))

-- `getEffectiveCooldown` of `getAllKeys`
unfoldable pub effective_cooldown : ℕ → Key → ℕ
effective_cooldown now key = elim (cooldown_end key) [
  | none ↦ 0
  | some end ↦ if ltb now end then key.cooldown_delay_seconds else 0
]

-- `tags && tags.length > 0` filters by any of the tags.
unfoldable pub has_any_tag : Option (List Text) → Key → Bool
has_any_tag none key = true
has_any_tag (some []) key = true
has_any_tag (some (t ∷ ts)) key = any (λ tag. has_tag tag key) (t ∷ ts)

unfoldable pub get_all_keys : ℕ → Option (List Text) → List Key → List Key
get_all_keys now tags keys = sort_by (effective_cooldown now) (keep (has_any_tag tags) keys)

unfoldable pub calculate_new_cooldown : KeyHealth → ℕ → Bool → ℕ
calculate_new_cooldown h current is_rate_limit =
    if is_rate_limit
    then min h.max_delay (current * h.multiplier + h.base_delay)
    else current - h.decay_step

-- What a method returns, or the NotFoundException that it throws.
pub data Result (A : Type 0) : Type 0 where
  ok : A → Result A
  not_found : Result A

module _ {Db : Type 0} (s : Store Db) where
  unfoldable pub get_key_cooldown_ms : ℕ → Text → Db → ℕ
  get_key_cooldown_ms now uuid db = elim (s.find_one uuid db) [
    | none ↦ 0
    | some key ↦ elim (cooldown_end key) [ none ↦ 0 | some end ↦ end - now ]
  ]

  unfoldable pub should_wait_for_key : ℕ → Text → Db → Bool × ℕ
  should_wait_for_key now uuid db =
      let remaining = get_key_cooldown_ms now uuid db in (ltb 0 remaining, remaining)

  module _ (h : KeyHealth) where
    unfoldable pub record_key_failure : ℕ → Bool → Text → Db → Result (Db × ℕ)
    record_key_failure now is_rate_limit uuid db = elim (s.find_one uuid db) [
      | none ↦ not_found
      | some key ↦
          let cooldown = calculate_new_cooldown h key.cooldown_delay_seconds is_rate_limit in
          let failed = record key {
            cooldown_delay_seconds = cooldown;
            last_failure_at = some now;
          } in
          ok (s.save failed db, cooldown)
    ]

    -- `keyUuid ?? this._currentKeyUuid`, where a missing or empty uuid throws.
    abbrev resolved : Option Text → Option Text → Option Text
    resolved (some (c ∷ cs)) current = some (c ∷ cs)
    resolved (some []) current = none
    resolved none (some (c ∷ cs)) = some (c ∷ cs)
    resolved none _ = none

    unfoldable pub record_key_rate_limit : ℕ → Option Text → Option Text → Db → Result (Db × ℕ)
    unfolding record_key_failure
    record_key_rate_limit now uuid current db = elim (resolved uuid current) [
      | none ↦ not_found
      | some u ↦ record_key_failure now true u db
    ]

    unfoldable pub record_key_error : ℕ → Option Text → Option Text → Db → Result (Db × ℕ)
    unfolding record_key_failure
    record_key_error now uuid current db = elim (resolved uuid current) [
      | none ↦ not_found
      | some u ↦ record_key_failure now false u db
    ]

    unfoldable pub record_key_success : Option Text → Option Text → Db → Result (Db × ℕ)
    record_key_success uuid current db = elim (resolved uuid current) [
      | none ↦ not_found
      | some u ↦ elim (s.find_one u db) [
        | none ↦ not_found
        | some key ↦
            let cooldown = key.cooldown_delay_seconds - h.decay_step in
            ok (s.save (record key { cooldown_delay_seconds = cooldown }) db, cooldown)
      ]
    ]

  -- The token endpoint answers with a token and its lifetime.
  unfoldable pub refresh_key_token : Text × ℕ → Text → Db → Result (Db × Text)
  refresh_key_token (token, expires_in) uuid db = elim (s.find_one uuid db) [
    | none ↦ not_found
    | some key ↦
        let refreshed = record key { access_token = some token; expired_in = some expires_in } in
        ok (s.save refreshed db, token)
  ]

  unfoldable pub reset_key_health : Text → Db → Db
  reset_key_health uuid db =
      s.update uuid (λ key. record key { cooldown_delay_seconds = 0; last_failure_at = none }) db

  -- What the service relies on: a row that is found has the uuid asked for; a saved row is found
  -- under its uuid and no other row changes; an update changes the row with the uuid alone, if it keeps the uuid.
  pub record IsStore : Type 0 where
    pub find_one-uuid : (u : Text) (db : Db) (k : Key) → s.find_one u db ≡ some k → k.uuid ≡ u
    pub find_one-save :
        (k : Key) (u : Text) (db : Db)
        → s.find_one u (s.save k db) ≡ (if same_text k.uuid u then some k else s.find_one u db)
    pub find_one-update :
        (u v : Text) (f : Key → Key) (db : Db)
        → ((k : Key) → (f k).uuid ≡ k.uuid)
        → s.find_one v (s.update u f db)
          ≡ (if same_text u v then Option.map f (s.find_one v db) else s.find_one v db)
