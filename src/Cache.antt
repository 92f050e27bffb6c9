-- ===== src/Cache.antt =====
-- Reading through a cache: libs/resources/src/utils/redis-cache.util.ts. The Redis client and JSON
-- are parameters; every command of the client may throw. The result of a read also says whether
-- the loader was called and which warnings were logged.
pub mod Reads
pub mod Examples
use cmnw.Prelude.{
  ℕ, zero, suc, Bool, true, false, not, ◌||◌, Option, none, some, List, [], ◌∷◌, ◌++◌, length,
  if◌then◌else◌, Text, codes,
}

-- What a promise settles with; an error is its message.
pub data Attempt {ℓ} (A : Type ℓ) : Type ℓ where
  done : A → Attempt A
  threw : Text → Attempt A

pub record Redis (S : Type 0) : Type 0 where
  pub get : Text → S → Attempt (Option Text)
  pub set : Text → Text → ℕ → S → Attempt S
  pub keys : Text → S → Attempt (List Text)
  pub del : List Text → S → Attempt S

pub record Json (T : Type 0) : Type 0 where
  pub parse : Text → Attempt T
  pub stringify : T → Text
  pub is_null : T → Bool

-- ReadThroughCacheOptions
pub record Options : Type 0 where
  pub ttl_seconds : ℕ
  pub cache_null : Option Bool

pub record Outcome (T S : Type 0) : Type 0 where
  pub value : Attempt T
  pub store : S
  pub loaded : Bool
  pub warnings : List Text

unfoldable pub format_cache_warn : Text → Text → Text → Text
format_cache_warn key_or_pattern operation message =
    codes "redis cache "
    ++ (operation ++ (codes " failed for " ++ (key_or_pattern ++ (codes ": " ++ message))))

module _ {S : Type 0} (redis : Redis S) where
  module _ {T : Type 0} (json : Json T) (key : Text) (options : Options) (loader : Attempt T) where
    -- `options.cacheNull !== false || value !== null`
    unfoldable pub should_cache : T → Bool
    should_cache v = elim options.cache_null [ none ↦ true | some c ↦ c || not (json.is_null v) ]

    -- The write of a loaded value, whose failure is logged only.
    unfoldable pub write_back : List Text → T → S → Outcome T S
    write_back warnings v s =
        if should_cache v
        then elim (redis.set key (json.stringify v) options.ttl_seconds s) [
          | done s' ↦ record { value = done v; store = s'; loaded = true; warnings = warnings }
          | threw m ↦ record {
            value = done v;
            store = s;
            loaded = true;
            warnings = warnings ++ format_cache_warn key (codes "write") m ∷ [];
          }
        ]
        else record { value = done v; store = s; loaded = true; warnings = warnings }

    unfoldable pub load : List Text → S → Outcome T S
    load warnings s = elim loader [
      | done v ↦ write_back warnings v s
      | threw m ↦ record { value = threw m; store = s; loaded = true; warnings = warnings }
    ]

    unfoldable pub read_through_cache : S → Outcome T S
    read_through_cache s = elim (redis.get key s) [
      | threw m ↦ load (format_cache_warn key (codes "read") m ∷ []) s
      | done none ↦ load [] s
      | done (some text) ↦ elim (json.parse text) [
        | threw m ↦ load (format_cache_warn key (codes "read") m ∷ []) s
        | done v ↦ record { value = done v; store = s; loaded = false; warnings = [] }
      ]
    ]

  -- The number that is returned, the store, and the warnings.
  unfoldable pub invalidate_cache_pattern : Text → S → ℕ × S × List Text
  invalidate_cache_pattern pattern s = elim (redis.keys pattern s) [
    | threw m ↦ (0, s, format_cache_warn pattern (codes "invalidate") m ∷ [])
    | done [] ↦ (0, s, [])
    | done (k ∷ ks) ↦ elim (redis.del (k ∷ ks) s) [
      | threw m ↦ (0, s, format_cache_warn pattern (codes "invalidate") m ∷ [])
      | done s' ↦ (length (k ∷ ks), s', [])
    ]
  ]
