-- ===== src/Cache/Reads.antt =====
-- What reading through the cache gives.
use cmnw.Prelude.{
  ℕ, suc, ◌≤◌, true, false, none, some, List, [], ◌∷◌, ◌++◌, ◌≡◌, ◌⊎◌, refl, arith, length, Text,
  codes, inl, inr, Option-cases, ap, ◌∙◌,
}
use cmnw.Cache.{
  Attempt, done, threw, Redis, Json, Options, Outcome, should_cache, write_back, load,
  read_through_cache, format_cache_warn,
}

Attempt-cases {ℓ} :
    {A : Type ℓ} (a : Attempt A) → ((x : A) × (a ≡ done x)) ⊎ ((m : Text) × (a ≡ threw m))
Attempt-cases (done x) = inl (x, refl)
Attempt-cases (threw m) = inr (m, refl)

length-one_more : (ws : List Text) (w : Text) → length (ws ++ w ∷ []) ≡ suc (length ws)
length-one_more [] w = refl
length-one_more (x ∷ ws) w = ap suc (length-one_more ws w)

module _ {S T : Type 0} (redis : Redis S) (json : Json T) (key : Text) (options : Options)
    (loader : Attempt T) where
  write_back-value :
      (ws : List Text) (v : T) (s : S)
      → let r = write_back redis json key options loader ws v s in
        (r.loaded ≡ true) × (r.value ≡ done v) × (length r.warnings ≤ suc (length ws))
  unfolding write_back
  write_back-value ws v s =
      elim (Attempt-cases (redis.set key (json.stringify v) options.ttl_seconds s)) [
        | inl (t, e) ↦ ground arith
        | inr (m, e) ↦ ground (arith, length-one_more ws (format_cache_warn key (codes "write") m))
      ]

  load-value :
      (ws : List Text) (s : S)
      → let r = load redis json key options loader ws s in
        (r.loaded ≡ true) × (r.value ≡ loader) × (length r.warnings ≤ suc (length ws))
  unfolding load
  load-value ws s = elim (Attempt-cases loader) [
    | inr (m, e) ↦ ground (arith, e)
    | inl (v, e) ↦ ground (arith, e, write_back-value ws v s)
  ]

  read_through_cache-hit :
      (s : S) (text : Text) (v : T)
      → redis.get key s ≡ done (some text)
      → json.parse text ≡ done v
      → read_through_cache redis json key options loader s
        ≡ record { value = done v; store = s; loaded = false; warnings = [] }
  unfolding read_through_cache
  read_through_cache-hit s text v e good = rw (read_through_cache, e) (rw good refl)

  weaken :
      (ws : List Text) (s : S)
      → suc (length ws) ≤ 2
      → let r = load redis json key options loader ws s in
        (r.loaded ≡ true) × (r.value ≡ loader) × (length r.warnings ≤ 2)
  weaken ws s h = let l = load-value ws s in (l.0, l.1, ground (arith, l.2))

  -- Whatever Redis does, and whatever text it holds: the read gives the value that the cached text
  -- stands for, without a call of the loader and without a warning; or else exactly what the loader
  -- gives, with at most two warnings.
  pub read_through_cache-value :
      (s : S)
      → let r = read_through_cache redis json key options loader s in
        ((text : Text) × (v : T) × (redis.get key s ≡ done (some text))
          × (json.parse text ≡ done v)
          × (r.value ≡ done v)
          × (r.loaded ≡ false)
          × (r.warnings ≡ []))
        ⊎ ((r.loaded ≡ true) × (r.value ≡ loader) × (length r.warnings ≤ 2))
  unfolding read_through_cache
  read_through_cache-value s = elim (Attempt-cases (redis.get key s)) [
    | inr (m, e) ↦
        rw (read_through_cache, e)
          (inr (load-value (format_cache_warn key (codes "read") m ∷ []) s))
    | inl (found, e) ↦ elim (Option-cases found) [
      | inl missing ↦
          rw (read_through_cache, e ∙ ap done missing) (inr (weaken [] s (ground arith)))
      | inr (text, hit) ↦ elim (Attempt-cases (json.parse text)) [
        | inr (m, bad) ↦
            rw (read_through_cache, e ∙ ap done hit)
              (rw bad (inr (load-value (format_cache_warn key (codes "read") m ∷ []) s)))
        | inl (v, good) ↦
            let r = read_through_cache-hit s text v (e ∙ ap done hit) good in
            inl (
              text,
              v,
              e ∙ ap done hit,
              good,
              ap (λ (o : Outcome T S). o.value) r,
              ap (λ (o : Outcome T S). o.loaded) r,
              ap (λ (o : Outcome T S). o.warnings) r,
            )
      ]
    ]
  ]

-- Over a client that gives back what was set, and for a value that JSON gives back: once a value
-- that was missing has been loaded, may be cached, and was written, the next read gives it without
-- calling its loader, and leaves the cache as it is.
pub read_through_cache-again :
    {S T : Type 0} (redis : Redis S) (json : Json T) (key : Text) (options : Options) (v : T)
    (again : Attempt T) (s s' : S)
    → ((text : Text) (ttl : ℕ) (a b : S)
        → redis.set key text ttl a ≡ done b
        → redis.get key b ≡ done (some text))
    → json.parse (json.stringify v) ≡ done v
    → redis.get key s ≡ done none
    → should_cache redis json key options (done v) v ≡ true
    → redis.set key (json.stringify v) options.ttl_seconds s ≡ done s'
    → let first = read_through_cache redis json key options (done v) s in
      read_through_cache redis json key options again first.store
      ≡ record { value = first.value; store = first.store; loaded = false; warnings = [] }
unfolding read_through_cache load write_back
read_through_cache-again redis json key options v again s s' law trip missing worthy written =
    let first : read_through_cache redis json key options (done v) s
        ≡ record { value = done v; store = s'; loaded = true; warnings = [] } =
      rw (read_through_cache, missing) (rw (worthy, written) refl) in
    let second = law (json.stringify v) options.ttl_seconds s s' written in
    rw first (rw (read_through_cache, second) (rw trip refl))
