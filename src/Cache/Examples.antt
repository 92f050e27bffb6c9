-- ===== src/Cache/Examples.antt =====
-- A cache with one entry whose values are texts, and a client that cannot be reached.
use cmnw.Prelude.{
  ℕ, ◌≤◌, true, false, Option, none, some, [], ◌≡◌, ◌⊎◌, refl, arith, length, Text, codes,
  if◌then◌else◌, same_text,
}
use cmnw.Cache.{done, threw, Redis, Json, Options, should_cache, read_through_cache}
use cmnw.Cache.Reads.{read_through_cache-value, read_through_cache-again}

-- The key that is cached, and its text.
abbrev Entry : Type 0
Entry = Option (Text × Text)

abbrev lookup : Text → Entry → Option Text
lookup key none = none
lookup key (some (k, text)) = if same_text k key then some text else none

abbrev single : Redis Entry
single = record {
  get = λ key s. done (lookup key s);
  set = λ key text ttl s. done (some (key, text));
  keys = λ pattern s. done [];
  del = λ ks s. done none;
}

abbrev unreachable : Redis Entry
unreachable = record {
  get = λ key s. threw (codes "down");
  set = λ key text ttl s. threw (codes "down");
  keys = λ pattern s. threw (codes "down");
  del = λ ks s. threw (codes "down");
}

abbrev plain : Json Text
plain = record { parse = λ s. done s; stringify = λ s. s; is_null = λ s. false }

abbrev options : Options
options = record { ttl_seconds = 60; cache_null = none }

read_through_cache-value_example :
    let r = read_through_cache unreachable plain (codes "k") options (done (codes "v")) none in
    ((text : Text) × (v : Text) × (threw (codes "down") ≡ done (some text))
      × (done text ≡ done v)
      × (r.value ≡ done v)
      × (r.loaded ≡ false)
      × (r.warnings ≡ []))
    ⊎ ((r.loaded ≡ true) × (r.value ≡ done (codes "v")) × (length r.warnings ≤ 2))
read_through_cache-value_example =
    read_through_cache-value unreachable plain (codes "k") options (done (codes "v")) none

set_get :
    (text : Text) (ttl : ℕ) (a b : Entry)
    → single.set (codes "k") text ttl a ≡ done b
    → single.get (codes "k") b ≡ done (some text)
set_get text ttl a b e = ground arith

worthy : should_cache single plain (codes "k") options (done (codes "v")) (codes "v") ≡ true
unfolding should_cache
worthy = refl

read_through_cache-again_example :
    let first = read_through_cache single plain (codes "k") options (done (codes "v")) none in
    read_through_cache single plain (codes "k") options (threw (codes "gone")) first.store
    ≡ record { value = first.value; store = first.store; loaded = false; warnings = [] }
read_through_cache-again_example =
    read_through_cache-again single plain (codes "k") options (codes "v") (threw (codes "gone"))
      none (some (codes "k", codes "v")) set_get refl refl worthy refl
