-- ===== src/Prelude/Maps.antt =====
-- JavaScript's `Map` with numbers for keys: a key keeps the place where it was first set, and the
-- last value set is the one that is found.
use Prim.Native.Nat.{ℕ}
use mathlib.Core.Path.{◌≡◌, refl, ap}
use mathlib.Core.Logic.{inl, inr}
use mathlib.Core.Bool.{Bool, true, false, ◌&&◌}
use mathlib.Core.Option.{Option, none, some}
use mathlib.Core.List.{List, [], ◌∷◌}
use native.Mathlib.Omega.{arith}
use cmnw.Prelude.Tests.{◌==◌, if◌then◌else◌, Bool-cases, ==_iff}
use cmnw.Prelude.Lists.{any, keep}

-- A number is among those kept exactly if it is there and passes the test.
pub any-keep :
    (p : ℕ → Bool) (xs : List ℕ) (i : ℕ)
    → any (λ j. j == i) (keep p xs) ≡ (any (λ j. j == i) xs && p i)
any-keep p [] i = refl
any-keep p (x ∷ xs) i = elim (Bool-cases (x == i)) [
  | inl same ↦ ground (arith, ap p ((==_iff x i).0 same), any-keep p xs i)
  | inr other ↦ ground (arith, any-keep p xs i)
]

module _ {V : Type 0} where
  unfoldable pub map_get : ℕ → List (ℕ × V) → Option V
  map_get k [] = none
  map_get k ((j, v) ∷ m) = if j == k then some v else map_get k m

  unfoldable pub map_set : ℕ → V → List (ℕ × V) → List (ℕ × V)
  map_set k v [] = (k, v) ∷ []
  map_set k v ((j, w) ∷ m) = if j == k then (k, v) ∷ m else (j, w) ∷ map_set k v m

  unfoldable pub map_keys : List (ℕ × V) → List ℕ
  map_keys [] = []
  map_keys ((j, v) ∷ m) = j ∷ map_keys m

  -- `new Map(xs.map((x) => [key(x), x]))`, set one after the other.
  unfoldable pub map_of : (V → ℕ) → List (ℕ × V) → List V → List (ℕ × V)
  map_of key m [] = m
  map_of key m (x ∷ xs) = map_of key (map_set (key x) x m) xs

  pub map_get-map_set :
      (k j : ℕ) (v : V) (m : List (ℕ × V))
      → map_get j (map_set k v m) ≡ (if k == j then some v else map_get j m)
  unfolding map_get map_set
  map_get-map_set k j v [] = refl
  map_get-map_set k j v ((i, w) ∷ m) = ground (arith, map_get-map_set k j v m)

  -- A value is found under its own key.
  map_get-map_of_from :
      (key : V → ℕ) (m : List (ℕ × V)) (xs : List V)
      → ((k : ℕ) (v : V) → map_get k m ≡ some v → key v ≡ k)
      → (k : ℕ) (v : V) → map_get k (map_of key m xs) ≡ some v
      → key v ≡ k
  unfolding map_of
  map_get-map_of_from key m [] h k v e = h k v e
  map_get-map_of_from key m (x ∷ xs) h k v e =
      map_get-map_of_from key (map_set (key x) x m) xs
        (λ j w f. elim (Bool-cases (key x == j)) [
          | inl same ↦ ground (arith, map_get-map_set (key x) j x m)
          | inr other ↦ h j w (ground (arith, map_get-map_set (key x) j x m))
        ])
        k v e

  pub map_get-map_of :
      (key : V → ℕ) (xs : List V) (k : ℕ) (v : V)
      → map_get k (map_of key [] xs) ≡ some v
      → key v ≡ k
  unfolding map_get
  map_get-map_of key xs = map_get-map_of_from key [] xs (λ k v e. cc)

  abbrev pub is_some : Option V → Bool
  is_some none = false
  is_some (some v) = true

  -- The keys are the numbers under which a value is found.
  pub any-map_keys :
      (k : ℕ) (m : List (ℕ × V)) → any (λ j. j == k) (map_keys m) ≡ is_some (map_get k m)
  unfolding map_keys map_get
  any-map_keys k [] = refl
  any-map_keys k ((j, v) ∷ m) = ground (arith, any-map_keys k m)
