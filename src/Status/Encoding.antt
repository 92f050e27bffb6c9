-- ===== src/Status/Encoding.antt =====
-- What a table must satisfy, and the status string of a state of every endpoint: the abstract view
-- by which the operations on strings are specified.
use mathlib.Core.Option
use cmnw.Prelude.{
  ℕ, zero, suc, Bool, true, false, Option, none, some, List, [], ◌∷◌, ◌++◌, map, ◌≡◌, refl, sym,
  subst, ◌≢◌, ◌↔◌, ap, inl, inr, arith, if◌then◌else◌, Bool-cases, take, drop, All, Text, any, ◌==◌,
  ◌<◌, get_elem?, get_or, length,
}
use cmnw.Status.{State, Codes, Table, char_for, index_of}

-- The endpoints of a list are pairwise different.
abbrev pub AreDistinct : {K : Type 0} → (K → K → Bool) → List K → Type 0
AreDistinct same [] = Unit
AreDistinct same (j ∷ js) = All (λ i. same i j ≡ false) js × AreDistinct same js

abbrev pub DistinctCodes : Codes → Type 0
DistinctCodes c = (c.success ≢ c.error) × (c.success ≢ c.pending) × (c.error ≢ c.pending)

abbrev pub accepts : Text → ℕ → Bool
accepts vs c = any (λ v. v == c) vs

-- The laws of a table, which the tables of characters and of guilds satisfy.
pub record IsLawful {K : Type 0} (t : Table K) : Type 0 where
  pub same_iff : (j k : K) → (t.same j k ≡ true) ↔ (j ≡ k)
  pub listed : (k : K) → (i : ℕ) × (index_of t.same k t.order ≡ some i)
  pub distinct : AreDistinct t.same t.order
  pub coded : (k : K) → DistinctCodes (t.codes_of k)
  pub accepted : (k : K) (st : State) → accepts t.valid_chars (char_for st (t.codes_of k)) ≡ true

module _ {K : Type 0} (t : Table K) where
  -- The status string in which each endpoint has its state.
  unfoldable pub encode : (K → State) → Text
  encode f = map (λ k. char_for (f k) (t.codes_of k)) t.order

  unfoldable pub update : (K → State) → K → State → K → State
  update f k st j = if t.same j k then st else f j

map-suc-ne-zero : (o : Option ℕ) → Option.map suc o ≢ some 0
map-suc-ne-zero none = cc
map-suc-ne-zero (some n) = ground arith

map-suc-eq : (o : Option ℕ) (i : ℕ) → Option.map suc o ≡ some (suc i) → o ≡ some i
map-suc-eq none i e = cc
map-suc-eq (some n) i e = ground arith

some-zero-ne : (i : ℕ) → ¬ (some 0 ≡ some (suc i))
some-zero-ne i = ground arith

module _ {K : Type 0} (same : K → K → Bool) (g : K → ℕ) (c : ℕ) where
  map_unsame :
      (k : K) (ks : List K)
      → All (λ j. same j k ≡ false) ks
      → map (λ j. if same j k then c else g j) ks ≡ map g ks
  map_unsame k [] h = refl
  map_unsame k (j ∷ js) h = rw h.0 (rw (map_unsame k js h.1))

  -- Replacing the character at an endpoint's index replaces it at that endpoint.
  pub splice-map :
      ((i j : K) → (same i j ≡ true) ↔ (i ≡ j))
      → (k : K) (ks : List K) (i : ℕ) → AreDistinct same ks
      → index_of same k ks ≡ some i
      → take i (map g ks) ++ c ∷ drop (suc i) (map g ks) ≡ map (λ j. if same j k then c else g j) ks
  unfolding index_of
  splice-map iff k [] i d e = cc
  splice-map iff k (j ∷ js) zero d e = elim (Bool-cases (same j k)) [
    | inl h ↦ rw h (
        ap (λ xs. c ∷ xs)
          (sym (map_unsame k js (subst (λ l. All (λ i. same i l ≡ false) js) ((iff j k).0 h) d.0))))
    | inr h ↦ absurd (map-suc-ne-zero _ (rw h at e))
  ]
  splice-map iff k (j ∷ js) (suc i) d e = elim (Bool-cases (same j k)) [
    | inl h ↦ absurd (some-zero-ne i (rw h at e))
    | inr h ↦ rw h (ap (λ xs. g j ∷ xs) (splice-map iff k js i d.1 (map-suc-eq _ i (rw h at e))))
  ]

-- The character at an endpoint's index is the endpoint's.
pub get-map :
    {K : Type 0} (same : K → K → Bool) (g : K → ℕ)
    → ((i j : K) → (same i j ≡ true) ↔ (i ≡ j))
    → (k : K) (ks : List K) (i : ℕ) → index_of same k ks ≡ some i
    → get_elem? (map g ks) i ≡ some (g k)
unfolding index_of
get-map same g iff k [] i e = cc
get-map same g iff k (j ∷ js) zero e = elim (Bool-cases (same j k)) [
  | inl h ↦ ap (λ x. some (g x)) ((iff j k).0 h)
  | inr h ↦ absurd (map-suc-ne-zero _ (rw h at e))
]
get-map same g iff k (j ∷ js) (suc i) e = elim (Bool-cases (same j k)) [
  | inl h ↦ absurd (some-zero-ne i (rw h at e))
  | inr h ↦ get-map same g iff k js i (map-suc-eq _ i (rw h at e))
]

pub get_or-eq_some :
    (s : Text) (i d c : ℕ) → get_elem? s i ≡ some c → (get_or s i d ≡ c) × (i < length s)
get_or-eq_some [] i d c e = cc
get_or-eq_some (x ∷ s) zero d c e = (ground arith, omega arith)
get_or-eq_some (x ∷ s) (suc i) d c e =
    let (same, below) = get_or-eq_some s i d c e in (same, omega arith)
