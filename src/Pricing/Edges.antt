-- ===== src/Pricing/Edges.antt =====
-- The edges of the axis.
use cmnw.Prelude.{
  ℕ, zero, suc, ◌+◌, ◌-◌, ◌*◌, ◌/◌, ◌≤◌, ◌<◌, true, false, some, List, [], ◌∷◌, map, ◌≡◌, refl,
  arith, ltb, leb, All, Bool-cases, inl, inr, sym, subst,
}
use cmnw.Pricing.{
  last_of, dedupe, keep_rising, edges_from, snap, with_true_max, snap_and_dedupe, rising_edges,
  step_for, build_linear_bins,
}
use cmnw.Pricing.Bucket.{IsAscending}
use cmnw.Pricing.Steps.{step_for-positive}

dedupe-IsAscending : (l : ℕ) (xs : List ℕ) → IsAscending l (dedupe l xs)
unfolding dedupe
dedupe-IsAscending l [] = tt
dedupe-IsAscending l (x ∷ xs) = elim (Bool-cases (ltb l x)) [
  | inl above ↦ rw above (ground arith, dedupe-IsAscending x xs)
  | inr not_above ↦ rw not_above (dedupe-IsAscending l xs)
]

-- Every edge is at most the last one kept.
All-weaken : (a b : ℕ) (xs : List ℕ) → a ≤ b → All (λ x. x ≤ a) xs → All (λ x. x ≤ b) xs
All-weaken a b [] h hs = tt
All-weaken a b (x ∷ xs) h hs = (ground (arith, hs.0), All-weaken a b xs h hs.1)

dedupe-above : (l x : ℕ) (xs : List ℕ) → ltb l x ≡ true → dedupe l (x ∷ xs) ≡ x ∷ dedupe x xs
unfolding dedupe
dedupe-above l x xs h = rw h refl

dedupe-not_above : (l x : ℕ) (xs : List ℕ) → ltb l x ≡ false → dedupe l (x ∷ xs) ≡ dedupe l xs
unfolding dedupe
dedupe-not_above l x xs h = rw h refl

last_of-dedupe :
    (l : ℕ) (xs : List ℕ)
    → (l ≤ last_of l (dedupe l xs)) × All (λ x. x ≤ last_of l (dedupe l xs)) xs
unfolding dedupe
last_of-dedupe l [] = (ground arith, tt)
last_of-dedupe l (x ∷ xs) = elim (Bool-cases (ltb l x)) [
  | inl above ↦
      let ih = last_of-dedupe x xs in
      subst (λ ds. (l ≤ last_of l ds) × All (λ y. y ≤ last_of l ds) (x ∷ xs))
        (sym (dedupe-above l x xs above)) (ground (arith, ih.0), (ih.0, ih.1))
  | inr not_above ↦
      let ih = last_of-dedupe l xs in
      subst (λ ds. (l ≤ last_of l ds) × All (λ y. y ≤ last_of l ds) (x ∷ xs))
        (sym (dedupe-not_above l x xs not_above)) (ih.0, (ground (arith, ih.0), ih.1))
]

-- The last edge is one of those that the last one kept bounds.
last_of-bounded : (l top : ℕ) (xs : List ℕ) → l ≤ top → All (λ x. x ≤ top) xs → last_of l xs ≤ top
last_of-bounded l top [] h hs = h
last_of-bounded l top (x ∷ xs) h hs = last_of-bounded x top xs hs.0 hs.1

pub with_true_max-same : (l : ℕ) (xs : List ℕ) → with_true_max l (dedupe l xs) xs ≡ l ∷ dedupe l xs
unfolding with_true_max
with_true_max-same l xs =
    let top = last_of-dedupe l xs in
    let bound = last_of-bounded l (last_of l (dedupe l xs)) xs top.0 top.1 in ground (arith, bound)

-- On any list of edges with a first one, snapAndDedupe gives that edge's snapped value followed by
-- strictly ascending edges; each snapped edge is at most the last of them; and the push of the
-- true maximum at the end never takes place.
pub snap_and_dedupe-IsAscending :
    (to_fixed : ℕ → ℕ) (r : ℕ) (rs : List ℕ)
    → let first = snap to_fixed r in
      let kept = dedupe first (map (snap to_fixed) rs) in
      (snap_and_dedupe to_fixed (r ∷ rs) ≡ first ∷ kept)
      × IsAscending first kept
      × All (λ v. v ≤ last_of first kept) (map (snap to_fixed) rs)
unfolding snap_and_dedupe
snap_and_dedupe-IsAscending to_fixed r rs =
    let first = snap to_fixed r in
    (
      with_true_max-same first (map (snap to_fixed) rs),
      dedupe-IsAscending first (map (snap to_fixed) rs),
      (last_of-dedupe first (map (snap to_fixed) rs)).1,
    )

-- Each edge is at least the one before.
abbrev pub IsRising : ℕ → List ℕ → Type 0
IsRising l [] = Unit
IsRising l (x ∷ xs) = (l ≤ x) × IsRising x xs

IsAscending-lower : (a b : ℕ) (xs : List ℕ) → a ≤ b → IsAscending b xs → IsAscending a xs
IsAscending-lower a b [] h hs = tt
IsAscending-lower a b (x ∷ xs) h hs = (ground (arith, hs.0), hs.1)

keep_rising-IsAscending : (l : ℕ) (xs : List ℕ) → IsRising l xs → IsAscending l (keep_rising l xs)
unfolding keep_rising
keep_rising-IsAscending l [] h = tt
keep_rising-IsAscending l (x ∷ xs) h = elim (Bool-cases (ltb l x)) [
  | inl above ↦ rw above (ground arith, keep_rising-IsAscending x xs h.1)
  | inr same ↦
      rw same (IsAscending-lower l x (keep_rising x xs) h.0 (keep_rising-IsAscending x xs h.1))
]

IsRising-lower : (a b : ℕ) (xs : List ℕ) → a ≤ b → IsRising b xs → IsRising a xs
IsRising-lower a b [] h hs = tt
IsRising-lower a b (x ∷ xs) h hs = (ground (arith, hs.0), hs.1)

-- The steps of the loop rise, and there are enough of them.
edges_from-some :
    (f v last step : ℕ)
    → 0 < step
    → last + step < v + f
    → (vs : List ℕ) × (edges_from (suc f) v last step ≡ some vs) × IsRising v vs
unfolding edges_from
edges_from-some zero v last step positive fuel = ([], ground arith, tt)
edges_from-some (suc f) v last step positive fuel =
    elim (Bool-cases (leb (2 * v) (2 * last + step))) [
      | inl on ↦
          let ih = edges_from-some f (v + step) last step positive (ground arith) in
          (
            v ∷ ih.0,
            rw (on, ih.1) refl,
            (ground arith, IsRising-lower v (v + step) ih.0 (ground arith) ih.2),
          )
      | inr done ↦ ([], rw done refl, tt)
    ]

IsRising-map :
    (f : ℕ → ℕ)
    → ((a b : ℕ) → a ≤ b → f a ≤ f b)
    → (l : ℕ) (xs : List ℕ) → IsRising l xs
    → IsRising (f l) (map f xs)
IsRising-map f mono l [] h = tt
IsRising-map f mono l (x ∷ xs) h = (mono l x h.0, IsRising-map f mono x xs h.1)

-- The first edge and those after it.
abbrev pub AreAscending : List ℕ → Type 0
AreAscending [] = Unit
AreAscending (x ∷ xs) = IsAscending x xs

AreAscending-rising_edges :
    (f : ℕ → ℕ)
    → ((a b : ℕ) → a ≤ b → f a ≤ f b)
    → (l : ℕ) (vs : List ℕ) → IsRising l vs
    → AreAscending (rising_edges f vs)
unfolding rising_edges
AreAscending-rising_edges f mono l [] h = tt
AreAscending-rising_edges f mono l (v ∷ vs) h =
    keep_rising-IsAscending (f v) (map f vs) (IsRising-map f mono v vs h.1)

-- With a rounding that keeps the order, buildLinearBins ends within its fuel, and its edges are
-- strictly ascending.
pub build_linear_bins-AreAscending :
    (to_fixed : ℕ → ℕ)
    → ((a b : ℕ) → a ≤ b → to_fixed a ≤ to_fixed b)
    → (lowest highest blocks : ℕ)
    → (edges : List ℕ) × (build_linear_bins to_fixed lowest highest blocks ≡ some edges)
      × AreAscending edges
unfolding build_linear_bins
build_linear_bins-AreAscending to_fixed mono lowest highest blocks =
    let step = step_for (highest - lowest) blocks in
    elim (Bool-cases (leb highest lowest)) [
      | inl flat ↦ (to_fixed lowest ∷ [], rw flat refl, tt)
      | inr wide ↦
          let run =
            edges_from-some (suc (highest + step)) (lowest / step * step) highest step
              (step_for-positive (highest - lowest) blocks) (ground arith) in
          (
            rising_edges to_fixed run.0,
            rw (wide, run.1) refl,
            AreAscending-rising_edges to_fixed mono (lowest / step * step) run.0 run.2,
          )
    ]
