-- ===== src/Pricing.antt =====
-- The price axis of the market heatmap: apps/api/src/dma/price-binning.ts. Prices and steps are
-- exact numbers of thousandths; the rounding of floating-point numbers is left out.
pub mod Bucket
pub mod Edges
pub mod Steps
pub mod Examples
use cmnw.Prelude.{
  ℕ, zero, suc, ◌+◌, ◌-◌, ◌*◌, ◌/◌, Bool, true, false, Option, none, some, List, [], ◌∷◌, ◌++◌, map,
  ◌==◌, ltb, leb, if◌then◌else◌, length, get_or,
}

-- `NICE_STEPS`
abbrev pub nice_steps : List ℕ
nice_steps =
    10 ∷ 20 ∷ 25 ∷ 50 ∷ 100 ∷ 200 ∷ 250 ∷ 500 ∷ 1000 ∷ 2000 ∷ 2500 ∷ 5000 ∷ 10000 ∷ 20000 ∷ 25000
    ∷ 50000 ∷ 100000 ∷ 200000 ∷ 250000 ∷ 500000 ∷ 1000000 ∷ 2000000 ∷ 2500000 ∷ 5000000 ∷ 10000000
    ∷ []

-- `NICE_STEPS[0]`
abbrev pub first_step : ℕ
first_step = 10

-- The loop of `niceStep` from index `i - 1` down.
unfoldable pub last_fitting : List ℕ → ℕ → ℕ → ℕ
last_fitting steps value zero = first_step
last_fitting steps value (suc i) =
    let rest = last_fitting steps value i in
    if leb (2 * get_or steps i first_step) value then get_or steps i first_step else rest

unfoldable pub nice_step : ℕ → ℕ
nice_step value =
    if leb value first_step then first_step else last_fitting nice_steps value (length nice_steps)

-- `Math.round(value / step) * step`, which rounds a half up.
unfoldable pub round_to_step : ℕ → ℕ → ℕ
round_to_step value step = (2 * value + step) / (2 * step) * step

-- The last element, of a list that follows `d`.
abbrev pub last_of : ℕ → List ℕ → ℕ
last_of d [] = d
last_of d (x ∷ xs) = last_of x xs

-- The loop that drops the edges that are not above the last one kept.
unfoldable pub dedupe : ℕ → List ℕ → List ℕ
dedupe l [] = []
dedupe l (x ∷ xs) =
    let taken = x ∷ dedupe x xs in let skipped = dedupe l xs in if ltb l x then taken else skipped

-- The filter by `v > arr[i - 1]`, after the element `before`.
unfoldable pub keep_rising : ℕ → List ℕ → List ℕ
keep_rising before [] = []
keep_rising before (x ∷ xs) = let rest = keep_rising x xs in if ltb before x then x ∷ rest else rest

-- The distance of `range / s` from `blocks`, times `s`.
abbrev pub miss : ℕ → ℕ → ℕ → ℕ
miss range blocks s = (range - blocks * s) + (blocks * s - range)

-- The best step so far stays unless the next one's distance is smaller.
unfoldable pub better_step : ℕ → ℕ → ℕ → Option ℕ → Option ℕ
better_step range blocks s none = some s
better_step range blocks s (some b) =
    if ltb (miss range blocks s * b) (miss range blocks b * s) then some s else some b

-- The loop over the steps, with the best one so far, if any has been seen; a step above the range
-- ends it.
unfoldable pub best_step : ℕ → ℕ → Option ℕ → List ℕ → Option ℕ
best_step range blocks best [] = best
best_step range blocks best (s ∷ ss) =
    let next = best_step range blocks (better_step range blocks s best) ss in
    if ltb range s then best else next

-- The step of `buildLinearBins`, which starts with the first nice step.
unfoldable pub step_for : ℕ → ℕ → ℕ
step_for range blocks = elim (best_step range blocks none nice_steps) [
  | none ↦ first_step
  | some s ↦ s
]

-- The loop from `v` on by `step`; `none` stands for running out of fuel.
unfoldable pub edges_from : ℕ → ℕ → ℕ → ℕ → Option (List ℕ)
edges_from zero v last step = none
edges_from (suc f) v last step =
    let rest = edges_from f (v + step) last step in
    if leb (2 * v) (2 * last + step)
    then elim rest [ none ↦ none | some vs ↦ some (v ∷ vs) ]
    else some []

-- The last snapped edge is pushed if the last edge kept is below it.
unfoldable pub with_true_max : ℕ → List ℕ → List ℕ → List ℕ
with_true_max first deduped snapped =
    if ltb (last_of first deduped) (last_of first snapped)
    then first ∷ (deduped ++ last_of first snapped ∷ [])
    else first ∷ deduped

-- `toFixed(2)` followed by `parseFloat`.
module _ (to_fixed : ℕ → ℕ) where
  unfoldable pub snap : ℕ → ℕ
  snap v = to_fixed (round_to_step v (nice_step v))

  unfoldable pub snap_and_dedupe : List ℕ → List ℕ
  snap_and_dedupe [] = []
  snap_and_dedupe (r ∷ rs) = with_true_max (snap r) (dedupe (snap r) (map snap rs)) (map snap rs)

  unfoldable pub rising_edges : List ℕ → List ℕ
  rising_edges [] = []
  rising_edges (v ∷ vs) = to_fixed v ∷ keep_rising (to_fixed v) (map to_fixed vs)

  unfoldable pub build_linear_bins : ℕ → ℕ → ℕ → Option (List ℕ)
  build_linear_bins lowest highest blocks =
      let step = step_for (highest - lowest) blocks in
      if leb highest lowest
      then some (to_fixed lowest ∷ [])
      else elim (edges_from (suc (suc (highest + step))) (lowest / step * step) highest step) [
        | none ↦ none
        | some vs ↦ some (rising_edges vs)
      ]

-- The binary search of `assignPriceBucket`; `none` stands for running out of fuel.
unfoldable pub search : ℕ → ℕ → List ℕ → ℕ → ℕ → Option ℕ
search zero price edges lo hi = none
search (suc f) price edges lo hi =
    let mid = (lo + hi) / 2 in
    elim (ltb lo hi) [
      | true ↦ elim (ltb price (get_or edges mid 0)) [
        | true ↦ search f price edges lo mid
        | false ↦ search f price edges (suc mid) hi
      ]
      | false ↦ some (lo - 1)
    ]

unfoldable pub assign_price_bucket : ℕ → List ℕ → Option ℕ
assign_price_bucket price [] = some 0
assign_price_bucket price (e ∷ es) =
    if leb price e
    then some 0
    else if leb (last_of e es) price
    then some (length es)
    else search (suc (length es)) price (e ∷ es) 0 (length es)
