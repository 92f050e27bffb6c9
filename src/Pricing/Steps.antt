-- ===== src/Pricing/Steps.antt =====
-- The steps of the grid.
use cmnw.Prelude.{
  ℕ, zero, suc, ◌*◌, ◌≤◌, ◌<◌, false, Option, none, some, List, [], ◌∷◌, ◌≡◌, ◌≢◌, arith, ltb, leb,
  All, Bool-cases, inl, inr, length, get_or,
}
use cmnw.Pricing.{
  nice_steps, first_step, last_fitting, nice_step, best_step, better_step, step_for, miss,
}
use cmnw.Pricing.Bucket.{IsAscending}

IsPositive : Option ℕ → Type 0
IsPositive none = Unit
IsPositive (some s) = 0 < s

better_step-IsPositive :
    (range blocks s : ℕ) (best : Option ℕ)
    → 0 < s
    → IsPositive best
    → IsPositive (better_step range blocks s best)
unfolding better_step IsPositive
better_step-IsPositive range blocks s none h b = h
better_step-IsPositive range blocks s (some t) h b =
    elim (Bool-cases (ltb (miss range blocks s * t) (miss range blocks t * s))) [
      | inl better ↦ rw better h
      | inr worse ↦ rw worse b
    ]

best_step-IsPositive :
    (range blocks : ℕ) (steps : List ℕ) (best : Option ℕ)
    → All (λ s. 0 < s) steps
    → IsPositive best
    → IsPositive (best_step range blocks best steps)
unfolding best_step
best_step-IsPositive range blocks [] best h b = b
best_step-IsPositive range blocks (s ∷ ss) best h b = elim (Bool-cases (ltb range s)) [
  | inl over ↦ rw over b
  | inr within ↦ rw within (
      best_step-IsPositive range blocks ss (better_step range blocks s best) h.1
        (better_step-IsPositive range blocks s best h.0 b))
]

positive_or_first : (o : Option ℕ) → IsPositive o → 0 < elim o [ none ↦ first_step | some s ↦ s ]
unfolding IsPositive
positive_or_first none h = ground arith
positive_or_first (some s) h = h

pub step_for-positive : (range blocks : ℕ) → 0 < step_for range blocks
unfolding step_for IsPositive
step_for-positive range blocks =
    positive_or_first (best_step range blocks none nice_steps)
      (best_step-IsPositive range blocks nice_steps none (ground arith) tt)

get_or-above : (l : ℕ) (xs : List ℕ) (i : ℕ) → IsAscending l xs → i < length xs → l ≤ get_or xs i 10
get_or-above l [] i a h = ground arith
get_or-above l (x ∷ xs) zero a h = ground (arith, a.0)
get_or-above l (x ∷ xs) (suc i) a h = ground (arith, get_or-above x xs i a.1, a.0)

-- The steps ascend.
get_or-monotone :
    (l : ℕ) (xs : List ℕ) (i j : ℕ)
    → IsAscending l xs
    → i ≤ j
    → j < length xs
    → get_or xs i 10 ≤ get_or xs j 10
get_or-monotone l [] i j a h b = ground arith
get_or-monotone l (x ∷ xs) zero zero a h b = ground arith
get_or-monotone l (x ∷ xs) zero (suc j) a h b = get_or-above x xs j a.1 (ground arith)
get_or-monotone l (x ∷ xs) (suc i) zero a h b = ground arith
get_or-monotone l (x ∷ xs) (suc i) (suc j) a h b =
    get_or-monotone x xs i j a.1 (ground arith) (ground arith)

misfit :
    (steps : List ℕ) (value i k : ℕ)
    → i ≡ k
    → 2 * get_or steps i 10 ≤ value
    → leb (2 * get_or steps k 10) value ≢ false
misfit steps value i k e fits missed =
    let fits_k : 2 * get_or steps k 10 ≤ value = rw⁻¹ e fits in ground arith

last_fitting-largest :
    (l : ℕ) (steps : List ℕ) (value k i : ℕ)
    → IsAscending l steps
    → k ≤ length steps
    → i < k
    → 2 * get_or steps i 10 ≤ value
    → get_or steps i 10 ≤ last_fitting steps value k
unfolding last_fitting
last_fitting-largest l steps value zero i a b h fits = ground arith
last_fitting-largest l steps value (suc k) i a b h fits =
    elim (Bool-cases (leb (2 * get_or steps k 10) value)) [
      | inl taken ↦ rw taken (get_or-monotone l steps i k a (ground arith) (ground arith))
      | inr missed ↦ elim (Bool-cases (ltb i k)) [
        | inl below ↦
            rw missed (last_fitting-largest l steps value k i a (ground arith) (ground arith) fits)
        | inr same ↦ absurd (misfit steps value i k (ground arith) fits missed)
      ]
    ]

last_fitting-fits :
    (steps : List ℕ) (value k : ℕ) → 2 * first_step ≤ value → 2 * last_fitting steps value k ≤ value
unfolding last_fitting
last_fitting-fits steps value zero h = h
last_fitting-fits steps value (suc k) h = ground (arith, last_fitting-fits steps value k h)

nice_steps-IsAscending : IsAscending 0 nice_steps
nice_steps-IsAscending = ground arith

-- For a value of at least twice the first step, niceStep is at most half the value, and no step of
-- the grid that is at most half the value is larger.
pub nice_step-largest :
    (value : ℕ)
    → 20 ≤ value
    → (2 * nice_step value ≤ value)
      × ((i : ℕ)
          → i < length nice_steps
          → 2 * get_or nice_steps i first_step ≤ value
          → get_or nice_steps i first_step ≤ nice_step value)
unfolding nice_step
nice_step-largest value h =
    let low : leb value first_step ≡ false = ground arith in
    rw low (
      last_fitting-fits nice_steps value (length nice_steps) h,
      λ i within fits.
          last_fitting-largest 0 nice_steps value (length nice_steps) i nice_steps-IsAscending
            (ground arith) within fits,
    )
