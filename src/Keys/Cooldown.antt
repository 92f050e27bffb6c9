-- ===== src/Keys/Cooldown.antt =====
-- How the cooldown of a key grows and decays.
use cmnw.Prelude.{ℕ, zero, suc, ◌+◌, ◌-◌, ◌*◌, ◌≤◌, min, Bool, true, false, ◌≡◌, arith}
use cmnw.Keys.{KeyHealth, calculate_new_cooldown}

-- The cooldown after the given number of answers of one kind.
unfoldable pub after : KeyHealth → Bool → ℕ → ℕ → ℕ
after h is_rate_limit zero c = c
after h is_rate_limit (suc n) c = after h is_rate_limit n (calculate_new_cooldown h c is_rate_limit)

-- A rate limit never lowers a cooldown that is within the maximum, never takes it past the
-- maximum, and raises it by at least one second until the maximum is reached.
grows :
    (h : KeyHealth) (c : ℕ)
    → 1 ≤ h.multiplier
    → 1 ≤ h.base_delay
    → c ≤ h.max_delay
    → (calculate_new_cooldown h c true ≤ h.max_delay)
      × (min h.max_delay (c + 1) ≤ calculate_new_cooldown h c true)
unfolding calculate_new_cooldown
grows h c m b le = let more : c ≤ c * h.multiplier = grind arith in (omega arith, omega arith)

after-bounds :
    (h : KeyHealth) (n c : ℕ)
    → 1 ≤ h.multiplier
    → 1 ≤ h.base_delay
    → c ≤ h.max_delay
    → (after h true n c ≤ h.max_delay) × (min h.max_delay (c + n) ≤ after h true n c)
unfolding after
after-bounds h zero c m b le = (le, omega arith)
after-bounds h (suc n) c m b le =
    let (below, above) = grows h c m b le in
    let (below', above') = after-bounds h n (calculate_new_cooldown h c true) m b below in
    (below', omega arith)

-- With a multiplier and a base delay of at least one, any number of rate limits in a row keeps the
-- cooldown within the maximum, and as many as the maximum has seconds bring it to the maximum.
pub rate_limits-saturate :
    (h : KeyHealth) (n c : ℕ)
    → 1 ≤ h.multiplier
    → 1 ≤ h.base_delay
    → c ≤ h.max_delay
    → (after h true n c ≤ h.max_delay) × (h.max_delay ≤ n → after h true n c ≡ h.max_delay)
rate_limits-saturate h n c m b le =
    let (below, above) = after-bounds h n c m b le in (below, λ enough. omega arith)

-- After n answers that are no rate limit the cooldown is n decay steps lower, and not below 0.
pub decays : (h : KeyHealth) (n c : ℕ) → after h false n c ≡ c - n * h.decay_step
unfolding after calculate_new_cooldown
decays h zero c = omega arith
decays h (suc n) c = omega (arith, decays h n (c - h.decay_step))
