-- ===== src/Status/Counts.antt =====
-- The counts, the percentages and the verdicts over all endpoints.
use mathlib.Core.Path.{fun_ext}
use cmnw.Prelude.{
  ℕ, ◌+◌, ◌-◌, ◌≤◌, ◌<◌, true, List, [], ◌∷◌, ◌≡◌, ap, ◌↔◌, arith, keep, length, All, Bool-cases,
  inl, inr, ◌≢◌,
}
use cmnw.Status.{
  State, success, error, pending, Table, percentage, successful, failed, waiting, is_all_success,
  completion_percentage,
}
use cmnw.Status.Encoding.{IsLawful, encode}
use cmnw.Status.Codec.{is_state, is_state-eq, is_success-encode, is_error-encode, is_pending-encode}

partition {ℓ} :
    {K : Type ℓ} (f : K → State) (ks : List K)
    → length (keep (λ k. is_state (f k) success) ks)
        + length (keep (λ k. is_state (f k) error) ks)
        + length (keep (λ k. is_state (f k) pending) ks)
      ≡ length ks
partition f [] = omega arith
partition f (k ∷ ks) = ground (arith, partition f ks)

only_successes_iff {ℓ} :
    {K : Type ℓ} (f : K → State) (ks : List K)
    → (length (keep (λ k. is_state (f k) error) ks) ≡ 0)
        × (length (keep (λ k. is_state (f k) pending) ks) ≡ 0)
      ↔ All (λ k. f k ≡ success) ks
only_successes_iff f [] = ground arith
only_successes_iff f (k ∷ ks) = ground (arith, only_successes_iff f ks)

percentage-le-100 : (part total : ℕ) → part ≤ total → percentage part total ≤ 100
unfolding percentage
percentage-le-100 part total h = grind arith

percentage-eq-100_iff :
    (part total : ℕ)
    → 0 < total
    → total ≤ 100
    → part ≤ total
    → (percentage part total ≡ 100) ↔ (part ≡ total)
unfolding percentage
percentage-eq-100_iff part total p q h = (λ e. grind arith, λ e. grind arith)

no_pending {ℓ} :
    {K : Type ℓ} (f : K → State) (ks : List K)
    → (length (keep (λ k. is_state (f k) pending) ks) ≡ 0) ↔ All (λ k. f k ≢ pending) ks
no_pending f [] = ground arith
no_pending f (k ∷ ks) = elim (Bool-cases (is_state (f k) pending)) [
  | inl h ↦ rw h (λ e. absurd (omega arith), λ a. absurd (a.0 (is_state-eq (f k) pending h)))
  | inr h ↦ rw h (λ e. (λ p. ground arith, (no_pending f ks).0 e), λ a. (no_pending f ks).1 a.1)
]

module _ {K : Type 0} (t : Table K) (l : IsLawful t) where
  -- The lists of successful, failed and pending endpoints of a status string.
  pub successful-encode :
      (f : K → State) → successful t (encode t f) ≡ keep (λ k. is_state (f k) success) t.order
  unfolding successful
  successful-encode f = ap (λ p. keep p t.order) (fun_ext (is_success-encode t l f))

  pub failed-encode :
      (f : K → State) → failed t (encode t f) ≡ keep (λ k. is_state (f k) error) t.order
  unfolding failed
  failed-encode f = ap (λ p. keep p t.order) (fun_ext (is_error-encode t l f))

  pub waiting-encode :
      (f : K → State) → waiting t (encode t f) ≡ keep (λ k. is_state (f k) pending) t.order
  unfolding waiting
  waiting-encode f = ap (λ p. keep p t.order) (fun_ext (is_pending-encode t l f))

  -- Every endpoint is in exactly one of the three lists.
  pub length-partition :
      (f : K → State)
      → length (successful t (encode t f))
          + length (failed t (encode t f))
          + length (waiting t (encode t f))
        ≡ length t.order
  length-partition f =
      rw (successful-encode f, failed-encode f, waiting-encode f) (partition f t.order)

  -- All endpoints are reported as successful exactly when each of them has succeeded.
  pub is_all_success-encode :
      (f : K → State) → (is_all_success t (encode t f) ≡ true) ↔ All (λ k. f k ≡ success) t.order
  unfolding is_all_success
  is_all_success-encode f =
      rw (failed-encode f, waiting-encode f) (ground (arith, only_successes_iff f t.order))

  -- The completion percentage never passes 100, and is 100 exactly when no endpoint is pending.
  pub completion_percentage-encode :
      (f : K → State)
      → 0 < length t.order
      → length t.order ≤ 100
      → (completion_percentage t (encode t f) ≤ 100)
        × ((completion_percentage t (encode t f) ≡ 100) ↔ All (λ k. f k ≢ pending) t.order)
  unfolding completion_percentage
  completion_percentage-encode f p q =
      let n = length (waiting t (encode t f)) in
      let fits : n ≤ length t.order = omega (arith, length-partition f) in
      let full = percentage-eq-100_iff (length t.order - n) (length t.order) p q (omega arith) in
      let none_left : (n ≡ 0) ↔ All (λ k. f k ≢ pending) t.order =
        rw (waiting-encode f) (no_pending f t.order) in
      (
        percentage-le-100 _ _ (omega arith),
        (λ e. none_left.0 (omega (arith, full.0 e)), λ a. full.1 (omega (arith, none_left.1 a))),
      )
