-- ===== src/Keys/Query/Initialize.antt =====
-- What `initialize` promises about the key that it settles on.
use cmnw.Prelude.{
  ℕ, zero, suc, ◌+◌, ◌*◌, ◌≤◌, ◌<◌, Option, none, some, List, ◌≡◌, ◌⊎◌, ◌∙◌, refl, arith, leb, Text,
  Option-cases, inl, inr, Bool-cases,
}
use cmnw.Keys.{Key, KeyHealth, get_available_key}
use cmnw.Keys.Query.{max_attempts, initialize_from, initialize, retry_delay}

module _ (h : KeyHealth) (tag : Option Text) (keys_at : ℕ → List Key) where
  retry_delay-le : (attempt : ℕ) → retry_delay h tag keys_at attempt ≤ h.max_delay * 1000
  unfolding retry_delay
  retry_delay-le attempt = omega arith

  -- The time of the `j`-th attempt from now on, when `attempt` have been made.
  pub attempt_from : ℕ → ℕ → ℕ → ℕ
  attempt_from attempt now zero = now
  attempt_from attempt now (suc j) =
      attempt_from (suc attempt) (now + retry_delay h tag keys_at (suc attempt)) j

  attempt_from-le :
      (j attempt now : ℕ) → attempt_from attempt now j ≤ now + j * (h.max_delay * 1000)
  unfolding attempt_from
  attempt_from-le zero attempt now = ground arith
  attempt_from-le (suc j) attempt now = omega (
    arith,
    attempt_from-le j (suc attempt) (now + retry_delay h tag keys_at (suc attempt)),
    retry_delay-le (suc attempt),
  )

  -- The key that `getAvailableKey` would find at a time.
  pub found_at : ℕ → Option Key
  found_at t = get_available_key t tag (keys_at t)

  -- The result is that of the first attempt that finds a key, or there is none.
  pub IsFirst : ℕ → ℕ → ℕ → Option (Key × ℕ) → Type 0
  IsFirst rounds attempt now result =
      ((j : ℕ) × (key : Key) × (j < rounds)
        × (result ≡ some (key, attempt_from attempt now j))
        × (found_at (attempt_from attempt now j) ≡ some key)
        × ((i : ℕ) → i < j → found_at (attempt_from attempt now i) ≡ none))
      ⊎ ((result ≡ none) × ((i : ℕ) → i < rounds → found_at (attempt_from attempt now i) ≡ none))

  earlier_missed :
      (attempt now j : ℕ)
      → found_at now ≡ none
      → ((i : ℕ)
          → i < j
          → found_at (attempt_from (suc attempt) (now + retry_delay h tag keys_at (suc attempt)) i)
            ≡ none)
      → (i : ℕ) → i < suc j
      → found_at (attempt_from attempt now i) ≡ none
  unfolding attempt_from
  earlier_missed attempt now j missed rest zero b = missed
  earlier_missed attempt now j missed rest (suc i) b = rest i (ground arith)

  initialize_from-IsFirst :
      (rounds attempt now : ℕ)
      → rounds + attempt ≡ max_attempts
      → IsFirst rounds attempt now (initialize_from h tag keys_at rounds attempt now)
  unfolding initialize_from IsFirst attempt_from found_at
  initialize_from-IsFirst zero attempt now e = inr (refl, λ i b. absurd (ground arith))
  initialize_from-IsFirst (suc rounds) attempt now e =
      elim (Option-cases (get_available_key now tag (keys_at now))) [
        | inr (key, found) ↦ inl (
          zero,
          key,
          ground arith,
          rw (found, initialize_from) refl,
          found,
          λ i b. absurd (ground arith),
        )
        | inl missed ↦ elim (Bool-cases (leb max_attempts (suc attempt))) [
          | inl last ↦ inr (
            rw (initialize_from, missed) (rw last refl),
            earlier_missed attempt now rounds missed (λ i b. absurd (ground arith)),
          )
          | inr more ↦
              let rest =
                initialize_from h tag keys_at rounds (suc attempt)
                  (now + retry_delay h tag keys_at (suc attempt)) in
              let same : initialize_from h tag keys_at (suc rounds) attempt now ≡ rest =
                rw (initialize_from, missed) (rw more refl) in
              elim (initialize_from-IsFirst rounds (suc attempt)
                (now + retry_delay h tag keys_at (suc attempt)) (ground arith)) [
                  | inl (j, key, b, r, f, before) ↦ inl (
                    suc j,
                    key,
                    ground arith,
                    same ∙ r,
                    f,
                    earlier_missed attempt now j missed before,
                  )
                  | inr (r, before) ↦
                      inr (same ∙ r, earlier_missed attempt now rounds missed before)
                ]
        ]
      ]

-- `initialize` returns the key that `getAvailableKey` finds at the first of its ten attempts at
-- which there is one, and throws exactly if there is none at any of them; the waits before the
-- last attempt come to at most nine maximal delays.
pub initialize-IsFirst :
    (h : KeyHealth) (tag : Option Text) (keys_at : ℕ → List Key) (now : ℕ)
    → IsFirst h tag keys_at 10 0 now (initialize h tag keys_at now)
      × (attempt_from h tag keys_at 0 now 9 ≤ now + 9 * (h.max_delay * 1000))
unfolding initialize
initialize-IsFirst h tag keys_at now =
    (initialize_from-IsFirst h tag keys_at 10 0 now refl, attempt_from-le h tag keys_at 9 0 now)
