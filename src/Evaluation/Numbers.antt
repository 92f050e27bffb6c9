-- ===== src/Evaluation/Numbers.antt =====
-- JavaScript's numbers as the evaluation uses them: a parameter, with the laws of comparison that
-- numbers other than NaN have.
use cmnw.Prelude.{ℕ, ◌≡◌, ◌⊎◌, Bool, true, false, not, ◌&&◌, Option, none, some}

pub record Number (N : Type 0) : Type 0 where
  pub of_ℕ : ℕ → N
  pub plus : N → N → N
  pub minus : N → N → N
  pub times : N → N → N
  pub over : N → N → N
  pub lt : N → N → Bool
  pub same : N → N → Bool

-- What finite numbers satisfy: `<` is a strict weak order, `===` says that neither is less, and
-- a difference has the sign of the comparison.
pub record IsOrdered {N : Type 0} (num : Number N) : Type 0 where
  pub lt_irrefl : (a : N) → num.lt a a ≡ false
  pub lt_trans : (a b c : N) → num.lt a b ≡ true → num.lt b c ≡ true → num.lt a c ≡ true
  pub lt_split : (a b c : N) → num.lt a c ≡ true → (num.lt a b ≡ true) ⊎ (num.lt b c ≡ true)
  pub same-eq : (a b : N) → num.same a b ≡ (not (num.lt a b) && not (num.lt b a))
  pub lt-minus : (a b : N) → num.lt (num.of_ℕ 0) (num.minus a b) ≡ num.lt b a

module _ {N : Type 0} (num : Number N) where
  -- A number as a condition.
  unfoldable pub is_truthy : N → Bool
  is_truthy a = not (num.same a (num.of_ℕ 0))

  unfoldable pub truthy : Option N → Option N
  truthy none = none
  truthy (some a) = elim (is_truthy a) [ true ↦ some a | false ↦ none ]

  -- A decimal fraction of the source.
  abbrev pub decimal : ℕ → ℕ → N
  decimal n d = num.over (num.of_ℕ n) (num.of_ℕ d)
