-- ===== src/Prelude/Sorting.antt =====
-- `Array.prototype.sort` by a number that each element has (the sort is stable), and its first
-- element.
use Prim.Native.Nat.{ℕ, ◌≤◌}
use mathlib.Core.Path.{◌≡◌, refl, subst, ◌∙◌, ap}
use mathlib.Core.Logic.{◌⊎◌, inl, inr}
use mathlib.Core.Bool.{Bool, true, false}
use mathlib.Core.Option.{Option, none, some}
use mathlib.Core.List.{List, [], ◌∷◌, Memᴰ}
use native.Mathlib.Omega.{arith}
use cmnw.Prelude.Tests.{leb, if◌then◌else◌, Bool-cases, Option-cases}
use cmnw.Prelude.Lists.{All, keep}

abbrev pub head? {ℓ} : {A : Type ℓ} → List A → Option A
head? [] = none
head? (x ∷ xs) = some x

module _ {A : Type 0} (key : A → ℕ) where
  insert_by : A → List A → List A
  insert_by x [] = x ∷ []
  insert_by x (y ∷ ys) = if leb (key x) (key y) then x ∷ y ∷ ys else y ∷ insert_by x ys

  unfoldable pub sort_by : List A → List A
  unfolding insert_by
  sort_by [] = []
  sort_by (x ∷ xs) = insert_by x (sort_by xs)

  abbrev smaller : A → Option A → Option A
  smaller x none = some x
  smaller x (some y) = if leb (key x) (key y) then some x else some y

  -- The first of the elements with the least number.
  first_least : List A → Option A
  first_least [] = none
  first_least (x ∷ xs) = smaller x (first_least xs)

  head?-insert_by : (x : A) (ys : List A) → head? (insert_by x ys) ≡ smaller x (head? ys)
  unfolding insert_by
  head?-insert_by x [] = refl
  head?-insert_by x (y ∷ ys) = ground arith

  head?-sort_by : (xs : List A) → head? (sort_by xs) ≡ first_least xs
  unfolding sort_by first_least
  head?-sort_by [] = refl
  head?-sort_by (x ∷ xs) = head?-insert_by x (sort_by xs) ∙ ap (smaller x) (head?-sort_by xs)

  at_most : (m n : ℕ) (xs : List A) → n ≤ m → All (λ y. m ≤ key y) xs → All (λ y. n ≤ key y) xs
  at_most m n [] h a = tt
  at_most m n (x ∷ xs) h a = (omega arith, at_most m n xs h a.1)

  first_least-none : (xs : List A) → first_least xs ≡ none → xs ≡ []
  unfolding first_least
  first_least-none [] e = refl
  first_least-none (x ∷ xs) e = elim (Option-cases (first_least xs)) [
    | inl h ↦ absurd (ground arith)
    | inr (y, h) ↦ absurd (ground arith)
  ]

  least_is_first :
      (x m : A) (xs : List A)
      → x ≡ m
      → All (λ y. key x ≤ key y) xs
      → Memᴰ m (x ∷ xs) × All (λ y. key m ≤ key y) (x ∷ xs)
  least_is_first x m xs p a =
      subst (λ w. Memᴰ w (x ∷ xs) × All (λ y. key w ≤ key y) (x ∷ xs)) p
        (Memᴰ.head refl, (omega arith, a))

  first_least-some :
      (xs : List A) (m : A) → first_least xs ≡ some m → Memᴰ m xs × All (λ y. key m ≤ key y) xs
  unfolding first_least
  first_least-some [] m e = cc
  first_least-some (x ∷ xs) m e = elim (Option-cases (first_least xs)) [
    | inl h ↦ let nil = first_least-none xs h in least_is_first x m xs (ground arith) (rw nil tt)
    | inr (y, h) ↦
        let (inside, least) = first_least-some xs y h in
        elim (Bool-cases (leb (key x) (key y))) [
          | inl le ↦
              least_is_first x m xs (ground arith) (at_most (key y) (key x) xs (ground arith) least)
          | inr gt ↦
              let same : y ≡ m = ground arith in
              let (inside', least') = first_least-some xs m (h ∙ ap some same) in
              (Memᴰ.tail inside', (ground arith, least'))
        ]
  ]

  -- The head of a sorted list is an element with the least number.
  pub head?-sort_by-some :
      (xs : List A) (m : A) → head? (sort_by xs) ≡ some m → Memᴰ m xs × All (λ y. key m ≤ key y) xs
  head?-sort_by-some xs m e = first_least-some xs m (rw head?-sort_by at e)

  pub head?-sort_by-none : (xs : List A) → head? (sort_by xs) ≡ none → xs ≡ []
  head?-sort_by-none xs e = first_least-none xs (rw head?-sort_by at e)

pub keep-All :
    {A : Type 0} (p : A → Bool) (P : A → Type 0) (xs : List A)
    → All P (keep p xs)
    → All (λ x. p x ≡ true → P x) xs
keep-All p P [] h = tt
keep-All p P (x ∷ xs) h = elim (Bool-cases (p x)) [
  | inl kept ↦ let h' : All P (x ∷ keep p xs) = rw kept at h in (λ _. h'.0, keep-All p P xs h'.1)
  | inr dropped ↦ let h' : All P (keep p xs) = rw dropped at h in (λ e. cc, keep-All p P xs h')
]

pub Memᴰ-cons_cases : {A : Type 0} {x y : A} {ys : List A} → Memᴰ x (y ∷ ys) → (x ≡ y) ⊎ Memᴰ x ys
Memᴰ-cons_cases (Memᴰ.head e) = inl e
Memᴰ-cons_cases (Memᴰ.tail m) = inr m

pub keep-Memᴰ :
    {A : Type 0} (p : A → Bool) (x : A) (xs : List A)
    → Memᴰ x (keep p xs)
    → Memᴰ x xs × (p x ≡ true)
keep-Memᴰ p x [] m = elim m [ ]
keep-Memᴰ p x (y ∷ ys) m = elim (Bool-cases (p y)) [
  | inl kept ↦
      let m' : Memᴰ x (y ∷ keep p ys) = rw kept at m in
      elim (Memᴰ-cons_cases m') [
        | inl e ↦ (Memᴰ.head e, rw e kept)
        | inr t ↦ let (later, q) = keep-Memᴰ p x ys t in (Memᴰ.tail later, q)
      ]
  | inr dropped ↦
      let m' : Memᴰ x (keep p ys) = rw dropped at m in
      let (later, q) = keep-Memᴰ p x ys m' in (Memᴰ.tail later, q)
]

pub Memᴰ-keep :
    {A : Type 0} (p : A → Bool) (x : A) (xs : List A) → Memᴰ x xs → p x ≡ true → Memᴰ x (keep p xs)
Memᴰ-keep p x [] m h = elim m [ ]
Memᴰ-keep p x (y ∷ ys) (Memᴰ.head e) h = let kept : p y ≡ true = rw (← e) h in rw kept (Memᴰ.head e)
Memᴰ-keep p x (y ∷ ys) (Memᴰ.tail m) h = elim (Bool-cases (p y)) [
  | inl kept ↦ rw kept (Memᴰ.tail (Memᴰ-keep p x ys m h))
  | inr dropped ↦ rw dropped (Memᴰ-keep p x ys m h)
]

pub keep-nil :
    {A : Type 0} (p : A → Bool) (xs : List A) → keep p xs ≡ [] → All (λ x. p x ≡ false) xs
keep-nil p [] e = tt
keep-nil p (x ∷ xs) e = elim (Bool-cases (p x)) [
  | inl kept ↦ absurd (ground arith)
  | inr dropped ↦ (dropped, keep-nil p xs (rw dropped at e))
]
