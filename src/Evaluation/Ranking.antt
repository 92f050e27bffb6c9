-- ===== src/Evaluation/Ranking.antt =====
-- The sort of JavaScript, and the ranking of methods by confidence and value.
use cmnw.Prelude.{
  ◌≡◌, inl, inr, refl, arith, Bool, true, false, not, List, [], ◌∷◌, if◌then◌else◌, All, Bool-cases,
}
use mathlib.Core.List.{Permᴰ}
use mathlib.Core.List.Permᴰ
use cmnw.Evaluation.Numbers.{Number, IsOrdered}
use cmnw.Evaluation.Methods.{Method, sort, insert_sorted, compare_methods, rank_pricing_methods}

-- Every element may stand before each later one.
abbrev pub IsSorted : {A : Type 0} → (A → A → Type 0) → List A → Type 0
IsSorted R [] = Unit
IsSorted R (x ∷ xs) = All (R x) xs × IsSorted R xs

module _ {A : Type 0} (before : A → A → Bool) where
  insert_sorted-Permᴰ : (x : A) (ys : List A) → Permᴰ (insert_sorted before x ys) (x ∷ ys)
  unfolding insert_sorted
  insert_sorted-Permᴰ x [] = Permᴰ.refl (x ∷ [])
  insert_sorted-Permᴰ x (y ∷ ys) = elim (Bool-cases (before x y)) [
    | inl h ↦ rw h (Permᴰ.refl (x ∷ y ∷ ys))
    | inr h ↦ rw h (Permᴰ.trans (Permᴰ.cons refl (insert_sorted-Permᴰ x ys)) (Permᴰ.swap refl refl))
  ]

  pub sort-Permᴰ : (xs : List A) → Permᴰ (sort before xs) xs
  unfolding sort
  sort-Permᴰ [] = Permᴰ.nil
  sort-Permᴰ (x ∷ xs) =
      Permᴰ.trans (insert_sorted-Permᴰ x (sort before xs)) (Permᴰ.cons refl (sort-Permᴰ xs))

  All-insert_sorted :
      (P : A → Type 0) (x : A) (ys : List A) → P x → All P ys → All P (insert_sorted before x ys)
  unfolding insert_sorted
  All-insert_sorted P x [] p a = (p, tt)
  All-insert_sorted P x (y ∷ ys) p a = elim (Bool-cases (before x y)) [
    | inl h ↦ rw h (p, a)
    | inr h ↦ rw h (a.0, All-insert_sorted P x ys p a.1)
  ]

  -- The test decides a relation that is transitive, and one of two elements may stand first.
  module _ (R : A → A → Type 0) (sound : (a b : A) → before a b ≡ true → R a b)
      (turned : (a b : A) → before a b ≡ false → R b a)
      (trans : (a b c : A) → R a b → R b c → R a c) where
    All-trans : (a b : A) (cs : List A) → R a b → All (R b) cs → All (R a) cs
    All-trans a b [] r s = tt
    All-trans a b (c ∷ cs) r s = (trans a b c r s.0, All-trans a b cs r s.1)

    insert_sorted-IsSorted :
        (x : A) (ys : List A) → IsSorted R ys → IsSorted R (insert_sorted before x ys)
    unfolding insert_sorted
    insert_sorted-IsSorted x [] s = (tt, tt)
    insert_sorted-IsSorted x (y ∷ ys) s = elim (Bool-cases (before x y)) [
      | inl h ↦ rw h ((sound x y h, All-trans x y ys (sound x y h) s.0), s)
      | inr h ↦
          rw h (All-insert_sorted (R y) x ys (turned x y h) s.0, insert_sorted-IsSorted x ys s.1)
    ]

    pub sort-IsSorted : (xs : List A) → IsSorted R (sort before xs)
    unfolding sort
    sort-IsSorted [] = tt
    sort-IsSorted (x ∷ xs) = insert_sorted-IsSorted x (sort before xs) (sort-IsSorted xs)

module _ {N : Type 0} (num : Number N) (o : IsOrdered num) where
  open num use {of_ℕ, minus, lt, same}

  pub not_lt_trans : (a b c : N) → lt a b ≡ false → lt b c ≡ false → lt a c ≡ false
  not_lt_trans a b c p q = elim (Bool-cases (lt a c)) [
    | inl h ↦ elim (o.lt_split a b c h) [ inl k ↦ cc | inr k ↦ cc ]
    | inr h ↦ h
  ]

  pub lt_asym : (a b : N) → lt a b ≡ true → lt b a ≡ false
  lt_asym a b h = elim (Bool-cases (lt b a)) [
    | inl k ↦ let e = o.lt_trans a b a h k in let f = o.lt_irrefl a in cc
    | inr k ↦ k
  ]

  -- The first method is not less confident, and of two with one confidence it is not dearer.
  abbrev pub Precedes : Method N → Method N → Type 0
  Precedes a b =
      (lt a.confidence b.confidence ≡ false)
      × (lt b.confidence a.confidence ≡ false → lt b.calculated_value a.calculated_value ≡ false)

  Precedes-trans : (a b c : Method N) → Precedes a b → Precedes b c → Precedes a c
  Precedes-trans a b c p q = (
    not_lt_trans a.confidence b.confidence c.confidence p.0 q.0,
    λ h.
        not_lt_trans c.calculated_value b.calculated_value a.calculated_value
          (q.1 (not_lt_trans c.confidence a.confidence b.confidence h p.0))
          (p.1 (not_lt_trans b.confidence c.confidence a.confidence q.0 h)),
  )

  -- The sign of the comparison.
  compare_methods_lem :
      (a b : Method N)
      → lt (of_ℕ 0) (compare_methods num a b) ≡ (
          if same a.confidence b.confidence
          then lt b.calculated_value a.calculated_value
          else lt a.confidence b.confidence)
  unfolding compare_methods
  compare_methods_lem a b = elim (Bool-cases (same a.confidence b.confidence)) [
    | inl h ↦ rw h (o.lt-minus a.calculated_value b.calculated_value)
    | inr h ↦ rw h (o.lt-minus b.confidence a.confidence)
  ]

  Precedes-sound :
      (a b : Method N) → not (lt (of_ℕ 0) (compare_methods num a b)) ≡ true → Precedes a b
  Precedes-sound a b h =
      let e = rw (compare_methods_lem a b) at h in
      let s = o.same-eq a.confidence b.confidence in
      let t = lt_asym b.confidence a.confidence in
      (ground (arith, e, s), λ k. ground (arith, e, s, k))

  Precedes-turned :
      (a b : Method N) → not (lt (of_ℕ 0) (compare_methods num a b)) ≡ false → Precedes b a
  Precedes-turned a b h =
      let e = rw (compare_methods_lem a b) at h in
      let s = o.same-eq a.confidence b.confidence in
      (
        ground (arith, e, s, lt_asym a.confidence b.confidence),
        λ k. ground (arith, e, s, lt_asym b.calculated_value a.calculated_value),
      )

  pub rank_pricing_methods-IsSorted :
      (ms : List (Method N)) → IsSorted Precedes (rank_pricing_methods num ms)
  unfolding rank_pricing_methods
  rank_pricing_methods-IsSorted ms =
      sort-IsSorted (λ a b. not (lt (of_ℕ 0) (compare_methods num a b))) Precedes Precedes-sound
        Precedes-turned Precedes-trans ms

  pub rank_pricing_methods-Permᴰ : (ms : List (Method N)) → Permᴰ (rank_pricing_methods num ms) ms
  unfolding rank_pricing_methods
  rank_pricing_methods-Permᴰ ms = sort-Permᴰ (λ a b. not (lt (of_ℕ 0) (compare_methods num a b))) ms
