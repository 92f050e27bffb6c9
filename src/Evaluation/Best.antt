-- ===== src/Evaluation/Best.antt =====
-- The best methods of an evaluation.
use cmnw.Prelude.{
  some_inj, none_ne_some, ℕ, ◌≡◌, ◌⊎◌, inl, inr, refl, sym, ap, subst, Bool, true, false, Option,
  none, some, List, [], ◌∷◌, if◌then◌else◌, All, Memᴰ, Bool-cases, keep, Option-cases,
}
use mathlib.Core.List.{Permᴰ}
use cmnw.Evaluation.Numbers.{Number, IsOrdered}
use cmnw.Evaluation.Methods.{
  Method, is_crafting, is_cheaper, best_from, best_of, find_best_for_buying, find_best_for_selling,
  find_best_for_crafting,
}
use cmnw.Evaluation.Item.{
  Options, Item, Database, Evaluation, gather_methods, filter_methods, evaluate_item,
  evaluate_item_pricing,
}
use cmnw.Evaluation.Ranking.{
  IsSorted, Precedes, rank_pricing_methods-IsSorted, rank_pricing_methods-Permᴰ,
}

-- An element of the list that no other is better than; none, if there are none.
abbrev pub IsBest : {A : Type 0} → (A → A → Bool) → List A → Option A → Type 0
IsBest better xs none = xs ≡ []
IsBest better xs (some m) = Memᴰ m xs × All (λ x. better x m ≡ false) xs

module _ {A : Type 0} (better : A → A → Bool)
    (trans : (a b c : A) → better a b ≡ true → better b c ≡ true → better a c ≡ true)
    (split : (a b c : A) → better a c ≡ true → (better a b ≡ true) ⊎ (better b c ≡ true))
    (irrefl : (a : A) → better a a ≡ false) where
  -- What an element that is better than another one is not, the other is not.
  not_better : (x y r : A) → better y x ≡ true → better y r ≡ false → better x r ≡ false
  not_better x y r h a = elim (Bool-cases (better x r)) [
    | inl k ↦ let e = trans y x r h k in cc
    | inr k ↦ k
  ]

  still : (x y r : A) → better y x ≡ false → better x r ≡ false → better y r ≡ false
  still x y r h a = elim (Bool-cases (better y r)) [
    | inl k ↦ elim (split y x r k) [ inl e ↦ cc | inr e ↦ cc ]
    | inr k ↦ k
  ]

  skip : (x y r : A) (ys : List A) → Memᴰ r (x ∷ ys) → Memᴰ r (x ∷ y ∷ ys)
  skip x y r ys (Memᴰ.head e) = Memᴰ.head e
  skip x y r ys (Memᴰ.tail m) = Memᴰ.tail (Memᴰ.tail m)

  best_from-IsBest : (x : A) (xs : List A) → IsBest better (x ∷ xs) (some (best_from better x xs))
  unfolding best_from
  best_from-IsBest x [] = (Memᴰ.head refl, (irrefl x, tt))
  best_from-IsBest x (y ∷ ys) = elim (Bool-cases (better y x)) [
    | inl h ↦
        let (m, a) = best_from-IsBest y ys in
        subst (λ r. IsBest better (x ∷ y ∷ ys) (some r))
          (ap (λ w. best_from better (if w then y else x) ys) (sym h))
          (Memᴰ.tail m, (not_better x y (best_from better y ys) h a.0, a))
    | inr h ↦
        let (m, a) = best_from-IsBest x ys in
        subst (λ r. IsBest better (x ∷ y ∷ ys) (some r))
          (ap (λ w. best_from better (if w then y else x) ys) (sym h))
          (
            skip x y (best_from better x ys) ys m,
            (a.0, (still x y (best_from better x ys) h a.0, a.1)),
          )
  ]

  pub best_of-IsBest : (xs : List A) → IsBest better xs (best_of better xs)
  unfolding best_of
  best_of-IsBest [] = refl
  best_of-IsBest (x ∷ xs) = best_from-IsBest x xs

module _ {N : Type 0} (num : Number N) (o : IsOrdered num) where
  open num use {lt}

  abbrev pub is_dearer : Method N → Method N → Bool
  is_dearer a b = is_cheaper num b a

  pub cheapest-IsBest :
      (ms : List (Method N)) → IsBest (is_cheaper num) ms (best_of (is_cheaper num) ms)
  cheapest-IsBest =
      best_of-IsBest (is_cheaper num)
        (λ a b c. o.lt_trans a.calculated_value b.calculated_value c.calculated_value)
        (λ a b c. o.lt_split a.calculated_value b.calculated_value c.calculated_value)
        (λ a. o.lt_irrefl a.calculated_value)

  dearest-IsBest : (ms : List (Method N)) → IsBest is_dearer ms (best_of is_dearer ms)
  dearest-IsBest =
      best_of-IsBest is_dearer
        (λ a b c p q. o.lt_trans c.calculated_value b.calculated_value a.calculated_value q p)
        (λ a b c p. elim (o.lt_split c.calculated_value b.calculated_value a.calculated_value p) [
          | inl x ↦ inr x
          | inr x ↦ inl x
        ])
        (λ a. o.lt_irrefl a.calculated_value)

  -- The methods of an evaluation are those that were gathered and pass the least confidence, each
  -- as often as there, by falling confidence and at one confidence by rising value.
  pub evaluate_item_pricing-methods :
      (db : Database N) (item_id : ℕ) (opts : Options N) {item : Item N} {e : Evaluation N}
      → db.item item_id ≡ some (some item)
      → evaluate_item_pricing num db item_id opts ≡ some e
      → Permᴰ e.methods
          (filter_methods num opts.min_confidence (gather_methods num db item_id item opts))
        × IsSorted (Precedes num o) e.methods
  unfolding evaluate_item_pricing evaluate_item
  evaluate_item_pricing-methods db item_id opts {item} {e} h r =
      let all = filter_methods num opts.min_confidence (gather_methods num db item_id item opts) in
      subst (λ (w : Evaluation N). Permᴰ w.methods all × IsSorted (Precedes num o) w.methods)
        (some_inj (rw (h, evaluate_item_pricing) at r))
        (rank_pricing_methods-Permᴰ num o all, rank_pricing_methods-IsSorted num o all)

  evaluate_item_pricing-some :
      (db : Database N) (item_id : ℕ) (opts : Options N) {e : Evaluation N}
      → evaluate_item_pricing num db item_id opts ≡ some e
      → (item : Item N) × (evaluate_item num db item_id item opts ≡ e)
  unfolding evaluate_item_pricing
  evaluate_item_pricing-some db item_id opts r = elim (Option-cases (db.item item_id)) [
    | inl n ↦ absurd (none_ne_some (rw (n, evaluate_item_pricing) at r))
    | inr (found, h) ↦
        let r' = rw (h, evaluate_item_pricing) at r in
        elim (Option-cases found) [
          | inl n ↦ absurd (none_ne_some (rw n at r'))
          | inr (item, k) ↦ (item, some_inj (rw k at r'))
        ]
  ]

  -- Of the methods of an evaluation, the best one for buying has the least value, the best one for
  -- selling the greatest, and the best one for crafting the least of the recipes'; each is one of
  -- these methods, and missing only if there are none.
  pub evaluate_item_pricing-IsBest :
      (db : Database N) (item_id : ℕ) (opts : Options N) {e : Evaluation N}
      → evaluate_item_pricing num db item_id opts ≡ some e
      → IsBest (is_cheaper num) e.methods e.best_for_buying
        × IsBest is_dearer e.methods e.best_for_selling
        × IsBest (is_cheaper num) (keep (λ m. is_crafting m.source) e.methods) e.best_for_crafting
  unfolding evaluate_item find_best_for_buying find_best_for_selling find_best_for_crafting
  evaluate_item_pricing-IsBest db item_id opts {e} r =
      let (item, same) = evaluate_item_pricing-some db item_id opts r in
      let ms = (evaluate_item num db item_id item opts).methods in
      subst
        (λ (w : Evaluation N).
          IsBest (is_cheaper num) w.methods w.best_for_buying
          × IsBest is_dearer w.methods w.best_for_selling
          × IsBest (is_cheaper num) (keep (λ m. is_crafting m.source) w.methods)
              w.best_for_crafting)
        same
        (
          cheapest-IsBest ms,
          dearest-IsBest ms,
          cheapest-IsBest (keep (λ m. is_crafting m.source) ms),
        )
