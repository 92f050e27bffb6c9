-- ===== src/Recipes/Labs.antt =====
-- The recipes of the laboratories, and the other rows.
use cmnw.Prelude.{
  ℕ, Bool, true, false, not, ◌&&◌, List, [], ◌∷◌, ◌++◌, any, keep, map, Memᴰ, Memᴰ-keep, keep-Memᴰ,
  ◌≡◌, ◌⊎◌, ◌↔◌, refl, sym, ap, ◌∙◌, subst, arith, Bool-cases, inl, inr,
}
use mathlib.Core.List.{Permᴰ, append-nil}
use cmnw.Prelude.Memberships.{
  Memᴰ-append_left, Memᴰ-append_right, Memᴰ-append_cases, Memᴰ-map, Memᴰ-map_origin, Permᴰ-sym,
  Memᴰ-Permᴰ,
}
use cmnw.Recipes.Pricings.{
  Recipe, LabPricingMethod, LabMethod, lab_recipe, is_lab, process_lab_pricing_method,
  process_enabled, lib_pricing,
}

abbrev pub others : List Recipe → List Recipe
others = keep (λ r. not (is_lab r))

others-append : (xs ys : List Recipe) → others (xs ++ ys) ≡ others xs ++ others ys
others-append [] ys = refl
others-append (x ∷ xs) ys = ground (arith, others-append xs ys)

others_twice : (xs : List Recipe) → others (others xs) ≡ others xs
others_twice [] = refl
others_twice (x ∷ xs) = ground (arith, others_twice xs)

others-none : (xs : List Recipe) → ((r : Recipe) → Memᴰ r xs → is_lab r ≡ true) → others xs ≡ []
others-none [] h = refl
others-none (x ∷ xs) h = rw (h x (Memᴰ.head refl)) (others-none xs (λ r k. h r (Memᴰ.tail k)))

-- The saves are done in some order.
pub record IsOrder (settle : List Recipe → List Recipe) : Type 0 where
  pub reorders : (rs : List Recipe) → Permᴰ (settle rs) rs

module _ (column : ℕ → ℕ) (refuses : Recipe → Bool) where
  -- A method that is asked for makes the recipe, and its save does not throw.
  pub record IsMade (cs : List (Bool × LabPricingMethod)) (r : Recipe) : Type 0 where
    pub config : LabPricingMethod
    pub method : LabMethod
    pub asked_for : Memᴰ (true, config) cs
    pub of_config : Memᴰ method config.methods
    pub is_recipe : r ≡ lab_recipe column config method
    pub saved : refuses r ≡ false

  IsMade-later :
      {m : Bool × LabPricingMethod} {cs : List (Bool × LabPricingMethod)} {r : Recipe}
      → IsMade cs r
      → IsMade (m ∷ cs) r
  IsMade-later n = record {
    config = n.config;
    method = n.method;
    asked_for = Memᴰ.tail n.asked_for;
    of_config = n.of_config;
    is_recipe = n.is_recipe;
    saved = n.saved;
  }

  made-is_lab :
      (config : LabPricingMethod) (method : LabMethod) (r : Recipe)
      → r ≡ lab_recipe column config method
      → is_lab r ≡ true
  unfolding lab_recipe
  made-is_lab config method r e = ap is_lab e

  module _ (settle : List Recipe → List Recipe) (order : IsOrder settle) where
    abbrev accepted : LabPricingMethod → List Recipe
    accepted config = keep (λ r. not (refuses r)) (map (lab_recipe column config) config.methods)

    settled-accepted :
        (config : LabPricingMethod) (r : Recipe)
        → Memᴰ r (settle (accepted config))
        → (m : LabMethod) × Memᴰ m config.methods
          × (r ≡ lab_recipe column config m)
          × (refuses r ≡ false)
    settled-accepted config r k =
        let (inside, kept) =
          keep-Memᴰ (λ r. not (refuses r)) r (map (lab_recipe column config) config.methods)
            (Memᴰ-Permᴰ (order.reorders (accepted config)) k) in
        let (m, of_config, e) =
          Memᴰ-map_origin (lab_recipe column config) r config.methods inside in
        (m, of_config, e, ground arith)

    accepted-settled :
        (config : LabPricingMethod) (m : LabMethod) (r : Recipe)
        → Memᴰ m config.methods
        → r ≡ lab_recipe column config m
        → refuses r ≡ false
        → Memᴰ r (settle (accepted config))
    accepted-settled config m r k e put =
        Memᴰ-Permᴰ (Permᴰ-sym (order.reorders (accepted config))) (
          Memᴰ-keep (λ r. not (refuses r)) r _
            (subst (λ x. Memᴰ x (map (lab_recipe column config) config.methods)) (sym e)
              (Memᴰ-map (lab_recipe column config) m config.methods k))
            (ground arith))

    process_enabled-origin :
        (cs : List (Bool × LabPricingMethod)) (rows : List Recipe) (r : Recipe)
        → Memᴰ r (process_enabled column refuses settle cs rows)
        → Memᴰ r rows ⊎ IsMade cs r
    unfolding process_enabled process_lab_pricing_method
    process_enabled-origin [] rows r k = inl k
    process_enabled-origin ((false, config) ∷ cs) rows r k =
        elim (process_enabled-origin cs rows r k) [
          | inl old ↦ inl old
          | inr made ↦ inr (IsMade-later made)
        ]
    process_enabled-origin ((true, config) ∷ cs) rows r k =
        elim (process_enabled-origin cs (rows ++ settle (accepted config)) r k) [
          | inr made ↦ inr (IsMade-later made)
          | inl first ↦ elim (Memᴰ-append_cases rows (settle (accepted config)) first) [
            | inl old ↦ inl old
            | inr new ↦
                let (m, of_config, e, put) = settled-accepted config r new in
                inr (record {
                  config = config;
                  method = m;
                  asked_for = Memᴰ.head refl;
                  of_config = of_config;
                  is_recipe = e;
                  saved = put;
                })
          ]
        ]

    process_enabled-kept :
        (cs : List (Bool × LabPricingMethod)) (rows : List Recipe) (r : Recipe)
        → Memᴰ r rows
        → Memᴰ r (process_enabled column refuses settle cs rows)
    unfolding process_enabled process_lab_pricing_method
    process_enabled-kept [] rows r k = k
    process_enabled-kept ((false, config) ∷ cs) rows r k = process_enabled-kept cs rows r k
    process_enabled-kept ((true, config) ∷ cs) rows r k =
        process_enabled-kept cs _ r (Memᴰ-append_left rows (settle (accepted config)) k)

    abbrev asked : Bool × LabPricingMethod → List Recipe
    asked (true, config) = settle (accepted config)
    asked (false, config) = []

    process_enabled-made :
        (cs : List (Bool × LabPricingMethod)) (rows : List Recipe) (r : Recipe)
        (config : LabPricingMethod)
        → Memᴰ (true, config) cs
        → Memᴰ r (settle (accepted config))
        → Memᴰ r (process_enabled column refuses settle cs rows)
    unfolding process_enabled process_lab_pricing_method
    process_enabled-made [] rows r config k m = elim k [ ]
    process_enabled-made ((true, c) ∷ cs) rows r config (Memᴰ.head e) m =
        process_enabled-kept cs _ r
          (Memᴰ-append_right rows (settle (accepted c)) (subst (λ a. Memᴰ r (asked a)) e m))
    process_enabled-made ((false, c) ∷ cs) rows r config (Memᴰ.head e) m =
        elim (subst (λ a. Memᴰ r (asked a)) e m) [ ]
    process_enabled-made ((true, c) ∷ cs) rows r config (Memᴰ.tail k) m =
        process_enabled-made cs _ r config k m
    process_enabled-made ((false, c) ∷ cs) rows r config (Memᴰ.tail k) m =
        process_enabled-made cs rows r config k m

    others-process_enabled :
        (cs : List (Bool × LabPricingMethod)) (rows : List Recipe)
        → others (process_enabled column refuses settle cs rows) ≡ others rows
    unfolding process_enabled process_lab_pricing_method
    others-process_enabled [] rows = refl
    others-process_enabled ((false, config) ∷ cs) rows = others-process_enabled cs rows
    others-process_enabled ((true, config) ∷ cs) rows =
        others-process_enabled cs (rows ++ settle (accepted config))
        ∙ others-append rows (settle (accepted config))
        ∙ ap (λ xs. others rows ++ xs)
            (others-none (settle (accepted config)) (λ r k.
              let (m, of_config, e, put) = settled-accepted config r k in made-is_lab config m r e))
        ∙ append-nil (others rows)

    -- The rows after the old ones are deleted: the others, and those that are made.
    replaced :
        (cs : List (Bool × LabPricingMethod)) (rows : List Recipe) (r : Recipe)
        → Memᴰ r (process_enabled column refuses settle cs (others rows))
          ↔ (Memᴰ r (others rows) ⊎ IsMade cs r)
    replaced cs rows r = (
      process_enabled-origin cs (others rows) r,
      (λ d. elim d [
        | inl old ↦ process_enabled-kept cs (others rows) r old
        | inr n ↦
            process_enabled-made cs (others rows) r n.config n.asked_for
              (accepted-settled n.config n.method r n.of_config n.is_recipe n.saved)
      ]),
    )

-- The rows that are not of the laboratories stay as they are. If no method is asked for, or the
-- deletion throws, the table is what it was; else its rows are the other ones and those that the
-- methods that are asked for make and whose save does not throw, whatever the order of the saves.
pub lib_pricing_lem :
    (column : ℕ → ℕ) (refuses : Recipe → Bool) (settle : List Recipe → List Recipe)
    (delete_fails : Bool) (cs : List (Bool × LabPricingMethod)) (rows : List Recipe)
    → IsOrder settle
    → let after = lib_pricing column refuses settle delete_fails cs rows in
      (others after ≡ others rows)
      × ((((any (λ m. m.0) cs && not delete_fails) ≡ false) × (after ≡ rows))
          ⊎ (((any (λ m. m.0) cs && not delete_fails) ≡ true)
              × ((r : Recipe)
                  → Memᴰ r after ↔ (Memᴰ r (others rows) ⊎ IsMade column refuses cs r))))
unfolding lib_pricing
lib_pricing_lem column refuses settle delete_fails cs rows order =
    elim (Bool-cases (any (λ m. m.0) cs && not delete_fails)) [
      | inr kept ↦ rw kept (refl, inl (refl, refl))
      | inl cleared ↦ rw cleared (
        others-process_enabled column refuses settle order cs (others rows) ∙ others_twice rows,
        inr (refl, replaced column refuses settle order cs rows),
      )
    ]
