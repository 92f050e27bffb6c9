-- ===== src/Evaluation/Found.antt =====
-- The loops of findProfitableCrafts collect the crafts that the recipes yield, and no others.
use cmnw.Prelude.{
  ℕ, ◌≡◌, inl, inr, refl, sym, ap, ◌∙◌, subst, true, Option, none, some, List, [], ◌∷◌, Bool-cases,
  map_get, Memᴰ,
}
use cmnw.Prelude.Memberships.{Memᴰ-append_left, Memᴰ-append_right, Memᴰ-append_cases}
use cmnw.Evaluation.Numbers.{Number, truthy}
use cmnw.Evaluation.Prices.{get_market_price}
use cmnw.Evaluation.Costs.{Entry, Pricing, CraftingCost, entry_item, calculate_crafting_cost}
use cmnw.Evaluation.Item.{Database}
use cmnw.Evaluation.Crafts.{
  Comparison, CraftOptions, comparison_of, passes, craft_if, crafts_of_derivatives, is_acceptable,
  crafts_of_cost, crafts_of_pricings,
}

only_element : {A : Type 0} (x y : A) → Memᴰ x (y ∷ []) → x ≡ y
only_element x y (Memᴰ.head e) = e
only_element x y (Memᴰ.tail m) = elim m [ ]

module _ {N : Type 0} (num : Number N) where
  -- A derivative yields the craft: it has a market price and a cost, and the craft passes.
  pub record IsCraftOf (db : Database N) (opts : CraftOptions N) (pricing : Pricing N)
      (cost : CraftingCost N) (ds : List (Entry N)) (c : Comparison N) : Type 0 where
    pub derivative : Entry N
    pub market_price : N
    pub unit_cost : N
    pub of_recipe : Memᴰ derivative ds
    pub has_price :
        truthy num (get_market_price num db.market (entry_item derivative)) ≡ some market_price
    pub has_unit_cost :
        truthy num (map_get (entry_item derivative) cost.cost_per_unit) ≡ some unit_cost
    pub is_comparison : c ≡ comparison_of num (entry_item derivative) pricing market_price unit_cost
    pub passing : passes num opts c ≡ true

  -- A recipe of the query yields the craft: its cost is acceptable, and one of its derivatives does.
  pub record IsCraft (db : Database N) (opts : CraftOptions N) (ps : List (Pricing N))
      (c : Comparison N) : Type 0 where
    pub pricing : Pricing N
    pub cost : CraftingCost N
    pub derivatives : List (Entry N)
    pub of_query : Memᴰ pricing ps
    pub has_cost : calculate_crafting_cost num db.market pricing ≡ some cost
    pub has_derivatives : pricing.derivatives ≡ some derivatives
    pub acceptable : is_acceptable num opts cost ≡ true
    pub of_derivative : IsCraftOf db opts pricing cost derivatives c

  module _ (db : Database N) (opts : CraftOptions N) where
    of_more :
        {pricing : Pricing N} {cost : CraftingCost N} {ds ds' : List (Entry N)} {c : Comparison N}
        (r : IsCraftOf db opts pricing cost ds c)
        → Memᴰ r.derivative ds'
        → IsCraftOf db opts pricing cost ds' c
    of_more r m = record {
      derivative = r.derivative;
      market_price = r.market_price;
      unit_cost = r.unit_cost;
      of_recipe = m;
      has_price = r.has_price;
      has_unit_cost = r.has_unit_cost;
      is_comparison = r.is_comparison;
      passing = r.passing;
    }

    craft_if_sound :
        (d : Entry N) (pricing : Pricing N) (cost : CraftingCost N) (price unit : Option N)
        (c : Comparison N)
        → truthy num (get_market_price num db.market (entry_item d)) ≡ price
        → truthy num (map_get (entry_item d) cost.cost_per_unit) ≡ unit
        → Memᴰ c (craft_if num opts (entry_item d) pricing price unit)
        → IsCraftOf db opts pricing cost (d ∷ []) c
    craft_if_sound d pricing cost none unit c h k m = elim m [ ]
    craft_if_sound d pricing cost (some p) none c h k m = elim m [ ]
    craft_if_sound d pricing cost (some p) (some u) c h k m =
        let made = comparison_of num (entry_item d) pricing p u in
        elim (Bool-cases (passes num opts made)) [
          | inl y ↦
              let m' : Memᴰ c (made ∷ []) = rw y at m in
              let e = only_element c made m' in
              record {
                derivative = d;
                market_price = p;
                unit_cost = u;
                of_recipe = Memᴰ.head refl;
                has_price = h;
                has_unit_cost = k;
                is_comparison = e;
                passing = ap (passes num opts) e ∙ y;
              }
          | inr n ↦ let m' : Memᴰ c [] = rw n at m in elim m' [ ]
        ]

    crafts_of_derivatives_sound :
        (pricing : Pricing N) (cost : CraftingCost N) (ds : List (Entry N)) (c : Comparison N)
        → Memᴰ c (crafts_of_derivatives num db opts pricing cost ds)
        → IsCraftOf db opts pricing cost ds c
    unfolding crafts_of_derivatives
    crafts_of_derivatives_sound pricing cost [] c m = elim m [ ]
    crafts_of_derivatives_sound pricing cost (d ∷ ds) c m = elim (Memᴰ-append_cases _ _ m) [
      | inl l ↦
          let r = craft_if_sound d pricing cost _ _ c refl refl l in
          of_more r (Memᴰ-append_left (d ∷ []) ds r.of_recipe)
      | inr l ↦
          let r = crafts_of_derivatives_sound pricing cost ds c l in
          of_more r (Memᴰ.tail r.of_recipe)
    ]

    crafts_of_cost_sound :
        (p : Pricing N) (ps : List (Pricing N)) (c : Comparison N) (cost : Option (CraftingCost N))
        (ds : Option (List (Entry N)))
        → calculate_crafting_cost num db.market p ≡ cost
        → p.derivatives ≡ ds
        → Memᴰ c (crafts_of_cost num db opts p cost ds)
        → IsCraft db opts (p ∷ ps) c
    crafts_of_cost_sound p ps c none ds h k m = elim m [ ]
    crafts_of_cost_sound p ps c (some cost) none h k m = elim m [ ]
    crafts_of_cost_sound p ps c (some cost) (some ds) h k m =
        elim (Bool-cases (is_acceptable num opts cost)) [
          | inl y ↦ record {
            pricing = p;
            cost = cost;
            derivatives = ds;
            of_query = Memᴰ.head refl;
            has_cost = h;
            has_derivatives = k;
            acceptable = y;
            of_derivative = crafts_of_derivatives_sound p cost ds c (rw y at m);
          }
          | inr n ↦ let m' : Memᴰ c [] = rw n at m in elim m' [ ]
        ]

    crafts_of_cost_complete :
        (p : Pricing N) (cost : CraftingCost N) (ds : List (Entry N)) (c : Comparison N)
        (cost? : Option (CraftingCost N)) (ds? : Option (List (Entry N)))
        → cost? ≡ some cost
        → ds? ≡ some ds
        → is_acceptable num opts cost ≡ true
        → Memᴰ c (crafts_of_derivatives num db opts p cost ds)
        → Memᴰ c (crafts_of_cost num db opts p cost? ds?)
    crafts_of_cost_complete p cost ds c cost? ds? h k a m =
        subst (λ w. Memᴰ c (crafts_of_cost num db opts p w ds?)) (sym h)
          (subst (λ w. Memᴰ c (crafts_of_cost num db opts p (some cost) w)) (sym k) (rw a m))

    pub crafts_of_pricings_sound :
        (ps : List (Pricing N)) (c : Comparison N)
        → Memᴰ c (crafts_of_pricings num db opts ps)
        → IsCraft db opts ps c
    unfolding crafts_of_pricings
    crafts_of_pricings_sound [] c m = elim m [ ]
    crafts_of_pricings_sound (p ∷ ps) c m = elim (Memᴰ-append_cases _ _ m) [
      | inl l ↦ crafts_of_cost_sound p ps c _ _ refl refl l
      | inr l ↦
          let r = crafts_of_pricings_sound ps c l in
          record {
            pricing = r.pricing;
            cost = r.cost;
            derivatives = r.derivatives;
            of_query = Memᴰ.tail r.of_query;
            has_cost = r.has_cost;
            has_derivatives = r.has_derivatives;
            acceptable = r.acceptable;
            of_derivative = r.of_derivative;
          }
    ]

    craft_if_complete :
        (i : ℕ) (pricing : Pricing N) (p u : N) (price unit : Option N)
        → price ≡ some p
        → unit ≡ some u
        → passes num opts (comparison_of num i pricing p u) ≡ true
        → Memᴰ (comparison_of num i pricing p u) (craft_if num opts i pricing price unit)
    craft_if_complete i pricing p u price unit h k y =
        subst (λ w. Memᴰ (comparison_of num i pricing p u) (craft_if num opts i pricing w unit))
          (sym h)
          (subst
            (λ w. Memᴰ (comparison_of num i pricing p u) (craft_if num opts i pricing (some p) w))
            (sym k) (rw y (Memᴰ.head refl)))

    derivative_yields :
        (pricing : Pricing N) (cost : CraftingCost N) (d : Entry N) (p u : N) (ds : List (Entry N))
        → truthy num (get_market_price num db.market (entry_item d)) ≡ some p
        → truthy num (map_get (entry_item d) cost.cost_per_unit) ≡ some u
        → passes num opts (comparison_of num (entry_item d) pricing p u) ≡ true
        → Memᴰ d ds
        → Memᴰ
            (comparison_of num (entry_item d) pricing p u)
            (crafts_of_derivatives num db opts pricing cost ds)
    unfolding crafts_of_derivatives
    derivative_yields pricing cost d p u [] h k y m = elim m [ ]
    derivative_yields pricing cost d p u (e ∷ ds) h k y (Memᴰ.head q) = Memᴰ-append_left _ _ (
        subst
          (λ w. Memᴰ (comparison_of num (entry_item d) pricing p u) (
            craft_if num opts (entry_item w) pricing
              (truthy num (get_market_price num db.market (entry_item w)))
              (truthy num (map_get (entry_item w) cost.cost_per_unit))))
          q (craft_if_complete (entry_item d) pricing p u _ _ h k y))
    derivative_yields pricing cost d p u (e ∷ ds) h k y (Memᴰ.tail m) =
        Memᴰ-append_right _ _ (derivative_yields pricing cost d p u ds h k y m)

    pub crafts_of_derivatives_complete :
        (pricing : Pricing N) (cost : CraftingCost N) (ds : List (Entry N)) (c : Comparison N)
        → IsCraftOf db opts pricing cost ds c
        → Memᴰ c (crafts_of_derivatives num db opts pricing cost ds)
    crafts_of_derivatives_complete pricing cost ds c r =
        subst (λ w. Memᴰ w (crafts_of_derivatives num db opts pricing cost ds))
          (sym r.is_comparison)
          (derivative_yields pricing cost r.derivative r.market_price r.unit_cost ds r.has_price
            r.has_unit_cost (ap (passes num opts) (sym r.is_comparison) ∙ r.passing) r.of_recipe)

    pub crafts_of_pricings_complete :
        (p : Pricing N) (cost : CraftingCost N) (ds : List (Entry N)) (c : Comparison N)
        (ps : List (Pricing N))
        → Memᴰ p ps
        → calculate_crafting_cost num db.market p ≡ some cost
        → p.derivatives ≡ some ds
        → is_acceptable num opts cost ≡ true
        → Memᴰ c (crafts_of_derivatives num db opts p cost ds)
        → Memᴰ c (crafts_of_pricings num db opts ps)
    unfolding crafts_of_pricings
    crafts_of_pricings_complete p cost ds c [] k h d a m = elim k [ ]
    crafts_of_pricings_complete p cost ds c (q ∷ ps) (Memᴰ.head e) h d a m = Memᴰ-append_left _ _ (
        subst
          (λ w.
            Memᴰ c (
              crafts_of_cost num db opts w (calculate_crafting_cost num db.market w) w.derivatives))
          e (crafts_of_cost_complete p cost ds c _ _ h d a m))
    crafts_of_pricings_complete p cost ds c (q ∷ ps) (Memᴰ.tail k) h d a m =
        Memᴰ-append_right _ _ (crafts_of_pricings_complete p cost ds c ps k h d a m)
