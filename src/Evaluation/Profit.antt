-- ===== src/Evaluation/Profit.antt =====
-- Which crafts findProfitableCrafts gives.
use cmnw.Prelude.{
  ◌≡◌, ◌↔◌, inl, inr, sym, ap, ◌∙◌, arith, true, false, some, List, Bool-cases, Memᴰ,
}
use mathlib.Core.List.{Permᴰ}
use cmnw.Evaluation.Numbers.{Number, IsOrdered}
use cmnw.Evaluation.Costs.{Entry, Pricing, CraftingCost}
use cmnw.Evaluation.Methods.{sort}
use cmnw.Evaluation.Item.{Database}
use cmnw.Evaluation.Crafts.{
  Comparison, CraftOptions, passes, crafts_of_pricings, by_margin, find_profitable_crafts,
}
use cmnw.Prelude.Memberships.{Permᴰ-sym, Memᴰ-Permᴰ}
use cmnw.Evaluation.Ranking.{IsSorted, sort-IsSorted, sort-Permᴰ, not_lt_trans, lt_asym}
use cmnw.Evaluation.Found.{
  IsCraft, IsCraftOf, crafts_of_pricings_sound, crafts_of_pricings_complete,
  crafts_of_derivatives_complete,
}

module _ {N : Type 0} (num : Number N) (o : IsOrdered num) where
  open num use {of_ℕ, minus, lt}

  -- One craft stands before another: its margin is not less.
  abbrev pub MarginFirst : Comparison N → Comparison N → Type 0
  MarginFirst a b = lt a.profit_margin b.profit_margin ≡ false

  module _ (db : Database N) (opts : CraftOptions N) where
    passes_profit : (c : Comparison N) → passes num opts c ≡ true → lt (of_ℕ 0) c.profit ≡ true
    unfolding passes
    passes_profit c h = elim (Bool-cases (lt (of_ℕ 0) c.profit)) [
      | inl y ↦ y
      | inr n ↦ absurd (ground (arith, n, h))
    ]

    -- A craft that passes sells for more than it costs.
    craft_gain :
        {pricing : Pricing N} {cost : CraftingCost N} {ds : List (Entry N)} {c : Comparison N}
        → IsCraftOf num db opts pricing cost ds c
        → lt c.crafting_cost c.market_price ≡ true
    craft_gain {c} r =
        let profit : lt (of_ℕ 0) (minus r.market_price r.unit_cost) ≡ true =
          ap (λ w. lt (of_ℕ 0) w.profit) (sym r.is_comparison) ∙ passes_profit c r.passing in
        ap (λ w. lt w.crafting_cost w.market_price) r.is_comparison
        ∙ (sym (o.lt-minus r.market_price r.unit_cost) ∙ profit)

    by_margin_sound : (a b : Comparison N) → by_margin num a b ≡ true → MarginFirst a b
    unfolding by_margin
    by_margin_sound a b h = ground (arith, o.lt-minus b.profit_margin a.profit_margin, h)

    by_margin_turned : (a b : Comparison N) → by_margin num a b ≡ false → MarginFirst b a
    unfolding by_margin
    by_margin_turned a b h =
        lt_asym num o a.profit_margin b.profit_margin
          (ground (arith, o.lt-minus b.profit_margin a.profit_margin, h))

    found_iff :
        (ps : List (Pricing N)) (cs : List (Comparison N))
        → Permᴰ cs (crafts_of_pricings num db opts ps)
        → (c : Comparison N) → Memᴰ c cs ↔ IsCraft num db opts ps c
    found_iff ps cs p c = (
      λ m. crafts_of_pricings_sound num db opts ps c (Memᴰ-Permᴰ p m),
      λ r. Memᴰ-Permᴰ (Permᴰ-sym p) (
          crafts_of_pricings_complete num db opts r.pricing r.cost r.derivatives c ps r.of_query
            r.has_cost r.has_derivatives r.acceptable
            (crafts_of_derivatives_complete num db opts r.pricing r.cost r.derivatives c
              r.of_derivative)),
    )

    -- The crafts found are those that a recipe of the query yields, and no others, by falling
    -- margin; and each sells for more than it costs.
    pub find_profitable_crafts_iff :
        (ps : List (Pricing N))
        → db.recipes opts.expansion opts.profession ≡ some ps
        → (let found = find_profitable_crafts num db opts in
            ((c : Comparison N) → Memᴰ c found ↔ IsCraft num db opts ps c)
            × IsSorted MarginFirst found
            × ((c : Comparison N) → Memᴰ c found → lt c.crafting_cost c.market_price ≡ true))
    unfolding find_profitable_crafts
    find_profitable_crafts_iff ps h =
        let all = crafts_of_pricings num db opts ps in
        let iff = found_iff ps (sort (by_margin num) all) (sort-Permᴰ (by_margin num) all) in
        rw (h, find_profitable_crafts)
          (
            iff,
            sort-IsSorted (by_margin num) MarginFirst by_margin_sound by_margin_turned
                (λ a b c. not_lt_trans num o a.profit_margin b.profit_margin c.profit_margin) all,
            λ c m. craft_gain ((iff c).0 m).of_derivative,
          )
