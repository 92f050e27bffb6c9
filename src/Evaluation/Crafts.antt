-- ===== src/Evaluation/Crafts.antt =====
-- findProfitableCrafts, compareMarketVsCrafting and evaluateRealmProfitability.
use cmnw.Prelude.{
  ℕ, ◌+◌, Bool, true, false, not, ◌&&◌, Option, none, some, List, [], ◌∷◌, ◌++◌, ◌==◌, map, map_get,
  map_of, keep, if◌then◌else◌, length, Text,
}
use cmnw.Evaluation.Numbers.{Number, truthy, decimal}
use cmnw.Evaluation.Prices.{get_market_price}
use cmnw.Evaluation.Costs.{Entry, Pricing, CraftingCost, entry_item, calculate_crafting_cost}
use cmnw.Evaluation.Methods.{
  Method, is_crafting, is_cheaper, sort, best_of, gather_crafting_methods,
}
use cmnw.Evaluation.Item.{
  Options, Item, Database, Evaluation, evaluate_item_pricing, Recommendation,
}

-- PriceComparison, less the realm; `recipe_id` and `rank` are its best recipe's.
pub record Comparison (N : Type 0) : Type 0 where
  pub item_id : ℕ
  pub market_price : N
  pub crafting_cost : N
  pub profit : N
  pub profit_margin : N
  pub is_profitable : Bool
  pub recipe_id : Option ℕ
  pub rank : Option ℕ

-- ProfitableCraftOptions
pub record CraftOptions (N : Type 0) : Type 0 where
  pub min_margin : Option N
  pub min_profit : Option N
  pub max_crafting_cost : Option N
  pub expansion : Option Text
  pub profession : Option Text

-- EvaluationEntity, less what is copied from the item.
pub record Row (N : Type 0) : Type 0 where
  pub item_id : ℕ
  pub connected_realm_id : ℕ
  pub market_price : N
  pub crafting_cost : N
  pub vendor_sell_price : Option N
  pub profit : N
  pub profit_margin : N
  pub is_profitable : Bool
  pub best_recipe_id : Option ℕ
  pub recipe_rank : Option ℕ
  pub recommendations : List (Recommendation N)
  pub confidence : N
  pub market_volume : Option N
  pub timestamp : ℕ

-- Which commands on the table of evaluations fail.
pub record TableCommands (N : Type 0) : Type 0 where
  pub delete_fails : Bool
  pub save_fails : List (Row N) → Bool

module _ {N : Type 0} (num : Number N) where
  open num use {of_ℕ, minus, times, over, lt}

  -- `!least || x >= least`
  abbrev pub meets : Option N → N → Bool
  meets least x = elim (truthy num least) [ none ↦ true | some l ↦ not (lt x l) ]

  -- `most && x > most`
  abbrev pub exceeds : Option N → N → Bool
  exceeds most x = elim (truthy num most) [ none ↦ false | some l ↦ lt l x ]

  abbrev pub comparison_of : ℕ → Pricing N → N → N → Comparison N
  comparison_of item_id pricing market_price cost =
      let profit = minus market_price cost in
      record {
        item_id = item_id;
        market_price = market_price;
        crafting_cost = cost;
        profit = profit;
        profit_margin = times (over profit cost) (of_ℕ 100);
        is_profitable = true;
        recipe_id = pricing.recipe_id;
        rank = pricing.rank;
      }

  unfoldable pub passes : CraftOptions N → Comparison N → Bool
  passes o c =
      lt (of_ℕ 0) c.profit && meets o.min_margin c.profit_margin && meets o.min_profit c.profit

  -- One derivative, with its market price and its cost, if they are known and not nought.
  abbrev pub craft_if : CraftOptions N → ℕ → Pricing N → Option N → Option N → List (Comparison N)
  craft_if o item_id pricing none cost = []
  craft_if o item_id pricing (some price) none = []
  craft_if o item_id pricing (some price) (some cost) =
      let c = comparison_of item_id pricing price cost in if passes o c then c ∷ [] else []

  unfoldable pub crafts_of_derivatives :
      Database N
      → CraftOptions N
      → Pricing N
      → CraftingCost N
      → List (Entry N)
      → List (Comparison N)
  crafts_of_derivatives db o pricing cost [] = []
  crafts_of_derivatives db o pricing cost (d ∷ ds) =
      craft_if o (entry_item d) pricing (truthy num (get_market_price num db.market (entry_item d)))
        (truthy num (map_get (entry_item d) cost.cost_per_unit))
      ++ crafts_of_derivatives db o pricing cost ds

  -- Enough of the reagents have a price, and the cost is within the limit.
  unfoldable pub is_acceptable : CraftOptions N → CraftingCost N → Bool
  is_acceptable o cost =
      not (lt cost.confidence (decimal num 5 10))
      && not (exceeds o.max_crafting_cost cost.total_cost)

  abbrev pub crafts_of_cost :
      Database N
      → CraftOptions N
      → Pricing N
      → Option (CraftingCost N)
      → Option (List (Entry N))
      → List (Comparison N)
  crafts_of_cost db o pricing none ds = []
  crafts_of_cost db o pricing (some cost) none = []
  crafts_of_cost db o pricing (some cost) (some ds) =
      if is_acceptable o cost then crafts_of_derivatives db o pricing cost ds else []

  unfoldable pub crafts_of_pricings :
      Database N → CraftOptions N → List (Pricing N) → List (Comparison N)
  crafts_of_pricings db o [] = []
  crafts_of_pricings db o (p ∷ ps) =
      crafts_of_cost db o p (calculate_crafting_cost num db.market p) p.derivatives
      ++ crafts_of_pricings db o ps

  unfoldable pub by_margin : Comparison N → Comparison N → Bool
  by_margin a b = not (lt (of_ℕ 0) (minus b.profit_margin a.profit_margin))

  unfoldable pub find_profitable_crafts : Database N → CraftOptions N → List (Comparison N)
  find_profitable_crafts db o = elim (db.recipes o.expansion o.profession) [
    | none ↦ []
    | some ps ↦ sort by_margin (crafts_of_pricings db o ps)
  ]

  abbrev pub recipe_of : Option (Pricing N) → Option ℕ
  recipe_of none = none
  recipe_of (some p) = p.recipe_id

  abbrev pub rank_of_pricing : Option (Pricing N) → Option ℕ
  rank_of_pricing none = none
  rank_of_pricing (some p) = p.rank

  unfoldable pub compare_market_vs_crafting : Database N → ℕ → Option (Comparison N)
  compare_market_vs_crafting db item_id =
      elim (truthy num (get_market_price num db.market item_id)) [
        | none ↦ none
        | some price ↦
            elim (best_of (is_cheaper num)
              (gather_crafting_methods num db.market (db.producing item_id) item_id)) [
                | none ↦ none
                | some cheapest ↦
                    let cost = cheapest.calculated_value in
                    let profit = minus price cost in
                    some (record {
                      item_id = item_id;
                      market_price = price;
                      crafting_cost = cost;
                      profit = profit;
                      profit_margin = times (over profit cost) (of_ℕ 100);
                      is_profitable = lt (of_ℕ 0) profit;
                      recipe_id = recipe_of cheapest.pricing;
                      rank = rank_of_pricing cheapest.pricing;
                    })
              ]
      ]

  abbrev pub same_id : Option ℕ → Option ℕ → Bool
  same_id none none = true
  same_id (some a) (some b) = a == b
  same_id _ _ = false

  -- The confidence of the crafting method of the recipe, or nought.
  unfoldable pub confidence_for : Option ℕ → List (Method N) → N
  confidence_for recipe_id [] = of_ℕ 0
  confidence_for recipe_id (m ∷ ms) =
      let rest = confidence_for recipe_id ms in
      if is_crafting m.source && same_id (recipe_of m.pricing) recipe_id then m.confidence else rest

  abbrev pub vendor_price_of : Option (Item N) → Option N
  vendor_price_of none = none
  vendor_price_of (some i) = i.vendor_sell_price

  -- The options of the realm's job.
  abbrev pub job_options : CraftOptions N
  job_options = record {
    min_margin = some (of_ℕ 5);
    min_profit = some (of_ℕ 100);
    max_crafting_cost = none;
    expansion = none;
    profession = none;
  }

  abbrev pub full_options : Options N
  full_options = record {
    include_vendor = none;
    include_crafting = some true;
    include_reverse = some true;
    min_confidence = none;
  }

  unfoldable pub row_of : ℕ → ℕ → List (ℕ × Item N) → Comparison N → Evaluation N → Row N
  row_of realm now items c e = record {
    item_id = c.item_id;
    connected_realm_id = realm;
    market_price = c.market_price;
    crafting_cost = c.crafting_cost;
    vendor_sell_price = vendor_price_of (map_get c.item_id items);
    profit = c.profit;
    profit_margin = c.profit_margin;
    is_profitable = c.is_profitable;
    best_recipe_id = c.recipe_id;
    recipe_rank = c.rank;
    recommendations = e.recommendations;
    confidence = confidence_for c.recipe_id e.methods;
    market_volume = e.market_volume;
    timestamp = now;
  }

  -- The rows of all crafts, or `none` where the evaluation of one throws.
  unfoldable pub rows_of :
      Database N → ℕ → ℕ → List (ℕ × Item N) → List (Comparison N) → Option (List (Row N))
  rows_of db realm now items [] = some []
  rows_of db realm now items (c ∷ cs) = elim (evaluate_item_pricing num db c.item_id full_options) [
    | none ↦ none
    | some e ↦ elim (rows_of db realm now items cs) [
      | none ↦ none
      | some rs ↦ some (row_of realm now items c e ∷ rs)
    ]
  ]

  -- The table after the save, and the count; after the deletion only, if there are no rows or if
  -- their save fails.
  abbrev pub save_rows :
      (List (Row N) → Bool) → List (Row N) → Option (List (Row N)) → List (Row N) × ℕ
  save_rows save_fails table none = (table, 0)
  save_rows save_fails table (some rs) =
      if save_fails rs then (table, 0) else (table ++ rs, length rs)

  abbrev pub items_map : List (Item N) → List (ℕ × Item N)
  items_map = map_of (λ i. i.id) []

  unfoldable pub replace_rows :
      Database N → TableCommands N → ℕ → ℕ → List (Row N) → List (Comparison N) → List (Row N) × ℕ
  replace_rows db commands realm now table [] = (table, 0)
  replace_rows db commands realm now table (c ∷ cs) =
      let left = keep (λ r. not (r.connected_realm_id == realm)) table in
      let replaced : List (Row N) × ℕ = elim (db.items (map (λ x. x.item_id) (c ∷ cs))) [
        | none ↦ (left, 0)
        | some is ↦
            save_rows commands.save_fails left (rows_of db realm now (items_map is) (c ∷ cs))
      ] in
      if commands.delete_fails then (table, 0) else replaced

  unfoldable pub evaluate_realm_profitability :
      Database N → TableCommands N → ℕ → ℕ → List (Row N) → List (Row N) × ℕ
  evaluate_realm_profitability db commands realm now table =
      replace_rows db commands realm now table (find_profitable_crafts db job_options)

  -- The realms one after the other, each with its queries; no realm stops the others.
  unfoldable pub scheduled_evaluation_job :
      (ℕ → Database N) → (ℕ → TableCommands N) → ℕ → List ℕ → List (Row N) → List (Row N) × ℕ
  scheduled_evaluation_job db commands now [] table = (table, 0)
  scheduled_evaluation_job db commands now (realm ∷ realms) table =
      let (table', n) = evaluate_realm_profitability (db realm) (commands realm) realm now table in
      let (table'', m) = scheduled_evaluation_job db commands now realms table' in (table'', n + m)
