-- ===== src/Evaluation/Examples.antt =====
-- A sword that is made of two bars, on numbers of thousandths.
use cmnw.Prelude.{
  false, ℕ, ◌*◌, ◌/◌, ◌+◌, ◌-◌, ◌≡◌, ◌⊎◌, ◌↔◌, refl, arith, true, Option, none, some, List, [], ◌∷◌,
  ◌==◌, ltb, if◌then◌else◌, keep, any, map, Memᴰ, codes, map_get, map_set,
}
use cmnw.Evaluation.Numbers.{Number, IsOrdered, is_truthy, truthy}
use cmnw.Evaluation.Prices.{
  Market, Valuation, batch_get_market_prices, get_market_price, latest_valuations, is_newer,
  prices_of_valuations, fill_from_orders,
}
use cmnw.Evaluation.Costs.{
  Entry, bare, object, Pricing, CraftingCost, entry_item, calculate_crafting_cost, crafting_cost_of,
  add_reagents, unit_costs,
}
use cmnw.Evaluation.Methods.{
  is_crafting, is_cheaper, gather_crafting_methods, crafting_methods, best_of, best_from,
}
use cmnw.Evaluation.Item.{Options, Item, Database, Evaluation, evaluate_item, evaluate_item_pricing}
use cmnw.Evaluation.Crafts.{
  Comparison, Row, job_options, find_profitable_crafts, compare_market_vs_crafting, TableCommands,
}
use cmnw.Evaluation.Ranking.{IsSorted}
use cmnw.Evaluation.Best.{IsBest, is_dearer, evaluate_item_pricing-IsBest}
use cmnw.Evaluation.Totals.{IsCostOf, calculate_crafting_cost-IsCostOf}
use cmnw.Evaluation.Found.{IsCraft}
use cmnw.Evaluation.Profit.{MarginFirst, find_profitable_crafts_iff}
use cmnw.Evaluation.Table.{compare_market_vs_crafting_iff}

abbrev thousandths : Number ℕ
thousandths = record {
  of_ℕ = λ n. n * 1000;
  plus = λ a b. a + b;
  minus = λ a b. a - b;
  times = λ a b. a * b / 1000;
  over = λ a b. a * 1000 / b;
  lt = ltb;
  same = ◌==◌;
}

split : (a b c : ℕ) → ltb a c ≡ true → (ltb a b ≡ true) ⊎ (ltb b c ≡ true)
split a b c h = ground arith

thousandths-IsOrdered : IsOrdered thousandths
thousandths-IsOrdered = record {
  lt_irrefl = λ a. ground arith;
  lt_trans = λ a b c h k. ground arith;
  lt_split = split;
  same-eq = λ a b. ground arith;
  lt-minus = λ a b. ground arith;
}

abbrev price_of_item : ℕ → Option ℕ
price_of_item i = if i == 1 then some 300000 else if i == 10 then some 50000 else none

abbrev valuation_of : ℕ → Valuation ℕ
valuation_of i = record { item_id = i; timestamp = 5; market = price_of_item i }

abbrev market : Market ℕ
market = record {
  valuation = λ i. some (some (valuation_of i));
  orders = λ i. some [];
  valuations = λ is. some (map valuation_of is);
  many_orders = λ is. some [];
}

abbrev sword_recipe : Pricing ℕ
sword_recipe = record {
  recipe_id = some 77;
  spell_id = none;
  rank = some 1;
  expansion = none;
  profession = some (codes "smith");
  reagents = some (object 10 2000 none ∷ []);
  derivatives = some (bare 1 ∷ []);
}

abbrev sword : Item ℕ
sword = record { id = 1; vendor_sell_price = some 20000 }

abbrev db : Database ℕ
db = record {
  market = market;
  item = λ i. some (some sword);
  items = λ is. some (sword ∷ []);
  producing = λ i. some (sword_recipe ∷ []);
  consuming = λ i. some [];
  recipes = λ e p. some (sword_recipe ∷ []);
}

abbrev options : Options ℕ
options = record {
  include_vendor = some true;
  include_crafting = none;
  include_reverse = none;
  min_confidence = some 500;
}

abbrev evaluation : Evaluation ℕ
evaluation = evaluate_item thousandths db 1 sword options

evaluated : evaluate_item_pricing thousandths db 1 options ≡ some evaluation
unfolding evaluate_item_pricing
evaluated = refl

evaluate_item_pricing-IsBest_example :
    IsBest (is_cheaper thousandths) evaluation.methods evaluation.best_for_buying
    × IsBest
        (is_dearer thousandths thousandths-IsOrdered)
        evaluation.methods
        evaluation.best_for_selling
    × IsBest
        (is_cheaper thousandths)
        (keep (λ m. is_crafting m.source) evaluation.methods)
        evaluation.best_for_crafting
evaluate_item_pricing-IsBest_example =
    evaluate_item_pricing-IsBest thousandths thousandths-IsOrdered db 1 options evaluated

abbrev bars : List (Entry ℕ)
bars = object 10 2000 none ∷ []

abbrev prices : List (ℕ × ℕ)
prices = batch_get_market_prices thousandths market (map entry_item bars)

abbrev cost : CraftingCost ℕ
cost = crafting_cost_of thousandths sword_recipe bars (bare 1 ∷ []) prices

costed : calculate_crafting_cost thousandths market sword_recipe ≡ some cost
unfolding calculate_crafting_cost
costed = refl

calculate_crafting_cost-IsCostOf_example : IsCostOf thousandths cost prices bars
calculate_crafting_cost-IsCostOf_example =
    calculate_crafting_cost-IsCostOf thousandths market sword_recipe bars refl costed

find_profitable_crafts_iff_example :
    let found = find_profitable_crafts thousandths db (job_options thousandths) in
    ((c : Comparison ℕ)
      → Memᴰ c found ↔ IsCraft thousandths db (job_options thousandths) (sword_recipe ∷ []) c)
    × IsSorted (MarginFirst thousandths thousandths-IsOrdered) found
    × ((c : Comparison ℕ) → Memᴰ c found → ltb c.crafting_cost c.market_price ≡ true)
find_profitable_crafts_iff_example =
    find_profitable_crafts_iff thousandths thousandths-IsOrdered db (job_options thousandths)
      (sword_recipe ∷ []) refl

abbrev gain : Comparison ℕ
gain = record {
  item_id = 1;
  market_price = 300000;
  crafting_cost = 100000;
  profit = 200000;
  profit_margin = 200000;
  is_profitable = true;
  recipe_id = some 77;
  rank = some 1;
}

compared : compare_market_vs_crafting thousandths db 1 ≡ some gain
unfolding compare_market_vs_crafting get_market_price truthy is_truthy gather_crafting_methods
    crafting_methods calculate_crafting_cost crafting_cost_of add_reagents unit_costs
    batch_get_market_prices latest_valuations is_newer prices_of_valuations fill_from_orders map_get
    map_set best_of best_from
compared = refl

compare_market_vs_crafting_iff_example :
    true
    ≡ any
        (λ m. ltb m.calculated_value 300000)
        (gather_crafting_methods thousandths market (some (sword_recipe ∷ [])) 1)
compare_market_vs_crafting_iff_example =
    compare_market_vs_crafting_iff thousandths thousandths-IsOrdered db 1 compared

-- A row of another realm, and an old one of this realm.
abbrev row : ℕ → Row ℕ
row realm = record {
  item_id = 1;
  connected_realm_id = realm;
  market_price = 300000;
  crafting_cost = 1;
  vendor_sell_price = none;
  profit = 299999;
  profit_margin = 1;
  is_profitable = true;
  best_recipe_id = none;
  recipe_rank = none;
  recommendations = [];
  confidence = 0;
  market_volume = none;
  timestamp = 1;
}

abbrev commands : TableCommands ℕ
commands = record { delete_fails = false; save_fails = λ rs. false }
