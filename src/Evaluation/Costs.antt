-- ===== src/Evaluation/Costs.antt =====
-- calculateCraftingCost and calculateReversePricingValue. The columns of a pricing are read as
-- lists, parsed where they are texts; `none` for a result is null, also where the source throws.
use cmnw.Prelude.{
  ℕ, ◌-◌, ◌+◌, Option, none, some, List, [], ◌∷◌, ◌++◌, map, map_get, map_set, if◌then◌else◌,
  length, Text,
}
use cmnw.Evaluation.Numbers.{Number, truthy}
use cmnw.Evaluation.Prices.{Market, batch_get_market_prices, or_else}

-- An entry of a column: the id of an item, or an object (less its least and greatest amounts).
pub data Entry (N : Type 0) : Type 0 where
  bare : ℕ → Entry N
  object : ℕ → N → Option N → Entry N

-- PricingEntity, less what is not read.
pub record Pricing (N : Type 0) : Type 0 where
  pub recipe_id : Option ℕ
  pub spell_id : Option ℕ
  pub rank : Option ℕ
  pub expansion : Option Text
  pub profession : Option Text
  pub reagents : Option (List (Entry N))
  pub derivatives : Option (List (Entry N))

pub record ReagentCost (N : Type 0) : Type 0 where
  pub item_id : ℕ
  pub cost : N
  pub quantity : N
  pub market_price : N

pub record CraftingCost (N : Type 0) : Type 0 where
  pub recipe_id : Option ℕ
  pub total_cost : N
  pub reagent_costs : List (ReagentCost N)
  pub derivatives : List (ℕ × N)
  pub cost_per_unit : List (ℕ × N)
  pub missing_data : List ℕ
  pub confidence : N

pub record DerivativeValue (N : Type 0) : Type 0 where
  pub item_id : ℕ
  pub quantity : N
  pub mat_rate : Option N
  pub value : N

pub record ReverseValue (N : Type 0) : Type 0 where
  pub recipe_id : Option ℕ
  pub spell_id : Option ℕ
  pub profession : Option Text
  pub expected_value : N
  pub total_cost : N
  pub derivatives : List (DerivativeValue N)
  pub profit_margin : N
  pub profit_percentage : N
  pub confidence : N

-- The variables of the loop over the reagents.
pub record Costs (N : Type 0) : Type 0 where
  pub total : N
  pub costs : List (ReagentCost N)
  pub missing : List ℕ
  pub missing_count : ℕ

-- The variables of the loop over the derivatives.
pub record Yields (N : Type 0) : Type 0 where
  pub expected : N
  pub values : List (DerivativeValue N)
  pub missing_count : ℕ

module _ {N : Type 0} where
  abbrev pub entry_item : Entry N → ℕ
  entry_item (bare i) = i
  entry_item (object i q r) = i

  -- The quantity, with what stands for it where the entry is an id.
  abbrev pub quantity_or : N → Entry N → N
  quantity_or d (bare i) = d
  quantity_or d (object i q r) = q

  -- The quantity, if it is given, and the rate.
  abbrev pub rate_of : N → Entry N → Option N
  rate_of d (bare i) = some d
  rate_of d (object i q r) = r

module _ {N : Type 0} (num : Number N) where
  open num use {of_ℕ, plus, minus, times, over, lt}

  -- The price of an entry, if it is known and not nought.
  abbrev pub price_of : List (ℕ × N) → Entry N → Option N
  price_of prices e = truthy num (map_get (entry_item e) prices)

  -- One reagent: with a price, or missing.
  abbrev pub add_reagent : Entry N → Option N → Costs N → Costs N
  add_reagent e (some price) s =
      let quantity = quantity_or (of_ℕ 1) e in
      let cost = times price quantity in
      record s {
        total = plus s.total cost;
        costs =
            s.costs
            ++ record {
              item_id = entry_item e;
              cost = cost;
              quantity = quantity;
              market_price = price;
            }
              ∷ [];
      }
  add_reagent e none s = record s {
    missing = s.missing ++ entry_item e ∷ [];
    missing_count = s.missing_count + 1;
  }

  unfoldable pub add_reagents : List (ℕ × N) → List (Entry N) → Costs N → Costs N
  add_reagents prices [] s = s
  add_reagents prices (e ∷ es) s = add_reagents prices es (add_reagent e (price_of prices e) s)

  unfoldable pub unit_costs : N → List (Entry N) → List (ℕ × N) → List (ℕ × N)
  unit_costs total [] costs = costs
  unit_costs total (d ∷ ds) costs =
      let quantity = quantity_or (of_ℕ 1) d in
      unit_costs total ds
        (if lt (of_ℕ 0) quantity then map_set (entry_item d) (over total quantity) costs else costs)

  abbrev pub no_costs : Costs N
  no_costs = record { total = of_ℕ 0; costs = []; missing = []; missing_count = 0 }

  -- The share of the entries that have a price.
  abbrev pub confidence_of : ℕ → ℕ → N
  confidence_of entries missing = over (of_ℕ (entries - missing)) (of_ℕ entries)

  unfoldable pub crafting_cost_of :
      Pricing N → List (Entry N) → List (Entry N) → List (ℕ × N) → CraftingCost N
  crafting_cost_of pricing reagents derivatives prices =
      let s = add_reagents prices reagents no_costs in
      record {
        recipe_id = pricing.recipe_id;
        total_cost = s.total;
        reagent_costs = s.costs;
        derivatives = map (λ d. (entry_item d, quantity_or (of_ℕ 1) d)) derivatives;
        cost_per_unit = unit_costs s.total derivatives [];
        missing_data = s.missing;
        confidence = confidence_of (length reagents) s.missing_count;
      }

  -- A recipe with no reagents has no cost; one with no derivatives throws in the loop over them.
  abbrev pub crafting_cost_if :
      Market N
      → Pricing N
      → Option (List (Entry N))
      → Option (List (Entry N))
      → Option (CraftingCost N)
  crafting_cost_if db pricing none ds = none
  crafting_cost_if db pricing (some []) ds = none
  crafting_cost_if db pricing (some (r ∷ rs)) none = none
  crafting_cost_if db pricing (some (r ∷ rs)) (some ds) = some (
      crafting_cost_of pricing (r ∷ rs) ds
        (batch_get_market_prices num db (map entry_item (r ∷ rs))))

  unfoldable pub calculate_crafting_cost : Market N → Pricing N → Option (CraftingCost N)
  calculate_crafting_cost db pricing =
      crafting_cost_if db pricing pricing.reagents pricing.derivatives

  abbrev pub add_derivative : Entry N → Option N → Yields N → Yields N
  add_derivative e (some price) s =
      let quantity = quantity_or (of_ℕ 0) e in
      let rate = rate_of (of_ℕ 1) e in
      let value = times (times quantity (or_else num rate (of_ℕ 1))) price in
      record s {
        expected = plus s.expected value;
        values =
            s.values
            ++ record {
              item_id = entry_item e;
              quantity = quantity;
              mat_rate = rate;
              value = value;
            }
              ∷ [];
      }
  add_derivative e none s = record s {
    missing_count = s.missing_count + 1;
    values =
        s.values
        ++ record {
          item_id = entry_item e;
          quantity = quantity_or (of_ℕ 0) e;
          mat_rate = rate_of (of_ℕ 1) e;
          value = of_ℕ 0;
        }
          ∷ [];
  }

  unfoldable pub add_derivatives : List (ℕ × N) → List (Entry N) → Yields N → Yields N
  add_derivatives prices [] s = s
  add_derivatives prices (e ∷ es) s =
      add_derivatives prices es (add_derivative e (price_of prices e) s)

  unfoldable pub input_cost : List (ℕ × N) → List (Entry N) → N → N
  input_cost prices [] total = total
  input_cost prices (e ∷ es) total = input_cost prices es (
      plus total
        (times (or_else num (map_get (entry_item e) prices) (of_ℕ 0)) (quantity_or (of_ℕ 1) e)))

  unfoldable pub reverse_value_of :
      Pricing N → List (Entry N) → List (Entry N) → List (ℕ × N) → List (ℕ × N) → ReverseValue N
  reverse_value_of pricing derivatives reagents prices reagent_prices =
      let s =
        add_derivatives prices derivatives
          (record { expected = of_ℕ 0; values = []; missing_count = 0 }) in
      let total = input_cost reagent_prices reagents (of_ℕ 0) in
      let margin = minus s.expected total in
      record {
        recipe_id = pricing.recipe_id;
        spell_id = pricing.spell_id;
        profession = pricing.profession;
        expected_value = s.expected;
        total_cost = total;
        derivatives = s.values;
        profit_margin = margin;
        profit_percentage =
            if lt (of_ℕ 0) total then times (over margin total) (of_ℕ 100) else of_ℕ 0;
        confidence = confidence_of (length derivatives) s.missing_count;
      }

  -- A pricing with no derivatives has no value; one with no reagents throws when their ids are read.
  abbrev pub reverse_value_if :
      Market N
      → Pricing N
      → Option (List (Entry N))
      → Option (List (Entry N))
      → Option (ReverseValue N)
  reverse_value_if db pricing none rs = none
  reverse_value_if db pricing (some []) rs = none
  reverse_value_if db pricing (some (d ∷ ds)) none = none
  reverse_value_if db pricing (some (d ∷ ds)) (some rs) = some (
      reverse_value_of pricing (d ∷ ds) rs
        (batch_get_market_prices num db (map entry_item (d ∷ ds)))
        (batch_get_market_prices num db (map entry_item rs)))

  unfoldable pub calculate_reverse_pricing_value : Market N → Pricing N → Option (ReverseValue N)
  calculate_reverse_pricing_value db pricing =
      reverse_value_if db pricing pricing.derivatives pricing.reagents
