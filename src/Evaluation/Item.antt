-- ===== src/Evaluation/Item.antt =====
-- evaluateItemPricing, with the recommendations as data: the numbers of a text before they are
-- written out.
use cmnw.Prelude.{
  ℕ, Bool, true, false, not, Option, none, some, List, [], ◌∷◌, ◌++◌, keep, if◌then◌else◌, Text,
}
use cmnw.Evaluation.Numbers.{Number, truthy, decimal}
use cmnw.Evaluation.Prices.{Market, get_market_price, get_market_volume}
use cmnw.Evaluation.Costs.{Pricing}
use cmnw.Evaluation.Methods.{
  Source, Method, is_crafting, is_reverse, is_cheaper, best_of, rank_pricing_methods,
  find_best_for_buying, find_best_for_selling, find_best_for_crafting, gather_crafting_methods,
  gather_reverse_methods,
}

-- EvaluationOptions, less what is not read.
pub record Options (N : Type 0) : Type 0 where
  pub include_vendor : Option Bool
  pub include_crafting : Option Bool
  pub include_reverse : Option Bool
  pub min_confidence : Option N

-- ItemsEntity, less what is only passed on.
pub record Item (N : Type 0) : Type 0 where
  pub id : ℕ
  pub vendor_sell_price : Option N

-- The queries on one connected realm; `none` where one throws. The pricings are those that produce
-- an item, those that use it up, and all recipes of an expansion and a profession.
pub record Database (N : Type 0) : Type 0 where
  pub market : Market N
  pub item : ℕ → Option (Option (Item N))
  pub items : List ℕ → Option (List (Item N))
  pub producing : ℕ → Option (List (Pricing N))
  pub consuming : ℕ → Option (List (Pricing N))
  pub recipes : Option Text → Option Text → Option (List (Pricing N))

pub data Recommendation (N : Type 0) : Type 0 where
  no_pricing_data : Recommendation N
  crafting_is_profitable : N → N → Recommendation N
  crafting_is_not_profitable : Recommendation N
  processing_is_profitable : Option Text → N → Recommendation N
  below_vendor_value : Recommendation N

-- ItemEvaluation, less the ids, the time and what is copied from the item.
pub record Evaluation (N : Type 0) : Type 0 where
  pub methods : List (Method N)
  pub best_for_buying : Option (Method N)
  pub best_for_selling : Option (Method N)
  pub best_for_crafting : Option (Method N)
  pub current_market_price : Option N
  pub market_volume : Option N
  pub recommendations : List (Recommendation N)

-- `x !== false`
abbrev pub is_not_false : Option Bool → Bool
is_not_false none = true
is_not_false (some b) = b

-- A truthy option.
abbrev pub is_set : Option Bool → Bool
is_set none = false
is_set (some b) = b

module _ {N : Type 0} (num : Number N) where
  open num use {of_ℕ, minus, times, over, lt}

  abbrev pub priced : Source → N → Option N → List (Method N)
  priced source confidence none = []
  priced source confidence (some price) =
      record { source = source; pricing = none; calculated_value = price; confidence = confidence }
      ∷ []

  -- All methods, in the order in which they are pushed.
  unfoldable pub gather_methods : Database N → ℕ → Item N → Options N → List (Method N)
  gather_methods db item_id item o =
      (if is_not_false o.include_vendor
        then priced Source.market (decimal num 9 10)
            (truthy num (get_market_price num db.market item_id))
        else [])
      ++ (if is_set o.include_vendor
          then priced Source.vendor (of_ℕ 1) (truthy num item.vendor_sell_price)
          else [])
      ++ (if is_not_false o.include_crafting
          then gather_crafting_methods num db.market (db.producing item_id) item_id
          else [])
      ++ (if is_not_false o.include_reverse
          then gather_reverse_methods num db.market (db.consuming item_id) item_id
          else [])

  unfoldable pub filter_methods : Option N → List (Method N) → List (Method N)
  filter_methods none ms = ms
  filter_methods (some least) ms = keep (λ m. not (lt m.confidence least)) ms

  unfoldable pub crafting_recommendation : Option (Method N) → Option N → List (Recommendation N)
  crafting_recommendation none price = []
  crafting_recommendation (some m) none = []
  crafting_recommendation (some m) (some price) =
      let profit = minus price m.calculated_value in
      if lt (of_ℕ 0) profit
      then crafting_is_profitable profit (times (over profit m.calculated_value) (of_ℕ 100)) ∷ []
      else crafting_is_not_profitable ∷ []

  abbrev pub profession_of : Option (Pricing N) → Option Text
  profession_of none = none
  profession_of (some p) = p.profession

  unfoldable pub reverse_recommendations : List (Method N) → Option N → List (Recommendation N)
  reverse_recommendations [] price = []
  reverse_recommendations (m ∷ ms) none = []
  reverse_recommendations (m ∷ ms) (some price) =
      let rest = reverse_recommendations ms (some price) in
      if lt price m.calculated_value
      then processing_is_profitable (profession_of m.pricing) (minus m.calculated_value price)
        ∷ rest
      else rest

  unfoldable pub vendor_recommendation : Option N → Option N → List (Recommendation N)
  vendor_recommendation none price = []
  vendor_recommendation (some vendor) none = []
  vendor_recommendation (some vendor) (some price) =
      if lt price (times vendor (decimal num 8 10)) then below_vendor_value ∷ [] else []

  unfoldable pub generate_recommendations :
      List (Method N) → Option N → Option N → List (Recommendation N)
  generate_recommendations [] market_price vendor_sell_price = no_pricing_data ∷ []
  generate_recommendations (m ∷ ms) market_price vendor_sell_price =
      let price = truthy num market_price in
      crafting_recommendation (best_of (is_cheaper num) (keep (λ n. is_crafting n.source) (m ∷ ms)))
        price
      ++ reverse_recommendations (keep (λ n. is_reverse n.source) (m ∷ ms)) price
      ++ vendor_recommendation (truthy num vendor_sell_price) price

  unfoldable pub evaluate_item : Database N → ℕ → Item N → Options N → Evaluation N
  evaluate_item db item_id item o =
      let methods =
        rank_pricing_methods num
          (filter_methods o.min_confidence (gather_methods db item_id item o)) in
      let price = get_market_price num db.market item_id in
      record {
        methods = methods;
        best_for_buying = find_best_for_buying num methods;
        best_for_selling = find_best_for_selling num methods;
        best_for_crafting = find_best_for_crafting num methods;
        current_market_price = price;
        market_volume = get_market_volume num db.market item_id;
        recommendations = generate_recommendations methods price item.vendor_sell_price;
      }

  -- `none` where it throws: the query of the item does, or gives none.
  unfoldable pub evaluate_item_pricing : Database N → ℕ → Options N → Option (Evaluation N)
  evaluate_item_pricing db item_id o = elim (db.item item_id) [
    | none ↦ none
    | some none ↦ none
    | some (some item) ↦ some (evaluate_item db item_id item o)
  ]
