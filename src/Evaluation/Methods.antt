-- ===== src/Evaluation/Methods.antt =====
-- The ways to price an item: their ranking and the best ones, and the methods from recipes.
use cmnw.Prelude.{
  ℕ, ◌++◌, Bool, true, false, not, Option, none, some, List, [], ◌∷◌, ◌==◌, map_get, keep,
  if◌then◌else◌,
}
use cmnw.Evaluation.Numbers.{Number, truthy}
use cmnw.Evaluation.Prices.{Market}
use cmnw.Evaluation.Costs.{
  Entry, Pricing, CraftingCost, ReverseValue, entry_item, quantity_or, calculate_crafting_cost,
  calculate_reverse_pricing_value,
}

-- PricingMethodSource
pub data Source : Type 0 where
  crafting reverse market vendor : Source

-- PricingMethod, less its metadata, which repeat the pricing and its cost. A market price, a
-- vendor's price and a type are given by the source.
pub record Method (N : Type 0) : Type 0 where
  pub source : Source
  pub pricing : Option (Pricing N)
  pub calculated_value : N
  pub confidence : N

abbrev pub is_crafting : Source → Bool
is_crafting Source.crafting = true
is_crafting _ = false

abbrev pub is_reverse : Source → Bool
is_reverse Source.reverse = true
is_reverse _ = false

-- `Array.prototype.sort`, which is stable: the test says that one element may stand before another.
module _ {A : Type 0} (before : A → A → Bool) where
  unfoldable pub insert_sorted : A → List A → List A
  insert_sorted x [] = x ∷ []
  insert_sorted x (y ∷ ys) = if before x y then x ∷ y ∷ ys else y ∷ insert_sorted x ys

  unfoldable pub sort : List A → List A
  sort [] = []
  sort (x ∷ xs) = insert_sorted x (sort xs)

-- `Array.prototype.reduce` that takes the later element where a test says so.
module _ {A : Type 0} (better : A → A → Bool) where
  unfoldable pub best_from : A → List A → A
  best_from best [] = best
  best_from best (x ∷ xs) = best_from (if better x best then x else best) xs

  unfoldable pub best_of : List A → Option A
  best_of [] = none
  best_of (x ∷ xs) = some (best_from x xs)

module _ {N : Type 0} (num : Number N) where
  open num use {of_ℕ, minus, over, lt, same}

  -- The comparison of rankPricingMethods.
  unfoldable pub compare_methods : Method N → Method N → N
  compare_methods a b =
      if not (same a.confidence b.confidence)
      then minus b.confidence a.confidence
      else minus a.calculated_value b.calculated_value

  unfoldable pub rank_pricing_methods : List (Method N) → List (Method N)
  rank_pricing_methods = sort (λ a b. not (lt (of_ℕ 0) (compare_methods a b)))

  abbrev pub is_cheaper : Method N → Method N → Bool
  is_cheaper a b = lt a.calculated_value b.calculated_value

  unfoldable pub find_best_for_buying : List (Method N) → Option (Method N)
  find_best_for_buying = best_of is_cheaper

  unfoldable pub find_best_for_selling : List (Method N) → Option (Method N)
  find_best_for_selling = best_of (λ a b. is_cheaper b a)

  unfoldable pub find_best_for_crafting : List (Method N) → Option (Method N)
  find_best_for_crafting ms = best_of is_cheaper (keep (λ m. is_crafting m.source) ms)

  -- The method of one recipe, if its cost for the item is known and not nought.
  abbrev pub crafting_method : ℕ → Pricing N → Option (CraftingCost N) → List (Method N)
  crafting_method item_id pricing none = []
  crafting_method item_id pricing (some c) = elim (truthy num (map_get item_id c.cost_per_unit)) [
    | none ↦ []
    | some cost ↦
        record {
          source = Source.crafting;
          pricing = some pricing;
          calculated_value = cost;
          confidence = c.confidence;
        }
        ∷ []
  ]

  unfoldable pub crafting_methods : Market N → ℕ → List (Pricing N) → List (Method N)
  crafting_methods db item_id [] = []
  crafting_methods db item_id (p ∷ ps) =
      crafting_method item_id p (calculate_crafting_cost num db p) ++ crafting_methods db item_id ps

  -- `pricings` is what the query gives, or `none` where it throws.
  unfoldable pub gather_crafting_methods :
      Market N → Option (List (Pricing N)) → ℕ → List (Method N)
  gather_crafting_methods db none item_id = []
  gather_crafting_methods db (some ps) item_id = crafting_methods db item_id ps

  unfoldable pub find_entry : ℕ → List (Entry N) → Option (Entry N)
  find_entry item_id [] = none
  find_entry item_id (e ∷ es) = if entry_item e == item_id then some e else find_entry item_id es

  abbrev pub reverse_method :
      ℕ → Pricing N → Option (ReverseValue N) → Option (List (Entry N)) → List (Method N)
  reverse_method item_id pricing none rs = []
  reverse_method item_id pricing (some v) none = []
  reverse_method item_id pricing (some v) (some rs) = elim (find_entry item_id rs) [
    | none ↦ []
    | some r ↦
        record {
          source = Source.reverse;
          pricing = some pricing;
          calculated_value = over v.expected_value (quantity_or (of_ℕ 1) r);
          confidence = v.confidence;
        }
        ∷ []
  ]

  unfoldable pub reverse_methods : Market N → ℕ → List (Pricing N) → List (Method N)
  reverse_methods db item_id [] = []
  reverse_methods db item_id (p ∷ ps) =
      reverse_method item_id p (calculate_reverse_pricing_value num db p) p.reagents
      ++ reverse_methods db item_id ps

  unfoldable pub gather_reverse_methods : Market N → Option (List (Pricing N)) → ℕ → List (Method N)
  gather_reverse_methods db none item_id = []
  gather_reverse_methods db (some ps) item_id = reverse_methods db item_id ps
