-- ===== src/Evaluation/Prices.antt =====
-- The prices of the market: getMarketPrice, getMarketVolume, batchGetMarketPrices and
-- calculateWeightedAverage. A query that throws gives `none`.
use cmnw.Prelude.{
  ℕ, Bool, true, not, Option, none, some, List, [], ◌∷◌, ◌++◌, map_get, map_set, keep, is_some,
  if◌then◌else◌, ltb,
}
use cmnw.Evaluation.Numbers.{Number, truthy}

-- ValuationEntity, less what is not read.
pub record Valuation (N : Type 0) : Type 0 where
  pub item_id : ℕ
  pub timestamp : ℕ
  pub market : Option N

-- MarketEntity, less what is not read.
pub record Order (N : Type 0) : Type 0 where
  pub item_id : ℕ
  pub price : N
  pub quantity : Option N

-- The queries on one connected realm: the latest valuation of an item, its first hundred orders,
-- the valuations and the first thousand orders of several items.
pub record Market (N : Type 0) : Type 0 where
  pub valuation : ℕ → Option (Option (Valuation N))
  pub orders : ℕ → Option (List (Order N))
  pub valuations : List ℕ → Option (List (Valuation N))
  pub many_orders : List ℕ → Option (List (Order N))

module _ {N : Type 0} (num : Number N) where
  open num use {of_ℕ, plus, times, over, lt}

  -- `x || d`
  abbrev pub or_else : Option N → N → N
  or_else x d = elim (truthy num x) [ none ↦ d | some a ↦ a ]

  unfoldable pub weigh : List (Order N) → N → N → N × N
  weigh [] value amount = (value, amount)
  weigh (m ∷ ms) value amount =
      let q = or_else m.quantity (of_ℕ 1) in weigh ms (plus value (times m.price q)) (plus amount q)

  unfoldable pub calculate_weighted_average : List (Order N) → N
  calculate_weighted_average [] = of_ℕ 0
  calculate_weighted_average (m ∷ ms) =
      let (value, amount) = weigh (m ∷ ms) (of_ℕ 0) (of_ℕ 0) in
      if lt (of_ℕ 0) amount then over value amount else of_ℕ 0

  -- The average of the orders, if there are any.
  unfoldable pub average_of : Option (List (Order N)) → Option N
  average_of none = none
  average_of (some []) = none
  average_of (some (m ∷ ms)) = some (calculate_weighted_average (m ∷ ms))

  unfoldable pub get_market_price : Market N → ℕ → Option N
  get_market_price db item_id = elim (db.valuation item_id) [
    | none ↦ none
    | some none ↦ average_of (db.orders item_id)
    | some (some v) ↦ elim (truthy num v.market) [
      | some price ↦ some price
      | none ↦ average_of (db.orders item_id)
    ]
  ]

  unfoldable pub total_quantity : N → List (Order N) → N
  total_quantity sum [] = sum
  total_quantity sum (m ∷ ms) = total_quantity (plus sum (or_else m.quantity (of_ℕ 0))) ms

  unfoldable pub get_market_volume : Market N → ℕ → Option N
  get_market_volume db item_id = elim (db.orders item_id) [
    | none ↦ none
    | some [] ↦ none
    | some (m ∷ ms) ↦ some (total_quantity (of_ℕ 0) (m ∷ ms))
  ]

  -- The most recent valuation of each item.
  unfoldable pub is_newer : Valuation N → Option (Valuation N) → Bool
  is_newer v none = true
  is_newer v (some w) = ltb w.timestamp v.timestamp

  unfoldable pub latest_valuations :
      List (Valuation N) → List (ℕ × Valuation N) → List (ℕ × Valuation N)
  latest_valuations [] m = m
  latest_valuations (v ∷ vs) m =
      latest_valuations vs (if is_newer v (map_get v.item_id m) then map_set v.item_id v m else m)

  unfoldable pub prices_of_valuations : List (ℕ × Valuation N) → List (ℕ × N) → List (ℕ × N)
  prices_of_valuations [] prices = prices
  prices_of_valuations ((item_id, v) ∷ vs) prices =
      prices_of_valuations vs
        (elim (truthy num v.market) [ none ↦ prices | some price ↦ map_set item_id price prices ])

  abbrev pub orders_in : Option (List (Order N)) → List (Order N)
  orders_in none = []
  orders_in (some ms) = ms

  unfoldable pub group_orders :
      List (Order N) → List (ℕ × List (Order N)) → List (ℕ × List (Order N))
  group_orders [] groups = groups
  group_orders (m ∷ ms) groups =
      group_orders ms (map_set m.item_id (orders_in (map_get m.item_id groups) ++ m ∷ []) groups)

  unfoldable pub prices_of_groups : List (ℕ × List (Order N)) → List (ℕ × N) → List (ℕ × N)
  prices_of_groups [] prices = prices
  prices_of_groups ((item_id, ms) ∷ gs) prices =
      prices_of_groups gs (elim (truthy num (some (calculate_weighted_average ms))) [
        | none ↦ prices
        | some price ↦ map_set item_id price prices
      ])

  -- A query that throws leaves the prices that are there.
  unfoldable pub fill_from_orders : Market N → List ℕ → List (ℕ × N) → List (ℕ × N)
  fill_from_orders db [] prices = prices
  fill_from_orders db (i ∷ is) prices = elim (db.many_orders (i ∷ is)) [
    | none ↦ prices
    | some ms ↦ prices_of_groups (group_orders ms []) prices
  ]

  unfoldable pub batch_get_market_prices : Market N → List ℕ → List (ℕ × N)
  batch_get_market_prices db [] = []
  batch_get_market_prices db (i ∷ is) = elim (db.valuations (i ∷ is)) [
    | none ↦ []
    | some vs ↦
        let prices = prices_of_valuations (latest_valuations vs []) [] in
        fill_from_orders db (keep (λ j. not (is_some (map_get j prices))) (i ∷ is)) prices
  ]
