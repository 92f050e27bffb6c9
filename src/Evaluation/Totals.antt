-- ===== src/Evaluation/Totals.antt =====
-- What the loops over the entries of a pricing leave.
use cmnw.Prelude.{
  some_inj, none_ne_some, ℕ, suc, ◌+◌, ◌-◌, ◌≡◌, sym, ap, ◌∙◌, subst, arith, Option, none, some,
  List, [], ◌∷◌, ◌++◌, map, length,
}
use mathlib.Core.List.{append-nil, append_assoc}
use cmnw.Evaluation.Numbers.{Number}
use cmnw.Evaluation.Prices.{Market, batch_get_market_prices}
use cmnw.Evaluation.Costs.{
  Entry, Pricing, ReagentCost, CraftingCost, Costs, entry_item, quantity_or, price_of, add_reagent,
  add_reagents, no_costs, crafting_cost_of, crafting_cost_if, calculate_crafting_cost,
}

plus_zero : (n : ℕ) → n ≡ n + 0
plus_zero n = omega arith

plus_suc : (n k : ℕ) → (n + 1) + k ≡ n + suc k
plus_suc n k = omega arith

module _ {N : Type 0} (num : Number N) where
  open num use {of_ℕ, plus, times, over}

  -- The sum of the costs, from the first to the last.
  pub sum_of : N → List (ReagentCost N) → N
  sum_of total [] = total
  sum_of total (c ∷ cs) = sum_of (plus total c.cost) cs

  abbrev pub cost_of : Entry N → Option N → List (ReagentCost N)
  cost_of e none = []
  cost_of e (some price) =
      record {
        item_id = entry_item e;
        cost = times price (quantity_or (of_ℕ 1) e);
        quantity = quantity_or (of_ℕ 1) e;
        market_price = price;
      }
      ∷ []

  abbrev pub unpriced_of : Entry N → Option N → List ℕ
  unpriced_of e none = entry_item e ∷ []
  unpriced_of e (some price) = []

  -- The cost of each entry with a price.
  pub costs_of : List (ℕ × N) → List (Entry N) → List (ReagentCost N)
  costs_of prices [] = []
  costs_of prices (e ∷ es) = cost_of e (price_of num prices e) ++ costs_of prices es

  -- The items of the entries with no price.
  pub unpriced : List (ℕ × N) → List (Entry N) → List ℕ
  unpriced prices [] = []
  unpriced prices (e ∷ es) = unpriced_of e (price_of num prices e) ++ unpriced prices es

  abbrev after : Costs N → List (ReagentCost N) → List ℕ → Costs N
  after s cs is = record {
    total = sum_of s.total cs;
    costs = s.costs ++ cs;
    missing = s.missing ++ is;
    missing_count = s.missing_count + length is;
  }

  -- The loop adds to its variables what these say.
  add_reagents_lem :
      (prices : List (ℕ × N)) (es : List (Entry N)) (s : Costs N)
      → add_reagents num prices es s ≡ after s (costs_of prices es) (unpriced prices es)
  unfolding add_reagents sum_of costs_of unpriced
  add_reagents_lem prices [] s = λ i. record {
    total = s.total;
    costs = sym (append-nil s.costs) i;
    missing = sym (append-nil s.missing) i;
    missing_count = plus_zero s.missing_count i;
  }
  add_reagents_lem prices (e ∷ es) s =
      elim (price_of num prices e)
        as (λ p.
          add_reagents num prices es (add_reagent num e p s)
          ≡ after s (cost_of e p ++ costs_of prices es) (unpriced_of e p ++ unpriced prices es)) [
            | none ↦ add_reagents_lem prices es (add_reagent num e none s) ∙ λ i. record {
              total = sum_of s.total (costs_of prices es);
              costs = s.costs ++ costs_of prices es;
              missing = append_assoc s.missing (entry_item e ∷ []) (unpriced prices es) i;
              missing_count = plus_suc s.missing_count (length (unpriced prices es)) i;
            }
            | some p ↦ add_reagents_lem prices es (add_reagent num e (some p) s) ∙ λ i. record {
              total = sum_of s.total (cost_of e (some p) ++ costs_of prices es);
              costs = append_assoc s.costs (cost_of e (some p)) (costs_of prices es) i;
              missing = s.missing ++ unpriced prices es;
              missing_count = s.missing_count + length (unpriced prices es);
            }
          ]

  length-costs_of :
      (prices : List (ℕ × N)) (es : List (Entry N))
      → length (costs_of prices es) + length (unpriced prices es) ≡ length es
  unfolding costs_of unpriced
  length-costs_of prices [] = omega arith
  length-costs_of prices (e ∷ es) =
      elim (price_of num prices e)
        as (λ p.
          length (cost_of e p ++ costs_of prices es)
            + length (unpriced_of e p ++ unpriced prices es)
          ≡ suc (length es)) [
            | none ↦ omega (arith, length-costs_of prices es)
            | some p ↦ omega (arith, length-costs_of prices es)
          ]

  -- What a cost says of the reagents.
  abbrev pub IsCostOf : CraftingCost N → List (ℕ × N) → List (Entry N) → Type 0
  IsCostOf c prices rs =
      (c.reagent_costs ≡ costs_of prices rs)
      × (c.missing_data ≡ unpriced prices rs)
      × (c.total_cost ≡ sum_of (of_ℕ 0) c.reagent_costs)
      × (c.confidence ≡ over (of_ℕ (length c.reagent_costs)) (of_ℕ (length rs)))

  priced_count : (m n k : ℕ) → m + n ≡ k → k - (0 + n) ≡ m
  priced_count m n k h = omega arith

  crafting_cost_of-IsCostOf :
      (pricing : Pricing N) (rs ds : List (Entry N)) (prices : List (ℕ × N))
      → IsCostOf (crafting_cost_of num pricing rs ds prices) prices rs
  unfolding crafting_cost_of
  crafting_cost_of-IsCostOf pricing rs ds prices =
      let e = add_reagents_lem prices rs (no_costs num) in
      let costs = ap (λ s. s.costs) e in
      let count = ap (λ s. s.missing_count) e in
      (
        costs,
        ap (λ s. s.missing) e,
        ap (λ s. s.total) e ∙ ap (sum_of (of_ℕ 0)) (sym costs),
        ap (λ n. over (of_ℕ n) (of_ℕ (length rs)))
            (ap (λ n. length rs - n) count
              ∙ (priced_count (length (costs_of prices rs)) (length (unpriced prices rs))
                    (length rs) (length-costs_of prices rs)
                  ∙ sym (ap length costs))),
      )

  crafting_cost_if-IsCostOf :
      (db : Market N) (pricing : Pricing N) (rs : List (Entry N)) (ds : Option (List (Entry N)))
      {c : CraftingCost N}
      → crafting_cost_if num db pricing (some rs) ds ≡ some c
      → IsCostOf c (batch_get_market_prices num db (map entry_item rs)) rs
  crafting_cost_if-IsCostOf db pricing [] ds e = absurd (none_ne_some e)
  crafting_cost_if-IsCostOf db pricing (r ∷ rs) none e = absurd (none_ne_some e)
  crafting_cost_if-IsCostOf db pricing (r ∷ rs) (some ds) e =
      subst (λ c. IsCostOf c (batch_get_market_prices num db (map entry_item (r ∷ rs))) (r ∷ rs))
        (some_inj e) (crafting_cost_of-IsCostOf pricing (r ∷ rs) ds _)

  -- The cost of a recipe is the sum over its reagents with a price, each of which is listed; the
  -- others are the missing data; and the confidence is the share of the reagents with a price.
  pub calculate_crafting_cost-IsCostOf :
      (db : Market N) (pricing : Pricing N) (rs : List (Entry N)) {c : CraftingCost N}
      → pricing.reagents ≡ some rs
      → calculate_crafting_cost num db pricing ≡ some c
      → IsCostOf c (batch_get_market_prices num db (map entry_item rs)) rs
  unfolding calculate_crafting_cost
  calculate_crafting_cost-IsCostOf db pricing rs {c} h r =
      crafting_cost_if-IsCostOf db pricing rs pricing.derivatives
        (subst (λ w. crafting_cost_if num db pricing w pricing.derivatives ≡ some c) h r)
