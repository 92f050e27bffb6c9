-- ===== src/Valuations/Examples.antt =====
-- Two items with a price and a market between them, and a ticker with two parts.
use cmnw.Prelude.{
  ℕ, Bool, true, false, Option, none, some, List, [], ◌∷◌, ◌≡◌, refl, if◌then◌else◌, Text, codes,
  any, ◌==◌, show, ◌||◌, map, to_lower, truthy_number, truthy_text, same_text,
}
use cmnw.Valuations.Items.{
  Item, done, for_each, for_chunks, find_item, update_item, add_to_found, add_asset_class_to_item,
  batch_add_asset_class, unique, append_where, includes, lacks, append_class, state_of,
}
use cmnw.Valuations.Store.{
  Store, entry_number, entry_object, json_list, pricing, BuildArgs, state_data, distinct_item_ids,
  premium_ids, item_ids, Json,
}
use cmnw.Valuations.Tags.{
  build_tags_for_item, split_dots, set_fields, add_tags, old_tags, tag_sources, ticker_parts,
}
use cmnw.Valuations.Stages.{
  run_stage, build_asset_classes_from_pricing, build_asset_classes_for_premium, is_stage_processed,
  stage_key, mark_stage_as_processed, pricing_body, add_pricing_classes, premium_body, collect_ids,
  parse_json_field, add_market_asset_class, run_stages,
}
use cmnw.Valuations.Classes.{classified, on_some}
use cmnw.Valuations.Growth.{Extended, IsDistinct}
use cmnw.Valuations.Runs.{run_stages-Extended}
use cmnw.Valuations.Skips.{
  build_asset_classes_from_pricing_total, build_asset_classes_for_premium-same_count,
  add_market_asset_class-find,
}
use cmnw.Valuations.Tagged.{build_tags_for_item-includes, is_text_of}

abbrev item_with : ℕ → Option (List Text) → Item
item_with i cs = record {
  id = i;
  asset_class = cs;
  tags = none;
  vendor_sell_price = some 3;
  loot_type = some (codes "ON_ACQUIRE");
  expansion = some (codes "TWW");
  profession_class = none;
  item_class = some [];
  item_sub_class = none;
  quality = none;
  ticker = some (codes "ORE.Q1");
}

abbrev store : Store
store = record {
  items = item_with 1 none ∷ item_with 2 (some []) ∷ [];
  market =
      record { item_id = 1; type = codes "COMMDTY" }
      ∷ record { item_id = 2; type = codes "AUCTION" }
      ∷ [];
  pricings =
      record {
        derivatives = some (json_list (entry_number 2 ∷ []));
        reagents =
            some
              (json_list (entry_object (some 1) ∷ entry_object (some 1) ∷ entry_object none ∷ []));
      }
      ∷ [];
  latest_pricing = codes "t";
  latest_market = [];
  processed = [];
}

abbrev hash_text : Text → Text
hash_text t = t

abbrev no_json : Text → Option Json
no_json t = none

abbrev never : ℕ → Text → Bool
never i t = false

abbrev lower_text : Text → Text
lower_text = map to_lower

abbrev never_tags : ℕ → Bool
never_tags i = false

abbrev priced : Store
priced = record store {
  items =
      item_with 1 (some (codes "REAGENT" ∷ [])) ∷ item_with 2 (some (codes "DERIVATIVE" ∷ [])) ∷ [];
  processed = codes "VALUATION_STAGE_PROCESSED:pricing:1:t" ∷ [];
}

prices :
    build_asset_classes_from_pricing hash_text no_json never lower_text never_tags store
    ≡ done priced
unfolding build_asset_classes_from_pricing run_stage is_stage_processed stage_key state_data
    mark_stage_as_processed pricing_body collect_ids parse_json_field item_ids batch_add_asset_class
    unique for_chunks for_each add_asset_class_to_item add_to_found find_item update_item show
    truthy_number add_pricing_classes
prices = refl

tagged :
    build_tags_for_item lower_text (item_with 2 (some (codes "REAGENT" ∷ [])))
    ≡ codes "tww" ∷ codes "reagent" ∷ codes "ore" ∷ codes "q1" ∷ []
unfolding build_tags_for_item tag_sources set_fields split_dots add_tags old_tags truthy_text
tagged = refl

-- The first item has no column of classes, and stays without one although it is in the market.
at_market :
    (add_market_asset_class store).items
    ≡ item_with 1 none ∷ item_with 2 (some (codes "MARKET" ∷ [])) ∷ []
unfolding add_market_asset_class append_where distinct_item_ids unique
at_market = refl

unprocessed : is_stage_processed hash_text pricing store ≡ false
unfolding is_stage_processed
unprocessed = refl

accepts : (i : ℕ) (c : Text) → never i c ≡ false
accepts i c = refl

read_derivatives : collect_ids no_json (λ p. p.derivatives) store.pricings ≡ some (2 ∷ [])
unfolding collect_ids parse_json_field item_ids truthy_number
read_derivatives = refl

read_reagents : collect_ids no_json (λ p. p.reagents) store.pricings ≡ some (1 ∷ 1 ∷ [])
unfolding collect_ids parse_json_field item_ids truthy_number
read_reagents = refl

build_asset_classes_from_pricing_total_example :
    (t : Store) × (build_asset_classes_from_pricing hash_text no_json never lower_text never_tags
        store
      ≡ done t)
    × (is_stage_processed hash_text pricing t ≡ true)
    × ((j : ℕ)
        → find_item j t.items
          ≡ classified
              (1 ∷ 1 ∷ [])
              (codes "REAGENT")
              j
              (classified (2 ∷ []) (codes "DERIVATIVE") j (find_item j store.items)))
build_asset_classes_from_pricing_total_example =
    build_asset_classes_from_pricing_total hash_text no_json never lower_text never_tags store
      (2 ∷ []) (1 ∷ 1 ∷ []) read_derivatives read_reagents accepts unprocessed

abbrev args : BuildArgs
args = record {
  is_by_pricing = true;
  is_by_auctions = true;
  is_by_premium = true;
  is_by_currency = true;
  is_by_tags = true;
  is_market_class = true;
  is_commodity_class = true;
  is_item_class = true;
}

run_stages-Extended_example :
    Extended store.items
      (state_of (run_stages hash_text no_json never lower_text never_tags args store)).items
run_stages-Extended_example =
    run_stages-Extended hash_text no_json never lower_text never_tags args store

-- No item is premium yet, and the stage is done.
abbrev without_premium : Store
without_premium = record store {
  processed = codes "VALUATION_STAGE_PROCESSED:premium:2:premium" ∷ [];
}

-- An item has become a reagent that binds when it is acquired.
abbrev with_reagent : Store
with_reagent = record priced { processed = without_premium.processed }

nothing_premium :
    build_asset_classes_for_premium hash_text no_json never lower_text never_tags store
    ≡ done without_premium
unfolding build_asset_classes_for_premium run_stage is_stage_processed stage_key state_data
    mark_stage_as_processed premium_body premium_ids batch_add_asset_class unique for_chunks show
nothing_premium = refl

-- It is not given the class.
build_asset_classes_for_premium-same_count_example :
    build_asset_classes_for_premium hash_text no_json never lower_text never_tags with_reagent
    ≡ done with_reagent
build_asset_classes_for_premium-same_count_example =
    build_asset_classes_for_premium-same_count hash_text no_json never lower_text never_tags store
      without_premium with_reagent nothing_premium refl refl

add_market_asset_class-find_example : find_item 1 (add_market_asset_class store).items ≡ (
    if any (λ r. r.item_id == 1) store.market
    then on_some
        (λ x. if lacks (codes "MARKET") x.asset_class then append_class (codes "MARKET") x else x)
        (find_item 1 store.items)
    else find_item 1 store.items)
add_market_asset_class-find_example = add_market_asset_class-find store 1

build_tags_for_item-includes_example :
    IsDistinct (build_tags_for_item lower_text (item_with 2 none))
    × ((u : Text)
        → includes u (build_tags_for_item lower_text (item_with 2 none)) ≡ (
            (is_text_of lower_text u (some (codes "TWW"))
              || (is_text_of lower_text u none
                  || (is_text_of lower_text u (some [])
                      || (is_text_of lower_text u none
                          || (is_text_of lower_text u none
                              || (any (λ c. same_text u (lower_text c)) []
                                  || any
                                      (λ p. same_text u (lower_text p))
                                      (ticker_parts (item_with 2 none))))))))
            || includes u []))
build_tags_for_item-includes_example = build_tags_for_item-includes lower_text (item_with 2 none)
