-- ===== src/Valuations/Runs.antt =====
-- What a whole run of the stages leaves.
use cmnw.Prelude.{ℕ, Bool, true, false, Option, List, Text, Bool-cases, inl, inr, some, none}
use cmnw.Valuations.Items.{Item, Run, done, threw, state_of}
use cmnw.Valuations.Store.{
  Json, Store, Stage, pricing, auctions, premium, currency, tags, vsp, BuildArgs,
}
use cmnw.Valuations.Tags.{tag_updates}
use cmnw.Valuations.Stages.{
  on_items, in_store, when, enabled, add_market_asset_class, add_commodity_asset_class,
  add_item_asset_class, auctions_body, is_stage_processed, mark_stage_as_processed, run_stage,
  update_tags, tags_body, pricing_body, add_pricing_classes, premium_body, currency_body, vsp_body,
  build_asset_classes_from_pricing, build_asset_classes_from_auctions,
  build_asset_classes_for_premium, build_asset_classes_for_currency, add_to_asset_class_vsp,
  build_tags, run_stages,
}
use cmnw.Valuations.Growth.{
  Extended, Extended-refl, Extended-trans, IsGrowing, table, then-IsGrowing, add-IsGrowing,
  batch-IsGrowing, batched-IsGrowing, append_where-Extended, update_tags-IsGrowing,
}

in_store-Extended :
    (s : Store) (r : Run (List Item))
    → Extended s.items (state_of r)
    → Extended s.items (state_of (in_store s r)).items
in_store-Extended s (done xs) h = h
in_store-Extended s (threw xs) h = h

on_items-Extended :
    {f : List Item → Run (List Item)} (s : Store)
    → IsGrowing table f
    → Extended s.items (state_of (on_items f s)).items
on_items-Extended {f} s h = in_store-Extended s (f s.items) (h.grows s.items)

-- A stage that keeps the classes.
abbrev items_of : Store → List Item
items_of s = s.items

run_stage-IsGrowing :
    (md5 : Text → Text) (stage : Stage) {body : Store → Run Store}
    → IsGrowing items_of body
    → IsGrowing items_of (run_stage md5 stage body)
unfolding run_stage mark_stage_as_processed
run_stage-IsGrowing md5 stage {body} h = record {
  grows = λ s. elim (Bool-cases (is_stage_processed md5 stage s)) [
    | inl skip ↦ rw skip (Extended-refl s.items)
    | inr go ↦ rw go (
        (then-IsGrowing items_of h (record {
          grows = λ t.
              let m : Extended t.items (mark_stage_as_processed md5 stage t).items =
                Extended-refl t.items in
              m;
        })).grows
          s)
  ];
}

enabled-IsGrowing :
    (b : Bool) {stage : Store → Run Store}
    → IsGrowing items_of stage
    → IsGrowing items_of (enabled b stage)
enabled-IsGrowing true h = record { grows = h.grows }
enabled-IsGrowing false h = record { grows = λ s. Extended-refl s.items }

when-Extended :
    (b : Bool) (f : Store → Store) (s : Store)
    → ((t : Store) → Extended t.items (f t).items)
    → Extended s.items (when b f s).items
when-Extended true f s h = h s
when-Extended false f s h = Extended-refl s.items

auctions-IsGrowing : (args : BuildArgs) → IsGrowing items_of (auctions_body args)
unfolding auctions_body add_market_asset_class add_commodity_asset_class add_item_asset_class
auctions-IsGrowing args = record {
  grows = λ s.
      Extended-trans _ _ _
        (Extended-trans _ _ _
          (when-Extended args.is_market_class add_market_asset_class s
            (λ t. append_where-Extended _ _ t.items))
          (when-Extended args.is_commodity_class add_commodity_asset_class _
            (λ t. append_where-Extended _ _ t.items)))
        (when-Extended args.is_item_class add_item_asset_class _
          (λ t. append_where-Extended _ _ t.items));
}

module _ (refuses : ℕ → Text → Bool) where
  pricing_classes-Extended :
      (ds rs : Option (List ℕ)) (s : Store)
      → Extended s.items (state_of (add_pricing_classes refuses ds rs s)).items
  unfolding add_pricing_classes
  pricing_classes-Extended none rs s = Extended-refl s.items
  pricing_classes-Extended (some ds) none s = Extended-refl s.items
  pricing_classes-Extended (some ds) (some rs) s =
      on_items-Extended s
        (then-IsGrowing table (batch-IsGrowing refuses _ _) (batch-IsGrowing refuses _ _))

  pricing-IsGrowing :
      (parse_json : Text → Option Json) → IsGrowing items_of (pricing_body refuses parse_json)
  unfolding pricing_body
  pricing-IsGrowing parse_json = record { grows = λ s. pricing_classes-Extended _ _ s }

  premium-IsGrowing : IsGrowing items_of (premium_body refuses)
  unfolding premium_body
  premium-IsGrowing = record { grows = λ s. on_items-Extended s (batch-IsGrowing refuses _ _) }

  vsp-IsGrowing : IsGrowing items_of (vsp_body refuses)
  unfolding vsp_body
  vsp-IsGrowing = record { grows = λ s. on_items-Extended s (batch-IsGrowing refuses _ _) }

  currency-IsGrowing : IsGrowing items_of (currency_body refuses)
  unfolding currency_body
  currency-IsGrowing = record {
    grows = λ s. on_items-Extended s (
        then-IsGrowing table
          (then-IsGrowing table (add-IsGrowing refuses _ _) (add-IsGrowing refuses _ _))
          (add-IsGrowing refuses _ _));
  }

tags-IsGrowing :
    (lower : Text → Text) (refuses_tags : ℕ → Bool)
    → IsGrowing items_of (tags_body lower refuses_tags)
unfolding tags_body
tags-IsGrowing lower refuses_tags = record {
  grows = λ s. on_items-Extended s (
      batched-IsGrowing (update_tags lower refuses_tags) (update_tags-IsGrowing lower refuses_tags)
        (tag_updates lower s.items));
}

-- Whatever the stages that are asked for, the keys that are there, and the updates that the database
-- refuses: every item is still found under its id afterwards, has every class that it had, and has
-- no class twice if it had none twice.
pub run_stages-Extended :
    (md5 : Text → Text) (parse_json : Text → Option Json) (refuses : ℕ → Text → Bool)
    (lower : Text → Text) (refuses_tags : ℕ → Bool) (args : BuildArgs) (s : Store)
    → Extended s.items
        (state_of (run_stages md5 parse_json refuses lower refuses_tags args s)).items
unfolding run_stages build_asset_classes_from_pricing build_asset_classes_from_auctions
    build_asset_classes_for_premium build_asset_classes_for_currency add_to_asset_class_vsp
    build_tags
run_stages-Extended md5 parse_json refuses lower refuses_tags args s =
    (then-IsGrowing items_of
        (then-IsGrowing items_of
          (then-IsGrowing items_of
            (then-IsGrowing items_of
              (then-IsGrowing items_of
                (enabled-IsGrowing args.is_by_pricing
                  (run_stage-IsGrowing md5 pricing (pricing-IsGrowing refuses parse_json)))
                (enabled-IsGrowing args.is_by_auctions
                  (run_stage-IsGrowing md5 auctions (auctions-IsGrowing args))))
              (enabled-IsGrowing args.is_by_premium
                (run_stage-IsGrowing md5 premium (premium-IsGrowing refuses))))
            (enabled-IsGrowing args.is_by_currency
              (run_stage-IsGrowing md5 currency (currency-IsGrowing refuses))))
          (run_stage-IsGrowing md5 vsp (vsp-IsGrowing refuses)))
        (enabled-IsGrowing args.is_by_tags
          (run_stage-IsGrowing md5 tags (tags-IsGrowing lower refuses_tags)))).grows
      s
