-- ===== src/Valuations/Stages.antt =====
-- The stages of buildAssetClasses in apps/market/src/services/xva.service.ts. A stage is skipped if
-- the key of its state is in Redis. The hash of a text, the parsing of JSON and `toLowerCase` are parameters, as are
-- the updates that the database refuses; queries and the commands of Redis are taken to succeed, and
-- keys do not expire within a run.
use cmnw.Prelude.{
  ℕ, Bool, true, Option, none, some, List, [], ◌∷◌, ◌++◌, length, if◌then◌else◌, Text, codes,
}
use cmnw.Valuations.Items.{
  Item, Run, done, threw, ◌>>=◌, includes, batch_size, for_chunks, update_item,
  add_asset_class_to_item, batch_add_asset_class, append_where,
}
use cmnw.Valuations.Store.{
  MarketRow, Entry, JsonField, json_text, json_list, json_other, PricingRow, Store, Stage, pricing,
  auctions, premium, currency, tags, vsp, stage_name, BuildArgs, state_data, item_ids, is_commodity,
  is_auction, distinct_item_ids, premium_ids, vsp_ids, Json, json_array, json_scalar,
}
use cmnw.Valuations.Tags.{tag_updates}

-- A run over the items, in the store.
abbrev pub in_store : Store → Run (List Item) → Run Store
in_store s (done items) = done (record s { items = items })
in_store s (threw items) = threw (record s { items = items })

abbrev pub on_items : (List Item → Run (List Item)) → Store → Run Store
on_items f s = in_store s (f s.items)

abbrev pub add_where : (MarketRow → Bool) → Text → Store → Store
add_where p cls s = record s { items = append_where cls (distinct_item_ids p s.market) s.items }

unfoldable pub add_market_asset_class : Store → Store
add_market_asset_class = add_where (λ r. true) (codes "MARKET")

unfoldable pub add_commodity_asset_class : Store → Store
add_commodity_asset_class = add_where is_commodity (codes "COMMDTY")

unfoldable pub add_item_asset_class : Store → Store
add_item_asset_class = add_where is_auction (codes "ITEM")

abbrev pub when : Bool → (Store → Store) → Store → Store
when b f s = if b then f s else s

unfoldable pub auctions_body : BuildArgs → Store → Run Store
auctions_body args s = done (
    when args.is_item_class add_item_asset_class (
      when args.is_commodity_class add_commodity_asset_class
        (when args.is_market_class add_market_asset_class s)))

abbrev pub enabled : Bool → (Store → Run Store) → Store → Run Store
enabled b stage s = if b then stage s else done s

module _ (md5 : Text → Text) where
  unfoldable pub stage_key : Stage → Store → Text
  stage_key stage s =
      codes "VALUATION_STAGE_PROCESSED:"
      ++ (stage_name stage ++ (codes ":" ++ md5 (state_data stage s)))

  unfoldable pub is_stage_processed : Stage → Store → Bool
  is_stage_processed stage s = includes (stage_key stage s) s.processed

  -- The key is that of the state after the stage.
  unfoldable pub mark_stage_as_processed : Stage → Store → Store
  mark_stage_as_processed stage s = record s { processed = stage_key stage s ∷ s.processed }

  -- What every stage has in common: the skip, the body and the mark.
  unfoldable pub run_stage : Stage → (Store → Run Store) → Store → Run Store
  run_stage stage body s =
      if is_stage_processed stage s
      then done s
      else (body s >>= λ s'. done (mark_stage_as_processed stage s'))

-- `JSON.parse`, which may throw.
module _ (parse_json : Text → Option Json) where
  -- `none` stands for a value without `forEach`.
  unfoldable pub parse_json_field : JsonField → Option (List Entry)
  parse_json_field (json_text t) = elim (parse_json t) [
    | none ↦ some []
    | some (json_array es) ↦ some es
    | some json_scalar ↦ none
  ]
  parse_json_field (json_list es) = some es
  parse_json_field json_other = some []

  abbrev pub field_ids : Option (List Entry) → Option (List ℕ)
  field_ids none = none
  field_ids (some es) = item_ids es

  abbrev pub append_ids : Option (List ℕ) → Option (List ℕ) → Option (List ℕ)
  append_ids none more = none
  append_ids (some is) none = none
  append_ids (some is) (some more) = some (is ++ more)

  -- The ids in a column of all rows, or `none` where one throws.
  unfoldable pub collect_ids : (PricingRow → Option JsonField) → List PricingRow → Option (List ℕ)
  collect_ids field [] = some []
  collect_ids field (p ∷ ps) = elim (field p) [
    | none ↦ collect_ids field ps
    | some f ↦ append_ids (field_ids (parse_json_field f)) (collect_ids field ps)
  ]

-- `toLowerCase` is a parameter.
module _ (lower : Text → Text) (refuses_tags : ℕ → Bool) where
  unfoldable pub update_tags : ℕ × List Text → List Item → Run (List Item)
  update_tags (i, ts) items =
      if refuses_tags i
      then threw items
      else done (update_item i (λ x. record x { tags = some ts }) items)

  unfoldable pub tags_body : Store → Run Store
  tags_body s =
      let updates = tag_updates lower s.items in
      on_items (for_chunks (length updates) batch_size update_tags updates) s

module _ (refuses : ℕ → Text → Bool) where
  -- A column that cannot be read throws before any update.
  unfoldable pub add_pricing_classes : Option (List ℕ) → Option (List ℕ) → Store → Run Store
  add_pricing_classes none rs s = threw s
  add_pricing_classes (some ds) none s = threw s
  add_pricing_classes (some ds) (some rs) s =
      on_items
        (λ items.
          batch_add_asset_class refuses ds (codes "DERIVATIVE") items
          >>= batch_add_asset_class refuses rs (codes "REAGENT"))
        s

  unfoldable pub pricing_body : (Text → Option Json) → Store → Run Store
  pricing_body parse_json s =
      add_pricing_classes (collect_ids parse_json (λ p. p.derivatives) s.pricings)
        (collect_ids parse_json (λ p. p.reagents) s.pricings) s

  unfoldable pub premium_body : Store → Run Store
  premium_body s =
      on_items (batch_add_asset_class refuses (premium_ids s.items) (codes "PREMIUM")) s

  unfoldable pub currency_body : Store → Run Store
  currency_body = on_items λ items.
      add_asset_class_to_item refuses (codes "WOWTOKEN") 122270 items
      >>= add_asset_class_to_item refuses (codes "WOWTOKEN") 122284
      >>= add_asset_class_to_item refuses (codes "GOLD") 1

  unfoldable pub vsp_body : Store → Run Store
  vsp_body s = on_items (batch_add_asset_class refuses (vsp_ids s.items) (codes "VSP")) s

module _ (md5 : Text → Text) (parse_json : Text → Option Json) (refuses : ℕ → Text → Bool)
    (lower : Text → Text) (refuses_tags : ℕ → Bool) where
  unfoldable pub build_asset_classes_from_pricing : Store → Run Store
  build_asset_classes_from_pricing = run_stage md5 pricing (pricing_body refuses parse_json)

  unfoldable pub build_asset_classes_from_auctions : BuildArgs → Store → Run Store
  build_asset_classes_from_auctions args = run_stage md5 auctions (auctions_body args)

  unfoldable pub build_asset_classes_for_premium : Store → Run Store
  build_asset_classes_for_premium = run_stage md5 premium (premium_body refuses)

  unfoldable pub build_asset_classes_for_currency : Store → Run Store
  build_asset_classes_for_currency = run_stage md5 currency (currency_body refuses)

  unfoldable pub add_to_asset_class_vsp : Store → Run Store
  add_to_asset_class_vsp = run_stage md5 vsp (vsp_body refuses)

  unfoldable pub build_tags : Store → Run Store
  build_tags = run_stage md5 tags (tags_body lower refuses_tags)

  -- A stage that throws ends the run, and the error is caught.
  unfoldable pub run_stages : BuildArgs → Store → Run Store
  run_stages args s =
      enabled args.is_by_pricing build_asset_classes_from_pricing s
      >>= enabled args.is_by_auctions (build_asset_classes_from_auctions args)
      >>= enabled args.is_by_premium build_asset_classes_for_premium
      >>= enabled args.is_by_currency build_asset_classes_for_currency
      >>= add_to_asset_class_vsp
      >>= enabled args.is_by_tags build_tags
