-- ===== src/Valuations/Store.antt =====
-- The tables that the stages of apps/market/src/services/xva.service.ts read, the keys of the
-- stages, and the queries for the ids of items.
use cmnw.Prelude.{
  ℕ, Bool, true, false, ◌&&◌, ◌==◌, ltb, Option, none, some, List, [], ◌∷◌, ◌++◌, keep, map, length,
  if◌then◌else◌, Text, codes, same_text, show, truthy_number,
}
use cmnw.Valuations.Items.{Item, includes, unique, lacks}

-- MarketEntity, in so far as it is read here.
pub record MarketRow : Type 0 where
  pub item_id : ℕ
  pub type : Text

-- An entry of a column of JSON: an object with an `itemId`, a number, or null. The type of the column
-- has no texts as entries.
pub data Entry : Type 0 where
  entry_object : Option ℕ → Entry
  entry_number : ℕ → Entry
  entry_null : Entry

-- What a text is parsed to: a list, or a value without `forEach`.
pub data Json : Type 0 where
  json_array : List Entry → Json
  json_scalar : Json

-- A column that is a text, a list, or anything else.
pub data JsonField : Type 0 where
  json_text : Text → JsonField
  json_list : List Entry → JsonField
  json_other : JsonField

-- PricingEntity, in so far as it is read here.
pub record PricingRow : Type 0 where
  pub derivatives : Option JsonField
  pub reagents : Option JsonField

-- The tables, the dates of the latest rows as texts, and the keys in Redis.
pub record Store : Type 0 where
  pub items : List Item
  pub market : List MarketRow
  pub pricings : List PricingRow
  pub latest_pricing : Text
  pub latest_market : Text
  pub processed : List Text

pub data Stage : Type 0 where
  pricing auctions premium currency tags vsp : Stage

abbrev pub stage_name : Stage → Text
stage_name pricing = codes "pricing"
stage_name auctions = codes "auctions"
stage_name premium = codes "premium"
stage_name currency = codes "currency"
stage_name tags = codes "tags"
stage_name vsp = codes "vsp"

-- IAssetClassBuildArgs, and the flags of the configuration.
pub record BuildArgs : Type 0 where
  pub is_by_pricing : Bool
  pub is_by_auctions : Bool
  pub is_by_premium : Bool
  pub is_by_currency : Bool
  pub is_by_tags : Bool
  pub is_market_class : Bool
  pub is_commodity_class : Bool
  pub is_item_class : Bool

abbrev pub items_state : Stage → Store → Text
items_state stage s = show (length s.items) ++ (codes ":" ++ stage_name stage)

unfoldable pub state_data : Stage → Store → Text
state_data pricing s = show (length s.pricings) ++ (codes ":" ++ s.latest_pricing)
state_data auctions s = show (length s.market) ++ (codes ":" ++ s.latest_market)
state_data premium s = items_state premium s
state_data currency s = items_state currency s
state_data tags s = items_state tags s
state_data vsp s = items_state vsp s

-- `if (itemId)`
abbrev pub push_id : Option ℕ → Option (List ℕ) → Option (List ℕ)
push_id i none = none
push_id none (some is) = some is
push_id (some i) (some is) = some (i ∷ is)

-- The ids of the entries, unless one of them is null, which is a TypeError.
unfoldable pub item_ids : List Entry → Option (List ℕ)
item_ids [] = some []
item_ids (entry_null ∷ es) = none
item_ids (entry_object i ∷ es) = push_id (truthy_number i) (item_ids es)
item_ids (entry_number i ∷ es) = push_id (truthy_number (some i)) (item_ids es)

-- The ids of commodities, which are gold and the rows of that type.
abbrev pub is_commodity : MarketRow → Bool
is_commodity r = if r.item_id == 1 then true else same_text r.type (codes "COMMDTY")

abbrev pub is_auction : MarketRow → Bool
is_auction r = same_text r.type (codes "AUCTION")

-- `SELECT DISTINCT market.item_id … WHERE …`
unfoldable pub distinct_item_ids : (MarketRow → Bool) → List MarketRow → List ℕ
distinct_item_ids p rows = unique (map (λ r. r.item_id) (keep p rows))

abbrev pub has_loot_type : Text → Item → Bool
has_loot_type t x = elim x.loot_type [ none ↦ false | some l ↦ same_text l t ]

-- `:class = ANY(asset_class)`
abbrev pub has_class : Text → Item → Bool
has_class cls x = elim x.asset_class [ none ↦ false | some cs ↦ includes cls cs ]

abbrev pub has_vendor_price : Item → Bool
has_vendor_price x = elim x.vendor_sell_price [ none ↦ false | some p ↦ ltb 0 p ]

unfoldable pub premium_ids : List Item → List ℕ
premium_ids items =
    map (λ x. x.id)
      (keep (λ x. has_class (codes "REAGENT") x && has_loot_type (codes "ON_ACQUIRE") x) items)

unfoldable pub vsp_ids : List Item → List ℕ
vsp_ids items =
    map (λ x. x.id) (keep (λ x. has_vendor_price x && lacks (codes "VSP") x.asset_class) items)
