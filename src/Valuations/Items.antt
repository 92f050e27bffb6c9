-- ===== src/Valuations/Items.antt =====
-- The table of items, and how a class is added to items: addAssetClassToItem, batchAddAssetClass and
-- the updates in SQL of apps/market/src/services/xva.service.ts.
use cmnw.Prelude.{
  ℕ, zero, suc, Bool, false, not, ◌&&◌, ◌==◌, Option, none, some, List, [], ◌∷◌, ◌++◌, any, keep,
  length, take, drop, if◌then◌else◌, Text, same_text,
}

-- ItemsEntity, less the fields that are not read here.
pub record Item : Type 0 where
  pub id : ℕ
  pub asset_class : Option (List Text)
  pub tags : Option (List Text)
  pub vendor_sell_price : Option ℕ
  pub loot_type : Option Text
  pub expansion : Option Text
  pub profession_class : Option Text
  pub item_class : Option Text
  pub item_sub_class : Option Text
  pub quality : Option Text
  pub ticker : Option Text

-- A state that a step leaves, also where it throws.
pub data Run (S : Type 0) : Type 0 where
  done : S → Run S
  threw : S → Run S

abbrev pub state_of : {S : Type 0} → Run S → S
state_of (done s) = s
state_of (threw s) = s

infixl 5 ◌>>=◌
abbrev pub ◌>>=◌ : {S : Type 0} → Run S → (S → Run S) → Run S
done s >>= f = f s
threw s >>= f = threw s

-- `findOne({ where: { id } })`
unfoldable pub find_item : ℕ → List Item → Option Item
find_item i [] = none
find_item i (x ∷ xs) = if x.id == i then some x else find_item i xs

-- `update({ id }, …)`
unfoldable pub update_item : ℕ → (Item → Item) → List Item → List Item
update_item i f [] = []
update_item i f (x ∷ xs) = (if x.id == i then f x else x) ∷ update_item i f xs

-- `item.assetClass || []`
abbrev pub classes_of : Item → List Text
classes_of item = elim item.asset_class [ none ↦ [] | some cs ↦ cs ]

-- `includes`
abbrev pub includes : Text → List Text → Bool
includes t = any (same_text t)

-- `new Set(itemIds)`: the first occurrences, in their order.
unfoldable pub unique : List ℕ → List ℕ
unique [] = []
unique (i ∷ is) = i ∷ keep (λ j. not (j == i)) (unique is)

-- BATCH_SIZE
abbrev pub batch_size : ℕ
batch_size = 500

-- A loop whose body may throw.
unfoldable pub for_each : {A S : Type 0} → (A → S → Run S) → List A → S → Run S
for_each body [] s = done s
for_each body (x ∷ xs) s = body x s >>= for_each body xs

-- `for (let i = 0; i < xs.length; i += size)` over the slices of the list; the length is enough fuel.
unfoldable pub for_chunks : {A S : Type 0} → ℕ → (size : ℕ) → (A → S → Run S) → List A → S → Run S
for_chunks fuel size body [] s = done s
for_chunks zero size body (x ∷ xs) s = threw s
for_chunks (suc fuel) size body (x ∷ xs) s =
    for_each body (take size (x ∷ xs)) s >>= for_chunks fuel size body (drop size (x ∷ xs))

-- The updates that the database refuses: by the item and the class.
module _ (refuses : ℕ → Text → Bool) where
  unfoldable pub add_to_found : ℕ → Text → Option Item → List Item → Run (List Item)
  add_to_found i cls none items = done items
  add_to_found i cls (some item) items =
      if includes cls (classes_of item)
      then done items
      else if refuses i cls
      then threw items
      else done
          (update_item i (λ x. record x { asset_class = some (classes_of item ++ cls ∷ []) }) items)

  unfoldable pub add_asset_class_to_item : Text → ℕ → List Item → Run (List Item)
  add_asset_class_to_item cls i items = add_to_found i cls (find_item i items) items

  unfoldable pub batch_add_asset_class : List ℕ → Text → List Item → Run (List Item)
  batch_add_asset_class ids cls =
      for_chunks (length (unique ids)) batch_size (add_asset_class_to_item cls) (unique ids)

-- `NOT (:class = ANY(asset_class))`, which does not hold of a column that is null.
abbrev pub lacks : Text → Option (List Text) → Bool
lacks cls none = false
lacks cls (some cs) = not (includes cls cs)

abbrev pub append_class : Text → Item → Item
append_class cls x = record x { asset_class = some (classes_of x ++ cls ∷ []) }

-- The update by one statement: `array_append` for the ids, where the class is lacking.
unfoldable pub append_where : Text → List ℕ → List Item → List Item
append_where cls ids [] = []
append_where cls ids (x ∷ xs) =
    (if any (λ i. i == x.id) ids && lacks cls x.asset_class then append_class cls x else x)
    ∷ append_where cls ids xs
