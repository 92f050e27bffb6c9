-- ===== src/Valuations/Tags.antt =====
-- The tags of an item: buildTagsForItem of apps/market/src/services/xva.service.ts.
use cmnw.Prelude.{
  ℕ, ◌==◌, Option, none, some, List, [], ◌∷◌, ◌++◌, map, if◌then◌else◌, Text, truthy_text,
}
use cmnw.Valuations.Items.{Item, classes_of, includes}

-- `tagsSet.add`
abbrev pub add_tag : Text → List Text → List Text
add_tag t ts = if includes t ts then ts else ts ++ t ∷ []

unfoldable pub add_tags : List Text → List Text → List Text
add_tags [] ts = ts
add_tags (n ∷ ns) ts = add_tags ns (add_tag n ts)

-- `new Set(item.tags || [])`
unfoldable pub old_tags : Option (List Text) → List Text
old_tags none = []
old_tags (some ts) = add_tags ts []

-- The fields that are set and not empty.
unfoldable pub set_fields : List (Option Text) → List Text
set_fields [] = []
set_fields (f ∷ fs) = elim (truthy_text f) [ none ↦ set_fields fs | some t ↦ t ∷ set_fields fs ]

abbrev pub first_part : ℕ → List Text → List Text
first_part c [] = (c ∷ []) ∷ []
first_part c (p ∷ ps) = (c ∷ p) ∷ ps

-- `ticker.split('.')`
unfoldable pub split_dots : Text → List Text
split_dots [] = [] ∷ []
split_dots (c ∷ cs) = let rest = split_dots cs in if c == b'.' then [] ∷ rest else first_part c rest

abbrev pub ticker_parts : Item → List Text
ticker_parts x = elim (truthy_text x.ticker) [ none ↦ [] | some t ↦ split_dots t ]

-- The texts that become tags, before they are put into lower case.
unfoldable pub tag_sources : Item → List Text
tag_sources x =
    set_fields (x.expansion ∷ x.profession_class ∷ x.item_class ∷ x.item_sub_class ∷ x.quality ∷ [])
    ++ (classes_of x ++ ticker_parts x)

-- `toLowerCase` is a parameter.
unfoldable pub build_tags_for_item : (Text → Text) → Item → List Text
build_tags_for_item lower x = add_tags (map lower (tag_sources x)) (old_tags x.tags)

-- The items that have tags, with these.
unfoldable pub tag_updates : (Text → Text) → List Item → List (ℕ × List Text)
tag_updates lower [] = []
tag_updates lower (x ∷ xs) = elim (build_tags_for_item lower x) [
  | [] ↦ tag_updates lower xs
  | t ∷ ts ↦ (x.id, t ∷ ts) ∷ tag_updates lower xs
]
