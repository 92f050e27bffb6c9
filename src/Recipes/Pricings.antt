-- ===== src/Recipes/Pricings.antt =====
-- libPricing and indexPricing of apps/market/src/services/xva.service.ts. The responses of the server
-- are arguments. Deletions, look-ups and saves may throw, and then the error is caught: `refuses` says
-- of which row. The column of the recipe's id is single precision, so that an id is rounded on its way
-- into it, as is the id that it is compared with; the rounding is a parameter.
use cmnw.Prelude.{
  ℕ, ◌+◌, ◌*◌, ◌-◌, Bool, true, false, not, ◌&&◌, ◌||◌, ◌==◌, Option, none, some, List, [], ◌∷◌,
  ◌++◌, any, keep, map, if◌then◌else◌, Text, codes, same_text, same_option, show,
}
use cmnw.Prelude.Missing.{put_all_missing}

-- ItemPricing; quantities are counted in ten-thousandths, since the tables have four decimals at most.
pub record ItemPricing : Type 0 where
  pub item_id : ℕ
  pub quantity : ℕ

-- PricingEntity, less the fields that are not written here and those that the database fills in, as
-- the uuid and the dates of a row.
pub record Recipe : Type 0 where
  pub recipe_id : ℕ
  pub ticker : Option Text
  pub media : Option Text
  pub spell_id : Option ℕ
  pub profession : Text
  pub expansion : Text
  pub is_reverse : Bool
  pub created_by : Option Text
  pub reagents : List ItemPricing
  pub derivatives : List ItemPricing

-- A method of a laboratory, whose reagents are the first one and the others. Of the entries only the
-- item and the quantity are kept here; the source copies the rest of an entry too.
pub record LabMethod : Type 0 where
  pub first_reagent : ItemPricing
  pub more_reagents : List ItemPricing
  pub derivatives : List ItemPricing

pub record LabPricingMethod : Type 0 where
  pub name : Text
  pub media : Text
  pub spell_id : ℕ
  pub methods : List LabMethod

-- DMA_SOURCE.LAB
abbrev pub lab : Text
lab = codes "DMA-LAB"

-- `parseInt` of decimal digits
unfoldable pub parse_digits : ℕ → Text → ℕ
parse_digits acc [] = acc
parse_digits acc (c ∷ cs) = parse_digits (10 * acc + (c - b'0')) cs

abbrev pub is_lab : Recipe → Bool
is_lab r = same_option r.created_by (some lab)

module _ (column : ℕ → ℕ) where
  unfoldable pub lab_recipe : LabPricingMethod → LabMethod → Recipe
  lab_recipe config m = record {
    recipe_id = column (parse_digits 0 (show config.spell_id ++ show m.first_reagent.item_id));
    ticker = some config.name;
    media = some config.media;
    spell_id = some config.spell_id;
    profession = config.name;
    expansion = codes "TWW";
    is_reverse = true;
    created_by = some lab;
    reagents = m.first_reagent ∷ m.more_reagents;
    derivatives = m.derivatives;
  }

  -- `refuses` says which saves throw, and `settle` in which order the others are done. All saves of a
  -- method are started at once, so that one that throws does not keep the others from being made.
  module _ (refuses : Recipe → Bool) (settle : List Recipe → List Recipe) where
    unfoldable pub process_lab_pricing_method : LabPricingMethod → List Recipe → List Recipe
    process_lab_pricing_method config rows =
        rows ++ settle (keep (λ r. not (refuses r)) (map (lab_recipe config) config.methods))

    unfoldable pub process_enabled : List (Bool × LabPricingMethod) → List Recipe → List Recipe
    process_enabled [] rows = rows
    process_enabled ((enabled, config) ∷ cs) rows =
        process_enabled cs (if enabled then process_lab_pricing_method config rows else rows)

    -- The methods in their order, each with whether it is asked for. If the deletion throws, nothing
    -- more is done.
    unfoldable pub lib_pricing :
        (delete_fails : Bool) → List (Bool × LabPricingMethod) → List Recipe → List Recipe
    lib_pricing delete_fails methods rows =
        if any (λ m. m.0) methods && not delete_fails
        then process_enabled methods (keep (λ r. not (is_lab r)) rows)
        else rows

-- A tier of a profession: its name in English, and the recipes of its categories, unless the
-- response is not one of a tier.
pub record Tier : Type 0 where
  pub name : Option Text
  pub categories : Option (List (Option (List ℕ)))

-- A profession, with its tiers unless the response is not one of a profession.
pub record Profession : Type 0 where
  pub id : ℕ
  pub tiers : Option (List Tier)

-- `startsWith`, and `includes` of a text
unfoldable pub starts_with : Text → Text → Bool
starts_with [] t = true
starts_with (p ∷ ps) [] = false
starts_with (p ∷ ps) (c ∷ cs) = (p == c) && starts_with ps cs

unfoldable pub contains : Text → Text → Bool
contains p [] = starts_with p []
contains p (c ∷ cs) = starts_with p (c ∷ cs) || contains p cs

-- EXPANSION_TICKER_MAP
abbrev pub expansion_ticker_map : List (Text × Text)
expansion_ticker_map =
    (codes "Khaz Algar", codes "TWW")
    ∷ (codes "Within", codes "TWW")
    ∷ (codes "Dragon", codes "DF")
    ∷ (codes "Shadowlands", codes "SHDW")
    ∷ (codes "Kul", codes "BFA")
    ∷ (codes "Zandalari", codes "BFA")
    ∷ (codes "Legion", codes "LGN")
    ∷ (codes "Draenor", codes "WOD")
    ∷ (codes "Pandaria", codes "MOP")
    ∷ (codes "Cataclysm", codes "CATA")
    ∷ (codes "Northrend", codes "WOTLK")
    ∷ (codes "Outland", codes "TBC")
    ∷ (codes "Midnight", codes "MDNT")
    ∷ (codes "Classic", codes "CLSC")
    ∷ []

-- The first of the texts that the name contains says the expansion.
unfoldable pub expansion_in : List (Text × Text) → Text → Text
expansion_in [] name = codes "CLSC"
expansion_in ((k, v) ∷ es) name = if contains k name then v else expansion_in es name

unfoldable pub expansion_of : Option Text → Text
expansion_of none = codes "CLSC"
expansion_of (some name) = expansion_in expansion_ticker_map name

-- `existsBy` of the three fields
abbrev pub same_recipe : Recipe → Recipe → Bool
same_recipe a b =
    (a.recipe_id == b.recipe_id)
    && (same_text a.expansion b.expansion && same_text a.profession b.profession)

module _ (column : ℕ → ℕ) where
  unfoldable pub indexed_recipe : Text → Text → ℕ → Recipe
  indexed_recipe profession expansion i = record {
    recipe_id = column i;
    ticker = none;
    media = none;
    spell_id = none;
    profession = profession;
    expansion = expansion;
    is_reverse = false;
    created_by = none;
    reagents = [];
    derivatives = [];
  }

  unfoldable pub recipes_of_categories : Text → Text → List (Option (List ℕ)) → List Recipe
  recipes_of_categories profession expansion [] = []
  recipes_of_categories profession expansion (none ∷ cs) =
      recipes_of_categories profession expansion cs
  recipes_of_categories profession expansion (some is ∷ cs) =
      map (indexed_recipe profession expansion) is ++ recipes_of_categories profession expansion cs

  unfoldable pub recipes_of_tiers : Text → List Tier → List Recipe
  recipes_of_tiers profession [] = []
  recipes_of_tiers profession (t ∷ ts) = elim t.categories [
    | none ↦ recipes_of_tiers profession ts
    | some cs ↦
        recipes_of_categories profession (expansion_of t.name) cs ++ recipes_of_tiers profession ts
  ]

  -- The recipes that the responses name, in the order in which they are looked up.
  unfoldable pub recipes_of : List Profession → List Recipe
  recipes_of [] = []
  recipes_of (p ∷ ps) = elim p.tiers [
    | none ↦ recipes_of ps
    | some ts ↦ recipes_of_tiers (show p.id) ts ++ recipes_of ps
  ]

  -- `none` stands for an index of professions that is not one. The first look-up or save that throws
  -- ends the indexing, and so does the first request that throws: `refuses` then says so of the first
  -- recipe that it was to bring.
  unfoldable pub index_pricing :
      (Recipe → Bool) → Bool → Option (List Profession) → List Recipe → List Recipe
  index_pricing refuses is_init none rows = rows
  index_pricing refuses is_init (some ps) rows =
      if is_init then (put_all_missing same_recipe refuses (recipes_of ps) rows).0 else rows
