-- ===== src/Recipes/Examples.antt =====
-- A profession with one tier, a laboratory with two methods, and a file with two rows.
use cmnw.Prelude.{
  ℕ, Bool, true, false, Option, none, some, List, [], ◌∷◌, ◌==◌, any, not, if◌then◌else◌, Text,
  codes, same_text, show, ◌≡◌, refl, Memᴰ, ◌⊎◌, ◌↔◌,
}
use mathlib.Core.List.Permᴰ
use cmnw.Prelude.Missing.{AreDifferent, put_missing, put_all_missing}
use cmnw.Recipes.Pricings.{
  Recipe, LabPricingMethod, Tier, Profession, same_recipe, recipes_of, index_pricing, lib_pricing,
  starts_with, contains, expansion_in, expansion_of, parse_digits, lab_recipe, recipes_of_tiers,
  recipes_of_categories, indexed_recipe, process_enabled, process_lab_pricing_method,
}
use cmnw.Recipes.Sheets.{
  CsvRow, SheetRow, Sheets, entities, file_key, is_file_processed, save_spell_effects, build_file,
  build_spell_effect, column, mapped_fields, mark_file_as_processed,
}
use cmnw.Recipes.Named.{IsNamed}
use cmnw.Recipes.Indexing.{index_pricing_lem}
use cmnw.Recipes.Labs.{lib_pricing_lem, IsMade, IsOrder, others}

abbrev tier : Tier
tier = record {
  name = some (codes "Kul Tiran Mining");
  categories = some (some (7 ∷ 8 ∷ 7 ∷ []) ∷ none ∷ []);
}

abbrev mining : Profession
mining = record { id = 186; tiers = some (tier ∷ record { name = none; categories = none } ∷ []) }

abbrev milling : LabPricingMethod
milling = record {
  name = codes "Milling";
  media = codes "m";
  spell_id = 45;
  methods =
      record {
        first_reagent = record { item_id = 60; quantity = 5 };
        more_reagents = [];
        derivatives = record { item_id = 70; quantity = 2 } ∷ [];
      }
      ∷ [];
}

abbrev found : Recipe
found = record {
  recipe_id = 7;
  ticker = none;
  media = none;
  spell_id = none;
  profession = codes "186";
  expansion = codes "BFA";
  is_reverse = false;
  created_by = none;
  reagents = [];
  derivatives = [];
}

abbrev ground_up : Recipe
ground_up = record found {
  recipe_id = 4560;
  ticker = some (codes "Milling");
  media = some (codes "m");
  spell_id = some 45;
  profession = codes "Milling";
  expansion = codes "TWW";
  is_reverse = true;
  created_by = some (codes "DMA-LAB");
  reagents = record { item_id = 60; quantity = 5 } ∷ [];
  derivatives = record { item_id = 70; quantity = 2 } ∷ [];
}

-- The tier's words name two expansions, of which the first in the table counts.
kul : expansion_of (some (codes "Kul Tiran Mining")) ≡ codes "BFA"
unfolding expansion_of expansion_in contains starts_with
kul = refl

indexed :
    index_pricing (λ i. i) (λ r. false) true (some (mining ∷ [])) []
    ≡ found ∷ record found { recipe_id = 8 } ∷ []
unfolding index_pricing put_all_missing recipes_of recipes_of_tiers recipes_of_categories
    put_missing indexed_recipe expansion_of expansion_in contains starts_with show
indexed = refl

milled :
    lib_pricing
      (λ i. i)
      (λ r. false)
      (λ rs. rs)
      false
      ((true, milling) ∷ [])
      (found ∷ record ground_up { recipe_id = 1 } ∷ [])
    ≡ found ∷ ground_up ∷ []
unfolding lib_pricing process_enabled process_lab_pricing_method lab_recipe parse_digits show
milled = refl

index_pricing_lem_example :
    let after =
      index_pricing (λ i. i) (λ r. r.recipe_id == 8) true (some (mining ∷ [])) (found ∷ []) in
    ((new : List Recipe) × (after ≡ found ∷ new)
      × ((r : Recipe) → Memᴰ r new → IsNamed (λ i. i) (mining ∷ []) r))
    × (AreDifferent same_recipe (found ∷ []) → AreDifferent same_recipe after)
    × (((r : Recipe) → IsNamed (λ i. i) (mining ∷ []) r → any (same_recipe r) after ≡ true)
        ⊎ ((r : Recipe) × IsNamed (λ i. i) (mining ∷ []) r × ((r.recipe_id == 8) ≡ true)))
index_pricing_lem_example =
    index_pricing_lem (λ i. i) (λ r. r.recipe_id == 8) (mining ∷ []) (found ∷ [])

same-IsOrder : IsOrder (λ rs. rs)
same-IsOrder = record { reorders = λ rs. Permᴰ.refl rs }

abbrev asked_for : List (Bool × LabPricingMethod)
asked_for = (true, milling) ∷ (false, milling) ∷ []

lib_pricing_lem_example :
    let rows = found ∷ ground_up ∷ [] in
    let after = lib_pricing (λ i. i) (λ r. false) (λ rs. rs) false asked_for rows in
    (others after ≡ others rows)
    × (((true ≡ false) × (after ≡ rows))
        ⊎ ((true ≡ true)
            × ((r : Recipe)
                → Memᴰ r after
                  ↔ (Memᴰ r (others rows) ⊎ IsMade (λ i. i) (λ r. false) asked_for r))))
lib_pricing_lem_example =
    lib_pricing_lem (λ i. i) (λ r. false) (λ rs. rs) false asked_for (found ∷ ground_up ∷ [])
      same-IsOrder

-- Rows with numbers in their cells; a file of which nothing is known says nothing.
abbrev effects : List (CsvRow ℕ)
effects =
    ((codes "ID", 1) ∷ (codes "SpellID", 9) ∷ (codes "Effect", 0) ∷ [])
    ∷ ((codes "Effect", 2) ∷ [])
    ∷ ((codes "ID", 1) ∷ [])
    ∷ []

abbrev parse_effects : Text → Option (List (CsvRow ℕ))
parse_effects content = if same_text content (codes "csv") then some effects else none

abbrev hash : Text → Text
hash t = t

abbrev is_truthy : ℕ → Bool
is_truthy n = not (n == 0)

abbrev is_zero_cell : ℕ → Bool
is_zero_cell n = n == 0

abbrev same_cell : ℕ → ℕ → Bool
same_cell m n = m == n

abbrev no_sheets : Sheets ℕ
no_sheets = record { skill_lines = []; spell_effects = []; spell_reagents = []; processed = [] }

abbrev first_effect : SheetRow ℕ
first_effect = record { id = 1; fields = (codes "spellId", 9) ∷ [] }

saved :
    build_spell_effect same_cell is_truthy is_zero_cell hash parse_effects
      (λ e. false)
      false
      true
      (some (codes "csv"))
      no_sheets
    ≡ record no_sheets {
      spell_effects = first_effect ∷ [];
      processed = codes "PRICING_CSV_PROCESSED:spelleffect.csv:csv" ∷ [];
    }
unfolding build_spell_effect build_file save_spell_effects is_file_processed mark_file_as_processed
    put_all_missing file_key entities column put_missing mapped_fields
saved = refl

abbrev refused_effect : SheetRow ℕ → Bool
refused_effect e = e.id == 2
