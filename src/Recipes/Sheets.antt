-- ===== src/Recipes/Sheets.antt =====
-- buildSkillLine, buildSpellEffect and buildSpellReagents of
-- apps/market/src/services/xva.service.ts. The values in the cells of a file, with JavaScript's tests
-- on them, are parameters, and so are the hash of a file and the parsing of CSV, which may throw.
-- A look-up or a save may throw, and so may the setting of a key in Redis: each build says which do.
-- The save of a list of rows is one transaction.
use cmnw.Prelude.{
  ℕ, Bool, true, false, not, ◌&&◌, Option, none, some, List, [], ◌∷◌, ◌++◌, any, keep, get_elem?,
  if◌then◌else◌, Text, codes, same_text,
}
use cmnw.Prelude.Missing.{put_all_missing}

-- A row of a file: its columns by their names.
abbrev pub CsvRow : Type 0 → Type 0
CsvRow V = List (Text × V)

-- SkillLineEntity and SpellEffectEntity: the id, and the fields that are set.
pub record SheetRow (V : Type 0) : Type 0 where
  pub id : V
  pub fields : List (Text × V)

-- An item and its quantity; a value that the row does not have is undefined.
pub record Reagent (V : Type 0) : Type 0 where
  pub item_id : Option V
  pub quantity : Option V

-- SpellReagentsEntity
pub record SpellReagents (V : Type 0) : Type 0 where
  pub id : V
  pub spell_id : Option V
  pub reagents : List (Reagent V)

-- The three tables, and the keys in Redis.
pub record Sheets (V : Type 0) : Type 0 where
  pub skill_lines : List (SheetRow V)
  pub spell_effects : List (SheetRow V)
  pub spell_reagents : List (SpellReagents V)
  pub processed : List Text

-- SKILL_LINE_KEY_MAPPING
abbrev pub skill_line_key_mapping : List (Text × Text)
skill_line_key_mapping =
    (codes "skillLine", codes "SkillLine")
    ∷ (codes "spellId", codes "Spell")
    ∷ (codes "supersedesSpell", codes "SupercedesSpell")
    ∷ (codes "skillUpSkillLineId", codes "SkillupSkillLineID")
    ∷ (codes "minSkillRank", codes "MinSkillLineRank")
    ∷ (codes "numSkillUps", codes "NumSkillUps")
    ∷ (codes "yellowCraft", codes "TrivialSkillLineRankHigh")
    ∷ (codes "greenCraft", codes "TrivialSkillLineRankLow")
    ∷ []

-- SPELL_EFFECT_KEY_MAPPING
abbrev pub spell_effect_key_mapping : List (Text × Text)
spell_effect_key_mapping =
    (codes "spellId", codes "SpellID")
    ∷ (codes "effect", codes "Effect")
    ∷ (codes "itemId", codes "EffectItemType")
    ∷ (codes "itemQuantity", codes "EffectBasePointsF")
    ∷ []

-- The columns of the reagents, with those of their quantities.
abbrev pub reagent_columns : List (ℕ × ℕ)
reagent_columns = (2, 10) ∷ (3, 11) ∷ (4, 12) ∷ (5, 13) ∷ (6, 14) ∷ (7, 15) ∷ (8, 16) ∷ (9, 17) ∷ []

unfoldable pub column : {V : Type 0} → Text → CsvRow V → Option V
column name [] = none
column name ((k, v) ∷ r) = if same_text k name then some v else column name r

-- `Object.values`
unfoldable pub row_values : {V : Type 0} → CsvRow V → List V
row_values [] = []
row_values ((k, v) ∷ r) = v ∷ row_values r

module _ {V : Type 0} (same : V → V → Bool) where
  abbrev pub same_row : SheetRow V → SheetRow V → Bool
  same_row a b = same a.id b.id

  abbrev pub same_reagents : SpellReagents V → SpellReagents V → Bool
  same_reagents a b = same a.id b.id

-- `if (value)`
module _ {V : Type 0} (truthy : V → Bool) where
  abbrev pub add_field : Text → Option V → List (Text × V) → List (Text × V)
  add_field key none fields = fields
  add_field key (some v) fields =
      if truthy v && not (same_text key (codes "id")) then (key, v) ∷ fields else fields

  unfoldable pub mapped_fields : List (Text × Text) → CsvRow V → List (Text × V)
  mapped_fields [] r = []
  mapped_fields ((key, path) ∷ ms) r = add_field key (column path r) (mapped_fields ms r)

  -- The entities of the rows that have an ID.
  unfoldable pub entities : List (Text × Text) → List (CsvRow V) → List (SheetRow V)
  entities mapping [] = []
  entities mapping (r ∷ rs) = elim (column (codes "ID") r) [
    | none ↦ entities mapping rs
    | some v ↦ record { id = v; fields = mapped_fields mapping r } ∷ entities mapping rs
  ]

-- `=== 0`
module _ {V : Type 0} (is_nought : V → Bool) where
  -- `rowValues[n] !== 0`, which also holds of a value that is not there.
  abbrev pub is_reagent : Option V → Bool
  is_reagent none = true
  is_reagent (some v) = not (is_nought v)

  unfoldable pub reagents_in : List (ℕ × ℕ) → List V → List (Reagent V)
  reagents_in [] vs = []
  reagents_in ((n, q) ∷ cs) vs =
      if is_reagent (get_elem? vs n)
      then record { item_id = get_elem? vs n; quantity = get_elem? vs q } ∷ reagents_in cs vs
      else reagents_in cs vs

  unfoldable pub reagent_entities : List (CsvRow V) → List (SpellReagents V)
  reagent_entities [] = []
  reagent_entities (r ∷ rs) = elim (column (codes "ID") r) [
    | none ↦ reagent_entities rs
    | some v ↦
        record {
          id = v;
          spell_id = column (codes "SpellID") r;
          reagents = reagents_in reagent_columns (row_values r);
        }
        ∷ reagent_entities rs
  ]

unfoldable pub file_key : (Text → Text) → (file content : Text) → Text
file_key md5 file content = codes "PRICING_CSV_PROCESSED:" ++ (file ++ (codes ":" ++ md5 content))

module _ {V : Type 0} (md5 : Text → Text) where
  unfoldable pub is_file_processed : (file content : Text) → Sheets V → Bool
  is_file_processed file content s = any (same_text (file_key md5 file content)) s.processed

  unfoldable pub mark_file_as_processed : (file content : Text) → Sheets V → Sheets V
  mark_file_as_processed file content s = record s {
    processed = file_key md5 file content ∷ s.processed;
  }

  -- What becomes of the rows of a file: nothing if they cannot be parsed. `save` says what it leaves
  -- and whether it was done to the end; if it was not, or the key cannot be set, there is no mark.
  abbrev pub keep_rows :
      (file content : Text) (set_fails : Bool)
      → (List (CsvRow V) → Sheets V → Sheets V × Bool)
      → Option (List (CsvRow V))
      → Sheets V
      → Sheets V
  keep_rows file content set_fails save none s = s
  keep_rows file content set_fails save (some rows) s =
      let (t, done) = save rows s in
      if done && not set_fails then mark_file_as_processed file content t else t

module _ {V : Type 0} (md5 : Text → Text) (parse_csv : Text → Option (List (CsvRow V))) where
  -- A file that is not there is an error, and errors are caught.
  unfoldable pub build_file :
      (file : Text) (set_fails : Bool)
      → (List (CsvRow V) → Sheets V → Sheets V × Bool)
      → Bool
      → Option Text
      → Sheets V
      → Sheets V
  build_file file set_fails save false content s = s
  build_file file set_fails save true none s = s
  build_file file set_fails save true (some c) s =
      if is_file_processed md5 file c s
      then s
      else keep_rows md5 file c set_fails save (parse_csv c) s

module _ {V : Type 0} (same : V → V → Bool) (truthy : V → Bool) where
  -- The rows that are new are saved together.
  unfoldable pub save_skill_lines :
      (List (SheetRow V) → Bool) → List (CsvRow V) → Sheets V → Sheets V × Bool
  save_skill_lines refuses rows s =
      let new =
        keep (λ e. not (any (same_row same e) s.skill_lines))
          (entities truthy skill_line_key_mapping rows) in
      if refuses new then (s, false) else (record s { skill_lines = s.skill_lines ++ new }, true)

  -- The rows are looked up and saved one after the other, up to the first of which either throws.
  unfoldable pub save_spell_effects :
      (SheetRow V → Bool) → List (CsvRow V) → Sheets V → Sheets V × Bool
  save_spell_effects refuses rows s =
      let (effects, done) =
        put_all_missing (same_row same) refuses (entities truthy spell_effect_key_mapping rows)
          s.spell_effects in
      (record s { spell_effects = effects }, done)

module _ {V : Type 0} (same : V → V → Bool) (is_nought : V → Bool) where
  unfoldable pub save_spell_reagents :
      (List (SpellReagents V) → Bool) → List (CsvRow V) → Sheets V → Sheets V × Bool
  save_spell_reagents refuses rows s =
      let new =
        keep (λ e. not (any (same_reagents same e) s.spell_reagents))
          (reagent_entities is_nought rows) in
      if refuses new
      then (s, false)
      else (record s { spell_reagents = s.spell_reagents ++ new }, true)

module _ {V : Type 0} (same : V → V → Bool) (truthy is_nought : V → Bool) (md5 : Text → Text)
    (parse_csv : Text → Option (List (CsvRow V))) where
  unfoldable pub build_skill_line :
      (List (SheetRow V) → Bool) → (set_fails : Bool) → Bool → Option Text → Sheets V → Sheets V
  build_skill_line refuses set_fails =
      build_file md5 parse_csv (codes "skilllineability.csv") set_fails
        (save_skill_lines same truthy refuses)

  unfoldable pub build_spell_effect :
      (SheetRow V → Bool) → (set_fails : Bool) → Bool → Option Text → Sheets V → Sheets V
  build_spell_effect refuses set_fails =
      build_file md5 parse_csv (codes "spelleffect.csv") set_fails
        (save_spell_effects same truthy refuses)

  unfoldable pub build_spell_reagents :
      (List (SpellReagents V) → Bool)
      → (set_fails : Bool) → Bool
      → Option Text
      → Sheets V
      → Sheets V
  build_spell_reagents refuses set_fails =
      build_file md5 parse_csv (codes "spellreagents.csv") set_fails
        (save_spell_reagents same is_nought refuses)
