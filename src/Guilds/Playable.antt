-- ===== src/Guilds/Playable.antt =====
-- PLAYABLE_CLASS and PLAYABLE_RACE of libs/resources/src/constants/osint.constants.ts.
use cmnw.Prelude.{ℕ, List, [], ◌∷◌, Text, codes}

abbrev pub playable_class : List (ℕ × Text)
playable_class =
    (1, codes "Warrior")
    ∷ (2, codes "Paladin")
    ∷ (3, codes "Hunter")
    ∷ (4, codes "Rogue")
    ∷ (5, codes "Priest")
    ∷ (6, codes "Death Knight")
    ∷ (7, codes "Shaman")
    ∷ (8, codes "Mage")
    ∷ (9, codes "Warlock")
    ∷ (10, codes "Monk")
    ∷ (11, codes "Druid")
    ∷ (12, codes "Demon Hunter")
    ∷ (13, codes "Evoker")
    ∷ []

abbrev pub playable_race : List (ℕ × Text)
playable_race =
    (1, codes "Human")
    ∷ (2, codes "Orc")
    ∷ (3, codes "Dwarf")
    ∷ (4, codes "Night Elf")
    ∷ (5, codes "Undead")
    ∷ (6, codes "Tauren")
    ∷ (7, codes "Gnome")
    ∷ (8, codes "Troll")
    ∷ (9, codes "Goblin")
    ∷ (10, codes "Blood Elf")
    ∷ (11, codes "Draenei")
    ∷ (22, codes "Worgen")
    ∷ (24, codes "Pandaren")
    ∷ (25, codes "Pandaren")
    ∷ (26, codes "Pandaren")
    ∷ (27, codes "Nightborne")
    ∷ (28, codes "Highmountain Tauren")
    ∷ (29, codes "Void Elf")
    ∷ (30, codes "Lightforged Draenei")
    ∷ (31, codes "Zandalari Troll")
    ∷ (32, codes "Kul Tiran")
    ∷ (34, codes "Dark Iron Dwarf")
    ∷ (35, codes "Vulpera")
    ∷ (36, codes "Mag'har Orc")
    ∷ (37, codes "Mechagnome")
    ∷ (52, codes "Dracthyr")
    ∷ (70, codes "Dracthyr")
    ∷ (84, codes "Earthen")
    ∷ (85, codes "Earthen")
    ∷ []
