-- ===== src/Recipes/Files.antt =====
-- What is built from a file of effects, and when the file is marked as processed.
use cmnw.Prelude.{true, Text, codes, same_text_iff, ◌≡◌, refl, arith}
use cmnw.Recipes.Sheets.{Sheets, file_key, is_file_processed, mark_file_as_processed}

marked :
    {V : Type 0} (md5 : Text → Text) (file c : Text) (t : Sheets V)
    → is_file_processed md5 file c (mark_file_as_processed md5 file c t) ≡ true
unfolding is_file_processed mark_file_as_processed
marked md5 file c t =
    ground (arith, (same_text_iff (file_key md5 file c) (file_key md5 file c)).1 refl)

abbrev effects_file : Text
effects_file = codes "spelleffect.csv"
