-- ===== src/Status.antt =====
-- Status strings: libs/resources/src/utils/character-status.utils.ts. The source has each function
-- twice, for characters and for guilds, over different tables; here it is written once over a
-- table, and Status/Character.antt and Status/Guild.antt give the two tables.
pub mod Encoding
pub mod Codec
pub mod Counts
pub mod Validity
pub mod Character
pub mod Guild
mod Examples
use cmnw.Prelude.{
  ℕ, zero, suc, ◌+◌, ◌-◌, ◌*◌, ◌/◌, Bool, true, false, ◌&&◌, Option, none, some, List, [], ◌∷◌,
  ◌++◌, leb, ltb, ◌==◌, if◌then◌else◌, length, get_or, take, drop, keep, any, all, Text, codes,
  show, join,
}
use mathlib.Core.Option

-- The state of one endpoint or operation.
pub data State : Type 0 where
  pending success error : State

-- The three characters that stand for the states of one endpoint.
pub record Codes : Type 0 where
  pub success : ℕ
  pub error : ℕ
  pub pending : ℕ

-- What the functions read: the endpoints in their order, the codes and the accepted characters,
-- and the words of the description.
pub record Table (K : Type 0) : Type 0 where
  pub same : K → K → Bool
  pub order : List K
  pub codes_of : K → Codes
  pub valid_chars : Text
  pub noun : Text

abbrev pub dash : ℕ
dash = b'-'

abbrev pub char_for : State → Codes → ℕ
char_for success c = c.success
char_for error c = c.error
char_for pending c = c.pending

-- `Array.prototype.indexOf`, with `none` for -1.
unfoldable pub index_of : {K : Type 0} → (K → K → Bool) → K → List K → Option ℕ
index_of same k [] = none
index_of same k (j ∷ js) = if same j k then some 0 else Option.map suc (index_of same k js)

-- `Math.round((part / total) * 100)`, a half rounded up.
unfoldable pub percentage : ℕ → ℕ → ℕ
percentage part total = (200 * part + total) / (2 * total)

module _ {K : Type 0} (t : Table K) where
  open t use {same, order, codes_of, valid_chars, noun}

  -- `substring` clamps its ends to the text, as `take` and `drop` do.
  unfoldable pub set_status : Text → K → State → Text
  set_status current k st = elim (index_of same k order) [
    | none ↦ current
    | some i ↦ take i current ++ char_for st (codes_of k) ∷ drop (suc i) current
  ]

  unfoldable pub get_char : Text → K → ℕ
  get_char s k = elim (index_of same k order) [
    | none ↦ dash
    | some i ↦ if leb (length s) i then dash else get_or s i dash
  ]

  unfoldable pub is_success : Text → K → Bool
  is_success s k = get_char s k == (codes_of k).success

  unfoldable pub is_error : Text → K → Bool
  is_error s k = get_char s k == (codes_of k).error

  unfoldable pub is_pending : Text → K → Bool
  is_pending s k = get_char s k == (codes_of k).pending

  unfoldable pub successful : Text → List K
  successful s = keep (is_success s) order

  unfoldable pub failed : Text → List K
  failed s = keep (is_error s) order

  unfoldable pub waiting : Text → List K
  waiting s = keep (is_pending s) order

  unfoldable pub is_all_success : Text → Bool
  is_all_success s = length (failed s) == 0 && length (waiting s) == 0

  unfoldable pub has_any_error : Text → Bool
  has_any_error s = ltb 0 (length (failed s))

  unfoldable pub completion_percentage : Text → ℕ
  completion_percentage s = percentage (length order - length (waiting s)) (length order)

  unfoldable pub success_percentage : Text → ℕ
  success_percentage s = percentage (length (successful s)) (length order)

  unfoldable pub error_percentage : Text → ℕ
  error_percentage s = percentage (length (failed s)) (length order)

  -- `if (n > 0) parts.push(`${n} word`)`
  unfoldable pub count_part : ℕ → Text → List Text
  count_part n word = if ltb 0 n then (show n ++ word) ∷ [] else []

  unfoldable pub description : Text → Text
  description s =
      if length (successful s) == length order
      then codes "All " ++ noun ++ codes " succeeded"
      else if length (failed s) == length order
      then codes "All " ++ noun ++ codes " failed"
      else if length (waiting s) == length order
      then codes "All " ++ noun ++ codes " pending"
      else join (codes ", ") (
          count_part (length (successful s)) (codes " succeeded")
          ++ count_part (length (failed s)) (codes " failed")
          ++ count_part (length (waiting s)) (codes " pending"))

  unfoldable pub is_valid : Text → Bool
  is_valid s = length s == length order && all (λ c. any (λ v. v == c) valid_chars) s
