-- ===== src/Status/Guild.antt =====
-- The status strings of guilds: libs/resources/src/utils/character-status.utils.ts, over the
-- tables of libs/resources/src/constants/status.constants.ts.
use cmnw.Prelude.{
  ℕ, Bool, true, false, ◌&&◌, some, List, [], ◌∷◌, map, ◌≡◌, refl, ◌↔◌, ◌⊎◌, arith, Text, codes,
  to_lower, keep, any, length, ◌==◌,
}
use cmnw.Status.{
  State, success, error, Codes, Table, char_for, index_of, set_status, get_char, is_success,
  is_error, is_pending, successful, failed, waiting, is_all_success, has_any_error,
  completion_percentage, success_percentage, error_percentage, description, is_valid,
}
use cmnw.Status.Encoding.{IsLawful, DistinctCodes, accepts, encode}
use cmnw.Status.Codec.{is_error-encode, is_pending-encode}

pub data Operation : Type 0 where
  summary roster members logs master : Operation

-- `===` on the operations' names
abbrev pub same_operation : Operation → Operation → Bool
same_operation summary summary = true
same_operation roster roster = true
same_operation members members = true
same_operation logs logs = true
same_operation master master = true
same_operation summary _ = false
same_operation roster _ = false
same_operation members _ = false
same_operation logs _ = false
same_operation master _ = false

abbrev pub guild_status_codes : Operation → Codes
guild_status_codes summary = record { success = b'S'; error = b's'; pending = b'-' }
guild_status_codes roster = record { success = b'R'; error = b'r'; pending = b'-' }
guild_status_codes members = record { success = b'M'; error = b'm'; pending = b'-' }
guild_status_codes logs = record { success = b'L'; error = b'l'; pending = b'-' }
guild_status_codes master = record { success = b'G'; error = b'g'; pending = b'-' }

abbrev pub guild_status_operation_order : List Operation
guild_status_operation_order = summary ∷ roster ∷ members ∷ logs ∷ master ∷ []

abbrev pub guild_core_operations : List Operation
guild_core_operations = summary ∷ roster ∷ members ∷ []

abbrev pub guild_table : Table Operation
guild_table = record {
  same = same_operation;
  order = guild_status_operation_order;
  codes_of = guild_status_codes;
  valid_chars = codes "SsRrMmLlGg-";
  noun = codes "operations";
}

unfoldable pub set_guild_status_string : Text → Operation → State → Text
set_guild_status_string = set_status guild_table

unfoldable pub get_guild_status_char : Text → Operation → ℕ
get_guild_status_char = get_char guild_table

unfoldable pub is_guild_operation_success_in_string : Text → Operation → Bool
is_guild_operation_success_in_string = is_success guild_table

unfoldable pub is_guild_operation_error_in_string : Text → Operation → Bool
is_guild_operation_error_in_string = is_error guild_table

unfoldable pub is_guild_operation_pending_in_string : Text → Operation → Bool
is_guild_operation_pending_in_string = is_pending guild_table

unfoldable pub get_successful_guild_operations_in_string : Text → List Operation
get_successful_guild_operations_in_string = successful guild_table

unfoldable pub get_failed_guild_operations_in_string : Text → List Operation
get_failed_guild_operations_in_string = failed guild_table

unfoldable pub get_pending_guild_operations_in_string : Text → List Operation
get_pending_guild_operations_in_string = waiting guild_table

unfoldable pub is_all_guild_success_in_string : Text → Bool
is_all_guild_success_in_string = is_all_success guild_table

unfoldable pub has_any_guild_error_in_string : Text → Bool
has_any_guild_error_in_string = has_any_error guild_table

unfoldable pub is_core_guild_success_in_string : Text → Bool
is_core_guild_success_in_string s =
    length (keep (is_guild_operation_error_in_string s) guild_core_operations) == 0
    && length (keep (is_guild_operation_pending_in_string s) guild_core_operations) == 0

unfoldable pub has_core_guild_error_in_string : Text → Bool
has_core_guild_error_in_string s = any (is_guild_operation_error_in_string s) guild_core_operations

unfoldable pub get_guild_completion_percentage_in_string : Text → ℕ
get_guild_completion_percentage_in_string = completion_percentage guild_table

unfoldable pub get_guild_success_percentage_in_string : Text → ℕ
get_guild_success_percentage_in_string = success_percentage guild_table

unfoldable pub get_guild_error_percentage_in_string : Text → ℕ
get_guild_error_percentage_in_string = error_percentage guild_table

unfoldable pub get_guild_status_description_in_string : Text → Text
get_guild_status_description_in_string = description guild_table

unfoldable pub is_valid_guild_status_string : Text → Bool
is_valid_guild_status_string = is_valid guild_table

-- `toLowerCase` on the ASCII text that a status string is.
unfoldable pub to_lowercase_guild_status_string : Text → Text
to_lowercase_guild_status_string = map to_lower

operation-listed :
    (k : Operation) → (i : ℕ) × (index_of same_operation k guild_status_operation_order ≡ some i)
unfolding index_of
operation-listed summary = (0, refl)
operation-listed roster = (1, refl)
operation-listed members = (2, refl)
operation-listed logs = (3, refl)
operation-listed master = (4, refl)

same_operation_iff : (j k : Operation) → (same_operation j k ≡ true) ↔ (j ≡ k)
same_operation_iff j k = ground arith

operation-coded : (k : Operation) → DistinctCodes (guild_status_codes k)
operation-coded k = ground arith

operation-accepted :
    (k : Operation) (st : State)
    → accepts (codes "SsRrMmLlGg-") (char_for st (guild_status_codes k)) ≡ true
operation-accepted k st = ground arith

pub guild_table-IsLawful : IsLawful guild_table
guild_table-IsLawful = record {
  same_iff = same_operation_iff;
  listed = operation-listed;
  distinct = ground arith;
  coded = operation-coded;
  accepted = operation-accepted;
}

-- On the status string of a state of every operation, the core operations are reported as
-- successful exactly when summary, roster and members are, whatever logs and master are; and a
-- core error exactly when one of the three failed.
pub core_verdicts :
    (f : Operation → State)
    → let s = encode guild_table f in
      ((is_core_guild_success_in_string s ≡ true)
        ↔ ((f summary ≡ success) × (f roster ≡ success) × (f members ≡ success)))
      × ((has_core_guild_error_in_string s ≡ true)
          ↔ ((f summary ≡ error) ⊎ (f roster ≡ error) ⊎ (f members ≡ error)))
unfolding is_core_guild_success_in_string has_core_guild_error_in_string
    is_guild_operation_error_in_string is_guild_operation_pending_in_string
core_verdicts f =
    let e = is_error-encode guild_table guild_table-IsLawful f in
    let p = is_pending-encode guild_table guild_table-IsLawful f in
    (
      ground (arith, e summary, e roster, e members, p summary, p roster, p members),
      ground (arith, e summary, e roster, e members),
    )
