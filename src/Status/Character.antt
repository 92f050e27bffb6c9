-- ===== src/Status/Character.antt =====
-- The status strings of characters: libs/resources/src/utils/character-status.utils.ts, over the
-- tables of libs/resources/src/constants/status.constants.ts.
use cmnw.Prelude.{
  ℕ, Bool, true, false, some, List, [], ◌∷◌, map, ◌≡◌, refl, ◌↔◌, arith, Text, codes, to_lower,
}
use cmnw.Status.{
  State, Codes, Table, char_for, index_of, set_status, get_char, is_success, is_error, is_pending,
  successful, failed, waiting, is_all_success, has_any_error, completion_percentage,
  success_percentage, error_percentage, description, is_valid,
}
use cmnw.Status.Encoding.{IsLawful, DistinctCodes, accepts}

pub data Endpoint : Type 0 where
  status summary media pets mounts professions : Endpoint

-- `===` on the endpoints' names
abbrev pub same_endpoint : Endpoint → Endpoint → Bool
same_endpoint status status = true
same_endpoint summary summary = true
same_endpoint media media = true
same_endpoint pets pets = true
same_endpoint mounts mounts = true
same_endpoint professions professions = true
same_endpoint status _ = false
same_endpoint summary _ = false
same_endpoint media _ = false
same_endpoint pets _ = false
same_endpoint mounts _ = false
same_endpoint professions _ = false

abbrev pub character_status_codes : Endpoint → Codes
character_status_codes status = record { success = b'S'; error = b's'; pending = b'-' }
character_status_codes summary = record { success = b'U'; error = b'u'; pending = b'-' }
character_status_codes media = record { success = b'V'; error = b'v'; pending = b'-' }
character_status_codes pets = record { success = b'P'; error = b'p'; pending = b'-' }
character_status_codes mounts = record { success = b'M'; error = b'm'; pending = b'-' }
character_status_codes professions = record { success = b'R'; error = b'r'; pending = b'-' }

abbrev pub status_endpoint_order : List Endpoint
status_endpoint_order = status ∷ summary ∷ media ∷ pets ∷ mounts ∷ professions ∷ []

abbrev pub character_table : Table Endpoint
character_table = record {
  same = same_endpoint;
  order = status_endpoint_order;
  codes_of = character_status_codes;
  valid_chars = codes "SsUuMmPpVvRr-";
  noun = codes "endpoints";
}

unfoldable pub set_status_string : Text → Endpoint → State → Text
set_status_string = set_status character_table

unfoldable pub get_status_char : Text → Endpoint → ℕ
get_status_char = get_char character_table

unfoldable pub is_endpoint_success_in_string : Text → Endpoint → Bool
is_endpoint_success_in_string = is_success character_table

unfoldable pub is_endpoint_error_in_string : Text → Endpoint → Bool
is_endpoint_error_in_string = is_error character_table

unfoldable pub is_endpoint_pending_in_string : Text → Endpoint → Bool
is_endpoint_pending_in_string = is_pending character_table

unfoldable pub get_successful_endpoints_in_string : Text → List Endpoint
get_successful_endpoints_in_string = successful character_table

unfoldable pub get_failed_endpoints_in_string : Text → List Endpoint
get_failed_endpoints_in_string = failed character_table

unfoldable pub get_pending_endpoints_in_string : Text → List Endpoint
get_pending_endpoints_in_string = waiting character_table

unfoldable pub is_all_success_in_string : Text → Bool
is_all_success_in_string = is_all_success character_table

unfoldable pub has_any_error_in_string : Text → Bool
has_any_error_in_string = has_any_error character_table

unfoldable pub get_completion_percentage_in_string : Text → ℕ
get_completion_percentage_in_string = completion_percentage character_table

unfoldable pub get_success_percentage_in_string : Text → ℕ
get_success_percentage_in_string = success_percentage character_table

unfoldable pub get_error_percentage_in_string : Text → ℕ
get_error_percentage_in_string = error_percentage character_table

unfoldable pub get_status_description_in_string : Text → Text
get_status_description_in_string = description character_table

unfoldable pub is_valid_status_string : Text → Bool
is_valid_status_string = is_valid character_table

-- `toLowerCase` on the ASCII text that a status string is.
unfoldable pub to_lowercase_status_string : Text → Text
to_lowercase_status_string = map to_lower

endpoint-listed :
    (k : Endpoint) → (i : ℕ) × (index_of same_endpoint k status_endpoint_order ≡ some i)
unfolding index_of
endpoint-listed status = (0, refl)
endpoint-listed summary = (1, refl)
endpoint-listed media = (2, refl)
endpoint-listed pets = (3, refl)
endpoint-listed mounts = (4, refl)
endpoint-listed professions = (5, refl)

same_endpoint_iff : (j k : Endpoint) → (same_endpoint j k ≡ true) ↔ (j ≡ k)
same_endpoint_iff j k = ground arith

endpoint-coded : (k : Endpoint) → DistinctCodes (character_status_codes k)
endpoint-coded k = ground arith

endpoint-accepted :
    (k : Endpoint) (st : State)
    → accepts (codes "SsUuMmPpVvRr-") (char_for st (character_status_codes k)) ≡ true
endpoint-accepted k st = ground arith

pub character_table-IsLawful : IsLawful character_table
character_table-IsLawful = record {
  same_iff = same_endpoint_iff;
  listed = endpoint-listed;
  distinct = ground arith;
  coded = endpoint-coded;
  accepted = endpoint-accepted;
}
