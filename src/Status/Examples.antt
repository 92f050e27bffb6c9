-- ===== src/Status/Examples.antt =====
-- Runs of the status functions, and the theorems at concrete tables.
use cmnw.Prelude.{true, [], ◌∷◌, ◌≡◌, refl, codes, show, join}
use cmnw.Status.{
  State, success, error, pending, set_status, get_char, is_all_success, successful, failed, waiting,
  is_valid, index_of, percentage, count_part, is_success, is_error, is_pending, error_percentage,
  description,
}
use cmnw.Status.Encoding.{encode, update}
use cmnw.Status.Codec.{set_status-encode}
use cmnw.Status.Character.{
  Endpoint, status, summary, media, professions, character_table, character_table-IsLawful,
  set_status_string, is_all_success_in_string, get_successful_endpoints_in_string,
  get_status_description_in_string, get_error_percentage_in_string, is_valid_status_string,
}
use cmnw.Status.Guild.{Operation}

status_functions : Unit {0}
unfolding set_status get_char index_of is_success is_error is_pending successful failed waiting
    is_all_success percentage error_percentage count_part description is_valid show join
    set_status_string get_status_description_in_string get_error_percentage_in_string
    is_valid_status_string is_all_success_in_string get_successful_endpoints_in_string
status_functions = tt

abbrev some_states : Endpoint → State
some_states status = success
some_states summary = error
some_states _ = pending

abbrev guild_states : Operation → State
guild_states Operation.logs = error
guild_states _ = success

first_steps :
    (set_status_string (codes "------") status success ≡ codes "S-----")
    × (set_status_string (codes "SU----") media error ≡ codes "SUv---")
    × (get_status_description_in_string (codes "SuVp--") ≡ codes "2 succeeded, 2 failed, 2 pending")
    × (get_error_percentage_in_string (codes "su-mpv") ≡ 33)
    × (is_valid_status_string (codes "RRRRRR") ≡ true)
    × (is_all_success_in_string (codes "RRRRRR") ≡ true)
    × (get_successful_endpoints_in_string (codes "RRRRRR") ≡ professions ∷ [])
unfolding status_functions
first_steps = (refl, refl, refl, refl, refl, refl, refl)

set_status-encode_example :
    set_status character_table (encode character_table some_states) media error
    ≡ encode character_table (update character_table some_states media error)
set_status-encode_example =
    set_status-encode character_table character_table-IsLawful some_states media error
