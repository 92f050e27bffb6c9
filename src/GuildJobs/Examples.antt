-- ===== src/GuildJobs/Examples.antt =====
-- A guild whose requests all succeed, and a change of its name.
use cmnw.Prelude.{
  Bool, true, false, not, Option, none, some, [], ◌∷◌, ◌≡◌, refl, if◌then◌else◌, Text, codes,
  same_text, any, keep, ◌==◌, ◌↔◌,
}
use cmnw.Status.{set_status, index_of}
use cmnw.Status.Guild.{set_guild_status_string}
use cmnw.Roster.{IdSets, Roster}
use cmnw.Lifecycle.{or_number, is_too_recent}
use cmnw.Characters.Requests.{replied}
use cmnw.GuildJobs.Lookup.{
  GuildEntity, GuildMessage, GuildExistsOrCreate, region_name, existing, find_or_create, lookup_in,
  found_or_new, found_guild, to_guid, is_eu_region,
}
use cmnw.GuildJobs.Replies.{
  GuildSummary, LogCommand, save_log, update_guild_guid, detect_and_log_changes, run_commands,
  log_commands, log_name_change,
}
use cmnw.GuildJobs.Job.{Database, process}
use cmnw.Lifecycle.Changes.{IsCut}
use cmnw.GuildJobs.Logs.{is_changed_guild, detect_and_log_changes-IsCut}
use cmnw.GuildJobs.Summary.{summary_state, IsUnsuccessful, SavesIfUp, process-IsUnsuccessful}

abbrev sets : IdSets
sets = record {
  intersection = λ xs ys. keep (λ x. any (λ j. j == x) ys) xs;
  difference = λ xs ys. keep (λ x. not (any (λ j. j == x) ys)) xs;
}

abbrev entity : Text → Option Text → GuildEntity
entity name status = record {
  guid = codes "g@r";
  id = some 7;
  name = name;
  realm = codes "r";
  realm_id = 1;
  realm_name = codes "R";
  faction = some (codes "Horde");
  members_count = some 1;
  status = status;
  created_by = none;
  updated_by = none;
  updated_at = some 1000;
}

abbrev database : Database
database = record {
  find_realm = λ t. some (record { id = 1; slug = codes "r"; name = codes "R" });
  find_guild = λ guid.
      if same_text guid (codes "g@r")
      then some (entity (codes "G") (some (codes "-RMLG")))
      else none;
  find_by_id = λ id realm. some none;
  member_rows = λ guid. some [];
  master_row = λ guid. some none;
  find_character = λ guid. some none;
  commits = λ cs. true;
  fails = λ c. false;
  log_fails = λ c. false;
  no_key = false;
  save_fails = λ e. false;
}

abbrev message : GuildMessage
message = record {
  id = none;
  name = codes "g";
  realm = codes "r";
  region = some (region_name (codes "eu"));
  force_update = none;
  create_only_unique = false;
  created_by = none;
  updated_by = none;
}

abbrev fields : GuildSummary
fields = record {
  id = some 7;
  name = some (codes "G");
  faction = some (codes "Horde");
  realm = codes "r";
  realm_id = 1;
  realm_name = codes "R";
  members_count = 1;
}

abbrev read : Roster
read = record { members = some []; updated_at = 20; status_code = none; status = none }

abbrev same_name : Text → Text
same_name t = t

abbrev found : GuildExistsOrCreate
found = existing (entity (codes "G") (some (codes "--"))) false false

finds :
    find_or_create same_name database.find_realm database.find_guild 100000000 message ≡ some found
unfolding find_or_create lookup_in found_or_new found_guild is_too_recent or_number to_guid
finds = refl

is_eu : is_eu_region message.region ≡ true
unfolding is_eu_region
is_eu = refl

-- Every request succeeds, and yet the job is no success.
process-IsUnsuccessful_example :
    IsUnsuccessful
      (summary_state (replied (some fields)))
      (process same_name sets database 100000000 message (replied (some fields)) (some read))
    × SavesIfUp database
        (process same_name sets database 100000000 message (replied (some fields)) (some read))
process-IsUnsuccessful_example =
    process-IsUnsuccessful same_name sets database 100000000 message (replied (some fields))
      (some read) found finds refl refl is_eu

abbrev refuses_saves : LogCommand → Bool
refuses_saves (save_log l) = true
refuses_saves (update_guild_guid o n) = false

-- The log of a new name is refused after the guid has been changed in the others.
refused_log :
    detect_and_log_changes refuses_saves (entity (codes "G") none) (entity (codes "H") none)
    ≡ (codes "---l-", update_guild_guid (codes "g@r") (codes "g@r") ∷ [])
unfolding detect_and_log_changes run_commands log_commands log_name_change set_guild_status_string
    set_status index_of
refused_log = refl

abbrev changed : GuildEntity
changed = entity (codes "H") none

detect_and_log_changes-IsCut_example :
    let r = detect_and_log_changes refuses_saves (entity (codes "G") none) changed in
    IsCut refuses_saves (log_commands (entity (codes "G") none) changed) r.1
    × (r.0 ≡ (
        if any refuses_saves (log_commands (entity (codes "G") none) changed)
        then codes "---l-"
        else codes "---L-"))
    × ((log_commands (entity (codes "G") none) changed ≡ [])
        ↔ (is_changed_guild (entity (codes "G") none) changed ≡ false))
detect_and_log_changes-IsCut_example =
    detect_and_log_changes-IsCut refuses_saves (entity (codes "G") none) changed
