-- ===== src/GuildJobs/Job.antt =====
-- A job from its message to the save: process of apps/osint/src/workers/guilds.worker.ts.
use cmnw.Prelude.{
  ℕ, Bool, not, ◌&&◌, ◌||◌, Option, none, some, List, [], if◌then◌else◌, Text, codes, truthy_text,
}
use cmnw.Status.Guild.{is_core_guild_success_in_string, has_core_guild_error_in_string}
use cmnw.Roster.{Guild, MemberRow, Roster, Command, IdSets}
use cmnw.Guilds.{
  Character, Change, detect_and_log_guild_master_change, roster_result, roster_status_of,
}
use cmnw.Lifecycle.{Realm}
use cmnw.Characters.Requests.{Reply}
use cmnw.Characters.Data.{Verdict, succeeded, partial, noted}
use cmnw.GuildJobs.Lookup.{
  GuildEntity, GuildMessage, GuildExistsOrCreate, is_eu_region, find_or_create,
}
use cmnw.GuildJobs.Replies.{
  GuildSummary, LogCommand, get_summary, assign_result, detect_and_log_changes,
}

-- What a job reads from the database and which of its writes fail; a query gives `none` where it
-- throws. The last two say whether there is no key, and which save of a guild fails.
pub record Database : Type 0 where
  pub find_realm : Text → Option Realm
  pub find_guild : Text → Option GuildEntity
  pub find_by_id : Option ℕ → Text → Option (Option GuildEntity)
  pub member_rows : Text → Option (List MemberRow)
  pub master_row : Text → Option (Option MemberRow)
  pub find_character : Text → Option (Option Character)
  pub commits : List Change → Bool
  pub fails : Command → Bool
  pub log_fails : LogCommand → Bool
  pub no_key : Bool
  pub save_fails : GuildEntity → Bool

-- A log's status: a new guild is compared with the one that has its id, if there is one.
unfoldable pub compare_new_guild :
    Database → Option (Option GuildEntity) → GuildEntity → Option (Text × List LogCommand)
compare_new_guild db none e = none
compare_new_guild db (some none) e = some (codes "-----", [])
compare_new_guild db (some (some by_id)) e = some (detect_and_log_changes db.log_fails by_id e)

unfoldable pub log_status :
    Database → (is_new : Bool) → (snapshot updated : GuildEntity) → Option (Text × List LogCommand)
log_status db is_new snapshot e =
    if is_new
    then compare_new_guild db (db.find_by_id snapshot.id snapshot.realm) e
    else some (detect_and_log_changes db.log_fails snapshot e)

abbrev pub status_text : Option (Text × List LogCommand) → Option Text
status_text none = none
status_text (some r) = some r.0

-- A number that is not set is nought to the roster, as in a new guild.
abbrev pub or_nought : Option ℕ → ℕ
or_nought none = 0
or_nought (some n) = n

abbrev pub roster_guild : GuildEntity → Guild
roster_guild e = record {
  guid = e.guid;
  id = or_nought e.id;
  name = e.name;
  updated_at = or_nought e.updated_at;
}

unfoldable pub log_guild_result : Text → Verdict
log_guild_result status =
    if is_core_guild_success_in_string status
    then succeeded
    else if has_core_guild_error_in_string status
    then partial
    else noted

-- What a job does: a skip, a stop outside of the region, a throw, or a save (with whether it is
-- counted as a success, and what is reported).
pub data GuildResult : Type 0 where
  skipped : GuildResult
  not_eu : GuildResult
  threw : GuildResult
  saved : GuildEntity → Bool → Verdict → GuildResult

abbrev pub text_or_empty : Option Text → Text
text_or_empty none = []
text_or_empty (some s) = s

abbrev pub updated_by_of : GuildMessage → GuildEntity → GuildEntity
updated_by_of m e = elim (truthy_text m.updated_by) [
  | none ↦ e
  | some s ↦ record e { updated_by = some s }
]

unfoldable pub aggregated_status :
    IdSets → Database → Option Roster → GuildExistsOrCreate → GuildEntity → Text
aggregated_status sets db fetched found e =
    let snapshot = roster_guild found.guild_entity in
    let at = or_nought e.updated_at in
    (roster_status_of sets db.fails snapshot at fetched (db.member_rows snapshot.guid)
      (text_or_empty e.status) (status_text (log_status db found.is_new found.guild_entity e))
      (some
        (detect_and_log_guild_master_change db.find_character db.commits snapshot
          (db.master_row snapshot.guid)
          (record (roster_result fetched at) { updated_at = at })).0)).0

unfoldable pub update_guild :
    IdSets
    → Database
    → GuildMessage
    → Reply (Option GuildSummary)
    → Option Roster
    → GuildExistsOrCreate
    → GuildResult
update_guild sets db m reply fetched found =
    let e = assign_result (get_summary reply) (updated_by_of m found.guild_entity) in
    let status = aggregated_status sets db fetched found e in
    let after = record e { status = some status } in
    if db.no_key || db.save_fails after
    then threw
    else saved after
        (not (has_core_guild_error_in_string status) && is_core_guild_success_in_string status)
        (log_guild_result status)

unfoldable pub process_guild :
    IdSets
    → Database
    → GuildMessage
    → Reply (Option GuildSummary)
    → Option Roster
    → Option GuildExistsOrCreate
    → GuildResult
process_guild sets db m reply fetched none = threw
process_guild sets db m reply fetched (some found) =
    if found.is_not_ready_to_update || found.is_create_only_unique
    then skipped
    else if is_eu_region m.region
    then update_guild sets db m reply fetched found
    else not_eu

unfoldable pub process :
    (Text → Text)
    → IdSets
    → Database
    → (now : ℕ) → GuildMessage
    → Reply (Option GuildSummary)
    → Option Roster
    → GuildResult
process kebab_case sets db now m reply fetched =
    process_guild sets db m reply fetched
      (find_or_create kebab_case db.find_realm db.find_guild now m)
