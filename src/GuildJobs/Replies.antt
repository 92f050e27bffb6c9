-- ===== src/GuildJobs/Replies.antt =====
-- The summary, apps/osint/src/services/guild-summary.service.ts, and the changes that are logged,
-- apps/osint/src/services/guild-log.service.ts.
use cmnw.Prelude.{
  ℕ, Bool, true, false, Option, none, some, List, [], ◌∷◌, ◌++◌, if◌then◌else◌, Text, codes,
  same_text, same_option,
}
use cmnw.Status.{success, error}
use cmnw.Status.Guild.{summary, logs, set_guild_status_string}
use cmnw.Characters.Requests.{Reply, replied, failed}
use cmnw.Characters.Data.{assign_some}
use cmnw.GuildJobs.Lookup.{GuildEntity}

-- What populateSummary takes from a reply; the faction as transformFaction gives it.
pub record GuildSummary : Type 0 where
  pub id : Option ℕ
  pub name : Option Text
  pub faction : Option Text
  pub realm : Text
  pub realm_id : ℕ
  pub realm_name : Text
  pub members_count : ℕ

-- Partial<IGuildSummary>: the fields of a summary, or none of them, and perhaps a status.
pub record SummaryResult : Type 0 where
  pub fields : Option GuildSummary
  pub status : Option Text

-- A reply that is not a summary gives an empty object.
unfoldable pub get_summary : Reply (Option GuildSummary) → SummaryResult
get_summary (replied s) = record { fields = s; status = none }
get_summary failed = record {
  fields = none;
  status = some (set_guild_status_string (codes "-----") summary error);
}

unfoldable pub assign_fields : Option GuildSummary → GuildEntity → GuildEntity
assign_fields none e = e
assign_fields (some s) e = record e {
  id = assign_some s.id e.id;
  name = elim s.name [ none ↦ e.name | some n ↦ n ];
  faction = assign_some s.faction e.faction;
  realm = s.realm;
  realm_id = s.realm_id;
  realm_name = s.realm_name;
  members_count = some s.members_count;
}

-- `Object.assign(guildEntity, summaryResult)`
unfoldable pub assign_result : SummaryResult → GuildEntity → GuildEntity
assign_result r e =
    let assigned = assign_fields r.fields e in
    record assigned { status = assign_some r.status e.status }

-- CharactersGuildsLogsEntity of a guild.
pub record GuildLog : Type 0 where
  pub guild_guid : Text
  pub original : Option Text
  pub updated : Option Text
  pub is_name : Bool
  pub scanned_at : Option ℕ
  pub created_at : Option ℕ

pub data LogCommand : Type 0 where
  update_guild_guid : (old_guid new_guid : Text) → LogCommand
  save_log : GuildLog → LogCommand

unfoldable pub log_name_change : GuildEntity → GuildEntity → LogCommand
log_name_change original updated = save_log (record {
  guild_guid = updated.guid;
  original = some original.name;
  updated = some updated.name;
  is_name = true;
  scanned_at = original.updated_at;
  created_at = updated.updated_at;
})

unfoldable pub log_faction_change : GuildEntity → GuildEntity → LogCommand
log_faction_change original updated = save_log (record {
  guild_guid = updated.guid;
  original = original.faction;
  updated = updated.faction;
  is_name = false;
  scanned_at = original.updated_at;
  created_at = updated.updated_at;
})

-- The commands that a change asks for, in their order.
unfoldable pub log_commands : GuildEntity → GuildEntity → List LogCommand
log_commands original updated =
    (if same_text original.name updated.name
      then []
      else update_guild_guid original.guid updated.guid ∷ log_name_change original updated ∷ [])
    ++ (if same_option original.faction updated.faction
        then []
        else log_faction_change original updated ∷ [])

-- Whether all commands have succeeded, and those that have: the first that fails ends the list.
unfoldable pub run_commands : (LogCommand → Bool) → List LogCommand → Bool × List LogCommand
run_commands fails [] = (true, [])
run_commands fails (c ∷ cs) =
    let rest = run_commands fails cs in if fails c then (false, []) else (rest.0, c ∷ rest.1)

unfoldable pub detect_and_log_changes :
    (LogCommand → Bool) → GuildEntity → GuildEntity → Text × List LogCommand
detect_and_log_changes fails original updated =
    let done = run_commands fails (log_commands original updated) in
    (set_guild_status_string (codes "-----") logs (if done.0 then success else error), done.1)
