-- ===== src/Guilds/Fetching.antt =====
-- The members of a roster in the order in which they are done with, and fetchRoster, of
-- apps/osint/src/services/guild-roster.service.ts.
use cmnw.Prelude.{
  ℕ, Bool, false, ◌==◌, Option, none, some, List, [], ◌∷◌, ◌++◌, if◌then◌else◌, codes,
}
use cmnw.Status.{success}
use cmnw.Status.Guild.{set_guild_status_string, roster}
use cmnw.Roster.{Member, Roster, gm_rank}
use cmnw.Lifecycle.{or_else}
use cmnw.GuildJobs.Lookup.{to_guid}
use cmnw.Guilds.{other_error, handle_roster_error}
use cmnw.Guilds.Saving.{
  FetchedGuild, RosterEntry, RosterReply, replied, request_failed, CharacterRow, GuildMember,
  MasterMessage, Services, character_as_guild_member,
}
use cmnw.Guilds.Fetch.{read_member, listed}

-- The table of characters, the members that are pushed, and the jobs that are added.
pub record Fetching : Type 0 where
  pub rows : List CharacterRow
  pub members : List Member
  pub queued : List MasterMessage

-- isGuildRoster
unfoldable pub is_guild_roster : Bool → Option (List (Option RosterEntry)) → Bool
is_guild_roster has_guild none = false
is_guild_roster has_guild (some []) = false
is_guild_roster has_guild (some (e ∷ es)) = has_guild

unfoldable pub roster_with : ℕ → List Member → Roster
roster_with at ms = record { members = some ms; updated_at = at; status_code = none; status = none }

module _ (s : Services) (g : FetchedGuild) where
  unfoldable pub master_message : RosterEntry → GuildMember → MasterMessage
  master_message e m = record {
    id = m.id;
    name = e.name;
    realm = m.realm_slug;
    guild = g.name;
    guild_guid = to_guid s.kebab_case g.name g.realm;
    guild_id = g.id;
    class_name = m.class_name;
    race = m.race;
    faction = or_else m.faction g.faction;
    level = m.level;
    last_modified = g.last_modified;
  }

  unfoldable pub save_and_list : RosterEntry → GuildMember → Fetching → Fetching
  save_and_list e m f = elim (character_as_guild_member s g m f.rows) [
    | none ↦ f
    | some rows ↦ record f { rows = rows; members = f.members ++ listed s g e m ∷ [] }
  ]

  unfoldable pub queue_guild_master_update : RosterEntry → GuildMember → Fetching → Option Fetching
  queue_guild_master_update e m f =
      if s.refuses_job (master_message e m)
      then none
      else some (record f { queued = f.queued ++ master_message e m ∷ [] })

  unfoldable pub process_read_member : RosterEntry → GuildMember → Fetching → Fetching
  process_read_member e m f =
      let plain = save_and_list e m f in
      if e.rank == gm_rank
      then elim (queue_guild_master_update e m f) [ none ↦ f | some f' ↦ save_and_list e m f' ]
      else plain

  -- An error is caught, and what was done before it stays.
  unfoldable pub process_roster_member : Option RosterEntry → Fetching → Fetching
  process_roster_member none f = f
  process_roster_member (some e) f = elim (read_member s g e) [
    | none ↦ f
    | some m ↦ process_read_member e m f
  ]

  unfoldable pub process_members : List (Option RosterEntry) → Fetching → Fetching
  process_members [] f = f
  process_members (e ∷ es) f = process_members es (process_roster_member e f)

  abbrev pub entries_of : Option (List (Option RosterEntry)) → List (Option RosterEntry)
  entries_of none = []
  entries_of (some es) = es

  -- `settle` says in which order the members of the reply are done with; as many run at the same
  -- time as `mergeMap` allows, and each is taken to be alone with the row of its character. The worker sets `updated_at` to the time that is given here.
  unfoldable pub fetch_roster :
      (List (Option RosterEntry) → List (Option RosterEntry))
      → ℕ
      → RosterReply
      → List CharacterRow
      → Roster × Fetching
  fetch_roster settle at (request_failed error) rows = (
    handle_roster_error error (roster_with at []),
    record { rows = rows; members = []; queued = [] },
  )
  fetch_roster settle at (replied has_guild entries) rows =
      let start : Fetching = record { rows = rows; members = []; queued = [] } in
      let f = process_members (settle (entries_of entries)) start in
      if is_guild_roster has_guild entries
      then (
        record (roster_with at f.members) {
          status = some (set_guild_status_string (codes "-----") roster success);
        },
        f,
      )
      else (handle_roster_error (other_error none) (roster_with at []), start)
