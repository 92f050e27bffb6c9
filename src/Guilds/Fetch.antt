-- ===== src/Guilds/Fetch.antt =====
-- The reading of a member of a roster in processRosterMember of
-- apps/osint/src/services/guild-roster.service.ts.
use cmnw.Prelude.{
  ℕ, ◌==◌, Option, none, some, [], ◌∷◌, if◌then◌else◌, Text, codes, truthy_number, map_get,
}
use cmnw.Roster.{Member}
use cmnw.GuildJobs.Lookup.{to_guid}
use cmnw.Guilds.Playable.{playable_class, playable_race}
use cmnw.Guilds.Saving.{text_or, FetchedGuild, FactionData, RosterEntry, GuildMember, Services}

module _ (s : Services) (g : FetchedGuild) where
  unfoldable pub resolve_realm_slug : Text → Option Text
  resolve_realm_slug input = elim (s.cached_slug input) [
    | none ↦ none
    | some none ↦ some (s.kebab_case input)
    | some (some slug) ↦ some slug
  ]

  abbrev pub faction_of_type : Option Text → Option Text
  faction_of_type none = g.faction
  faction_of_type (some []) = g.faction
  faction_of_type (some (c ∷ t)) = some (if c == b'A' then codes "Alliance" else codes "Horde")

  unfoldable pub resolved_faction : Option FactionData → Option Text
  resolved_faction none = g.faction
  resolved_faction (some f) = elim f.name [
    | none ↦ g.faction
    | some none ↦ faction_of_type f.type
    | some (some n) ↦ text_or (some n) g.faction
  ]

  abbrev pub entry_slug : RosterEntry → Text
  entry_slug e = elim e.realm_slug [ none ↦ g.realm | some t ↦ t ]

  abbrev pub entry_realm_id : RosterEntry → ℕ
  entry_realm_id e = elim e.realm_id [ none ↦ g.realm_id | some i ↦ i ]

  abbrev pub guild_member : RosterEntry → Text → ℕ → ℕ → GuildMember
  guild_member e slug class_id race_id = record {
    guid = to_guid s.kebab_case e.name slug;
    id = e.id;
    guild_name_slug = s.kebab_case g.name;
    realm_slug = slug;
    rank = e.rank;
    level = truthy_number e.level;
    class_name = map_get class_id playable_class;
    race = map_get race_id playable_race;
    faction = resolved_faction e.faction;
  }

  -- The member as it is saved, unless the lookup of the realm throws or the class or race is missing.
  unfoldable pub read_member : RosterEntry → Option GuildMember
  read_member e = elim (resolve_realm_slug (entry_slug e)) [
    | none ↦ none
    | some slug ↦ elim e.class_id [
      | none ↦ none
      | some class_id ↦ elim e.race_id [
        | none ↦ none
        | some race_id ↦ some (guild_member e slug class_id race_id)
      ]
    ]
  ]

  -- The member as the roster has it.
  unfoldable pub listed : RosterEntry → GuildMember → Member
  listed e m = record {
    guid = m.guid;
    id = m.id;
    rank = m.rank;
    realm_id = entry_realm_id e;
    realm_slug = m.realm_slug;
  }
