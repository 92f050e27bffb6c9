-- ===== src/Guilds/Saving.antt =====
-- characterAsGuildMember of libs/resources/src/dao/character.dao.ts, on a table of characters, with the
-- data that the fetching of a roster reads. lodash's kebabCase, the lookups of realms, the queue and
-- the failures of the database are parameters.
use cmnw.Prelude.{
  ℕ, Bool, false, ltb, Option, none, some, List, [], ◌∷◌, ◌++◌, if◌then◌else◌, Text, same_option,
  truthy_number, truthy_text,
}
use cmnw.Lifecycle.{Realm, or_else}
use cmnw.GuildJobs.Lookup.{to_guid}
use cmnw.Guilds.{RosterError}

-- GuildsEntity, in so far as it is read here.
pub record FetchedGuild : Type 0 where
  pub guid : Text
  pub id : ℕ
  pub name : Text
  pub realm : Text
  pub realm_id : ℕ
  pub faction : Option Text
  pub last_modified : Option ℕ

-- A faction, whose name may be missing or null.
pub record FactionData : Type 0 where
  pub type : Option Text
  pub name : Option (Option Text)

-- IRGuildRosterMember; a class or a race that is missing is a TypeError.
pub record RosterEntry : Type 0 where
  pub rank : ℕ
  pub id : ℕ
  pub name : Text
  pub level : Option ℕ
  pub class_id : Option ℕ
  pub race_id : Option ℕ
  pub realm_id : Option ℕ
  pub realm_slug : Option Text
  pub faction : Option FactionData

-- A reply that may name the guild and have a list of members, each of which may lack a character or
-- a rank; or an error.
pub data RosterReply : Type 0 where
  replied : (has_guild : Bool) → Option (List (Option RosterEntry)) → RosterReply
  request_failed : RosterError → RosterReply

-- CharactersEntity, in so far as it is read and written here.
pub record CharacterRow : Type 0 where
  pub guid : Text
  pub id : ℕ
  pub guild_guid : Option Text
  pub guild : Option Text
  pub guild_id : Option ℕ
  pub guild_rank : Option ℕ
  pub level : Option ℕ
  pub class_name : Option Text
  pub race : Option Text
  pub faction : Option Text
  pub last_modified : Option ℕ
  pub updated_at : Option ℕ

-- ICharacterGuildMember
pub record GuildMember : Type 0 where
  pub guid : Text
  pub id : ℕ
  pub guild_name_slug : Text
  pub realm_slug : Text
  pub rank : ℕ
  pub level : Option ℕ
  pub class_name : Option Text
  pub race : Option Text
  pub faction : Option Text

-- What CharacterMessageDto.fromGuildMaster makes a job of, less the constants.
pub record MasterMessage : Type 0 where
  pub id : ℕ
  pub name : Text
  pub realm : Text
  pub guild : Text
  pub guild_guid : Text
  pub guild_id : ℕ
  pub class_name : Option Text
  pub race : Option Text
  pub faction : Option Text
  pub level : Option ℕ
  pub last_modified : Option ℕ

-- What is called: `none` and true stand for a throw.
pub record Services : Type 0 where
  pub now : ℕ
  pub kebab_case : Text → Text
  pub cached_slug : Text → Option (Option Text)
  pub find_realm : Text → Option (Option Realm)
  pub query_fails : Text → Bool
  pub refuses : CharacterRow → Bool
  pub refuses_job : MasterMessage → Bool

unfoldable pub find_row : Text → List CharacterRow → Option CharacterRow
find_row guid [] = none
find_row guid (r ∷ rs) = if same_option (some r.guid) (some guid) then some r else find_row guid rs

-- `save` of a row that was found
unfoldable pub put_row : CharacterRow → List CharacterRow → List CharacterRow
put_row r [] = []
put_row r (q ∷ qs) = if same_option (some q.guid) (some r.guid) then r ∷ qs else q ∷ put_row r qs

-- isGuildUpdateMoreRecent
unfoldable pub is_guild_update_more_recent : Option ℕ → Option ℕ → Bool
is_guild_update_more_recent none c = false
is_guild_update_more_recent (some g) none = false
is_guild_update_more_recent (some g) (some c) = ltb c g

abbrev pub number_or : Option ℕ → Option ℕ → Option ℕ
number_or new old = elim (truthy_number new) [ none ↦ old | some n ↦ some n ]

abbrev pub text_or : Option Text → Option Text → Option Text
text_or new old = elim (truthy_text new) [ none ↦ old | some t ↦ some t ]

unfoldable pub row_in_guild : FetchedGuild → GuildMember → CharacterRow → CharacterRow
row_in_guild g m c = record c {
  guild_guid = some g.guid;
  guild = some g.name;
  guild_id = some g.id;
  guild_rank = some m.rank;
  level = number_or m.level c.level;
  class_name = text_or m.class_name c.class_name;
  race = text_or m.race c.race;
  faction = text_or m.faction c.faction;
  last_modified = g.last_modified;
}

unfoldable pub row_with_rank : GuildMember → CharacterRow → CharacterRow
row_with_rank m c = record c { guild_rank = some m.rank; faction = text_or m.faction c.faction }

unfoldable pub new_character_row : Services → FetchedGuild → GuildMember → CharacterRow
new_character_row s g m = record {
  guid = m.guid;
  id = m.id;
  guild_guid = some (to_guid s.kebab_case m.guild_name_slug g.realm);
  guild = some g.name;
  guild_id = some g.id;
  guild_rank = some m.rank;
  level = m.level;
  class_name = m.class_name;
  race = m.race;
  faction = or_else m.faction g.faction;
  last_modified = g.last_modified;
  updated_at = some s.now;
}

module _ (s : Services) (g : FetchedGuild) where
  unfoldable pub save_existing : CharacterRow → List CharacterRow → Option (List CharacterRow)
  save_existing c rows =
      if s.refuses c then none else some (put_row (record c { updated_at = some s.now }) rows)

  unfoldable pub create_in_realm :
      GuildMember → Option (Option Realm) → List CharacterRow → Option (List CharacterRow)
  create_in_realm m none rows = none
  create_in_realm m (some none) rows = some rows
  create_in_realm m (some (some realm)) rows =
      if s.refuses (new_character_row s g m)
      then none
      else some (rows ++ new_character_row s g m ∷ [])

  unfoldable pub save_found :
      GuildMember → Option CharacterRow → List CharacterRow → Option (List CharacterRow)
  save_found m none rows = create_in_realm m (s.find_realm m.realm_slug) rows
  save_found m (some c) rows =
      if is_guild_update_more_recent g.last_modified c.updated_at
      then save_existing (row_in_guild g m c) rows
      else if same_option (some g.guid) c.guild_guid
      then save_existing (row_with_rank m c) rows
      else some rows

  unfoldable pub character_as_guild_member :
      GuildMember → List CharacterRow → Option (List CharacterRow)
  character_as_guild_member m rows =
      if s.query_fails m.guid then none else save_found m (find_row m.guid rows) rows
