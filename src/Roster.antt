-- ===== src/Roster.antt =====
-- The members of a guild: apps/osint/src/services/guild-member.service.ts. The three repositories
-- are TypeORM's; what the service asks of them is a list of commands, in the order in which it
-- issues them. The members of one phase are handled at the same time in the source; their commands
-- stand here in the order of the ids.
pub mod Table
pub mod Steps
pub mod Visits
pub mod Final
pub mod Logs
pub mod Examples
use cmnw.Prelude.{
  ℕ, zero, suc, Bool, true, false, not, ◌&&◌, ◌||◌, Option, none, some, List, [], ◌∷◌, ◌++◌, ◌≡◌,
  ltb, ◌==◌, if◌then◌else◌, keep, any, length, Text, codes, show, map_get, map_keys, map_of,
}
use cmnw.Status.{success, error}
use cmnw.Status.Guild.{set_guild_status_string, members}

-- ACTION_LOG of libs/resources/src/constants/osint.constants.ts, as far as guilds use it.
pub data Action : Type 0 where
  promote demote join leave guild_transit guild_inherit guild_ownership : Action

-- OSINT_GM_RANK
abbrev pub gm_rank : ℕ
gm_rank = 0

-- The fields of GuildsEntity that are read here.
pub record Guild : Type 0 where
  pub guid : Text
  pub id : ℕ
  pub name : Text
  pub updated_at : ℕ

-- IGuildMember, less the fields that the service does not read.
pub record Member : Type 0 where
  pub guid : Text
  pub id : ℕ
  pub rank : ℕ
  pub realm_id : ℕ
  pub realm_slug : Text

-- IGuildRoster; `members` is missing from the roster that stands for a failed request.
pub record Roster : Type 0 where
  pub members : Option (List Member)
  pub updated_at : ℕ
  pub status_code : Option ℕ
  pub status : Option Text

-- CharactersGuildsMembersEntity, less the two sources, which are always the guild roster.
pub record MemberRow : Type 0 where
  pub guild_guid : Text
  pub guild_id : ℕ
  pub character_id : ℕ
  pub character_guid : Text
  pub realm_id : ℕ
  pub realm : Text
  pub rank : ℕ
  pub last_modified : ℕ

-- CharactersGuildsLogsEntity
pub record LogRow : Type 0 where
  pub character_guid : Text
  pub guild_guid : Text
  pub original : Option Text
  pub updated : Option Text
  pub action : Action
  pub scanned_at : ℕ
  pub created_at : ℕ

-- What the service asks of its repositories.
pub data Command : Type 0 where
  save_log : LogRow → Command
  save_member : MemberRow → Command
  update_member : (character_guid guild_guid : Text) (rank : ℕ) → Command
  delete_member : (guild_guid character_guid : Text) → Command
  update_rank : (guid : Text) (id rank : ℕ) → Command
  enter_guild : (guid : Text) (id : ℕ) (guild : Guild) (rank : ℕ) → Command
  clear_guild : (guid guild_guid : Text) → Command

-- lodash's `intersection` and `difference`.
pub record IdSets : Type 0 where
  pub intersection : List ℕ → List ℕ → List ℕ
  pub difference : List ℕ → List ℕ → List ℕ

-- RosterComparisonResult
pub record Comparison : Type 0 where
  pub original_roster : List (ℕ × MemberRow)
  pub updated_roster : List (ℕ × Member)
  pub intersect_ids : List ℕ
  pub joined_ids : List ℕ
  pub leave_ids : List ℕ
  pub is_first_time_roster_indexed : Bool

unfoldable pub compare_rosters : IdSets → List MemberRow → List Member → Comparison
compare_rosters sets rows updated =
    let original_roster = map_of (λ (r : MemberRow). r.character_id) [] rows in
    let updated_roster = map_of (λ (m : Member). m.id) [] updated in
    record {
      original_roster = original_roster;
      updated_roster = updated_roster;
      intersect_ids = sets.intersection (map_keys updated_roster) (map_keys original_roster);
      joined_ids = sets.difference (map_keys updated_roster) (map_keys original_roster);
      leave_ids = sets.difference (map_keys original_roster) (map_keys updated_roster);
      is_first_time_roster_indexed = length original_roster == 0;
    }

-- The entity that `processJoinMember` creates.
abbrev pub joined_row : Guild → ℕ → Member → MemberRow
joined_row guild at u = record {
  guild_guid = guild.guid;
  guild_id = guild.id;
  character_id = u.id;
  character_guid = u.guid;
  realm_id = u.realm_id;
  realm = u.realm_slug;
  rank = u.rank;
  last_modified = at;
}

unfoldable pub flat_map : {V : Type 0} → (ℕ → List V) → List ℕ → List V
flat_map f [] = []
flat_map f (i ∷ is) = f i ++ flat_map f is

-- `fails` says which commands the database rejects.
module _ (fails : Command → Bool) (guild : Guild) (at : ℕ) where
  -- `settleAndLog`: each command is tried, and a failure is logged only.
  unfoldable pub settle_and_log : List Command → List Command
  settle_and_log = keep (λ c. not (fails c))

  -- A command that is awaited by itself: the rest is left out if it fails.
  unfoldable pub awaited : Command → List Command → List Command
  awaited c rest = if fails c then [] else c ∷ rest

  unfoldable pub rank_commands : MemberRow → Member → List Command
  rank_commands o u =
      save_log (record {
        character_guid = o.character_guid;
        guild_guid = guild.guid;
        original = some (show o.rank);
        updated = some (show u.rank);
        action = if ltb o.rank u.rank then demote else promote;
        scanned_at = guild.updated_at;
        created_at = at;
      })
      ∷ update_rank u.guid u.id u.rank
      ∷ update_member o.character_guid guild.guid u.rank
      ∷ []

  unfoldable pub rank_change : MemberRow → Member → List Command
  rank_change o u =
      if u.rank == o.rank
      then []
      else if (o.rank == gm_rank) || (u.rank == gm_rank)
      then []
      else settle_and_log (rank_commands o u)

  -- A missing entry is a TypeError, which is caught and logged.
  unfoldable pub process_intersection_member :
      List (ℕ × MemberRow) → List (ℕ × Member) → ℕ → List Command
  process_intersection_member originals updateds i = elim (map_get i originals) [
    | none ↦ []
    | some o ↦ elim (map_get i updateds) [ none ↦ [] | some u ↦ rank_change o u ]
  ]

  unfoldable pub join_commands : Bool → Member → List Command
  join_commands is_first u =
      let changes =
        settle_and_log
          (save_member (joined_row guild at u) ∷ enter_guild u.guid u.id guild u.rank ∷ []) in
      let log : LogRow = record {
        character_guid = u.guid;
        guild_guid = guild.guid;
        original = none;
        updated = some (show u.rank);
        action = join;
        scanned_at = guild.updated_at;
        created_at = at;
      } in
      if not (u.rank == gm_rank) && not is_first then awaited (save_log log) changes else changes

  unfoldable pub process_join_member : Bool → List (ℕ × Member) → ℕ → List Command
  process_join_member is_first updateds i = elim (map_get i updateds) [
    | none ↦ []
    | some u ↦ join_commands is_first u
  ]

  unfoldable pub leave_commands : MemberRow → List Command
  leave_commands o =
      let changes = settle_and_log (
        delete_member guild.guid o.character_guid ∷ clear_guild o.character_guid guild.guid ∷ []) in
      let log : LogRow = record {
        character_guid = o.character_guid;
        guild_guid = guild.guid;
        original = some (show o.rank);
        updated = none;
        action = leave;
        scanned_at = guild.updated_at;
        created_at = at;
      } in
      if not (o.rank == gm_rank) then awaited (save_log log) changes else changes

  unfoldable pub process_leave_member : List (ℕ × MemberRow) → ℕ → List Command
  process_leave_member originals i = elim (map_get i originals) [
    | none ↦ []
    | some o ↦ leave_commands o
  ]

  unfoldable pub process_roster_changes : Comparison → List Command
  process_roster_changes c =
      flat_map (process_intersection_member c.original_roster c.updated_roster) c.intersect_ids
      ++ (flat_map (process_join_member c.is_first_time_roster_indexed c.updated_roster)
            c.joined_ids
          ++ flat_map (process_leave_member c.original_roster) c.leave_ids)

-- `updateRoster`: the roster with its new status, and the commands. `rows` is what `findBy`
-- returns, or `none` where it throws.
unfoldable pub update_roster :
    IdSets → (Command → Bool) → Guild → Roster → Option (List MemberRow) → Roster × List Command
update_roster sets fails guild roster rows =
    let succeeded = record roster {
      status = some (set_guild_status_string (codes "-----") members success);
    } in
    let broken = record roster {
      status = some (set_guild_status_string (codes "-----") members error);
    } in
    elim roster.members [
      | none ↦ (broken, [])
      | some [] ↦ (succeeded, [])
      | some (m ∷ ms) ↦ elim rows [
        | none ↦ (broken, [])
        | some rs ↦ (
          succeeded,
          process_roster_changes fails guild roster.updated_at (compare_rosters sets rs (m ∷ ms)),
        )
      ]
    ]
