-- ===== src/Guilds/Fetched.antt =====
-- A roster with two members, and one with a member who has no class.
use cmnw.Prelude.{
  ℕ, true, false, Option, none, some, List, [], ◌∷◌, ◌≡◌, refl, codes, ◌==◌, any, keep, not, map,
  map_get, truthy_number, truthy_text,
}
use cmnw.Status.{success}
use cmnw.GuildJobs.Lookup.{to_guid}
use cmnw.Status.Guild.{set_guild_status_string, roster}
use mathlib.Core.List.{Permᴰ}
use mathlib.Core.List.Permᴰ
use cmnw.Roster.{Guild, Member, IdSets}
use cmnw.Guilds.Saving.{
  FetchedGuild, RosterEntry, replied, CharacterRow, Services, character_as_guild_member, save_found,
  save_existing, row_in_guild, is_guild_update_more_recent, find_row, put_row,
}
use cmnw.Guilds.Fetch.{read_member, resolve_realm_slug, resolved_faction, listed}
use cmnw.Guilds.Fetching.{
  fetch_roster, process_members, process_roster_member, process_read_member,
  queue_guild_master_update, save_and_list, is_guild_roster,
}
use cmnw.Guilds.Listing.{IsOrder}
use cmnw.Guilds.Listed.{AreUp, can_read, member_rank, fetch_roster-listed}

abbrev fetched_guild : FetchedGuild
fetched_guild = record {
  guid = codes "g@r";
  id = 7;
  name = codes "G";
  realm = codes "r";
  realm_id = 1;
  faction = some (codes "Horde");
  last_modified = some 10;
}

abbrev services : Services
services = record {
  now = 30;
  kebab_case = λ t. t;
  cached_slug = λ t. some none;
  find_realm = λ t. some (some (record { id = 1; slug = t; name = t }));
  query_fails = λ t. false;
  refuses = λ r. false;
  refuses_job = λ j. false;
}

services-AreUp : AreUp services
services-AreUp = record {
  queries = λ t. refl;
  saves = λ r. refl;
  jobs = λ j. refl;
  realms = λ t. refl;
}

abbrev entry : ℕ → Option ℕ → ℕ → RosterEntry
entry i class_id rank = record {
  rank = rank;
  id = i;
  name = codes "n";
  level = some 80;
  class_id = class_id;
  race_id = some 2;
  realm_id = none;
  realm_slug = some (codes "s");
  faction = some (record { type = some (codes "ALLIANCE"); name = some none });
}

-- An older row of another guild gets the guild; the faction is that of the type.
abbrev old_row : CharacterRow
old_row = record {
  guid = codes "n@s";
  id = 2;
  guild_guid = none;
  guild = none;
  guild_id = none;
  guild_rank = none;
  level = some 70;
  class_name = none;
  race = none;
  faction = none;
  last_modified = none;
  updated_at = some 5;
}

abbrev in_turn : List (Option RosterEntry) → List (Option RosterEntry)
in_turn es = es

fetched_rows :
    (fetch_roster services fetched_guild in_turn 20
      (replied true (some (some (entry 2 (some 13) 0) ∷ [])))
      (old_row ∷ [])).1.rows
    ≡ record old_row {
      guild_guid = some (codes "g@r");
      guild = some (codes "G");
      guild_id = some 7;
      guild_rank = some 0;
      level = some 80;
      class_name = some (codes "Evoker");
      race = some (codes "Orc");
      faction = some (codes "Alliance");
      last_modified = some 10;
      updated_at = some 30;
    }
      ∷ []
unfolding fetch_roster is_guild_roster process_members process_roster_member read_member
    resolve_realm_slug process_read_member queue_guild_master_update save_and_list
    character_as_guild_member save_found find_row to_guid is_guild_update_more_recent save_existing
    put_row row_in_guild truthy_number truthy_text listed resolved_faction map_get
fetched_rows = refl

abbrev last_first : List (Option RosterEntry) → List (Option RosterEntry)
last_first [] = []
last_first (a ∷ []) = a ∷ []
last_first (a ∷ b ∷ es) = b ∷ a ∷ es

last_first-Permᴰ : (es : List (Option RosterEntry)) → Permᴰ (last_first es) es
last_first-Permᴰ [] = Permᴰ.nil
last_first-Permᴰ (a ∷ []) = Permᴰ.refl (a ∷ [])
last_first-Permᴰ (a ∷ b ∷ es) = Permᴰ.swap refl refl

last_first-IsOrder : IsOrder last_first
last_first-IsOrder = record { reorders = last_first-Permᴰ }

readable :
    any
      (λ x. not (can_read services fetched_guild x))
      (some (entry 2 (some 13) 0) ∷ some (entry 1 (some 1) 3) ∷ [])
    ≡ false
unfolding read_member resolve_realm_slug
readable = refl

-- The second of two entries is done with first.
fetch_roster-listed_example :
    let fetched =
      (fetch_roster services fetched_guild last_first 20
        (replied true (some (some (entry 2 (some 13) 0) ∷ some (entry 1 (some 1) 3) ∷ [])))
        (old_row ∷ [])).0 in
    (fetched.status ≡ some (set_guild_status_string (codes "-----") roster success))
    × (ms : List Member) × (fetched.members ≡ some ms)
    × Permᴰ (map member_rank ms) ((2, 0) ∷ (1, 3) ∷ [])
fetch_roster-listed_example =
    fetch_roster-listed services fetched_guild last_first 20 (some (entry 2 (some 13) 0))
      (some (entry 1 (some 1) 3) ∷ []) (old_row ∷ []) services-AreUp last_first-IsOrder readable

abbrev filters : IdSets
filters = record {
  intersection = λ xs ys. keep (λ x. any (λ j. j == x) ys) xs;
  difference = λ xs ys. keep (λ x. not (any (λ j. j == x) ys)) xs;
}

-- The guild whose members are brought up to date.
abbrev guild_row : Guild
guild_row = record { guid = codes "g@r"; id = 7; name = codes "G"; updated_at = 20 }
