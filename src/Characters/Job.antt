-- ===== src/Characters/Job.antt =====
-- A job from its message to the save: process of apps/osint/src/workers/characters.worker.ts and
-- inheritSafeValuesFromArgs of apps/osint/src/services/character.service.ts.
use cmnw.Prelude.{
  ℕ, Bool, true, false, not, ◌&&◌, ◌||◌, Option, none, some, List, [], ltb, if◌then◌else◌, Text,
  truthy_number, truthy_text, is_some,
}
use cmnw.Lifecycle.{
  Message, Realm, Character, ExistsOrCreate, ChangeLog, find_or_create_character,
  handle_existing_character_updates,
}
use cmnw.Characters.Requests.{Reply, StatusResponse, StatusPart, Entity, get_status}
use cmnw.Characters.Data.{
  Replies, Verdict, assign_some, fetch_and_update_character_data, log_character_result,
}

-- inheritSafeValuesFromArgs on the fields of the guild: they are inherited by a character with a
-- guild's guid only, where they are missing.
abbrev pub inherit_text : Option Text → Option Text → Option Text
inherit_text none old = old
inherit_text (some v) old = elim (truthy_text old) [ none ↦ some v | some w ↦ old ]

abbrev pub inherit_number : Option ℕ → Option ℕ → Option ℕ
inherit_number none old = old
inherit_number (some v) old = elim (truthy_number old) [ none ↦ some v | some w ↦ old ]

unfoldable pub inherit_guild : Message → Character → Character
inherit_guild m c = elim c.guild_guid [
  | none ↦ c
  | some guid ↦ record c {
    guild = inherit_text m.guild c.guild;
    guild_guid = inherit_text m.guild_guid c.guild_guid;
    guild_id = inherit_number m.guild_id c.guild_id;
  }
]

unfoldable pub inherit_safe_values_from_args : Message → Entity → Entity
inherit_safe_values_from_args m e = record e {
  character = record (inherit_guild m e.character) { id = inherit_number m.id e.character.id };
}

unfoldable pub assign_status : StatusPart → Entity → Entity
assign_status p e = record e {
  character = record e.character {
    id = assign_some p.id e.character.id;
    last_modified = assign_some p.last_modified e.character.last_modified;
    status = some p.status;
  };
}

-- `if (isValidCharacter)`
abbrev pub fetch_if : (Text → Text) → Option Bool → Replies → Entity → Entity
fetch_if hash (some true) r e = fetch_and_update_character_data hash r e
fetch_if hash (some false) r e = e
fetch_if hash none r e = e

-- The guild of the row, if the row was updated after it was loaded.
unfoldable pub keep_newer_guild : Option ℕ → Option Entity → Character → Character
keep_newer_guild none current c = c
keep_newer_guild (some loaded) none c = c
keep_newer_guild (some loaded) (some current) c = elim current.character.updated_at [
  | none ↦ c
  | some updated ↦
      if ltb loaded updated
      then record c {
        guild_guid = current.character.guild_guid;
        guild = current.character.guild;
        guild_id = current.character.guild_id;
        guild_rank = current.character.guild_rank;
      }
      else c
]

-- The row before the update, if the character is not new: its changes are logged.
abbrev pub compare_with : (ChangeLog → Bool) → Option Entity → Entity → Entity × List ChangeLog
compare_with fails none e = (e, [])
compare_with fails (some original) e =
    let (c, logs) = handle_existing_character_updates fails original.character e.character in
    (record e { character = c }, logs)

-- What a job does: nothing, a save (with its logs, whether a job for the hashes was added, and a
-- verdict), or a throw, with the logs and the entity that were saved before it.
pub data JobResult : Type 0 where
  skipped : JobResult
  saved : Entity → List ChangeLog → Bool → Verdict → JobResult
  threw : List ChangeLog → Option Entity → JobResult

-- The queries of a job: the row of a guid before it is changed, and when the job is about to save;
-- and what of a job throws: the key, the two queries for these rows, the save, and the queue.
pub record Rows : Type 0 where
  pub find_realm : Text → Option Realm
  pub find_by_guid : Text → Option Entity
  pub current : Text → Option Entity
  pub rejects : ChangeLog → Bool
  pub no_key : Bool
  pub original_fails : Text → Bool
  pub current_fails : Text → Bool
  pub save_fails : Entity → Bool
  pub queue_fails : Text → Bool

abbrev pub character_of : Option Entity → Option Character
character_of none = none
character_of (some e) = some e.character

-- What of an entity is not the lifecycle's: the row's, if there is one.
abbrev pub entity_of : Option Entity → Character → Entity
entity_of none c = record { character = c; hash_a = none; hash_b = none; professions = [] }
entity_of (some e) c = record e { character = c }

abbrev pub hash_b_of : Option Entity → Option Text
hash_b_of none = none
hash_b_of (some e) = truthy_text e.hash_b

abbrev pub only_if : {A : Type 0} → Bool → Option A → Option A
only_if true x = x
only_if false x = none

-- The save, the job for the hashes and the report.
unfoldable pub save_character : Rows → Option Entity → Entity → List ChangeLog → JobResult
save_character db original e logs =
    let has_hash = is_some (truthy_text e.hash_b) || is_some (hash_b_of original) in
    if db.save_fails e
    then threw logs none
    else if has_hash && db.queue_fails e.character.guid
    then threw logs (some e)
    else saved e logs has_hash (log_character_result e.character.status)

-- The entity with the data of the replies.
unfoldable pub updated_entity :
    (Text → Text) → Rows → Message → Reply StatusResponse → Replies → ExistsOrCreate → Entity
updated_entity hash db m status r found =
    let e0 =
      inherit_safe_values_from_args m (entity_of (db.find_by_guid m.guid) found.character_entity) in
    let part = get_status status in fetch_if hash part.is_valid r (assign_status part e0)

-- The comparison with the row, and the guild of the row that is there by now.
unfoldable pub compare_and_save : Rows → ExistsOrCreate → Entity → JobResult
compare_and_save db found e1 =
    let original = only_if (not found.is_new) (db.find_by_guid e1.character.guid) in
    let loaded = only_if (not found.is_new) found.character_entity.updated_at in
    let (e2, logs) = compare_with db.rejects original e1 in
    if not found.is_new && db.original_fails e1.character.guid
    then threw [] none
    else if is_some loaded && db.current_fails e2.character.guid
    then threw logs none
    else save_character db original
        (record e2 {
          character = keep_newer_guild loaded (db.current e2.character.guid) e2.character;
        })
        logs

unfoldable pub update_character :
    (Text → Text) → Rows → Message → Reply StatusResponse → Replies → ExistsOrCreate → JobResult
update_character hash db m status r found =
    if db.no_key
    then threw [] none
    else compare_and_save db found (updated_entity hash db m status r found)

-- A throw, if the character can be neither found nor created.
unfoldable pub process_found :
    (Text → Text)
    → Rows
    → Message
    → Reply StatusResponse
    → Replies
    → Option ExistsOrCreate
    → JobResult
process_found hash db m status r none = threw [] none
process_found hash db m status r (some found) =
    if found.is_not_ready_to_update || found.is_create_only_unique
    then skipped
    else update_character hash db m status r found

unfoldable pub process :
    (Text → Text) → Rows → (now : ℕ) → Message → Reply StatusResponse → Replies → JobResult
process hash db now m status r =
    process_found hash db m status r
      (find_or_create_character db.find_realm (λ guid. character_of (db.find_by_guid guid)) now m)
