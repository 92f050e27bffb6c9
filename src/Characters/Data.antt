-- ===== src/Characters/Data.antt =====
-- How a job puts the replies into a character: fetchAndUpdateCharacterData and
-- logCharacterResult of apps/osint/src/workers/characters.worker.ts.
use cmnw.Prelude.{ℕ, Bool, ◌&&◌, Option, none, some, List, [], ◌∷◌, any, leb, if◌then◌else◌, Text}
use cmnw.Status.{success, error}
use cmnw.Status.Character.{Endpoint, set_status_string, is_endpoint_success_in_string}
use cmnw.Characters.Requests.{
  Reply, Settled, SummaryResponse, SummaryPart, Pet, Entity, no_status, get_summary, get_media,
  get_collection, sync_character_pets, sync_character_mounts, fulfilled, rejected,
}

-- `Object.assign` of a field that may not be set.
abbrev pub assign : {A : Type 0} → Option A → A → A
assign none old = old
assign (some x) old = x

abbrev pub assign_some : {A : Type 0} → Option A → Option A → Option A
assign_some none old = old
assign_some (some x) old = some x

unfoldable pub assign_summary : SummaryPart → Entity → Entity
assign_summary s e = record e {
  character = record e.character {
    id = assign_some s.id e.character.id;
    name = assign_some s.name e.character.name;
    realm = assign s.realm e.character.realm;
    realm_id = assign s.realm_id e.character.realm_id;
    realm_name = assign s.realm_name e.character.realm_name;
    guid = assign s.guid e.character.guid;
    last_modified = assign_some s.last_modified e.character.last_modified;
    race = assign_some s.race e.character.race;
    gender = assign_some s.gender e.character.gender;
    faction = assign_some s.faction e.character.faction;
    guild = assign s.guild e.character.guild;
    guild_guid = assign s.guild_guid e.character.guild_guid;
    guild_id = assign s.guild_id e.character.guild_id;
    guild_rank = assign s.guild_rank e.character.guild_rank;
    status = assign_some s.status e.character.status;
  };
}

-- The replies to the five requests, and which indexes fail. The lines of the professions are as
-- the source writes them.
pub record Replies : Type 0 where
  pub summary : Reply SummaryResponse
  pub media : Reply Bool
  pub pets : Reply (Option (List Pet))
  pub mounts : Reply (Option (List ℕ))
  pub professions : Reply (Option (List Text))
  pub pets_index_fails : Bool
  pub mounts_index_fails : Bool

-- processResult and its like: a result that is fulfilled is an object, so it counts as a success.
unfoldable pub process_result : {R : Type 0} → Text → Endpoint → Settled R → Text
process_result current k (fulfilled r) = set_status_string current k success
process_result current k rejected = set_status_string current k error

-- `status || '------'`
unfoldable pub status_or_none : Option Text → Text
status_or_none none = no_status
status_or_none (some []) = no_status
status_or_none (some (c ∷ s)) = c ∷ s

-- No request throws, so Promise.allSettled gives five results that are fulfilled.
unfoldable pub fetch_and_update_character_data : (Text → Text) → Replies → Entity → Entity
fetch_and_update_character_data hash r e =
    let summary = get_summary r.summary in
    let pets = get_collection Endpoint.pets r.pets in
    let mounts = get_collection Endpoint.mounts r.mounts in
    let professions = get_collection Endpoint.professions r.professions in
    let s0 = status_or_none e.character.status in
    let s1 = process_result s0 Endpoint.summary (fulfilled summary) in
    let s2 = process_result s1 Endpoint.pets (fulfilled pets) in
    let s3 = process_result s2 Endpoint.mounts (fulfilled mounts) in
    let s4 = process_result s3 Endpoint.media (fulfilled (get_media r.media)) in
    let s5 = process_result s4 Endpoint.professions (fulfilled professions) in
    let synced = sync_character_pets hash r.pets_index_fails pets.items in
    let e1 = assign_summary summary e in
    record e1 {
      character = record e1.character {
        pets_number = synced.pets_number;
        mounts_number = sync_character_mounts r.mounts_index_fails mounts.items;
        status = some s5;
      };
      hash_a = synced.hash_a;
      hash_b = synced.hash_b;
      professions = elim professions.items [ none ↦ [] | some ls ↦ ls ];
    }

pub data Verdict : Type 0 where
  succeeded partial noted : Verdict

-- `/[a-z]/.test(status)`
abbrev pub has_lower : Text → Bool
has_lower = any (λ c. leb b'a' c && leb c b'z')

-- What logCharacterResult reports of a status.
unfoldable pub log_character_result : Option Text → Verdict
log_character_result status =
    let s = status_or_none status in
    if is_endpoint_success_in_string s Endpoint.status
      && is_endpoint_success_in_string s Endpoint.summary
    then succeeded
    else if has_lower s
    then partial
    else noted
