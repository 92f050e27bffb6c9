-- ===== src/Characters/Examples.antt =====
-- A character that leaves its guild while its job runs, and whose requests all fail but the first.
use cmnw.Prelude.{
  ℕ, true, false, Option, none, some, [], ◌∷◌, ◌≡◌, refl, if◌then◌else◌, Text, codes, same_text,
  join, show,
}
use cmnw.Lifecycle.{
  Realm, Message, Character, ExistsOrCreate, find_or_create_character, found_character,
  is_too_recent, or_number,
}
use cmnw.Characters.Requests.{
  Reply, replied, failed, StatusResponse, Entity, Pet, sync_character_pets, hash_parts,
  pet_identifier,
}
use cmnw.Characters.Data.{Replies}
use cmnw.Characters.Job.{Rows, process, character_of}
use cmnw.Characters.Verdicts.{IsReported, NeverThrows, did_throw, process-IsReported}

abbrev realm : Realm
realm = record { id = 1; slug = codes "r"; name = codes "R" }

abbrev message : Message
message = record {
  guid = codes "a@r";
  id = some 5;
  name = codes "a";
  realm = codes "r";
  force_update = none;
  create_only_unique = false;
  last_modified = none;
  guild = none;
  guild_guid = none;
  guild_id = none;
  created_by = none;
}

abbrev character_with : Option Text → ℕ → Option Text → Character
character_with guild at st = record {
  guid = codes "a@r";
  id = some 5;
  name = some (codes "A");
  realm = codes "r";
  realm_id = 1;
  realm_name = codes "R";
  status = st;
  updated_at = some at;
  last_modified = none;
  guild = guild;
  guild_guid = guild;
  guild_id = none;
  guild_rank = none;
  created_by = none;
  race = none;
  gender = none;
  faction = none;
  mounts_number = none;
  pets_number = some 3;
}

abbrev entity_with : Option Text → ℕ → Entity
entity_with guild at = record {
  character = character_with guild at (some (codes "SUVPMR"));
  hash_a = none;
  hash_b = none;
  professions = [];
}

abbrev moved : Entity
moved = entity_with (some (codes "new@r")) 2000

abbrev rows : Rows
rows = record {
  find_realm = λ t. some realm;
  find_by_guid = λ guid.
      if same_text guid (codes "a@r") then some (entity_with (some (codes "old@r")) 1000) else none;
  current = λ guid. some moved;
  rejects = λ l. false;
  no_key = false;
  original_fails = λ guid. false;
  current_fails = λ guid. false;
  save_fails = λ e. false;
  queue_fails = λ guid. true;
}

abbrev hash_text : Text → Text
hash_text t = t

abbrev valid : Reply StatusResponse
valid = replied (record { id = some 5; is_valid = some true; last_modified = some 7 })

abbrev all_fail : Replies
all_fail = record {
  summary = failed;
  media = failed;
  pets = failed;
  mounts = failed;
  professions = failed;
  pets_index_fails = false;
  mounts_index_fails = false;
}

abbrev found : ExistsOrCreate
found = record {
  character_entity = character_with (some (codes "old@r")) 1000 (some (codes "------"));
  is_new = false;
  is_create_only_unique = false;
  is_not_ready_to_update = false;
}

finds :
    find_or_create_character rows.find_realm
      (λ guid. character_of (rows.find_by_guid guid))
      100000000
      message
    ≡ some found
unfolding find_or_create_character found_character is_too_recent or_number
finds = refl

-- A success is reported although five of the six requests fail.
process-IsReported_example :
    IsReported valid (process hash_text rows 100000000 message valid all_fail)
    × (NeverThrows rows
        → did_throw (process hash_text rows 100000000 message valid all_fail) ≡ false)
process-IsReported_example =
    process-IsReported hash_text rows 100000000 message valid all_fail found finds refl refl

abbrev cat : Pet
cat = record { name = some (codes "Tom"); species = codes "Cat"; level = 25; is_active = true }

abbrev dog : Pet
dog = record { name = none; species = codes "Dog"; level = 3; is_active = false }

hashes_of_pets :
    (sync_character_pets hash_text false (some (cat ∷ dog ∷ []))).hash_b
    ≡ some (codes "Tom.Cat.25.Dog.3")
unfolding sync_character_pets hash_parts pet_identifier join show
hashes_of_pets = refl

hash_of_active_pets :
    (sync_character_pets hash_text false (some (cat ∷ dog ∷ []))).hash_a ≡ some (codes "Tom.Cat.25")
unfolding sync_character_pets hash_parts pet_identifier join show
hash_of_active_pets = refl
