-- ===== src/Lifecycle/Examples.antt =====
-- A character that was seen a day ago, and one whose pets have grown in number.
use cmnw.Prelude.{
  truthy_text, ℕ, false, not, Option, none, some, [], ◌∷◌, ◌≡◌, refl, arith, if◌then◌else◌, Text,
  codes, same_text, same_text_iff, map,
}
use cmnw.Lifecycle.{
  Realm, Message, Character, ExistsOrCreate, ChangeLog, Field, faction, pets_number,
  twenty_four_hours, or_number, find_or_create_character, found_character, is_too_recent,
  should_update_character, diff_and_log_changes, diff_from, field_of, to_normalized_string,
}
use cmnw.Lifecycle.Lookup.{find_or_create_character-ready}

abbrev realm : Realm
realm = record { id = 1; slug = codes "r"; name = codes "R" }

abbrev message : Message
message = record {
  guid = codes "a@r";
  id = some 5;
  name = codes "a";
  realm = codes "r";
  force_update = none;
  create_only_unique = false;
  last_modified = none;
  guild = none;
  guild_guid = none;
  guild_id = none;
  created_by = none;
}

abbrev row_with : Option Text → ℕ → Character
row_with side pets = record {
  guid = codes "a@r";
  id = some 5;
  name = some (codes "A");
  realm = codes "r";
  realm_id = 1;
  realm_name = codes "R";
  status = some (codes "SUMVPR");
  updated_at = some 1000;
  last_modified = none;
  guild = none;
  guild_guid = none;
  guild_id = none;
  guild_rank = none;
  created_by = none;
  race = none;
  gender = none;
  faction = side;
  mounts_number = none;
  pets_number = some pets;
}

abbrev row : Character
row = row_with (some (codes "Horde")) 10

abbrev known : Text → Option Character
known guid = if same_text (codes "a@r") guid then some row else none

known-guid : (guid : Text) (c : Character) → known guid ≡ some c → c.guid ≡ guid
known-guid guid c e = ground (arith, (same_text_iff (codes "a@r") guid).0)

find_or_create_character-ready_example :
    (r : ExistsOrCreate) × (find_or_create_character (λ s. some realm) known 90000000 message
      ≡ some r)
    × (r.is_new ≡ false)
    × (should_update_character 90000000 row (or_number none twenty_four_hours)
        ≡ some (not r.is_not_ready_to_update))
    × (r.character_entity
        ≡ (if r.is_not_ready_to_update then row else record row { status = some (codes "------") }))
find_or_create_character-ready_example =
    find_or_create_character-ready (λ s. some realm) known 90000000 message realm row 1000 refl refl
      refl refl

abbrev found : ExistsOrCreate
found = record {
  character_entity = record row { status = some (codes "------") };
  is_new = false;
  is_create_only_unique = false;
  is_not_ready_to_update = false;
}

message-found : find_or_create_character (λ s. some realm) known 90000000 message ≡ some found
unfolding find_or_create_character found_character is_too_recent or_number
message-found = refl

abbrev turned : Character
turned = row_with (some (codes "Alliance")) 12

abbrev texts : ChangeLog → Field × (Text × Text)
texts l = (l.action, (l.original, l.updated))

-- The faction is logged with both names, the number of pets with two empty texts.
logged_texts :
    map texts (diff_and_log_changes (λ l. false) row turned)
    ≡ (faction, (codes "Horde", codes "Alliance")) ∷ (pets_number, ([], [])) ∷ []
unfolding diff_and_log_changes diff_from field_of to_normalized_string truthy_text
logged_texts = refl
