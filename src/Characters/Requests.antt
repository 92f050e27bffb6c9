-- ===== src/Characters/Requests.antt =====
-- What the requests for a character give, by their replies:
-- apps/osint/src/services/character.service.ts, and the hashes and numbers of
-- apps/osint/src/services/character-collection.service.ts.
use cmnw.Prelude.{
  ℕ, Bool, true, false, Option, none, some, List, [], ◌∷◌, ◌++◌, keep, length, if◌then◌else◌, Text,
  codes, show, join, truthy_number, truthy_text,
}
use cmnw.Status.{success, error}
use cmnw.Status.Character.{Endpoint, set_status_string}
use cmnw.Lifecycle.{Character}

-- What a request gives, or that it throws.
pub data Reply (R : Type 0) : Type 0 where
  replied : R → Reply R
  failed : Reply R

-- PromiseSettledResult
pub data Settled (R : Type 0) : Type 0 where
  fulfilled : R → Settled R
  rejected : Settled R

pub record StatusResponse : Type 0 where
  pub id : Option ℕ
  pub is_valid : Option Bool
  pub last_modified : Option ℕ

-- Partial<CharacterStatus>
pub record StatusPart : Type 0 where
  pub id : Option ℕ
  pub is_valid : Option Bool
  pub last_modified : Option ℕ
  pub status : Text

-- The guild of a summary, as far as it is given.
pub record GuildOf : Type 0 where
  pub name : Option Text
  pub guid : Option Text
  pub id : Option ℕ

-- A reply that passes `isCharacterSummary` or not, with the fields that the mapping takes from it,
-- the guid of its name and realm, and its date.
pub record SummaryResponse : Type 0 where
  pub is_summary : Bool
  pub id : Option ℕ
  pub name : Option Text
  pub realm : Option Text
  pub realm_id : Option ℕ
  pub realm_name : Option Text
  pub guid : Text
  pub last_modified : ℕ
  pub race : Option Text
  pub gender : Option Text
  pub faction : Option Text
  pub guild : Option GuildOf

-- Partial<CharacterSummary>; `none` is a field that is not set, and `some none` one set to null.
pub record SummaryPart : Type 0 where
  pub id : Option ℕ
  pub name : Option Text
  pub realm : Option Text
  pub realm_id : Option ℕ
  pub realm_name : Option Text
  pub guid : Option Text
  pub last_modified : Option ℕ
  pub race : Option Text
  pub gender : Option Text
  pub faction : Option Text
  pub guild : Option (Option Text)
  pub guild_guid : Option (Option Text)
  pub guild_id : Option (Option ℕ)
  pub guild_rank : Option (Option ℕ)
  pub status : Option Text

pub record Pet : Type 0 where
  pub name : Option Text
  pub species : Text
  pub level : ℕ
  pub is_active : Bool

-- A collection, with the list if the guard has accepted it.
pub record Collection (A : Type 0) : Type 0 where
  pub items : Option (List A)
  pub status : Text

-- Partial<IPets>
pub record PetsPart : Type 0 where
  pub pets_number : Option ℕ
  pub hash_a : Option Text
  pub hash_b : Option Text

-- CharactersEntity, in so far as a job reads or writes it.
pub record Entity : Type 0 where
  pub character : Character
  pub hash_a : Option Text
  pub hash_b : Option Text
  pub professions : List Text

abbrev pub no_status : Text
no_status = codes "------"

unfoldable pub get_status : Reply StatusResponse → StatusPart
get_status (replied r) = record {
  id = truthy_number r.id;
  is_valid = some (elim r.is_valid [ none ↦ false | some b ↦ b ]);
  last_modified = truthy_number r.last_modified;
  status = set_status_string no_status Endpoint.status success;
}
get_status failed = record {
  id = none;
  is_valid = none;
  last_modified = none;
  status = set_status_string no_status Endpoint.status error;
}

abbrev pub empty_summary : Option Text → SummaryPart
empty_summary status = record {
  id = none;
  name = none;
  realm = none;
  realm_id = none;
  realm_name = none;
  guid = none;
  last_modified = none;
  race = none;
  gender = none;
  faction = none;
  guild = none;
  guild_guid = none;
  guild_id = none;
  guild_rank = none;
  status = status;
}

-- `if (x) summary.field = x`
abbrev pub set_if : {A : Type 0} → Option A → Option (Option A)
set_if none = none
set_if (some x) = some (some x)

unfoldable pub with_guild : Option GuildOf → SummaryPart → SummaryPart
with_guild none s = record s {
  guild = some none;
  guild_guid = some none;
  guild_id = some none;
  guild_rank = some none;
}
with_guild (some g) s = record s {
  guild = set_if (truthy_text g.name);
  guild_guid = elim (truthy_text g.name) [ none ↦ none | some _ ↦ set_if g.guid ];
  guild_id = set_if (truthy_number g.id);
}

unfoldable pub get_summary : Reply SummaryResponse → SummaryPart
get_summary (replied r) =
    if r.is_summary
    then with_guild r.guild
        (record (empty_summary (some (set_status_string no_status Endpoint.summary success))) {
          id = r.id;
          name = r.name;
          realm = r.realm;
          realm_id = r.realm_id;
          realm_name = r.realm_name;
          guid = some r.guid;
          last_modified = some r.last_modified;
          race = r.race;
          gender = r.gender;
          faction = r.faction;
        })
    else empty_summary none
get_summary failed = empty_summary (some (set_status_string no_status Endpoint.summary error))

-- The status of Partial<Media>; the reply says whether it has passed `isCharacterMedia`.
unfoldable pub get_media : Reply Bool → Option Text
get_media (replied true) = some (set_status_string no_status Endpoint.media success)
get_media (replied false) = none
get_media failed = some (set_status_string no_status Endpoint.media error)

-- getPetsCollection, getMountsCollection and getProfessions: a reply that the guard refuses has no
-- items.
unfoldable pub get_collection : {A : Type 0} → Endpoint → Reply (Option (List A)) → Collection A
get_collection k (replied (some xs)) = record {
  items = some xs;
  status = set_status_string no_status k success;
}
get_collection k (replied none) = record {
  items = none;
  status = set_status_string no_status k error;
}
get_collection k failed = record { items = none; status = set_status_string no_status k error }

unfoldable pub pet_identifier : Pet → Text
pet_identifier p = elim p.name [ none ↦ p.species | some n ↦ n ++ codes "." ++ p.species ]

-- The parts of a hash: the identifier and the level of each pet.
unfoldable pub hash_parts : List Pet → List Text
hash_parts [] = []
hash_parts (p ∷ ps) = pet_identifier p ∷ show p.level ∷ hash_parts ps

module _ (hash : Text → Text) where
  -- A hash of no parts is not set.
  abbrev pub hash_of : List Text → Option Text
  hash_of [] = none
  hash_of (p ∷ ps) = some (hash (join (codes ".") (p ∷ ps)))

  -- A missing list, or an index that fails, is caught.
  unfoldable pub sync_character_pets : (index_fails : Bool) → Option (List Pet) → PetsPart
  sync_character_pets index_fails none = record { pets_number = none; hash_a = none; hash_b = none }
  sync_character_pets index_fails (some ps) =
      if index_fails then record { pets_number = none; hash_a = none; hash_b = none } else record {
        pets_number = some (length ps);
        hash_a = hash_of (hash_parts (keep (λ p. p.is_active) ps));
        hash_b = hash_of (hash_parts ps);
      }

unfoldable pub sync_character_mounts :
    {A : Type 0} → (index_fails : Bool) → Option (List A) → Option ℕ
sync_character_mounts index_fails none = none
sync_character_mounts index_fails (some ms) = if index_fails then none else some (length ms)
