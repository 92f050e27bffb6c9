-- ===== src/Lifecycle.antt =====
-- Finding, creating and comparing characters: apps/osint/src/services/character-lifecycle.service.ts
-- with `toNormalizedString` of libs/resources/src/guard/osint.guard.ts. Dates are numbers of
-- milliseconds, which `toDate` keeps. The database is a parameter: `find_realm` and `find_character`
-- are its queries, and `fails` says which log entries it rejects.
pub mod Lookup
pub mod Changes
pub mod Examples
use cmnw.Prelude.{
  truthy_text, truthy_number, same_option, ℕ, zero, suc, ◌+◌, ◌-◌, Bool, true, false, not, ◌&&◌,
  Option, none, some, List, [], ◌∷◌, ◌==◌, ltb, leb, if◌then◌else◌, Text, codes, same_text,
}

-- What is read of RealmsEntity.
pub record Realm : Type 0 where
  pub id : ℕ
  pub slug : Text
  pub name : Text

-- ICharacterMessageBase, less the fields that are only copied.
pub record Message : Type 0 where
  pub guid : Text
  pub id : Option ℕ
  pub name : Text
  pub realm : Text
  pub force_update : Option ℕ
  pub create_only_unique : Bool
  pub last_modified : Option ℕ
  pub guild : Option Text
  pub guild_guid : Option Text
  pub guild_id : Option ℕ
  pub created_by : Option Text

-- The fields of CharactersEntity that are read or written here.
pub record Character : Type 0 where
  pub guid : Text
  pub id : Option ℕ
  pub name : Option Text
  pub realm : Text
  pub realm_id : ℕ
  pub realm_name : Text
  pub status : Option Text
  pub updated_at : Option ℕ
  pub last_modified : Option ℕ
  pub guild : Option Text
  pub guild_guid : Option Text
  pub guild_id : Option ℕ
  pub guild_rank : Option ℕ
  pub created_by : Option Text
  pub race : Option Text
  pub gender : Option Text
  pub faction : Option Text
  pub mounts_number : Option ℕ
  pub pets_number : Option ℕ

-- CharacterExistsOrCreate
pub record ExistsOrCreate : Type 0 where
  pub character_entity : Character
  pub is_new : Bool
  pub is_create_only_unique : Bool
  pub is_not_ready_to_update : Bool

-- TIME_MS.TWENTY_FOUR_HOURS
abbrev pub twenty_four_hours : ℕ
twenty_four_hours = 86400000

-- `x || d` on numbers
unfoldable pub or_number : Option ℕ → ℕ → ℕ
or_number none d = d
or_number (some n) d = if n == 0 then d else n

-- `if (x) entity.field = x`
unfoldable pub or_else : {A : Type 0} → Option A → Option A → Option A
or_else none old = old
or_else (some a) old = some a

-- `toUpperCase` on an ASCII code unit
abbrev pub to_upper : ℕ → ℕ
to_upper c = if leb b'a' c && leb c b'z' then (c - 32) else c

unfoldable pub capitalize : Text → Text
capitalize [] = []
capitalize (c ∷ s) = to_upper c ∷ s

-- OSINT_SOURCE.CHARACTER_GET
abbrev pub character_get : Text
character_get = codes "OSINT-CHARACTER-GET"

unfoldable pub create_new_character : Message → Realm → ExistsOrCreate
create_new_character m realm = record {
  character_entity = record {
    guid = m.guid;
    id = truthy_number m.id;
    name = some (capitalize m.name);
    realm = realm.slug;
    realm_id = realm.id;
    realm_name = realm.name;
    status = none;
    updated_at = none;
    last_modified = or_else (truthy_number m.last_modified) m.last_modified;
    guild = or_else (truthy_text m.guild) m.guild;
    guild_guid = or_else (truthy_text m.guild_guid) m.guild_guid;
    guild_id = or_else (truthy_number m.guild_id) m.guild_id;
    guild_rank = none;
    created_by = elim (truthy_text m.created_by) [ none ↦ some character_get | some s ↦ some s ];
    race = none;
    gender = none;
    faction = none;
    mounts_number = none;
    pets_number = none;
  };
  is_new = true;
  is_create_only_unique = false;
  is_not_ready_to_update = false;
}

-- `timestampNow - forceUpdate < updatedAt`; the difference may be negative, so the summand changes
-- sides.
unfoldable pub is_too_recent : ℕ → ℕ → ℕ → Bool
is_too_recent now force_update updated_at = ltb now (updated_at + force_update)

-- A row without the date of its update is a TypeError.
unfoldable pub found_character : ℕ → Message → Character → Option ExistsOrCreate
found_character now m row =
    if m.create_only_unique
    then some (record {
      character_entity = row;
      is_new = false;
      is_create_only_unique = m.create_only_unique;
      is_not_ready_to_update = false;
    })
    else elim row.updated_at [
      | none ↦ none
      | some updated_at ↦
          if is_too_recent now (or_number m.force_update twenty_four_hours) updated_at
          then some (record {
            character_entity = row;
            is_new = false;
            is_create_only_unique = m.create_only_unique;
            is_not_ready_to_update = true;
          })
          else some (record {
            character_entity = record row { status = some (codes "------") };
            is_new = false;
            is_create_only_unique = false;
            is_not_ready_to_update = false;
          })
    ]

-- `none` where the lookup throws.
unfoldable pub find_or_create_character :
    (Text → Option Realm) → (Text → Option Character) → ℕ → Message → Option ExistsOrCreate
find_or_create_character find_realm find_character now m = elim (find_realm m.realm) [
  | none ↦ none
  | some realm ↦ elim (find_character m.guid) [
    | none ↦ some (create_new_character m realm)
    | some row ↦ found_character now m row
  ]
]

-- `timestampNow - forceUpdate >= updatedAt`
unfoldable pub should_update_character : ℕ → Character → ℕ → Option Bool
should_update_character now row force_update = elim row.updated_at [
  | none ↦ none
  | some updated_at ↦ some (leb (updated_at + force_update) now)
]

-- What a compared field holds.
pub data Value : Type 0 where
  missing : Value
  text : Text → Value
  number : ℕ → Value

pub data Field : Type 0 where
  name race gender faction mounts_number pets_number : Field

abbrev pub text_value : Option Text → Value
text_value none = missing
text_value (some s) = text s

abbrev pub number_value : Option ℕ → Value
number_value none = missing
number_value (some n) = number n

-- `entity[key]`
unfoldable pub field_of : Character → Field → Value
field_of c name = text_value c.name
field_of c race = text_value c.race
field_of c gender = text_value c.gender
field_of c faction = text_value c.faction
field_of c mounts_number = number_value c.mounts_number
field_of c pets_number = number_value c.pets_number

abbrev pub is_truthy : Value → Bool
is_truthy missing = false
is_truthy (text []) = false
is_truthy (text (c ∷ s)) = true
is_truthy (number n) = not (n == 0)

-- `===`
abbrev pub same_value : Value → Value → Bool
same_value missing missing = true
same_value (text s) (text t) = same_text s t
same_value (number m) (number n) = m == n
same_value missing _ = false
same_value (text _) _ = false
same_value (number _) _ = false

-- On strings and numbers; a locale object does not stand in these fields.
unfoldable pub to_normalized_string : Value → Option Text
to_normalized_string missing = none
to_normalized_string (text s) = truthy_text (some s)
to_normalized_string (number n) = none

abbrev pub or_empty : Option Text → Text
or_empty none = []
or_empty (some s) = s

pub record ChangeLog : Type 0 where
  pub character_guid : Text
  pub original : Text
  pub updated : Text
  pub action : Field
  pub scanned_at : Option ℕ
  pub created_at : Option ℕ

abbrev pub action_log_fields : List Field
action_log_fields = name ∷ race ∷ gender ∷ faction ∷ mounts_number ∷ pets_number ∷ []

-- `x || y` on dates
abbrev pub date_or : Option ℕ → Option ℕ → Option ℕ
date_or none d = d
date_or (some n) d = some n

module _ (fails : ChangeLog → Bool) (original updated : Character) where
  abbrev pub is_changed : Field → Bool
  is_changed k =
      (is_truthy (field_of original k) && is_truthy (field_of updated k))
      && not (same_value (field_of original k) (field_of updated k))

  abbrev pub change_log : Field → ChangeLog
  change_log k = record {
    character_guid = updated.guid;
    original = or_empty (to_normalized_string (field_of original k));
    updated = or_empty (to_normalized_string (field_of updated k));
    action = k;
    scanned_at = date_or original.last_modified original.updated_at;
    created_at = date_or updated.last_modified updated.updated_at;
  }

  -- The loop over the fields; a failure ends it.
  unfoldable pub diff_from : List Field → List ChangeLog
  diff_from [] = []
  diff_from (k ∷ ks) =
      let rest = diff_from ks in
      if is_changed k then (if fails (change_log k) then [] else change_log k ∷ rest) else rest

  -- The entries that are saved.
  unfoldable pub diff_and_log_changes : List ChangeLog
  diff_and_log_changes = diff_from action_log_fields

-- The guild's fields are cleared when the guild is another one and has no id.
unfoldable pub without_old_guild : Character → Character → Character
without_old_guild original updated = elim (truthy_number updated.guild_id) [
  | some id ↦ updated
  | none ↦
      if same_option original.guild_guid updated.guild_guid
      then updated
      else record updated { guild_guid = none; guild = none; guild_rank = none; guild_id = none }
]

-- The updated entity, and the entries that are saved.
unfoldable pub handle_existing_character_updates :
    (ChangeLog → Bool) → Character → Character → Character × List ChangeLog
handle_existing_character_updates fails original updated =
    let changed = without_old_guild original updated in
    (changed, diff_and_log_changes fails original changed)
