-- ===== src/GuildJobs/Lookup.antt =====
-- findOrCreate of apps/osint/src/services/guild.service.ts.
use cmnw.Prelude.{
  ℕ, Bool, true, false, ◌==◌, Option, none, some, ◌++◌, if◌then◌else◌, Text, codes, same_text,
  truthy_number, truthy_text,
}
use cmnw.Lifecycle.{Realm, or_number, is_too_recent, capitalize}

-- GuildsEntity, less the fields that are only copied.
pub record GuildEntity : Type 0 where
  pub guid : Text
  pub id : Option ℕ
  pub name : Text
  pub realm : Text
  pub realm_id : ℕ
  pub realm_name : Text
  pub faction : Option Text
  pub members_count : Option ℕ
  pub status : Option Text
  pub created_by : Option Text
  pub updated_by : Option Text
  pub updated_at : Option ℕ

pub data Region : Type 0 where
  region_name : Text → Region
  region_number : ℕ → Region

-- IGuildMessageBase, less the fields of the feed.
pub record GuildMessage : Type 0 where
  pub id : Option ℕ
  pub name : Text
  pub realm : Text
  pub region : Option Region
  pub force_update : Option ℕ
  pub create_only_unique : Bool
  pub created_by : Option Text
  pub updated_by : Option Text

pub record GuildExistsOrCreate : Type 0 where
  pub guild_entity : GuildEntity
  pub is_new : Bool
  pub is_create_only_unique : Bool
  pub is_not_ready_to_update : Bool

unfoldable pub is_eu_region : Option Region → Bool
is_eu_region none = false
is_eu_region (some (region_name t)) = same_text t (codes "eu")
is_eu_region (some (region_number n)) = n == 2

-- TIME_MS.FOUR_HOURS
abbrev pub four_hours : ℕ
four_hours = 14400000

-- OSINT_SOURCE.GUILD_GET
abbrev pub guild_get : Text
guild_get = codes "OSINT-GUILD-GET"

unfoldable pub to_guid : (Text → Text) → Text → Text → Text
to_guid kebab_case name realm = kebab_case name ++ codes "@" ++ kebab_case realm

unfoldable pub create_new : (Text → Text) → GuildMessage → Realm → GuildExistsOrCreate
create_new kebab_case m realm = record {
  guild_entity = record {
    guid = to_guid kebab_case (kebab_case m.name) realm.slug;
    id = truthy_number m.id;
    name = capitalize m.name;
    realm = realm.slug;
    realm_id = realm.id;
    realm_name = realm.name;
    faction = none;
    members_count = none;
    status = none;
    created_by = elim (truthy_text m.created_by) [ none ↦ some guild_get | some s ↦ some s ];
    updated_by = some guild_get;
    updated_at = none;
  };
  is_new = true;
  is_create_only_unique = false;
  is_not_ready_to_update = false;
}

abbrev pub existing : GuildEntity → (unique not_ready : Bool) → GuildExistsOrCreate
existing row unique not_ready = record {
  guild_entity = row;
  is_new = false;
  is_create_only_unique = unique;
  is_not_ready_to_update = not_ready;
}

-- A row without the date of its update is a TypeError.
unfoldable pub found_guild : (now : ℕ) → GuildMessage → GuildEntity → Option GuildExistsOrCreate
found_guild now m row =
    if m.create_only_unique then some (existing row true false) else elim row.updated_at [
      | none ↦ none
      | some updated_at ↦
          if is_too_recent now (or_number m.force_update four_hours) updated_at
          then some (existing row false true)
          else some (existing (record row { status = some (codes "--") }) false false)
    ]

unfoldable pub found_or_new :
    (Text → Text) → ℕ → GuildMessage → Realm → Option GuildEntity → Option GuildExistsOrCreate
found_or_new kebab_case now m realm none = some (create_new kebab_case m realm)
found_or_new kebab_case now m realm (some row) = found_guild now m row

-- The lookup in a realm that is found, or a NotFoundException.
unfoldable pub lookup_in :
    (Text → Text)
    → (Text → Option GuildEntity)
    → ℕ
    → GuildMessage
    → Option Realm
    → Option GuildExistsOrCreate
lookup_in kebab_case find_guild now m none = none
lookup_in kebab_case find_guild now m (some realm) =
    found_or_new kebab_case now m realm
      (find_guild (to_guid kebab_case (kebab_case m.name) realm.slug))

-- `none` where the lookup throws.
unfoldable pub find_or_create :
    (Text → Text)
    → (Text → Option Realm)
    → (Text → Option GuildEntity)
    → ℕ
    → GuildMessage
    → Option GuildExistsOrCreate
find_or_create kebab_case find_realm find_guild now m =
    lookup_in kebab_case find_guild now m (find_realm m.realm)
