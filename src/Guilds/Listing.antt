-- ===== src/Guilds/Listing.antt =====
-- Which members a fetched roster has.
use cmnw.Prelude.{
  ℕ, Bool, false, not, ◌&&◌, ◌==◌, Option, none, some, List, any, ◌≡◌, arith, Option-cases, inl,
  inr,
}
use mathlib.Core.List.{Permᴰ}
use cmnw.Roster.{Roster, Guild, Member}
use cmnw.Guilds.Saving.{FetchedGuild, RosterEntry, GuildMember, Services}
use cmnw.Guilds.Fetch.{read_member, resolve_realm_slug, entry_slug}
use cmnw.Guilds.Fetching.{Fetching}

-- An entry of a member with an id that can be read and looked up.
abbrev pub is_readable : Services → FetchedGuild → ℕ → Option RosterEntry → Bool
is_readable s g i none = false
is_readable s g i (some e) = elim (read_member s g e) [
  | none ↦ false
  | some m ↦ (e.id == i) && not (s.query_fails m.guid)
]

abbrev pub has_id : ℕ → List Member → Bool
has_id i = any (λ m. m.id == i)

module _ (s : Services) (g : FetchedGuild) where
  pub read_member-same :
      (e : RosterEntry) (m : GuildMember)
      → read_member s g e ≡ some m
      → (m.id ≡ e.id) × (m.rank ≡ e.rank)
  unfolding read_member
  read_member-same e m h = elim (Option-cases (resolve_realm_slug s g (entry_slug s g e))) [
    | inl unresolved ↦ ground arith
    | inr (slug, found) ↦ elim (Option-cases e.class_id) [
      | inl none_of_class ↦ ground arith
      | inr (c, has_class) ↦ elim (Option-cases e.race_id) [
        | inl none_of_race ↦ ground arith
        | inr (r, has_race) ↦ ground arith
      ]
    ]
  ]

-- The members are done with in some order.
pub record IsOrder (settle : List (Option RosterEntry) → List (Option RosterEntry)) : Type 0 where
  pub reorders : (es : List (Option RosterEntry)) → Permᴰ (settle es) es
