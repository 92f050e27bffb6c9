-- ===== src/Guilds/Listed.antt =====
-- The roster that is fetched where nothing fails.
use cmnw.Prelude.{
  ℕ, true, false, ◌==◌, Option, none, some, List, [], ◌∷◌, ◌++◌, Text, codes, map, ◌≡◌, refl, sym,
  ap, ◌∙◌, arith, Bool-cases, Option-cases, inl, inr, is_some, Bool, not, any, subst,
}
use cmnw.Roster.{Member, gm_rank}
use cmnw.Status.{success}
use cmnw.Status.Guild.{set_guild_status_string, roster}
use mathlib.Core.List.{Permᴰ, map-append, append-nil, append_assoc}
use cmnw.Prelude.Memberships.{any-Permᴰ, Permᴰ-map}
use cmnw.Guilds.Saving.{
  new_character_row, row_in_guild, row_with_rank, FetchedGuild, RosterEntry, replied, CharacterRow,
  GuildMember, MasterMessage, Services, character_as_guild_member, save_found, save_existing,
  create_in_realm, find_row,
}
use cmnw.Guilds.Fetch.{read_member, listed}
use cmnw.Guilds.Fetching.{
  Fetching, is_guild_roster, fetch_roster, process_members, process_roster_member,
  process_read_member, save_and_list, queue_guild_master_update, master_message, roster_with,
}
use cmnw.Guilds.Listing.{IsOrder, read_member-same}

abbrev pub member_rank : Member → ℕ × ℕ
member_rank m = (m.id, m.rank)

abbrev pub entry_rank : Option RosterEntry → ℕ × ℕ
entry_rank none = (0, 0)
entry_rank (some e) = (e.id, e.rank)

-- An entry of a member with a class, a race and a realm that can be looked up.
abbrev pub can_read : Services → FetchedGuild → Option RosterEntry → Bool
can_read s g none = false
can_read s g (some e) = is_some (read_member s g e)

-- Services of which none fails.
pub record AreUp (s : Services) : Type 0 where
  pub queries : (t : Text) → s.query_fails t ≡ false
  pub saves : (r : CharacterRow) → s.refuses r ≡ false
  pub jobs : (j : MasterMessage) → s.refuses_job j ≡ false
  pub realms : (t : Text) → is_some (s.find_realm t) ≡ true

module _ (s : Services) (g : FetchedGuild) (up : AreUp s) where
  saved_found :
      (m : GuildMember) (o : Option CharacterRow) (rows : List CharacterRow)
      → is_some (save_found s g m o rows) ≡ true
  unfolding save_found save_existing create_in_realm
  saved_found m none rows =
      ground (arith, up.realms m.realm_slug, up.saves (new_character_row s g m))
  saved_found m (some c) rows =
      ground (arith, up.saves (row_in_guild g m c), up.saves (row_with_rank m c))

  listed_once :
      (e : RosterEntry) (m : GuildMember) (f : Fetching)
      → read_member s g e ≡ some m
      → map member_rank (save_and_list s g e m f).members
        ≡ map member_rank f.members ++ entry_rank (some e) ∷ []
  unfolding save_and_list character_as_guild_member listed
  listed_once e m f h =
      let row = find_row m.guid f.rows in
      elim (Option-cases (save_found s g m row f.rows)) [
        | inl failed ↦ ground (arith, saved_found m row f.rows)
        | inr (rows, saved) ↦
            rw (up.queries m.guid, saved, save_and_list)
              (map-append member_rank f.members (listed s g e m ∷ [])
                ∙ rw ((read_member-same s g e m h).0, (read_member-same s g e m h).1) refl)
      ]

  process_once :
      (e : RosterEntry) (f : Fetching)
      → is_some (read_member s g e) ≡ true
      → map member_rank (process_roster_member s g (some e) f).members
        ≡ map member_rank f.members ++ entry_rank (some e) ∷ []
  unfolding process_roster_member process_read_member queue_guild_master_update
  process_once e f h = elim (Option-cases (read_member s g e)) [
    | inl unread ↦ ground arith
    | inr (m, read) ↦ elim (Bool-cases (e.rank == gm_rank)) [
      | inr plain ↦ rw (read, process_roster_member, plain) (listed_once e m f read)
      | inl master ↦
          rw (read, process_roster_member, master, up.jobs (master_message s g e m))
            (listed_once e m _ read)
    ]
  ]

  process_all :
      (es : List (Option RosterEntry)) (f : Fetching)
      → any (λ e. not (can_read s g e)) es ≡ false
      → map member_rank (process_members s g es f).members
        ≡ map member_rank f.members ++ map entry_rank es
  unfolding process_members
  process_all [] f h = sym (append-nil (map member_rank f.members))
  process_all (none ∷ es) f h = ground arith
  process_all (some e ∷ es) f h =
      process_all es (process_roster_member s g (some e) f) (ground arith)
      ∙ ap (λ ms. ms ++ map entry_rank es) (process_once e f (ground arith))
      ∙ append_assoc (map member_rank f.members) (entry_rank (some e) ∷ []) (map entry_rank es)

-- Where nothing fails and every entry of the reply has a class, a race and a realm that can be looked
-- up, in whatever order the entries are done with: the roster is reported as read, and its members are
-- those of the reply, each once, under its id and with its rank, in some order.
pub fetch_roster-listed :
    (s : Services) (g : FetchedGuild)
    (settle : List (Option RosterEntry) → List (Option RosterEntry)) (at : ℕ)
    (e : Option RosterEntry) (es : List (Option RosterEntry)) (rows : List CharacterRow)
    → AreUp s
    → IsOrder settle
    → any (λ x. not (can_read s g x)) (e ∷ es) ≡ false
    → let fetched = (fetch_roster s g settle at (replied true (some (e ∷ es))) rows).0 in
      (fetched.status ≡ some (set_guild_status_string (codes "-----") roster success))
      × (ms : List Member) × (fetched.members ≡ some ms)
      × Permᴰ (map member_rank ms) (map entry_rank (e ∷ es))
unfolding fetch_roster roster_with is_guild_roster
fetch_roster-listed s g settle at e es rows up order h =
    let start : Fetching = record { rows = rows; members = []; queued = [] } in
    (
      refl,
      _,
      refl,
      subst (λ rs. Permᴰ rs (map entry_rank (e ∷ es)))
          (sym (
            process_all s g up (settle (e ∷ es)) start
              (any-Permᴰ (λ x. not (can_read s g x)) (order.reorders (e ∷ es)) ∙ h)))
          (Permᴰ-map entry_rank (order.reorders (e ∷ es))),
    )
