-- ===== src/Guilds.antt =====
-- The guild master, the fetching and the status of a guild:
-- apps/osint/src/services/guild-master.service.ts,
-- apps/osint/src/services/guild-roster.service.ts, and how the guild worker of
-- apps/osint/src/workers/guilds.worker.ts puts the results of its steps together.
pub mod Master
pub mod Pipeline
pub mod Playable
pub mod Saving
pub mod Fetch
pub mod Fetching
pub mod Listing
pub mod Listed
pub mod Examples
pub mod Fetched
use cmnw.Prelude.{
  ℕ, zero, suc, Bool, true, false, not, ◌&&◌, ◌||◌, Option, none, some, List, [], ◌∷◌, ◌≡◌, ◌==◌,
  if◌then◌else◌, any, Text, codes, same_text,
}
use cmnw.Status.{success, error}
use cmnw.Status.Guild.{set_guild_status_string, roster, members, logs, master}
use cmnw.Roster.{
  Guild, Member, MemberRow, Roster, LogRow, Action, guild_transit, guild_inherit, guild_ownership,
  gm_rank, Command, IdSets, update_roster,
}

-- What is read of CharactersEntity; the query asks for a hash that is not null.
pub record Character : Type 0 where
  pub guid : Text
  pub hash_a : Text

-- The writes of the transaction.
pub data Change : Type 0 where
  set_member_rank : (guild_guid : Text) (character_id rank : ℕ) → Change
  set_guild_rank : (guid : Text) (rank : ℕ) → Change
  insert_logs : List LogRow → Change

-- `Array.prototype.find`
unfoldable pub find_member : (Member → Bool) → List Member → Option Member
find_member p [] = none
find_member p (m ∷ ms) = if p m then some m else find_member p ms

unfoldable pub determine_gm_transition_action : Option Character → Option Character → Action
determine_gm_transition_action none _ = guild_transit
determine_gm_transition_action (some _) none = guild_transit
determine_gm_transition_action (some o) (some n) =
    if same_text o.hash_a n.hash_a then guild_inherit else guild_ownership

abbrev pub transition_log : Guild → MemberRow → Member → Action → ℕ → Text → LogRow
transition_log guild original_gm new_gm action timestamp guid = record {
  character_guid = guid;
  guild_guid = guild.guid;
  original = some original_gm.character_guid;
  updated = some new_gm.guid;
  action = action;
  scanned_at = guild.updated_at;
  created_at = timestamp;
}

unfoldable pub transition_changes : Guild → MemberRow → Member → Option ℕ → ℕ → Action → List Change
transition_changes guild original_gm new_gm previous_gm_new_rank timestamp action =
    let finish =
      set_guild_rank new_gm.guid new_gm.rank
      ∷ insert_logs (
          transition_log guild original_gm new_gm action timestamp original_gm.character_guid
          ∷ transition_log guild original_gm new_gm action timestamp new_gm.guid
          ∷ [])
      ∷ [] in
    set_member_rank guild.guid new_gm.id new_gm.rank ∷ elim previous_gm_new_rank [
      | none ↦ finish
      | some rank ↦
          set_member_rank guild.guid original_gm.character_id rank
          ∷ set_guild_rank original_gm.character_guid rank
          ∷ finish
    ]

abbrev pub master_succeeded : Text
master_succeeded = set_guild_status_string (codes "-----") master success

abbrev pub master_failed : Text
master_failed = set_guild_status_string (codes "-----") master error

-- The rank of the member that was found, or null.
abbrev pub rank_of : Option Member → Option ℕ
rank_of none = none
rank_of (some m) = some m.rank

-- A query of the database gives `none` where it throws. `commits` says which transactions the
-- database accepts; one that it refuses leaves no change.
module _ (find_character : Text → Option (Option Character)) (commits : List Change → Bool) where
  unfoldable pub apply_guild_master_transition :
      Guild → MemberRow → Member → Option ℕ → ℕ → Option (List Change)
  apply_guild_master_transition guild original_gm new_gm previous_gm_new_rank timestamp =
      elim (find_character original_gm.character_guid) [
        | none ↦ none
        | some original ↦ elim (find_character new_gm.guid) [
          | none ↦ none
          | some new ↦
              let changes =
                transition_changes guild original_gm new_gm previous_gm_new_rank timestamp
                  (determine_gm_transition_action original new) in
              if commits changes then some changes else none
        ]
      ]

  unfoldable pub handle_transition : Option (List Change) → Text × List Change
  handle_transition none = (master_failed, [])
  handle_transition (some changes) = (master_succeeded, changes)

  unfoldable pub detect_in_roster : Guild → MemberRow → ℕ → List Member → Text × List Change
  detect_in_roster guild original_gm timestamp ms = elim (find_member (λ m. m.rank == gm_rank) ms) [
    | none ↦ (master_succeeded, [])
    | some new_gm ↦
        if not (original_gm.character_id == new_gm.id)
        then handle_transition (
            apply_guild_master_transition guild original_gm new_gm
              (rank_of (find_member (λ m. m.id == original_gm.character_id) ms)) timestamp)
        else (master_succeeded, [])
  ]

  -- The status string, and what has been changed. `original` is the row with the guild master's
  -- rank, if the query for it does not throw; a roster without members is a TypeError.
  unfoldable pub detect_and_log_guild_master_change :
      Guild → Option (Option MemberRow) → Roster → Text × List Change
  detect_and_log_guild_master_change guild none r = (master_failed, [])
  detect_and_log_guild_master_change guild (some none) r = (master_succeeded, [])
  detect_and_log_guild_master_change guild (some (some original_gm)) r = elim r.members [
    | none ↦ (master_failed, [])
    | some ms ↦ detect_in_roster guild original_gm r.updated_at ms
  ]

-- What a failed request for the roster is: an Axios error with the response's status, if there
-- was a response, or another error with or without a status of its own.
pub data RosterError : Type 0 where
  axios_error : Option ℕ → RosterError
  other_error : Option ℕ → RosterError

unfoldable pub status_code_of : RosterError → ℕ
status_code_of (axios_error none) = 400
status_code_of (axios_error (some n)) = if n == 0 then 400 else n
status_code_of (other_error none) = 400
status_code_of (other_error (some n)) = if n == 0 then 400 else n

unfoldable pub handle_roster_error : RosterError → Roster → Roster
handle_roster_error e r = record r {
  status_code = some (status_code_of e);
  status = some (set_guild_status_string (codes "-----") roster error);
}

-- `includes`, of one character
abbrev pub includes : ℕ → Option Text → Bool
includes c none = false
includes c (some s) = any (λ d. d == c) s

unfoldable pub aggregate_guild_status :
    Text → (roster_status logs_status master_status : Option Text) → Text
aggregate_guild_status current roster_status logs_status master_status =
    let start = if same_text current [] then codes "-----" else current in
    let with_roster =
      set_guild_status_string start roster
        (if includes b'r' roster_status then error else success) in
    let with_members =
      set_guild_status_string with_roster members
        (if includes b'm' roster_status then error else success) in
    let with_logs =
      set_guild_status_string with_members logs
        (if includes b'l' logs_status then error else success) in
    set_guild_status_string with_logs master
      (if includes b'g' master_status then error else success)

-- The roster of `fetchGuildData`: the one that `fetchRoster` resolves to, or a stand-in without
-- members where it rejects.
unfoldable pub roster_result : Option Roster → ℕ → Roster
roster_result none now = record {
  members = none;
  updated_at = now;
  status_code = none;
  status = some (codes "-----");
}
roster_result (some r) now = r

-- The settled status of a step that may have thrown.
abbrev pub settled : Option Text → Option Text
settled none = some (codes "-----")
settled (some s) = some s

-- The part of `process` from the fetched roster to the status that is saved. `rows` is what the
-- query for the members gives, `logs_status` and `master_status` what the two later steps do.
unfoldable pub roster_status_of :
    IdSets
    → (Command → Bool)
    → Guild
    → ℕ
    → Option Roster
    → Option (List MemberRow)
    → (current : Text) (logs_status master_status : Option Text) → Text × List Command
roster_status_of sets fails snapshot at fetched rows current logs_status master_status =
    let fetched_roster = record (roster_result fetched at) { updated_at = at } in
    let updated = update_roster sets fails snapshot fetched_roster rows in
    (
      aggregate_guild_status current updated.0.status (settled logs_status) (settled master_status),
      updated.1,
    )
