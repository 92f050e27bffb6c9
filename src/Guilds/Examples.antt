-- ===== src/Guilds/Examples.antt =====
-- A guild whose master changes places with an officer, and a roster that could not be read.
use cmnw.Prelude.{ℕ, true, false, Option, none, some, List, [], ◌∷◌, ◌≡◌, refl, Text, codes}
use cmnw.Status.{State, pending}
use cmnw.Status.Encoding.{encode}
use cmnw.Status.Guild.{Operation, guild_table}
use cmnw.Roster.{Guild, Member, MemberRow, Roster, IdSets}
use cmnw.Roster.Table.{kept_row}
use cmnw.Guilds.{
  Character, axios_error, handle_roster_error, roster_status_of, settled,
  detect_and_log_guild_master_change, master_succeeded,
}
use cmnw.Guilds.Pipeline.{reported, has_rows, roster_status_of-encode}

abbrev guild : Guild
guild = record { guid = codes "g"; id = 7; name = codes "G"; updated_at = 10 }

abbrev pub row_of : ℕ → Text → ℕ → MemberRow
row_of i guid rank = record {
  guild_guid = codes "g";
  guild_id = 7;
  character_id = i;
  character_guid = guid;
  realm_id = 1;
  realm = codes "r";
  rank = rank;
  last_modified = 10;
}

abbrev member_of : ℕ → Text → ℕ → Member
member_of i guid rank = record {
  guid = guid;
  id = i;
  rank = rank;
  realm_id = 1;
  realm_slug = codes "r";
}

abbrev officer : Member
officer = member_of 2 (codes "b") 0

abbrev members : List Member
members = member_of 1 (codes "a") 3 ∷ officer ∷ []

abbrev read : Roster
read = record { members = some members; updated_at = 20; status_code = none; status = none }

abbrev hashes : Text → Option Character
hashes guid = some (record { guid = guid; hash_a = codes "h" })

-- If the old master has left, there is no row with the rank of a master any more, and the row of
-- the new one keeps its old rank.
departed :
    detect_and_log_guild_master_change (λ t. some (hashes t)) (λ cs. true) guild (some none) read
    ≡ (master_succeeded, [])
unfolding detect_and_log_guild_master_change
departed = refl

departed-rank : (kept_row (row_of 2 (codes "b") 1) officer).rank ≡ 1
unfolding kept_row
departed-rank = refl

abbrev states : Operation → State
states k = pending

abbrev refused : Roster
refused =
    handle_roster_error (axios_error (some 503))
      (record { members = some []; updated_at = 20; status_code = none; status = none })

abbrev no_sets : IdSets
no_sets = record { intersection = λ xs ys. []; difference = λ xs ys. [] }

-- The request for the roster failed with 503, and the saved status says that it was read.
roster_status_of-encode_example :
    (roster_status_of no_sets
      (λ c. false)
      guild
      20
      (some refused)
      none
      (encode guild_table states)
      (some (codes "---L-"))
      (some (codes "----G"))).0
    ≡ encode guild_table (
        reported states
          (has_rows (some refused) none)
          (settled (some (codes "---L-")))
          (settled (some (codes "----G"))))
roster_status_of-encode_example =
    roster_status_of-encode no_sets (λ c. false) guild 20 (some refused) none states
      (some (codes "---L-")) (some (codes "----G"))

roster_error_lost :
    encode guild_table (
      reported states
        (has_rows (some refused) none)
        (settled (some (codes "---L-")))
        (settled (some (codes "----G"))))
    ≡ codes "-RMLG"
unfolding encode reported handle_roster_error
roster_error_lost = refl
