-- ===== src/Roster/Examples.antt =====
-- A table of members as a function, lodash's sets as filters, and a roster of two over a guild of
-- two.
use cmnw.Prelude.{
  ℕ, not, Option, none, some, List, [], ◌∷◌, ◌≡◌, ◌≢◌, ◌⊎◌, refl, arith, ◌==◌, any, keep, codes,
  Text, map_get, map_of, map_set, map_keys, any-keep,
}
use cmnw.Roster.{
  Guild, Member, MemberRow, IdSets, compare_rosters, process_roster_changes, flat_map,
  process_intersection_member, process_join_member, process_leave_member, rank_change,
  rank_commands, settle_and_log, join_commands, leave_commands, awaited,
}
use cmnw.Roster.Table.{effect, MemberTable, execute_all, IsIdSets, IsConsistent, expected_row}
use cmnw.Roster.Steps.{never}
use cmnw.Roster.Final.{originals_of, updateds_of, row_at-process_roster_changes}

abbrev table : MemberTable (ℕ → Option MemberRow)
table = record {
  row_at = λ db i. db i;
  execute = λ c db i. effect c i (db i);
  execute_effect = λ c db i. refl;
}

abbrev filters : IdSets
filters = record {
  intersection = λ xs ys. keep (λ x. any (λ j. j == x) ys) xs;
  difference = λ xs ys. keep (λ x. not (any (λ j. j == x) ys)) xs;
}

filters-IsIdSets : IsIdSets filters
filters-IsIdSets = record {
  any-intersection = λ xs ys i. any-keep (λ x. any (λ j. j == x) ys) xs i;
  any-difference = λ xs ys i. any-keep (λ x. not (any (λ j. j == x) ys)) xs i;
}

abbrev guild : Guild
guild = record { guid = codes "g"; id = 7; name = codes "G"; updated_at = 10 }

abbrev row_of : ℕ → Text → ℕ → MemberRow
row_of i guid rank = record {
  guild_guid = codes "g";
  guild_id = 7;
  character_id = i;
  character_guid = guid;
  realm_id = 1;
  realm = codes "r";
  rank = rank;
  last_modified = 10;
}

abbrev member_of : ℕ → Text → ℕ → Member
member_of i guid rank = record {
  guid = guid;
  id = i;
  rank = rank;
  realm_id = 1;
  realm_slug = codes "r";
}

abbrev rows : List MemberRow
rows = row_of 1 (codes "a") 3 ∷ row_of 2 (codes "b") 5 ∷ []

abbrev members : List Member
members = member_of 1 (codes "a") 4 ∷ member_of 3 (codes "c") 6 ∷ []

-- What the maps of the example hold.
row-guild :
    (i : ℕ) (o : MemberRow) → map_get i (originals_of rows) ≡ some o → o.guild_guid ≡ guild.guid
unfolding map_get map_of map_set
row-guild i o e = ground arith

row-id :
    (i : ℕ) (o : MemberRow)
    → map_get i (originals_of rows) ≡ some o
    → ((i ≡ 1) × (o.character_guid ≡ codes "a")) ⊎ ((i ≡ 2) × (o.character_guid ≡ codes "b"))
unfolding map_get map_of map_set
row-id i o e = ground arith

rows_apart :
    (i j : ℕ) (o p : MemberRow)
    → map_get i (originals_of rows) ≡ some o
    → map_get j (originals_of rows) ≡ some p
    → o.character_guid ≡ p.character_guid
    → i ≡ j
rows_apart i j o p e f g = ground (arith, row-id i o e, row-id j p f)

newcomer :
    (i : ℕ) (u : Member)
    → map_get i (originals_of rows) ≡ none
    → map_get i (updateds_of members) ≡ some u
    → u.guid ≡ codes "c"
unfolding map_get map_of map_set
newcomer i u e f = ground arith

newcomer_apart :
    (i j : ℕ) (u : Member) (p : MemberRow)
    → map_get i (originals_of rows) ≡ none
    → map_get i (updateds_of members) ≡ some u
    → map_get j (originals_of rows) ≡ some p
    → u.guid ≢ p.character_guid
newcomer_apart i j u p e f g same = ground (arith, newcomer i u e f, row-id j p g)

rows-IsConsistent : IsConsistent guild (originals_of rows) (updateds_of members)
rows-IsConsistent = record {
  own = row-guild;
  distinct = rows_apart;
  fresh = λ i j u p e f g h. newcomer_apart i j u p e f g;
}

-- One member stays, one leaves and one joins.
row_at-process_roster_changes_example :
    table.row_at
      (execute_all table
        (process_roster_changes never guild 20 (compare_rosters filters rows members))
        (λ i. map_get i (originals_of rows)))
      1
    ≡ expected_row guild 20 (map_get 1 (originals_of rows)) (map_get 1 (updateds_of members))
row_at-process_roster_changes_example =
    row_at-process_roster_changes filters filters-IsIdSets guild 20 rows members rows-IsConsistent
      table (λ i. map_get i (originals_of rows)) 1 refl

-- A character that was made again keeps its guid under a new id. It joins, and is deleted again
-- by the condition on the guid when the old one leaves.
remade : Option MemberRow
unfolding execute_all process_roster_changes compare_rosters flat_map process_intersection_member
    process_join_member process_leave_member rank_change rank_commands settle_and_log join_commands
    leave_commands awaited map_get map_set map_keys map_of
remade =
    table.row_at
      (execute_all table
        (process_roster_changes never guild 20
          (compare_rosters filters (row_of 1 (codes "a") 3 ∷ []) (member_of 2 (codes "a") 4 ∷ [])))
        (λ i. map_get i (originals_of (row_of 1 (codes "a") 3 ∷ []))))
      2

remade-none : remade ≡ none
unfolding remade
remade-none = refl
