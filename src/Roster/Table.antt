-- ===== src/Roster/Table.antt =====
-- What the commands do to the rows of a guild, and what the rows should be afterwards.
use mathlib.Core.Option
use cmnw.Prelude.{
  ℕ, Bool, not, ◌&&◌, ◌||◌, Option, none, some, List, [], ◌∷◌, ◌++◌, ◌≡◌, ◌≢◌, refl, ◌∙◌, ap, ◌==◌,
  if◌then◌else◌, any, Text, same_text, map_get,
}
use cmnw.Roster.{
  Guild, Member, MemberRow, Command, save_log, save_member, update_member, delete_member,
  update_rank, enter_guild, clear_guild, gm_rank, joined_row, IdSets,
}

-- The row is the one that a condition on both guids names.
abbrev pub matches : Text → Text → MemberRow → Bool
matches guild_guid character_guid r =
    same_text r.guild_guid guild_guid && same_text r.character_guid character_guid

abbrev pub re_ranked : Text → Text → ℕ → MemberRow → MemberRow
re_ranked guild_guid character_guid rank r =
    if matches guild_guid character_guid r then record r { rank = rank } else r

abbrev pub unless_matching : Text → Text → MemberRow → Option MemberRow
unless_matching guild_guid character_guid r =
    if matches guild_guid character_guid r then none else some r

-- The documented effect of a command on the row of the character with the given id: a save writes
-- the row under its id, an update and a delete go by their conditions, and commands on the other
-- tables leave it alone.
abbrev pub effect : Command → ℕ → Option MemberRow → Option MemberRow
effect (save_member r) i o = if r.character_id == i then some r else o
effect (update_member character guild rank) i o = Option.map (re_ranked guild character rank) o
effect (delete_member guild character) i none = none
effect (delete_member guild character) i (some r) = unless_matching guild character r
effect (save_log l) i o = o
effect (update_rank guid id rank) i o = o
effect (enter_guild guid id guild rank) i o = o
effect (clear_guild guid guild) i o = o

-- The table of members, of which the service relies on that effect.
pub record MemberTable (Db : Type 0) : Type 0 where
  pub row_at : Db → ℕ → Option MemberRow
  pub execute : Command → Db → Db
  pub execute_effect :
      (c : Command) (db : Db) (i : ℕ) → row_at (execute c db) i ≡ effect c i (row_at db i)

-- lodash's documented membership.
pub record IsIdSets (sets : IdSets) : Type 0 where
  pub any-intersection :
      (xs ys : List ℕ) (i : ℕ)
      → any (λ j. j == i) (sets.intersection xs ys) ≡ (any (λ j. j == i) xs && any (λ j. j == i) ys)
  pub any-difference :
      (xs ys : List ℕ) (i : ℕ)
      → any (λ j. j == i) (sets.difference xs ys)
        ≡ (any (λ j. j == i) xs && not (any (λ j. j == i) ys))

unfoldable pub effects : List Command → ℕ → Option MemberRow → Option MemberRow
effects [] i o = o
effects (c ∷ cs) i o = effects cs i (effect c i o)

pub effects-append :
    (cs ds : List Command) (i : ℕ) (o : Option MemberRow)
    → effects (cs ++ ds) i o ≡ effects ds i (effects cs i o)
unfolding effects
effects-append [] ds i o = refl
effects-append (c ∷ cs) ds i o = effects-append cs ds i (effect c i o)

module _ {Db : Type 0} (t : MemberTable Db) where
  unfoldable pub execute_all : List Command → Db → Db
  execute_all [] db = db
  execute_all (c ∷ cs) db = execute_all cs (t.execute c db)

  pub row_at-execute_all :
      (cs : List Command) (db : Db) (i : ℕ)
      → t.row_at (execute_all cs db) i ≡ effects cs i (t.row_at db i)
  unfolding execute_all effects
  row_at-execute_all [] db i = refl
  row_at-execute_all (c ∷ cs) db i =
      row_at-execute_all cs (t.execute c db) i ∙ ap (effects cs i) (t.execute_effect c db i)

-- The row of a member who was in the guild and still is: the rank is the new one, except that the
-- change to or from the rank of the guild master is left to the guild master's service.
unfoldable pub kept_row : MemberRow → Member → MemberRow
kept_row o u =
    if u.rank == o.rank
    then o
    else if (o.rank == gm_rank) || (u.rank == gm_rank)
    then o
    else record o { rank = u.rank }

-- The row that the character with the given id should have after the roster was read.
unfoldable pub expected_row : Guild → ℕ → Option MemberRow → Option Member → Option MemberRow
unfolding kept_row
expected_row guild at o none = none
expected_row guild at none (some u) = some (joined_row guild at u)
expected_row guild at (some o) (some u) = some (kept_row o u)

-- The rows and the roster fit together: the rows belong to the guild, no two of them have the same
-- guid, and no one who joins has the guid of one who leaves.
pub record IsConsistent (guild : Guild) (originals : List (ℕ × MemberRow))
    (updateds : List (ℕ × Member)) : Type 0 where
  pub own : (i : ℕ) (o : MemberRow) → map_get i originals ≡ some o → o.guild_guid ≡ guild.guid
  pub distinct :
      (i j : ℕ) (o p : MemberRow)
      → map_get i originals ≡ some o
      → map_get j originals ≡ some p
      → o.character_guid ≡ p.character_guid
      → i ≡ j
  pub fresh :
      (i j : ℕ) (u : Member) (p : MemberRow)
      → map_get i originals ≡ none
      → map_get i updateds ≡ some u
      → map_get j originals ≡ some p
      → map_get j updateds ≡ none
      → u.guid ≢ p.character_guid
