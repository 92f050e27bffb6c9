-- ===== src/Roster/Steps.antt =====
-- What the commands for one member do to the row of a character, where no command fails.
use cmnw.Prelude.{
  ℕ, Bool, false, Option, none, some, ◌≡◌, ◌≢◌, refl, arith, Text, same_text, same_text_iff,
  Bool-cases, inl, inr,
}
use cmnw.Roster.{
  Guild, Member, MemberRow, Command, joined_row, settle_and_log, awaited, rank_commands,
  rank_change, join_commands, leave_commands,
}
use cmnw.Roster.Table.{effects, kept_row}

abbrev pub never : Command → Bool
never c = false

-- Another guid is not the one that a condition names.
pub other_guid : (s t : Text) → s ≢ t → same_text s t ≡ false
other_guid s t h = elim (Bool-cases (same_text s t)) [
  | inl same ↦ absurd (h ((same_text_iff s t).0 same))
  | inr other ↦ other
]

module _ (guild : Guild) (at : ℕ) where
  pub rank_change-none :
      (o : MemberRow) (u : Member) (i : ℕ) → effects (rank_change never guild at o u) i none ≡ none
  unfolding rank_change settle_and_log rank_commands effects
  rank_change-none o u i = ground arith

  pub rank_change-other :
      (o r : MemberRow) (u : Member) (i : ℕ)
      → r.character_guid ≢ o.character_guid
      → effects (rank_change never guild at o u) i (some r) ≡ some r
  unfolding rank_change settle_and_log rank_commands effects
  rank_change-other o r u i h = ground (arith, other_guid r.character_guid o.character_guid h)

  pub rank_change_self :
      (o : MemberRow) (u : Member) (i : ℕ)
      → o.guild_guid ≡ guild.guid
      → effects (rank_change never guild at o u) i (some o) ≡ some (kept_row o u)
  unfolding rank_change settle_and_log rank_commands effects kept_row
  rank_change_self o u i own = ground (
    arith,
    (same_text_iff o.guild_guid guild.guid).1 own,
    (same_text_iff o.character_guid o.character_guid).1 refl,
  )

  -- A second visit changes nothing more.
  pub rank_change-again :
      (o : MemberRow) (u : Member) (i : ℕ)
      → effects (rank_change never guild at o u) i (some (kept_row o u)) ≡ some (kept_row o u)
  unfolding rank_change settle_and_log rank_commands effects kept_row
  rank_change-again o u i = ground arith

  pub join_commands-other :
      (first : Bool) (u : Member) (i : ℕ) (s : Option MemberRow)
      → u.id ≢ i
      → effects (join_commands never guild at first u) i s ≡ s
  unfolding join_commands settle_and_log awaited effects
  join_commands-other first u i s h = ground arith

  pub join_commands_self :
      (first : Bool) (u : Member) (i : ℕ) (s : Option MemberRow)
      → u.id ≡ i
      → effects (join_commands never guild at first u) i s ≡ some (joined_row guild at u)
  unfolding join_commands settle_and_log awaited effects
  join_commands_self first u i s h = ground arith

  pub leave_commands-none :
      (o : MemberRow) (i : ℕ) → effects (leave_commands never guild at o) i none ≡ none
  unfolding leave_commands settle_and_log awaited effects
  leave_commands-none o i = ground arith

  pub leave_commands-other :
      (o r : MemberRow) (i : ℕ)
      → r.character_guid ≢ o.character_guid
      → effects (leave_commands never guild at o) i (some r) ≡ some r
  unfolding leave_commands settle_and_log awaited effects
  leave_commands-other o r i h = ground (arith, other_guid r.character_guid o.character_guid h)

  pub leave_commands_self :
      (o : MemberRow) (i : ℕ)
      → o.guild_guid ≡ guild.guid
      → effects (leave_commands never guild at o) i (some o) ≡ none
  unfolding leave_commands settle_and_log awaited effects
  leave_commands_self o i own = ground (
    arith,
    (same_text_iff o.guild_guid guild.guid).1 own,
    (same_text_iff o.character_guid o.character_guid).1 refl,
  )
