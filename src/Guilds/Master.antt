-- ===== src/Guilds/Master.antt =====
-- What a change of the guild master does to the rows of the members.
use cmnw.Prelude.{
  ℕ, Bool, true, ◌&&◌, Option, none, some, List, [], ◌∷◌, ◌≡◌, ◌⊎◌, arith, ◌==◌, if◌then◌else◌,
  Text, same_text,
}
use cmnw.Roster.{Guild, Member, MemberRow, Roster}
use cmnw.Guilds.{
  Character, Change, set_member_rank, set_guild_rank, insert_logs, apply_guild_master_transition,
  handle_transition, detect_in_roster, detect_and_log_guild_master_change, master_succeeded,
  master_failed,
}

-- The documented effect of a write on the row of a member.
abbrev pub change_effect : Change → MemberRow → MemberRow
change_effect (set_member_rank guild character rank) r =
    if same_text r.guild_guid guild && (r.character_id == character)
    then record r { rank = rank }
    else r
change_effect (set_guild_rank guid rank) r = r
change_effect (insert_logs ls) r = r

unfoldable pub change_effects : List Change → MemberRow → MemberRow
change_effects [] r = r
change_effects (c ∷ cs) r = change_effects cs (change_effect c r)

-- The ranks after a transition, as the roster has them.
unfoldable pub handed_over : MemberRow → Member → Option ℕ → MemberRow → MemberRow
handed_over original_gm new_gm previous r =
    if r.character_id == new_gm.id
    then record r { rank = new_gm.rank }
    else if r.character_id == original_gm.character_id
    then elim previous [ none ↦ r | some rank ↦ record r { rank = rank } ]
    else r

-- The result is an error without a change, or a success without a change or with changes that the
-- database has accepted as one transaction.
pub detect-outcome :
    (find_character : Text → Option (Option Character)) (commits : List Change → Bool)
    (guild : Guild) (original : Option (Option MemberRow)) (r : Roster)
    → let s = detect_and_log_guild_master_change find_character commits guild original r in
      ((s.0 ≡ master_failed) × (s.1 ≡ []))
      ⊎ ((s.0 ≡ master_succeeded) × ((s.1 ≡ []) ⊎ (commits s.1 ≡ true)))
unfolding detect_and_log_guild_master_change detect_in_roster handle_transition
    apply_guild_master_transition
detect-outcome find_character commits guild original r = ground arith

module _ (characters : Text → Option Character) (guild : Guild) (g : MemberRow) (r : Roster)
    (ms : List Member) (n : Member) where
  abbrev pub changes : List Change
  changes =
      (detect_and_log_guild_master_change (λ t. some (characters t)) (λ _. true) guild
        (some (some g)) r).1
