-- ===== src/Guilds/Pipeline.antt =====
-- The status that the guild worker saves.
use cmnw.Prelude.{
  ℕ, Bool, true, false, Option, none, some, List, [], ◌∷◌, ◌≡◌, refl, ◌∙◌, ap, arith, if◌then◌else◌,
  Text, codes, same_text,
}
use cmnw.Status.{State, success, error, set_status, index_of}
use cmnw.Status.Encoding.{encode, update}
use cmnw.Status.Codec.{set_status-encode}
use cmnw.Status.Guild.{
  Operation, summary, roster, members, logs, master, guild_table, guild_table-IsLawful,
  set_guild_status_string,
}
use cmnw.Roster.{Guild, MemberRow, Roster, Command, IdSets, update_roster}
use cmnw.Guilds.{includes, aggregate_guild_status, roster_result, roster_status_of, settled}

abbrev pub verdict : Bool → State
verdict failed = if failed then error else success

-- The states after a run: the summary's is what it was.
unfoldable pub aggregated :
    (Operation → State)
    → (roster_status logs_status master_status : Option Text) → Operation
    → State
aggregated f r l g summary = f summary
aggregated f r l g roster = verdict (includes b'r' r)
aggregated f r l g members = verdict (includes b'm' r)
aggregated f r l g logs = verdict (includes b'l' l)
aggregated f r l g master = verdict (includes b'g' g)

set_guild-encode :
    (f : Operation → State) (k : Operation) (st : State)
    → set_guild_status_string (encode guild_table f) k st
      ≡ encode guild_table (update guild_table f k st)
unfolding set_guild_status_string
set_guild-encode f k st = set_status-encode guild_table guild_table-IsLawful f k st

not_empty :
    (f : Operation → State)
    → (if same_text (encode guild_table f) [] then codes "-----" else encode guild_table f)
      ≡ encode guild_table f
unfolding encode
not_empty f = refl

updates :
    (f : Operation → State) (r l g : Option Text)
    → encode guild_table (
        update guild_table
          (update guild_table
            (update guild_table
              (update guild_table f roster (verdict (includes b'r' r)))
              members
              (verdict (includes b'm' r)))
            logs
            (verdict (includes b'l' l)))
          master
          (verdict (includes b'g' g)))
      ≡ encode guild_table (aggregated f r l g)
unfolding encode update aggregated
updates f r l g = refl

-- On a status string with a state of every operation, aggregateGuildStatus keeps the summary and
-- gives each other operation the state error or success according to whether its own step's string
-- (for the members, that of the roster) has the error's character.
pub aggregate_guild_status-encode :
    (f : Operation → State) (r l g : Option Text)
    → aggregate_guild_status (encode guild_table f) r l g ≡ encode guild_table (aggregated f r l g)
unfolding aggregate_guild_status
aggregate_guild_status-encode f r l g =
    rw
      (
        not_empty f,
        set_guild-encode f roster (verdict (includes b'r' r)),
        set_guild-encode (update guild_table f roster (verdict (includes b'r' r))) members
            (verdict (includes b'm' r)),
        set_guild-encode _ logs (verdict (includes b'l' l)),
        set_guild-encode _ master (verdict (includes b'g' g)),
      )
      (updates f r l g)

-- Whatever became of the request for the roster.
abbrev pub has_rows : Option Roster → Option (List MemberRow) → Bool
has_rows none rows = false
has_rows (some r) rows = elim r.members [
  | none ↦ false
  | some [] ↦ true
  | some (m ∷ ms) ↦ elim rows [ none ↦ false | some _ ↦ true ]
]

unfoldable pub reported :
    (Operation → State) → Bool → (logs_status master_status : Option Text) → Operation → State
reported f ok l g summary = f summary
reported f ok l g roster = success
reported f ok l g members = if ok then success else error
reported f ok l g logs = verdict (includes b'l' l)
reported f ok l g master = verdict (includes b'g' g)

member_status : Bool → Text
member_status ok = set_guild_status_string (codes "-----") members (if ok then success else error)

update_roster-status :
    (sets : IdSets) (fails : Command → Bool) (guild : Guild) (fetched : Option Roster) (at : ℕ)
    (rows : Option (List MemberRow))
    → (update_roster sets fails guild
        (record (roster_result fetched at) { updated_at = at })
        rows).0.status
      ≡ some (member_status (has_rows fetched rows))
unfolding update_roster roster_result member_status
update_roster-status sets fails guild none at rows = refl
update_roster-status sets fails guild (some r) at rows = ground arith

aggregated-member_status :
    (f : Operation → State) (ok : Bool) (l g : Option Text)
    → encode guild_table (aggregated f (some (member_status ok)) l g)
      ≡ encode guild_table (reported f ok l g)
unfolding encode aggregated reported member_status set_guild_status_string set_status index_of
aggregated-member_status f true l g = refl
aggregated-member_status f false l g = refl

-- From a status string with a state of every operation, and whatever the request for the roster
-- gives, also an error or a rejection: the status that is saved keeps the summary and reports the
-- roster as read; the members are in error exactly if there is no list of members or if it is not
-- empty and the query for their rows failed; and the other two are in error exactly if their own
-- strings, a blank one for a rejection, have the error's character.
pub roster_status_of-encode :
    (sets : IdSets) (fails : Command → Bool) (guild : Guild) (at : ℕ) (fetched : Option Roster)
    (rows : Option (List MemberRow)) (f : Operation → State) (l g : Option Text)
    → (roster_status_of sets fails guild at fetched rows (encode guild_table f) l g).0
      ≡ encode guild_table (reported f (has_rows fetched rows) (settled l) (settled g))
unfolding roster_status_of
roster_status_of-encode sets fails guild at fetched rows f l g =
    ap (λ r. aggregate_guild_status (encode guild_table f) r (settled l) (settled g))
      (update_roster-status sets fails guild fetched at rows)
    ∙ aggregate_guild_status-encode f (some (member_status (has_rows fetched rows))) (settled l)
        (settled g)
    ∙ aggregated-member_status f (has_rows fetched rows) (settled l) (settled g)
