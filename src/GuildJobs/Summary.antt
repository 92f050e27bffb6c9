-- ===== src/GuildJobs/Summary.antt =====
-- The summary in the status of a guild, and what it makes of the success of a job.
use cmnw.Prelude.{
  ℕ, Bool, true, false, ◌&&◌, ◌||◌, Option, none, some, List, [], ◌≡◌, ◌≢◌, ◌⊎◌, inl, inr, refl,
  ◌∙◌, ap, arith, Text, codes, subst, sym, Bool-cases,
}
use cmnw.Prelude.{some_inj, none_ne_some}
use cmnw.Lifecycle.{Realm}
use cmnw.Status.{State, pending, success, error, set_status, index_of}
use cmnw.Status.Encoding.{encode}
use cmnw.Status.Guild.{
  Operation, summary, roster, guild_table, core_verdicts, set_guild_status_string,
  is_core_guild_success_in_string,
}
use cmnw.Roster.{Guild, MemberRow, Roster, Command, IdSets}
use cmnw.Guilds.{aggregate_guild_status, roster_status_of, settled}
use cmnw.Guilds.Pipeline.{reported, has_rows, roster_status_of-encode}
use cmnw.Characters.Requests.{Reply, replied, failed}
use cmnw.Characters.Data.{succeeded}
use cmnw.GuildJobs.Lookup.{
  GuildEntity, GuildMessage, GuildExistsOrCreate, create_new, found_guild, found_or_new, lookup_in,
  find_or_create, is_eu_region,
}
use cmnw.GuildJobs.Replies.{GuildSummary, get_summary, assign_fields, assign_result}
use cmnw.GuildJobs.Job.{
  Database, GuildResult, skipped, not_eu, threw, saved, updated_by_of, text_or_empty,
  aggregated_status, log_guild_result, update_guild, process_guild, process,
}

-- What the request for the summary leaves in the status: nothing, unless it fails.
unfoldable pub summary_state : Reply (Option GuildSummary) → State
summary_state (replied s) = pending
summary_state failed = error

-- The status string with which a job starts.
pub IsFresh : Option Text → Type 0
IsFresh s = (s ≡ none) ⊎ (s ≡ some (codes "--"))

only_summary : State → Operation → State
only_summary st summary = st
only_summary st _ = pending

aggregate_short :
    (r l g : Option Text)
    → aggregate_guild_status (codes "--") r l g ≡ aggregate_guild_status (codes "-----") r l g
unfolding aggregate_guild_status set_guild_status_string set_status index_of
aggregate_short r l g = refl

aggregate_none :
    (r l g : Option Text)
    → aggregate_guild_status [] r l g ≡ aggregate_guild_status (codes "-----") r l g
unfolding aggregate_guild_status
aggregate_none r l g = refl

-- A string that aggregates as the string of some states.
Starts : Text → State → Type 0
Starts s st =
    (r l g : Option Text)
    → aggregate_guild_status s r l g
      ≡ aggregate_guild_status (encode guild_table (only_summary st)) r l g

Starts-fresh : (o : Option Text) → IsFresh o → Starts (text_or_empty o) pending
unfolding Starts IsFresh encode only_summary
Starts-fresh o (inl e) r l g = rw e (aggregate_none r l g)
Starts-fresh o (inr e) r l g = rw e (aggregate_short r l g)

Starts-error : Starts (set_guild_status_string (codes "-----") summary error) error
unfolding Starts encode only_summary set_guild_status_string set_status index_of
Starts-error r l g = refl

updated_by_of-status : (m : GuildMessage) (e : GuildEntity) → (updated_by_of m e).status ≡ e.status
updated_by_of-status m e = ground arith

assign_fields-status :
    (s : Option GuildSummary) (e : GuildEntity) → (assign_fields s e).status ≡ e.status
unfolding assign_fields
assign_fields-status none e = refl
assign_fields-status (some s) e = refl

Starts-assigned :
    (reply : Reply (Option GuildSummary)) (e : GuildEntity)
    → IsFresh e.status
    → Starts (text_or_empty (assign_result (get_summary reply) e).status) (summary_state reply)
unfolding get_summary assign_result summary_state
Starts-assigned (replied s) e h = Starts-fresh e.status h
Starts-assigned failed e h = Starts-error

aggregated-Starts :
    (sets : IdSets) (fails : Command → Bool) (guild : Guild) (at : ℕ) (fetched : Option Roster)
    (rows : Option (List MemberRow)) (s : Text) (st : State) (l g : Option Text)
    → Starts s st
    → (roster_status_of sets fails guild at fetched rows s l g).0
      ≡ encode guild_table
          (reported (only_summary st) (has_rows fetched rows) (settled l) (settled g))
unfolding roster_status_of Starts
aggregated-Starts sets fails guild at fetched rows s st l g h =
    h _ _ _ ∙ roster_status_of-encode sets fails guild at fetched rows (only_summary st) l g

-- A status string with a state of the summary, which is not reported as a success.
pub IsUncounted : State → Text → Type 0
IsUncounted st s =
    ((f : Operation → State) × (s ≡ encode guild_table f) × (f summary ≡ st) × (f roster ≡ success))
    × (is_core_guild_success_in_string s ≡ false)

encode-IsUncounted :
    (st : State) (f : Operation → State) (s : Text)
    → s ≡ encode guild_table f
    → f summary ≡ st
    → f roster ≡ success
    → st ≢ success
    → IsUncounted st s
unfolding IsUncounted
encode-IsUncounted st f s e h r n = (
  (f, e, h, r),
  elim (Bool-cases (is_core_guild_success_in_string s)) [
    | inr is_not ↦ is_not
    | inl is ↦ absurd (
        n (
          sym h
          ∙ ((core_verdicts f).0.0 (subst (λ t. is_core_guild_success_in_string t ≡ true) e is)).0))
  ],
)

summary_state-ne-success : (reply : Reply (Option GuildSummary)) → summary_state reply ≢ success
unfolding summary_state
summary_state-ne-success (replied s) = ground arith
summary_state-ne-success failed = ground arith

-- A throw, or a save whose status has a state of the summary and of the roster, and which is neither
-- counted nor reported as a success.
pub IsUnsuccessful : State → GuildResult → Type 0
IsUnsuccessful st (saved g counted v) =
    ((s : Text) × (f : Operation → State) × (g.status ≡ some s)
      × (s ≡ encode guild_table f)
      × (f summary ≡ st)
      × (f roster ≡ success))
    × (counted ≡ false)
    × (v ≢ succeeded)
IsUnsuccessful st skipped = ⊥
IsUnsuccessful st not_eu = ⊥
IsUnsuccessful st threw = Unit

pub is_saved : GuildResult → Bool
is_saved (saved g counted v) = true
is_saved skipped = false
is_saved not_eu = false
is_saved threw = false

log_guild_result-ne-succeeded :
    (s : Text) → is_core_guild_success_in_string s ≡ false → log_guild_result s ≢ succeeded
unfolding log_guild_result
log_guild_result-ne-succeeded s h = rw h (ground arith)

uncounted : (a b : Bool) → b ≡ false → (a && b) ≡ false
uncounted a b h = ground arith

aggregated_status-IsUncounted :
    (sets : IdSets) (db : Database) (m : GuildMessage) (reply : Reply (Option GuildSummary))
    (fetched : Option Roster) (found : GuildExistsOrCreate)
    → IsFresh found.guild_entity.status
    → IsUncounted (summary_state reply) (
        aggregated_status sets db fetched found
          (assign_result (get_summary reply) (updated_by_of m found.guild_entity)))
unfolding aggregated_status reported only_summary
aggregated_status-IsUncounted sets db m reply fetched found h =
    encode-IsUncounted (summary_state reply) _ _
      (aggregated-Starts sets db.fails _ _ fetched _ _ (summary_state reply) _ _ (
        Starts-assigned reply (updated_by_of m found.guild_entity)
          (subst IsFresh (sym (updated_by_of-status m found.guild_entity)) h)))
      refl refl (summary_state-ne-success reply)

-- Where a key is there and the save does not fail, a result is a save.
pub SavesIfUp : Database → GuildResult → Type 0
SavesIfUp db result =
    db.no_key ≡ false → ((e : GuildEntity) → db.save_fails e ≡ false) → is_saved result ≡ true

update_guild-IsUnsuccessful :
    (sets : IdSets) (db : Database) (m : GuildMessage) (reply : Reply (Option GuildSummary))
    (fetched : Option Roster) (found : GuildExistsOrCreate)
    → IsFresh found.guild_entity.status
    → IsUnsuccessful (summary_state reply) (update_guild sets db m reply fetched found)
      × SavesIfUp db (update_guild sets db m reply fetched found)
unfolding update_guild IsUnsuccessful IsUncounted is_saved SavesIfUp
update_guild-IsUnsuccessful sets db m reply fetched found h =
    let e = assign_result (get_summary reply) (updated_by_of m found.guild_entity) in
    let u = aggregated_status-IsUncounted sets db m reply fetched found h in
    let after = record e { status = some (aggregated_status sets db fetched found e) } in
    elim (Bool-cases (db.no_key || db.save_fails after)) [
      | inl fails ↦ rw fails (tt, λ key saves. ground (arith, saves after))
      | inr works ↦ rw works (
        (
          (_, u.0.0, refl, u.0.1, u.0.2, u.0.3),
          uncounted _ _ u.1,
          log_guild_result-ne-succeeded _ u.1,
        ),
        λ key saves. refl,
      )
    ]

found_guild-IsFresh :
    (now : ℕ) (m : GuildMessage) (row : GuildEntity) (found : GuildExistsOrCreate)
    → found_guild now m row ≡ some found
    → found.is_not_ready_to_update ≡ false
    → found.is_create_only_unique ≡ false
    → IsFresh found.guild_entity.status
unfolding found_guild IsFresh
found_guild-IsFresh now m row found e n c = ground arith

found_or_new-IsFresh :
    (kebab_case : Text → Text) (now : ℕ) (m : GuildMessage) (realm : Realm)
    (row : Option GuildEntity) (found : GuildExistsOrCreate)
    → found_or_new kebab_case now m realm row ≡ some found
    → found.is_not_ready_to_update ≡ false
    → found.is_create_only_unique ≡ false
    → IsFresh found.guild_entity.status
unfolding found_or_new create_new IsFresh
found_or_new-IsFresh kebab_case now m realm none found e n c =
    inl (ap (λ o. o.guild_entity.status) (sym (some_inj e)))
found_or_new-IsFresh kebab_case now m realm (some row) found e n c =
    found_guild-IsFresh now m row found e n c

lookup_in-IsFresh :
    (kebab_case : Text → Text) (find_guild : Text → Option GuildEntity) (now : ℕ) (m : GuildMessage)
    (realm : Option Realm) (found : GuildExistsOrCreate)
    → lookup_in kebab_case find_guild now m realm ≡ some found
    → found.is_not_ready_to_update ≡ false
    → found.is_create_only_unique ≡ false
    → IsFresh found.guild_entity.status
unfolding lookup_in
lookup_in-IsFresh kebab_case find_guild now m none found e n c = absurd (none_ne_some e)
lookup_in-IsFresh kebab_case find_guild now m (some realm) found e n c =
    found_or_new-IsFresh kebab_case now m realm _ found e n c

process_guild-IsUnsuccessful :
    (sets : IdSets) (db : Database) (m : GuildMessage) (reply : Reply (Option GuildSummary))
    (fetched : Option Roster) (found : GuildExistsOrCreate)
    → found.is_not_ready_to_update ≡ false
    → found.is_create_only_unique ≡ false
    → is_eu_region m.region ≡ true
    → IsFresh found.guild_entity.status
    → IsUnsuccessful (summary_state reply) (process_guild sets db m reply fetched (some found))
      × SavesIfUp db (process_guild sets db m reply fetched (some found))
unfolding process_guild update_guild aggregated_status
process_guild-IsUnsuccessful sets db m reply fetched found n c eu h =
    rw (n, c, eu) (update_guild-IsUnsuccessful sets db m reply fetched found h)

-- A guild of the region that is found or created and is ready is saved, if there is a key and the
-- save does not fail; else the job throws. The status that is saved has a state of every operation;
-- that of the roster is a success, and that of the summary is never one: it is pending if the summary
-- came, and an error if the request failed. So the job is not counted or reported as a success.
pub process-IsUnsuccessful :
    (kebab_case : Text → Text) (sets : IdSets) (db : Database) (now : ℕ) (m : GuildMessage)
    (reply : Reply (Option GuildSummary)) (fetched : Option Roster) (found : GuildExistsOrCreate)
    → find_or_create kebab_case db.find_realm db.find_guild now m ≡ some found
    → found.is_not_ready_to_update ≡ false
    → found.is_create_only_unique ≡ false
    → is_eu_region m.region ≡ true
    → IsUnsuccessful (summary_state reply) (process kebab_case sets db now m reply fetched)
      × SavesIfUp db (process kebab_case sets db now m reply fetched)
unfolding process find_or_create
process-IsUnsuccessful kebab_case sets db now m reply fetched found e n c eu =
    subst
      (λ o.
        IsUnsuccessful (summary_state reply) (process_guild sets db m reply fetched o)
        × SavesIfUp db (process_guild sets db m reply fetched o))
      (sym e)
      (process_guild-IsUnsuccessful sets db m reply fetched found n c eu
        (lookup_in-IsFresh kebab_case db.find_guild now m _ found e n c))
