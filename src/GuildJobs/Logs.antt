-- ===== src/GuildJobs/Logs.antt =====
-- The logs of a guild that has changed.
use cmnw.Prelude.{
  Bool, true, false, not, List, [], ◌∷◌, ◌≡◌, ◌↔◌, refl, arith, if◌then◌else◌, codes, any,
  Bool-cases, inl, inr, same_text, same_option, ◌||◌,
}
use cmnw.Status.{success, error, set_status, index_of}
use cmnw.Status.Guild.{logs, set_guild_status_string}
use cmnw.Lifecycle.Changes.{IsCut, IsCut-saved, IsCut-rejected, IsCut-nil}
use cmnw.GuildJobs.Lookup.{GuildEntity}
use cmnw.GuildJobs.Replies.{LogCommand, log_commands, run_commands, detect_and_log_changes}

run_commands-IsCut :
    (fails : LogCommand → Bool) (cs : List LogCommand) → IsCut fails cs (run_commands fails cs).1
unfolding run_commands
run_commands-IsCut fails [] = IsCut-nil fails
run_commands-IsCut fails (c ∷ cs) = elim (Bool-cases (fails c)) [
  | inl bad ↦ rw bad (IsCut-rejected fails c cs bad)
  | inr good ↦ rw good (IsCut-saved fails c cs _ good (run_commands-IsCut fails cs))
]

run_commands-any :
    (fails : LogCommand → Bool) (cs : List LogCommand)
    → (run_commands fails cs).0 ≡ not (any fails cs)
unfolding run_commands
run_commands-any fails [] = refl
run_commands-any fails (c ∷ cs) = ground (arith, run_commands-any fails cs)

-- A guild with another name or another faction has commands, and one without has none.
unfoldable pub is_changed_guild : GuildEntity → GuildEntity → Bool
is_changed_guild original updated =
    not (same_text original.name updated.name) || not (same_option original.faction updated.faction)

log_commands-nil :
    (original updated : GuildEntity)
    → (log_commands original updated ≡ []) ↔ (is_changed_guild original updated ≡ false)
unfolding log_commands is_changed_guild
log_commands-nil original updated = ground arith

log_text :
    (any_fails ok : Bool)
    → ok ≡ not any_fails
    → set_guild_status_string (codes "-----") logs (if ok then success else error)
      ≡ (if any_fails then codes "---l-" else codes "---L-")
unfolding set_guild_status_string set_status index_of
log_text true ok h = rw h refl
log_text false ok h = rw h refl

-- The writes for a guild are issued in their order up to the first that fails, those before it have
-- succeeded, and the status has the error of the logs exactly if one of the writes fails. There is
-- nothing to write exactly if the guild has the same name and faction.
pub detect_and_log_changes-IsCut :
    (fails : LogCommand → Bool) (original updated : GuildEntity)
    → let r = detect_and_log_changes fails original updated in
      IsCut fails (log_commands original updated) r.1
      × (r.0 ≡ (if any fails (log_commands original updated) then codes "---l-" else codes "---L-"))
      × ((log_commands original updated ≡ []) ↔ (is_changed_guild original updated ≡ false))
unfolding detect_and_log_changes
detect_and_log_changes-IsCut fails original updated = (
  run_commands-IsCut fails (log_commands original updated),
  log_text _ _ (run_commands-any fails (log_commands original updated)),
  log_commands-nil original updated,
)
