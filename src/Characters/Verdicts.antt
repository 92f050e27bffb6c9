-- ===== src/Characters/Verdicts.antt =====
-- The status with which a character is saved, and what is reported of it.
use cmnw.Prelude.{
  ℕ, Bool, true, false, not, ◌&&◌, ◌||◌, Option, none, some, List, ◌≡◌, refl, ◌∙◌, ap, arith,
  is_some, truthy_text, Bool-cases, inl, inr, if◌then◌else◌, Text, codes, subst, sym,
}
use cmnw.Status.{get_char, State, success, pending, set_status, index_of, is_success}
use cmnw.Status.Encoding.{encode, update}
use cmnw.Status.Codec.{set_status-encode}
use cmnw.Status.Character.{
  Endpoint, status, summary, media, pets, mounts, professions, character_table,
  character_table-IsLawful, set_status_string, is_endpoint_success_in_string,
}
use cmnw.Lifecycle.{
  Message, Character, ExistsOrCreate, ChangeLog, find_or_create_character,
  handle_existing_character_updates, without_old_guild,
}
use cmnw.Characters.Requests.{Reply, replied, failed, StatusResponse, Entity, get_status, fulfilled}
use cmnw.Characters.Data.{
  Replies, Verdict, succeeded, partial, noted, status_or_none, process_result,
  fetch_and_update_character_data, log_character_result,
}
use cmnw.Characters.Job.{
  assign_status, fetch_if, keep_newer_guild, compare_with, JobResult, skipped, saved, threw, Rows,
  update_character, process, process_found, character_of, save_character, updated_entity,
  compare_and_save, hash_b_of, only_if,
}

-- The states after the five requests: the status's is what it was.
unfoldable pub marked : (Endpoint → State) → Endpoint → State
marked f status = f status
marked f summary = success
marked f media = success
marked f pets = success
marked f mounts = success
marked f professions = success

set_status_string-encode :
    (f : Endpoint → State) (k : Endpoint) (st : State)
    → set_status_string (encode character_table f) k st
      ≡ encode character_table (update character_table f k st)
unfolding set_status_string
set_status_string-encode f k st = set_status-encode character_table character_table-IsLawful f k st

status_or_none-encode :
    (f : Endpoint → State)
    → status_or_none (some (encode character_table f)) ≡ encode character_table f
unfolding encode status_or_none
status_or_none-encode f = refl

mark : (Endpoint → State) → Endpoint → Endpoint → State
mark f k = update character_table f k success

marks :
    (f : Endpoint → State)
    → encode character_table
        (mark (mark (mark (mark (mark f summary) pets) mounts) media) professions)
      ≡ encode character_table (marked f)
unfolding encode update mark marked
marks f = refl

step :
    {R : Type 0} (f : Endpoint → State) (k : Endpoint) (r : R) (s : Text)
    → s ≡ encode character_table f
    → process_result s k (fulfilled r) ≡ encode character_table (mark f k)
unfolding process_result mark
step f k r s e = rw e (set_status_string-encode f k success)

-- From a status string with a state of every endpoint, the five requests leave the state of the
-- status and make every other state a success, whatever the requests reply, also if they all fail.
pub fetch-encode :
    (hash : Text → Text) (r : Replies) (e : Entity) (f : Endpoint → State)
    → e.character.status ≡ some (encode character_table f)
    → (fetch_and_update_character_data hash r e).character.status
      ≡ some (encode character_table (marked f))
unfolding fetch_and_update_character_data
fetch-encode hash r e f h = ap some (
    step _ professions _ _ (
      step _ media _ _ (
        step _ mounts _ _
          (step _ pets _ _ (step f summary _ _ (ap status_or_none h ∙ status_or_none-encode f)))))
    ∙ marks f)

-- The status and the verdict that a reply to the first request leads to.
unfoldable pub status_of : Reply StatusResponse → Text
status_of (replied r) = elim r.is_valid [
  | none ↦ codes "S-----"
  | some b ↦ if b then codes "SUVPMR" else codes "S-----"
]
status_of failed = codes "s-----"

unfoldable pub verdict_of : Reply StatusResponse → Verdict
verdict_of (replied r) = elim r.is_valid [ none ↦ noted | some b ↦ if b then succeeded else noted ]
verdict_of failed = partial

only_status : State → Endpoint → State
only_status st status = st
only_status st _ = pending

fetched-status :
    (hash : Text → Text) (r : Replies) (e : Entity)
    → e.character.status ≡ some (codes "S-----")
    → (fetch_and_update_character_data hash r e).character.status ≡ some (codes "SUVPMR")
unfolding encode marked only_status
fetched-status hash r e h = fetch-encode hash r e (only_status success) h

fetch_valid-status :
    (hash : Text → Text) (v : Option Bool) (n at : Option ℕ) (r : Replies) (e : Entity)
    → let st : Reply StatusResponse =
        replied (record { id = n; is_valid = v; last_modified = at }) in
      (fetch_if hash (get_status st).is_valid r (assign_status (get_status st) e)).character.status
      ≡ some (status_of st)
unfolding get_status status_of assign_status set_status_string set_status index_of
fetch_valid-status hash none n at r e = refl
fetch_valid-status hash (some false) n at r e = refl
fetch_valid-status hash (some true) n at r e = fetched-status hash r _ refl

fetch_if-status :
    (hash : Text → Text) (st : Reply StatusResponse) (r : Replies) (e : Entity)
    → (fetch_if hash (get_status st).is_valid r (assign_status (get_status st) e)).character.status
      ≡ some (status_of st)
unfolding get_status status_of assign_status set_status_string set_status index_of
fetch_if-status hash (replied st) r e =
    fetch_valid-status hash st.is_valid st.id st.last_modified r e
fetch_if-status hash failed r e = refl

compare_with-status :
    (fails : ChangeLog → Bool) (o : Option Entity) (e : Entity)
    → (compare_with fails o e).0.character.status ≡ e.character.status
unfolding handle_existing_character_updates without_old_guild
compare_with-status fails none e = refl
compare_with-status fails (some o) e = ground arith

keep_newer_guild-status :
    (l : Option ℕ) (o : Option Entity) (c : Character) → (keep_newer_guild l o c).status ≡ c.status
unfolding keep_newer_guild
keep_newer_guild-status l o c = ground arith

log_valid-status_of :
    (v : Option Bool) (n at : Option ℕ)
    → let st : Reply StatusResponse =
        replied (record { id = n; is_valid = v; last_modified = at }) in
      log_character_result (some (status_of st)) ≡ verdict_of st
unfolding log_character_result status_of verdict_of status_or_none is_endpoint_success_in_string
    is_success index_of get_char
log_valid-status_of none n at = refl
log_valid-status_of (some false) n at = refl
log_valid-status_of (some true) n at = refl

log-status_of :
    (st : Reply StatusResponse) → log_character_result (some (status_of st)) ≡ verdict_of st
unfolding log_character_result status_of verdict_of status_or_none is_endpoint_success_in_string
    is_success index_of get_char
log-status_of (replied r) = log_valid-status_of r.is_valid r.id r.last_modified
log-status_of failed = refl

-- What is saved has the status of a reply, and the verdict is that of the reply; a throw may come
-- before the save or after it.
pub IsReported : Reply StatusResponse → JobResult → Type 0
IsReported st (saved e logs enqueued v) =
    (e.character.status ≡ some (status_of st)) × (v ≡ verdict_of st)
IsReported st skipped = ⊥
IsReported st (threw logs none) = Unit
IsReported st (threw logs (some e)) = e.character.status ≡ some (status_of st)

pub did_throw : JobResult → Bool
did_throw (saved e logs enqueued v) = false
did_throw skipped = false
did_throw (threw logs e) = true

-- Nothing of a job throws.
pub record NeverThrows (db : Rows) : Type 0 where
  pub key : db.no_key ≡ false
  pub original : (t : Text) → db.original_fails t ≡ false
  pub current : (t : Text) → db.current_fails t ≡ false
  pub save : (e : Entity) → db.save_fails e ≡ false
  pub queue : (t : Text) → db.queue_fails t ≡ false

save_character-IsReported :
    (db : Rows) (st : Reply StatusResponse) (original : Option Entity) (e : Entity)
    (logs : List ChangeLog)
    → e.character.status ≡ some (status_of st)
    → IsReported st (save_character db original e logs)
unfolding save_character IsReported
save_character-IsReported db st original e logs h =
    let has_hash = is_some (truthy_text e.hash_b) || is_some (hash_b_of original) in
    elim (Bool-cases (db.save_fails e)) [
      | inl refused ↦ rw refused tt
      | inr done ↦ elim (Bool-cases (has_hash && db.queue_fails e.character.guid)) [
        | inl lost ↦ rw (done, lost) h
        | inr kept ↦ rw (done, kept) (h, ap log_character_result h ∙ log-status_of st)
      ]
    ]

compare_and_save-IsReported :
    (db : Rows) (st : Reply StatusResponse) (found : ExistsOrCreate) (e : Entity)
    → e.character.status ≡ some (status_of st)
    → IsReported st (compare_and_save db found e)
unfolding compare_and_save IsReported
compare_and_save-IsReported db st found e h =
    let original = only_if (not found.is_new) (db.find_by_guid e.character.guid) in
    let loaded = only_if (not found.is_new) found.character_entity.updated_at in
    let guid = (compare_with db.rejects original e).0.character.guid in
    elim (Bool-cases (not found.is_new && db.original_fails e.character.guid)) [
      | inl fails ↦ rw fails tt
      | inr read ↦ elim (Bool-cases (is_some loaded && db.current_fails guid)) [
        | inl fails ↦ rw (read, fails) tt
        | inr again ↦
            rw (read, again)
              (save_character-IsReported db st original _ _
                (keep_newer_guild-status _ _ _ ∙ compare_with-status _ _ _ ∙ h))
      ]
    ]

update_character-IsReported :
    (hash : Text → Text) (db : Rows) (m : Message) (st : Reply StatusResponse) (r : Replies)
    (found : ExistsOrCreate)
    → IsReported st (update_character hash db m st r found)
unfolding update_character updated_entity IsReported compare_and_save get_status keep_newer_guild
    save_character
update_character-IsReported hash db m st r found = elim (Bool-cases db.no_key) [
  | inl fails ↦ rw fails tt
  | inr key ↦ rw key (compare_and_save-IsReported db st found _ (fetch_if-status hash st r _))
]

module _ (db : Rows) (never : NeverThrows db) where
  save_character-did_throw :
      (original : Option Entity) (e : Entity) (logs : List ChangeLog)
      → did_throw (save_character db original e logs) ≡ false
  unfolding save_character did_throw
  save_character-did_throw original e logs =
      ground (arith, never.save e, never.queue e.character.guid)

  and_false : (a b : Bool) → b ≡ false → (a && b) ≡ false
  and_false a b h = ground arith

  compare_and_save-did_throw :
      (found : ExistsOrCreate) (e : Entity) → did_throw (compare_and_save db found e) ≡ false
  unfolding compare_and_save
  compare_and_save-did_throw found e =
      rw
        (
          and_false (not found.is_new) _ (never.original e.character.guid),
          and_false (is_some (only_if (not found.is_new) found.character_entity.updated_at)) _ (
              never.current
                (compare_with db.rejects
                  (only_if (not found.is_new) (db.find_by_guid e.character.guid))
                  e).0.character.guid),
        )
        (save_character-did_throw _ _ _)

  update_character-did_throw :
      (hash : Text → Text) (m : Message) (st : Reply StatusResponse) (r : Replies)
      (found : ExistsOrCreate)
      → did_throw (update_character hash db m st r found) ≡ false
  unfolding update_character updated_entity compare_and_save save_character
  update_character-did_throw hash m st r found =
      rw never.key (compare_and_save-did_throw found (updated_entity hash db m st r found))

pub process-ready :
    (hash : Text → Text) (db : Rows) (now : ℕ) (m : Message) (st : Reply StatusResponse)
    (r : Replies) (found : ExistsOrCreate)
    → find_or_create_character db.find_realm (λ guid. character_of (db.find_by_guid guid)) now m
      ≡ some found
    → found.is_not_ready_to_update ≡ false
    → found.is_create_only_unique ≡ false
    → process hash db now m st r ≡ update_character hash db m st r found
unfolding process process_found
process-ready hash db now m st r found f n c = ap (process_found hash db m st r) f ∙ rw (n, c) refl

-- Once the character is found and ready, the status that a job saves and the verdict depend on the
-- reply to the first request alone, whatever else fails: every endpoint is a success if that is of a
-- valid character, and the others are left pending if it is not, or if the request failed. A throw
-- may come before the save or, from the queue of hashes, after it; and where the key, the later
-- queries, the save and the queue do not throw, the job saves and gives its verdict.
pub process-IsReported :
    (hash : Text → Text) (db : Rows) (now : ℕ) (m : Message) (st : Reply StatusResponse)
    (r : Replies) (found : ExistsOrCreate)
    → find_or_create_character db.find_realm (λ guid. character_of (db.find_by_guid guid)) now m
      ≡ some found
    → found.is_not_ready_to_update ≡ false
    → found.is_create_only_unique ≡ false
    → IsReported st (process hash db now m st r)
      × (NeverThrows db → did_throw (process hash db now m st r) ≡ false)
process-IsReported hash db now m st r found f n c =
    subst (λ o. IsReported st o × (NeverThrows db → did_throw o ≡ false))
      (sym (process-ready hash db now m st r found f n c))
      (
        update_character-IsReported hash db m st r found,
        λ never. update_character-did_throw db never hash m st r found,
      )
