-- ===== src/Lifecycle/Changes.antt =====
-- What is logged of a change, and what becomes of the guild.
use cmnw.Prelude.{
  truthy_number, same_option, Bool, true, false, none, List, [], ◌∷◌, ◌++◌, map, ◌≡◌, ◌≢◌, ◌⊎◌,
  refl, arith, keep, All, ap, Bool-cases, inl, inr,
}
use cmnw.Lifecycle.{
  Character, ChangeLog, Field, action_log_fields, is_changed, change_log, diff_from,
  diff_and_log_changes, without_old_guild, handle_existing_character_updates,
}

-- What is left out starts with a rejected entry.
abbrev pub StartsRejected : {A : Type 0} → (A → Bool) → List A → Type 0
StartsRejected fails [] = Unit
StartsRejected fails (l ∷ ls) = fails l ≡ true

-- The first entries of a list, as far as none is rejected.
pub IsCut : {A : Type 0} → (A → Bool) → (all_entries saved : List A) → Type 0
IsCut fails ws ds =
    (rest : List _) × (ws ≡ ds ++ rest) × All (λ l. fails l ≡ false) ds × StartsRejected fails rest

pub IsCut-saved :
    {A : Type 0} (fails : A → Bool) (l : A) (ws ds : List A)
    → fails l ≡ false
    → IsCut fails ws ds
    → IsCut fails (l ∷ ws) (l ∷ ds)
unfolding IsCut
IsCut-saved fails l ws ds h c = (c.0, ap (λ ls. l ∷ ls) c.1, (h, c.2), c.3)

pub IsCut-rejected :
    {A : Type 0} (fails : A → Bool) (l : A) (ws : List A) → fails l ≡ true → IsCut fails (l ∷ ws) []
unfolding IsCut
IsCut-rejected fails l ws h = (l ∷ ws, refl, tt, h)

pub IsCut-nil : {A : Type 0} (fails : A → Bool) → IsCut fails [] []
unfolding IsCut
IsCut-nil fails = ([], refl, tt, tt)

module _ (fails : ChangeLog → Bool) (original updated : Character) where
  -- The entries of the fields that have changed, in the order of the fields.
  pub entries : List Field → List ChangeLog
  entries ks = map (change_log fails original updated) (keep (is_changed fails original updated) ks)

  diff_from-IsCut :
      (ks : List Field) → IsCut fails (entries ks) (diff_from fails original updated ks)
  unfolding diff_from entries
  diff_from-IsCut [] = IsCut-nil fails
  diff_from-IsCut (k ∷ ks) = elim (Bool-cases (is_changed fails original updated k)) [
    | inl changed ↦ elim (Bool-cases (fails (change_log fails original updated k))) [
      | inl bad ↦
          rw (changed, bad)
            (IsCut-rejected fails (change_log fails original updated k) (entries ks) bad)
      | inr good ↦
          rw (changed, good)
            (IsCut-saved fails (change_log fails original updated k) (entries ks)
              (diff_from fails original updated ks) good (diff_from-IsCut ks))
    ]
    | inr same ↦ rw same (diff_from-IsCut ks)
  ]

-- diffAndLogChanges saves one entry for each field that both entities have and in which they
-- differ, in the order of the fields, up to the first entry that the database rejects.
pub diff_and_log_changes-IsCut :
    (fails : ChangeLog → Bool) (original updated : Character)
    → IsCut fails
        (entries fails original updated action_log_fields)
        (diff_and_log_changes fails original updated)
unfolding diff_and_log_changes
diff_and_log_changes-IsCut fails original updated =
    diff_from-IsCut fails original updated action_log_fields

-- After handleExistingCharacterUpdates the entity has a guild id, or the guild it had before, or no
-- guild at all; everything else is as it was, and the entries are those for the entity as it is
-- then.
pub handle_existing-guild :
    (fails : ChangeLog → Bool) (original updated : Character)
    → let r = handle_existing_character_updates fails original updated in
      (((truthy_number r.0.guild_id ≢ none) × (r.0 ≡ updated))
        ⊎ ((same_option original.guild_guid r.0.guild_guid ≡ true) × (r.0 ≡ updated))
        ⊎ (r.0 ≡ record updated {
          guild_guid = none;
          guild = none;
          guild_rank = none;
          guild_id = none;
        }))
      × (r.1 ≡ diff_and_log_changes fails original r.0)
unfolding handle_existing_character_updates without_old_guild
handle_existing-guild fails original updated = (ground arith, refl)
