-- ===== src/Lifecycle/Lookup.antt =====
-- What looking a character up gives.
use cmnw.Prelude.{
  ℕ, ◌+◌, true, false, not, ◌&&◌, ◌||◌, Option, none, some, ◌≡◌, ◌↔◌, refl, arith, leb,
  if◌then◌else◌, Text, codes, ap, ◌∙◌, Bool-cases, Option-cases, inl, inr,
}
use cmnw.Lifecycle.{
  Realm, Message, Character, ExistsOrCreate, twenty_four_hours, or_number, create_new_character,
  is_too_recent, found_character, find_or_create_character, should_update_character,
}

is_too_recent-leb : (now force t : ℕ) → leb (t + force) now ≡ not (is_too_recent now force t)
unfolding is_too_recent
is_too_recent-leb now force t = ground arith

-- A character that is known, with the date of its update, and that may be updated: the lookup
-- gives its row; the row is ready exactly if shouldUpdateCharacter says so for the same interval,
-- a day where none or nought is asked for; and the status of the row is reset exactly if it is ready.
pub find_or_create_character-ready :
    (find_realm : Text → Option Realm) (find_character : Text → Option Character) (now : ℕ)
    (m : Message) (realm : Realm) (row : Character) (t : ℕ)
    → find_realm m.realm ≡ some realm
    → find_character m.guid ≡ some row
    → row.updated_at ≡ some t
    → m.create_only_unique ≡ false
    → (r : ExistsOrCreate) × (find_or_create_character find_realm find_character now m ≡ some r)
      × (r.is_new ≡ false)
      × (should_update_character now row (or_number m.force_update twenty_four_hours)
          ≡ some (not r.is_not_ready_to_update))
      × (r.character_entity ≡ (
          if r.is_not_ready_to_update then row else record row { status = some (codes "------") }))
unfolding find_or_create_character found_character should_update_character
find_or_create_character-ready find_realm find_character now m realm row t e f g h =
    let force = or_number m.force_update twenty_four_hours in
    elim (Bool-cases (is_too_recent now force t)) [
      | inl recent ↦ (
        record {
          character_entity = row;
          is_new = false;
          is_create_only_unique = m.create_only_unique;
          is_not_ready_to_update = true;
        },
        ground arith,
        refl,
        rw (g, should_update_character) (ap some (is_too_recent-leb now force t ∙ ap not recent)),
        refl,
      )
      | inr old ↦ (
        record {
          character_entity = record row { status = some (codes "------") };
          is_new = false;
          is_create_only_unique = false;
          is_not_ready_to_update = false;
        },
        ground arith,
        refl,
        rw (g, should_update_character) (ap some (is_too_recent-leb now force t ∙ ap not old)),
        refl,
      )
    ]

-- Over a table that finds rows by their guid, whatever the lookup gives has the guid of the
-- message and is new exactly if no row was found; it is not both for creation only and too recent,
-- and neither of them if it is new.
pub find_or_create_character-guid :
    (find_realm : Text → Option Realm) (find_character : Text → Option Character) (now : ℕ)
    (m : Message)
    → ((guid : Text) (row : Character) → find_character guid ≡ some row → row.guid ≡ guid)
    → (r : ExistsOrCreate) → find_or_create_character find_realm find_character now m ≡ some r
    → (r.character_entity.guid ≡ m.guid)
      × ((r.is_new ≡ true) ↔ (find_character m.guid ≡ none))
      × ((r.is_create_only_unique && r.is_not_ready_to_update) ≡ false)
      × ((r.is_new && (r.is_create_only_unique || r.is_not_ready_to_update)) ≡ false)
unfolding find_or_create_character found_character create_new_character
find_or_create_character-guid find_realm find_character now m law r e =
    elim (Option-cases (find_character m.guid)) [
      | inl unknown ↦ ground arith
      | inr (row, known) ↦ ground (arith, law m.guid row known)
    ]
