-- ===== src/Keys/Recording.antt =====
-- What the recording methods leave in the table of keys.
use cmnw.Prelude.{
  ℕ, ◌+◌, ◌-◌, ◌*◌, ◌≤◌, ◌<◌, Bool, true, false, Option, none, some, ◌≡◌, refl, arith, leb, ltb,
  if◌then◌else◌, Text, same_text, same_text_iff, ◌∙◌, sym, ap,
}
use mathlib.Core.Option
use cmnw.Keys.{
  Key, KeyHealth, Store, IsStore, ok, cooldown_end, is_available, calculate_new_cooldown,
  record_key_failure, get_key_cooldown_ms, should_wait_for_key, reset_key_health,
}

cooldown_end-failed :
    (k : Key) (c now : ℕ)
    → 0 < c
    → cooldown_end (record k { cooldown_delay_seconds = c; last_failure_at = some now })
      ≡ some (now + c * 1000)
unfolding cooldown_end
cooldown_end-failed k c now p = ground arith

cooldown_end-reset : (k : Key) → k.cooldown_delay_seconds ≡ 0 → cooldown_end k ≡ none
unfolding cooldown_end
cooldown_end-reset k e = ground arith

is_available-cooldown_end :
    (now : ℕ) (k : Key) (o : Option ℕ)
    → cooldown_end k ≡ o
    → is_available now k ≡ elim o [ none ↦ true | some end ↦ leb end now ]
unfolding is_available
is_available-cooldown_end now k o e = rw (e, is_available)

rate_limit-positive :
    (h : KeyHealth) (c : ℕ)
    → 1 ≤ h.base_delay
    → 1 ≤ h.max_delay
    → 0 < calculate_new_cooldown h c true
unfolding calculate_new_cooldown
rate_limit-positive h c b m = omega arith

module _ {Db : Type 0} (s : Store Db) (l : IsStore s) (h : KeyHealth) where
  -- A failure of a key that the table has is recorded: the key has the new cooldown and the time
  -- of the failure, its other fields are kept, and so is every other key.
  pub find_one-record_key_failure :
      (now : ℕ) (is_rate_limit : Bool) (u v : Text) (db : Db) (k : Key)
      → s.find_one u db ≡ some k
      → let c = calculate_new_cooldown h k.cooldown_delay_seconds is_rate_limit in
        (db' : Db) × (record_key_failure s h now is_rate_limit u db ≡ ok (db', c))
        × (s.find_one v db' ≡ (
            if same_text u v
            then some (record k { cooldown_delay_seconds = c; last_failure_at = some now })
            else s.find_one v db))
  unfolding record_key_failure
  find_one-record_key_failure now r u v db k found =
      let c = calculate_new_cooldown h k.cooldown_delay_seconds r in
      let failed = record k { cooldown_delay_seconds = c; last_failure_at = some now } in
      (
        s.save failed db,
        rw (found, record_key_failure) refl,
        rw (← l.find_one-uuid u db k found) (l.find_one-save failed v db),
      )

  -- The recording of a rate limit leaves the key refused to every caller until its new cooldown is
  -- over; `shouldWaitForKey` answers from the table with exactly the time that is left; and another
  -- key waits as it did. A positive base delay and a positive maximum are assumed.
  pub rate_limited_key_waits :
      (now later : ℕ) (u v : Text) (db : Db) (k : Key)
      → s.find_one u db ≡ some k
      → same_text u v ≡ false
      → 1 ≤ h.base_delay
      → 1 ≤ h.max_delay
      → (db' : Db) × (c : ℕ) × (record_key_failure s h now true u db ≡ ok (db', c))
        × (failed : Key) × (s.find_one u db' ≡ some failed)
        × (is_available later failed ≡ leb (now + c * 1000) later)
        × (should_wait_for_key s later u db'
            ≡ (ltb 0 (now + c * 1000 - later), now + c * 1000 - later))
        × (should_wait_for_key s later v db' ≡ should_wait_for_key s later v db)
  unfolding should_wait_for_key get_key_cooldown_ms find_one-record_key_failure
  rate_limited_key_waits now later u v db k found other b m =
      let c = calculate_new_cooldown h k.cooldown_delay_seconds true in
      let failed = record k { cooldown_delay_seconds = c; last_failure_at = some now } in
      let (db', recorded, reads) = find_one-record_key_failure now true u u db k found in
      let (_, _, same_key) = find_one-record_key_failure now true u v db k found in
      let end = cooldown_end-failed k c now (rate_limit-positive h k.cooldown_delay_seconds b m) in
      let here : s.find_one u db' ≡ some failed = reads ∙ rw ((same_text_iff u u).1 refl) refl in
      let there : s.find_one v db' ≡ s.find_one v db = same_key ∙ rw other refl in
      (
        db',
        c,
        recorded,
        failed,
        here,
        is_available-cooldown_end later failed _ end,
        rw (here, should_wait_for_key, get_key_cooldown_ms) (rw end refl),
        rw (there, should_wait_for_key, get_key_cooldown_ms) refl,
      )

  -- A reset key is available to everyone at once.
  pub reset_key_health-available :
      (now : ℕ) (u : Text) (db : Db) (k : Key)
      → s.find_one u (reset_key_health s u db) ≡ some k
      → (is_available now k ≡ true) × (get_key_cooldown_ms s now u (reset_key_health s u db) ≡ 0)
  unfolding reset_key_health get_key_cooldown_ms
  reset_key_health-available now u db k found =
      let reset =
        λ (key : Key). record key { cooldown_delay_seconds = 0; last_failure_at = none } in
      let same = (same_text_iff u u).1 refl in
      let reads : Option.map reset (s.find_one u db) ≡ some k =
        sym (l.find_one-update u u reset db (λ k. refl) ∙ rw same refl) ∙ found in
      let (old, _, made) = (Option.map-eq-some_iff reset (s.find_one u db)).0 reads in
      let no_end = cooldown_end-reset k (ap (λ (x : Key). x.cooldown_delay_seconds) (sym made)) in
      (
        is_available-cooldown_end now k none no_end,
        rw (found, get_key_cooldown_ms) (rw no_end refl),
      )
