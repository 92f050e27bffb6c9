-- ===== src/HashBlocks/Frequencies.antt =====
-- What the table of frequencies and the loop over the members of a block give.
use cmnw.Prelude.{
  ℕ, ◌+◌, ◌≡◌, Bool, false, if◌then◌else◌, none, some, List, [], ◌∷◌, map, ltb, keep, length, All,
  Text, same_text, same_text_iff, truthy_text, refl, sym, ap, ◌∙◌, arith, ==_refl,
}
use cmnw.HashBlocks.{
  Member, of_block, update_members, frequency, set_frequency, count_hash, hash_a_frequencies,
  is_shared, confirm_each,
}
use cmnw.HashBlocks.Settled.{occurrences, shared_by, member_ids, IsAbsent, IsDistinct, ==-ne}

zero_add : (n : ℕ) → 0 + n ≡ n
zero_add n = omega arith

frequency-set_frequency :
    (h k : Text) (n : ℕ) (fs : List (Text × ℕ))
    → frequency h (set_frequency k n fs) ≡ (if same_text k h then n else frequency h fs)
unfolding frequency set_frequency
frequency-set_frequency h k n [] = refl
frequency-set_frequency h k n ((j, m) ∷ fs) = ground (
  arith,
  same_text_iff j k,
  same_text_iff j h,
  same_text_iff k h,
  frequency-set_frequency h k n fs,
)

-- The table of frequencies counts the members.
frequency-hash_a_frequencies :
    (h : Text) (fs : List (Text × ℕ)) (ms : List Member)
    → frequency h (hash_a_frequencies fs ms) ≡ frequency h fs + occurrences h ms
unfolding hash_a_frequencies count_hash occurrences
frequency-hash_a_frequencies h fs [] = omega arith
frequency-hash_a_frequencies h fs (m ∷ ms) =
    elim (truthy_text m.hash_a)
      as (λ o.
        frequency h (hash_a_frequencies (count_hash o fs) ms)
        ≡ frequency h fs
          + ((elim o [ none ↦ 0 | some k ↦ if same_text k h then 1 else 0 ]) + occurrences h ms)) [
            | none ↦ frequency-hash_a_frequencies h fs ms ∙ omega arith
            | some k ↦
                let ih =
                  frequency-hash_a_frequencies h (set_frequency k (frequency k fs + 1) fs) ms in
                let s = frequency-set_frequency h k (frequency k fs + 1) fs in
                ground (arith, ih, s, same_text_iff k h)
          ]

-- The table of frequencies tells whether another member has the first hash.
pub is_shared-hash_a_frequencies :
    (ms : List Member) (m : Member) → is_shared (hash_a_frequencies [] ms) m ≡ shared_by ms m
unfolding is_shared shared_by frequency
is_shared-hash_a_frequencies ms m =
    elim (truthy_text m.hash_a)
      as (λ o.
        ◌≡◌ {A = Bool}
          (elim o [ none ↦ false | some h ↦ ltb 1 (frequency h (hash_a_frequencies [] ms)) ])
          (elim o [ none ↦ false | some h ↦ ltb 1 (occurrences h ms) ])) [
            | none ↦ refl
            | some h ↦
                ap (ltb 1) (frequency-hash_a_frequencies h [] ms ∙ zero_add (occurrences h ms))
          ]

module _ (confirmed : Member → Bool) where
  pub confirm : Member → Member
  confirm m = record m { is_confirmed = confirmed m }

  abbrev confirm_as : Member → Member → Member
  confirm_as u m = record m { is_confirmed = confirmed u }

  update_members_absent :
      (f : Member → Member) (i : ℕ) (ms : List Member)
      → IsAbsent i (member_ids ms)
      → update_members i f ms ≡ ms
  unfolding update_members
  update_members_absent f i [] a = refl
  update_members_absent f i (m ∷ ms) a =
      rw (==-ne m.id i a.0) (ap (λ w. m ∷ w) (update_members_absent f i ms a.1))

  confirm_each-nil : (us : List Member) → confirm_each confirmed us [] ≡ []
  unfolding confirm_each update_members
  confirm_each-nil [] = refl
  confirm_each-nil (u ∷ us) = confirm_each-nil us

  confirm_each-cons :
      (us : List Member) (m : Member) (ms : List Member)
      → IsAbsent m.id (member_ids us)
      → confirm_each confirmed us (m ∷ ms) ≡ m ∷ confirm_each confirmed us ms
  unfolding confirm_each update_members
  confirm_each-cons [] m ms a = refl
  confirm_each-cons (u ∷ us) m ms a =
      rw (==-ne m.id u.id (λ q. a.0 (sym q))) (confirm_each-cons us m _ a.1)

  -- Members that are not among the updated ones stay as they are.
  pub confirm_each_absent :
      (us ms : List Member)
      → All (λ i. IsAbsent i (member_ids us)) (member_ids ms)
      → confirm_each confirmed us ms ≡ ms
  confirm_each_absent us [] a = confirm_each-nil us
  confirm_each_absent us (m ∷ ms) a =
      confirm_each-cons us m ms a.0 ∙ ap (λ w. m ∷ w) (confirm_each_absent us ms a.1)

  -- Each member gets its own flag.
  pub confirm_each_self :
      (us : List Member)
      → IsDistinct (member_ids us)
      → confirm_each confirmed us us ≡ map confirm us
  unfolding confirm_each update_members confirm
  confirm_each_self [] d = refl
  confirm_each_self (u ∷ us) d = rw (==_refl u.id) (
      ap (λ w. confirm_each confirmed us (confirm u ∷ w))
        (update_members_absent (confirm_as u) u.id us d.0)
      ∙ (confirm_each-cons us (confirm u) us (d.0)
          ∙ ap (λ w. confirm u ∷ w) (confirm_each_self us d.1)))

  of_block-update_members :
      (j i : ℕ) (u : Member) (ms : List Member)
      → of_block j (update_members i (confirm_as u) ms)
        ≡ update_members i (confirm_as u) (of_block j ms)
  unfolding update_members
  of_block-update_members j i u [] = refl
  of_block-update_members j i u (m ∷ ms) = ground (arith, of_block-update_members j i u ms)

  pub of_block-confirm_each :
      (j : ℕ) (us ms : List Member)
      → of_block j (confirm_each confirmed us ms) ≡ confirm_each confirmed us (of_block j ms)
  unfolding confirm_each
  of_block-confirm_each j [] ms = refl
  of_block-confirm_each j (u ∷ us) ms =
      of_block-confirm_each j us _
      ∙ ap (confirm_each confirmed us) (of_block-update_members j u.id u ms)

  member_ids-update_members :
      (i : ℕ) (u : Member) (ms : List Member)
      → member_ids (update_members i (confirm_as u) ms) ≡ member_ids ms
  unfolding update_members
  member_ids-update_members i u [] = refl
  member_ids-update_members i u (m ∷ ms) = ground (arith, member_ids-update_members i u ms)

  pub member_ids-confirm_each :
      (us ms : List Member) → member_ids (confirm_each confirmed us ms) ≡ member_ids ms
  unfolding confirm_each
  member_ids-confirm_each [] ms = refl
  member_ids-confirm_each (u ∷ us) ms =
      member_ids-confirm_each us _ ∙ member_ids-update_members u.id u ms

  occurrences-confirm :
      (h : Text) (ms : List Member) → occurrences h (map confirm ms) ≡ occurrences h ms
  unfolding occurrences confirm
  occurrences-confirm h [] = refl
  occurrences-confirm h (m ∷ ms) = omega (arith, occurrences-confirm h ms)

  shared_by-confirm :
      (ms : List Member) (m : Member) → shared_by (map confirm ms) m ≡ shared_by ms m
  unfolding shared_by
  shared_by-confirm ms m =
      elim (truthy_text m.hash_a)
        as (λ o.
          ◌≡◌ {A = Bool} (elim o [ none ↦ false | some h ↦ ltb 1 (occurrences h (map confirm ms)) ])
            (elim o [ none ↦ false | some h ↦ ltb 1 (occurrences h ms) ])) [
              | none ↦ refl
              | some h ↦ ap (ltb 1) (occurrences-confirm h ms)
            ]

  pub length-keep-confirm :
      (ms : List Member)
      → length (keep confirmed ms) ≡ length (keep (λ m. m.is_confirmed) (map confirm ms))
  unfolding confirm
  length-keep-confirm [] = refl
  length-keep-confirm (m ∷ ms) = ground (arith, length-keep-confirm ms)

  shared_by-same : (ms : List Member) (m : Member) → shared_by ms m ≡ shared_by ms (confirm m)
  unfolding shared_by confirm
  shared_by-same ms m = refl

  -- Every flag is the test's.
  pub flags-confirm :
      (all ms : List Member)
      → ((m : Member) → confirmed m ≡ shared_by all m)
      → All (λ m. m.is_confirmed ≡ shared_by (map confirm all) m) (map confirm ms)
  unfolding confirm
  flags-confirm all [] h = tt
  flags-confirm all (m ∷ ms) h = (
    h m ∙ (shared_by-same all m ∙ sym (shared_by-confirm all (confirm m))),
    flags-confirm all ms h,
  )
