-- ===== src/HashBlocks/Outcome.antt =====
-- What a job of `reconcileCharacter` does for the character, and when it throws.
use cmnw.Prelude.{
  some_inj, none_ne_some, ℕ, ◌≡◌, inl, inr, Bool, true, false, not, ◌||◌, none, some, List, [], ◌∷◌,
  map, keep, any, Text, same_text, same_text_iff, same_option, refl, sym, ap, ◌∙◌, subst,
  Bool-cases, Option-cases, Option-elim_cases, if_cases, Memᴰ, Memᴰ-keep,
}
use cmnw.Prelude.Memberships.{Memᴰ-map}
use cmnw.HashBlocks.{
  Character, Tables, Membership, first_of, save_block, insert_log, recompute_block_state, member_of,
  new_block, open_block, process_genesis, join_or_genesis, handle_accurate_block, process_leave,
  handle_collision_divergence, load_membership_with_context, reconcile_character,
  handle_no_membership, find_accurate_block_by_hash_value, HashAction,
}
use cmnw.HashBlocks.Steps.{save_block-some}
use cmnw.HashBlocks.Invariant.{first_of-Memᴰ}
use cmnw.HashBlocks.Joining.{
  has_member, save_members-none, join_or_genesis-has_member, handle_accurate_block-has_member,
  same_text_refl,
}

first_of-any :
    {A : Type 0} (p : A → Bool) (xs : List A) {x : A} → first_of p xs ≡ some x → any p xs ≡ true
unfolding first_of
first_of-any p [] e = cc
first_of-any p (y ∷ xs) e = elim (Bool-cases (p y)) [
  | inl h ↦ rw h refl
  | inr h ↦ rw h (first_of-any p xs (rw h at e))
]

load_membership_with_context-has_member :
    (t : Tables) (guid : Text) {ms : Membership}
    → load_membership_with_context t guid ≡ some ms
    → has_member guid t.members ≡ true
unfolding load_membership_with_context
load_membership_with_context-has_member t guid e =
    elim (Option-cases (first_of (λ m. same_text m.character_guid guid) t.members)) [
      | inl n ↦ absurd (none_ne_some (rw (n, load_membership_with_context) at e))
      | inr (m, h) ↦ first_of-any _ t.members h
    ]

module _ (now scanned_at : ℕ) where
  handle_collision_divergence-has_member :
      (ms : Membership) (c : Character) (t : Tables) {t' : Tables}
      → handle_collision_divergence now scanned_at ms c t ≡ some t'
      → Memᴰ c t.characters
      → (h : Text) → c.hash_b ≡ some h
      → has_member c.guid t'.members ≡ true
  unfolding handle_collision_divergence process_leave insert_log recompute_block_state
  handle_collision_divergence-has_member ms c t e k h q =
      let left =
        process_leave now scanned_at ms HashAction.migrate (some ms.block_hash_value) c.hash_b t in
      elim (Option-elim_cases c.hash_b (some left) (λ b. join_or_genesis now scanned_at c b left)
        e) [
          | inl (n, _) ↦ absurd (none_ne_some (sym n ∙ q))
          | inr (b, p, j) ↦ join_or_genesis-has_member now scanned_at c b left j k p
        ]

  -- After a job that does not throw, a character with a second hash is a member of a block.
  pub reconcile_character-has_member :
      (guid : Text) (t : Tables) {t' : Tables} {c : Character} {h : Text}
      → reconcile_character now scanned_at guid t ≡ some t'
      → first_of (λ d. same_text d.guid guid) t.characters ≡ some c
      → c.hash_b ≡ some h
      → has_member guid t'.members ≡ true
  unfolding reconcile_character handle_no_membership
  reconcile_character-has_member guid t {t'} {c} {h} e p q =
      let (k, g) = first_of-Memᴰ (λ (d : Character). same_text d.guid guid) t.characters p in
      let same = (same_text_iff c.guid guid).0 g in
      let e' = rw (p, reconcile_character) at e in
      elim (Option-cases (load_membership_with_context t guid)) [
        | inl n ↦
            elim (Option-elim_cases c.hash_b (some t) (λ b. join_or_genesis now scanned_at c b t)
              (rw n at e')) [
                | inl (z, _) ↦ absurd (none_ne_some (sym z ∙ q))
                | inr (b, z, j) ↦
                    subst (λ w. has_member w t'.members ≡ true) same
                      (join_or_genesis-has_member now scanned_at c b t j k z)
              ]
        | inr (ms, m) ↦
            elim (if_cases
              (not ms.block_is_collision || same_option c.hash_b (some ms.block_hash_value))
              (some (handle_accurate_block now scanned_at ms c t))
              (handle_collision_divergence now scanned_at ms c t) (rw m at e')) [
                | inl (_, b) ↦
                    subst (λ w. has_member guid w.members ≡ true) (some_inj b)
                      (handle_accurate_block-has_member now scanned_at guid ms c t
                        ∙ load_membership_with_context-has_member t guid m)
                | inr (_, b) ↦
                    subst (λ w. has_member w t'.members ≡ true) same
                      (handle_collision_divergence-has_member ms c t b k h q)
              ]
      ]

  save_block-none :
      (collision : Bool) (h : Text) (t : Tables)
      → any (λ b. same_text b.hash_value h) t.blocks ≡ true
      → save_block (new_block now scanned_at collision h) t ≡ none
  unfolding save_block
  save_block-none collision h t b = rw b refl

  open_block-none :
      (collision : Bool) (h : Text) (t : Tables)
      → any (λ b. same_text b.hash_value h) t.blocks ≡ true
      → open_block now scanned_at collision h t ≡ none
  unfolding open_block
  open_block-none collision h t b = rw (save_block-none collision h t b, open_block) refl

  -- The way from a character with no membership to a new block.
  reconcile_character-genesis :
      (guid : Text) (t : Tables) (c : Character) (h : Text)
      → first_of (λ d. same_text d.guid guid) t.characters ≡ some c
      → load_membership_with_context t guid ≡ none
      → c.hash_b ≡ some h
      → find_accurate_block_by_hash_value t h ≡ none
      → reconcile_character now scanned_at guid t ≡ open_block now scanned_at false h t
  unfolding process_genesis reconcile_character join_or_genesis handle_no_membership
  reconcile_character-genesis guid t c h p n q f =
      rw (p, reconcile_character)
        (rw (n, reconcile_character) (rw (q, handle_no_membership) (rw (f, join_or_genesis) refl)))

  -- A job throws, and changes nothing, for a character that is no member, has a second hash, and
  -- finds no accurate block with it, if a block with that hash value is there (a collision).
  pub reconcile_character-none_collision :
      (guid : Text) (t : Tables) (c : Character) (h : Text)
      → first_of (λ d. same_text d.guid guid) t.characters ≡ some c
      → load_membership_with_context t guid ≡ none
      → c.hash_b ≡ some h
      → find_accurate_block_by_hash_value t h ≡ none
      → any (λ b. same_text b.hash_value h) t.blocks ≡ true
      → reconcile_character now scanned_at guid t ≡ none
  reconcile_character-none_collision guid t c h p n q f b =
      reconcile_character-genesis guid t c h p n q f ∙ open_block-none false h t b

  -- A new block for a hash value throws if a character with that second hash is a member of some
  -- block already, as one whose second hash has changed is.
  pub open_block-none_moved :
      (collision : Bool) (h : Text) (t : Tables) (c : Character)
      → Memᴰ c t.characters
      → c.hash_b ≡ some h
      → has_member c.guid t.members ≡ true
      → open_block now scanned_at collision h t ≡ none
  unfolding open_block
  open_block-none_moved collision h t c k q m =
      elim (Option-cases (save_block (new_block now scanned_at collision h) t)) [
        | inl n ↦ rw (n, open_block) refl
        | inr (u, g) ↦
            let candidates = keep (λ d. same_option d.hash_b (some h)) u.characters in
            let saved = save_block-some (new_block now scanned_at collision h) t g in
            let k' : Memᴰ c u.characters = subst (λ w. Memᴰ c w.characters) (sym saved) k in
            let m' : has_member c.guid u.members ≡ true =
              subst (λ w. has_member c.guid w.members ≡ true) (sym saved) m in
            let inside =
              Memᴰ-keep (λ d. same_option d.hash_b (some h)) c u.characters k'
                (ap (λ w. same_option w (some h)) q ∙ same_text_refl h) in
            rw (g, open_block)
              (rw
                (save_members-none (map (member_of now scanned_at t.next_id) candidates) u
                  (member_of now scanned_at t.next_id c)
                  (Memᴰ-map (member_of now scanned_at t.next_id) c candidates inside) m')
                refl)
      ]
