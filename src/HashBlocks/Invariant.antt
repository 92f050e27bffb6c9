-- ===== src/HashBlocks/Invariant.antt =====
-- `reconcileCharacter` keeps every block right.
use cmnw.Prelude.{
  some_inj, none_ne_some, ℕ, ◌≡◌, inl, inr, Bool, true, false, not, ◌&&◌, ◌||◌, if◌then◌else◌,
  Option, some, List, [], ◌∷◌, map, keep, ◌==◌, All, Text, same_text, same_option, refl, sym, ap,
  subst, arith, Bool-cases, Option-elim_cases, if_cases, Option-cases, Memᴰ, ◌<◌,
}
use cmnw.HashBlocks.{
  Character, Block, Member, Tables, Membership, HashAction, hash_a_change, hash_b_change, first_of,
  of_block, update_blocks, save_member, save_members, save_block, process_genesis, member_of,
  new_block, process_join, open_block, join_or_genesis, handle_no_membership, handle_accurate_block,
  log_change, process_leave, handle_collision_divergence, load_membership_with_context,
  reconcile_character, find_accurate_block_by_hash_value,
}
use cmnw.HashBlocks.Settled.{IsSettled, IsReady, IsConsistent, IsConsistent-IsReady}
use cmnw.HashBlocks.Recompute.{recompute_block_state-IsConsistent}
use cmnw.HashBlocks.Steps.{
  insert_log-IsReady, save_member-IsReady, save_members-IsReady, save_block-IsReady,
}
use cmnw.HashBlocks.Departures.{delete_members-IsReady, update_members-IsReady}

pub first_of-Memᴰ :
    {A : Type 0} (p : A → Bool) (xs : List A) {x : A}
    → first_of p xs ≡ some x
    → Memᴰ x xs × (p x ≡ true)
unfolding first_of
first_of-Memᴰ p [] e = cc
first_of-Memᴰ p (y ∷ xs) {x} e = elim (Bool-cases (p y)) [
  | inl h ↦
      let same : y ≡ x = ground arith in (Memᴰ.head (sym same), subst (λ w. p w ≡ true) same h)
  | inr h ↦ let (k, q) = first_of-Memᴰ p xs (rw h at e) in (Memᴰ.tail k, q)
]

-- The member of a membership is one of the table's.
pub load_membership_with_context-Memᴰ :
    (t : Tables) (guid : Text) {ms : Membership}
    → load_membership_with_context t guid ≡ some ms
    → Memᴰ ms.member t.members
unfolding load_membership_with_context
load_membership_with_context-Memᴰ t guid e =
    elim (Option-cases (first_of (λ m. same_text m.character_guid guid) t.members)) [
      | inl n ↦ absurd (none_ne_some (rw (n, load_membership_with_context) at e))
      | inr (m, h) ↦
          let e' = rw (h, load_membership_with_context) at e in
          elim (Option-cases (first_of (λ b. b.id == m.block_id) t.blocks)) [
            | inl n ↦ absurd (none_ne_some (rw n at e'))
            | inr (b, g) ↦
                let same = ap (λ w. w.member) (some_inj (rw g at e')) in
                subst (λ w. Memᴰ w t.members) same (first_of-Memᴰ _ t.members h).0
          ]
    ]

if_IsConsistent :
    (b : Bool) {t u : Tables} → IsConsistent t → IsConsistent u → IsConsistent (if b then t else u)
if_IsConsistent true c d = c
if_IsConsistent false c d = d

module _ (now scanned_at : ℕ) where
  process_join-IsConsistent :
      (b : Block) (c : Character) (t : Tables) {t' : Tables}
      → process_join now scanned_at b c t ≡ some t'
      → IsConsistent t
      → IsConsistent t'
  unfolding process_join
  process_join-IsConsistent b c t e s =
      elim (Option-cases (save_member (member_of now scanned_at b.id c) t)) [
        | inl n ↦ absurd (none_ne_some (rw (n, process_join) at e))
        | inr (u, h) ↦ subst IsConsistent (some_inj (rw (h, process_join) at e)) (
            recompute_block_state-IsConsistent b.id scanned_at (
              insert_log-IsReady b.id _ (
                save_member-IsReady (member_of now scanned_at b.id c) t h
                  (IsConsistent-IsReady b.id s))))
      ]

  members_of_block :
      (i : ℕ) (cs : List Character)
      → All (λ m. m.block_id ≡ i) (map (member_of now scanned_at i) cs)
  members_of_block i [] = tt
  members_of_block i (c ∷ cs) = (refl, members_of_block i cs)

  pub open_block-IsConsistent :
      (collision : Bool) (h : Text) (t : Tables) {t' : Tables}
      → open_block now scanned_at collision h t ≡ some t'
      → IsConsistent t
      → IsConsistent t'
  unfolding open_block
  open_block-IsConsistent collision h t e s =
      elim (Option-cases (save_block (new_block now scanned_at collision h) t)) [
        | inl n ↦ absurd (none_ne_some (rw (n, open_block) at e))
        | inr (u, g) ↦
            let candidates = keep (λ c. same_option c.hash_b (some h)) u.characters in
            let ms = map (member_of now scanned_at t.next_id) candidates in
            let e' = rw (g, open_block) at e in
            elim (Option-cases (save_members ms u)) [
              | inl n ↦ absurd (none_ne_some (rw n at e'))
              | inr (v, k) ↦ subst IsConsistent (some_inj (rw k at e')) (
                  recompute_block_state-IsConsistent t.next_id scanned_at (
                    insert_log-IsReady t.next_id _ (
                      save_members-IsReady t.next_id ms u (members_of_block t.next_id candidates) k
                        (save_block-IsReady (new_block now scanned_at collision h) t g s))))
            ]
      ]

  join_or_genesis-IsConsistent :
      (c : Character) (h : Text) (t : Tables) {t' : Tables}
      → join_or_genesis now scanned_at c h t ≡ some t'
      → IsConsistent t
      → IsConsistent t'
  unfolding join_or_genesis process_genesis
  join_or_genesis-IsConsistent c h t e s =
      elim (Option-cases (find_accurate_block_by_hash_value t h)) [
        | inl g ↦ open_block-IsConsistent false h t (rw (g, join_or_genesis) at e) s
        | inr (b, g) ↦ process_join-IsConsistent b c t (rw (g, join_or_genesis) at e) s
      ]

  log_change-IsReady :
      (i : ℕ) (changed : Bool) (ms : Membership) (c : Character) (action : HashAction)
      (original updated : Option Text) {t : Tables}
      → IsReady i t
      → IsReady i (log_change now scanned_at changed ms c action original updated t)
  log_change-IsReady i true ms c action original updated r = insert_log-IsReady i _ r
  log_change-IsReady i false ms c action original updated r = r

  touch-IsSettled :
      (i : ℕ) (ms : List Member) (bs : List Block)
      → All (λ b. IsSettled b (of_block b.id ms)) bs
      → All
          (λ b. IsSettled b (of_block b.id ms))
          (update_blocks i (λ b. record b { last_seen_at = scanned_at }) bs)
  unfolding update_blocks
  touch-IsSettled i ms [] a = tt
  touch-IsSettled i ms (b ∷ bs) a =
      let ih = touch-IsSettled i ms bs a.1 in
      elim (Bool-cases (b.id == i)) [
        | inl h ↦ rw h (
          record {
            counted = a.0.counted;
            confirmed = a.0.confirmed;
            collision = a.0.collision;
            flags = a.0.flags;
          },
          ih,
        )
        | inr h ↦ rw h (a.0, ih)
      ]

  touch-below :
      (i n : ℕ) (bs : List Block)
      → All (λ b. b.id < n) bs
      → All (λ b. b.id < n) (update_blocks i (λ b. record b { last_seen_at = scanned_at }) bs)
  unfolding update_blocks
  touch-below i n [] a = tt
  touch-below i n (b ∷ bs) a =
      let ih = touch-below i n bs a.1 in
      elim (Bool-cases (b.id == i)) [ inl h ↦ rw h (a.0, ih) | inr h ↦ rw h (a.0, ih) ]

  handle_accurate_block-IsConsistent :
      (ms : Membership) (c : Character) (t : Tables)
      → Memᴰ ms.member t.members
      → IsConsistent t
      → IsConsistent (handle_accurate_block now scanned_at ms c t)
  unfolding handle_accurate_block
  handle_accurate_block-IsConsistent ms c t k s =
      let i = ms.member.block_id in
      if_IsConsistent
        (not (not (same_option ms.member.hash_a c.hash_a))
          && not (not (same_option ms.member.hash_b c.hash_b)))
        (record {
          distinct = s.distinct;
          members_below = s.members_below;
          blocks_below = touch-below i t.next_id t.blocks s.blocks_below;
          settled = touch-IsSettled i t.members t.blocks s.settled;
        })
        (recompute_block_state-IsConsistent i scanned_at (
          log_change-IsReady i (not (same_option ms.member.hash_b c.hash_b)) ms c hash_b_change
            ms.member.hash_b c.hash_b
            (log_change-IsReady i (not (same_option ms.member.hash_a c.hash_a)) ms c hash_a_change
              ms.member.hash_a c.hash_a
              (update_members-IsReady (λ m. record m { hash_a = c.hash_a; hash_b = c.hash_b })
                (λ m. refl) (λ m. refl) ms.member t k (IsConsistent-IsReady i s)))))

  process_leave-IsConsistent :
      (ms : Membership) (action : HashAction) (original updated : Option Text) (t : Tables)
      → Memᴰ ms.member t.members
      → IsConsistent t
      → IsConsistent (process_leave now scanned_at ms action original updated t)
  unfolding process_leave
  process_leave-IsConsistent ms action original updated t k s =
      let i = ms.member.block_id in
      recompute_block_state-IsConsistent i scanned_at
        (insert_log-IsReady i _ (delete_members-IsReady ms.member t k (IsConsistent-IsReady i s)))

  handle_collision_divergence-IsConsistent :
      (ms : Membership) (c : Character) (t : Tables) {t' : Tables}
      → handle_collision_divergence now scanned_at ms c t ≡ some t'
      → Memᴰ ms.member t.members
      → IsConsistent t
      → IsConsistent t'
  unfolding handle_collision_divergence
  handle_collision_divergence-IsConsistent ms c t e k s =
      let left =
        process_leave-IsConsistent ms HashAction.migrate (some ms.block_hash_value) c.hash_b t k
          s in
      elim (Option-elim_cases c.hash_b _ (λ h. join_or_genesis now scanned_at c h _) e) [
        | inl (_, h) ↦ subst IsConsistent (some_inj h) left
        | inr (b, _, h) ↦ join_or_genesis-IsConsistent c b _ h left
      ]

  -- A job that does not throw leaves every block with the right count of members and of confirmed
  -- members, the right collision flag, and a confirmed flag on exactly the members whose first
  -- hash another member of the block has.
  pub reconcile_character-IsConsistent :
      (guid : Text) (t : Tables) {t' : Tables}
      → reconcile_character now scanned_at guid t ≡ some t'
      → IsConsistent t
      → IsConsistent t'
  unfolding reconcile_character handle_no_membership
  reconcile_character-IsConsistent guid t e s =
      elim (Option-cases (first_of (λ c. same_text c.guid guid) t.characters)) [
        | inl n ↦ subst IsConsistent (some_inj (rw (n, reconcile_character) at e)) s
        | inr (c, h) ↦
            let e' = rw (h, reconcile_character) at e in
            elim (Option-cases (load_membership_with_context t guid)) [
              | inl n ↦
                  elim (Option-elim_cases c.hash_b (some t)
                    (λ k. join_or_genesis now scanned_at c k t) (rw n at e')) [
                      | inl (_, b) ↦ subst IsConsistent (some_inj b) s
                      | inr (hash, _, b) ↦ join_or_genesis-IsConsistent c hash t b s
                    ]
              | inr (ms, g) ↦
                  let k = load_membership_with_context-Memᴰ t guid g in
                  elim (if_cases
                    (not ms.block_is_collision || same_option c.hash_b (some ms.block_hash_value))
                    (some (handle_accurate_block now scanned_at ms c t))
                    (handle_collision_divergence now scanned_at ms c t) (rw g at e')) [
                      | inl (_, b) ↦
                          subst IsConsistent (some_inj b)
                            (handle_accurate_block-IsConsistent ms c t k s)
                      | inr (_, b) ↦ handle_collision_divergence-IsConsistent ms c t b k s
                    ]
            ]
      ]
