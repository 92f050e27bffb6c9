-- ===== src/HashBlocks/Joining.antt =====
-- Who is a member after a job, and the jobs that throw.
use cmnw.Prelude.{
  some_inj, none_ne_some, ℕ, ◌≡◌, inl, inr, Bool, true, false, not, ◌&&◌, ◌||◌, if◌then◌else◌,
  Option, none, some, List, [], ◌∷◌, ◌++◌, map, keep, any, ◌==◌, Text, same_text, same_text_iff,
  same_option, refl, sym, ap, ◌∙◌, subst, arith, Bool-cases, Option-cases, Memᴰ, Memᴰ-keep,
}
use cmnw.HashBlocks.{
  Character, Block, Member, Tables, Membership, HashAction, update_members, save_member,
  save_members, save_block, insert_log, log_change, hash_a_change, hash_b_change, confirm_each,
  recompute_block_state, member_of, new_block, process_join, process_genesis, open_block,
  join_or_genesis, handle_accurate_block, find_accurate_block_by_hash_value,
}
use cmnw.HashBlocks.Steps.{save_member-some, save_block-some}

abbrev pub has_member : Text → List Member → Bool
has_member guid = any (λ m. same_text m.character_guid guid)

pub same_text_refl : (s : Text) → same_text s s ≡ true
same_text_refl s = (same_text_iff s s).1 refl

pub has_member-Memᴰ :
    (m : Member) (ms : List Member) → Memᴰ m ms → has_member m.character_guid ms ≡ true
has_member-Memᴰ m [] k = elim k [ ]
has_member-Memᴰ m (n ∷ ms) (Memᴰ.head e) =
    let h : same_text n.character_guid m.character_guid ≡ true =
      (same_text_iff _ _).1 (ap (λ w. w.character_guid) (sym e)) in
    rw h refl
has_member-Memᴰ m (n ∷ ms) (Memᴰ.tail k) = ground (arith, has_member-Memᴰ m ms k)

has_member-append :
    (g : Text) (ms : List Member) (m : Member)
    → has_member g (ms ++ m ∷ []) ≡ (has_member g ms || same_text m.character_guid g)
has_member-append g [] m = ground arith
has_member-append g (n ∷ ms) m = ground (arith, has_member-append g ms m)

module _ (f : Member → Member) (same : (m : Member) → (f m).character_guid ≡ m.character_guid) where
  has_member-update_members :
      (g : Text) (i : ℕ) (ms : List Member) → has_member g (update_members i f ms) ≡ has_member g ms
  unfolding update_members
  has_member-update_members g i [] = refl
  has_member-update_members g i (m ∷ ms) =
      let ih = has_member-update_members g i ms in
      elim (Bool-cases (m.id == i)) [
        | inl h ↦ rw h (rw (same m) (ap (λ w. same_text m.character_guid g || w) ih))
        | inr h ↦ rw h (ap (λ w. same_text m.character_guid g || w) ih)
      ]

has_member-confirm_each :
    (p : Member → Bool) (g : Text) (us ms : List Member)
    → has_member g (confirm_each p us ms) ≡ has_member g ms
unfolding confirm_each
has_member-confirm_each p g [] ms = refl
has_member-confirm_each p g (u ∷ us) ms =
    has_member-confirm_each p g us _
    ∙ has_member-update_members (λ m. record m { is_confirmed = p u }) (λ m. refl) g u.id ms

pub has_member-recompute_block_state :
    (g : Text) (i n : ℕ) (t : Tables)
    → has_member g (recompute_block_state i n t).members ≡ has_member g t.members
unfolding recompute_block_state
has_member-recompute_block_state g i n t = has_member-confirm_each _ g _ t.members

-- Saved members are members, and the others stay members.
pub has_member-save_member :
    (m : Member) (t : Tables) {t' : Tables}
    → save_member m t ≡ some t'
    → (g : Text)
    → has_member g t'.members ≡ (has_member g t.members || same_text m.character_guid g)
has_member-save_member m t e g =
    ap (λ w. has_member g w.members) (save_member-some m t e)
    ∙ has_member-append g t.members (record m { id = t.next_id })

pub has_member-save_members :
    (ms : List Member) (t : Tables) {t' : Tables}
    → save_members ms t ≡ some t'
    → (g : Text) → has_member g t'.members ≡ (has_member g t.members || has_member g ms)
unfolding save_members
has_member-save_members [] t e g =
    ap (λ w. has_member g w.members) (sym (some_inj e)) ∙ ground arith
has_member-save_members (m ∷ ms) t e g = elim (Option-cases (save_member m t)) [
  | inl n ↦ absurd (none_ne_some (rw (n, save_members) at e))
  | inr (u, h) ↦ ground (
    arith,
    has_member-save_members ms u (rw (h, save_members) at e) g,
    has_member-save_member m t h g,
  )
]

pub save_member-none :
    (m : Member) (t : Tables)
    → has_member m.character_guid t.members ≡ true
    → save_member m t ≡ none
unfolding save_member
save_member-none m t h = rw h refl

-- A save of members throws if one of them is a member already.
pub save_members-none :
    (ms : List Member) (t : Tables) (m : Member)
    → Memᴰ m ms
    → has_member m.character_guid t.members ≡ true
    → save_members ms t ≡ none
unfolding save_members
save_members-none [] t m k h = elim k [ ]
save_members-none (n ∷ ms) t m (Memᴰ.head e) h =
    let h' : has_member n.character_guid t.members ≡ true =
      subst (λ w. has_member w.character_guid t.members ≡ true) e h in
    rw (save_member-none n t h', save_members) refl
save_members-none (n ∷ ms) t m (Memᴰ.tail k) h = elim (Option-cases (save_member n t)) [
  | inl z ↦ rw (z, save_members) refl
  | inr (u, z) ↦
      rw (z, save_members)
        (save_members-none ms u m k (has_member-save_member n t z m.character_guid ∙ rw h refl))
]

if-has_member :
    (g : Text) (b : Bool) (t u : Tables) {r : Bool}
    → has_member g t.members ≡ r
    → has_member g u.members ≡ r
    → has_member g (if b then t else u).members ≡ r
if-has_member g true t u p q = p
if-has_member g false t u p q = q

module _ (now scanned_at : ℕ) where
  -- A join makes the character a member; the others stay.
  process_join-has_member :
      (b : Block) (c : Character) (t : Tables) {t' : Tables}
      → process_join now scanned_at b c t ≡ some t'
      → has_member c.guid t'.members ≡ true
  unfolding process_join insert_log
  process_join-has_member b c t e =
      elim (Option-cases (save_member (member_of now scanned_at b.id c) t)) [
        | inl n ↦ absurd (none_ne_some (rw (n, process_join) at e))
        | inr (u, h) ↦
            subst (λ w. has_member c.guid w.members ≡ true) (some_inj (rw (h, process_join) at e))
              (has_member-recompute_block_state c.guid b.id scanned_at _
                ∙ (has_member-save_member (member_of now scanned_at b.id c) t h c.guid
                    ∙ rw (same_text_refl c.guid) (ground arith)))
      ]

  pub has_member-candidates :
      (i : ℕ) (c : Character) (cs : List Character)
      → Memᴰ c cs
      → has_member c.guid (map (member_of now scanned_at i) cs) ≡ true
  has_member-candidates i c [] k = elim k [ ]
  has_member-candidates i c (d ∷ cs) (Memᴰ.head e) =
      rw ((same_text_iff _ _).1 (ap (λ w. w.guid) (sym e))) refl
  has_member-candidates i c (d ∷ cs) (Memᴰ.tail k) = ground (arith, has_member-candidates i c cs k)

  -- A new block takes all characters with its hash value as members.
  pub open_block-has_member :
      (collision : Bool) (h : Text) (t : Tables) {t' : Tables}
      → open_block now scanned_at collision h t ≡ some t'
      → (c : Character) → Memᴰ c t.characters
      → same_option c.hash_b (some h) ≡ true
      → has_member c.guid t'.members ≡ true
  unfolding open_block insert_log
  open_block-has_member collision h t e c k q =
      elim (Option-cases (save_block (new_block now scanned_at collision h) t)) [
        | inl n ↦ absurd (none_ne_some (rw (n, open_block) at e))
        | inr (u, g) ↦
            let candidates = keep (λ c. same_option c.hash_b (some h)) u.characters in
            let ms = map (member_of now scanned_at t.next_id) candidates in
            let e' = rw (g, open_block) at e in
            let k' : Memᴰ c u.characters =
              subst (λ w. Memᴰ c w.characters) (sym (save_block-some _ t g)) k in
            elim (Option-cases (save_members ms u)) [
              | inl n ↦ absurd (none_ne_some (rw n at e'))
              | inr (v, z) ↦
                  subst (λ w. has_member c.guid w.members ≡ true) (some_inj (rw z at e'))
                    (has_member-recompute_block_state c.guid t.next_id scanned_at _
                      ∙ (has_member-save_members ms u z c.guid
                          ∙ rw
                              (has_member-candidates t.next_id c candidates
                                (Memᴰ-keep _ c u.characters k' q))
                              (ground arith)))
            ]
      ]

  pub join_or_genesis-has_member :
      (c : Character) (h : Text) (t : Tables) {t' : Tables}
      → join_or_genesis now scanned_at c h t ≡ some t'
      → Memᴰ c t.characters
      → c.hash_b ≡ some h
      → has_member c.guid t'.members ≡ true
  unfolding join_or_genesis process_genesis
  join_or_genesis-has_member c h t e k q =
      elim (Option-cases (find_accurate_block_by_hash_value t h)) [
        | inl g ↦
            open_block-has_member false h t (rw (g, join_or_genesis) at e) c k
              (ap (λ w. same_option w (some h)) q ∙ same_text_refl h)
        | inr (b, g) ↦ process_join-has_member b c t (rw (g, join_or_genesis) at e)
      ]

  log_change_members :
      (changed : Bool) (ms : Membership) (c : Character) (action : HashAction)
      (original updated : Option Text) (t : Tables)
      → (log_change now scanned_at changed ms c action original updated t).members ≡ t.members
  unfolding insert_log
  log_change_members true ms c action original updated t = refl
  log_change_members false ms c action original updated t = refl

  pub handle_accurate_block-has_member :
      (g : Text) (ms : Membership) (c : Character) (t : Tables)
      → has_member g (handle_accurate_block now scanned_at ms c t).members ≡ has_member g t.members
  unfolding handle_accurate_block
  handle_accurate_block-has_member g ms c t =
      let f = λ (m : Member). record m { hash_a = c.hash_a; hash_b = c.hash_b } in
      let a_changed = not (same_option ms.member.hash_a c.hash_a) in
      let b_changed = not (same_option ms.member.hash_b c.hash_b) in
      let updated = has_member-update_members f (λ m. refl) g ms.member.id t.members in
      if-has_member g (not a_changed && not b_changed) _ _ refl (
        has_member-recompute_block_state g ms.member.block_id scanned_at _
        ∙ (ap (has_member g) (
              log_change_members b_changed ms c hash_b_change ms.member.hash_b c.hash_b _
              ∙ log_change_members a_changed ms c hash_a_change ms.member.hash_a c.hash_a _)
            ∙ updated))
