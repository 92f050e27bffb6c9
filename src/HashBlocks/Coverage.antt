-- ===== src/HashBlocks/Coverage.antt =====
-- `runBackfill` does all groups where the tables say the same of blocks and of members.
use cmnw.Prelude.{
  some_inj, none_ne_some, ℕ, suc, ◌≡◌, ◌≢◌, inl, inr, Bool, false, ◌||◌, none, some, List, [], ◌∷◌,
  ◌++◌, map, keep, All, Text, same_text, same_option, refl, sym, ap, ◌∙◌, subst, Bool-cases,
  Option-cases, Memᴰ, keep-Memᴰ,
}
use cmnw.HashBlocks.{
  Character, Member, Tables, save_member, save_members, save_block, insert_log,
  recompute_block_state, member_of, new_block, open_block,
}
use cmnw.HashBlocks.Settled.{All-Memᴰ, All-of_Memᴰ}
use cmnw.HashBlocks.Steps.{save_member-some, save_block-some}
use cmnw.HashBlocks.Joining.{
  has_member, has_member-save_members, has_member-save_member, has_member-recompute_block_state,
  same_text_refl,
}
use cmnw.HashBlocks.Blocks.{
  IsUnique, has_block, IsCovered, same_text_ne, same_option-eq, same_text_sym, has_block-append,
  has_block-recompute_block_state, keep-All_lem, IsUnique-keep,
}

module _ (now scanned_at : ℕ) where
  -- The members made of the characters with one hash are those characters.
  absent_candidates :
      (i : ℕ) (g : Text) (cs : List Character)
      → All (λ d. d.guid ≢ g) cs
      → has_member g (map (member_of now scanned_at i) cs) ≡ false
  absent_candidates i g [] a = refl
  absent_candidates i g (c ∷ cs) a = rw (same_text_ne c.guid g a.0) (absent_candidates i g cs a.1)

  head_candidates :
      (i : ℕ) (h k : Text) (d : Character) (cs : List Character)
      → IsUnique (d ∷ cs)
      → d.hash_b ≡ some k
      → has_member d.guid
          (map (member_of now scanned_at i) (keep (λ c. same_option c.hash_b (some h)) (d ∷ cs)))
        ≡ same_text k h
  head_candidates i h k d cs u q =
      let p : same_option d.hash_b (some h) ≡ same_text k h = ap (λ w. same_option w (some h)) q in
      elim (Bool-cases (same_option d.hash_b (some h))) [
        | inl kept ↦ rw kept (rw (same_text_refl d.guid) (sym kept ∙ p))
        | inr dropped ↦ rw dropped (
            absent_candidates i d.guid (keep (λ c. same_option c.hash_b (some h)) cs)
              (keep-All_lem (λ c. c.guid ≢ d.guid) _ cs u.0)
            ∙ (sym dropped ∙ p))
      ]

  has_member-candidates_iff :
      (i : ℕ) (h k : Text) (c : Character) (cs : List Character)
      → Memᴰ c cs
      → IsUnique cs
      → c.hash_b ≡ some k
      → has_member c.guid
          (map (member_of now scanned_at i) (keep (λ d. same_option d.hash_b (some h)) cs))
        ≡ same_text k h
  has_member-candidates_iff i h k c [] m u q = elim m [ ]
  has_member-candidates_iff i h k c (d ∷ cs) (Memᴰ.head e) u q =
      subst
        (λ w.
          has_member w.guid
            (map (member_of now scanned_at i) (keep (λ d. same_option d.hash_b (some h)) (d ∷ cs)))
          ≡ same_text k h)
        (sym e) (head_candidates i h k d cs u (ap (λ w. w.hash_b) (sym e) ∙ q))
  has_member-candidates_iff i h k c (d ∷ cs) (Memᴰ.tail m) u q =
      let other : same_text d.guid c.guid ≡ false =
        same_text_ne d.guid c.guid (λ e. All-Memᴰ (λ d'. d'.guid ≢ d.guid) cs u.0 m (sym e)) in
      let ih = has_member-candidates_iff i h k c cs m u.1 q in
      elim (Bool-cases (same_option d.hash_b (some h))) [
        | inl p ↦ rw p (rw other ih)
        | inr p ↦ rw p ih
      ]

  save_member_total :
      (m : Member) (t : Tables)
      → has_member m.character_guid t.members ≡ false
      → (u : Tables) × (save_member m t ≡ some u)
  unfolding save_member
  save_member_total m t h = (
    record t { members = t.members ++ record m { id = t.next_id } ∷ []; next_id = suc t.next_id },
    rw h refl,
  )

  absent_after :
      (i : ℕ) (c : Character) (cs : List Character) (t : Tables) {v : Tables}
      → save_member (member_of now scanned_at i c) t ≡ some v
      → All (λ d. d.guid ≢ c.guid) cs
      → All (λ d. has_member d.guid t.members ≡ false) cs
      → All (λ d. has_member d.guid v.members ≡ false) cs
  absent_after i c [] t e ne a = tt
  absent_after i c (d ∷ cs) t e ne a = (
    has_member-save_member (member_of now scanned_at i c) t e d.guid
        ∙ rw (a.0, same_text_ne c.guid d.guid (λ q. ne.0 (sym q))) refl,
    absent_after i c cs t e ne.1 a.1,
  )

  save_members_total :
      (i : ℕ) (cs : List Character) (t : Tables)
      → IsUnique cs
      → All (λ c. has_member c.guid t.members ≡ false) cs
      → (u : Tables) × (save_members (map (member_of now scanned_at i) cs) t ≡ some u)
  unfolding save_members save_member
  save_members_total i [] t u a = (t, refl)
  save_members_total i (c ∷ cs) t u a =
      let (v, saved) = save_member_total (member_of now scanned_at i c) t a.0 in
      let (w, all) = save_members_total i cs v u.1 (absent_after i c cs t saved u.0 a.1) in
      (w, rw (saved, save_members) all)

  save_members-characters_blocks :
      (ms : List Member) (t : Tables) {v : Tables}
      → save_members ms t ≡ some v
      → (v.characters ≡ t.characters) × (v.blocks ≡ t.blocks)
  unfolding save_members
  save_members-characters_blocks [] t e =
      (ap (λ w. w.characters) (sym (some_inj e)), ap (λ w. w.blocks) (sym (some_inj e)))
  save_members-characters_blocks (m ∷ ms) t e = elim (Option-cases (save_member m t)) [
    | inl n ↦ absurd (none_ne_some (rw (n, save_members) at e))
    | inr (u, h) ↦
        let (cs, bs) = save_members-characters_blocks ms u (rw (h, save_members) at e) in
        let step = save_member-some m t h in
        (cs ∙ ap (λ w. w.characters) step, bs ∙ ap (λ w. w.blocks) step)
  ]

  -- What a new block changes: its hash has a block, and its characters are members.
  pub open_block-some :
      (collision : Bool) (h : Text) (t : Tables) {t' : Tables}
      → open_block now scanned_at collision h t ≡ some t'
      → IsUnique t.characters
      → (t'.characters ≡ t.characters)
        × ((k : Text) → has_block k t'.blocks ≡ (has_block k t.blocks || same_text h k))
        × ((c : Character) (k : Text)
            → Memᴰ c t.characters
            → c.hash_b ≡ some k
            → has_member c.guid t'.members ≡ (has_member c.guid t.members || same_text k h))
  unfolding open_block insert_log recompute_block_state
  open_block-some collision h t {t'} e u =
      elim (Option-cases (save_block (new_block now scanned_at collision h) t)) [
        | inl n ↦ absurd (none_ne_some (rw (n, open_block) at e))
        | inr (w, g) ↦
            let cs = keep (λ c. same_option c.hash_b (some h)) in
            let ms = map (member_of now scanned_at t.next_id) (cs w.characters) in
            let e' = rw (g, open_block) at e in
            let step = save_block-some (new_block now scanned_at collision h) t g in
            elim (Option-cases (save_members ms w)) [
              | inl n ↦ absurd (none_ne_some (rw n at e'))
              | inr (v, z) ↦
                  let (chars, blocks) = save_members-characters_blocks ms w z in
                  let last = some_inj (rw z at e') in
                  (
                    ap (λ x. x.characters) (sym last) ∙ (chars ∙ ap (λ x. x.characters) step),
                    λ k.
                        ap (λ x. has_block k x.blocks) (sym last)
                        ∙ (has_block-recompute_block_state k t.next_id scanned_at v
                            ∙ (ap (has_block k) (blocks ∙ ap (λ x. x.blocks) step)
                                ∙ has_block-append k t.blocks _)),
                    λ c k m q.
                        ap (λ x. has_member c.guid x.members) (sym last)
                        ∙ (has_member-recompute_block_state c.guid t.next_id scanned_at v
                            ∙ (has_member-save_members ms w z c.guid
                                ∙ (ap
                                      (λ x.
                                        has_member c.guid x.members
                                        || has_member c.guid (
                                            map (member_of now scanned_at t.next_id)
                                              (cs x.characters)))
                                      step
                                    ∙ ap (λ x. has_member c.guid t.members || x)
                                        (has_member-candidates_iff t.next_id h k c t.characters m u
                                          q)))),
                  )
            ]
      ]

  -- The block of a hash value that has none: no save throws.
  pub open_block_total :
      (collision : Bool) (h : Text) (t : Tables)
      → IsUnique t.characters
      → IsCovered t
      → has_block h t.blocks ≡ false
      → open_block now scanned_at collision h t ≢ none
  unfolding open_block save_block
  open_block_total collision h t u covered b e =
      let candidates = keep (λ c. same_option c.hash_b (some h)) t.characters in
      let t1 : Tables = record t {
        blocks = t.blocks ++ record (new_block now scanned_at collision h) { id = t.next_id } ∷ [];
        next_id = suc t.next_id;
      } in
      let (v, saved) = save_members_total t.next_id candidates t1 (IsUnique-keep _ t.characters u) (
        All-of_Memᴰ (λ c. has_member c.guid t.members ≡ false) candidates
          (λ c m.
            let (k, p) = keep-Memᴰ (λ d. same_option d.hash_b (some h)) c t.characters m in
            covered c h k (same_option-eq c.hash_b h p) ∙ b)) in
      let first : save_block (new_block now scanned_at collision h) t ≡ some t1 = rw b refl in
      none_ne_some (sym (rw (saved) at (rw (first, open_block) at e)))

  pub open_block-IsCovered :
      (collision : Bool) (h : Text) (t : Tables) {t' : Tables}
      → open_block now scanned_at collision h t ≡ some t'
      → IsUnique t.characters
      → IsCovered t
      → IsCovered t'
  open_block-IsCovered collision h t e u covered c k m q =
      let (chars, blocks, members) = open_block-some collision h t e u in
      let m' = subst (λ (w : List Character). Memᴰ c w) chars m in
      members c k m' q
      ∙ (ap (λ w. w || same_text k h) (covered c k m' q)
          ∙ (ap (λ w. has_block k t.blocks || w) (same_text_sym k h) ∙ sym (blocks k)))
