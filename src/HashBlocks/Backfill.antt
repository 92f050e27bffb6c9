-- ===== src/HashBlocks/Backfill.antt =====
-- `runBackfill`: it keeps the blocks right, and on empty tables it does all groups.
use cmnw.Prelude.{
  some_inj, ℕ, ◌≡◌, inl, inr, true, some, List, [], ◌∷◌, keep, any, ltb, length, Text, same_text,
  same_option, refl, sym, ap, ◌∙◌, subst, Bool-cases, Option-cases, Memᴰ,
}
use cmnw.HashBlocks.{
  Character, Block, Tables, first_of, open_block, backfill_group, run_backfill,
  max_characters_per_account,
}
use cmnw.HashBlocks.Settled.{IsConsistent}
use cmnw.HashBlocks.Invariant.{open_block-IsConsistent}
use cmnw.HashBlocks.Joining.{has_member, same_text_refl}
use cmnw.HashBlocks.Blocks.{IsUnique, IsCovered, has_block, first_of-ne-none}
use cmnw.HashBlocks.Coverage.{open_block-some, open_block_total, open_block-IsCovered}

module _ (now scanned_at : ℕ) where
  backfill_group-IsConsistent :
      (h : Text) (t : Tables) {t' : Tables}
      → backfill_group now scanned_at h t ≡ some t'
      → IsConsistent t
      → IsConsistent t'
  unfolding backfill_group
  backfill_group-IsConsistent h t e s =
      elim (Option-cases (first_of (λ c. same_option c.hash_b (some h)) t.characters)) [
        | inl n ↦ subst IsConsistent (some_inj (rw (n, backfill_group) at e)) s
        | inr (c, p) ↦
            let e' = rw (p, backfill_group) at e in
            elim (Bool-cases (any (λ b. same_text b.hash_value h) t.blocks)) [
              | inl b ↦ subst IsConsistent (some_inj (rw b at e')) s
              | inr b ↦ open_block-IsConsistent now scanned_at _ h t (rw b at e') s
            ]
      ]

  -- The backfill leaves every block right, however many of its groups it has done.
  pub run_backfill-IsConsistent :
      (hs : List Text) (t : Tables)
      → IsConsistent t
      → IsConsistent (run_backfill now scanned_at hs t).0
  unfolding run_backfill
  run_backfill-IsConsistent [] t s = s
  run_backfill-IsConsistent (h ∷ hs) t s = elim (Option-cases (backfill_group now scanned_at h t)) [
    | inl n ↦ rw (n, run_backfill) s
    | inr (u, g) ↦
        rw (g, run_backfill) (run_backfill-IsConsistent hs u (backfill_group-IsConsistent h t g s))
  ]

  -- The state after a group: its throws are none, and what was covered is covered.
  record IsDone (h : Text) (t t' : Tables) : Type 0 where
    same : t'.characters ≡ t.characters
    covers : IsCovered t'
    kept : (k : Text) → has_block k t.blocks ≡ true → has_block k t'.blocks ≡ true
    has : (c : Character) → Memᴰ c t.characters → c.hash_b ≡ some h → has_block h t'.blocks ≡ true

  backfill_group_total :
      (h : Text) (t : Tables)
      → IsUnique t.characters
      → IsCovered t
      → (t' : Tables) × (backfill_group now scanned_at h t ≡ some t') × IsDone h t t'
  unfolding backfill_group
  backfill_group_total h t u covered =
      elim (Option-cases (first_of (λ c. same_option c.hash_b (some h)) t.characters)) [
        | inl n ↦ (
          t,
          rw (n, backfill_group) refl,
          record {
            same = refl;
            covers = covered;
            kept = λ k b. b;
            has = λ c m q. absurd (
                first_of-ne-none (λ (c : Character). same_option c.hash_b (some h)) c t.characters m
                  (ap (λ w. same_option w (some h)) q ∙ same_text_refl h) n);
          },
        )
        | inr (p, f) ↦ elim (Bool-cases (has_block h t.blocks)) [
          | inl b ↦ (
            t,
            rw (f, backfill_group) (rw b refl),
            record { same = refl; covers = covered; kept = λ k x. x; has = λ c m q. b },
          )
          | inr b ↦
              let collision =
                ltb max_characters_per_account
                  (length (keep (λ c. same_option c.hash_b (some h)) t.characters)) in
              elim (Option-cases (open_block now scanned_at collision h t)) [
                | inl n ↦ absurd (open_block_total now scanned_at collision h t u covered b n)
                | inr (t', e) ↦
                    let (chars, blocks, members) =
                      open_block-some now scanned_at collision h t e u in
                    (
                      t',
                      rw (f, backfill_group) (rw b e),
                      record {
                        same = chars;
                        covers = open_block-IsCovered now scanned_at collision h t e u covered;
                        kept = λ k x. blocks k ∙ rw x refl;
                        has = λ c m q. blocks h ∙ rw (b, same_text_refl h) refl;
                      },
                    )
              ]
        ]
      ]

  member_after :
      (c : Character) (h : Text) (t : Tables)
      → Memᴰ c t.characters
      → c.hash_b ≡ some h
      → IsCovered t
      → has_block h t.blocks ≡ true
      → has_member c.guid t.members ≡ true
  member_after c h t m q cov b = cov c h m q ∙ b

  -- The block of a group is there after the groups that follow.
  group_cases :
      (c : Character) (h k : Text) (hs : List Text) {t t1 : Tables} (bs : List Block)
      → Memᴰ k (h ∷ hs)
      → Memᴰ c t.characters
      → c.hash_b ≡ some k
      → IsDone h t t1
      → ((j : Text) → has_block j t1.blocks ≡ true → has_block j bs ≡ true)
      → (Memᴰ k hs → has_block k bs ≡ true)
      → has_block k bs ≡ true
  group_cases c h k hs bs (Memᴰ.head e) m q d kept later =
      subst (λ w. has_block w bs ≡ true) (sym e) (kept h (d.has c m (q ∙ ap some e)))
  group_cases c h k hs bs (Memᴰ.tail n) m q d kept later = later n

  -- The backfill of tables in which a character is a member exactly if its hash has a block does
  -- all groups, leaves the characters, and keeps this; and every character with the hash of a
  -- group is a member afterwards.
  pub run_backfill_total :
      (hs : List Text) (t : Tables)
      → IsUnique t.characters
      → IsCovered t
      → (let (t', completed) = run_backfill now scanned_at hs t in
          (completed ≡ true)
          × (t'.characters ≡ t.characters)
          × IsCovered t'
          × ((k : Text) → has_block k t.blocks ≡ true → has_block k t'.blocks ≡ true)
          × ((c : Character) (h : Text)
              → Memᴰ c t.characters
              → Memᴰ h hs
              → c.hash_b ≡ some h
              → has_member c.guid t'.members ≡ true))
  unfolding run_backfill
  run_backfill_total [] t u covered = (refl, refl, covered, λ k b. b, λ c h m n q. elim n [ ])
  run_backfill_total (h ∷ hs) t u covered =
      let (t1, e, d) = backfill_group_total h t u covered in
      let (ok, same, cov, kept, all) =
        run_backfill_total hs t1 (subst IsUnique (sym d.same) u) d.covers in
      rw (e, run_backfill)
        (
          ok,
          same ∙ d.same,
          cov,
          λ k b. kept k (d.kept k b),
          λ c h' m n q.
              member_after c h' (run_backfill now scanned_at hs t1).0
                (subst (λ (w : List Character). Memᴰ c w) (sym (same ∙ d.same)) m) q cov
                (group_cases c h h' hs (run_backfill now scanned_at hs t1).0.blocks n m q d kept
                  (λ r.
                    sym (
                      cov c h' (subst (λ (w : List Character). Memᴰ c w) (sym (same ∙ d.same)) m) q)
                    ∙ all c h' (subst (λ (w : List Character). Memᴰ c w) (sym d.same) m) r q)),
        )
