-- ===== src/HashBlocks/Recompute.antt =====
-- `recomputeBlockState`: the block is settled, and no other block is touched.
use cmnw.Prelude.{
  ℕ, ◌<◌, ◌≡◌, ◌≢◌, ◌⊎◌, inl, inr, if◌then◌else◌, List, [], ◌∷◌, map, ◌==◌, ltb, keep, length,
  length-map, All, sym, ap, ◌∙◌, subst, arith, ==_iff, Bool-cases, keep-Memᴰ,
}
use cmnw.HashBlocks.{
  Block, Member, Tables, of_block, update_blocks, hash_a_frequencies, is_shared, confirm_each,
  recompute_block_state, max_characters_per_account,
}
use cmnw.HashBlocks.Settled.{
  IsSettled, IsReady, IsConsistent, member_ids, IsAbsent, IsDistinct, IsDistinct-keep,
  All-member_ids, IsAbsent-of_block,
}
use cmnw.HashBlocks.Frequencies.{
  is_shared-hash_a_frequencies, confirm, confirm_each_absent, confirm_each_self,
  of_block-confirm_each, member_ids-confirm_each, length-keep-confirm, flags-confirm,
}

abbrev settle : ℕ → List Member → Block → Block
settle scanned_at ms b = record b {
  characters_count = length ms;
  confirmed_count = length (keep (is_shared (hash_a_frequencies [] ms)) ms);
  is_collision = ltb max_characters_per_account (length ms);
  last_seen_at = scanned_at;
}

settle-IsSettled :
    (scanned_at : ℕ) (ms : List Member) (b : Block)
    → IsSettled (settle scanned_at ms b) (map (confirm (is_shared (hash_a_frequencies [] ms))) ms)
settle-IsSettled scanned_at ms b =
    let c = is_shared (hash_a_frequencies [] ms) in
    record {
      counted = sym (length-map (confirm c) ms);
      confirmed = length-keep-confirm c ms;
      collision = ap (ltb max_characters_per_account) (sym (length-map (confirm c) ms));
      flags = flags-confirm c ms ms (is_shared-hash_a_frequencies ms);
    }

-- The ids of the members of two blocks are different.
IsAbsent-elsewhere :
    (i j : ℕ) (ms : List Member)
    → i ≢ j
    → IsDistinct (member_ids ms)
    → All (λ n. IsAbsent n (member_ids (of_block i ms))) (member_ids (of_block j ms))
IsAbsent-elsewhere i j ms ne d = All-member_ids _ (of_block j ms) (λ m k.
    let (inside, here) = keep-Memᴰ (λ n. n.block_id == j) m ms k in
    IsAbsent-of_block i m ms d inside (λ e. ne (sym e ∙ (==_iff m.block_id j).0 here)))

module _ (i scanned_at : ℕ) (t : Tables) (r : IsReady i t) where
  abbrev members_after : List Member
  members_after =
      confirm_each (is_shared (hash_a_frequencies [] (of_block i t.members))) (of_block i t.members)
        t.members

  -- The members of the block have their flags.
  of_block_here :
      of_block i members_after
      ≡ map
          (confirm (is_shared (hash_a_frequencies [] (of_block i t.members))))
          (of_block i t.members)
  of_block_here =
      of_block-confirm_each _ i (of_block i t.members) t.members
      ∙ confirm_each_self _ (of_block i t.members) (IsDistinct-keep _ t.members r.distinct)

  -- Those of another block are as they were.
  of_block_elsewhere : (j : ℕ) → i ≢ j → of_block j members_after ≡ of_block j t.members
  of_block_elsewhere j ne =
      of_block-confirm_each _ j (of_block i t.members) t.members
      ∙ confirm_each_absent _ (of_block i t.members) (of_block j t.members)
          (IsAbsent-elsewhere i j t.members ne r.distinct)

  abbrev block_after : Block → Block
  block_after b = if b.id == i then settle scanned_at (of_block i t.members) b else b

  block_after-id : (b : Block) → (block_after b).id ≡ b.id
  block_after-id b = ground arith

  settled_after :
      (b : Block)
      → (b.id ≡ i) ⊎ IsSettled b (of_block b.id t.members)
      → IsSettled (block_after b) (of_block (block_after b).id members_after)
  settled_after b h = elim (Bool-cases (b.id == i)) [
    | inl e ↦
        let e' = (==_iff b.id i).0 e in
        rw e (
          subst
            (λ k. IsSettled (settle scanned_at (of_block i t.members) b) (of_block k members_after))
            (sym e') (rw of_block_here (settle-IsSettled scanned_at (of_block i t.members) b)))
    | inr e ↦ elim h [
      | inl e' ↦ absurd (ground arith)
      | inr s ↦ rw e (rw (of_block_elsewhere b.id (λ q. absurd (ground arith))) s)
    ]
  ]

  blocks_settled :
      (bs : List Block)
      → All (λ b. (b.id ≡ i) ⊎ IsSettled b (of_block b.id t.members)) bs
      → All (λ b. IsSettled b (of_block b.id members_after)) (map block_after bs)
  blocks_settled [] a = tt
  blocks_settled (b ∷ bs) a = (settled_after b a.0, blocks_settled bs a.1)

  blocks_below_after :
      (n : ℕ) (bs : List Block) → All (λ b. b.id < n) bs → All (λ b. b.id < n) (map block_after bs)
  blocks_below_after n [] a = tt
  blocks_below_after n (b ∷ bs) a = (rw (block_after-id b) a.0, blocks_below_after n bs a.1)

-- Once the members of a block have changed, all blocks are settled again.
pub recompute_block_state-IsConsistent :
    (i scanned_at : ℕ) {t : Tables}
    → IsReady i t
    → IsConsistent (recompute_block_state i scanned_at t)
unfolding recompute_block_state update_blocks
recompute_block_state-IsConsistent i scanned_at {t} r =
    let ids =
      member_ids-confirm_each (is_shared (hash_a_frequencies [] (of_block i t.members)))
        (of_block i t.members) t.members in
    record {
      distinct = subst IsDistinct (sym ids) r.distinct;
      members_below = subst (All (λ n. n < t.next_id)) (sym ids) r.members_below;
      blocks_below = blocks_below_after i scanned_at t r t.next_id t.blocks r.blocks_below;
      settled = blocks_settled i scanned_at t r t.blocks r.others;
    }
