-- ===== src/HashBlocks/Steps.antt =====
-- What one write of the additions to the tables keeps.
use cmnw.Prelude.{
  ℕ, suc, ◌<◌, ◌≡◌, ◌≢◌, ◌⊎◌, inl, inr, some, List, [], ◌∷◌, ◌++◌, ◌==◌, any, All, same_text, refl,
  sym, ap, subst, arith, ==_iff, Bool-cases, Option-cases,
}
use cmnw.HashBlocks.{
  Block, Member, Log, Tables, of_block, save_member, save_members, save_block, insert_log,
}
use cmnw.HashBlocks.Settled.{
  IsSettled, IsReady, IsConsistent, member_ids, IsAbsent, IsDistinct, ==-ne, All_map, All-append,
}

pub insert_log-IsReady : (i : ℕ) (l : Log) {t : Tables} → IsReady i t → IsReady i (insert_log l t)
unfolding insert_log
insert_log-IsReady i l r = record {
  distinct = r.distinct;
  members_below = r.members_below;
  blocks_below = r.blocks_below;
  others = r.others;
}

-- The blocks but one stay settled where their members stay.
pub others_same :
    (i : ℕ) (ms ns : List Member)
    → ((j : ℕ) → j ≢ i → of_block j ns ≡ of_block j ms)
    → (bs : List Block) → All (λ b. (b.id ≡ i) ⊎ IsSettled b (of_block b.id ms)) bs
    → All (λ b. (b.id ≡ i) ⊎ IsSettled b (of_block b.id ns)) bs
others_same i ms ns same bs =
    All_map
      (λ b h. elim h [
        | inl e ↦ inl e
        | inr s ↦ elim (Bool-cases (b.id == i)) [
          | inl e ↦ inl ((==_iff b.id i).0 e)
          | inr e ↦ inr (rw (same b.id (λ q. absurd (ground arith))) s)
        ]
      ])
      bs

of_block-append_other :
    (j : ℕ) (m : Member) (ms : List Member)
    → j ≢ m.block_id
    → of_block j (ms ++ m ∷ []) ≡ of_block j ms
of_block-append_other j m [] ne = rw (==-ne m.block_id j (λ e. ne (sym e))) refl
of_block-append_other j m (n ∷ ms) ne = ground (arith, of_block-append_other j m ms ne)

member_ids-append : (ms ns : List Member) → member_ids (ms ++ ns) ≡ member_ids ms ++ member_ids ns
member_ids-append [] ns = refl
member_ids-append (m ∷ ms) ns = ap (λ w. m.id ∷ w) (member_ids-append ms ns)

IsAbsent-append : (i n : ℕ) (is : List ℕ) → IsAbsent i is → n ≢ i → IsAbsent i (is ++ n ∷ [])
IsAbsent-append i n is a h = All-append (λ k. k ≢ i) is (n ∷ []) a (h, tt)

IsDistinct-append :
    (n : ℕ) (is : List ℕ) → IsDistinct is → All (λ k. k < n) is → IsDistinct (is ++ n ∷ [])
IsDistinct-append n [] d b = (tt, tt)
IsDistinct-append n (i ∷ is) d b =
    (IsAbsent-append i n is d.0 (λ e. absurd (omega (arith, b.0))), IsDistinct-append n is d.1 b.1)

append_member : Member → Tables → Tables
append_member m t = record t {
  members = t.members ++ record m { id = t.next_id } ∷ [];
  next_id = suc t.next_id;
}

append_member-IsReady :
    (m : Member) (t : Tables) → IsReady m.block_id t → IsReady m.block_id (append_member m t)
unfolding append_member
append_member-IsReady m t r =
    let ids = member_ids-append t.members (record m { id = t.next_id } ∷ []) in
    record {
      distinct =
          subst IsDistinct (sym ids)
            (IsDistinct-append t.next_id (member_ids t.members) r.distinct r.members_below);
      members_below = subst (All (λ n. n < suc t.next_id)) (sym ids) (
          All-append _ (member_ids t.members) (t.next_id ∷ [])
            (All_map (λ n h. omega arith) (member_ids t.members) r.members_below)
            (omega arith, tt));
      blocks_below = All_map (λ b h. omega arith) t.blocks r.blocks_below;
      others =
          others_same m.block_id t.members _
            (λ j ne. of_block-append_other j (record m { id = t.next_id }) t.members ne) t.blocks
            r.others;
    }

-- A save of a member appends it, if no member has its guid.
pub save_member-some :
    (m : Member) (t : Tables) {t' : Tables}
    → save_member m t ≡ some t'
    → t' ≡ record t {
      members = t.members ++ record m { id = t.next_id } ∷ [];
      next_id = suc t.next_id;
    }
unfolding save_member
save_member-some m t e =
    elim (Bool-cases (any (λ n. same_text n.character_guid m.character_guid) t.members)) [
      | inl h ↦ absurd (ground arith)
      | inr h ↦ let e' = rw h at e in cc
    ]

pub save_member-IsReady :
    (m : Member) (t : Tables) {t' : Tables}
    → save_member m t ≡ some t'
    → IsReady m.block_id t
    → IsReady m.block_id t'
unfolding append_member
save_member-IsReady m t e r =
    subst (IsReady m.block_id) (sym (save_member-some m t e)) (append_member-IsReady m t r)

pub save_members-IsReady :
    (i : ℕ) (ms : List Member) (t : Tables) {t' : Tables}
    → All (λ m. m.block_id ≡ i) ms
    → save_members ms t ≡ some t'
    → IsReady i t
    → IsReady i t'
unfolding save_members
save_members-IsReady i [] t a e r = subst (IsReady i) (cc) r
save_members-IsReady i (m ∷ ms) t a e r = elim (Option-cases (save_member m t)) [
  | inl h ↦ absurd (ground arith)
  | inr (u, h) ↦ save_members-IsReady i ms u a.1 (rw (h, save_members) at e) (
      subst (λ k. IsReady k u) a.0
        (save_member-IsReady m t h (subst (λ k. IsReady k t) (sym a.0) r)))
]

pub save_block-some :
    (b : Block) (t : Tables) {t' : Tables}
    → save_block b t ≡ some t'
    → t'
      ≡ record t { blocks = t.blocks ++ record b { id = t.next_id } ∷ []; next_id = suc t.next_id }
unfolding save_block
save_block-some b t e =
    elim (Bool-cases (any (λ c. same_text c.hash_value b.hash_value) t.blocks)) [
      | inl h ↦ absurd (ground arith)
      | inr h ↦ let e' = rw h at e in cc
    ]

-- The new block is the one that is not settled yet.
pub save_block-IsReady :
    (b : Block) (t : Tables) {t' : Tables}
    → save_block b t ≡ some t'
    → IsConsistent t
    → IsReady t.next_id t'
save_block-IsReady b t e c = subst (IsReady t.next_id) (sym (save_block-some b t e)) (record {
  distinct = c.distinct;
  members_below = All_map (λ n h. omega arith) (member_ids t.members) c.members_below;
  blocks_below =
      All-append _ t.blocks (record b { id = t.next_id } ∷ [])
        (All_map (λ b h. omega arith) t.blocks c.blocks_below) (omega arith, tt);
  others =
      All-append _ t.blocks (record b { id = t.next_id } ∷ [])
        (All_map (λ b h. inr h) t.blocks c.settled) (inl refl, tt);
})
