-- ===== src/HashBlocks/Departures.antt =====
-- What the departure of members from a block keeps.
use cmnw.Prelude.{
  ℕ, ◌<◌, ◌≡◌, inl, inr, Bool, not, List, [], ◌∷◌, ◌==◌, keep, All, refl, sym, ap, subst,
  Bool-cases, Memᴰ,
}
use cmnw.HashBlocks.{Member, Tables, of_block, update_members, delete_members}
use cmnw.HashBlocks.Settled.{
  IsReady, member_ids, IsAbsent, IsDistinct, IsDistinct-keep, IsAbsent-of_block, ==-ne,
}
use cmnw.HashBlocks.Steps.{others_same}

of_block-delete_members :
    (j i : ℕ) (ms : List Member)
    → IsAbsent i (member_ids (of_block j ms))
    → of_block j (delete_members i ms) ≡ of_block j ms
unfolding delete_members
of_block-delete_members j i [] a = refl
of_block-delete_members j i (m ∷ ms) a = elim (Bool-cases (m.block_id == j)) [
  | inl h ↦
      let a' : IsAbsent i (member_ids (m ∷ of_block j ms)) = rw h at a in
      rw (h, ==-ne m.id i a'.0) (rw h (ap (λ w. m ∷ w) (of_block-delete_members j i ms a'.1)))
  | inr h ↦
      let ih = of_block-delete_members j i ms (rw h at a) in
      elim (Bool-cases (m.id == i)) [ inl g ↦ rw (h, g) ih | inr g ↦ rw (h, g) (rw h ih) ]
]

below-keep :
    (n : ℕ) (p : Member → Bool) (ms : List Member)
    → All (λ k. k < n) (member_ids ms)
    → All (λ k. k < n) (member_ids (keep p ms))
below-keep n p [] a = tt
below-keep n p (m ∷ ms) a =
    let ih = below-keep n p ms a.1 in
    elim (Bool-cases (p m)) [ inl h ↦ rw h (a.0, ih) | inr h ↦ rw h ih ]

-- A member leaves its block: the members of the others stay.
pub delete_members-IsReady :
    (m : Member) (t : Tables)
    → Memᴰ m t.members
    → IsReady m.block_id t
    → IsReady m.block_id (record t { members = delete_members m.id t.members })
unfolding delete_members
delete_members-IsReady m t k r = record {
  distinct = IsDistinct-keep (λ n. not (n.id == m.id)) t.members r.distinct;
  members_below = below-keep t.next_id (λ n. not (n.id == m.id)) t.members r.members_below;
  blocks_below = r.blocks_below;
  others =
      others_same m.block_id t.members _
        (λ j ne.
          of_block-delete_members j m.id t.members
            (IsAbsent-of_block j m t.members r.distinct k (λ e. ne (sym e))))
        t.blocks r.others;
}

module _ (f : Member → Member) (id_same : (m : Member) → (f m).id ≡ m.id)
    (block_same : (m : Member) → (f m).block_id ≡ m.block_id) where
  of_block-update_members :
      (j i : ℕ) (ms : List Member)
      → IsAbsent i (member_ids (of_block j ms))
      → of_block j (update_members i f ms) ≡ of_block j ms
  unfolding update_members
  of_block-update_members j i [] a = refl
  of_block-update_members j i (m ∷ ms) a = elim (Bool-cases (m.block_id == j)) [
    | inl h ↦
        let a' : IsAbsent i (member_ids (m ∷ of_block j ms)) = rw h at a in
        rw (==-ne m.id i a'.0) (rw h (ap (λ w. m ∷ w) (of_block-update_members j i ms a'.1)))
    | inr h ↦
        let ih = of_block-update_members j i ms (rw h at a) in
        elim (Bool-cases (m.id == i)) [
          | inl g ↦ rw g (rw (block_same m) (rw h ih))
          | inr g ↦ rw g (rw h ih)
        ]
  ]

  member_ids-update_members :
      (i : ℕ) (ms : List Member) → member_ids (update_members i f ms) ≡ member_ids ms
  unfolding update_members
  member_ids-update_members i [] = refl
  member_ids-update_members i (m ∷ ms) =
      let ih = member_ids-update_members i ms in
      elim (Bool-cases (m.id == i)) [
        | inl g ↦ rw g (rw (id_same m) (ap (λ w. m.id ∷ w) ih))
        | inr g ↦ rw g (ap (λ w. m.id ∷ w) ih)
      ]

  -- A member changes within its block: the members of the others stay.
  pub update_members-IsReady :
      (m : Member) (t : Tables)
      → Memᴰ m t.members
      → IsReady m.block_id t
      → IsReady m.block_id (record t { members = update_members m.id f t.members })
  update_members-IsReady m t k r =
      let ids = member_ids-update_members m.id t.members in
      record {
        distinct = subst IsDistinct (sym ids) r.distinct;
        members_below = subst (All (λ n. n < t.next_id)) (sym ids) r.members_below;
        blocks_below = r.blocks_below;
        others =
            others_same m.block_id t.members _
              (λ j ne.
                of_block-update_members j m.id t.members
                  (IsAbsent-of_block j m t.members r.distinct k (λ e. ne (sym e))))
              t.blocks r.others;
      }
