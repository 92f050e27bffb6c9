-- ===== src/HashBlocks/Blocks.antt =====
-- Which hashes have a block, and what the writes change of it.
use cmnw.Prelude.{
  none_ne_some, ℕ, ◌≡◌, ◌≢◌, inl, inr, Bool, true, false, ◌||◌, Option, none, some, List, [], ◌∷◌,
  ◌++◌, keep, any, ◌==◌, All, Text, same_text, same_text_iff, same_option, refl, sym, ap, ◌∙◌,
  arith, Bool-cases, Memᴰ,
}
use cmnw.HashBlocks.{Character, Block, Tables, first_of, update_blocks, recompute_block_state}
use cmnw.HashBlocks.Joining.{has_member}

-- No two characters have one guid.
abbrev pub IsUnique : List Character → Type 0
IsUnique [] = Unit
IsUnique (c ∷ cs) = All (λ d. d.guid ≢ c.guid) cs × IsUnique cs

abbrev pub has_block : Text → List Block → Bool
has_block h = any (λ b. same_text b.hash_value h)

-- A character with a second hash is a member exactly if its hash has a block.
abbrev pub IsCovered : Tables → Type 0
IsCovered t =
    (c : Character) (h : Text)
    → Memᴰ c t.characters
    → c.hash_b ≡ some h
    → has_member c.guid t.members ≡ has_block h t.blocks

pub same_text_ne : (a b : Text) → a ≢ b → same_text a b ≡ false
same_text_ne a b ne = elim (Bool-cases (same_text a b)) [
  | inl h ↦ absurd (ne ((same_text_iff a b).0 h))
  | inr h ↦ h
]

pub same_option-eq : (o : Option Text) (h : Text) → same_option o (some h) ≡ true → o ≡ some h
same_option-eq none h e = cc
same_option-eq (some k) h e = ap some ((same_text_iff k h).0 e)

pub same_text_sym : (a b : Text) → same_text a b ≡ same_text b a
same_text_sym a b = elim (Bool-cases (same_text a b)) [
  | inl h ↦ h ∙ sym ((same_text_iff b a).1 (sym ((same_text_iff a b).0 h)))
  | inr h ↦ h ∙ sym (same_text_ne b a (λ e. absurd (ground (arith, (same_text_iff a b).1 (sym e)))))
]

pub has_block-append :
    (h : Text) (bs : List Block) (b : Block)
    → has_block h (bs ++ b ∷ []) ≡ (has_block h bs || same_text b.hash_value h)
has_block-append h [] b = ground arith
has_block-append h (c ∷ bs) b = ground (arith, has_block-append h bs b)

has_block-update_blocks :
    (h : Text) (i : ℕ) (f : Block → Block)
    → ((b : Block) → (f b).hash_value ≡ b.hash_value)
    → (bs : List Block) → has_block h (update_blocks i f bs) ≡ has_block h bs
unfolding update_blocks
has_block-update_blocks h i f same [] = refl
has_block-update_blocks h i f same (b ∷ bs) =
    let ih = has_block-update_blocks h i f same bs in
    elim (Bool-cases (b.id == i)) [
      | inl e ↦ rw e (rw (same b) (ap (λ w. same_text b.hash_value h || w) ih))
      | inr e ↦ rw e (ap (λ w. same_text b.hash_value h || w) ih)
    ]

pub has_block-recompute_block_state :
    (h : Text) (i n : ℕ) (t : Tables)
    → has_block h (recompute_block_state i n t).blocks ≡ has_block h t.blocks
unfolding recompute_block_state
has_block-recompute_block_state h i n t = has_block-update_blocks h i _ (λ b. refl) t.blocks

pub keep-All_lem :
    (P : Character → Type 0) (p : Character → Bool) (cs : List Character)
    → All P cs
    → All P (keep p cs)
keep-All_lem P p [] a = tt
keep-All_lem P p (c ∷ cs) a = elim (Bool-cases (p c)) [
  | inl h ↦ rw h (a.0, keep-All_lem P p cs a.1)
  | inr h ↦ rw h (keep-All_lem P p cs a.1)
]

pub IsUnique-keep :
    (p : Character → Bool) (cs : List Character) → IsUnique cs → IsUnique (keep p cs)
IsUnique-keep p [] u = tt
IsUnique-keep p (c ∷ cs) u = elim (Bool-cases (p c)) [
  | inl h ↦ rw h (keep-All_lem (λ d. d.guid ≢ c.guid) p cs u.0, IsUnique-keep p cs u.1)
  | inr h ↦ rw h (IsUnique-keep p cs u.1)
]

pub first_of-ne-none :
    {A : Type 0} (p : A → Bool) (x : A) (xs : List A)
    → Memᴰ x xs
    → p x ≡ true
    → first_of p xs ≢ none
unfolding first_of
first_of-ne-none p x [] k h = elim k [ ]
first_of-ne-none p x (y ∷ xs) (Memᴰ.head e) h = λ n. none_ne_some (sym (rw (ap p (sym e) ∙ h) at n))
first_of-ne-none p x (y ∷ xs) (Memᴰ.tail k) h = elim (Bool-cases (p y)) [
  | inl q ↦ λ n. none_ne_some (sym (rw (q, first_of) at n))
  | inr q ↦ λ n. first_of-ne-none p x xs k h (rw (q, first_of) at n)
]
