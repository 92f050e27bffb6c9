-- ===== src/HashBlocks/Settled.antt =====
-- What the numbers of a block say of its members, and the state in which all blocks are right.
use cmnw.Prelude.{
  ℕ, ◌+◌, ◌<◌, ◌≡◌, ◌≢◌, ◌⊎◌, inl, inr, Bool, false, if◌then◌else◌, none, some, List, [], ◌∷◌, ◌++◌,
  map, ◌==◌, ltb, keep, length, All, Text, same_text, truthy_text, refl, sym, ap, ◌∙◌, subst, arith,
  Memᴰ, Bool-cases,
}
use cmnw.HashBlocks.{Block, Member, Tables, of_block, max_characters_per_account}

-- How many of the members have the first hash.
unfoldable pub occurrences : Text → List Member → ℕ
occurrences h [] = 0
occurrences h (m ∷ ms) =
    (elim (truthy_text m.hash_a) [ none ↦ 0 | some k ↦ if same_text k h then 1 else 0 ])
    + occurrences h ms

-- Another member has the first hash of this one.
unfoldable pub shared_by : List Member → Member → Bool
shared_by ms m = elim (truthy_text m.hash_a) [ none ↦ false | some h ↦ ltb 1 (occurrences h ms) ]

-- The row of a block is right for the members of the block.
pub record IsSettled (b : Block) (ms : List Member) : Type 0 where
  pub counted : b.characters_count ≡ length ms
  pub confirmed : b.confirmed_count ≡ length (keep (λ m. m.is_confirmed) ms)
  pub collision : b.is_collision ≡ ltb max_characters_per_account (length ms)
  pub flags : All (λ m. m.is_confirmed ≡ shared_by ms m) ms

abbrev pub member_ids : List Member → List ℕ
member_ids = map (λ m. m.id)

abbrev pub IsAbsent : ℕ → List ℕ → Type 0
IsAbsent i = All (λ n. n ≢ i)

abbrev pub IsDistinct : List ℕ → Type 0
IsDistinct [] = Unit
IsDistinct (i ∷ is) = IsAbsent i is × IsDistinct is

-- All blocks are settled, less those with one id; the ids are those of the database.
pub record IsReady (i : ℕ) (t : Tables) : Type 0 where
  pub distinct : IsDistinct (member_ids t.members)
  pub members_below : All (λ n. n < t.next_id) (member_ids t.members)
  pub blocks_below : All (λ b. b.id < t.next_id) t.blocks
  pub others : All (λ b. (b.id ≡ i) ⊎ IsSettled b (of_block b.id t.members)) t.blocks

-- The state between two jobs.
pub record IsConsistent (t : Tables) : Type 0 where
  pub distinct : IsDistinct (member_ids t.members)
  pub members_below : All (λ n. n < t.next_id) (member_ids t.members)
  pub blocks_below : All (λ b. b.id < t.next_id) t.blocks
  pub settled : All (λ b. IsSettled b (of_block b.id t.members)) t.blocks

pub All_map :
    {A : Type 0} {P Q : A → Type 0} → ((x : A) → P x → Q x) → (xs : List A) → All P xs → All Q xs
All_map f [] a = tt
All_map f (x ∷ xs) a = (f x a.0, All_map f xs a.1)

pub All-append :
    {A : Type 0} (P : A → Type 0) (xs ys : List A) → All P xs → All P ys → All P (xs ++ ys)
All-append P [] ys a b = b
All-append P (x ∷ xs) ys a b = (a.0, All-append P xs ys a.1 b)

pub All-Memᴰ : {A : Type 0} (P : A → Type 0) {x : A} (xs : List A) → All P xs → Memᴰ x xs → P x
All-Memᴰ P [] a m = elim m [ ]
All-Memᴰ P (y ∷ xs) a (Memᴰ.head e) = subst P (sym e) a.0
All-Memᴰ P (y ∷ xs) a (Memᴰ.tail m) = All-Memᴰ P xs a.1 m

pub IsConsistent-IsReady : (i : ℕ) {t : Tables} → IsConsistent t → IsReady i t
IsConsistent-IsReady i {t} c = record {
  distinct = c.distinct;
  members_below = c.members_below;
  blocks_below = c.blocks_below;
  others = All_map (λ b s. inr s) t.blocks c.settled;
}

-- The ids of the members that pass a test are absent where those of all members are.
pub IsAbsent-keep :
    (i : ℕ) (p : Member → Bool) (ms : List Member)
    → IsAbsent i (member_ids ms)
    → IsAbsent i (member_ids (keep p ms))
IsAbsent-keep i p [] a = tt
IsAbsent-keep i p (m ∷ ms) a =
    let ih = IsAbsent-keep i p ms a.1 in
    elim (Bool-cases (p m)) [ inl h ↦ rw h (a.0, ih) | inr h ↦ rw h ih ]

pub IsDistinct-keep :
    (p : Member → Bool) (ms : List Member)
    → IsDistinct (member_ids ms)
    → IsDistinct (member_ids (keep p ms))
IsDistinct-keep p [] d = tt
IsDistinct-keep p (m ∷ ms) d =
    let ih = IsDistinct-keep p ms d.1 in
    elim (Bool-cases (p m)) [ inl h ↦ rw h (IsAbsent-keep m.id p ms d.0, ih) | inr h ↦ rw h ih ]

absent_at :
    (i : ℕ) (m : Member) (ms : List Member) → IsAbsent i (member_ids ms) → Memᴰ m ms → m.id ≢ i
absent_at i m [] a k = elim k [ ]
absent_at i m (n ∷ ms) a (Memᴰ.head e) = λ q. a.0 (ap (λ w. w.id) (sym e) ∙ q)
absent_at i m (n ∷ ms) a (Memᴰ.tail k) = absent_at i m ms a.1 k

pub ==-ne : (a b : ℕ) → a ≢ b → (a == b) ≡ false
==-ne a b h = ground arith

-- A member of one block has an id that the members of another do not have.
pub IsAbsent-of_block :
    (j : ℕ) (m : Member) (ms : List Member)
    → IsDistinct (member_ids ms)
    → Memᴰ m ms
    → m.block_id ≢ j
    → IsAbsent m.id (member_ids (of_block j ms))
IsAbsent-of_block j m [] d k h = elim k [ ]
IsAbsent-of_block j m (n ∷ ms) d (Memᴰ.head e) h =
    let m=n : m ≡ n = e in
    subst (λ w. IsAbsent w.id (member_ids (of_block j (n ∷ ms)))) (sym m=n)
      (rw (==-ne n.block_id j (λ q. h (ap (λ w. w.block_id) m=n ∙ q)))
        (IsAbsent-keep n.id _ ms d.0))
IsAbsent-of_block j m (n ∷ ms) d (Memᴰ.tail k) h =
    let ih = IsAbsent-of_block j m ms d.1 k h in
    elim (Bool-cases (n.block_id == j)) [
      | inl q ↦ rw q ((λ e. absent_at n.id m ms d.0 k (sym e)), ih)
      | inr q ↦ rw q ih
    ]

pub All-member_ids :
    (P : ℕ → Type 0) (ms : List Member)
    → ((m : Member) → Memᴰ m ms → P m.id)
    → All P (member_ids ms)
All-member_ids P [] f = tt
All-member_ids P (m ∷ ms) f = (f m (Memᴰ.head refl), All-member_ids P ms (λ n k. f n (Memᴰ.tail k)))

pub All-of_Memᴰ :
    {A : Type 0} (P : A → Type 0) (xs : List A) → ((x : A) → Memᴰ x xs → P x) → All P xs
All-of_Memᴰ P [] f = tt
All-of_Memᴰ P (x ∷ xs) f = (f x (Memᴰ.head refl), All-of_Memᴰ P xs (λ y k. f y (Memᴰ.tail k)))
